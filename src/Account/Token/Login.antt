-- ===== src/Account/Token/Login.antt =====
-- What stands behind a full token, a challenge and an open session.
use hyrovi_proxy_manager.Prelude.{
  ℕ, ◌≡◌, refl, ap, sym, ◌∙◌, subst, Bool, true, false, Option, none, some, some_cancel, List, [],
  ◌∷◌, arith, find?,
}
use hyrovi_proxy_manager.Js.Text.{Text, codes, trim, to_lower}
use hyrovi_proxy_manager.Errors.{ok}
use hyrovi_proxy_manager.Hoare.{
  Ensures, Ensures-bind, Ensures-pure, Ensures-throw, Ensures-throw_if, Ensures-lift,
  Ensures-branch, Ensures-option, Ensures-weaken, Outcome-ok,
}
use hyrovi_proxy_manager.Account.{
  User, Auth, World, Payload, Env, belongs_to, find_auth, is_enabled,
}
use hyrovi_proxy_manager.Account.Rows.{
  OfRows, query-OfRows, draw-OfRows, find_auth-OfRows, get_user_password_auth-OfRows,
}
use hyrovi_proxy_manager.Account.Token.{
  Answer, signed, challenge, challenge_scope, logs_in_as, is_active, find_user, create_token,
  load_token, full_token, get_token_from_email, roles_cover, is_stale, open_session,
}

-- No query of a login changes a row.
abbrev pub Same : List User → List Auth → List User → List Auth → Type 0
Same users auths u l = (u ≡ users) × (l ≡ auths)

module _ (users : List User) (auths : List Auth) where
  abbrev pub Kept : World → Type 0
  Kept = OfRows (Same users auths)

  find_user-Kept : (p : User → Bool) → Ensures Kept (λ o. find? p users ≡ o) (find_user p)
  unfolding find_user
  find_user-Kept p =
      Ensures-bind _ (query-OfRows (Same users auths))
        (λ _ _. record { run = λ w i. (ap (λ u. find? p u) (sym i.0), i) })

  find_auth-Kept :
      (user : ℕ) → Ensures Kept (λ o. find? (belongs_to user) auths ≡ o) (find_auth user)
  find_auth-Kept user =
      find_auth-OfRows (Same users auths) user (λ o. find? (belongs_to user) auths ≡ o)
        (λ u l i. ap (λ a. find? (belongs_to user) a) (sym i.1))

  is_enabled-Kept :
      (user : ℕ) {a : Auth}
      → find? (belongs_to user) auths ≡ some a
      → Ensures Kept (λ b. a.meta.totp_enabled ≡ b) (is_enabled user)
  unfolding is_enabled
  is_enabled-Kept user {a} there =
      Ensures-bind _
        (get_user_password_auth-OfRows (Same users auths) user (λ b. a ≡ b)
          (λ u l b i e.
            let row : find? (belongs_to user) auths ≡ some b =
              subst {A = List Auth} (λ k. find? (belongs_to user) k ≡ some b) i.1 e in
            some_cancel (sym there ∙ row)))
        (λ b e. Ensures-pure _ _ (ap (λ c. c.meta.totp_enabled) e))

  module _ (env : Env) (now : ℕ) where
    create_token-Kept :
        (user : ℕ) (scope : List Text) (expires : Text)
        → Ensures Kept
            (λ t.
              (d : ℕ) × (env.sign d
                  (record { user_id = user; scope = scope; issued_at = now })
                  expires
                ≡ ok t))
            (create_token env now user scope expires)
    unfolding create_token
    create_token-Kept user scope expires =
        Ensures-bind _ (draw-OfRows (Same users auths))
          (λ d _. Ensures-weaken _ (Ensures-lift _ _) (λ t e. (d, e)))

    pub full_token-Kept :
        (user : ℕ) (scope : List Text) (expiry : Text)
        → Ensures Kept
            (λ a.
              (t : Text) × (e : Text) × (a ≡ signed t e)
              × (d : ℕ) × (env.sign d
                    (record { user_id = user; scope = scope; issued_at = now })
                    expiry
                  ≡ ok t))
            (full_token env now user scope expiry)
    unfolding full_token
    full_token-Kept user scope expiry =
        Ensures-option _ _ (λ _. Ensures-throw _ _)
          (λ period _.
            Ensures-bind _ (create_token-Kept user scope expiry)
              (λ t made. Ensures-pure _ _ (t, _, refl, made.0, made.1)))

    -- The second factor decides between a full token and a challenge of five minutes.
    abbrev pub AnswerFor : User → Auth → Answer → Type 0
    AnswerFor user auth (signed t e) = auth.meta.totp_enabled ≡ false
    AnswerFor user auth (challenge t) =
        (auth.meta.totp_enabled ≡ true)
        × ((d : ℕ) × (env.sign d
                (record { user_id = user.id; scope = challenge_scope ∷ []; issued_at = now })
                (codes "5m")
              ≡ ok t))

    pub record PasswordChecked (identity secret : Text) (answer : Answer) : Type 0 where
      pub user : User
      pub auth : Auth
      pub found : find? (logs_in_as (trim (to_lower identity))) users ≡ some user
      pub row : find? (belongs_to user.id) auths ≡ some auth
      pub correct : env.compare_hash secret auth.secret ≡ true
      pub decided : AnswerFor user auth answer

    pub get_token_from_email-keeps :
        (identity secret : Text) (scope expiry : Option Text)
        → Ensures Kept
            (PasswordChecked identity secret)
            (get_token_from_email env now identity secret scope expiry)
    unfolding get_token_from_email
    get_token_from_email-keeps identity secret scope expiry =
        Ensures-bind _ (find_user-Kept _) (λ o found.
          Ensures-option _ o (λ _. Ensures-throw _ _)
            (λ user is_user. Ensures-bind _ (find_auth-Kept user.id) (λ r row.
              Ensures-option _ r (λ _. Ensures-throw _ _)
                (λ auth is_auth. Ensures-bind _ (Ensures-throw_if _ _ _) (λ _ right.
                  Ensures-bind _ (Ensures-throw_if _ _ _) (λ _ _.
                    Ensures-bind _ (is_enabled-Kept user.id (row ∙ is_auth)) (λ on enabled.
                      Ensures-branch _ on
                        (λ is_on. Ensures-bind _ (create_token-Kept _ _ _) (λ t made.
                          Ensures-pure _ _ (record {
                            user = user;
                            auth = auth;
                            found = found ∙ is_user;
                            row = row ∙ is_auth;
                            correct = ground (arith, right);
                            decided = (enabled ∙ is_on, made);
                          })))
                        (λ is_off.
                          Ensures-weaken _ (full_token-Kept _ _ _) (λ a (t, e, is_signed, d, made).
                            record {
                              user = user;
                              auth = auth;
                              found = found ∙ is_user;
                              row = row ∙ is_auth;
                              correct = ground (arith, right);
                              decided =
                                  subst {A = Answer} (AnswerFor user auth) (sym is_signed)
                                    (enabled ∙ is_off);
                            })))))))))

-- The password alone: when a login by e-mail and password returns, the account is neither deleted
-- nor disabled and the password fits its hash; a full token is given only if the second factor is
-- off, and otherwise a challenge that is signed for the scope 2fa-challenge alone.
pub get_token_from_email-PasswordChecked :
    (env : Env) (now : ℕ) (identity secret : Text) (scope expiry : Option Text) (w : World)
    {answer : Answer}
    → (get_token_from_email env now identity secret scope expiry w).0 ≡ ok answer
    → PasswordChecked w.users w.auths env now identity secret answer
get_token_from_email-PasswordChecked env now identity secret scope expiry w h =
    Outcome-ok (Kept w.users w.auths) (PasswordChecked w.users w.auths env now identity secret) _
      ((get_token_from_email-keeps w.users w.auths env now identity secret scope expiry).run w
        (refl, refl))
      h

-- A session that is open for a user.
pub record Session (env : Env) (now : ℕ) (token : Text) (w : World) (user : User) : Type 0 where
  pub payload : Payload
  pub loaded : load_token env now token ≡ ok payload
  pub active : find? (is_active payload.user_id) w.users ≡ some user
  pub scopes : roles_cover payload.scope user.roles ≡ true
  pub fresh : is_stale payload.issued_at (find? (belongs_to user.id) w.auths) ≡ false

module _ (env : Env) (now : ℕ) (token : Text) (w : World) where
  open_session-keeps :
      Ensures
        (Kept w.users w.auths)
        (λ o. (u : User) → o ≡ some u → Session env now token w u)
        (open_session env now token)
  unfolding open_session
  open_session-keeps = Ensures-bind _ (Ensures-throw_if _ _ _) (λ _ _.
      Ensures-bind _ (Ensures-lift _ _) (λ p loaded.
        Ensures-branch _ _
          (λ _. Ensures-bind _ (find_user-Kept w.users w.auths _) (λ o found.
            Ensures-option _ o (λ _. Ensures-throw _ _)
              (λ user is_user. Ensures-bind _ (Ensures-throw_if _ _ _) (λ _ covered.
                Ensures-bind _ (find_auth-Kept w.users w.auths user.id) (λ r row.
                  Ensures-bind _ (Ensures-throw_if _ _ _) (λ _ fresh. Ensures-pure _ _ (λ u e.
                    subst {A = User} (Session env now token w) (some_cancel e) (record {
                      payload = p;
                      loaded = loaded;
                      active = found ∙ is_user;
                      scopes = ground (arith, covered);
                      fresh = ap (λ a. is_stale p.issued_at a) row ∙ fresh;
                    }))))))))
          (λ _. Ensures-pure _ none (λ u e. cc))))

-- A session that opens for a user has a token that loads, names a user neither deleted nor
-- disabled who has every scope of the token as a role, and was issued no earlier than the last
-- change of the password.
pub open_session-Session :
    (env : Env) (now : ℕ) (token : Text) (w : World) {user : User}
    → (open_session env now token w).0 ≡ ok (some user)
    → Session env now token w user
open_session-Session env now token w {user} h =
    Outcome-ok (Kept w.users w.auths) (λ o. (u : User) → o ≡ some u → Session env now token w u) _
      ((open_session-keeps env now token w).run w (refl, refl)) h user refl
