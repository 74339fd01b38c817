-- ===== src/Account/TwoFactor/SingleUse.antt =====
-- Backup codes of backend/internal/2fa.js over two logins of which one ends before the other starts.
use hyrovi_proxy_manager.Prelude.{
  ℕ, ◌≤◌, ◌≡◌, ◌≢◌, refl, ◌∙◌, subst, Bool, true, false, inl, inr, Option, none, some, some_cancel,
  List, [], ◌∷◌, arith, length, filter, find?, ◌==◌, Bool-cases, Option-cases,
}
use hyrovi_proxy_manager.Js.Text.{Text, to_upper}
use hyrovi_proxy_manager.Errors.{ok, pure, control, branch, on_option, ◌>>=◌, ◌>>◌}
use hyrovi_proxy_manager.Hoare.{
  Ensures, Ensures-bind, Ensures-pure, Ensures-option, Outcome-ok, Returned, bind-Returned,
  Ensures-Returned, Returned-ok,
}
use hyrovi_proxy_manager.Account.{
  Auth, User, World, Env, query, belongs_to, patch_meta, get_user_password_auth,
}
use hyrovi_proxy_manager.Account.Rows.{
  OfRows, query-OfRows, get_user_password_auth-OfRows, find-patch_rows,
}
use hyrovi_proxy_manager.Account.TwoFactor.{
  secret_of, use_code, try_backup_code, totp_valid, verify_for_login,
}

-- The account of the user is this row.
abbrev HasRow : ℕ → Auth → List User → List Auth → Type 0
HasRow user a u l = find? (belongs_to user) l ≡ some a

row-HasRow :
    (user : ℕ) (a : Auth)
    → Ensures (OfRows (HasRow user a)) (λ b. a ≡ b) (get_user_password_auth user)
row-HasRow user a =
    get_user_password_auth-OfRows (HasRow user a) user (λ b. a ≡ b)
      (λ u l b i e. let both : some a ≡ some b = ground (arith, i, e) in some_cancel both)

module _ (env : Env) where
  use_code-none :
      (t : Text) (hs : List Text)
      → length (filter (env.compare_hash t) hs) ≤ 0
      → use_code env t hs ≡ none
  unfolding use_code
  use_code-none t [] few = refl
  use_code-none t (h ∷ hs) few = elim (Bool-cases (env.compare_hash t h)) [
    | inl e ↦ ground (arith, e, few)
    | inr e ↦
        let rest : use_code env t hs ≡ none = use_code-none t hs (ground (arith, e, few)) in
        rw (e, rest) refl
  ]

  use_code-spent :
      (t : Text) (hs : List Text) {left : List Text}
      → length (filter (env.compare_hash t) hs) ≤ 1
      → use_code env t hs ≡ some left
      → use_code env t left ≡ none
  unfolding use_code
  use_code-spent t [] few h = cc
  use_code-spent t (x ∷ hs) {left} few h = elim (Bool-cases (env.compare_hash t x)) [
    | inl e ↦
        let same : hs ≡ left = ground (arith, e, h) in
        let none_left : length (filter (env.compare_hash t) hs) ≤ 0 = ground (arith, e, few) in
        subst {A = List Text} (λ l. use_code env t l ≡ none) same (use_code-none t hs none_left)
    | inr e ↦
        let fewer : length (filter (env.compare_hash t) hs) ≤ 1 = ground (arith, e, few) in
        elim (Option-cases (use_code env t hs)) [
          | inl n ↦ ground (arith, e, h, n)
          | inr (l, f) ↦
              let same : x ∷ l ≡ left = ground (arith, e, h, f) in
              let rest : use_code env t l ≡ none = use_code-spent t hs fewer f in
              subst {A = List Text} (λ k. use_code env t k ≡ none) same (rw (e, rest) refl)
        ]
  ]

module _ (env : Env) (user : ℕ) (token : Text) where
  -- How many stored codes the token matches.
  abbrev pub matching : List Text → ℕ
  matching hs = length (filter (env.compare_hash (to_upper token)) hs)

  -- The row of the user holds no code that the token matches.
  abbrev Spent : World → Type 0
  Spent w =
      (x : Auth) × (find? (belongs_to user) w.auths ≡ some x)
      × (use_code env (to_upper token) x.meta.backup_codes ≡ none)

  refused :
      (x : Auth)
      → use_code env (to_upper token) x.meta.backup_codes ≡ none
      → (length token == 6) ≡ false
      → Ensures (OfRows (HasRow user x)) (λ b. b ≡ false) (verify_for_login env user token)
  unfolding verify_for_login totp_valid control try_backup_code
  refused x spent long = Ensures-bind _ (row-HasRow user x) (λ y same.
      subst {A = Auth}
        (λ z.
          Ensures (OfRows (HasRow user x)) (λ b. b ≡ false)
            (on_option (secret_of z.meta.totp_secret) (pure false) (λ secret.
              totp_valid env token secret >>= λ valid.
              branch valid (pure true) (try_backup_code env z user token))))
        same
        (Ensures-option _ (secret_of x.meta.totp_secret) (λ _. Ensures-pure _ false refl)
          (λ secret _. rw (long, spent) (record { run = λ w i. (refl, i) }))))

  patched :
      (a : Auth) (left : List Text) (w : World)
      → find? (belongs_to user) w.auths ≡ some a
      → use_code env (to_upper token) left ≡ none
      → Returned (λ _ v. Spent v) (patch_meta a.id user (record a.meta { backup_codes = left }) w)
  unfolding patch_meta
  patched a left w there spent =
      bind-Returned (λ _ v. Unit {0} × (find? (belongs_to user) v.auths ≡ some a)) (λ _ v. Spent v)
        _ _
        (Ensures-Returned (OfRows (HasRow user a)) _ query w (query-OfRows (HasRow user a)) there)
        (λ _ v (_, row). (
          record a { meta = record a.meta { backup_codes = left } },
          find-patch_rows user (record a.meta { backup_codes = left }) v.auths row,
          spent,
        ))

  -- What a login that returns `true` leaves behind.
  abbrev Leaves : Bool → World → Type 0
  Leaves b w = b ≡ true → Spent w

  tried :
      (a : Auth) (o : Option (List Text)) (w : World)
      → use_code env (to_upper token) a.meta.backup_codes ≡ o
      → matching a.meta.backup_codes ≤ 1
      → find? (belongs_to user) w.auths ≡ some a
      → Returned Leaves (
          on_option o
            (pure false)
            (λ left. do patch_meta a.id user (record a.meta { backup_codes = left }); pure true)
            w)
  unfolding on_option
  tried a none w used one there = λ e. cc
  tried a (some left) w used one there =
      bind-Returned (λ _ v. Spent v) Leaves _ _
        (patched a left w there (use_code-spent env (to_upper token) a.meta.backup_codes one used))
        (λ _ v spent e. spent)

  after_row :
      (a : Auth) (o : Option Text) (w : World)
      → find? (belongs_to user) w.auths ≡ some a
      → (length token == 6) ≡ false
      → matching a.meta.backup_codes ≤ 1
      → Returned Leaves (
          on_option o
            (pure false)
            (λ secret. totp_valid env token secret >>= λ valid.
              branch valid (pure true) (try_backup_code env a user token))
            w)
  unfolding totp_valid control try_backup_code
  after_row a none w there long one = λ e. cc
  after_row a (some secret) w there long one = rw long (tried a _ w refl one there)

  first_login :
      (a : Auth) (w : World)
      → find? (belongs_to user) w.auths ≡ some a
      → (length token == 6) ≡ false
      → matching a.meta.backup_codes ≤ 1
      → Returned Leaves (verify_for_login env user token w)
  unfolding verify_for_login
  first_login a w there long one =
      bind-Returned (λ b v. (a ≡ b) × (find? (belongs_to user) v.auths ≡ some a)) Leaves _ _
        (Ensures-Returned (OfRows (HasRow user a)) (λ b. a ≡ b) (get_user_password_auth user) w
          (row-HasRow user a) there)
        (λ b v h.
          subst {A = Auth}
            (λ z. Returned Leaves (
              on_option (secret_of z.meta.totp_secret) (pure false)
                (λ secret. totp_valid env token secret >>= λ valid.
                  branch valid (pure true) (try_backup_code env z user token))
                v))
            h.0 (after_row a _ v h.1 long one))

  no_second :
      (w v : World)
      → Spent v
      → (length token == 6) ≡ false
      → (verify_for_login env user token v).0 ≢ ok true
  no_second w v (x, there, spent) long e =
      let answer : true ≡ false =
        Outcome-ok (OfRows (HasRow user x)) (λ b. b ≡ false) _ ((refused x spent long).run v there)
          e in
      cc

-- Two logins of one user, neither with another call of the same account while it runs: when a token of
-- another length than six, which matches at most one of the codes stored for the user's account, is
-- accepted by the first, then the second, with the same token, is not accepted, whatever queries fail
-- and whatever happens in between, as long as it leaves the row of the account as it is.
pub verify_for_login_once :
    (env : Env) (user : ℕ) (token : Text) (a : Auth) (w v u : World)
    → find? (belongs_to user) w.auths ≡ some a
    → (length token == 6) ≡ false
    → matching env user token a.meta.backup_codes ≤ 1
    → verify_for_login env user token w ≡ (ok true, v)
    → find? (belongs_to user) u.auths ≡ find? (belongs_to user) v.auths
    → (verify_for_login env user token u).0 ≢ ok true
verify_for_login_once env user token a w v u there long one done kept =
    let (x, row, spent) =
      Returned-ok (Leaves env user token) _ (first_login env user token a w there long one) done
        refl in
    no_second env user token w u (x, kept ∙ row, spent) long
