-- ===== src/Account/Token/SecondFactor.antt =====
-- The second factor in a login of backend/internal/token.js and backend/internal/2fa.js.
use hyrovi_proxy_manager.Prelude.{
  ℕ, ◌≡◌, ◌≢◌, refl, ap, sym, ◌∙◌, subst, Bool, true, false, not, ◌||◌, find?-All, Option, some,
  List, [], ◌∷◌, ◌++◌, arith, All, ◌==◌, if◌then◌else◌,
}
use hyrovi_proxy_manager.Js.Text.{Text, codes, text_eq, mem_text, is_empty}
use hyrovi_proxy_manager.Errors.{
  Error, auth_error, Result, ok, err, M, throw_if, lift, control, bind_at, ◌>>=◌, ◌>>◌,
}
use hyrovi_proxy_manager.Hoare.{ok_injective}
use hyrovi_proxy_manager.Account.{User, World, Payload, Env}
use hyrovi_proxy_manager.Account.TwoFactor.{verify_for_login}
use hyrovi_proxy_manager.Account.Token.{
  Answer, challenge, challenge_scope, user_scope, or_text, is_active, load_token, full_token,
  get_token_from_email, invalid_challenge, head_is_challenge, hide_error, verify_2fa, roles_cover,
  open_session, scope_of,
}
use hyrovi_proxy_manager.Account.Token.Login.{
  get_token_from_email-PasswordChecked, open_session-Session,
}

pub record Proven (env : Env) (now : ℕ) (token code : Text) (w : World) : Type 0 where
  pub payload : Payload
  pub loaded : load_token env now token ≡ ok payload
  pub asked : head_is_challenge payload.scope ≡ true
  pub named : (payload.user_id == 0) ≡ false
  pub accepted : (verify_for_login env payload.user_id code w).0 ≡ ok true

module _ (env : Env) (now : ℕ) (token code : Text) (w : World) where
  checks_passed :
      {A : Type 0} (asked named : Bool) (e f g : Error) (login : M World Bool) (k : M World A)
      {a : A}
      → ((throw_if (not asked) e
            >> (throw_if named f >> (login >>= λ valid. throw_if (not valid) g >> k)))
          w).0
        ≡ ok a
      → (asked ≡ true) × (named ≡ false) × ((login w).0 ≡ ok true)
  unfolding control
  checks_passed false named e f g login k h = cc
  checks_passed true true e f g login k h = cc
  checks_passed {A} true false e f g login k {a} h = (refl, refl, last (login w) h)
    where
      last :
          (x : Result Bool × World)
          → (bind_at x (λ valid. throw_if (not valid) g >> k)).0 ≡ ok a
          → x.0 ≡ ok true
      last (ok true, v) h = refl
      last (ok false, v) h = cc
      last (err e, v) h = cc

  loaded-Proven :
      (r : Result Payload) (k : Payload → M World Answer) {a : Answer}
      → load_token env now token ≡ r
      → ((lift (hide_error r) >>= λ p.
            throw_if (not (head_is_challenge p.scope)) invalid_challenge
            >> (throw_if (p.user_id == 0) invalid_challenge
                >> (verify_for_login env p.user_id code >>= λ valid.
                    throw_if (not valid) (auth_error (codes "Invalid verification code")) >> k p)))
          w).0
        ≡ ok a
      → Proven env now token code w
  unfolding lift
  loaded-Proven (err e) k l h = cc
  loaded-Proven (ok p) k l h =
      let passed = checks_passed _ _ _ _ _ (verify_for_login env p.user_id code) (k p) h in
      record { payload = p; loaded = l; asked = passed.0; named = passed.1; accepted = passed.2 }

-- A full token from a challenge: its token loads, has the scope 2fa-challenge in front and names a
-- user, and the code is accepted for that user as the second factor.
pub verify_2fa-Proven :
    (env : Env) (now : ℕ) (token code : Text) (expiry : Option Text) (w : World) {answer : Answer}
    → (verify_2fa env now token code expiry w).0 ≡ ok answer
    → Proven env now token code w
unfolding verify_2fa
verify_2fa-Proven env now token code expiry w h =
    loaded-Proven env now token code w (load_token env now token)
      (λ p. full_token env now p.user_id (user_scope ∷ []) (or_text expiry (codes "1d"))) refl h

-- Signed tokens are read back as they were signed.
abbrev pub ReadsBack : Env → Type 0
ReadsBack env =
    (d now : ℕ) (p q : Payload) (expires token : Text)
    → env.sign d p expires ≡ ok token
    → env.verify_jwt now token ≡ ok q
    → q ≡ p

loaded_scope :
    (empty : Bool) (e : Error) (r : Result Payload) {p : Payload}
    → (if empty
        then err e
        else elim r [ err f ↦ err f | ok q ↦ ok (record q { scope = scope_of q.scope }) ])
      ≡ ok p
    → (q : Payload) × (r ≡ ok q) × (scope_of q.scope ≡ p.scope)
loaded_scope true e r h = cc
loaded_scope false e (err f) h = cc
loaded_scope false e (ok q) h = (q, refl, ap (λ p. p.scope) (ok_injective h))

load_token-scope :
    (env : Env) (now : ℕ) (token : Text) {p : Payload}
    → load_token env now token ≡ ok p
    → (q : Payload) × (env.verify_jwt now token ≡ ok q) × (scope_of q.scope ≡ p.scope)
unfolding load_token
load_token-scope env now token h =
    loaded_scope (is_empty token || text_eq token (codes "null")) (auth_error (codes "Empty token"))
      (env.verify_jwt now token) h

lone_challenge : scope_of (challenge_scope ∷ []) ≡ challenge_scope ∷ []
unfolding scope_of text_eq
lone_challenge = refl

-- A challenge is no key: if the signing package reads tokens back as they were signed and no user has
-- a role of the name 2fa-challenge, the challenge that a login gives never opens a session of a user,
-- at any later time and in any later state.
pub challenge-no_session :
    (env : Env) (now later : ℕ) (identity secret : Text) (scope expiry : Option Text) (w v : World)
    {token : Text} {user : User}
    → ReadsBack env
    → All (λ u. mem_text challenge_scope (u.roles ++ (user_scope ∷ [])) ≡ false) v.users
    → (get_token_from_email env now identity secret scope expiry w).0 ≡ ok (challenge token)
    → (open_session env later token v).0 ≢ ok (some user)
challenge-no_session env now later identity secret scope expiry w v {token} {user} reads roles given
      opened =
    let checked =
      get_token_from_email-PasswordChecked env now identity secret scope expiry w given in
    let session = open_session-Session env later token v opened in
    let (q, read, scope_is) = load_token-scope env later token session.loaded in
    let same = reads checked.decided.1.0 later _ q (codes "5m") token checked.decided.1.1 read in
    let lone : session.payload.scope ≡ challenge_scope ∷ [] =
      sym scope_is ∙ (ap (λ p. scope_of p.scope) same ∙ lone_challenge) in
    let covered : roles_cover (challenge_scope ∷ []) user.roles ≡ true =
      subst {A = List Text} (λ s. roles_cover s user.roles ≡ true) lone session.scopes in
    let no_role = find?-All _ (is_active session.payload.user_id) v.users roles session.active in
    ground (arith, covered, no_role)
