-- ===== src/Account/TwoFactor/Invariant.antt =====
-- The secret of an account over the operations of backend/internal/2fa.js.
use hyrovi_proxy_manager.Prelude.{
  ℕ, zero, suc, ◌≡◌, refl, subst, true, Option, none, some, some_cancel, List, [], ◌∷◌,
}
use hyrovi_proxy_manager.Js.Text.{Text}
use hyrovi_proxy_manager.Errors.{Result, ok, err}
use hyrovi_proxy_manager.Hoare.{
  Ensures, Any, Outcome, Ensures-bind, Ensures-pure, Ensures-throw, Ensures-throw_if, Ensures-lift,
  Ensures-branch, Ensures-option, Ensures-weaken, Outcome-state,
}
use hyrovi_proxy_manager.Account.{Meta, Auth, World, Env, patch_meta, get_user_password_auth}
use hyrovi_proxy_manager.Account.Rows.{
  OfRows, EveryMeta, draw-OfRows, get_user_password_auth-OfRows, patch_meta-OfRows, find-EveryMeta,
  patch_rows-EveryMeta,
}
use hyrovi_proxy_manager.Account.TwoFactor.{
  secret_of, codes_from, generate_backup_codes, totp_valid, try_backup_code, verify_for_login, ask,
  start_setup, enable, disable, regenerate_backup_codes,
}

-- Switched on, there is a secret to check a code against.
abbrev pub HasSecret : Meta → Type 0
HasSecret m = m.totp_enabled ≡ true → (s : Text) × (secret_of m.totp_secret ≡ some s)

abbrev pub Secured : World → Type 0
Secured = OfRows (EveryMeta HasSecret)

secret_of_idem : (o : Option Text) {s : Text} → secret_of o ≡ some s → secret_of (some s) ≡ some s
unfolding secret_of
secret_of_idem none h = cc
secret_of_idem (some []) h = cc
secret_of_idem (some (c ∷ t)) h =
    subst {A = Text} (λ x. secret_of (some x) ≡ some x) (some_cancel h) refl

auth-Secured : (user : ℕ) → Ensures Secured (λ a. HasSecret a.meta) (get_user_password_auth user)
auth-Secured user =
    get_user_password_auth-OfRows (EveryMeta HasSecret) user (λ a. HasSecret a.meta)
      (λ u l a h e. find-EveryMeta HasSecret user l h e)

patch-Secured :
    (id user : ℕ) (m : Meta) → HasSecret m → Ensures Secured (Any Secured) (patch_meta id user m)
patch-Secured id user m h =
    patch_meta-OfRows (EveryMeta HasSecret) id user m
      (λ u l i. patch_rows-EveryMeta HasSecret id user m l h i)

module _ (env : Env) where
  codes-Secured : (n : ℕ) → Ensures Secured (λ _. Unit {0}) (codes_from env n)
  unfolding codes_from
  codes-Secured zero = Ensures-pure _ _ tt
  codes-Secured (suc n) =
      Ensures-bind _ (draw-OfRows (EveryMeta HasSecret))
        (λ d _. Ensures-bind _ (codes-Secured n) (λ rest _. Ensures-pure _ _ tt))

  made-Secured : Ensures Secured (λ _. Unit {0}) (generate_backup_codes env)
  unfolding generate_backup_codes
  made-Secured = Ensures-bind _ (codes-Secured _) (λ _ _. Ensures-pure _ _ tt)

  try_backup_code-Secured :
      (a : Auth) (user : ℕ) (token : Text)
      → HasSecret a.meta
      → Ensures Secured (λ _. Unit {0}) (try_backup_code env a user token)
  unfolding try_backup_code
  try_backup_code-Secured a user token h =
      Ensures-option _ _ (λ _. Ensures-pure _ _ tt)
        (λ left _. Ensures-bind _ (patch-Secured _ _ _ h) (λ _ _. Ensures-pure _ _ tt))

  totp_valid-Secured :
      (token secret : Text) → Ensures Secured (λ _. Unit {0}) (totp_valid env token secret)
  unfolding totp_valid
  totp_valid-Secured token secret =
      Ensures-branch _ _ (λ _. Ensures-weaken _ (Ensures-lift _ _) (λ _ _. tt))
        (λ _. Ensures-pure _ _ tt)

  verify_for_login-Secured :
      (user : ℕ) (token : Text) → Ensures Secured (λ _. Unit {0}) (verify_for_login env user token)
  unfolding verify_for_login
  verify_for_login-Secured user token = Ensures-bind _ (auth-Secured user) (λ a h.
      Ensures-option _ _ (λ _. Ensures-pure _ _ tt)
        (λ secret _. Ensures-bind _ (totp_valid-Secured token secret) (λ valid _.
          Ensures-branch _ _ (λ _. Ensures-pure _ _ tt)
            (λ _. try_backup_code-Secured a user token h))))

  module _ (guard : World → ℕ → Result (Unit {0})) where
    ask-Secured : (user : ℕ) → Ensures Secured (λ _. Unit {0}) (ask guard user)
    unfolding ask
    ask-Secured user = record { run = λ w i. go (guard w user) w i }
      where
        go :
            (r : Result (Unit {0})) (w : World) → Secured w → Outcome Secured (λ _. Unit {0}) (r, w)
        go (ok u) w i = (tt, i)
        go (err e) w i = i

    start_setup-Secured : (user : ℕ) → Ensures Secured (λ _. Unit {0}) (start_setup env guard user)
    unfolding start_setup
    start_setup-Secured user = Ensures-bind _ (ask-Secured user) (λ _ _.
        Ensures-bind _ (draw-OfRows (EveryMeta HasSecret)) (λ d _.
          Ensures-bind _ (auth-Secured user) (λ a h.
            Ensures-bind _ (Ensures-throw_if _ _ _)
              (λ _ _. Ensures-bind _ (patch-Secured _ _ _ h) (λ _ _. Ensures-pure _ _ tt)))))

    enable-Secured :
        (now user : ℕ) (code : Text)
        → Ensures Secured (λ _. Unit {0}) (enable env guard now user code)
    unfolding enable
    enable-Secured now user code = Ensures-bind _ (ask-Secured user) (λ _ _.
        Ensures-bind _ (auth-Secured user) (λ a h.
          Ensures-option _ _ (λ _. Ensures-throw _ _)
            (λ secret e. Ensures-bind _ (Ensures-lift _ _) (λ valid _.
              Ensures-bind _ (Ensures-throw_if _ _ _) (λ _ _. Ensures-bind _ made-Secured (λ made _.
                Ensures-bind _
                  (patch-Secured _ _ _ (λ _. (secret, secret_of_idem a.meta.totp_pending_secret e)))
                  (λ _ _. Ensures-pure _ _ tt)))))))

    disable-Secured :
        (user : ℕ) (code : Text) → Ensures Secured (Any Secured) (disable env guard user code)
    unfolding disable
    disable-Secured user code = Ensures-bind _ (ask-Secured user) (λ _ _.
        Ensures-bind _ (auth-Secured user) (λ a h. Ensures-bind _ (Ensures-throw_if _ _ _) (λ _ _.
          Ensures-bind _ (Ensures-lift _ _) (λ valid _.
            Ensures-bind _ (Ensures-throw_if _ _ _) (λ _ _. patch-Secured _ _ _ (λ e. cc))))))

    regenerate_backup_codes-Secured :
        (user : ℕ) (token : Text)
        → Ensures Secured (λ _. Unit {0}) (regenerate_backup_codes env guard user token)
    unfolding regenerate_backup_codes
    regenerate_backup_codes-Secured user token = Ensures-bind _ (ask-Secured user) (λ _ _.
        Ensures-bind _ (auth-Secured user) (λ a h. Ensures-bind _ (Ensures-throw_if _ _ _) (λ _ _.
          Ensures-option _ _ (λ _. Ensures-throw _ _)
            (λ secret _. Ensures-bind _ (Ensures-lift _ _) (λ valid _.
              Ensures-bind _ (Ensures-throw_if _ _ _) (λ _ _. Ensures-bind _ made-Secured (λ made _.
                Ensures-bind _ (patch-Secured _ _ _ h) (λ _ _. Ensures-pure _ _ tt))))))))

-- The operations, each with the account and what it is given.
pub data Request : Type 0 where
  starts : ℕ → Request
  enables : ℕ → ℕ → Text → Request
  disables regenerates logs_in : ℕ → Text → Request

pub step : Env → (World → ℕ → Result (Unit {0})) → Request → World → World
step env guard (starts user) w = (start_setup env guard user w).1
step env guard (enables now user code) w = (enable env guard now user code w).1
step env guard (disables user code) w = (disable env guard user code w).1
step env guard (regenerates user token) w = (regenerate_backup_codes env guard user token w).1
step env guard (logs_in user token) w = (verify_for_login env user token w).1

pub serve : Env → (World → ℕ → Result (Unit {0})) → List Request → World → World
serve env guard [] w = w
serve env guard (r ∷ rs) w = serve env guard rs (step env guard r w)

step-Secured :
    (env : Env) (guard : World → ℕ → Result (Unit {0})) (r : Request) (w : World)
    → Secured w
    → Secured (step env guard r w)
unfolding step
step-Secured env guard (starts user) w h =
    Outcome-state Secured _ _ ((start_setup-Secured env guard user).run w h)
step-Secured env guard (enables now user code) w h =
    Outcome-state Secured _ _ ((enable-Secured env guard now user code).run w h)
step-Secured env guard (disables user code) w h =
    Outcome-state Secured _ _ ((disable-Secured env guard user code).run w h)
step-Secured env guard (regenerates user token) w h =
    Outcome-state Secured _ _ ((regenerate_backup_codes-Secured env guard user token).run w h)
step-Secured env guard (logs_in user token) w h =
    Outcome-state Secured _ _ ((verify_for_login-Secured env user token).run w h)

-- Whatever operations on the second factor run, and whatever queries fail, if every account with
-- the factor switched on has a secret to check codes against, then every such account still has one.
pub serve-Secured :
    (env : Env) (guard : World → ℕ → Result (Unit {0})) (rs : List Request) (w : World)
    → Secured w
    → Secured (serve env guard rs w)
unfolding serve
serve-Secured env guard [] w h = h
serve-Secured env guard (r ∷ rs) w h = serve-Secured env guard rs _ (step-Secured env guard r w h)
