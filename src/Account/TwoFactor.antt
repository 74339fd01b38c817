-- ===== src/Account/TwoFactor.antt =====
-- backend/internal/2fa.js: the second factor of a login. `guard w user` stands for the two calls in
-- front of each operation, access.can("users:password", user) and internalUser.get.
pub mod SingleUse
pub mod Invariant
mod Tests
use hyrovi_proxy_manager.Prelude.{
  ℕ, zero, suc, Bool, true, false, not, Option, none, some, List, [], ◌∷◌, length, ◌==◌,
  if◌then◌else◌, map, ◌≡◌,
}
use hyrovi_proxy_manager.Js.Text.{Text, codes, to_upper, is_empty}
use hyrovi_proxy_manager.Errors.{
  Error, validation_error, auth_error, Result, ok, err, M, pure, throw, throw_if, branch, on_option,
  lift, ◌>>=◌, ◌>>◌,
}
use hyrovi_proxy_manager.Account.{Meta, Auth, World, Env, draw, patch_meta, get_user_password_auth}

abbrev pub backup_code_count : ℕ
backup_code_count = 8

-- otplib's own least length of a secret, and the one that the code asks for.
abbrev pub default_secret_bytes : ℕ
default_secret_bytes = 16

abbrev pub legacy_secret_bytes : ℕ
legacy_secret_bytes = 10

abbrev pub not_empty : Text → Option Text
not_empty s = if is_empty s then none else some s

-- `secret || false`
unfoldable pub secret_of : Option Text → Option Text
secret_of none = none
secret_of (some s) = not_empty s

-- A check that reads the rows and changes none.
pub ask : (World → ℕ → Result (Unit {0})) → ℕ → M World (Unit {0})
ask guard user w = (guard w user, w)

module _ (env : Env) where
  -- The backup codes, as they are shown and as they are stored.
  pub codes_from : ℕ → M World (List (Text × Text))
  codes_from zero = pure []
  codes_from (suc n) = do
    d ← draw
    let code = to_upper (env.random_hex d)
    rest ← codes_from n
    pure ((code, env.hash code d) ∷ rest)

  pub generate_backup_codes : M World (List Text × List Text)
  generate_backup_codes = do
    made ← codes_from backup_code_count
    pure (map (λ c. c.0) made, map (λ c. c.1) made)

  -- The stored codes without the first that the token matches.
  unfoldable pub use_code : Text → List Text → Option (List Text)
  use_code token [] = none
  use_code token (h ∷ rest) =
      if env.compare_hash token h
      then some rest
      else elim (use_code token rest) [ none ↦ none | some left ↦ some (h ∷ left) ]

  unfoldable pub try_backup_code : Auth → ℕ → Text → M World Bool
  try_backup_code auth user token =
      on_option (use_code (to_upper token) auth.meta.backup_codes) (pure false)
        (λ left. do patch_meta auth.id user (record auth.meta { backup_codes = left }); pure true)

  unfoldable pub totp_valid : Text → Text → M World Bool
  totp_valid token secret =
      branch (length token == 6) (lift (env.verify_totp legacy_secret_bytes token secret))
        (pure false)

  -- One call with no other call of the account while it runs. The source holds no lock between the
  -- read of the codes and their write, so calls that overlap are not modelled.
  unfoldable pub verify_for_login : ℕ → Text → M World Bool
  verify_for_login user token = do
    auth ← get_user_password_auth user
    on_option (secret_of auth.meta.totp_secret) (pure false) (λ secret. do
      valid ← totp_valid token secret
      branch valid (pure true) (try_backup_code auth user token))

  module _ (guard : World → ℕ → Result (Unit {0})) where
    pub get_status : ℕ → M World (Bool × ℕ)
    get_status user = do
      ask guard user
      auth ← get_user_password_auth user
      pure (
        auth.meta.totp_enabled,
        (if auth.meta.totp_enabled then length auth.meta.backup_codes else 0),
      )

    pub start_setup : ℕ → M World Text
    start_setup user = do
      ask guard user
      d ← draw
      auth ← get_user_password_auth user
      throw_if auth.meta.totp_enabled (validation_error (codes "2FA is already enabled"))
      patch_meta auth.id user
          (record auth.meta { totp_pending_secret = some (env.generate_secret d) })
      pure (env.generate_secret d)

    abbrev pub enabled_meta : ℕ → Text → List Text → Meta → Meta
    enabled_meta now secret hashed m = record m {
      totp_secret = some secret;
      totp_enabled = true;
      totp_enabled_at = some now;
      backup_codes = hashed;
      totp_pending_secret = none;
    }

    pub enable : ℕ → ℕ → Text → M World (List Text)
    enable now user code = do
      ask guard user
      auth ← get_user_password_auth user
      on_option (secret_of auth.meta.totp_pending_secret)
          (throw (validation_error (codes "No pending 2FA setup found")))
          (λ secret. do
            valid ← lift (env.verify_totp default_secret_bytes code secret)
            throw_if (not valid) (validation_error (codes "Invalid verification code"))
            made ← generate_backup_codes
            patch_meta auth.id user (enabled_meta now secret made.1 auth.meta)
            pure made.0)

    abbrev pub disabled_meta : Meta → Meta
    disabled_meta m = record m {
      totp_secret = none;
      totp_enabled = false;
      totp_enabled_at = none;
      backup_codes = [];
    }

    abbrev text_of : Option Text → Text
    text_of none = []
    text_of (some s) = s

    pub disable : ℕ → Text → M World (Unit {0})
    disable user code = do
      ask guard user
      auth ← get_user_password_auth user
      throw_if (not auth.meta.totp_enabled) (validation_error (codes "2FA is not enabled"))
      valid ← lift (env.verify_totp legacy_secret_bytes code (text_of auth.meta.totp_secret))
      throw_if (not valid) (auth_error (codes "Invalid verification code"))
      patch_meta auth.id user (disabled_meta auth.meta)

    pub regenerate_backup_codes : ℕ → Text → M World (List Text)
    regenerate_backup_codes user token = do
      ask guard user
      auth ← get_user_password_auth user
      throw_if (not auth.meta.totp_enabled) (validation_error (codes "2FA is not enabled"))
      on_option (secret_of auth.meta.totp_secret)
          (throw (validation_error (codes "No 2FA secret found")))
          (λ secret. do
            valid ← lift (env.verify_totp default_secret_bytes token secret)
            throw_if (not valid) (validation_error (codes "Invalid verification code"))
            made ← generate_backup_codes
            patch_meta auth.id user (record auth.meta { backup_codes = made.1 })
            pure made.0)
