-- ===== src/Account.antt =====
-- The account rows of backend/models (user.js, auth.js) and how backend/internal reaches them.
-- Each query fails as `faults` says, and succeeds beyond its end.
pub mod Rows
pub mod TwoFactor
pub mod Token
use hyrovi_proxy_manager.Prelude.{
  ℕ, suc, ◌≡◌, refl, Bool, true, false, ◌&&◌, ◌||◌, not, Option, none, some, List, [], ◌∷◌, find?,
  if◌then◌else◌, ◌==◌,
}
use hyrovi_proxy_manager.Js.Text.{Text, codes, text_eq}
use hyrovi_proxy_manager.Errors.{
  Error, io_error, item_not_found_error, Result, ok, err, M, pure, throw, throw_if, on_option,
  ◌>>=◌, ◌>>◌,
}
use hyrovi_proxy_manager.Hoare.{Ensures, Any, Outcome, Ensures-bind}

pub record User : Type 0 where
  pub id : ℕ
  pub email : Text
  pub is_deleted : Bool
  pub is_disabled : Bool
  pub roles : List Text

-- `auth.meta`; `totp_enabled` holds for the value true alone.
pub record Meta : Type 0 where
  pub totp_secret : Option Text
  pub totp_pending_secret : Option Text
  pub totp_enabled : Bool
  pub totp_enabled_at : Option ℕ
  pub backup_codes : List Text
  pub password_changed_at : Option ℕ

-- A row of the table auth of type password; `secret` is the hash.
pub record Auth : Type 0 where
  pub id : ℕ
  pub user_id : ℕ
  pub secret : Text
  pub meta : Meta

pub record World : Type 0 where
  pub users : List User
  pub auths : List Auth
  pub faults : List Bool
  pub draws : ℕ

-- What a token carries: `attrs.id` (0 where it is left out), `scope` and `iat`.
pub record Payload : Type 0 where
  pub user_id : ℕ
  pub scope : List Text
  pub issued_at : ℕ

-- The packages: bcrypt, otplib (with the least length of a secret, and the errors that it throws),
-- jsonwebtoken, moment and the random numbers, by the number of draws before.
pub record Env : Type 0 where
  pub compare_hash : Text → Text → Bool
  pub hash : Text → ℕ → Text
  pub verify_totp : ℕ → Text → Text → Result Bool
  pub generate_secret : ℕ → Text
  pub random_hex : ℕ → Text
  pub sign : ℕ → Payload → Text → Result Text
  pub verify_jwt : ℕ → Text → Result Payload
  pub date_after : ℕ → Text → Text → Text

pub query : M World (Unit {0})
unfolding throw_if
query w = elim w.faults [
  | [] ↦ throw_if false (io_error (codes "query")) w
  | b ∷ bs ↦ throw_if b (io_error (codes "query")) (record w { faults = bs })
]

pub draw : M World ℕ
draw w = (ok w.draws, record w { draws = suc w.draws })

abbrev pub belongs_to : ℕ → Auth → Bool
belongs_to user a = a.user_id == user

-- .where("user_id", user).andWhere("type", "password").first()
pub find_auth : ℕ → M World (Option Auth)
find_auth user = do query; λ w. pure (find? (belongs_to user) w.auths) w

-- .where("id", a.id).andWhere("user_id", user).patch({ meta })
pub patch_rows : ℕ → ℕ → Meta → List Auth → List Auth
patch_rows id user m [] = []
patch_rows id user m (a ∷ rest) =
    (if (a.id == id) && belongs_to user a then record a { meta = m } else a)
    ∷ patch_rows id user m rest

pub patch_meta : ℕ → ℕ → Meta → M World (Unit {0})
patch_meta id user m = do query; λ w. pure tt (record w { auths = patch_rows id user m w.auths })

abbrev pub auth_not_found : Error
auth_not_found = item_not_found_error (some (codes "Auth not found"))

-- `getUserPasswordAuth`
pub get_user_password_auth : ℕ → M World Auth
get_user_password_auth user = do
  found ← find_auth user
  on_option found (throw auth_not_found) (λ a. pure a)

-- `isEnabled` of backend/internal/2fa.js
pub is_enabled : ℕ → M World Bool
is_enabled user = do auth ← get_user_password_auth user; pure auth.meta.totp_enabled
