-- ===== src/Devices.antt =====
-- backend/internal/security_devices.js and security_device_protocol.js: trusted devices that sign
-- the events which they report. Instants are milliseconds; one call reads the clock once.
-- Each read or write of a file fails as `faults` says, and succeeds beyond its end.
pub mod Calls
pub mod Keeps
pub mod Protocol
pub mod Registry
pub mod Requests
use hyrovi_proxy_manager.Prelude.{
  ℕ, suc, ◌+◌, ◌≡◌, Bool, true, false, not, ◌&&◌, ◌||◌, Option, none, some, List, [], ◌∷◌, ◌++◌,
  map, leb, ltb, ◌==◌, if◌then◌else◌, length, take, filter, find?, all,
}
use hyrovi_proxy_manager.Js.Text.{
  Text, codes, text_eq, trim, is_digit, is_upper_unit, is_lower_unit, includes_unit, is_empty,
  dedupe, mem_text,
}
use hyrovi_proxy_manager.Js.Value.{
  Value, undefined, null, bool, num, str, arr, obj, items, trimmed, bounded_string,
}
use hyrovi_proxy_manager.Errors.{
  Error, io_error, validation_error, configuration_error, item_not_found_error, Result, ok, err, M,
  pure, throw, throw_if, catch, branch, on_option, lift, ◌>>=◌, ◌>>◌,
}

pub record Device : Type 0 where
  pub device_id : Text
  pub name : Text
  pub public_key : Text
  pub fingerprint : Text
  pub allowed_apps : List Text
  pub created_at : ℕ
  pub updated_at : ℕ
  pub revoked_at : Option ℕ

-- The replay state of one device; an instant is absent where the file holds null.
pub record DeviceState : Type 0 where
  pub last_sequence : ℕ
  pub sequence_reset_at : Option ℕ
  pub last_seen_at : Option ℕ
  pub last_app : Option Text

-- A JSON file: missing, no JSON, JSON of another shape, or the expected content.
pub data File (A : Type 0) : Type 0 where
  absent unparsable other_shape : File A
  holds : A → File A

abbrev pub States : Type 0
States = List (Text × DeviceState)

pub record World : Type 0 where
  pub devices : File (List Device)
  pub states : File States
  pub faults : List Bool

-- A public key as Node reads it.
pub record PublicKey : Type 0 where
  pub is_ed25519 : Bool
  pub pem : Text
  pub fingerprint : Text

-- Node's key parser, signature check (false where it throws), base64 decoder, UTF-8 length and
-- digest (in hexadecimal).
pub record Crypto : Type 0 where
  pub parse_key : Text → Option PublicKey
  pub verify_signature : Text → Text → List ℕ → Bool
  pub decode_base64 : Text → List ℕ
  pub byte_length : Text → ℕ
  pub sha256_hex : Text → Text

abbrev pub max_devices : ℕ
max_devices = 200

abbrev pub max_allowed_apps : ℕ
max_allowed_apps = 32

abbrev pub max_public_key_bytes : ℕ
max_public_key_bytes = 8192

abbrev pub max_clock_skew_ms : ℕ
max_clock_skew_ms = 300_000

pub attempt : Text → M World (Unit {0})
unfolding throw_if
attempt label w = elim w.faults [
  | [] ↦ throw_if false (io_error label) w
  | b ∷ bs ↦ throw_if b (io_error label) (record w { faults = bs })
]

-- `readJson` with the check of the shape that follows it.
pub file_content : {A : Type 0} → A → File A → Result A
file_content fallback absent = ok fallback
file_content fallback unparsable =
    err (configuration_error (codes "Invalid HYROVI Sec device state"))
file_content fallback other_shape = ok fallback
file_content fallback (holds a) = ok a

pub read_devices_unsafe : M World (List Device)
unfolding attempt file_content lift
read_devices_unsafe = do
  attempt (codes "read trusted-devices.json")
  λ w. lift (file_content [] w.devices) w

pub read_state_unsafe : M World States
unfolding attempt file_content lift
read_state_unsafe = do
  attempt (codes "read trusted-device-state.json")
  λ w. lift (file_content [] w.states) w

pub write_devices : List Device → M World (Unit {0})
unfolding attempt
write_devices ds = do
  attempt (codes "write trusted-devices.json")
  λ w. pure tt (record w { devices = holds ds })

pub write_state : States → M World (Unit {0})
unfolding attempt
write_state s = do
  attempt (codes "write trusted-device-state.json")
  λ w. pure tt (record w { states = holds s })

-- state[id], delete state[id] and state[id] = s
pub state_of : Text → States → Option DeviceState
state_of id [] = none
state_of id ((k, s) ∷ rest) = if text_eq k id then some s else state_of id rest

pub delete_state : Text → States → States
delete_state id [] = []
delete_state id ((k, s) ∷ rest) =
    if text_eq k id then delete_state id rest else (k, s) ∷ delete_state id rest

pub set_state : Text → DeviceState → States → States
set_state id s [] = (id, s) ∷ []
set_state id s ((k, t) ∷ rest) =
    if text_eq k id then (k, s) ∷ rest else (k, t) ∷ set_state id s rest

abbrev is_alnum : ℕ → Bool
is_alnum c = is_upper_unit c || is_lower_unit c || is_digit c

abbrev is_name_unit : ℕ → Bool
is_name_unit c = is_alnum c || includes_unit (codes "._:-") c

-- /^[A-Za-z0-9][A-Za-z0-9._:-]{0,most}$/
unfoldable pub is_identifier : ℕ → Text → Bool
unfolding includes_unit
is_identifier most [] = false
is_identifier most (c ∷ s) = is_alnum c && leb (length s) most && all is_name_unit s

pub normalize_device_id : Value → Result Text
unfolding trimmed is_identifier
normalize_device_id v =
    let id = trimmed v in
    if is_identifier 119 id
    then ok id
    else err (
        validation_error (
          codes
            "Device ID must be 1-120 characters using letters, numbers, dot, underscore, colon or dash"))

abbrev present : List (Option Text) → List Text
present [] = []
present (none ∷ rest) = present rest
present (some t ∷ rest) = t ∷ present rest

abbrev is_app_name : Text → Bool
is_app_name app = text_eq app (codes "*") || is_identifier 79 app

pub apps_of : List Value → Result (List Text)
unfolding dedupe bounded_string is_identifier
apps_of vs =
    let apps = dedupe (present (map (λ v. bounded_string v 80) vs)) in
    if length apps == 0
    then err (
        validation_error
          (codes "At least one allowed app is required; use * only for an intentional wildcard"))
    else if all is_app_name apps
    then ok apps
    else err (
        validation_error
          (codes "Allowed app names may use letters, numbers, dot, underscore, colon or dash"))

pub normalize_allowed_apps : Value → Result (List Text)
unfolding apps_of
normalize_allowed_apps (arr vs) =
    if ltb max_allowed_apps (length (items vs))
    then err (validation_error (codes "Allowed apps are limited to 32 entries"))
    else apps_of (items vs)
normalize_allowed_apps _ = err (validation_error (codes "Allowed apps must be a non-empty array"))

abbrev ed25519_only : Option PublicKey → Result PublicKey
ed25519_only none = err (validation_error (codes "Device public key is not valid PEM"))
ed25519_only (some key) =
    if key.is_ed25519
    then ok key
    else err (validation_error (codes "Device public key must use Ed25519"))

pub normalize_public_key : Crypto → Value → Result PublicKey
unfolding trimmed
normalize_public_key crypto v =
    let input = trimmed v in
    if is_empty input || ltb max_public_key_bytes (crypto.byte_length input)
    then err (validation_error (codes "A valid Ed25519 public key is required"))
    else ed25519_only (crypto.parse_key input)

abbrev pub has_id : Text → Device → Bool
has_id id d = text_eq d.device_id id

abbrev pub is_revoked : Device → Bool
is_revoked d = elim d.revoked_at [ none ↦ false | some _ ↦ true ]
