-- ===== src/Devices/Requests.antt =====
-- `verifySignedRequest` of backend/internal/security_devices.js.
pub mod Authentic
pub mod Replay
pub mod Revoked
mod Tests
use hyrovi_proxy_manager.Prelude.{
  ℕ, suc, ◌+◌, ◌-◌, ◌≡◌, Bool, true, false, not, ◌&&◌, ◌||◌, Option, none, some, List, [], ◌∷◌, leb,
  ltb, ◌==◌, if◌then◌else◌, length, find?, all,
}
use hyrovi_proxy_manager.Js.Text.{Text, codes, text_eq, trim, is_digit, is_empty, mem_text}
use hyrovi_proxy_manager.Js.Value.{
  Value, str, arr, obj, Items, nil, cons, to_text, or_value, or_else, prop, trimmed, bounded_string,
  digits_value,
}
use hyrovi_proxy_manager.Errors.{
  Error, validation_error, token_revoked_error, permission_error, Result, ok, err, M, pure, throw,
  throw_if, branch, on_option, lift, ◌>>=◌, ◌>>◌,
}
use hyrovi_proxy_manager.Devices.Protocol.{signing_message}
use hyrovi_proxy_manager.Devices.{
  Device, DeviceState, States, World, Crypto, max_clock_skew_ms, read_devices_unsafe,
  read_state_unsafe, write_state, state_of, set_state, normalize_device_id, has_id, is_revoked,
}

-- `headerValue`: an array gives its first entry as it is, any other value is trimmed.
abbrev first_or_empty : Items → Value
first_or_empty nil = str []
first_or_empty (cons v vs) = or_value v (str [])

pub header_text : Value → Text
unfolding to_text trimmed
header_text (arr vs) = to_text (first_or_empty vs)
header_text v = trimmed v

pub header_value : Value → Text → Text
header_value headers name = header_text (prop name headers)

abbrev header_names : List Text
header_names =
    codes "x-hyrovi-device-id"
    ∷ codes "x-hyrovi-device-sequence"
    ∷ codes "x-hyrovi-device-time"
    ∷ codes "x-hyrovi-device-signature"
    ∷ []

any_header : Value → List Text → Bool
any_header headers [] = false
any_header headers (n ∷ ns) = not (is_empty (header_value headers n)) || any_header headers ns

pub signed_headers_present : Value → Bool
unfolding any_header
signed_headers_present headers = any_header headers header_names

-- /^\d+$/
abbrev is_digits : Text → Bool
is_digits s = not (is_empty s) && all is_digit s

abbrev number_of_digits : Text → ℕ
number_of_digits s = elim (digits_value none s) [ none ↦ 0 | some n ↦ n ]

abbrev pub max_safe_integer : ℕ
max_safe_integer = 9_007_199_254_740_991

pub record Signed : Type 0 where
  pub device_id : Text
  pub sequence : ℕ
  pub timestamp : ℕ
  pub signature : Text

abbrev distance : ℕ → ℕ → ℕ
distance a b = if leb a b then b - a else a - b

-- The checks on the numbers of a request, in the order of the code.
pub check_numbers : ℕ → Signed → Result Signed
check_numbers now s =
    if ltb max_safe_integer s.sequence || ltb s.sequence 1
    then err (validation_error (codes "Device sequence must be a positive safe integer"))
    else if ltb max_safe_integer s.timestamp || ltb max_clock_skew_ms (distance now s.timestamp)
    then err (
        validation_error
          (codes "Device signature timestamp is outside the allowed 5-minute window"))
    else ok s

abbrev pub with_id : Result Text → (Text → Result Signed) → Result Signed
with_id (ok id) f = f id
with_id (err e) f = err e

pub is_incomplete : Value → Bool
is_incomplete headers =
    not (is_digits (header_value headers (codes "x-hyrovi-device-sequence")))
    || not (is_digits (header_value headers (codes "x-hyrovi-device-time")))
    || is_empty (header_value headers (codes "x-hyrovi-device-signature"))

pub numbers_of : Value → Text → Signed
unfolding digits_value
numbers_of headers id = record {
  device_id = id;
  sequence = number_of_digits (header_value headers (codes "x-hyrovi-device-sequence"));
  timestamp = number_of_digits (header_value headers (codes "x-hyrovi-device-time"));
  signature = header_value headers (codes "x-hyrovi-device-signature");
}

pub read_numbers : ℕ → Value → Text → Result Signed
read_numbers now headers id =
    if is_incomplete headers
    then err (validation_error (codes "Incomplete HYROVI Sec device signature headers"))
    else check_numbers now (numbers_of headers id)

pub read_signed : ℕ → Value → Result Signed
read_signed now headers =
    with_id (normalize_device_id (str (header_value headers (codes "x-hyrovi-device-id"))))
      (read_numbers now headers)

abbrev device_error : Error
device_error = token_revoked_error (codes "Unknown or revoked HYROVI Sec device")

-- A device on record that is not revoked.
pub active_device : Option Device → Result Device
active_device none = err device_error
active_device (some d) = if is_revoked d then err device_error else ok d

pub allowed_app : Device → Option Text → Result Text
allowed_app d none = err permission_error
allowed_app d (some app) =
    if mem_text (codes "*") d.allowed_apps || mem_text app d.allowed_apps
    then ok app
    else err permission_error

-- A reported identifier may be left out, and must else be that of the headers.
pub reported_differs : Text → Option Text → Bool
reported_differs id none = false
reported_differs id (some reported) = not (text_eq reported id)

abbrev pub reported_id : Value → Option Text
reported_id body =
    bounded_string (or_else (prop (codes "device_id") body) (prop (codes "deviceId") body)) 160

pub check_signature : Crypto → Device → Signed → Value → Result (Unit {0})
check_signature crypto d s body =
    let bytes = crypto.decode_base64 s.signature in
    if not (length bytes == 64)
    then err (validation_error (codes "Invalid Ed25519 signature length"))
    else if crypto.verify_signature
        (signing_message crypto.sha256_hex s.device_id s.sequence s.timestamp body) d.public_key
        bytes
    then ok tt
    else err (token_revoked_error (codes "Invalid HYROVI Sec device signature"))

abbrev pub last_sequence_of : Option DeviceState → ℕ
last_sequence_of none = 0
last_sequence_of (some s) = s.last_sequence

abbrev pub reset_of : Option DeviceState → Option ℕ
reset_of none = none
reset_of (some s) = s.sequence_reset_at

abbrev predates : ℕ → Option ℕ → Bool
predates t none = false
predates t (some reset) = leb t reset

pub check_replay : Option DeviceState → Signed → Result (Unit {0})
check_replay old s =
    if predates s.timestamp (reset_of old)
    then err (validation_error (codes "Device signature predates the current replay-counter epoch"))
    else if leb s.sequence (last_sequence_of old)
    then err (validation_error (codes "Device event was replayed or arrived out of order"))
    else ok tt

pub record Accepted : Type 0 where
  pub device_id : Text
  pub name : Text
  pub fingerprint : Text
  pub sequence : ℕ
  pub verified_at : ℕ

pub seen_state : ℕ → Text → Signed → Option DeviceState → DeviceState
seen_state now app s old = record {
  last_sequence = s.sequence;
  sequence_reset_at = reset_of old;
  last_seen_at = some now;
  last_app = some app;
}

-- The checks against the registered device: the device and the app that it reports for.
pub authorise_app : Crypto → Signed → Value → Device → Result Text → Result (Device × Text)
authorise_app crypto s body d (err e) = err e
authorise_app crypto s body d (ok app) =
    if reported_differs s.device_id (reported_id body)
    then err (validation_error (codes "Signed device ID does not match the event device ID"))
    else elim (check_signature crypto d s body) [ err e ↦ err e | ok _ ↦ ok (d, app) ]

pub authorise_device : Crypto → Signed → Value → Result Device → Result (Device × Text)
authorise_device crypto s body (err e) = err e
authorise_device crypto s body (ok d) =
    authorise_app crypto s body d (allowed_app d (bounded_string (prop (codes "app") body) 80))

pub authorise : Crypto → Signed → Value → List Device → Result (Device × Text)
authorise crypto s body devices =
    authorise_device crypto s body (active_device (find? (has_id s.device_id) devices))

module _ (crypto : Crypto) (now : ℕ) where
  -- The replay check and the new replay state.
  pub record_sequence : Signed → Device → Text → M World Accepted
  record_sequence s d app = do
    state ← read_state_unsafe
    let old = state_of s.device_id state
    _ ← lift (check_replay old s)
    write_state (set_state s.device_id (seen_state now app s old) state)
    pure (record {
      device_id = s.device_id;
      name = d.name;
      fingerprint = d.fingerprint;
      sequence = s.sequence;
      verified_at = now;
    })

  pub verify_signed : Value → Value → M World Accepted
  verify_signed headers body = do
    s ← lift (read_signed now headers)
    devices ← read_devices_unsafe
    found ← lift (authorise crypto s body devices)
    record_sequence s found.0 found.1

  -- `none` is the answer null for a request with none of the four headers.
  pub verify_signed_request : Value → Value → M World (Option Accepted)
  verify_signed_request headers body =
      branch (signed_headers_present headers) (do a ← verify_signed headers body; pure (some a))
        (pure none)

-- A request as it arrives: the instant, the headers and the body.
pub record Request : Type 0 where
  pub now : ℕ
  pub headers : Value
  pub body : Value

abbrev pub add_accepted : Result (Option Accepted) → List Accepted → List Accepted
add_accepted (ok (some a)) rest = a ∷ rest
add_accepted (ok none) rest = rest
add_accepted (err e) rest = rest

-- The requests that are accepted when signed requests are served one after another, with no other
-- operation in between.
pub serve : Crypto → World → List Request → List Accepted
serve crypto w [] = []
serve crypto w (r ∷ rs) =
    let (answer, w') = verify_signed_request crypto r.now r.headers r.body w in
    add_accepted answer (serve crypto w' rs)
