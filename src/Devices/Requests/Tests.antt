-- ===== src/Devices/Requests/Tests.antt =====
-- Runs of the checks on signed requests, and the theorems on them at concrete inputs.
use hyrovi_proxy_manager.Prelude.{List, ◌≡◌, refl, true, none, some, [], ◌∷◌}
use hyrovi_proxy_manager.Js.Text.{codes}
use hyrovi_proxy_manager.Js.Value.{Value, str, obj, end, field, texts}
use hyrovi_proxy_manager.Devices.Protocol.{signing_message}
use hyrovi_proxy_manager.Errors.{ok, control}
use hyrovi_proxy_manager.Devices.{
  Device, World, Crypto, holds, normalize_device_id, attempt, read_devices_unsafe,
  read_state_unsafe, write_state, write_devices, delete_state, state_of, set_state, is_identifier,
  file_content,
}
use hyrovi_proxy_manager.Devices.Registry.{
  revoke_device, public_device, revoke, put_device, initial_state, revoke_listed,
}
use hyrovi_proxy_manager.Devices.Requests.{
  Request, Accepted, serve, verify_signed, verify_signed_request, read_signed, read_numbers,
  is_incomplete, numbers_of, check_numbers, authorise, authorise_app, authorise_device,
  active_device, allowed_app, check_signature, check_replay, record_sequence, seen_state,
  reported_differs, header_text, header_value, any_header, signed_headers_present,
}
use hyrovi_proxy_manager.Devices.Requests.Authentic.{IsAuthentic, verify_signed-IsAuthentic}
use hyrovi_proxy_manager.Devices.Calls.{Call, signed, reset, serve_calls}
use hyrovi_proxy_manager.Devices.Calls.Order.{Ordered, serve_calls-Ordered}

-- A signature scheme that takes every signature of 64 bytes.
abbrev lab : Crypto
lab = record {
  parse_key = λ t. some (record { is_ed25519 = true; pem = t; fingerprint = t });
  verify_signature = λ message key bytes. true;
  decode_base64 = λ t. t;
  byte_length = λ t. 0;
  sha256_hex = λ t. [];
}

abbrev camera : Device
camera = record {
  device_id = codes "cam-1";
  name = codes "Camera";
  public_key = codes "k";
  fingerprint = codes "f";
  allowed_apps = codes "door" ∷ [];
  created_at = 0;
  updated_at = 0;
  revoked_at = none;
}

abbrev at_rest : World
at_rest = record { devices = holds (camera ∷ []); states = holds []; faults = [] }

abbrev headers : Value
headers = obj (
    field (codes "x-hyrovi-device-id") (str (codes "cam-1")) (
      field (codes "x-hyrovi-device-sequence") (str (codes "7")) (
        field (codes "x-hyrovi-device-time") (str (codes "1000")) (
          field (codes "x-hyrovi-device-signature")
            (str (codes "aaaaaaaaaaaaaaaaaaaaaaaaaaaaaaaaaaaaaaaaaaaaaaaaaaaaaaaaaaaaaaaa")) end))))

abbrev body : Value
body = obj (field (codes "app") (str (codes "door")) end)

abbrev request : Request
request = record { now = 2000; headers = headers; body = body }

abbrev answer : Accepted
answer = record {
  device_id = codes "cam-1";
  name = codes "Camera";
  fingerprint = codes "f";
  sequence = 7;
  verified_at = 2000;
}

-- All that a run computes through.
unfoldable run : Unit {0}
unfolding control texts signing_message serve verify_signed verify_signed_request read_signed
    read_numbers is_incomplete numbers_of check_numbers authorise authorise_app authorise_device
    active_device allowed_app check_signature check_replay record_sequence seen_state
    reported_differs header_text header_value any_header signed_headers_present normalize_device_id
    is_identifier attempt file_content read_devices_unsafe read_state_unsafe write_state
    write_devices delete_state put_device state_of set_state initial_state revoke_device
    revoke_listed revoke public_device
run = tt

accepted : (verify_signed lab 2000 headers body at_rest).0 ≡ ok answer
unfolding run
accepted = refl

served_once : serve lab at_rest (request ∷ request ∷ []) ≡ answer ∷ []
unfolding run
served_once = refl

-- The number of the request is accepted, then the counter is reset.
abbrev with_reset : List Call
with_reset = signed request ∷ reset 2500 (str (codes "cam-1")) ∷ signed request ∷ []

serve_calls-Ordered_example : Ordered (serve_calls lab at_rest with_reset)
serve_calls-Ordered_example = serve_calls-Ordered lab at_rest with_reset

verify_signed-IsAuthentic_example : IsAuthentic lab 2000 headers body (holds (camera ∷ [])) answer
verify_signed-IsAuthentic_example = verify_signed-IsAuthentic lab 2000 headers body at_rest accepted
