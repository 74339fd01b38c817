-- ===== src/Devices/Calls.antt =====
-- The queue of backend/internal/security_devices.js: `withMutation` runs the operations that change
-- the files of the devices one after another.
pub mod Order
use hyrovi_proxy_manager.Prelude.{ℕ, Option, none, some, List, [], ◌∷◌}
use hyrovi_proxy_manager.Js.Text.{Text}
use hyrovi_proxy_manager.Js.Value.{Value}
use hyrovi_proxy_manager.Errors.{Result, ok, err}
use hyrovi_proxy_manager.Devices.{World, Crypto, normalize_device_id}
use hyrovi_proxy_manager.Devices.Registry.{register_device, revoke_device, reset_sequence}
use hyrovi_proxy_manager.Devices.Requests.{Request, Accepted, verify_signed_request}

-- An operation with its instant and its arguments.
pub data Call : Type 0 where
  signed : Request → Call
  register : ℕ → Value → Value → Value → Value → Call
  revoke : ℕ → Value → Call
  reset : ℕ → Value → Call

-- What a call is for the replay counters: a signed request was accepted, or an operation on the
-- counter of a device was called, whatever came of it.
pub data Event : Type 0 where
  accepted : Accepted → Event
  touched : Text → Event

abbrev pub add_answer : Result (Option Accepted) → List Event → List Event
add_answer (ok (some a)) rest = accepted a ∷ rest
add_answer (ok none) rest = rest
add_answer (err e) rest = rest

abbrev pub add_touched : Result Text → List Event → List Event
add_touched (ok id) rest = touched id ∷ rest
add_touched (err e) rest = rest

-- The event of a call, in front of those that follow.
pub add_event : Crypto → Call → World → List Event → List Event
add_event crypto (signed r) w rest =
    add_answer (verify_signed_request crypto r.now r.headers r.body w).0 rest
add_event crypto (register now id name key apps) w rest = add_touched (normalize_device_id id) rest
add_event crypto (revoke now id) w rest = add_touched (normalize_device_id id) rest
add_event crypto (reset now id) w rest = add_touched (normalize_device_id id) rest

pub call_step : Crypto → Call → World → World
call_step crypto (signed r) w = (verify_signed_request crypto r.now r.headers r.body w).1
call_step crypto (register now id name key apps) w =
    (register_device crypto now id name key apps w).1
call_step crypto (revoke now id) w = (revoke_device now id w).1
call_step crypto (reset now id) w = (reset_sequence now id w).1

pub serve_calls : Crypto → World → List Call → List Event
serve_calls crypto w [] = []
serve_calls crypto w (c ∷ cs) = add_event crypto c w (serve_calls crypto (call_step crypto c w) cs)
