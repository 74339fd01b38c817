-- ===== src/Devices/Registry.antt =====
-- The operations on trusted devices of backend/internal/security_devices.js: registerDevice,
-- revokeDevice, resetSequence, prepare and listDevices.
use hyrovi_proxy_manager.Prelude.{
  ℕ, Bool, true, false, not, Option, none, some, List, [], ◌∷◌, map, leb, if◌then◌else◌, length,
  find?,
}
use hyrovi_proxy_manager.Js.Text.{Text, codes, text_eq}
use hyrovi_proxy_manager.Js.Value.{Value, bounded_string}
use hyrovi_proxy_manager.Errors.{
  Error, io_error, validation_error, item_not_found_error, M, pure, throw, throw_if, catch, branch,
  on_option, lift, ◌>>=◌, ◌>>◌,
}
use hyrovi_proxy_manager.Devices.{
  Device, DeviceState, File, absent, World, PublicKey, Crypto, max_devices, attempt,
  read_devices_unsafe, read_state_unsafe, write_devices, write_state, state_of, delete_state,
  set_state, normalize_device_id, normalize_allowed_apps, normalize_public_key, has_id, is_revoked,
}

-- devices[index] = d, at the first entry with its identifier, or at the end
unfoldable pub put_device : Device → List Device → List Device
put_device d [] = d ∷ []
put_device d (e ∷ rest) = if has_id d.device_id e then d ∷ rest else e ∷ put_device d rest

-- The three checks on the entry found.
unfoldable pub registration_error : List Device → PublicKey → Option Device → Option Error
registration_error ds key none =
    if leb max_devices (length ds)
    then some (validation_error (codes "Trusted devices are limited to 200"))
    else none
registration_error ds key (some old) =
    if not (is_revoked old)
    then some (validation_error (codes "A trusted device with this ID already exists"))
    else if text_eq old.fingerprint key.fingerprint
    then some (
        validation_error (codes "A revoked device ID must be re-registered with a new Ed25519 key"))
    else none

-- What `publicDevice` shows of a device and its replay state.
pub record PublicDevice : Type 0 where
  pub device : Device
  pub state : DeviceState

unfoldable pub initial_state : DeviceState
initial_state = record {
  last_sequence = 0;
  sequence_reset_at = none;
  last_seen_at = none;
  last_app = none;
}

abbrev or_initial : Option DeviceState → DeviceState
or_initial none = initial_state
or_initial (some s) = s

unfoldable pub public_device : Device → Option DeviceState → PublicDevice
public_device d s = record { device = d; state = or_initial s }

abbrev get_or_text : Option Text → Text → Text
get_or_text none t = t
get_or_text (some s) t = s

unfoldable pub new_device : ℕ → Text → Option Text → PublicKey → List Text → Device
new_device now id name key apps = record {
  device_id = id;
  name = get_or_text name id;
  public_key = key.pem;
  fingerprint = key.fingerprint;
  allowed_apps = apps;
  created_at = now;
  updated_at = now;
  revoked_at = none;
}

unfoldable pub register_device :
    Crypto → ℕ → (device_id name public_key allowed_apps : Value) → M World PublicDevice
unfolding attempt
register_device crypto now device_id name public_key allowed_apps = do
  attempt (codes "mkdir")
  id ← lift (normalize_device_id device_id)
  key ← lift (normalize_public_key crypto public_key)
  apps ← lift (normalize_allowed_apps allowed_apps)
  devices ← read_devices_unsafe
  on_option (registration_error devices key (find? (has_id id) devices)) (pure tt) (λ e. throw e)
  let device = new_device now id (bounded_string name 120) key apps
  write_devices (put_device device devices)
  state ← read_state_unsafe
  write_state (delete_state id state)
  pure (public_device device none)

module _ (now : ℕ) where
  unfoldable pub revoke : Device → Device
  revoke d = record d { revoked_at = some now; updated_at = now }

  unfoldable pub revoke_listed : Text → M World PublicDevice
  revoke_listed id = do
    devices ← read_devices_unsafe
    on_option (find? (has_id id) devices) (throw (item_not_found_error (some id))) (λ d. do
      branch (is_revoked d) (pure tt) (write_devices (put_device (revoke d) devices))
      state ← read_state_unsafe
      write_state (delete_state id state)
      pure (public_device (if is_revoked d then d else revoke d) none))

  unfoldable pub revoke_device : Value → M World PublicDevice
  revoke_device device_id = do id ← lift (normalize_device_id device_id); revoke_listed id

  unfoldable pub fresh_epoch : DeviceState
  fresh_epoch = record {
    last_sequence = 0;
    sequence_reset_at = some now;
    last_seen_at = none;
    last_app = none;
  }

  unfoldable pub reset_sequence : Value → M World PublicDevice
  reset_sequence device_id = do
    id ← lift (normalize_device_id device_id)
    devices ← read_devices_unsafe
    on_option (find? (has_id id) devices) (throw (item_not_found_error (some id))) (λ d. do
      throw_if (is_revoked d) (item_not_found_error (some id))
      state ← read_state_unsafe
      write_state (set_state id fresh_epoch state)
      pure (public_device d (some fresh_epoch)))

-- `prepare`: an empty file in place of each that cannot be accessed.
is_absent : {A : Type 0} → File A → Bool
is_absent absent = true
is_absent _ = false

unfoldable pub prepare_devices : M World (Unit {0})
unfolding is_absent
prepare_devices = do
  attempt (codes "mkdir")
  catch
      (do
        attempt (codes "access trusted-devices.json")
        λ w. throw_if (is_absent w.devices) (io_error (codes "ENOENT")) w)
      (λ _. write_devices [])
  catch
      (do
        attempt (codes "access trusted-device-state.json")
        λ w. throw_if (is_absent w.states) (io_error (codes "ENOENT")) w)
      (λ _. write_state [])

-- The stable sort by identifier; `before` is the order of localeCompare, at or before.
unfoldable pub insert_public :
    (Text → Text → Bool) → PublicDevice → List PublicDevice → List PublicDevice
insert_public before d [] = d ∷ []
insert_public before d (e ∷ rest) =
    if before d.device.device_id e.device.device_id
    then d ∷ e ∷ rest
    else e ∷ insert_public before d rest

unfoldable pub sort_public : (Text → Text → Bool) → List PublicDevice → List PublicDevice
sort_public before [] = []
sort_public before (d ∷ rest) = insert_public before d (sort_public before rest)

unfoldable pub list_devices : (Text → Text → Bool) → M World (List PublicDevice)
list_devices before = do
  devices ← read_devices_unsafe
  state ← read_state_unsafe
  pure (sort_public before (map (λ d. public_device d (state_of d.device_id state)) devices))
