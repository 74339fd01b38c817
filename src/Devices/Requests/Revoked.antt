-- ===== src/Devices/Requests/Revoked.antt =====
-- Signed requests after `revokeDevice` of backend/internal/security_devices.js.
use hyrovi_proxy_manager.Prelude.{◌≡◌, refl, true, some, List, [], ◌∷◌, arith, find?}
use hyrovi_proxy_manager.Js.Text.{Text, text_eq_refl}
use hyrovi_proxy_manager.Js.Value.{Value}
use hyrovi_proxy_manager.Errors.{ok, ◌>>=◌, ◌>>◌}
use hyrovi_proxy_manager.Devices.{Device, World, File, file_content, has_id, is_revoked}
use hyrovi_proxy_manager.Devices.Registry.{put_device}

-- The device of this identifier that a file of devices gives, if any, is revoked.
abbrev pub RevokedIn : Text → File (List Device) → Type 0
RevokedIn id f =
    (ds : List Device) (d : Device)
    → file_content [] f ≡ ok ds
    → find? (has_id id) ds ≡ some d
    → is_revoked d ≡ true

pub find?-put_device :
    (d : Device) (ds : List Device) → find? (has_id d.device_id) (put_device d ds) ≡ some d
unfolding put_device
find?-put_device d [] = rw (text_eq_refl d.device_id) refl
find?-put_device d (e ∷ ds) = ground (arith, text_eq_refl d.device_id, find?-put_device d ds)

module _ (id : Text) where
  abbrev Revoked : World → Type 0
  Revoked w = RevokedIn id w.devices
