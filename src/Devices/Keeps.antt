-- ===== src/Devices/Keeps.antt =====
-- Invariants of the device files that the calls of the outside world keep.
use hyrovi_proxy_manager.Prelude.{◌≡◌, refl, true, false, List, [], ◌∷◌, Bool}
use hyrovi_proxy_manager.Js.Text.{Text}
use hyrovi_proxy_manager.Errors.{ok}
use hyrovi_proxy_manager.Hoare.{Ensures, Any, Outcome, Ensures-bind}
use hyrovi_proxy_manager.Devices.{
  Device, States, World, File, absent, unparsable, other_shape, holds, attempt, file_content,
  read_devices_unsafe, read_state_unsafe, write_state, write_devices,
}

-- The content of a file that is read without an error.
abbrev pub content_or {ℓ} : {A : Type 0} {B : Type ℓ} → B → (A → B) → File A → B
content_or b f (holds a) = f a
content_or b f _ = b

-- Invariants that do not read the coming faults.
abbrev pub Steady : (World → Type 0) → Type 0
Steady I =
    (d : File (List Device)) (s : File States) (fs gs : List Bool)
    → I (record { devices = d; states = s; faults = fs })
    → I (record { devices = d; states = s; faults = gs })

module _ (I : World → Type 0) (steady : Steady I) where
  pub attempt-keeps : (label : Text) → Ensures I (Any I) (attempt label)
  unfolding attempt
  attempt-keeps label = record { run = λ w i. go w.devices w.states w.faults i }
    where
      go :
          (d : File (List Device)) (s : File States) (fs : List Bool)
          → I (record { devices = d; states = s; faults = fs })
          → Outcome I (Any I) (attempt label (record { devices = d; states = s; faults = fs }))
      go d s [] i = (tt, i)
      go d s (true ∷ fs) i = steady d s _ _ i
      go d s (false ∷ fs) i = (tt, steady d s _ _ i)

  pub read_devices-keeps :
      (Q : List Device → Type 0)
      → ((d : File (List Device)) (s : File States) (fs : List Bool) (ds : List Device)
          → I (record { devices = d; states = s; faults = fs })
          → file_content [] d ≡ ok ds
          → Q ds)
      → Ensures I Q read_devices_unsafe
  unfolding read_devices_unsafe
  read_devices-keeps Q there =
      Ensures-bind _ (attempt-keeps _)
        (λ _ _. record { run = λ w i. go w.devices w.states w.faults i })
    where
      go :
          (d : File (List Device)) (s : File States) (fs : List Bool)
          → I (record { devices = d; states = s; faults = fs })
          → Outcome I Q (file_content [] d, record { devices = d; states = s; faults = fs })
      go absent s fs i = (there absent s fs [] i refl, i)
      go unparsable s fs i = i
      go other_shape s fs i = (there other_shape s fs [] i refl, i)
      go (holds d) s fs i = (there (holds d) s fs d i refl, i)

  pub read_state-keeps :
      (Q : States → Type 0)
      → ((d : File (List Device)) (s : File States) (fs : List Bool) (m : States)
          → I (record { devices = d; states = s; faults = fs })
          → file_content [] s ≡ ok m
          → Q m)
      → Ensures I Q read_state_unsafe
  unfolding read_state_unsafe
  read_state-keeps Q there =
      Ensures-bind _ (attempt-keeps _)
        (λ _ _. record { run = λ w i. go w.devices w.states w.faults i })
    where
      go :
          (d : File (List Device)) (s : File States) (fs : List Bool)
          → I (record { devices = d; states = s; faults = fs })
          → Outcome I Q (file_content [] s, record { devices = d; states = s; faults = fs })
      go d absent fs i = (there d absent fs [] i refl, i)
      go d unparsable fs i = i
      go d other_shape fs i = (there d other_shape fs [] i refl, i)
      go d (holds s) fs i = (there d (holds s) fs s i refl, i)

  pub write_state-keeps :
      (s : States)
      → ((d : File (List Device)) (t : File States) (fs : List Bool)
          → I (record { devices = d; states = t; faults = fs })
          → I (record { devices = d; states = holds s; faults = fs }))
      → Ensures I (Any I) (write_state s)
  unfolding write_state
  write_state-keeps s keep =
      Ensures-bind _ (attempt-keeps _)
        (λ _ _. record { run = λ w i. (tt, keep w.devices w.states w.faults i) })

  pub write_devices-keeps :
      (ds : List Device)
      → ((d : File (List Device)) (t : File States) (fs : List Bool)
          → I (record { devices = d; states = t; faults = fs })
          → I (record { devices = holds ds; states = t; faults = fs }))
      → Ensures I (Any I) (write_devices ds)
  unfolding write_devices
  write_devices-keeps ds keep =
      Ensures-bind _ (attempt-keeps _)
        (λ _ _. record { run = λ w i. (tt, keep w.devices w.states w.faults i) })
