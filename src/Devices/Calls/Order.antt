-- ===== src/Devices/Calls/Order.antt =====
-- The order of the sequence numbers that `verifySignedRequest` of
-- backend/internal/security_devices.js accepts.
use hyrovi_proxy_manager.Prelude.{
  ℕ, ◌≤◌, ◌<◌, ◌≡◌, refl, sym, ◌∙◌, subst, false, Option, none, some, List, [], ◌∷◌, arith,
}
use hyrovi_proxy_manager.Js.Text.{Text, text_eq, text_eq_iff}
use hyrovi_proxy_manager.Js.Value.{Value}
use hyrovi_proxy_manager.Errors.{Result, ok, err, M}
use hyrovi_proxy_manager.Hoare.{
  Ensures, Any, Outcome, ok_injective, Ensures-bind, Ensures-pure, Ensures-throw, Ensures-throw_if,
  Ensures-lift, Ensures-branch, Ensures-option, Outcome-state, Returned,
}
use hyrovi_proxy_manager.Devices.{
  Device, DeviceState, States, World, Crypto, normalize_device_id, state_of, set_state,
  delete_state, read_devices_unsafe, read_state_unsafe, write_devices, write_state,
}
use hyrovi_proxy_manager.Devices.Keeps.{
  attempt-keeps, read_devices-keeps, read_state-keeps, write_state-keeps, write_devices-keeps,
}
use hyrovi_proxy_manager.Devices.Registry.{
  register_device, revoke_device, revoke_listed, reset_sequence,
}
use hyrovi_proxy_manager.Devices.Requests.{Accepted, last_sequence_of, verify_signed_request}
use hyrovi_proxy_manager.Devices.Requests.Replay.{
  AtLeast, recorded, state_of-set_state, floor-read, request-AtLeast, request-recorded,
}
use hyrovi_proxy_manager.Devices.Calls.{
  Call, signed, register, revoke, reset, Event, accepted, touched, add_answer, add_touched,
  add_event, call_step, serve_calls,
}

-- As long as no operation on the device is called, the numbers that are accepted from it are
-- greater than `k`.
abbrev pub Above : Text → ℕ → List Event → Type 0
Above id k [] = Unit
Above id k (accepted a ∷ rest) = (a.device_id ≡ id → k < a.sequence) × Above id k rest
Above id k (touched j ∷ rest) = text_eq j id ≡ false → Above id k rest

-- The numbers of each device increase from one operation on the device to the next.
abbrev pub Ordered : List Event → Type 0
Ordered [] = Unit
Ordered (accepted a ∷ rest) = Above a.device_id a.sequence rest × Ordered rest
Ordered (touched j ∷ rest) = Ordered rest

state_of-delete_state :
    (id j : Text) (m : States)
    → text_eq j id ≡ false
    → state_of id (delete_state j m) ≡ state_of id m
unfolding state_of delete_state
state_of-delete_state id j [] e = refl
state_of-delete_state id j ((i, t) ∷ m) e =
    ground
      (arith, state_of-delete_state id j m e, text_eq_iff i j, text_eq_iff i id, text_eq_iff j id)

module _ (id : Text) (k : ℕ) where
  -- An identifier of another device, where it is one.
  abbrev Other : Value → Type 0
  Other v = (j : Text) → normalize_device_id v ≡ ok j → text_eq j id ≡ false

  abbrev Floor : States → Type 0
  Floor m = k ≤ last_sequence_of (state_of id m)

  read_state-Floor : Ensures (AtLeast id k) Floor read_state_unsafe
  read_state-Floor =
      read_state-keeps (AtLeast id k) (λ _ _ _ _ i. i) Floor
        (λ d f fs m i e. floor-read id k f m e i)

  delete_state-AtLeast :
      (j : Text) (m : States)
      → text_eq j id ≡ false
      → Floor m
      → Ensures (AtLeast id k) (Any (AtLeast id k)) (write_state (delete_state j m))
  delete_state-AtLeast j m e h =
      write_state-keeps (AtLeast id k) (λ _ _ _ _ i. i) _
        (λ _ _ _ _. subst (λ o. k ≤ last_sequence_of o) (sym (state_of-delete_state id j m e)) h)

  set_state-AtLeast :
      (j : Text) (s : DeviceState) (m : States)
      → text_eq j id ≡ false
      → Floor m
      → Ensures (AtLeast id k) (Any (AtLeast id k)) (write_state (set_state j s m))
  set_state-AtLeast j s m e h =
      write_state-keeps (AtLeast id k) (λ _ _ _ _ i. i) _
        (λ _ _ _ _. rw (state_of-set_state id j s m) (rw e h))

  read_devices-Any : Ensures (AtLeast id k) (Any (AtLeast id k)) read_devices_unsafe
  read_devices-Any =
      read_devices-keeps (AtLeast id k) (λ _ _ _ _ i. i) (λ _. Unit {0}) (λ _ _ _ _ _ _. tt)

  write_devices-Any :
      (ds : List Device) → Ensures (AtLeast id k) (Any (AtLeast id k)) (write_devices ds)
  write_devices-Any ds = write_devices-keeps (AtLeast id k) (λ _ _ _ _ i. i) ds (λ _ _ _ i. i)

  register_device-AtLeast :
      (crypto : Crypto) (now : ℕ) (v name key apps : Value)
      → Other v
      → Ensures (AtLeast id k) (Any (AtLeast id k)) (register_device crypto now v name key apps)
  unfolding register_device
  register_device-AtLeast crypto now v name key apps o =
      Ensures-bind _ (attempt-keeps (AtLeast id k) (λ _ _ _ _ i. i) _) (λ _ _.
        Ensures-bind _ (Ensures-lift _ _) (λ j named. Ensures-bind _ (Ensures-lift _ _) (λ _ _.
          Ensures-bind _ (Ensures-lift _ _) (λ _ _. Ensures-bind _ read_devices-Any (λ _ _.
            Ensures-bind _
              (Ensures-option _ {Q = Any (AtLeast id k)} _ (λ _. Ensures-pure _ _ tt)
                (λ _ _. Ensures-throw _ _))
              (λ _ _. Ensures-bind _ (write_devices-Any _) (λ _ _.
                Ensures-bind _ read_state-Floor (λ m h.
                  Ensures-bind _ (delete_state-AtLeast j m (o j named) h)
                    (λ _ _. Ensures-pure _ _ tt)))))))))

  revoke_device-AtLeast :
      (now : ℕ) (v : Value)
      → Other v
      → Ensures (AtLeast id k) (Any (AtLeast id k)) (revoke_device now v)
  unfolding revoke_device revoke_listed
  revoke_device-AtLeast now v o = Ensures-bind _ (Ensures-lift _ _) (λ j named.
      Ensures-bind _ read_devices-Any (λ _ _.
        Ensures-option _ _ (λ _. Ensures-throw _ _)
          (λ d _.
            Ensures-bind _
              (Ensures-branch _ {Q = Any (AtLeast id k)} _ (λ _. Ensures-pure _ _ tt)
                (λ _. write_devices-Any _))
              (λ _ _. Ensures-bind _ read_state-Floor (λ m h.
                Ensures-bind _ (delete_state-AtLeast j m (o j named) h)
                  (λ _ _. Ensures-pure _ _ tt))))))

  reset_sequence-AtLeast :
      (now : ℕ) (v : Value)
      → Other v
      → Ensures (AtLeast id k) (Any (AtLeast id k)) (reset_sequence now v)
  unfolding reset_sequence
  reset_sequence-AtLeast now v o = Ensures-bind _ (Ensures-lift _ _) (λ j named.
      Ensures-bind _ read_devices-Any (λ _ _.
        Ensures-option _ _ (λ _. Ensures-throw _ _)
          (λ d _. Ensures-bind _ (Ensures-throw_if _ _ _) (λ _ _.
            Ensures-bind _ read_state-Floor (λ m h.
              Ensures-bind _ (set_state-AtLeast j _ m (o j named) h)
                (λ _ _. Ensures-pure _ _ tt))))))

  add_answer-Above :
      (x : Result (Option Accepted) × World) (rest : List Event)
      → Outcome
          (AtLeast id k)
          (λ o. (a : Accepted) → o ≡ some a → a.device_id ≡ id → k < a.sequence)
          x
      → Above id k rest
      → Above id k (add_answer x.0 rest)
  add_answer-Above (ok (some a), w) rest (h, _) later = (h a refl, later)
  add_answer-Above (ok none, w) rest h later = later
  add_answer-Above (err e, w) rest h later = later

  -- A call on a device: what follows matters only where the device is another.
  add_touched-Above :
      {A : Type 0} (v : Value) (m : M World A) (w : World) (rest : List Event) (r : Result Text)
      → normalize_device_id v ≡ r
      → (Other v → Ensures (AtLeast id k) (Any (AtLeast id k)) m)
      → AtLeast id k w
      → (AtLeast id k (m w).1 → Above id k rest)
      → Above id k (add_touched r rest)
  add_touched-Above v m w rest (ok j) named keep h later = λ differs. later (
      Outcome-state (AtLeast id k) (Any (AtLeast id k)) _ (
        (keep (λ i e.
            let same : j ≡ i = ok_injective (sym named ∙ e) in
            subst (λ x. text_eq x id ≡ false) same differs)).run
          w h))
  add_touched-Above v m w rest (err e) named keep h later = later (
      Outcome-state (AtLeast id k) (Any (AtLeast id k)) _
        ((keep (λ i f. let both : err e ≡ ok i = sym named ∙ f in cc)).run w h))

  serve_calls-Above :
      (crypto : Crypto) (w : World) (cs : List Call)
      → AtLeast id k w
      → Above id k (serve_calls crypto w cs)
  unfolding serve_calls add_event call_step
  serve_calls-Above crypto w [] h = tt
  serve_calls-Above crypto w (signed r ∷ cs) h =
      let x = verify_signed_request crypto r.now r.headers r.body w in
      let outcome = (request-AtLeast crypto id k r).run w h in
      add_answer-Above x _ outcome
        (serve_calls-Above crypto x.1 cs (Outcome-state (AtLeast id k) _ x outcome))
  serve_calls-Above crypto w (register now v name key apps ∷ cs) h =
      add_touched-Above v (register_device crypto now v name key apps) w _ _ refl
        (register_device-AtLeast crypto now v name key apps) h
        (λ i. serve_calls-Above crypto _ cs i)
  serve_calls-Above crypto w (revoke now v ∷ cs) h =
      add_touched-Above v (revoke_device now v) w _ _ refl (revoke_device-AtLeast now v) h
        (λ i. serve_calls-Above crypto _ cs i)
  serve_calls-Above crypto w (reset now v ∷ cs) h =
      add_touched-Above v (reset_sequence now v) w _ _ refl (reset_sequence-AtLeast now v) h
        (λ i. serve_calls-Above crypto _ cs i)

add_answer-Ordered :
    (crypto : Crypto) (cs : List Call) (x : Result (Option Accepted) × World)
    → Returned (λ o w. (a : Accepted) → o ≡ some a → recorded a.device_id w ≡ a.sequence) x
    → Ordered (serve_calls crypto x.1 cs)
    → Ordered (add_answer x.0 (serve_calls crypto x.1 cs))
add_answer-Ordered crypto cs (ok (some a), w) h later =
    let on_record = h a refl in
    (serve_calls-Above a.device_id a.sequence crypto w cs (omega arith), later)
add_answer-Ordered crypto cs (ok none, w) h later = later
add_answer-Ordered crypto cs (err e, w) h later = later

add_touched-Ordered :
    (r : Result Text) (rest : List Event) → Ordered rest → Ordered (add_touched r rest)
add_touched-Ordered (ok j) rest h = h
add_touched-Ordered (err e) rest h = h

-- In any sequence of signed requests, registrations, revocations and resets of counters, with any
-- failures of the file system: the sequence numbers that are accepted from one device strictly
-- increase until the next registration, revocation or reset of that same device is called.
pub serve_calls-Ordered :
    (crypto : Crypto) (w : World) (cs : List Call) → Ordered (serve_calls crypto w cs)
unfolding serve_calls add_event call_step
serve_calls-Ordered crypto w [] = tt
serve_calls-Ordered crypto w (signed r ∷ cs) =
    let x = verify_signed_request crypto r.now r.headers r.body w in
    add_answer-Ordered crypto cs x ((request-recorded crypto r).run w)
      (serve_calls-Ordered crypto x.1 cs)
serve_calls-Ordered crypto w (register now v name key apps ∷ cs) =
    add_touched-Ordered (normalize_device_id v) _ (serve_calls-Ordered crypto _ cs)
serve_calls-Ordered crypto w (revoke now v ∷ cs) =
    add_touched-Ordered (normalize_device_id v) _ (serve_calls-Ordered crypto _ cs)
serve_calls-Ordered crypto w (reset now v ∷ cs) =
    add_touched-Ordered (normalize_device_id v) _ (serve_calls-Ordered crypto _ cs)
