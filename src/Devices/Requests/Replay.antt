-- ===== src/Devices/Requests/Replay.antt =====
-- The replay counter of `verifySignedRequest` of backend/internal/security_devices.js.
use hyrovi_proxy_manager.Prelude.{
  ℕ, ◌≤◌, ◌<◌, ◌≡◌, refl, ap, subst, some_cancel, Bool, true, false, Option, none, some, [], ◌∷◌,
  arith, leb, if◌then◌else◌,
}
use hyrovi_proxy_manager.Js.Text.{Text, codes, text_eq, text_eq_iff, text_eq_refl}
use hyrovi_proxy_manager.Js.Value.{Value}
use hyrovi_proxy_manager.Errors.{ok, pure, lift, branch, ◌>>=◌}
use hyrovi_proxy_manager.Hoare.{
  Ensures, Ensures-bind, Ensures-pure, Ensures-lift, Ensures-branch, Yields, Yields-bind,
  Yields-skip, Returned,
}
use hyrovi_proxy_manager.Devices.{
  Device, DeviceState, States, World, Crypto, File, absent, unparsable, other_shape, holds, attempt,
  file_content, read_devices_unsafe, read_state_unsafe, write_state, state_of, set_state,
}
use hyrovi_proxy_manager.Devices.Keeps.{
  content_or, read_devices-keeps, read_state-keeps, write_state-keeps,
}
use hyrovi_proxy_manager.Devices.Requests.{
  Signed, Accepted, read_signed, check_replay, authorise, record_sequence, verify_signed,
  verify_signed_request, seen_state, last_sequence_of, signed_headers_present, Request,
}

-- The last sequence number that is on record for a device.
abbrev pub recorded : Text → World → ℕ
recorded id w = content_or 0 (λ s. last_sequence_of (state_of id s)) w.states

pub state_of-set_state :
    (id k : Text) (s : DeviceState) (m : States)
    → state_of id (set_state k s m) ≡ (if text_eq k id then some s else state_of id m)
unfolding state_of set_state
state_of-set_state id k s [] = refl
state_of-set_state id k s ((j, t) ∷ m) =
    ground (arith, state_of-set_state id k s m, text_eq_iff k id, text_eq_iff j k, text_eq_iff j id)

-- The floor below which no sequence number of a device is accepted.
abbrev pub AtLeast : Text → ℕ → World → Type 0
AtLeast id k w = k ≤ recorded id w

-- A floor is kept by the write of a greater number, or for another device.
floor-set :
    (id : Text) (k : ℕ) (s : Signed) (now : ℕ) (app : Text) (old : States)
    → k ≤ last_sequence_of (state_of id old)
    → leb s.sequence (last_sequence_of (state_of s.device_id old)) ≡ false
    → k
      ≤ last_sequence_of (
          state_of id (set_state s.device_id (seen_state now app s (state_of s.device_id old)) old))
unfolding seen_state
floor-set id k s now app old h fresh =
    rw (state_of-set_state id s.device_id _ old) (ground (arith, text_eq_iff s.device_id id))

check_replay-fresh :
    (o : Option DeviceState) (s : Signed) {u : Unit {0}}
    → check_replay o s ≡ ok u
    → leb s.sequence (last_sequence_of o) ≡ false
unfolding check_replay
check_replay-fresh o s h = ground arith

-- What is read has the floor that is on record.
pub floor-read :
    (id : Text) (k : ℕ) (f : File States) (m : States)
    → file_content [] f ≡ ok m
    → k ≤ content_or 0 (λ s. last_sequence_of (state_of id s)) f
    → k ≤ last_sequence_of (state_of id m)
unfolding file_content state_of
floor-read id k absent m e h = ground arith
floor-read id k unparsable m e h = ground arith
floor-read id k other_shape m e h = ground arith
floor-read id k (holds s) m e h = ground arith

floor-accepted :
    (id : Text) (k : ℕ) (s : Signed) (m : States)
    → k ≤ last_sequence_of (state_of id m)
    → leb s.sequence (last_sequence_of (state_of s.device_id m)) ≡ false
    → s.device_id ≡ id
    → k < s.sequence
floor-accepted id k s m h fresh e = ground (arith, ap (λ i. last_sequence_of (state_of i m)) e)

module _ (crypto : Crypto) (now : ℕ) (id : Text) (k : ℕ) where
  record_sequence-AtLeast :
      (s : Signed) (d : Device) (app : Text)
      → Ensures
          (AtLeast id k)
          (λ a. a.device_id ≡ id → k < a.sequence)
          (record_sequence crypto now s d app)
  unfolding record_sequence
  record_sequence-AtLeast s d app =
      Ensures-bind _
        (read_state-keeps (AtLeast id k) (λ _ _ _ _ i. i)
          (λ m. k ≤ last_sequence_of (state_of id m)) (λ d f fs m i e. floor-read id k f m e i))
        (λ m h. Ensures-bind _ (Ensures-lift _ _) (λ _ fresh.
          Ensures-bind _
            (write_state-keeps (AtLeast id k) (λ _ _ _ _ i. i) _
              (λ _ _ _ i. floor-set id k s now app m h (check_replay-fresh _ s fresh)))
            (λ _ _. Ensures-pure _ _ (floor-accepted id k s m h (check_replay-fresh _ s fresh)))))

  verify_signed-AtLeast :
      (headers body : Value)
      → Ensures
          (AtLeast id k)
          (λ a. a.device_id ≡ id → k < a.sequence)
          (verify_signed crypto now headers body)
  unfolding verify_signed
  verify_signed-AtLeast headers body = Ensures-bind _ (Ensures-lift _ _) (λ s _.
      Ensures-bind _
        (read_devices-keeps (AtLeast id k) (λ _ _ _ _ i. i) (λ _. Unit {0}) (λ _ _ _ _ _ _. tt))
        (λ ds _.
          Ensures-bind _ (Ensures-lift _ _) (λ found _. record_sequence-AtLeast s found.0 found.1)))

-- After an accepted request its number is on record.
write_state-Yields : (s : States) → Yields (λ _ w. w.states ≡ holds s) (write_state s)
unfolding write_state
write_state-Yields s =
    Yields-skip (attempt (codes "write trusted-device-state.json"))
      (λ _. record { run = λ w. refl })

recorded-set :
    (id : Text) (s : DeviceState) (m : States) (w : World)
    → w.states ≡ holds (set_state id s m)
    → recorded id w ≡ s.last_sequence
recorded-set id s m w e =
    let found : state_of id (set_state id s m) ≡ some s =
      rw (state_of-set_state id id s m, text_eq_refl id) refl in
    rw e (rw found refl)

verify_signed-recorded :
    (crypto : Crypto) (now : ℕ) (headers body : Value)
    → Yields (λ a w. recorded a.device_id w ≡ a.sequence) (verify_signed crypto now headers body)
unfolding verify_signed record_sequence seen_state
verify_signed-recorded crypto now headers body = Yields-skip (lift (read_signed now headers)) (λ s.
    Yields-skip read_devices_unsafe (λ ds. Yields-skip (lift (authorise crypto s body ds)) (λ found.
      Yields-skip read_state_unsafe (λ m.
        Yields-skip (lift (check_replay (state_of s.device_id m) s)) (λ _.
          Yields-bind _ (write_state-Yields _) (λ _ w e. recorded-set s.device_id _ m w e))))))

pub request-AtLeast :
    (crypto : Crypto) (id : Text) (k : ℕ) (r : Request)
    → Ensures
        (AtLeast id k)
        (λ o. (a : Accepted) → o ≡ some a → a.device_id ≡ id → k < a.sequence)
        (verify_signed_request crypto r.now r.headers r.body)
unfolding verify_signed_request
request-AtLeast crypto id k r =
    Ensures-branch _ _
      (λ _. Ensures-bind _ (verify_signed-AtLeast crypto r.now id k r.headers r.body) (λ a h.
        Ensures-pure _ _ (λ b e same.
          let b_is : a ≡ b = some_cancel e in
          subst (λ c. c.device_id ≡ id → k < c.sequence) b_is h same)))
      (λ _. Ensures-pure _ none (λ a e. cc))

pub request-recorded :
    (crypto : Crypto) (r : Request)
    → Yields
        (λ o w. (a : Accepted) → o ≡ some a → recorded a.device_id w ≡ a.sequence)
        (verify_signed_request crypto r.now r.headers r.body)
unfolding verify_signed_request branch
request-recorded crypto r = record { run = λ w. go w (signed_headers_present r.headers) }
  where
    go :
        (w : World) (b : Bool)
        → Returned
            (λ o w. (a : Accepted) → o ≡ some a → recorded a.device_id w ≡ a.sequence)
            (branch b
              (verify_signed crypto r.now r.headers r.body >>= λ a. pure (some a))
              (pure none)
              w)
    go w true =
        (Yields-bind _ (verify_signed-recorded crypto r.now r.headers r.body) (λ a v e b same.
            subst (λ c. recorded c.device_id v ≡ c.sequence) (some_cancel same) e)).run
          w
    go w false = λ a e. cc
