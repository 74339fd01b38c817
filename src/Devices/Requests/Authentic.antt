-- ===== src/Devices/Requests/Authentic.antt =====
-- `verifySignedRequest` of backend/internal/security_devices.js: what an accepted request shows.
use hyrovi_proxy_manager.Prelude.{
  ℕ, ◌+◌, ◌≤◌, ◌≡◌, refl, subst, Bool, true, false, ◌||◌, inl, inr, Option, some, List, [], arith,
  if◌then◌else◌, find?, Bool-cases,
}
use hyrovi_proxy_manager.Js.Text.{Text, codes, mem_text}
use hyrovi_proxy_manager.Js.Value.{Value, str, prop, bounded_string}
use hyrovi_proxy_manager.Errors.{validation_error, Result, ok, err}
use hyrovi_proxy_manager.Hoare.{
  Ensures, ok_injective, Ensures-bind, Ensures-pure, Ensures-lift, Outcome-ok,
}
use hyrovi_proxy_manager.Devices.Protocol.{signing_message}
use hyrovi_proxy_manager.Devices.{
  Device, World, Crypto, File, file_content, max_clock_skew_ms, normalize_device_id, has_id,
  is_revoked,
}
use hyrovi_proxy_manager.Devices.Keeps.{read_devices-keeps, read_state-keeps, write_state-keeps}
use hyrovi_proxy_manager.Devices.Requests.{
  Signed, Accepted, header_value, is_incomplete, numbers_of, read_numbers, read_signed,
  check_numbers, active_device, allowed_app, reported_differs, reported_id, check_signature,
  with_id, authorise, authorise_app, authorise_device, record_sequence, verify_signed,
}

-- Within five minutes of the clock.
abbrev pub Near : ℕ → Signed → Type 0
Near now t = (now ≤ t.timestamp + max_clock_skew_ms) × (t.timestamp ≤ now + max_clock_skew_ms)

-- An accepted request: its device is on file and not revoked, the body names an app that the device
-- may report for and no other device, the device has signed the message of the identifier, the
-- number, the time and the body, and the time is near.
pub record IsAuthentic (crypto : Crypto) (now : ℕ) (headers body : Value)
    (file : File (List Device)) (a : Accepted) : Type 0 where
  pub signed : Signed
  pub listed : List Device
  pub device : Device
  pub app : Text
  pub read : read_signed now headers ≡ ok signed
  pub on_file : file_content [] file ≡ ok listed
  pub found : find? (has_id a.device_id) listed ≡ some device
  pub not_revoked : is_revoked device ≡ false
  pub reports : bounded_string (prop (codes "app") body) 80 ≡ some app
  pub permitted :
      (mem_text (codes "*") device.allowed_apps || mem_text app device.allowed_apps) ≡ true
  pub genuine :
      crypto.verify_signature
        (signing_message crypto.sha256_hex a.device_id a.sequence signed.timestamp body)
        device.public_key
        (crypto.decode_base64 signed.signature)
      ≡ true
  pub same_device : reported_differs a.device_id (reported_id body) ≡ false
  pub near : Near now signed

record IsAuthorised (crypto : Crypto) (s : Signed) (body : Value) (ds : List Device) (d : Device)
    (app : Text) : Type 0 where
  found : find? (has_id s.device_id) ds ≡ some d
  not_revoked : is_revoked d ≡ false
  reports : bounded_string (prop (codes "app") body) 80 ≡ some app
  permitted : (mem_text (codes "*") d.allowed_apps || mem_text app d.allowed_apps) ≡ true
  same_device : reported_differs s.device_id (reported_id body) ≡ false
  genuine :
      crypto.verify_signature
        (signing_message crypto.sha256_hex s.device_id s.sequence s.timestamp body)
        d.public_key
        (crypto.decode_base64 s.signature)
      ≡ true

active_device-eq-ok :
    (o : Option Device) {d : Device}
    → active_device o ≡ ok d
    → (o ≡ some d) × (is_revoked d ≡ false)
unfolding active_device
active_device-eq-ok o h = ground arith

allowed_app-eq-ok :
    (d : Device) (o : Option Text) {app : Text}
    → allowed_app d o ≡ ok app
    → (o ≡ some app) × ((mem_text (codes "*") d.allowed_apps || mem_text app d.allowed_apps) ≡ true)
unfolding allowed_app
allowed_app-eq-ok d o h = ground arith

check_signature-eq-ok :
    (crypto : Crypto) (d : Device) (s : Signed) (body : Value) {u : Unit {0}}
    → check_signature crypto d s body ≡ ok u
    → crypto.verify_signature
        (signing_message crypto.sha256_hex s.device_id s.sequence s.timestamp body)
        d.public_key
        (crypto.decode_base64 s.signature)
      ≡ true
unfolding check_signature
check_signature-eq-ok crypto d s body h = ground arith

reported-IsAuthorised :
    (crypto : Crypto) (s : Signed) (body : Value) (ds : List Device) (d : Device) (app : Text)
    {x : Device × Text} (differs : Bool) (r : Result (Unit {0}))
    → reported_differs s.device_id (reported_id body) ≡ differs
    → check_signature crypto d s body ≡ r
    → (find? (has_id s.device_id) ds ≡ some d) × (is_revoked d ≡ false)
    → (bounded_string (prop (codes "app") body) 80 ≡ some app)
      × ((mem_text (codes "*") d.allowed_apps || mem_text app d.allowed_apps) ≡ true)
    → (if differs
        then err (validation_error (codes "Signed device ID does not match the event device ID"))
        else elim r [ err e ↦ err e | ok _ ↦ ok (d, app) ])
      ≡ ok x
    → IsAuthorised crypto s body ds x.0 x.1
reported-IsAuthorised crypto s body ds d app true r n c f p h = cc
reported-IsAuthorised crypto s body ds d app false (err e) n c f p h = cc
reported-IsAuthorised crypto s body ds d app false (ok u) n c f p h =
    subst (λ y. IsAuthorised crypto s body ds y.0 y.1) (ok_injective h)
      (record {
        found = f.0;
        not_revoked = f.1;
        reports = p.0;
        permitted = p.1;
        same_device = n;
        genuine = check_signature-eq-ok crypto d s body c;
      })

app-IsAuthorised :
    (crypto : Crypto) (s : Signed) (body : Value) (ds : List Device) (d : Device)
    {x : Device × Text} (r : Result Text)
    → allowed_app d (bounded_string (prop (codes "app") body) 80) ≡ r
    → (find? (has_id s.device_id) ds ≡ some d) × (is_revoked d ≡ false)
    → authorise_app crypto s body d r ≡ ok x
    → IsAuthorised crypto s body ds x.0 x.1
unfolding authorise_app
app-IsAuthorised crypto s body ds d (err e) a f h = cc
app-IsAuthorised crypto s body ds d (ok app) a f h =
    reported-IsAuthorised crypto s body ds d app _ _ refl refl f (allowed_app-eq-ok d _ a) h

device-IsAuthorised :
    (crypto : Crypto) (s : Signed) (body : Value) (ds : List Device) {x : Device × Text}
    (r : Result Device)
    → active_device (find? (has_id s.device_id) ds) ≡ r
    → authorise_device crypto s body r ≡ ok x
    → IsAuthorised crypto s body ds x.0 x.1
unfolding authorise_device
device-IsAuthorised crypto s body ds (err e) a h = cc
device-IsAuthorised crypto s body ds (ok d) a h =
    app-IsAuthorised crypto s body ds d _ refl (active_device-eq-ok _ a) h

authorise-IsAuthorised :
    (crypto : Crypto) (s : Signed) (body : Value) (ds : List Device) {x : Device × Text}
    → authorise crypto s body ds ≡ ok x
    → IsAuthorised crypto s body ds x.0 x.1
unfolding authorise
authorise-IsAuthorised crypto s body ds h = device-IsAuthorised crypto s body ds _ refl h

check_numbers-Near :
    (now : ℕ) (s t : Signed)
    → check_numbers now s ≡ ok t
    → (now ≤ t.timestamp + max_clock_skew_ms) × (t.timestamp ≤ now + max_clock_skew_ms)
unfolding check_numbers
check_numbers-Near now s t h = ground arith

read_numbers-Near :
    (now : ℕ) (headers : Value) (id : Text) (t : Signed)
    → read_numbers now headers id ≡ ok t
    → Near now t
unfolding read_numbers
read_numbers-Near now headers id t h = elim (Bool-cases (is_incomplete headers)) [
  | inl e ↦ ground (arith, e, h)
  | inr e ↦ check_numbers-Near now (numbers_of headers id) t (ground (arith, e, h))
]

with_id-Near :
    (now : ℕ) (r : Result Text) (f : Text → Result Signed) (t : Signed)
    → ((id : Text) → f id ≡ ok t → Near now t)
    → with_id r f ≡ ok t
    → Near now t
with_id-Near now (ok id) f t k h = k id h
with_id-Near now (err e) f t k h = cc

read_signed-Near :
    (now : ℕ) (headers : Value) {s : Signed} → read_signed now headers ≡ ok s → Near now s
unfolding read_signed
read_signed-Near now headers {s} h =
    with_id-Near now (normalize_device_id (str (header_value headers (codes "x-hyrovi-device-id"))))
      (read_numbers now headers) s (λ id. read_numbers-Near now headers id s) h

-- What is read of a file of devices that no request changes.
module _ (crypto : Crypto) (now : ℕ) (headers body : Value) (file : File (List Device)) where
  abbrev pub Unchanged : World → Type 0
  Unchanged w = w.devices ≡ file

  record_sequence-IsAuthentic :
      (s : Signed) (ds : List Device) (d : Device) (app : Text)
      → read_signed now headers ≡ ok s
      → file_content [] file ≡ ok ds
      → IsAuthorised crypto s body ds d app
      → Ensures Unchanged
          (IsAuthentic crypto now headers body file)
          (record_sequence crypto now s d app)
  unfolding record_sequence
  record_sequence-IsAuthentic s ds d app r f a =
      Ensures-bind _
        (read_state-keeps Unchanged (λ _ _ _ _ i. i) (λ _. Unit {0}) (λ _ _ _ _ _ _. tt))
        (λ m _. Ensures-bind _ (Ensures-lift _ _) (λ _ _.
          Ensures-bind _ (write_state-keeps Unchanged (λ _ _ _ _ i. i) _ (λ _ _ _ i. i)) (λ _ _.
            Ensures-pure _ _ (record {
              signed = s;
              listed = ds;
              device = d;
              app = app;
              read = r;
              on_file = f;
              found = a.found;
              not_revoked = a.not_revoked;
              reports = a.reports;
              permitted = a.permitted;
              same_device = a.same_device;
              genuine = a.genuine;
              near = read_signed-Near now headers r;
            }))))

  pub verify_signed-keeps :
      Ensures Unchanged
        (IsAuthentic crypto now headers body file)
        (verify_signed crypto now headers body)
  unfolding verify_signed
  verify_signed-keeps = Ensures-bind _ (Ensures-lift _ _) (λ s r.
      Ensures-bind _
        (read_devices-keeps Unchanged (λ _ _ _ _ i. i) (λ ds. file_content [] file ≡ ok ds)
          (λ d st fs ds i e. subst (λ g. file_content [] g ≡ ok ds) i e))
        (λ ds f. Ensures-bind _ (Ensures-lift _ _) (λ found a.
          record_sequence-IsAuthentic s ds found.0 found.1 r f
            (authorise-IsAuthorised crypto s body ds a))))

-- A signed request that is accepted comes from a device which is on file and not revoked. The app
-- that its body names is one that the device may report for, and its body names no other device. Its
-- time is within five minutes of the clock, and it carries a signature of the device's key on the
-- message made of the identifier, the sequence number, the time and the body.
pub verify_signed-IsAuthentic :
    (crypto : Crypto) (now : ℕ) (headers body : Value) (w : World) {a : Accepted}
    → (verify_signed crypto now headers body w).0 ≡ ok a
    → IsAuthentic crypto now headers body w.devices a
verify_signed-IsAuthentic crypto now headers body w h =
    Outcome-ok (Unchanged crypto now headers body w.devices)
      (IsAuthentic crypto now headers body w.devices) _
      ((verify_signed-keeps crypto now headers body w.devices).run w refl) h
