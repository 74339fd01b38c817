-- ===== src/Errors.antt =====
-- backend/lib/error.js: the error classes, with the HTTP status and the visibility of each.
-- A failed call of the runtime (file system, child process) is `io_error`.
use hyrovi_proxy_manager.Prelude.{
  ◌≡◌, refl, ap, ◌⊎◌, inl, inr, ℕ, Bool, true, false, Option, none, some,
}
use hyrovi_proxy_manager.Js.Text.{Text}

pub data Error : Type 0 where
  permission_error : Error
  item_not_found_error : Option Text → Error
  token_revoked_error : Text → Error
  auth_error : Text → Error
  internal_error : Text → Error
  internal_validation_error : Text → Error
  configuration_error : Text → Error
  cache_error : Text → Error
  validation_error : Text → Error
  assertion_failed_error : Text → Error
  command_error : Text → Error
  io_error : Text → Error

-- `err.status`; a class that sets none answers `none`
pub status : Error → Option ℕ
status permission_error = some 403
status (item_not_found_error id) = some 404
status (token_revoked_error m) = some 401
status (auth_error m) = some 400
status (internal_error m) = some 500
status (internal_validation_error m) = some 400
status (configuration_error m) = some 400
status (cache_error m) = some 500
status (validation_error m) = some 400
status (assertion_failed_error m) = some 400
status (command_error m) = none
status (io_error m) = none

-- `err.public`
pub is_public : Error → Bool
is_public permission_error = true
is_public (item_not_found_error id) = true
is_public (token_revoked_error m) = true
is_public (auth_error m) = true
is_public (configuration_error m) = true
is_public (validation_error m) = true
is_public _ = false

pub data Result {ℓ} (A : Type ℓ) : Type ℓ where
  ok : A → Result A
  err : Error → Result A

-- A stateful call that may throw: the state reached stays also when it throws.
abbrev pub M : Type 0 → Type 0 → Type 0
M S A = S → Result A × S

abbrev pub pure : {S A : Type 0} → A → M S A
pure a s = (ok a, s)

abbrev pub throw : {S A : Type 0} → Error → M S A
throw e s = (err e, s)

abbrev pub bind_at : {S A B : Type 0} → Result A × S → (A → M S B) → Result B × S
bind_at (ok a, s) f = f a s
bind_at (err e, s) f = (err e, s)

infixl 5 ◌>>=◌ ◌>>◌
abbrev pub ◌>>=◌ : {S A B : Type 0} → M S A → (A → M S B) → M S B
◌>>=◌ m f s = bind_at (m s) f

abbrev pub ◌>>◌ : {S B : Type 0} → M S (Unit {0}) → M S B → M S B
m >> k = m >>= λ _. k

abbrev pub catch_at : {S A : Type 0} → Result A × S → (Error → M S A) → Result A × S
catch_at (ok a, s) h = (ok a, s)
catch_at (err e, s) h = h e s

-- try { m } catch (e) { h(e) }
abbrev pub catch : {S A : Type 0} → M S A → (Error → M S A) → M S A
catch m h s = catch_at (m s) h

-- if (b) throw e
unfoldable pub throw_if : {S : Type 0} → Bool → Error → M S (Unit {0})
throw_if true e s = (err e, s)
throw_if false e s = (ok tt, s)

-- if (b) m else n
unfoldable pub branch : {S A : Type 0} → Bool → M S A → M S A → M S A
branch true m n = m
branch false m n = n

-- A search that found nothing, or an entry.
unfoldable pub on_option : {S A B : Type 0} → Option A → M S B → (A → M S B) → M S B
on_option none m f = m
on_option (some a) m f = f a

unfoldable pub lift : {S A : Type 0} → Result A → M S A
lift r s = (r, s)

-- All that a run of a call computes through.
unfoldable pub control : Unit {0}
unfolding throw_if branch on_option lift
control = tt

-- Inversion of a sequence of calls that returned.
pub bind_at-eq-ok :
    {S A B : Type 0} (x : Result A × S) (f : A → M S B) {b : B} {s' : S}
    → bind_at x f ≡ (ok b, s')
    → (a : A) × (s : S) × (x ≡ (ok a, s)) × (f a s ≡ (ok b, s'))
bind_at-eq-ok (ok a, s) f h = (a, s, refl, h)
bind_at-eq-ok (err e, s) f h = cc

pub lift-eq-ok :
    {S A : Type 0} (r : Result A) {a : A} {s s' : S} → lift r s ≡ (ok a, s') → (r ≡ ok a) × (s ≡ s')
unfolding lift
lift-eq-ok r h = (ap (λ x. x.0) h, ap (λ x. x.1) h)

pub throw_if-eq-ok :
    {S : Type 0} (b : Bool) (e : Error) {s s' : S} {u : Unit {0}}
    → throw_if b e s ≡ (ok u, s')
    → (b ≡ false) × (s ≡ s')
unfolding throw_if
throw_if-eq-ok true e h = cc
throw_if-eq-ok false e h = (refl, ap (λ x. x.1) h)

pub on_option-eq-ok :
    {S A B : Type 0} (o : Option A) (m : M S B) (f : A → M S B) {s s' : S} {b : B}
    → on_option o m f s ≡ (ok b, s')
    → ((o ≡ none) × (m s ≡ (ok b, s'))) ⊎ ((a : A) × (o ≡ some a) × (f a s ≡ (ok b, s')))
unfolding on_option
on_option-eq-ok none m f h = inl (refl, h)
on_option-eq-ok (some a) m f h = inr (a, refl, h)
