-- ===== src/Hoare.antt =====
-- Postconditions of stateful calls that may throw: an invariant of the state that holds on every
-- way out, and a fact about the value of a call that returns.
use hyrovi_proxy_manager.Prelude.{Bool, true, false, ◌≡◌, refl, subst, Option, none, some}
use hyrovi_proxy_manager.Errors.{
  Error, Result, ok, err, M, pure, throw, throw_if, catch, ◌>>=◌, bind_at, catch_at, lift, branch,
  on_option,
}

pub ok_injective : {A : Type 0} {a b : A} → ok a ≡ ok b → a ≡ b
ok_injective e = cc

module _ {S : Type 0} (I : S → Type 0) where
  abbrev pub Outcome : {A : Type 0} → (A → Type 0) → Result A × S → Type 0
  Outcome Q (ok a, s) = Q a × I s
  Outcome Q (err e, s) = I s

  pub record Ensures {A : Type 0} (Q : A → Type 0) (m : M S A) : Type 0 where
    pub run : (s : S) → I s → Outcome Q (m s)

  abbrev pub Any : {A : Type 0} → A → Type 0
  Any a = Unit {0}

  bind-Outcome :
      {A B : Type 0} (Q : A → Type 0) (R : B → Type 0) (f : A → M S B) (x : Result A × S)
      → Outcome Q x
      → ((a : A) → Q a → Ensures R (f a))
      → Outcome R (bind_at x f)
  bind-Outcome Q R f (ok a, s) (q, i) k = (k a q).run s i
  bind-Outcome Q R f (err e, s) i k = i

  pub Ensures-bind :
      {A B : Type 0} {Q : A → Type 0} {R : B → Type 0} {m : M S A} {f : A → M S B}
      → Ensures Q m
      → ((a : A) → Q a → Ensures R (f a))
      → Ensures R (m >>= f)
  Ensures-bind {Q} {R} {m} {f} h k = record { run = λ s i. bind-Outcome Q R f (m s) (h.run s i) k }

  catch-Outcome :
      {A : Type 0} (Q : A → Type 0) (g : Error → M S A) (x : Result A × S)
      → Outcome Q x
      → ((e : Error) → Ensures Q (g e))
      → Outcome Q (catch_at x g)
  catch-Outcome Q g (ok a, s) h k = h
  catch-Outcome Q g (err e, s) i k = (k e).run s i

  pub Ensures-catch :
      {A : Type 0} {Q : A → Type 0} {m : M S A} {g : Error → M S A}
      → Ensures Q m
      → ((e : Error) → Ensures Q (g e))
      → Ensures Q (catch m g)
  Ensures-catch {Q} {m} {g} h k = record { run = λ s i. catch-Outcome Q g (m s) (h.run s i) k }

  pub Ensures-pure : {A : Type 0} {Q : A → Type 0} (a : A) → Q a → Ensures Q (pure a)
  Ensures-pure a q = record { run = λ s i. (q, i) }

  pub Ensures-throw : {A : Type 0} {Q : A → Type 0} (e : Error) → Ensures Q (throw e)
  Ensures-throw e = record { run = λ s i. i }

  pub Ensures-throw_if : (b : Bool) (e : Error) → Ensures (λ _. b ≡ false) (throw_if b e)
  unfolding throw_if
  Ensures-throw_if true e = record { run = λ s i. i }
  Ensures-throw_if false e = record { run = λ s i. (refl, i) }

  pub Ensures-lift : {A : Type 0} (r : Result A) → Ensures (λ a. r ≡ ok a) (lift r)
  unfolding lift
  Ensures-lift (ok a) = record { run = λ s i. (refl, i) }
  Ensures-lift (err e) = record { run = λ s i. i }

  -- The two branches of a test, and the two cases of a search.
  pub Ensures-branch :
      {A : Type 0} {Q : A → Type 0} {m n : M S A} (b : Bool)
      → (b ≡ true → Ensures Q m)
      → (b ≡ false → Ensures Q n)
      → Ensures Q (branch b m n)
  unfolding branch
  Ensures-branch true h k = h refl
  Ensures-branch false h k = k refl

  pub Ensures-option :
      {A B : Type 0} {Q : B → Type 0} {m : M S B} {f : A → M S B} (o : Option A)
      → (o ≡ none → Ensures Q m)
      → ((a : A) → o ≡ some a → Ensures Q (f a))
      → Ensures Q (on_option o m f)
  unfolding on_option
  Ensures-option none h k = h refl
  Ensures-option (some a) h k = k a refl

  weaken-Outcome :
      {A : Type 0} (Q R : A → Type 0) (x : Result A × S)
      → Outcome Q x
      → ((a : A) → Q a → R a)
      → Outcome R x
  weaken-Outcome Q R (ok a, s) (q, i) k = (k a q, i)
  weaken-Outcome Q R (err e, s) i k = i

  pub Ensures-weaken :
      {A : Type 0} {Q R : A → Type 0} {m : M S A}
      → Ensures Q m
      → ((a : A) → Q a → R a)
      → Ensures R m
  Ensures-weaken {Q} {R} {m} h k = record { run = λ s i. weaken-Outcome Q R (m s) (h.run s i) k }

  -- The state after a call, whatever the way out.
  pub Outcome-state : {A : Type 0} (Q : A → Type 0) (x : Result A × S) → Outcome Q x → I x.1
  Outcome-state Q (ok a, s) (q, i) = i
  Outcome-state Q (err e, s) i = i

  pub Outcome-ok :
      {A : Type 0} (Q : A → Type 0) (x : Result A × S) {a : A} → Outcome Q x → x.0 ≡ ok a → Q a
  Outcome-ok Q (ok b, s) (q, i) e = subst Q (ok_injective e) q
  Outcome-ok Q (err b, s) i e = cc

-- What holds of the value and of the state when a call returns, with no claim when it throws.
module _ {S : Type 0} where
  abbrev pub Returned : {A : Type 0} → (A → S → Type 0) → Result A × S → Type 0
  Returned R (ok a, s) = R a s
  Returned R (err e, s) = Unit

  pub record Yields {A : Type 0} (R : A → S → Type 0) (m : M S A) : Type 0 where
    pub run : (s : S) → Returned R (m s)

  pub bind-Returned :
      {A B : Type 0} (P : A → S → Type 0) (R : B → S → Type 0) (f : A → M S B) (x : Result A × S)
      → Returned P x
      → ((a : A) (s : S) → P a s → Returned R (f a s))
      → Returned R (bind_at x f)
  bind-Returned P R f (ok a, s) p k = k a s p
  bind-Returned P R f (err e, s) p k = tt

  pub Yields-bind :
      {A B : Type 0} {P : A → S → Type 0} {R : B → S → Type 0} {m : M S A} (f : A → M S B)
      → Yields P m
      → ((a : A) (s : S) → P a s → Returned R (f a s))
      → Yields R (m >>= f)
  Yields-bind {P} {R} {m} f h k = record { run = λ s. bind-Returned P R f (m s) (h.run s) k }

  nothing-Returned : {A : Type 0} (x : Result A × S) → Returned (λ _ _. Unit {0}) x
  nothing-Returned (ok a, s) = tt
  nothing-Returned (err e, s) = tt

  -- The first call of a sequence is passed over.
  pub Yields-skip :
      {A B : Type 0} {R : B → S → Type 0} (m : M S A) {f : A → M S B}
      → ((a : A) → Yields R (f a))
      → Yields R (m >>= f)
  Yields-skip {R} m {f} k =
      Yields-bind {P = λ _ _. Unit {0}} f (record { run = λ s. nothing-Returned (m s) })
        (λ a s _. (k a).run s)

  pub Returned-ok :
      {A : Type 0} (R : A → S → Type 0) (x : Result A × S) {a : A} {s : S}
      → Returned R x
      → x ≡ (ok a, s)
      → R a s
  Returned-ok R x h e = subst (Returned R) e h

-- What a call ensures, of the value and the state where it returns.
pub Ensures-Returned :
    {S A : Type 0} (I : S → Type 0) (Q : A → Type 0) (m : M S A) (s : S)
    → Ensures I Q m
    → I s
    → Returned (λ a t. Q a × I t) (m s)
Ensures-Returned {S} {A} I Q m s h i = go (m s) (h.run s i)
  where
    go : (x : Result A × S) → Outcome I Q x → Returned (λ a t. Q a × I t) x
    go (ok a, t) o = o
    go (err e, t) o = tt
