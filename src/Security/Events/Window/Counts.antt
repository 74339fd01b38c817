-- ===== src/Security/Events/Window/Counts.antt =====
-- A map from paths to counts counts the occurrences in a list, and its size is the number of different
-- paths.
use hyrovi_proxy_manager.Prelude.{
  ℕ, suc, ◌+◌, ◌-◌, ◌≤◌, ◌≡◌, refl, sym, ap, ◌∙◌, Bool, true, false, List, [], ◌∷◌, ◌++◌, length,
  leb, arith, if◌then◌else◌, Bool-cases, inl, inr,
}
use hyrovi_proxy_manager.Js.Text.{Text, text_eq, text_eq→eq, text_eq_refl, text_eq_sym, mem_text}
use hyrovi_proxy_manager.Security.Events.Window.{bump, release}

abbrev pub one_if : Bool → ℕ
one_if true = 1
one_if false = 0

-- How often a text stands in a list.
abbrev pub occurrences : Text → List Text → ℕ
occurrences t [] = 0
occurrences t (x ∷ l) = one_if (text_eq x t) + occurrences t l

-- How many different texts stand in a list.
abbrev pub different : List Text → ℕ
different [] = 0
different (x ∷ l) = if mem_text x l then different l else suc (different l)

abbrev pub count_of : Text → List (Text × ℕ) → ℕ
count_of t [] = 0
count_of t ((q, n) ∷ m) = if text_eq q t then n else count_of t m

-- No key twice, and no count of 0.
abbrev pub Proper : List (Text × ℕ) → Type 0
Proper [] = Unit
Proper ((q, n) ∷ m) = (count_of q m ≡ 0) × (1 ≤ n) × Proper m

same_key : (q p t : Text) → text_eq q p ≡ true → text_eq q t ≡ text_eq p t
same_key q p t e = ap (λ x. text_eq x t) (text_eq→eq q p e)

other_key : (q p t : Text) → text_eq q p ≡ false → text_eq q t ≡ true → text_eq p t ≡ false
other_key q p t e f =
    let swap : text_eq t p ≡ false = sym (ap (λ x. text_eq x p) (text_eq→eq q t f)) ∙ e in
    text_eq_sym t p swap

count_of-bump :
    (t p : Text) (m : List (Text × ℕ)) → count_of t (bump p m) ≡ count_of t m + one_if (text_eq p t)
unfolding bump
count_of-bump t p [] = elim (Bool-cases (text_eq p t)) [
  | inl e ↦ ground (arith, e)
  | inr e ↦ ground (arith, e)
]
count_of-bump t p ((q, n) ∷ m) = elim (Bool-cases (text_eq q p)) [
  | inl e ↦ ground (arith, e, same_key q p t e)
  | inr e ↦ elim (Bool-cases (text_eq q t)) [
    | inl f ↦ ground (arith, e, f, other_key q p t e f)
    | inr f ↦ ground (arith, e, f, count_of-bump t p m)
  ]
]

pub bump-Proper : (p : Text) (m : List (Text × ℕ)) → Proper m → Proper (bump p m)
unfolding bump
bump-Proper p [] g = (refl, omega arith, tt)
bump-Proper p ((q, n) ∷ m) (z, h, g) = elim (Bool-cases (text_eq q p)) [
  | inl e ↦ rw e (z, omega (arith, h), g)
  | inr e ↦
      let back = text_eq_sym q p e in
      rw e (ground (arith, count_of-bump q p m, z, back), h, bump-Proper p m g)
]

count_of-release :
    (t p : Text) (m : List (Text × ℕ))
    → Proper m
    → count_of t (release p m) ≡ count_of t m - one_if (text_eq p t)
unfolding release
count_of-release t p [] g = omega arith
count_of-release t p ((q, n) ∷ m) (z, h, g) = elim (Bool-cases (text_eq q p)) [
  | inl e ↦ elim (Bool-cases (text_eq p t)) [
    | inl f ↦
        let here : text_eq q t ≡ true = same_key q p t e ∙ f in
        let gone : count_of t m ≡ 0 = ap (λ x. count_of x m) (sym (text_eq→eq q t here)) ∙ z in
        ground (arith, e, f, here, gone, h)
    | inr f ↦ let here : text_eq q t ≡ false = same_key q p t e ∙ f in ground (arith, e, f, here)
  ]
  | inr e ↦ elim (Bool-cases (text_eq q t)) [
    | inl f ↦ ground (arith, e, f, other_key q p t e f)
    | inr f ↦ ground (arith, e, f, count_of-release t p m g)
  ]
]

pub release-Proper : (p : Text) (m : List (Text × ℕ)) → Proper m → Proper (release p m)
unfolding release
release-Proper p [] g = tt
release-Proper p ((q, n) ∷ m) (z, h, g) = elim (Bool-cases (text_eq q p)) [
  | inl e ↦ elim (Bool-cases (leb n 1)) [
    | inl f ↦ rw e (rw f g)
    | inr f ↦ rw e (rw f (z, ground (arith, f), g))
  ]
  | inr e ↦ rw e (ground (arith, count_of-release q p m g, z), h, release-Proper p m g)
]

-- One less of a path: the map gets smaller when it was the last.
length-release :
    (p : Text) (m : List (Text × ℕ))
    → Proper m
    → 1 ≤ count_of p m
    → length m ≡ (if leb (count_of p m) 1 then suc (length (release p m)) else length (release p m))
unfolding release
length-release p [] g h = absurd (omega (arith, h))
length-release p ((q, n) ∷ m) (z, k, g) h = elim (Bool-cases (text_eq q p)) [
  | inl e ↦ elim (Bool-cases (leb n 1)) [ inl f ↦ rw e (rw f refl) | inr f ↦ rw e (rw f refl) ]
  | inr e ↦
      let found : 1 ≤ count_of p m = ground (arith, h, e) in
      ground (arith, e, length-release p m g found)
]

-- The map has the counts of a list.
pub record Counting (m : List (Text × ℕ)) (l : List Text) : Type 0 where
  pub proper : Proper m
  pub counts : (t : Text) → count_of t m ≡ occurrences t l

pub nil-Counting : Counting [] []
nil-Counting = record { proper = tt; counts = λ t. refl }

occurrences_append :
    (t p : Text) (l : List Text)
    → occurrences t (l ++ (p ∷ [])) ≡ occurrences t l + one_if (text_eq p t)
occurrences_append t p [] = omega arith
occurrences_append t p (x ∷ l) = omega (arith, occurrences_append t p l)

pub bump-Counting :
    (p : Text) (m : List (Text × ℕ)) (l : List Text)
    → Counting m l
    → Counting (bump p m) (l ++ (p ∷ []))
bump-Counting p m l c = record {
  proper = bump-Proper p m c.proper;
  counts = λ t. omega (arith, count_of-bump t p m, occurrences_append t p l, c.counts t);
}

pub release-Counting :
    (p : Text) (m : List (Text × ℕ)) (l : List Text) → Counting m (p ∷ l) → Counting (release p m) l
release-Counting p m l c = record {
  proper = release-Proper p m c.proper;
  counts = λ t. omega (arith, count_of-release t p m c.proper, c.counts t);
}

mem_text-occurrences : (t : Text) (l : List Text) → mem_text t l ≡ leb 1 (occurrences t l)
mem_text-occurrences t [] = refl
mem_text-occurrences t (x ∷ l) = elim (Bool-cases (text_eq x t)) [
  | inl e ↦ ground (arith, e)
  | inr e ↦ ground (arith, e, mem_text-occurrences t l)
]

pub length-different : (m : List (Text × ℕ)) (l : List Text) → Counting m l → length m ≡ different l
length-different [] [] c = refl
length-different ((q, n) ∷ m) [] c =
    let (_, h, _) = c.proper in
    let none_here : n ≡ 0 = ground (arith, c.counts q, text_eq_refl q) in
    absurd (omega (arith, h, none_here))
length-different m (x ∷ l) c =
    let self : one_if (text_eq x x) ≡ 1 = ap one_if (text_eq_refl x) in
    let present : 1 ≤ count_of x m = omega (arith, c.counts x, self) in
    let rest = length-different (release x m) l (release-Counting x m l c) in
    ground
      (arith, length-release x m c.proper present, c.counts x, self, rest, mem_text-occurrences x l)
