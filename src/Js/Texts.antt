-- ===== src/Js/Texts.antt =====
-- Lists of texts that stand for sets.
use hyrovi_proxy_manager.Prelude.{
  ◌≡◌, refl, sym, ap, ◌∙◌, Bool, true, false, ◌||◌, List, [], ◌∷◌, ◌++◌, map, arith, Bool-cases,
  inl, inr,
}
use hyrovi_proxy_manager.Js.Text.{Text, text_eq, text_eq→eq, text_eq_sym, mem_text}

-- No text twice.
abbrev pub Distinct : List Text → Type 0
Distinct [] = Unit
Distinct (t ∷ l) = (mem_text t l ≡ false) × Distinct l

pub text_eq-mem_text :
    (x t : Text) (l : List Text) → text_eq x t ≡ true → mem_text x l ≡ mem_text t l
text_eq-mem_text x t l e = ap (λ u. mem_text u l) (text_eq→eq x t e)

pub mem_append :
    (t u : Text) (l : List Text) → mem_text t (l ++ (u ∷ [])) ≡ mem_text t l || text_eq u t
mem_append t u [] = ground arith
mem_append t u (x ∷ l) = ground (arith, mem_append t u l)

pub append-Distinct :
    (u : Text) (l : List Text) → mem_text u l ≡ false → Distinct l → Distinct (l ++ (u ∷ []))
append-Distinct u [] h d = (refl, tt)
append-Distinct u (x ∷ l) h (n, d) =
    let other : text_eq x u ≡ false = ground (arith, h) in
    let back = text_eq_sym x u other in
    (ground (arith, mem_append x u l, n, back), append-Distinct u l (ground (arith, h)) d)

pub map-append {ℓ} :
    {A : Type ℓ} (f : A → Text) (l : List A) (a : A) → map f (l ++ (a ∷ [])) ≡ map f l ++ (f a ∷ [])
map-append f [] a = refl
map-append f (x ∷ l) a = ap (λ r. f x ∷ r) (map-append f l a)

-- `news` holds no text twice and none of `old`, and all of both are known.
pub record Fresh (old news : List Text) (known : Text → Bool) : Type 0 where
  pub distinct : Distinct news
  pub listed : (t : Text) → mem_text t news ≡ true → known t ≡ true
  pub old_listed : (t : Text) → mem_text t old ≡ true → known t ≡ true
  pub apart : (t : Text) → mem_text t news ≡ true → mem_text t old ≡ false

-- One more text that was not known.
pub append-Fresh :
    (old news : List Text) (known known' : Text → Bool) (u : Text)
    → known u ≡ false
    → ((t : Text) → known' t ≡ known t || text_eq u t)
    → Fresh old news known
    → Fresh old (news ++ (u ∷ [])) known'
append-Fresh old news known known' u new more f = record {
  distinct = append-Distinct u news (unlisted news f.listed) f.distinct;
  listed = λ t h. elim (Bool-cases (text_eq u t)) [
    | inl e ↦ ground (arith, more t, e)
    | inr e ↦
        let before : mem_text t news ≡ true = ground (arith, mem_append t u news, h, e) in
        ground (arith, more t, f.listed t before)
  ];
  old_listed = λ t h. ground (arith, more t, f.old_listed t h);
  apart = λ t h. elim (Bool-cases (text_eq u t)) [
    | inl e ↦ sym (text_eq-mem_text u t old e) ∙ unlisted old f.old_listed
    | inr e ↦
        let before : mem_text t news ≡ true = ground (arith, mem_append t u news, h, e) in
        f.apart t before
  ];
}
  where
    unlisted :
        (l : List Text) → ((t : Text) → mem_text t l ≡ true → known t ≡ true) → mem_text u l ≡ false
    unlisted l h = elim (Bool-cases (mem_text u l)) [
      | inl e ↦ let both = h u e in ground (arith, both, new)
      | inr e ↦ e
    ]

-- At the start nothing is new.
pub nil-Fresh :
    (old : List Text) (known : Text → Bool)
    → ((t : Text) → mem_text t old ≡ true → known t ≡ true)
    → Fresh old [] known
nil-Fresh old known h = record {
  distinct = tt;
  listed = λ t e. cc;
  old_listed = h;
  apart = λ t e. cc;
}
