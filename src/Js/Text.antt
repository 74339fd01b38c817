-- ===== src/Js/Text.antt =====
-- Texts as lists of UTF-16 code units, and the methods of String.prototype that the code calls.
-- Letter case is that of ASCII: `toLowerCase` and `toUpperCase` leave all other units as they are.
use Prim.Native.Char.{code}
use Prim.Native.String.{String}
use mathlib.Core.List.{reverse}
use hyrovi_proxy_manager.Prelude.{
  ℕ, ◌+◌, ◌-◌, ◌≡◌, refl, ◌↔◌, Bool, true, false, ◌&&◌, ◌||◌, List, [], ◌∷◌, ◌++◌, arith, leb, ◌==◌,
  if◌then◌else◌, ==_iff, &&-true,
}

abbrev pub Text : Type 0
Text = List ℕ

-- The units of a literal.
abbrev pub codes : String → Text
codes String.[] = []
codes (String.◌∷◌ c s) = code c ∷ codes s

-- a === b
unfoldable pub text_eq : Text → Text → Bool
text_eq [] [] = true
text_eq [] (d ∷ t) = false
text_eq (c ∷ s) [] = false
text_eq (c ∷ s) (d ∷ t) = c == d && text_eq s t

pub text_eq_refl : (s : Text) → text_eq s s ≡ true
unfolding text_eq
text_eq_refl [] = refl
text_eq_refl (c ∷ s) = ground (arith, text_eq_refl s)

pub text_eq→eq : (s t : Text) → text_eq s t ≡ true → s ≡ t
unfolding text_eq
text_eq→eq [] [] h = refl
text_eq→eq [] (d ∷ t) h = ground arith
text_eq→eq (c ∷ s) [] h = ground arith
text_eq→eq (c ∷ s) (d ∷ t) h =
    let (e, r) = &&-true (c == d) (text_eq s t) h in
    let hd : c ≡ d = (==_iff c d).0 e in let tl = text_eq→eq s t r in ground (arith, hd, tl)

pub text_eq_iff : (s t : Text) → (text_eq s t ≡ true) ↔ (s ≡ t)
text_eq_iff s t = (text_eq→eq s t, λ e. rw e (text_eq_refl t))

pub text_eq_sym : (s t : Text) → text_eq s t ≡ false → text_eq t s ≡ false
unfolding text_eq
text_eq_sym [] [] h = h
text_eq_sym [] (d ∷ t) h = refl
text_eq_sym (c ∷ s) [] h = refl
text_eq_sym (c ∷ s) (d ∷ t) h = ground (arith, text_eq_sym s t)

-- WhiteSpace and LineTerminator of ECMAScript.
unfoldable pub is_space : ℕ → Bool
is_space c =
    (leb 9 c && leb c 13)
    || c == 32
    || c == 160
    || c == 0x1680
    || (leb 0x2000 c && leb c 0x200a)
    || c == 0x2028
    || c == 0x2029
    || c == 0x202f
    || c == 0x205f
    || c == 0x3000
    || c == 0xfeff

unfoldable pub trim_start : Text → Text
unfolding is_space
trim_start [] = []
trim_start (c ∷ s) = if is_space c then trim_start s else c ∷ s

unfoldable pub trim : Text → Text
unfolding trim_start
trim s = reverse (trim_start (reverse (trim_start s)))

abbrev pub is_upper_unit : ℕ → Bool
is_upper_unit c = leb b'A' c && leb c b'Z'

abbrev pub is_lower_unit : ℕ → Bool
is_lower_unit c = leb b'a' c && leb c b'z'

abbrev pub is_digit : ℕ → Bool
is_digit c = leb b'0' c && leb c b'9'

unfoldable pub lower_unit : ℕ → ℕ
lower_unit c = if is_upper_unit c then c + 32 else c

unfoldable pub upper_unit : ℕ → ℕ
upper_unit c = if is_lower_unit c then c - 32 else c

unfoldable pub to_lower : Text → Text
unfolding lower_unit
to_lower [] = []
to_lower (c ∷ s) = lower_unit c ∷ to_lower s

unfoldable pub to_upper : Text → Text
unfolding upper_unit
to_upper [] = []
to_upper (c ∷ s) = upper_unit c ∷ to_upper s

unfoldable pub starts_with : Text → Text → Bool
starts_with s [] = true
starts_with [] (d ∷ p) = false
starts_with (c ∷ s) (d ∷ p) = c == d && starts_with s p

unfoldable pub ends_with : Text → Text → Bool
unfolding starts_with
ends_with s p = starts_with (reverse s) (reverse p)

-- s.includes(p)
unfoldable pub includes : Text → Text → Bool
unfolding starts_with
includes [] p = starts_with [] p
includes (c ∷ s) p = starts_with (c ∷ s) p || includes s p

-- s.includes(c) for one unit
unfoldable pub includes_unit : Text → ℕ → Bool
includes_unit [] d = false
includes_unit (c ∷ s) d = c == d || includes_unit s d

abbrev pub mem_text : Text → List Text → Bool
mem_text t [] = false
mem_text t (x ∷ xs) = text_eq x t || mem_text t xs

-- [...new Set(xs)], in the order of first occurrence
dedupe_from : List Text → List Text → List Text
dedupe_from seen [] = []
dedupe_from seen (x ∷ xs) =
    let rest = dedupe_from seen xs in
    let next = dedupe_from (x ∷ seen) xs in if mem_text x seen then rest else x ∷ next

unfoldable pub dedupe : List Text → List Text
unfolding dedupe_from text_eq
dedupe xs = dedupe_from [] xs

-- xs.join(sep)
unfoldable pub join : Text → List Text → Text
join sep [] = []
join sep (x ∷ []) = x
join sep (x ∷ y ∷ ys) = x ++ (sep ++ join sep (y ∷ ys))

abbrev pub is_empty : Text → Bool
is_empty [] = true
is_empty (_ ∷ _) = false
