-- ===== src/Js/Value.antt =====
-- JSON values as JavaScript sees them, and the coercions that the code applies to them.
-- Numbers are whole; `none` of `parse_int` is NaN.
use hyrovi_proxy_manager.Prelude.{
  ℕ, zero, suc, ◌+◌, ◌-◌, ◌*◌, ◌/◌, ◌%◌, Bool, true, false, List, [], ◌∷◌, Option, none, some, ltb,
  ◌==◌, if◌then◌else◌, take,
}
use hyrovi_proxy_manager.Prelude.Int.{ℤ, pos, negsuc, neg}
use hyrovi_proxy_manager.Js.Text.{
  Text, codes, text_eq, trim, trim_start, is_digit, is_empty, join, is_space, lower_unit,
  upper_unit, to_lower, to_upper, starts_with, ends_with, includes, includes_unit, dedupe,
}

mutual
  pub data Value : Type 0 where
    undefined null : Value
    bool : Bool → Value
    num : ℤ → Value
    str : Text → Value
    obj : Fields → Value
    arr : Items → Value

  -- The properties of an object, in the order of the text.
  pub data Fields : Type 0 where
    end : Fields
    field : Text → Value → Fields → Fields

  pub data Items : Type 0 where
    nil : Items
    cons : Value → Items → Items

abbrev pub items : Items → List Value
items nil = []
items (cons v vs) = v ∷ items vs

-- An array of texts.
unfoldable pub text_items : List Text → Items
text_items [] = nil
text_items (t ∷ ts) = cons (str t) (text_items ts)

-- The decimal digits of a number; `n` itself is fuel enough, since each round divides by ten.
decimal_from : ℕ → ℕ → Text → Text
decimal_from zero n acc = acc
decimal_from (suc f) n acc =
    let more = decimal_from f (n / 10) ((b'0' + n % 10) ∷ acc) in
    if ltb n 10 then (b'0' + n) ∷ acc else more

unfoldable pub decimal : ℕ → Text
unfolding decimal_from
decimal n = decimal_from (suc n) n []

unfoldable pub decimal_ℤ : ℤ → Text
unfolding decimal
decimal_ℤ (pos n) = decimal n
decimal_ℤ (negsuc n) = b'-' ∷ decimal (suc n)

-- String(v); an array joins its entries with commas, and null or undefined entries are empty.
unfoldable mutual
  unfolding decimal_ℤ join

  pub to_text : Value → Text
  to_text undefined = codes "undefined"
  to_text null = codes "null"
  to_text (bool true) = codes "true"
  to_text (bool false) = codes "false"
  to_text (num z) = decimal_ℤ z
  to_text (str s) = s
  to_text (arr vs) = join (codes ",") (entry_texts vs)
  to_text (obj fs) = codes "[object Object]"

  pub entry_texts : Items → List Text
  entry_texts nil = []
  entry_texts (cons undefined vs) = [] ∷ entry_texts vs
  entry_texts (cons null vs) = [] ∷ entry_texts vs
  entry_texts (cons (bool b) vs) = to_text (bool b) ∷ entry_texts vs
  entry_texts (cons (num z) vs) = to_text (num z) ∷ entry_texts vs
  entry_texts (cons (str s) vs) = s ∷ entry_texts vs
  entry_texts (cons (arr ws) vs) = to_text (arr ws) ∷ entry_texts vs
  entry_texts (cons (obj fs) vs) = codes "[object Object]" ∷ entry_texts vs

-- Boolean(v)
abbrev pub truthy : Value → Bool
truthy undefined = false
truthy null = false
truthy (bool b) = b
truthy (num (pos zero)) = false
truthy (num _) = true
truthy (str []) = false
truthy (str _) = true
truthy (arr _) = true
truthy (obj _) = true

abbrev pub is_nullish : Value → Bool
is_nullish undefined = true
is_nullish null = true
is_nullish _ = false

-- a ?? b
abbrev pub or_else : Value → Value → Value
or_else v w = if is_nullish v then w else v

-- a || b
abbrev pub or_value : Value → Value → Value
or_value v w = if truthy v then v else w

-- An object that is neither null nor an array.
abbrev pub is_object : Value → Bool
is_object (obj _) = true
is_object _ = false

abbrev pub lookup_field : Text → Fields → Value
lookup_field k end = undefined
lookup_field k (field j v fs) = if text_eq j k then v else lookup_field k fs

-- v.k and v?.k
abbrev pub prop : Text → Value → Value
prop k (obj fs) = lookup_field k fs
prop k _ = undefined

-- String(v || "").trim()
unfoldable pub trimmed : Value → Text
unfolding to_text trim
trimmed v = trim (to_text (or_value v (str [])))

-- The digits at the front, as a number: none when there is no digit.
unfoldable pub digits_value : Option ℕ → Text → Option ℕ
digits_value acc [] = acc
digits_value none (c ∷ s) = if is_digit c then digits_value (some (c - b'0')) s else none
digits_value (some n) (c ∷ s) =
    if is_digit c then digits_value (some (n * 10 + (c - b'0'))) s else some n

abbrev pos_of : Option ℕ → Option ℤ
pos_of none = none
pos_of (some n) = some (pos n)

abbrev neg_of : Option ℕ → Option ℤ
neg_of none = none
neg_of (some n) = some (neg n)

unfoldable pub parse_signed : Text → Option ℤ
unfolding digits_value
parse_signed [] = none
parse_signed (c ∷ s) =
    if c == b'-'
    then neg_of (digits_value none s)
    else if c == b'+'
    then pos_of (digits_value none s)
    else pos_of (digits_value none (c ∷ s))

-- Number.parseInt(v, 10); a whole number is printed and read back, so it stays itself.
unfoldable pub parse_int : Value → Option ℤ
unfolding parse_signed to_text trim_start
parse_int (num z) = some z
parse_int v = parse_signed (trim_start (to_text v))

-- `boundedString` of the security modules.
unfoldable pub bounded_string : Value → ℕ → Option Text
unfolding to_text trim
bounded_string v n =
    if is_nullish v
    then none
    else let text = trim (to_text v) in if is_empty text then none else some (take n text)

-- All that a run computes through to coerce and compare values.
unfoldable pub texts : Unit {0}
unfolding text_eq is_space trim_start trim lower_unit upper_unit to_lower to_upper starts_with
    ends_with includes includes_unit dedupe join decimal decimal_ℤ to_text trimmed digits_value
    parse_signed parse_int bounded_string
texts = tt
