-- ===== src/Security/Targets.antt =====
-- Addresses and networks of backend/internal/security.js: which texts name one, which an operator
-- trusts, and which are private.
use hyrovi_proxy_manager.Prelude.{
  ℕ, Bool, true, false, not, ◌&&◌, ◌||◌, Option, none, some, List, [], ◌∷◌, ◌++◌, any, all, take,
  leb, ◌==◌, if◌then◌else◌,
}
use hyrovi_proxy_manager.Js.Text.{
  Text, codes, text_eq, is_empty, is_digit, dedupe, starts_with, to_lower,
}
use hyrovi_proxy_manager.Js.Value.{Value, arr, items, decimal, digits_value, trimmed}

-- Node's `net`: `isIP` (4, 6, or 0 for no address), the decimal parts of an IPv4 address, and the
-- check of an address against one rule of a BlockList, which has a prefix for a subnet.
pub record Net : Type 0 where
  pub is_ip : Text → ℕ
  pub parts : Text → List ℕ
  pub in_rule : Text → Option ℕ → Text → Bool

-- .split("/")
unfoldable pub split_slashes : Text → List Text
split_slashes [] = [] ∷ []
split_slashes (c ∷ s) =
    let rest = split_slashes s in if c == b'/' then [] ∷ rest else put_first c rest
  where
    put_first : ℕ → List Text → List Text
    put_first c [] = (c ∷ []) ∷ []
    put_first c (t ∷ ts) = (c ∷ t) ∷ ts

abbrev pub number_or_zero : Option ℕ → ℕ
number_or_zero none = 0
number_or_zero (some n) = n

abbrev pub max_prefix : ℕ → ℕ
max_prefix version = if version == 4 then 32 else 128

-- What a normalised source is made of.
pub record Target : Type 0 where
  pub address : Text
  pub bits : Option ℕ

unfoldable pub target_text : Target → Text
target_text t = elim t.bits [ none ↦ t.address | some n ↦ t.address ++ codes "/" ++ decimal n ]

module _ (net : Net) where
  unfoldable pub parse_prefix : Text → Text → Option Target
  unfolding digits_value
  parse_prefix address bits =
      let n = number_or_zero (digits_value none bits) in
      if not (is_empty bits) && all is_digit bits && leb n (max_prefix (net.is_ip address))
      then some (record { address = address; bits = some n })
      else none

  unfoldable pub parse_parts : List Text → Option Target
  parse_parts [] = none
  parse_parts (address ∷ []) =
      if net.is_ip address == 0 then none else some (record { address = address; bits = none })
  parse_parts (address ∷ bits ∷ []) =
      if net.is_ip address == 0 then none else parse_prefix address bits
  parse_parts (a ∷ b ∷ c ∷ rest) = none

  unfoldable pub parse_target : Text → Option Target
  parse_target entry = if is_empty entry then none else parse_parts (split_slashes entry)

  -- `normalizeTrustedSource`, which is `normalizeResponseTarget` too.
  unfoldable pub normalize_trusted_source : Value → Option Text
  unfolding trimmed
  normalize_trusted_source v = elim (parse_target (trimmed v)) [
    | none ↦ none
    | some t ↦ some (target_text t)
  ]

  pub present_sources : List Value → List Text
  present_sources [] = []
  present_sources (v ∷ vs) =
      let rest = present_sources vs in
      elim (normalize_trusted_source v) [ none ↦ rest | some t ↦ t ∷ rest ]

  pub normalize_trusted_sources : Value → List Text
  unfolding dedupe
  normalize_trusted_sources (arr vs) = take 200 (dedupe (present_sources (items vs)))
  normalize_trusted_sources _ = []

  -- A rule of the same version that covers the address.
  pub covers : Text → Option Target → Bool
  covers ip none = false
  covers ip (some t) = (net.is_ip t.address == net.is_ip ip) && net.in_rule t.address t.bits ip

  pub is_trusted_source : Text → Value → Bool
  is_trusted_source ip sources =
      not (net.is_ip ip == 0)
      && any (λ s. covers ip (parse_target s)) (normalize_trusted_sources sources)

  pub response_target_contains_ip : Value → Text → Bool
  response_target_contains_ip target ip =
      not (net.is_ip ip == 0) && elim (normalize_trusted_source target) [
        | none ↦ false
        | some s ↦ covers ip (parse_target s)
      ]

  -- The private ranges of the first two parts of an IPv4 address.
  pub is_private_ipv4 : List ℕ → Bool
  is_private_ipv4 (a ∷ b ∷ rest) =
      (a == 10)
      || (a == 127)
      || ((a == 169) && (b == 254))
      || ((a == 172) && leb 16 b && leb b 31)
      || ((a == 192) && (b == 168))
  is_private_ipv4 _ = false

  -- An address that is none counts as private.
  pub is_private_or_loopback : Text → Bool
  unfolding to_lower starts_with text_eq
  is_private_or_loopback ip =
      if net.is_ip ip == 4
      then is_private_ipv4 (net.parts ip)
      else if net.is_ip ip == 6
      then (let low = to_lower ip in
          text_eq low (codes "::1")
          || starts_with low (codes "fe8")
          || starts_with low (codes "fe9")
          || starts_with low (codes "fea")
          || starts_with low (codes "feb")
          || starts_with low (codes "fc")
          || starts_with low (codes "fd"))
      else true
