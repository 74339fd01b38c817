-- ===== src/Challenge/Proof.antt =====
-- The proof of work of backend/internal/security_challenge.js: `leadingZeroBits` of the server, and
-- `hasLeadingZeroBits` of the page that it sends to the browser.
use Prim.Native.Nat.{bit_and, ◌^◌}
use hyrovi_proxy_manager.Prelude.{
  ℕ, zero, suc, ◌+◌, ◌-◌, ◌/◌, ◌≤◌, ◌<◌, ◌≡◌, refl, Bool, true, false, ◌&&◌, ◌||◌, inl, inr, List,
  [], ◌∷◌, Option, none, some, ◌≢◌, arith, leb, ltb, ◌==◌, if◌then◌else◌, Bool-cases, All,
}

-- for (let mask = m; mask > 0 && (byte & mask) === 0; mask >>= 1) bits += 1
-- A mask below 2 ^ f is 0 after f rounds.
count_mask : ℕ → ℕ → ℕ → ℕ
count_mask zero byte mask = 0
count_mask (suc f) byte mask =
    let more = suc (count_mask f byte (mask / 2)) in
    if ltb 0 mask && bit_and byte mask == 0 then more else 0

unfoldable pub byte_zeros : ℕ → ℕ
unfolding count_mask
byte_zeros byte = count_mask 8 byte 0x80

unfoldable pub leading_zero_bits : List ℕ → ℕ
leading_zero_bits [] = 0
leading_zero_bits (byte ∷ rest) = if byte == 0 then 8 + leading_zero_bits rest else byte_zeros byte

unfoldable pub has_leading_zero_bits : List ℕ → ℕ → Bool
has_leading_zero_bits [] remaining = remaining == 0
has_leading_zero_bits (byte ∷ rest) remaining =
    let later = has_leading_zero_bits rest (remaining - 8) in
    if remaining == 0
    then true
    else if leb 8 remaining
    then (if byte == 0 then later else false)
    else byte / 2 ^ (8 - remaining) == 0

-- `solveHyroviChallenge` of clients/hyrovi-sec-challenge-node.mjs, with no abort signal: the first of
-- the counters from `counter` on, `left` of them, whose digest passes.
unfoldable pub solve_from : (ℕ → List ℕ) → ℕ → ℕ → ℕ → Option ℕ
unfolding leading_zero_bits
solve_from digest difficulty zero counter = none
solve_from digest difficulty (suc left) counter =
    let later = solve_from digest difficulty left (suc counter) in
    if leb difficulty (leading_zero_bits (digest counter)) then some counter else later

pub solve_from_sound :
    (digest : ℕ → List ℕ) (difficulty left counter : ℕ) {n : ℕ}
    → solve_from digest difficulty left counter ≡ some n
    → (difficulty ≤ leading_zero_bits (digest n)) × (counter ≤ n) × (n < counter + left)
unfolding solve_from
solve_from_sound digest difficulty zero counter h = ground arith
solve_from_sound digest difficulty (suc left) counter {n} h =
    elim (Bool-cases (leb difficulty (leading_zero_bits (digest counter)))) [
      | inl e ↦ ground arith
      | inr e ↦
          let ih = solve_from_sound digest difficulty left (suc counter) {n = n} (ground arith) in
          ground (arith, ih)
    ]

-- No counter that passes is skipped: a search that fails has seen none in its range.
pub solve_from_complete :
    (digest : ℕ → List ℕ) (difficulty left counter n : ℕ)
    → solve_from digest difficulty left counter ≡ none
    → counter ≤ n
    → n < counter + left
    → leading_zero_bits (digest n) < difficulty
unfolding solve_from
solve_from_complete digest difficulty zero counter n h lo hi = omega arith
solve_from_complete digest difficulty (suc left) counter n h lo hi =
    elim (Bool-cases (leb difficulty (leading_zero_bits (digest counter)))) [
      | inl e ↦ ground arith
      | inr e ↦ elim (Bool-cases (counter == n)) [
        | inl same ↦ ground arith
        | inr other ↦
            solve_from_complete digest difficulty left (suc counter) n (ground arith) (ground arith)
              (omega arith)
      ]
    ]

module _ (test : ℕ → Bool) where
  passes_upto : ℕ → Bool
  passes_upto zero = true
  passes_upto (suc top) = passes_upto top && test top

  passes_upto_elim : (top k : ℕ) → k < top → passes_upto top ≡ true → test k ≡ true
  unfolding passes_upto
  passes_upto_elim zero k low all_pass = absurd (omega arith)
  passes_upto_elim (suc top) k low all_pass = ground (arith, passes_upto_elim top k)

-- Both tests on one byte that is not 0, for `r` bits.
agree : ℕ → ℕ → Bool
unfolding byte_zeros
agree r byte =
    byte == 0
    || (if byte / 2 ^ (8 - r) == 0 then leb r (byte_zeros byte) else ltb (byte_zeros byte) r)

agree_table : passes_upto (λ r. r == 0 || passes_upto (agree r) 256) 8 ≡ true
unfolding passes_upto agree
agree_table = refl

zeros_table : passes_upto (λ byte. byte == 0 || ltb (byte_zeros byte) 8) 256 ≡ true
unfolding passes_upto byte_zeros
zeros_table = refl

byte_zeros-lt-8 : (byte : ℕ) → byte < 256 → byte ≢ 0 → byte_zeros byte < 8
byte_zeros-lt-8 byte h ne =
    ground (arith, passes_upto_elim (λ b. b == 0 || ltb (byte_zeros b) 8) 256 byte h zeros_table)

byte_agrees : (r byte : ℕ) → r < 8 → r ≢ 0 → byte < 256 → agree r byte ≡ true
byte_agrees r byte hr ne hb =
    let row = passes_upto_elim (λ k. k == 0 || passes_upto (agree k) 256) 8 r hr agree_table in
    passes_upto_elim (agree r) 256 byte hb (ground (arith, row))

zero-div : (n : ℕ) → 0 / n ≡ 0
zero-div n = omega arith

byte_test :
    (r byte : ℕ)
    → r < 8
    → r ≢ 0
    → byte < 256
    → byte ≢ 0
    → (byte / 2 ^ (8 - r) == 0) ≡ leb r (byte_zeros byte)
unfolding agree
byte_test r byte hr ne hb nb = ground (arith, byte_agrees r byte hr ne hb)

-- The byte test of the page, where bits remain to be seen.
abbrev pub AreBytes : List ℕ → Type 0
AreBytes = All (λ b. b < 256)

-- The page and the server agree on every digest: the page accepts exactly the digests whose count
-- of leading zero bits is at least the difficulty.
pub has_leading_zero_bits-leading_zero_bits :
    (bytes : List ℕ) (difficulty : ℕ)
    → AreBytes bytes
    → has_leading_zero_bits bytes difficulty ≡ leb difficulty (leading_zero_bits bytes)
unfolding has_leading_zero_bits leading_zero_bits
has_leading_zero_bits-leading_zero_bits [] d h = ground arith
has_leading_zero_bits-leading_zero_bits (b ∷ rest) d (hb, h) =
    let ih = has_leading_zero_bits-leading_zero_bits rest (d - 8) h in
    elim (Bool-cases (d == 0)) [
      | inl e ↦ ground arith
      | inr e ↦ elim (Bool-cases (leb 8 d)) [
        | inl big ↦ ground (arith, ih, byte_zeros-lt-8 b hb)
        | inr small ↦ elim (Bool-cases (b == 0)) [
          | inl zero_byte ↦ ground (arith, zero-div (2 ^ (8 - d)))
          | inr other ↦
              let test = byte_test d b (ground arith) (ground arith) hb (ground arith) in
              ground (arith, test)
        ]
      ]
    ]
