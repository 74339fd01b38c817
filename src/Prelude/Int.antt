-- ===== src/Prelude/Int.antt =====
-- Whole numbers with a sign, for the numbers that a request body carries.
use Prim.Native.Nat.{ℕ, zero, suc, ◌≤◌}
use native.Mathlib.Omega.{arith}
use hyrovi_proxy_manager.Prelude.Tests.{ltb, if◌then◌else◌}

-- `negsuc n` is -(n + 1).
pub data ℤ : Type 0 where
  pos : ℕ → ℤ
  negsuc : ℕ → ℤ

abbrev pub neg : ℕ → ℤ
neg zero = pos 0
neg (suc n) = negsuc n

-- Math.max(lo, Math.min(hi, z)) for bounds that are not negative.
abbrev pub clamp : ℤ → ℕ → ℕ → ℕ
clamp (pos n) lo hi = if ltb n lo then lo else if ltb hi n then hi else n
clamp (negsuc n) lo hi = lo

pub clamp_bounds : (z : ℤ) (lo hi : ℕ) → lo ≤ hi → (lo ≤ clamp z lo hi) × (clamp z lo hi ≤ hi)
clamp_bounds (pos n) lo hi h = ground arith
clamp_bounds (negsuc n) lo hi h = ground arith
