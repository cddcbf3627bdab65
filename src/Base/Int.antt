-- ===== src/Base/Int.antt =====
-- Integers over the native numbers, and their two's complement in 64 bits.
use Prim.Native.Nat.{ℕ, ◌-◌, ◌^◌, ◌<◌}
use mathlib.Core.Path.{◌≡◌}
use mathlib.Core.Logic.{inl, inr}
use native.Mathlib.Omega.{arith}
use ln_gossip_sim.Base.Tests.{ltb, ltb→lt, ltb→le, lt→ltb, le→ltb, if◌then◌else◌, Bool-cases}

-- `negsuc n` is -(n + 1).
pub data ℤ : Type 0 where
  pos : ℕ → ℤ
  negsuc : ℕ → ℤ

-- The value is one of an `i64`.
abbrev pub IsI64 : ℤ → Type 0
IsI64 (pos n) = n < 2 ^ 63
IsI64 (negsuc n) = n < 2 ^ 63

-- `value as u64`, and `bits as i64`.
unfoldable pub to_bits : ℤ → ℕ
to_bits (pos n) = n
to_bits (negsuc n) = 2 ^ 64 - 1 - n

unfoldable pub from_bits : ℕ → ℤ
from_bits u = if ltb u (2 ^ 63) then pos u else negsuc (2 ^ 64 - 1 - u)

pub to_bits-lt : (v : ℤ) → IsI64 v → to_bits v < 2 ^ 64
unfolding to_bits
to_bits-lt (pos n) h = omega arith
to_bits-lt (negsuc n) h = omega arith

pub from_bits-to_bits : (v : ℤ) → IsI64 v → from_bits (to_bits v) ≡ v
unfolding to_bits from_bits
from_bits-to_bits (pos n) h = rw (lt→ltb n (2 ^ 63) h)
from_bits-to_bits (negsuc n) h =
    let back : 2 ^ 64 - 1 - (2 ^ 64 - 1 - n) ≡ n = omega arith in
    rw (le→ltb (2 ^ 64 - 1 - n) (2 ^ 63) (omega arith), back)

pub from_bits-IsI64 : (u : ℕ) → u < 2 ^ 64 → IsI64 (from_bits u)
unfolding from_bits
from_bits-IsI64 u h = elim (Bool-cases (ltb u (2 ^ 63))) [
  | inl low ↦ rw low (ltb→lt u (2 ^ 63) low)
  | inr high ↦ rw high (omega (arith, ltb→le u (2 ^ 63) high))
]

pub to_bits-from_bits : (u : ℕ) → u < 2 ^ 64 → to_bits (from_bits u) ≡ u
unfolding to_bits from_bits
to_bits-from_bits u h = elim (Bool-cases (ltb u (2 ^ 63))) [
  | inl low ↦ rw low
  | inr high ↦ rw high (omega (arith, ltb→le u (2 ^ 63) high))
]
