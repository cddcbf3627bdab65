-- ===== src/Base/Bits.antt =====
-- `a | b` of numbers whose binary digits do not meet.
use Prim.Native.Nat.{
  ℕ, zero, suc, ◌+◌, ◌*◌, ◌/◌, ◌%◌, ◌^◌, ◌≤◌, ◌<◌, max, digits, bit_or, bit_or-bitwise,
}
use mathlib.Core.Path.{◌≡◌, refl, ap, ◌∙◌}
use native.Mathlib.Nat.{pow-suc, mul_assoc}
use native.Mathlib.Omega.{arith}

-- The native operation, with a count of digits that is large enough.
abbrev or_digits : ℕ → ℕ → ℕ → ℕ
or_digits n a b = digits (λ b. b) max n a b

or_digits-zero : (n b : ℕ) → or_digits n 0 b ≡ b
or_digits-zero zero b = refl
or_digits-zero (suc n) b = refl

-- One digit more, where at most one of the two last digits is set.
module _ (n a b : ℕ) where
  last_digit :
      or_digits n (suc a / 2) (b / 2) ≡ suc a / 2 + b / 2
      → suc a % 2 + b % 2 < 2
      → or_digits (suc n) (suc a) b ≡ suc a + b
  last_digit e h = rw e (ground arith)

or_digits-add : (n k a b q : ℕ) → a ≤ n → a ≡ q * 2 ^ k → b < 2 ^ k → or_digits n a b ≡ a + b
or_digits-add n k zero b q le e lt = omega (arith, or_digits-zero n b)
or_digits-add zero k (suc a) b q le e lt = absurd (omega arith)
or_digits-add (suc n) zero (suc a) b q le e lt =
    last_digit n a b
      (or_digits-add n zero (suc a / 2) (b / 2) (suc a / 2) (omega arith) (omega arith)
        (omega arith))
      (omega arith)
or_digits-add (suc n) (suc k) (suc a) b q le e lt =
    let twice : suc a ≡ q * 2 ^ k * 2 =
      e ∙ ap (λ (t : ℕ). q * t) (pow-suc 2 k) ∙ omega (arith, mul_assoc q (2 ^ k) 2) in
    let below : b < 2 ^ k * 2 = omega (arith, lt, pow-suc 2 k) in
    last_digit n a b
      (or_digits-add n k (suc a / 2) (b / 2) q (omega arith) (omega arith) (omega arith))
      (omega arith)

-- `(q << k) | b`
pub bit_or-add : (k q b : ℕ) → b < 2 ^ k → bit_or (q * 2 ^ k) b ≡ q * 2 ^ k + b
bit_or-add k q b lt =
    bit_or-bitwise (q * 2 ^ k) b ∙ or_digits-add (q * 2 ^ k) k (q * 2 ^ k) b q (omega arith) refl lt
