-- ===== src/Base/Words.antt =====
-- Unsigned integers as big-endian byte strings: the standard library's `to_be_bytes` and
-- `from_be_bytes` for an integer of `n` bytes.
use Prim.Native.Nat.{ℕ, zero, suc, ◌+◌, ◌*◌, ◌/◌, ◌%◌, ◌^◌, ◌≤◌, ◌<◌}
use mathlib.Core.Path.{◌≡◌, refl}
use mathlib.Core.List.{[], ◌∷◌, ◌++◌, append_assoc, append-nil}
use Prim.Native.Nat.add
use native.Mathlib.Nat.{pow-suc, add-zero}
use native.Mathlib.Omega.{arith}
use ln_gossip_sim.Base.Lists.{length, length-append, All-append, Bytes, AllBytes}

unfoldable pub to_be_bytes : ℕ → ℕ → Bytes
to_be_bytes zero v = []
to_be_bytes (suc n) v = to_be_bytes n (v / 256) ++ (v % 256) ∷ []

unfoldable pub to_le_bytes : ℕ → ℕ → Bytes
to_le_bytes zero v = []
to_le_bytes (suc n) v = (v % 256) ∷ to_le_bytes n (v / 256)

unfoldable pub from_be_bytes_onto : ℕ → Bytes → ℕ
from_be_bytes_onto acc [] = acc
from_be_bytes_onto acc (b ∷ bs) = from_be_bytes_onto (acc * 256 + b) bs

unfoldable pub from_be_bytes : Bytes → ℕ
unfolding from_be_bytes_onto
from_be_bytes bs = from_be_bytes_onto 0 bs

pub length-to_be_bytes : (n v : ℕ) → length (to_be_bytes n v) ≡ n
unfolding to_be_bytes
length-to_be_bytes zero v = refl
length-to_be_bytes (suc n) v = omega (
  arith,
  length-append (to_be_bytes n (v / 256)) ((v % 256) ∷ []),
  length-to_be_bytes n (v / 256),
)

pub to_be_bytes-AllBytes : (n v : ℕ) → AllBytes (to_be_bytes n v)
unfolding to_be_bytes
to_be_bytes-AllBytes zero v = tt
to_be_bytes-AllBytes (suc n) v =
    All-append _ (to_be_bytes n (v / 256)) _ (to_be_bytes-AllBytes n (v / 256)) (omega arith, tt)

from_be_bytes_onto-append :
    (acc : ℕ) (xs : Bytes) (b : ℕ)
    → from_be_bytes_onto acc (xs ++ b ∷ []) ≡ from_be_bytes_onto acc xs * 256 + b
unfolding from_be_bytes_onto
from_be_bytes_onto-append acc [] b = refl
from_be_bytes_onto-append acc (x ∷ xs) b = from_be_bytes_onto-append (acc * 256 + x) xs b

below_div : (n v : ℕ) → v < 256 ^ suc n → v / 256 < 256 ^ n
below_div n v h = omega (arith, pow-suc 256 n)

-- An integer that fits its bytes is read back.
pub from_be_bytes-to_be_bytes : (n v : ℕ) → v < 256 ^ n → from_be_bytes (to_be_bytes n v) ≡ v
unfolding from_be_bytes to_be_bytes
from_be_bytes-to_be_bytes zero v h = omega arith
from_be_bytes-to_be_bytes (suc n) v h = omega (
  arith,
  from_be_bytes_onto-append 0 (to_be_bytes n (v / 256)) (v % 256),
  from_be_bytes-to_be_bytes n (v / 256) (below_div n v h),
)

to_be_bytes-onto :
    (k acc : ℕ) (bs : Bytes)
    → AllBytes bs
    → to_be_bytes (length bs + k) (from_be_bytes_onto acc bs) ≡ to_be_bytes k acc ++ bs
unfolding from_be_bytes_onto to_be_bytes
to_be_bytes-onto k acc [] h = rw (add.zero k, append-nil)
to_be_bytes-onto k acc (b ∷ bs) (hb, hs) =
    let last : (acc * 256 + b) / 256 ≡ acc = omega arith in
    let low : (acc * 256 + b) % 256 ≡ b = omega arith in
    let whole = to_be_bytes-onto (suc k) (acc * 256 + b) bs hs in
    let size : suc (length bs) + k ≡ length bs + suc k = omega arith in
    rw (size, whole, last, low) (append_assoc (to_be_bytes k acc) (b ∷ []) bs)

-- A byte string is written back.
pub to_be_bytes-from_be_bytes :
    (n : ℕ) (bs : Bytes) → AllBytes bs → length bs ≡ n → to_be_bytes n (from_be_bytes bs) ≡ bs
unfolding from_be_bytes to_be_bytes
to_be_bytes-from_be_bytes n bs h e = rw (← e, ← add-zero (length bs)) (to_be_bytes-onto 0 0 bs h)

from_be_bytes_onto-lt :
    (acc : ℕ) (bs : Bytes) → AllBytes bs → from_be_bytes_onto acc bs < (acc + 1) * 256 ^ length bs
unfolding from_be_bytes_onto
from_be_bytes_onto-lt acc [] h = omega arith
from_be_bytes_onto-lt acc (b ∷ bs) (hb, hs) =
    let rest = from_be_bytes_onto-lt (acc * 256 + b) bs hs in
    let room : (acc * 256 + b + 1) * 256 ^ length bs ≤ (acc + 1) * 256 * 256 ^ length bs =
      grind arith in
    rw (pow-suc 256 (length bs)) (omega (arith, rest, room))

pub from_be_bytes-lt :
    (n : ℕ) (bs : Bytes) → AllBytes bs → length bs ≡ n → from_be_bytes bs < 256 ^ n
unfolding from_be_bytes
from_be_bytes-lt n bs h e = rw (← e) (omega (arith, from_be_bytes_onto-lt 0 bs h))
