-- ===== src/Base/Decimal.antt =====
-- Decimal numbers: what the standard library's `Display` and `FromStr` of `u64` do.
use Prim.Native.Nat.{ℕ, zero, suc, ◌+◌, ◌-◌, ◌*◌, ◌/◌, ◌%◌, ◌^◌, ◌<◌}
use mathlib.Core.Path.{◌≡◌, refl, sym, ap, ◌∙◌}
use mathlib.Core.Logic.{◌≢◌, inl, inr}
use mathlib.Core.Bool.{Bool, true, false, ◌&&◌}
use mathlib.Core.List.{[], ◌∷◌, ◌++◌, append-nil, append_assoc}
use mathlib.Core.Option.{Option, none, some}
use native.Mathlib.Nat.{pow-suc}
use native.Mathlib.Omega.{arith}
use ln_gossip_sim.Base.Lists.{All, All-append}
use ln_gossip_sim.Base.Tests.{ltb, leb, ◌==◌, if◌then◌else◌, lt→ltb, Bool-cases, ltb→lt}
use ln_gossip_sim.Base.Text.{Text}

-- The digits of a number, from the last one on; `fuel` bounds their count.
unfoldable pub digits : ℕ → ℕ → Text
digits zero n = []
digits (suc fuel) n =
    let front = digits fuel (n / 10) in
    if ltb n 10 then (b'0' + n) ∷ [] else front ++ (b'0' + n % 10) ∷ []

-- `n.to_string()` for a `u64`, which has 20 digits at most.
unfoldable pub to_text : ℕ → Text
unfolding digits
to_text n = digits 20 n

unfoldable pub is_digit : ℕ → Bool
is_digit c = leb b'0' c && leb c b'9'

-- One digit more: the checked product and the checked sum fail past 64 bits.
unfoldable pub parse_digits : ℕ → Text → Option ℕ
unfolding is_digit
parse_digits acc [] = some acc
parse_digits acc (c ∷ s) =
    let next = acc * 10 + (c - b'0') in
    let rest = parse_digits next s in if is_digit c && ltb next (2 ^ 64) then rest else none

-- `s.parse::<u64>()`: a plus sign may stand in front of the digits.
unfoldable pub parse_u64 : Text → Option ℕ
unfolding parse_digits
parse_u64 [] = none
parse_u64 (c ∷ []) = if c == b'+' then none else parse_digits 0 (c ∷ [])
parse_u64 (c ∷ d ∷ s) = if c == b'+' then parse_digits 0 (d ∷ s) else parse_digits 0 (c ∷ d ∷ s)

-- A number in decimal: digits, and at least one.
abbrev pub IsDecimal : Text → Type 0
IsDecimal [] = ⊥
IsDecimal (c ∷ s) = (is_digit c ≡ true) × All (λ d. is_digit d ≡ true) s

digit-is_digit : (n : ℕ) → n < 10 → is_digit (b'0' + n) ≡ true
unfolding is_digit
digit-is_digit n h = ground arith

IsDecimal-append : (s : Text) (c : ℕ) → IsDecimal s → is_digit c ≡ true → IsDecimal (s ++ c ∷ [])
IsDecimal-append [] c h hc = absurd h
IsDecimal-append (d ∷ s) c (h, hs) hc = (h, All-append _ s (c ∷ []) hs (hc, tt))

parse_digit :
    (acc d : ℕ) (s : Text)
    → d < 10
    → acc * 10 + d < 2 ^ 64
    → parse_digits acc ((b'0' + d) ∷ s) ≡ parse_digits (acc * 10 + d) s
unfolding parse_digits
parse_digit acc d s h lt =
    let same : b'0' + d - b'0' ≡ d = omega arith in rw (same, digit-is_digit d h, lt→ltb _ _ lt)

-- The bound on the number follows the fuel down.
tenth : (fuel n : ℕ) → n < 10 ^ suc (suc fuel) → n / 10 < 10 ^ suc fuel
tenth fuel n h = omega (arith, h, pow-suc 10 (suc fuel))

digits-IsDecimal : (fuel n : ℕ) → n < 10 ^ suc fuel → IsDecimal (digits (suc fuel) n)
unfolding digits
digits-IsDecimal zero n h = rw (lt→ltb n 10 (omega arith)) (digit-is_digit n (omega arith), tt)
digits-IsDecimal (suc fuel) n h = elim (Bool-cases (ltb n 10)) [
  | inl small ↦ rw small (digit-is_digit n (ltb→lt n 10 small), tt)
  | inr large ↦ rw large (
      IsDecimal-append (digits (suc fuel) (n / 10)) (b'0' + n % 10)
        (digits-IsDecimal fuel (n / 10) (tenth fuel n h)) (digit-is_digit (n % 10) (omega arith)))
]

-- Reading the digits of a number from zero on gives the number, whatever follows it.
parse_digits-digits :
    (fuel n : ℕ) (rest : Text)
    → n < 10 ^ suc fuel
    → n < 2 ^ 64
    → parse_digits 0 (digits (suc fuel) n ++ rest) ≡ parse_digits n rest
unfolding digits
parse_digits-digits zero n rest h lt =
    let same : 0 * 10 + n ≡ n = omega arith in
    rw (lt→ltb n 10 (omega arith), parse_digit 0 n rest (omega arith) (omega arith), same)
parse_digits-digits (suc fuel) n rest h lt = elim (Bool-cases (ltb n 10)) [
  | inl small ↦
      let same : 0 * 10 + n ≡ n = omega arith in
      rw (small, parse_digit 0 n rest (ltb→lt n 10 small) (omega arith), same)
  | inr large ↦
      let back : n / 10 * 10 + n % 10 ≡ n = omega arith in
      rw (
        large,
        append_assoc,
        parse_digits-digits fuel (n / 10) ((b'0' + n % 10) ∷ rest) (tenth fuel n h) (omega arith),
        parse_digit (n / 10) (n % 10) rest (omega arith) (omega arith),
        back,
      )
]

is_digit-ne : (c d : ℕ) → is_digit c ≡ true → is_digit d ≡ false → c ≢ d
is_digit-ne c d h k e = cc

parse_u64-digits : (s : Text) → IsDecimal s → parse_u64 s ≡ parse_digits 0 s
unfolding parse_u64 is_digit
parse_u64-digits [] h = absurd h
parse_u64-digits (c ∷ []) h = ground arith
parse_u64-digits (c ∷ d ∷ s) h = ground arith

-- A printed `u64` is read back.
pub parse_u64-to_text : (n : ℕ) → n < 2 ^ 64 → parse_u64 (to_text n) ≡ some n
unfolding to_text
parse_u64-to_text n h =
    parse_u64-digits (digits 20 n) (digits-IsDecimal 19 n (omega arith))
    ∙ ap (parse_digits 0) (sym (append-nil (digits 20 n)))
    ∙ parse_digits-digits 19 n [] (omega arith) h
    ∙ unfold parse_digits in refl

pub to_text-IsDecimal : (n : ℕ) → n < 2 ^ 64 → IsDecimal (to_text n)
unfolding to_text
to_text-IsDecimal n h = digits-IsDecimal 19 n (omega arith)

-- A character that is no digit does not stand in a decimal number.
pub IsDecimal-avoids : (c : ℕ) (s : Text) → is_digit c ≡ false → IsDecimal s → All (λ d. d ≢ c) s
IsDecimal-avoids c [] h k = absurd k
IsDecimal-avoids c (d ∷ s) h (k, ks) = (is_digit-ne d c k h, avoids s ks)
  where
    avoids : (t : Text) → All (λ d. is_digit d ≡ true) t → All (λ d. d ≢ c) t
    avoids [] hs = tt
    avoids (e ∷ t) (he, hs) = (is_digit-ne e c he h, avoids t hs)

-- What is read is below 2^64.
parse_digits-lt :
    (acc : ℕ) (s : Text) (n : ℕ) → acc < 2 ^ 64 → parse_digits acc s ≡ some n → n < 2 ^ 64
unfolding parse_digits
parse_digits-lt acc [] n h e = ground arith
parse_digits-lt acc (c ∷ s) n h e = ground (arith, parse_digits-lt (acc * 10 + (c - b'0')) s n)

pub parse_u64-lt : (s : Text) (n : ℕ) → parse_u64 s ≡ some n → n < 2 ^ 64
unfolding parse_u64
parse_u64-lt [] n e = cc
parse_u64-lt (c ∷ []) n e = ground (arith, parse_digits-lt 0 (c ∷ []) n)
parse_u64-lt (c ∷ d ∷ s) n e =
    ground (arith, parse_digits-lt 0 (d ∷ s) n, parse_digits-lt 0 (c ∷ d ∷ s) n)
