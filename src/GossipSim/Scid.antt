-- ===== src/GossipSim/Scid.antt =====
-- ln-gossip-sim/src/bin/simd.rs: `parse_scid`, which reads a short channel ID as it is printed.
use ln_gossip_sim.Base.{
  ap, sym, ◌∙◌, All, ◌≢◌, ℕ, ◌+◌, ◌*◌, ◌%◌, ◌^◌, ◌<◌, ◌≡◌, refl, arith, Bool, true, false, ◌||◌,
  Option, none, some, List, [], ◌∷◌, ltb, if◌then◌else◌, le→ltb,
}
use Prim.Native.Nat.{bit_or}
use ln_gossip_sim.Base.Options.{◌>>=◌, bind-some}
use ln_gossip_sim.Base.Bits.{bit_or-add}
use ln_gossip_sim.Base.Text.{Text, split, split-piece, split-last}
use ln_gossip_sim.Base.Decimal.{
  is_digit, to_text, parse_u64, parse_u64-to_text, to_text-IsDecimal, IsDecimal-avoids,
}
use ln_gossip_sim.Bolt.ScidText.{scid_text, block, tx_index, output}

-- `fields.next()?.parse().ok()?`, with the fields behind it.
unfoldable pub next_u64 : List Text → Option (ℕ × List Text)
next_u64 [] = none
next_u64 (field ∷ fields) = do n ← parse_u64 field; some (n, fields)

-- `fields.next().is_some()`
abbrev pub is_left : List Text → Bool
is_left [] = false
is_left (field ∷ fields) = true

unfoldable pub parse_scid : Text → Option ℕ
unfolding next_u64
parse_scid s = do
  (block, fields) ← next_u64 (split b'x' s)
  (tx_index, fields) ← next_u64 fields
  (output, fields) ← next_u64 fields
  if is_left fields || ltb 0xffffff block || ltb 0xffffff tx_index || ltb 0xffff output
      then none
      else some (bit_or (bit_or (block * 2 ^ 40 % 2 ^ 64) (tx_index * 2 ^ 16 % 2 ^ 64)) output)

-- The three numbers in their bits.
packed :
    (block tx_index output : ℕ)
    → block < 2 ^ 24
    → tx_index < 2 ^ 24
    → output < 2 ^ 16
    → bit_or (bit_or (block * 2 ^ 40 % 2 ^ 64) (tx_index * 2 ^ 16 % 2 ^ 64)) output
      ≡ block * 2 ^ 40 + tx_index * 2 ^ 16 + output
packed block tx_index output hb ht ho =
    let high : block * 2 ^ 40 % 2 ^ 64 ≡ block * 2 ^ 40 = omega arith in
    let middle : tx_index * 2 ^ 16 % 2 ^ 64 ≡ tx_index * 2 ^ 16 = omega arith in
    let joined : block * 2 ^ 40 + tx_index * 2 ^ 16 ≡ (block * 2 ^ 24 + tx_index) * 2 ^ 16 =
      omega arith in
    rw (
      high,
      middle,
      bit_or-add 40 block (tx_index * 2 ^ 16) (omega arith),
      joined,
      bit_or-add 16 (block * 2 ^ 24 + tx_index) output ho,
    )

next_u64-to_text :
    (n : ℕ) (fields : List Text) → n < 2 ^ 64 → next_u64 (to_text n ∷ fields) ≡ some (n, fields)
unfolding next_u64
next_u64-to_text n fields h = rw (next_u64, parse_u64-to_text n h)

no_x : (n : ℕ) → n < 2 ^ 64 → All (λ c. c ≢ b'x') (to_text n)
no_x n h = IsDecimal-avoids b'x' (to_text n) (unfold is_digit in refl) (to_text-IsDecimal n h)

split-scid_text :
    (scid : ℕ)
    → scid < 2 ^ 64
    → split b'x' (scid_text scid)
      ≡ to_text (block scid) ∷ to_text (tx_index scid) ∷ to_text (output scid) ∷ []
unfolding scid_text
split-scid_text scid h = rw (
  split-piece b'x' (to_text (block scid)) _ (no_x (block scid) (omega arith)),
  split-piece b'x' (to_text (tx_index scid)) _ (no_x (tx_index scid) (omega arith)),
  split-last b'x' (to_text (output scid)) (no_x (output scid) (omega arith)),
)

-- Any short channel ID of 64 bits, printed as the two announcements print it, is read back.
pub parse_scid-scid_text : (scid : ℕ) → scid < 2 ^ 64 → parse_scid (scid_text scid) ≡ some scid
unfolding parse_scid
parse_scid-scid_text scid h =
    let hb : block scid < 2 ^ 24 = omega arith in
    let ht : tx_index scid < 2 ^ 24 = omega arith in
    let ho : output scid < 2 ^ 16 = omega arith in
    let whole : block scid * 2 ^ 40 + tx_index scid * 2 ^ 16 + output scid ≡ scid = omega arith in
    rw (
      split-scid_text scid h,
      next_u64-to_text (block scid) _ (omega arith),
      next_u64-to_text (tx_index scid) _ (omega arith),
      next_u64-to_text (output scid) _ (omega arith),
      le→ltb 0xffffff (block scid) (omega arith),
      le→ltb 0xffffff (tx_index scid) (omega arith),
      le→ltb 0xffff (output scid) (omega arith),
      packed (block scid) (tx_index scid) (output scid) hb ht ho,
      whole,
    )

next_u64-some :
    (pieces rest : List Text) (n : ℕ)
    → next_u64 pieces ≡ some (n, rest)
    → (field : Text) × (pieces ≡ field ∷ rest) × (parse_u64 field ≡ some n)
unfolding next_u64
next_u64-some [] rest n h = cc
next_u64-some (field ∷ fields) rest n h =
    let (m, found, same) = bind-some (parse_u64 field) (λ m. some (m, fields)) (n, rest) h in
    let (same_n, same_rest) : (m ≡ n) × (fields ≡ rest) = (cc, cc) in
    (field, ap (λ fs. field ∷ fs) same_rest, found ∙ ap some same_n)

-- What a text has to be for the number to be read from it: three numbers, with nothing else, that are
-- in range, and the result has them in its bits.
pub record IsScid (s : Text) (scid : ℕ) : Type 0 where
  first : Text
  second : Text
  third : Text
  pieces : split b'x' s ≡ first ∷ second ∷ third ∷ []
  block_is : parse_u64 first ≡ some (block scid)
  tx_index_is : parse_u64 second ≡ some (tx_index scid)
  output_is : parse_u64 third ≡ some (output scid)
  bounded : scid < 2 ^ 64

no_field : (fields : List Text) → is_left fields ≡ false → fields ≡ []
no_field [] h = refl
no_field (field ∷ fields) h = cc

not_refused :
    {A : Type 0} (refused : Bool) (a a' : A)
    → (if refused then none else some a) ≡ some a'
    → (refused ≡ false) × (a ≡ a')
not_refused true a a' h = cc
not_refused false a a' h = (refl, cc)

all_false :
    (left : Bool) (n1 n2 n3 : ℕ)
    → (left || ltb 0xffffff n1 || ltb 0xffffff n2 || ltb 0xffff n3) ≡ false
    → (left ≡ false) × (n1 < 2 ^ 24) × (n2 < 2 ^ 24) × (n3 < 2 ^ 16)
all_false left n1 n2 n3 h = ground arith

module _ (scid n1 n2 n3 : ℕ) (whole : scid ≡ n1 * 2 ^ 40 + n2 * 2 ^ 16 + n3) where
  parts :
      n1 < 2 ^ 24
      → n2 < 2 ^ 24
      → n3 < 2 ^ 16
      → (n1 ≡ block scid) × (n2 ≡ tx_index scid) × (n3 ≡ output scid) × (scid < 2 ^ 64)
  parts h1 h2 h3 = omega arith

-- Where a number is read from a text, the text is three decimal numbers with an `x` between them and
-- nothing else; they are the height, the index of the transaction and the index of the output in the
-- bits of the result, which has 64 bits at most.
pub parse_scid-IsScid : (s : Text) (scid : ℕ) → parse_scid s ≡ some scid → IsScid s scid
unfolding parse_scid
parse_scid-IsScid s scid h =
    let ((n1, rest1), e1, h1) = bind-some (next_u64 (split b'x' s)) _ scid h in
    let ((n2, rest2), e2, h2) = bind-some (next_u64 rest1) _ scid h1 in
    let ((n3, rest3), e3, h3) = bind-some (next_u64 rest2) _ scid h2 in
    let (first, p1, d1) = next_u64-some (split b'x' s) rest1 n1 e1 in
    let (second, p2, d2) = next_u64-some rest1 rest2 n2 e2 in
    let (third, p3, d3) = next_u64-some rest2 rest3 n3 e3 in
    let (passed, same) = not_refused _ _ scid h3 in
    let (ended, b1, b2, b3) = all_false (is_left rest3) n1 n2 n3 passed in
    let (s1, s2, s3, bounded) =
      parts scid n1 n2 n3 (sym same ∙ packed n1 n2 n3 b1 b2 b3) b1 b2 b3 in
    record {
      first = first;
      second = second;
      third = third;
      pieces =
          p1
          ∙ ap (λ t. first ∷ t)
              (p2 ∙ ap (λ t. second ∷ t) (p3 ∙ ap (λ t. third ∷ t) (no_field rest3 ended)));
      block_is = d1 ∙ ap some s1;
      tx_index_is = d2 ∙ ap some s2;
      output_is = d3 ∙ ap some s3;
      bounded = bounded;
    }
