-- ===== src/Examples/Instances.antt =====
-- Concrete parameters for the examples: byte strings of a fixed size for the types of the crate
-- `bitcoin`, and a cipher that appends a tag of 16 zeros. All laws are proved of them.
use std.HLevel.{Σ_prop_path}
use mathlib.Core.Bool.{Bool-set}
use mathlib.Core.Path.{subst}
use ln_gossip_sim.Base.{
  All-take, ◌<◌, ℕ, zero, suc, ◌+◌, ◌-◌, ◌≡◌, refl, ap, arith, Bool, true, false, Bool-cases,
  Option, none, some, ◌⊎◌, inl, inr, [], ◌∷◌, ◌++◌, length, take, replicate, length-append,
  take-append, if◌then◌else◌, ltb, ltb→le, lt→ltb, le→ltb, length-take, Bytes, AllBytes,
}
use ln_gossip_sim.Base.Text.{same, same_refl, same→eq}
use ln_gossip_sim.Bitcoin.{Bitcoin, BitcoinLaws, KeyLaws, SignsCorrectly}
use ln_gossip_sim.Crypto.{Crypto, CryptoLaws}

unfoldable pub is_block : ℕ → Bytes → Bool
is_block zero [] = true
is_block zero (v ∷ rest) = false
is_block (suc n) [] = false
is_block (suc n) (v ∷ rest) = if ltb v 256 then is_block n rest else false

-- The byte strings of `n` bytes.
abbrev pub Block : ℕ → Type 0
Block n = (bytes : Bytes) × (is_block n bytes ≡ true)

is_block-length : (n : ℕ) (bytes : Bytes) → is_block n bytes ≡ true → length bytes ≡ n
unfolding is_block
is_block-length zero [] h = refl
is_block-length zero (v ∷ rest) h = ground arith
is_block-length (suc n) [] h = ground arith
is_block-length (suc n) (v ∷ rest) h = ap suc (is_block-length n rest (ground arith))

pub is_block-AllBytes : (n : ℕ) (bytes : Bytes) → is_block n bytes ≡ true → AllBytes bytes
unfolding is_block
is_block-AllBytes zero [] h = tt
is_block-AllBytes zero (v ∷ rest) h = ground arith
is_block-AllBytes (suc n) [] h = ground arith
is_block-AllBytes (suc n) (v ∷ rest) h = (ground arith, is_block-AllBytes n rest (ground arith))

AllBytes-is_block :
    (n : ℕ) (bytes : Bytes) → length bytes ≡ n → AllBytes bytes → is_block n bytes ≡ true
unfolding is_block
AllBytes-is_block zero [] len h = refl
AllBytes-is_block zero (v ∷ rest) len h = ground arith
AllBytes-is_block (suc n) [] len h = ground arith
AllBytes-is_block (suc n) (v ∷ rest) len h =
    rw (lt→ltb v 256 h.0, AllBytes-is_block n rest (omega arith) h.1)

-- As `Bool-cases`, and it computes.
abbrev decide : (test : Bool) → (test ≡ true) ⊎ (test ≡ false)
decide true = inl refl
decide false = inr refl

-- The block with the given bytes, or else the fallback.
module _ {B : Type 0} (n : ℕ) (bytes : Bytes) where
  abbrev choose : (Block n → B) → B → (is_block n bytes ≡ true) ⊎ (is_block n bytes ≡ false) → B
  choose found missing (inl p) = found (bytes, p)
  choose found missing (inr p) = missing

unfoldable pub parse : (n : ℕ) → Bytes → Option (Block n)
parse n bytes = choose n bytes some none (decide (is_block n bytes))

pub from_bytes : (n : ℕ) → Block n → Bytes → Block n
from_bytes n fallback bytes = choose n bytes (λ k. k) fallback (decide (is_block n bytes))

choose_lem :
    {B : Type 0} (n : ℕ) (k : Block n) (found : Block n → B) (missing : B)
    → (d : (is_block n k.0 ≡ true) ⊎ (is_block n k.0 ≡ false))
    → choose n k.0 found missing d ≡ found k
choose_lem n k found missing (inl p) =
    ap found (Σ_prop_path (λ bytes. Bool-set (is_block n bytes) true) refl)
choose_lem n (bytes, q) found missing (inr p) = ground arith

parse-some :
    (n : ℕ) (bytes : Bytes) (k : Block n)
    → (d : (is_block n bytes ≡ true) ⊎ (is_block n bytes ≡ false))
    → choose n bytes some none d ≡ some k
    → k.0 ≡ bytes
parse-some n bytes k (inl p) h = cc
parse-some n bytes k (inr p) h = cc

pub zeros-is_block : (n : ℕ) → is_block n (replicate n 0) ≡ true
unfolding is_block
zeros-is_block zero = refl
zeros-is_block (suc n) = zeros-is_block n

abbrev pub blank : (n : ℕ) → Block n
blank n = (replicate n 0, zeros-is_block n)

pub ones-is_block : (n : ℕ) → is_block n (replicate n 1) ≡ true
unfolding is_block
ones-is_block zero = refl
ones-is_block (suc n) = ones-is_block n

pub twos-is_block : (n : ℕ) → is_block n (replicate n 2) ≡ true
unfolding is_block
twos-is_block zero = refl
twos-is_block (suc n) = twos-is_block n

-- Two keys.
abbrev pub first_key : Block 33
first_key = (replicate 33 1, ones-is_block 33)

abbrev pub second_key : Block 33
second_key = (replicate 33 2, twos-is_block 33)

unfoldable pub lt_bytes : Bytes → Bytes → Bool
lt_bytes [] [] = false
lt_bytes [] (w ∷ ws) = true
lt_bytes (v ∷ vs) [] = false
lt_bytes (v ∷ vs) (w ∷ ws) = if ltb v w then true else if ltb w v then false else lt_bytes vs ws

lt_bytes-total : (vs ws : Bytes) → lt_bytes vs ws ≡ false → (vs ≡ ws) ⊎ (lt_bytes ws vs ≡ true)
unfolding lt_bytes
lt_bytes-total [] [] h = inl refl
lt_bytes-total [] (w ∷ ws) h = cc
lt_bytes-total (v ∷ vs) [] h = inr refl
lt_bytes-total (v ∷ vs) (w ∷ ws) h = ground (arith, lt_bytes-total vs ws)

abbrev pub bitcoin : Bitcoin
bitcoin = record {
  PublicKey = Block 33;
  SecretKey = Block 33;
  Signature = Block 64;
  Txid = Block 32;
  public_key_from_slice = parse 33;
  serialize = λ k. k.0;
  from_secret_key = λ k. k;
  secret_key_from_slice =
      λ bytes. some (if same bytes (replicate 32 0x11) then first_key else second_key);
  same_key = λ k l. same k.0 l.0;
  lt_key = λ k l. lt_bytes k.0 l.0;
  from_compact = parse 64;
  serialize_compact = λ s. s.0;
  txid_from_byte_array = from_bytes 32 (blank 32);
  txid_to_byte_array = λ t. t.0;
  sha256d = λ bytes. take 32 (bytes ++ replicate 32 0);
  sign_ecdsa = λ digest sk. blank 64;
  verify_ecdsa = λ digest s k. true;
}

pub bitcoin_laws : BitcoinLaws bitcoin
unfolding parse from_bytes
bitcoin_laws = record {
  length-serialize = λ k. is_block-length 33 k.0 k.1;
  serialize-AllBytes = λ k. is_block-AllBytes 33 k.0 k.1;
  from_slice-serialize = λ k. choose_lem 33 k some none (decide (is_block 33 k.0));
  serialize-from_slice = λ bytes k len e. parse-some 33 bytes k (decide (is_block 33 bytes)) e;
  length-serialize_compact = λ k. is_block-length 64 k.0 k.1;
  serialize_compact-AllBytes = λ k. is_block-AllBytes 64 k.0 k.1;
  from_compact-serialize_compact = λ k. choose_lem 64 k some none (decide (is_block 64 k.0));
  serialize_compact-from_compact =
      λ bytes k len e. parse-some 64 bytes k (decide (is_block 64 bytes)) e;
  length-txid = λ k. is_block-length 32 k.0 k.1;
  txid-AllBytes = λ k. is_block-AllBytes 32 k.0 k.1;
  txid_from-to = λ k. choose_lem 32 k (λ t. t) (blank 32) (decide (is_block 32 k.0));
  txid_to-from = λ bytes len h.
      ap (λ t. t.0)
        (choose_lem 32 (bytes, AllBytes-is_block 32 bytes len h) (λ t. t) (blank 32)
          (decide (is_block 32 bytes)));
}

pub key_laws : KeyLaws bitcoin
key_laws = record {
  same_key-refl = λ k. same_refl k.0;
  same_key→eq =
      λ k l h. Σ_prop_path (λ bytes. Bool-set (is_block 33 bytes) true) (same→eq k.0 l.0 h);
  lt_key-total = λ k l ne h. elim (lt_bytes-total k.0 l.0 h) [
    | inl e ↦ absurd (ne (Σ_prop_path (λ bytes. Bool-set (is_block 33 bytes) true) e))
    | inr lt ↦ lt
  ];
}

pub signs_correctly : SignsCorrectly bitcoin
signs_correctly digest sk = refl

-- The messages that the cipher unseals end with 16 bytes of tag.
pub unseal : Bytes → Option Bytes
unseal sealed = if ltb (length sealed) 16 then none else some (take (length sealed - 16) sealed)

abbrev pub crypto : Crypto
crypto = record {
  encrypt = λ key nonce ad msg. some (msg ++ replicate 16 0);
  decrypt = λ key nonce ad sealed. unseal sealed;
  hkdf = λ salt ikm. take 64 (salt ++ ikm ++ replicate 64 0);
  sha256 = λ bytes. take 32 (bytes ++ replicate 32 0);
}

unseal_lem : (msg : Bytes) → unseal (msg ++ replicate 16 0) ≡ some msg
unfolding unseal
unseal_lem msg =
    let len : length (msg ++ replicate 16 0) ≡ length msg + 16 =
      length-append msg (replicate 16 0) in
    let size : length msg + 16 - 16 ≡ length msg = omega arith in
    rw (len, size, take-append msg (replicate 16 0), le→ltb (length msg + 16) 16 (omega arith))

unseal-length : (sealed msg : Bytes) → unseal sealed ≡ some msg → length sealed ≡ length msg + 16
unfolding unseal
unseal-length sealed msg h = elim (Bool-cases (ltb (length sealed) 16)) [
  | inl short ↦ ground arith
  | inr long ↦
      let fits = ltb→le (length sealed) 16 long in
      let size = length-take (length sealed - 16) sealed (omega arith) in ground arith
]

unseal-AllBytes : (sealed msg : Bytes) → AllBytes sealed → unseal sealed ≡ some msg → AllBytes msg
unfolding unseal
unseal-AllBytes sealed msg h e = elim (Bool-cases (ltb (length sealed) 16)) [
  | inl short ↦ ground arith
  | inr long ↦
      let same : take (length sealed - 16) sealed ≡ msg = ground arith in
      subst AllBytes same (All-take (λ b. b < 256) (length sealed - 16) sealed h)
]

pub crypto_laws : CryptoLaws crypto
unfolding unseal
crypto_laws = record {
  encrypt_sound = λ key nonce ad msg le.
      (msg ++ replicate 16 0, refl, length-append msg (replicate 16 0), unseal_lem msg);
  length-decrypt = λ key nonce ad sealed msg e. unseal-length sealed msg e;
  decrypt-AllBytes = λ key nonce ad sealed msg h e. unseal-AllBytes sealed msg h e;
}
