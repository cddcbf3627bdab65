-- ===== src/Bitcoin.antt =====
-- What the code takes from the `bitcoin` crate: keys, signatures, transaction ids and hashes, with
-- their serialisations. The crate is not part of the repository, so it is a parameter of the model.
use ln_gossip_sim.Base.{◌≡◌, ◌≢◌, Bool, true, false, Option, some, length, Bytes, AllBytes}

pub record Bitcoin : Type 1 where
  pub PublicKey : Type 0
  pub SecretKey : Type 0
  pub Signature : Type 0
  pub Txid : Type 0
  -- `PublicKey::from_slice`, `serialize`, `from_secret_key`
  pub public_key_from_slice : Bytes → Option PublicKey
  pub serialize : PublicKey → Bytes
  pub from_secret_key : SecretKey → PublicKey
  -- `SecretKey::from_slice`, `==` and `<` of public keys
  pub secret_key_from_slice : Bytes → Option SecretKey
  pub same_key : PublicKey → PublicKey → Bool
  pub lt_key : PublicKey → PublicKey → Bool
  -- `Signature::from_compact`, `serialize_compact`
  pub from_compact : Bytes → Option Signature
  pub serialize_compact : Signature → Bytes
  -- `Txid::from_byte_array`, `to_byte_array`
  pub txid_from_byte_array : Bytes → Txid
  pub txid_to_byte_array : Txid → Bytes
  -- `sha256d::Hash::hash`, `sign_ecdsa` and `verify_ecdsa` over a digest
  pub sha256d : Bytes → Bytes
  pub sign_ecdsa : Bytes → SecretKey → Signature
  pub verify_ecdsa : Bytes → Signature → PublicKey → Bool

-- The documented behaviour that the codecs rely on. A slice of 33 bytes is a compressed key, which
-- has one serialisation; the crate's longer forms are never read.
pub record BitcoinLaws (b : Bitcoin) : Type 0 where
  pub length-serialize : (k : b.PublicKey) → length (b.serialize k) ≡ 33
  pub serialize-AllBytes : (k : b.PublicKey) → AllBytes (b.serialize k)
  pub from_slice-serialize : (k : b.PublicKey) → b.public_key_from_slice (b.serialize k) ≡ some k
  pub serialize-from_slice :
      (bytes : Bytes) (k : b.PublicKey)
      → length bytes ≡ 33
      → b.public_key_from_slice bytes ≡ some k
      → b.serialize k ≡ bytes
  pub length-serialize_compact : (s : b.Signature) → length (b.serialize_compact s) ≡ 64
  pub serialize_compact-AllBytes : (s : b.Signature) → AllBytes (b.serialize_compact s)
  pub from_compact-serialize_compact :
      (s : b.Signature) → b.from_compact (b.serialize_compact s) ≡ some s
  pub serialize_compact-from_compact :
      (bytes : Bytes) (s : b.Signature)
      → length bytes ≡ 64
      → b.from_compact bytes ≡ some s
      → b.serialize_compact s ≡ bytes
  pub length-txid : (t : b.Txid) → length (b.txid_to_byte_array t) ≡ 32
  pub txid-AllBytes : (t : b.Txid) → AllBytes (b.txid_to_byte_array t)
  pub txid_from-to : (t : b.Txid) → b.txid_from_byte_array (b.txid_to_byte_array t) ≡ t
  pub txid_to-from :
      (bytes : Bytes)
      → length bytes ≡ 32
      → AllBytes bytes
      → b.txid_to_byte_array (b.txid_from_byte_array bytes) ≡ bytes

-- A signature made with a secret verifies under its public key.
abbrev pub SignsCorrectly : Bitcoin → Type 0
SignsCorrectly b =
    (digest : Bytes) (sk : b.SecretKey)
    → b.verify_ecdsa digest (b.sign_ecdsa digest sk) (b.from_secret_key sk) ≡ true

-- The tests on public keys: equality, and a total order.
pub record KeyLaws (b : Bitcoin) : Type 0 where
  pub same_key-refl : (k : b.PublicKey) → b.same_key k k ≡ true
  pub same_key→eq : (k l : b.PublicKey) → b.same_key k l ≡ true → k ≡ l
  pub lt_key-total : (k l : b.PublicKey) → k ≢ l → b.lt_key k l ≡ false → b.lt_key l k ≡ true
