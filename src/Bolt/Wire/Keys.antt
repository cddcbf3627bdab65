-- ===== src/Bolt/Wire/Keys.antt =====
-- Public keys, signatures and transaction ids of bolt/src/wire.rs, over the laws of the crate.
use ln_gossip_sim.Base.{
  ◌≡◌, refl, Option, none, some, ◌++◌, Bytes, ok, err, drop, drop-append, Ensures, holds, rejected,
  Ensures-bind,
}
use ln_gossip_sim.Bitcoin.{Bitcoin, BitcoinLaws}
use ln_gossip_sim.Bolt.Types.{invalid_public_key, invalid_signature}
use ln_gossip_sim.Bolt.Wire.{
  read_public_key, public_key, read_txid, txid, read_signature, signature,
}
use ln_gossip_sim.Bolt.Wire.Laws.{IsLawful}
use ln_gossip_sim.Bolt.Wire.Arrays.{array-append, array-Ensures}

-- Every value of these types can be written.
abbrev pub Any {ℓ} : {A : Type ℓ} → A → Type 0
Any a = Unit

-- A parse keeps what the caller proves of its results.
parse-Ensures {ℓ κ μ} :
    {A : Type ℓ} {E : Type κ} {P : A × Bytes → Type μ} (parsed : Option A) (rest : Bytes) (e : E)
    → ((a : A) → parsed ≡ some a → P (a, rest))
    → Ensures P (elim parsed [ none ↦ err e | some a ↦ ok (a, rest) ])
parse-Ensures none rest e k = rejected
parse-Ensures (some a) rest e k = holds (k a refl)

module _ (b : Bitcoin) (laws : BitcoinLaws b) where
  open laws use {
    length-serialize, serialize-AllBytes, from_slice-serialize, serialize-from_slice,
    length-serialize_compact, serialize_compact-AllBytes, from_compact-serialize_compact,
    serialize_compact-from_compact, length-txid, txid-AllBytes, txid_from-to, txid_to-from,
  }

  pub public_key-IsLawful : IsLawful (public_key b) Any
  unfolding public_key read_public_key
  public_key-IsLawful = record {
    read-write = λ k rest _.
        rw (array-append 33 (b.serialize k) rest (length-serialize k), from_slice-serialize k);
    read-Ensures = λ bytes h. Ensures-bind (array-Ensures 33 bytes h) λ (buf, rest) p.
        parse-Ensures (b.public_key_from_slice buf) rest (invalid_public_key buf)
          λ k e. (tt, p.1, rw (serialize-from_slice buf k p.0.0 e) p.2);
    write-AllBytes = λ k _. serialize-AllBytes k;
  }

  pub signature-IsLawful : IsLawful (signature b) Any
  unfolding signature read_signature
  signature-IsLawful = record {
    read-write = λ s rest _. rw (
      array-append 64 (b.serialize_compact s) rest (length-serialize_compact s),
      from_compact-serialize_compact s,
    );
    read-Ensures = λ bytes h. Ensures-bind (array-Ensures 64 bytes h) λ (buf, rest) p.
        parse-Ensures (b.from_compact buf) rest (invalid_signature buf)
          λ s e. (tt, p.1, rw (serialize_compact-from_compact buf s p.0.0 e) p.2);
    write-AllBytes = λ s _. serialize_compact-AllBytes s;
  }

  pub txid-IsLawful : IsLawful (txid b) Any
  unfolding txid read_txid
  txid-IsLawful = record {
    read-write = λ t rest _.
        rw (array-append 32 (b.txid_to_byte_array t) rest (length-txid t), txid_from-to t);
    read-Ensures = λ bytes h.
        Ensures-bind (array-Ensures 32 bytes h)
          λ (buf, rest) p. holds (tt, p.1, rw (txid_to-from buf p.0.0 p.0.1) p.2);
    write-AllBytes = λ t _. txid-AllBytes t;
  }

  -- Behind an encoded signature stands what was appended to it.
  pub drop-signature :
      (s : b.Signature) (rest : Bytes) → drop 64 ((signature b).write s ++ rest) ≡ rest
  unfolding signature
  drop-signature s rest =
      rw (← length-serialize_compact s) (drop-append (b.serialize_compact s) rest)
