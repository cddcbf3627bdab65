-- ===== src/Bolt/Tlv/RoundTrip.antt =====
-- The decoder of TLV streams against the description of the well-formed ones.
use ln_gossip_sim.Base.{
  ℕ, zero, suc, ◌%◌, ◌<◌, ◌≤◌, ◌≡◌, refl, sym, ap, ◌∙◌, arith, inl, inr, ◌↔◌, true, false, not,
  ◌&&◌, Option, none, some, List, [], ◌∷◌, ◌++◌, append_assoc, append-nil, ltb, leb, ◌==◌,
  Bool-cases, ltb→le, le→ltb, length, length-append, Bytes, AllBytes, ok, Ensures, holds, rejected,
  Ensures-if, Ensures-bind, Ensures-weaken, Ensures-ok,
}
use ln_gossip_sim.Bolt.Types.{BoltError, big_size_len}
use ln_gossip_sim.Bolt.Wire.{big_size}
use ln_gossip_sim.Bolt.Wire.Arrays.{split_at-append, split_at-Ensures}
use ln_gossip_sim.Bolt.Wire.BigSizes.{big_size-IsLawful, length-big_size}
use ln_gossip_sim.Bolt.Tlv.{
  TlvRecord, TlvStream, encode_records, encode, contains, check_order, read_record, decode_loop,
  decode_with_known,
}
use ln_gossip_sim.Bolt.Tlv.Order.{OneOf, Follows, IsRecord, IsStream}

contains→OneOf : (known : List ℕ) (a : ℕ) → contains known a ≡ true → OneOf a known
unfolding contains
contains→OneOf [] a h = cc
contains→OneOf (x ∷ xs) a h = ground (arith, contains→OneOf xs a)

OneOf→contains : (known : List ℕ) (a : ℕ) → OneOf a known → contains known a ≡ true
unfolding contains
OneOf→contains [] a h = absurd h
OneOf→contains (x ∷ xs) a h = ground (arith, OneOf→contains xs a)

Follows→check_order : (last : Option ℕ) (t : ℕ) → Follows last t → check_order last t ≡ ok tt
unfolding check_order
Follows→check_order none t h = refl
Follows→check_order (some prev) t h = ground arith

check_order-Ensures : (last : Option ℕ) (t : ℕ) → Ensures (λ _. Follows last t) (check_order last t)
unfolding check_order
check_order-Ensures none t = holds tt
check_order-Ensures (some prev) t =
    Ensures-if (leb t prev) (λ _. rejected) (λ e. holds (ground arith))

-- The test on even types, and what it means.
known_test :
    (known : List ℕ) (t : ℕ)
    → (t % 2 ≡ 0 → OneOf t known)
    → (t % 2 == 0 && not (contains known t)) ≡ false
known_test known t h = elim (Bool-cases (t % 2 == 0)) [
  | inl e ↦ rw (e, OneOf→contains known t (h (ground arith)))
  | inr e ↦ rw e
]

known_test_passed :
    (known : List ℕ) (t : ℕ)
    → (t % 2 == 0 && not (contains known t)) ≡ false
    → t % 2 ≡ 0
    → OneOf t known
known_test_passed known t h even = contains→OneOf known t (ground arith)

-- One round reads one record back.
read_record-write :
    (last : Option ℕ) (known : List ℕ) (r : TlvRecord) (rest : Bytes)
    → Follows last r.tlv_type
    → IsRecord known r
    → read_record last known
        (big_size.write r.tlv_type ++ (big_size.write (length r.value) ++ (r.value ++ rest)))
      ≡ ok (r, rest)
unfolding read_record
read_record-write last known r rest f v = rw (
  big_size-IsLawful.read-write r.tlv_type _ v.0,
  Follows→check_order last r.tlv_type f,
  big_size-IsLawful.read-write (length r.value) (r.value ++ rest) v.1,
  le→ltb (length (r.value ++ rest)) (length r.value) (omega (arith, length-append r.value rest)),
  known_test known r.tlv_type v.3,
  split_at-append {E = BoltError} (length r.value) r.value rest refl,
)

decode_loop_step :
    (fuel : ℕ) (cursor rest : Bytes) (last : Option ℕ) (known : List ℕ) (acc : List TlvRecord)
    (r : TlvRecord)
    → read_record last known cursor ≡ ok (r, rest)
    → 0 < length cursor
    → decode_loop (suc fuel) cursor last known acc
      ≡ decode_loop fuel rest (some r.tlv_type) known (acc ++ r ∷ [])
unfolding decode_loop
decode_loop_step fuel [] rest last known acc r e h = absurd (omega arith)
decode_loop_step fuel (b ∷ bs) rest last known acc r e h = rw e

pub big_size_pos : (v : ℕ) → 0 < length (big_size.write v)
big_size_pos v = rw (length-big_size v) (unfold big_size_len in ground arith)

record_grows :
    (t l : ℕ) (value rest : Bytes)
    → length rest < length (big_size.write t ++ (big_size.write l ++ (value ++ rest)))
record_grows t l value rest = omega (
  arith,
  length-append (big_size.write t) (big_size.write l ++ (value ++ rest)),
  length-append (big_size.write l) (value ++ rest),
  length-append value rest,
  big_size_pos t,
)

decode_loop-encode :
    (fuel : ℕ) (last : Option ℕ) (known : List ℕ) (acc rs : List TlvRecord)
    → IsStream last known rs
    → length (encode_records rs) ≤ fuel
    → decode_loop fuel (encode_records rs) last known acc ≡ ok (acc ++ rs)
unfolding encode_records
decode_loop-encode fuel last known acc [] v h = unfold decode_loop in rw append-nil
decode_loop-encode zero last known acc (r ∷ rs) v h =
    absurd (omega (arith, record_grows r.tlv_type (length r.value) r.value (encode_records rs)))
decode_loop-encode (suc fuel) last known acc (r ∷ rs) (f, v, vs) h =
    let grows = record_grows r.tlv_type (length r.value) r.value (encode_records rs) in
    decode_loop_step fuel _ (encode_records rs) last known acc r
      (read_record-write last known r (encode_records rs) f v) (omega (arith, grows))
    ∙ decode_loop-encode fuel (some r.tlv_type) known (acc ++ r ∷ []) rs vs (omega (arith, grows))
    ∙ ap ok (append_assoc acc (r ∷ []) rs)

-- A round that succeeds read a well-formed record off the front of the cursor.
abbrev ReadsRecord : Option ℕ → List ℕ → Bytes → TlvRecord × Bytes → Type 0
ReadsRecord last known bytes (r, rest) =
    Follows last r.tlv_type
    × IsRecord known r
    × AllBytes rest
    × (bytes ≡ big_size.write r.tlv_type ++ (big_size.write (length r.value) ++ (r.value ++ rest)))

read_record-Ensures :
    (last : Option ℕ) (known : List ℕ) (bytes : Bytes)
    → AllBytes bytes
    → Ensures (ReadsRecord last known bytes) (read_record last known bytes)
unfolding read_record
read_record-Ensures last known bytes h =
    Ensures-bind (big_size-IsLawful.read-Ensures bytes h) λ (t, cursor) p.
      Ensures-bind (check_order-Ensures last t) λ _ f.
        Ensures-bind (big_size-IsLawful.read-Ensures cursor p.1) λ (len, cursor') q.
          Ensures-if (ltb (length cursor') len) (λ _. rejected)
            λ enough.
              Ensures-if (t % 2 == 0 && not (contains known t)) (λ _. rejected)
                λ odd.
                  Ensures-bind (split_at-Ensures len cursor' q.1 (ltb→le _ _ enough))
                    λ (value, rest) s. holds (
                      f,
                      (p.0, rw s.0.0 q.0, s.0.1, known_test_passed known t odd),
                      s.1,
                      rw s.0.0 (rw (q.2, s.2) at p.2),
                    )

abbrev Decodes : Option ℕ → List ℕ → List TlvRecord → Bytes → List TlvRecord → Type 0
Decodes last known acc bytes out =
    (rs : List TlvRecord) × (out ≡ acc ++ rs) × IsStream last known rs × (bytes ≡ encode_records rs)

decode_loop-Ensures :
    (fuel : ℕ) (bytes : Bytes) (last : Option ℕ) (known : List ℕ) (acc : List TlvRecord)
    → AllBytes bytes
    → length bytes ≤ fuel
    → Ensures (Decodes last known acc bytes) (decode_loop fuel bytes last known acc)
unfolding decode_loop
decode_loop-Ensures fuel [] last known acc h le =
    holds ([], sym (append-nil acc), tt, unfold encode_records in refl)
decode_loop-Ensures zero (b ∷ bs) last known acc h le = absurd (omega arith)
decode_loop-Ensures (suc fuel) (b ∷ bs) last known acc h le =
    Ensures-bind (read_record-Ensures last known (b ∷ bs) h) λ (r, rest) p.
      let grows = record_grows r.tlv_type (length r.value) r.value rest in
      Ensures-weaken
        (decode_loop-Ensures fuel rest (some r.tlv_type) known (acc ++ r ∷ []) p.2
          (omega (arith, grows, ap length p.3)))
        λ out (rs, e, v, w). (
          r ∷ rs,
          e ∙ append_assoc acc (r ∷ []) rs,
          (p.0, p.1, v),
          unfold encode_records in rw w at p.3,
        )

-- Decoding any bytes ends: in an error, or with a well-formed stream that they are the encoding of.
pub decode_with_known-Ensures :
    (bytes : Bytes) (known : List ℕ)
    → AllBytes bytes
    → Ensures
        (λ s. IsStream none known s.records × (bytes ≡ encode s))
        (decode_with_known bytes known)
unfolding decode_with_known encode
decode_with_known-Ensures bytes known h =
    Ensures-bind (decode_loop-Ensures (length bytes) bytes none known [] h (omega arith))
      λ out (rs, e, v, w). holds (rw e (v, w))

-- The encoding of a well-formed stream decodes to that stream.
pub decode-encode :
    (s : TlvStream) (known : List ℕ)
    → IsStream none known s.records
    → decode_with_known (encode s) known ≡ ok s
unfolding decode_with_known encode
decode-encode s known v =
    rw (
      decode_loop-encode (length (encode_records s.records)) none known [] s.records v
        (omega arith))

-- Decoding bytes yields a stream exactly when the stream is well formed and they are its encoding.
pub decode-eq-ok_iff :
    (bytes : Bytes) (known : List ℕ) (s : TlvStream)
    → AllBytes bytes
    → (decode_with_known bytes known ≡ ok s) ↔ (IsStream none known s.records × (bytes ≡ encode s))
decode-eq-ok_iff bytes known s h = (
  λ e. Ensures-ok (decode_with_known-Ensures bytes known h) e,
  λ (v, e). rw e (decode-encode s known v),
)
