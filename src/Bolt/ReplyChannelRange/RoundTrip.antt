-- ===== src/Bolt/ReplyChannelRange/RoundTrip.antt =====
-- The message of bolt/src/reply_channel_range.rs: its valid values, and round trips of its codec.
use ln_gossip_sim.Base.{
  ◌≡◌, arith, none, [], ◌++◌, Bytes, AllBytes, ok, ◌>>=◌, Ensures, holds, Ensures-bind,
}
use ln_gossip_sim.Bolt.Wire.{array, u32, u8, vec}
use ln_gossip_sim.Bolt.Wire.Arrays.{IsArray, array-IsLawful, Fits, uint-IsLawful}
use ln_gossip_sim.Bolt.Wire.Vectors.{IsVec, vec-IsLawful}
use ln_gossip_sim.Bolt.Tlv
use ln_gossip_sim.Bolt.Tlv.{TlvStream}
use ln_gossip_sim.Bolt.Tlv.Order.{IsStream}
use ln_gossip_sim.Bolt.Tlv.Pair.{
  IsOptional, pair_of, add_pair, get-first, get-second, pair-IsStream, get-IsOptional,
}
use ln_gossip_sim.Bolt.Tlv.RoundTrip as TlvRoundTrip
use ln_gossip_sim.Bolt.ReplyChannelRange.{ReplyChannelRange, encode, decode}

pub record IsValid (m : ReplyChannelRange) : Type 0 where
  pub chain_hash : IsArray 32 m.chain_hash
  pub first_blocknum : Fits 4 m.first_blocknum
  pub number_of_blocks : Fits 4 m.number_of_blocks
  pub sync_complete : Fits 1 m.sync_complete
  pub encoded_short_ids : IsVec m.encoded_short_ids
  pub timestamps : IsOptional m.tlvs.timestamps
  pub checksums : IsOptional m.tlvs.checksums

abbrev pub stream_of : ReplyChannelRange → TlvStream
stream_of m = pair_of 1 m.tlvs.timestamps 3 m.tlvs.checksums

stream_of-IsStream : (m : ReplyChannelRange) → IsValid m → IsStream none [] (stream_of m).records
stream_of-IsStream m v =
    pair-IsStream 1 3 (omega arith) [] m.tlvs.timestamps m.tlvs.checksums (omega arith)
      (λ e. absurd (omega arith)) (λ e. absurd (omega arith)) v.timestamps v.checksums

-- The fields in front of the TLV stream, and what follows them.
abbrev pub front_of : ReplyChannelRange → Bytes → Bytes
front_of m rest =
    (array 32).write m.chain_hash
    ++ (u32.write m.first_blocknum
        ++ (u32.write m.number_of_blocks
            ++ (u8.write m.sync_complete ++ (vec.write m.encoded_short_ids ++ rest))))

-- Encoding a message does not panic.
pub encode_lem {ℓ} :
    {E : Type ℓ} (m : ReplyChannelRange)
    → encode {E = E} m ≡ ok (front_of m (Tlv.encode (stream_of m)))
unfolding encode
encode_lem m =
    add_pair 1 3 (omega arith) m.tlvs.timestamps m.tlvs.checksums
      (λ s. ok (front_of m (Tlv.encode s)))

-- Encoding does not panic, and decoding gives the message back.
pub decode-encode : (m : ReplyChannelRange) → IsValid m → (encode m >>= decode) ≡ ok m
unfolding decode Tlv.decode
decode-encode m v = rw (
  encode_lem m,
  (array-IsLawful 32).read-write m.chain_hash _ v.chain_hash,
  (uint-IsLawful 4).read-write m.first_blocknum _ v.first_blocknum,
  (uint-IsLawful 4).read-write m.number_of_blocks _ v.number_of_blocks,
  (uint-IsLawful 1).read-write m.sync_complete _ v.sync_complete,
  vec-IsLawful.read-write m.encoded_short_ids _ v.encoded_short_ids,
  TlvRoundTrip.decode-encode (stream_of m) [] (stream_of-IsStream m v),
  get-first 1 3 (omega arith) m.tlvs.timestamps m.tlvs.checksums,
  get-second 1 3 (omega arith) m.tlvs.timestamps m.tlvs.checksums,
)

-- Decoding any payload ends in an error or with a valid message.
pub decode-Ensures : (payload : Bytes) → AllBytes payload → Ensures IsValid (decode payload)
unfolding decode Tlv.decode
decode-Ensures payload h = Ensures-bind ((array-IsLawful 32).read-Ensures payload h) λ (a1, c1) p1.
    Ensures-bind ((uint-IsLawful 4).read-Ensures c1 p1.1) λ (a2, c2) p2.
      Ensures-bind ((uint-IsLawful 4).read-Ensures c2 p2.1) λ (a3, c3) p3.
        Ensures-bind ((uint-IsLawful 1).read-Ensures c3 p3.1) λ (a4, c4) p4.
          Ensures-bind (vec-IsLawful.read-Ensures c4 p4.1) λ (a5, c5) p5.
            Ensures-bind (TlvRoundTrip.decode_with_known-Ensures c5 [] p5.1) λ s q. holds (record {
              chain_hash = p1.0;
              first_blocknum = p2.0;
              number_of_blocks = p3.0;
              sync_complete = p4.0;
              encoded_short_ids = p5.0;
              timestamps = get-IsOptional [] s 1 q.0;
              checksums = get-IsOptional [] s 3 q.0;
            })
