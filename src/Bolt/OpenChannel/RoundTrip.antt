-- ===== src/Bolt/OpenChannel/RoundTrip.antt =====
-- The message of bolt/src/open_channel.rs: its valid values, and round trips of its codec.
use ln_gossip_sim.Base.{
  ◌≡◌, refl, arith, none, [], ◌∷◌, ◌++◌, inl, Bytes, AllBytes, ok, ◌>>=◌, Ensures, holds,
  Ensures-bind,
}
use ln_gossip_sim.Bitcoin.{Bitcoin, BitcoinLaws}
use ln_gossip_sim.Bolt.Wire.{array, channel_id, u64, u32, u16, public_key, u8}
use ln_gossip_sim.Bolt.Wire.Arrays.{
  IsArray, array-IsLawful, channel_id-IsLawful, Fits, uint-IsLawful,
}
use ln_gossip_sim.Bolt.Wire.Keys.{public_key-IsLawful}
use ln_gossip_sim.Bolt.Tlv
use ln_gossip_sim.Bolt.Tlv.{TlvStream}
use ln_gossip_sim.Bolt.Tlv.Order.{IsStream}
use ln_gossip_sim.Bolt.Tlv.Pair.{
  IsOptional, pair_of, add_pair, get-first, get-second, pair-IsStream, get-IsOptional,
}
use ln_gossip_sim.Bolt.Tlv.RoundTrip as TlvRoundTrip
use ln_gossip_sim.Bolt.OpenChannel.{OpenChannel, encode, decode}

pub record IsValid (b : Bitcoin) (m : OpenChannel b) : Type 0 where
  pub chain_hash : IsArray 32 m.chain_hash
  pub temporary_channel_id : IsArray 32 m.temporary_channel_id
  pub funding_satoshis : Fits 8 m.funding_satoshis
  pub push_msat : Fits 8 m.push_msat
  pub dust_limit_satoshis : Fits 8 m.dust_limit_satoshis
  pub max_htlc_value_in_flight_msat : Fits 8 m.max_htlc_value_in_flight_msat
  pub channel_reserve_satoshis : Fits 8 m.channel_reserve_satoshis
  pub htlc_minimum_msat : Fits 8 m.htlc_minimum_msat
  pub feerate_per_kw : Fits 4 m.feerate_per_kw
  pub to_self_delay : Fits 2 m.to_self_delay
  pub max_accepted_htlcs : Fits 2 m.max_accepted_htlcs
  pub channel_flags : Fits 1 m.channel_flags
  pub upfront_shutdown_script : IsOptional m.tlvs.upfront_shutdown_script
  pub channel_type : IsOptional m.tlvs.channel_type

abbrev stream_of : (b : Bitcoin) → OpenChannel b → TlvStream
stream_of b m = pair_of 0 m.tlvs.upfront_shutdown_script 1 m.tlvs.channel_type

stream_of-IsStream :
    (b : Bitcoin) (m : OpenChannel b) → IsValid b m → IsStream none (0 ∷ []) (stream_of b m).records
stream_of-IsStream b m v =
    pair-IsStream 0 1 (omega arith) (0 ∷ []) m.tlvs.upfront_shutdown_script m.tlvs.channel_type
      (omega arith) (λ _. inl refl) (λ e. absurd (omega arith)) v.upfront_shutdown_script
      v.channel_type

-- The fields in front of the TLV stream, and what follows them.
abbrev front_of : (b : Bitcoin) → OpenChannel b → Bytes → Bytes
front_of b m rest =
    (array 32).write m.chain_hash
    ++ (channel_id.write m.temporary_channel_id
        ++ (u64.write m.funding_satoshis
            ++ (u64.write m.push_msat
                ++ (u64.write m.dust_limit_satoshis
                    ++ (u64.write m.max_htlc_value_in_flight_msat
                        ++ (u64.write m.channel_reserve_satoshis
                            ++ (u64.write m.htlc_minimum_msat
                                ++ (u32.write m.feerate_per_kw
                                    ++ (u16.write m.to_self_delay
                                        ++ (u16.write m.max_accepted_htlcs
                                            ++ ((public_key b).write m.funding_pubkey
                                                ++ ((public_key b).write m.revocation_basepoint
                                                    ++ ((public_key b).write m.payment_basepoint
                                                        ++ ((public_key b).write
                                                            m.delayed_payment_basepoint
                                                            ++ ((public_key b).write
                                                            m.htlc_basepoint
                                                            ++ ((public_key b).write
                                                            m.first_per_commitment_point
                                                            ++ (u8.write m.channel_flags
                                                            ++ rest)))))))))))))))))

-- Encoding a message does not panic.
pub encode_lem {ℓ} :
    {E : Type ℓ} (b : Bitcoin) (m : OpenChannel b)
    → encode {E = E} b m ≡ ok (front_of b m (Tlv.encode (stream_of b m)))
unfolding encode
encode_lem b m =
    add_pair 0 1 (omega arith) m.tlvs.upfront_shutdown_script m.tlvs.channel_type
      (λ s. ok (front_of b m (Tlv.encode s)))

module _ (b : Bitcoin) (laws : BitcoinLaws b) where
  -- Encoding does not panic, and decoding gives the message back.
  pub decode-encode : (m : OpenChannel b) → IsValid b m → (encode b m >>= decode b) ≡ ok m
  unfolding decode Tlv.decode
  decode-encode m v = rw (
    encode_lem b m,
    (array-IsLawful 32).read-write m.chain_hash _ v.chain_hash,
    channel_id-IsLawful.read-write m.temporary_channel_id _ v.temporary_channel_id,
    (uint-IsLawful 8).read-write m.funding_satoshis _ v.funding_satoshis,
    (uint-IsLawful 8).read-write m.push_msat _ v.push_msat,
    (uint-IsLawful 8).read-write m.dust_limit_satoshis _ v.dust_limit_satoshis,
    (uint-IsLawful 8).read-write m.max_htlc_value_in_flight_msat _ v.max_htlc_value_in_flight_msat,
    (uint-IsLawful 8).read-write m.channel_reserve_satoshis _ v.channel_reserve_satoshis,
    (uint-IsLawful 8).read-write m.htlc_minimum_msat _ v.htlc_minimum_msat,
    (uint-IsLawful 4).read-write m.feerate_per_kw _ v.feerate_per_kw,
    (uint-IsLawful 2).read-write m.to_self_delay _ v.to_self_delay,
    (uint-IsLawful 2).read-write m.max_accepted_htlcs _ v.max_accepted_htlcs,
    (public_key-IsLawful b laws).read-write m.funding_pubkey _ tt,
    (public_key-IsLawful b laws).read-write m.revocation_basepoint _ tt,
    (public_key-IsLawful b laws).read-write m.payment_basepoint _ tt,
    (public_key-IsLawful b laws).read-write m.delayed_payment_basepoint _ tt,
    (public_key-IsLawful b laws).read-write m.htlc_basepoint _ tt,
    (public_key-IsLawful b laws).read-write m.first_per_commitment_point _ tt,
    (uint-IsLawful 1).read-write m.channel_flags _ v.channel_flags,
    TlvRoundTrip.decode-encode (stream_of b m) (0 ∷ []) (stream_of-IsStream b m v),
    get-first 0 1 (omega arith) m.tlvs.upfront_shutdown_script m.tlvs.channel_type,
    get-second 0 1 (omega arith) m.tlvs.upfront_shutdown_script m.tlvs.channel_type,
  )

  -- Decoding any payload ends in an error or with a valid message.
  pub decode-Ensures : (payload : Bytes) → AllBytes payload → Ensures (IsValid b) (decode b payload)
  unfolding decode Tlv.decode
  decode-Ensures payload h =
      Ensures-bind ((array-IsLawful 32).read-Ensures payload h) λ (a1, c1) p1.
        Ensures-bind (channel_id-IsLawful.read-Ensures c1 p1.1) λ (a2, c2) p2.
          Ensures-bind ((uint-IsLawful 8).read-Ensures c2 p2.1) λ (a3, c3) p3.
            Ensures-bind ((uint-IsLawful 8).read-Ensures c3 p3.1) λ (a4, c4) p4.
              Ensures-bind ((uint-IsLawful 8).read-Ensures c4 p4.1) λ (a5, c5) p5.
                Ensures-bind ((uint-IsLawful 8).read-Ensures c5 p5.1) λ (a6, c6) p6.
                  Ensures-bind ((uint-IsLawful 8).read-Ensures c6 p6.1) λ (a7, c7) p7.
                    Ensures-bind ((uint-IsLawful 8).read-Ensures c7 p7.1) λ (a8, c8) p8.
                      Ensures-bind ((uint-IsLawful 4).read-Ensures c8 p8.1) λ (a9, c9) p9.
                        Ensures-bind ((uint-IsLawful 2).read-Ensures c9 p9.1) λ (a10, c10) p10.
                          Ensures-bind ((uint-IsLawful 2).read-Ensures c10 p10.1) λ (a11, c11) p11.
                            Ensures-bind ((public_key-IsLawful b laws).read-Ensures c11 p11.1)
                              λ (a12, c12) p12.
                                Ensures-bind ((public_key-IsLawful b laws).read-Ensures c12 p12.1)
                                  λ (a13, c13) p13.
                                    Ensures-bind
                                      ((public_key-IsLawful b laws).read-Ensures c13 p13.1)
                                      λ (a14, c14) p14.
                                        Ensures-bind
                                          ((public_key-IsLawful b laws).read-Ensures c14 p14.1)
                                          λ (a15, c15) p15.
                                            Ensures-bind
                                              ((public_key-IsLawful b laws).read-Ensures c15 p15.1)
                                              λ (a16, c16) p16.
                                                Ensures-bind
                                                  ((public_key-IsLawful b laws).read-Ensures c16
                                                    p16.1)
                                                  λ (a17, c17) p17.
                                                    Ensures-bind
                                                      ((uint-IsLawful 1).read-Ensures c17 p17.1)
                                                      λ (a18, c18) p18.
                                                        Ensures-bind
                                                          (TlvRoundTrip.decode_with_known-Ensures
                                                            c18 (0 ∷ []) p18.1)
                                                          λ s q. holds (record {
                                                            chain_hash = p1.0;
                                                            temporary_channel_id = p2.0;
                                                            funding_satoshis = p3.0;
                                                            push_msat = p4.0;
                                                            dust_limit_satoshis = p5.0;
                                                            max_htlc_value_in_flight_msat = p6.0;
                                                            channel_reserve_satoshis = p7.0;
                                                            htlc_minimum_msat = p8.0;
                                                            feerate_per_kw = p9.0;
                                                            to_self_delay = p10.0;
                                                            max_accepted_htlcs = p11.0;
                                                            channel_flags = p18.0;
                                                            upfront_shutdown_script =
                                                            get-IsOptional (0 ∷ []) s 0 q.0;
                                                            channel_type =
                                                            get-IsOptional (0 ∷ []) s 1 q.0;
                                                          })
