-- ===== src/Bolt/ChannelUpdate/RoundTrip.antt =====
-- The `channel_update` message: its valid values, and round trips of its codec.
use ln_gossip_sim.Base.{◌≡◌, ◌++◌, append_assoc, Bytes, AllBytes, ok, Ensures, holds, Ensures-bind}
use ln_gossip_sim.Bitcoin.{Bitcoin, BitcoinLaws}
use ln_gossip_sim.Bolt.Wire.Arrays.{IsArray, array-IsLawful, Fits, uint-IsLawful}
use ln_gossip_sim.Bolt.Wire.Keys.{signature-IsLawful}
use ln_gossip_sim.Bolt.Accepts.{Accepts}
use ln_gossip_sim.Bolt.ChannelUpdate.{ChannelUpdate, encode, decode}

pub record IsValid (b : Bitcoin) (m : ChannelUpdate b) : Type 0 where
  pub chain_hash : IsArray 32 m.chain_hash
  pub short_channel_id : Fits 8 m.short_channel_id
  pub timestamp : Fits 4 m.timestamp
  pub message_flags : Fits 1 m.message_flags
  pub channel_flags : Fits 1 m.channel_flags
  pub cltv_expiry_delta : Fits 2 m.cltv_expiry_delta
  pub htlc_minimum_msat : Fits 8 m.htlc_minimum_msat
  pub fee_base_msat : Fits 4 m.fee_base_msat
  pub fee_proportional_millionths : Fits 4 m.fee_proportional_millionths
  pub htlc_maximum_msat : Fits 8 m.htlc_maximum_msat

module _ (b : Bitcoin) (laws : BitcoinLaws b) where
  pub decode-encode :
      (m : ChannelUpdate b) (rest : Bytes) → IsValid b m → decode b (encode b m ++ rest) ≡ ok m
  unfolding decode encode
  decode-encode m rest v = simp append_assoc (
      rw (
        (signature-IsLawful b laws).read-write m.signature _ tt,
        (array-IsLawful 32).read-write m.chain_hash _ v.chain_hash,
        (uint-IsLawful 8).read-write m.short_channel_id _ v.short_channel_id,
        (uint-IsLawful 4).read-write m.timestamp _ v.timestamp,
        (uint-IsLawful 1).read-write m.message_flags _ v.message_flags,
        (uint-IsLawful 1).read-write m.channel_flags _ v.channel_flags,
        (uint-IsLawful 2).read-write m.cltv_expiry_delta _ v.cltv_expiry_delta,
        (uint-IsLawful 8).read-write m.htlc_minimum_msat _ v.htlc_minimum_msat,
        (uint-IsLawful 4).read-write m.fee_base_msat _ v.fee_base_msat,
        (uint-IsLawful 4).read-write m.fee_proportional_millionths _ v.fee_proportional_millionths,
        (uint-IsLawful 8).read-write m.htlc_maximum_msat _ v.htlc_maximum_msat,
      ))

  pub decode-Ensures :
      (payload : Bytes)
      → AllBytes payload
      → Ensures (Accepts (encode b) (IsValid b) payload) (decode b payload)
  unfolding decode encode
  decode-Ensures payload h =
      Ensures-bind ((signature-IsLawful b laws).read-Ensures payload h) λ (a1, c1) p1.
        Ensures-bind ((array-IsLawful 32).read-Ensures c1 p1.1) λ (a2, c2) p2.
          Ensures-bind ((uint-IsLawful 8).read-Ensures c2 p2.1) λ (a3, c3) p3.
            Ensures-bind ((uint-IsLawful 4).read-Ensures c3 p3.1) λ (a4, c4) p4.
              Ensures-bind ((uint-IsLawful 1).read-Ensures c4 p4.1) λ (a5, c5) p5.
                Ensures-bind ((uint-IsLawful 1).read-Ensures c5 p5.1) λ (a6, c6) p6.
                  Ensures-bind ((uint-IsLawful 2).read-Ensures c6 p6.1) λ (a7, c7) p7.
                    Ensures-bind ((uint-IsLawful 8).read-Ensures c7 p7.1) λ (a8, c8) p8.
                      Ensures-bind ((uint-IsLawful 4).read-Ensures c8 p8.1) λ (a9, c9) p9.
                        Ensures-bind ((uint-IsLawful 4).read-Ensures c9 p9.1) λ (a10, c10) p10.
                          Ensures-bind ((uint-IsLawful 8).read-Ensures c10 p10.1) λ (a11, c11) p11.
                            holds (
                              record {
                                chain_hash = p2.0;
                                short_channel_id = p3.0;
                                timestamp = p4.0;
                                message_flags = p5.0;
                                channel_flags = p6.0;
                                cltv_expiry_delta = p7.0;
                                htlc_minimum_msat = p8.0;
                                fee_base_msat = p9.0;
                                fee_proportional_millionths = p10.0;
                                htlc_maximum_msat = p11.0;
                              },
                              c11,
                              simp append_assoc (
                                  rw (p2.2, p3.2, p4.2, p5.2, p6.2, p7.2, p8.2, p9.2, p10.2, p11.2)
                                    at p1.2),
                            )
