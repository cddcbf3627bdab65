-- ===== src/Bolt/ChannelAnnouncement/RoundTrip.antt =====
-- The `channel_announcement` message: its valid values, and round trips of its codec.
use ln_gossip_sim.Base.{◌≡◌, ◌++◌, append_assoc, Bytes, AllBytes, ok, Ensures, holds, Ensures-bind}
use ln_gossip_sim.Bitcoin.{Bitcoin, BitcoinLaws}
use ln_gossip_sim.Bolt.Wire.Arrays.{IsArray, array-IsLawful, Fits, uint-IsLawful}
use ln_gossip_sim.Bolt.Wire.Vectors.{IsVec, vec-IsLawful}
use ln_gossip_sim.Bolt.Wire.Keys.{public_key-IsLawful, signature-IsLawful}
use ln_gossip_sim.Bolt.Accepts.{Accepts}
use ln_gossip_sim.Bolt.ChannelAnnouncement.{ChannelAnnouncement, encode, decode}

pub record IsValid (b : Bitcoin) (m : ChannelAnnouncement b) : Type 0 where
  pub features : IsVec m.features
  pub chain_hash : IsArray 32 m.chain_hash
  pub short_channel_id : Fits 8 m.short_channel_id

module _ (b : Bitcoin) (laws : BitcoinLaws b) where
  pub decode-encode :
      (m : ChannelAnnouncement b) (rest : Bytes)
      → IsValid b m
      → decode b (encode b m ++ rest) ≡ ok m
  unfolding decode encode
  decode-encode m rest v = simp append_assoc (
      rw (
        (signature-IsLawful b laws).read-write m.node_signature_1 _ tt,
        (signature-IsLawful b laws).read-write m.node_signature_2 _ tt,
        (signature-IsLawful b laws).read-write m.bitcoin_signature_1 _ tt,
        (signature-IsLawful b laws).read-write m.bitcoin_signature_2 _ tt,
        vec-IsLawful.read-write m.features _ v.features,
        (array-IsLawful 32).read-write m.chain_hash _ v.chain_hash,
        (uint-IsLawful 8).read-write m.short_channel_id _ v.short_channel_id,
        (public_key-IsLawful b laws).read-write m.node_id_1 _ tt,
        (public_key-IsLawful b laws).read-write m.node_id_2 _ tt,
        (public_key-IsLawful b laws).read-write m.bitcoin_key_1 _ tt,
        (public_key-IsLawful b laws).read-write m.bitcoin_key_2 _ tt,
      ))

  pub decode-Ensures :
      (payload : Bytes)
      → AllBytes payload
      → Ensures (Accepts (encode b) (IsValid b) payload) (decode b payload)
  unfolding decode encode
  decode-Ensures payload h =
      Ensures-bind ((signature-IsLawful b laws).read-Ensures payload h) λ (a1, c1) p1.
        Ensures-bind ((signature-IsLawful b laws).read-Ensures c1 p1.1) λ (a2, c2) p2.
          Ensures-bind ((signature-IsLawful b laws).read-Ensures c2 p2.1) λ (a3, c3) p3.
            Ensures-bind ((signature-IsLawful b laws).read-Ensures c3 p3.1) λ (a4, c4) p4.
              Ensures-bind (vec-IsLawful.read-Ensures c4 p4.1) λ (a5, c5) p5.
                Ensures-bind ((array-IsLawful 32).read-Ensures c5 p5.1) λ (a6, c6) p6.
                  Ensures-bind ((uint-IsLawful 8).read-Ensures c6 p6.1) λ (a7, c7) p7.
                    Ensures-bind ((public_key-IsLawful b laws).read-Ensures c7 p7.1) λ (a8, c8) p8.
                      Ensures-bind ((public_key-IsLawful b laws).read-Ensures c8 p8.1)
                        λ (a9, c9) p9.
                          Ensures-bind ((public_key-IsLawful b laws).read-Ensures c9 p9.1)
                            λ (a10, c10) p10.
                              Ensures-bind ((public_key-IsLawful b laws).read-Ensures c10 p10.1)
                                λ (a11, c11) p11. holds (
                                  record {
                                    features = p5.0;
                                    chain_hash = p6.0;
                                    short_channel_id = p7.0;
                                  },
                                  c11,
                                  simp append_assoc (
                                      rw
                                        (
                                          p2.2, p3.2, p4.2, p5.2, p6.2, p7.2, p8.2, p9.2, p10.2,
                                          p11.2,
                                        )
                                        at p1.2),
                                )
