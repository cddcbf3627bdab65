-- ===== src/Bolt/NodeAnnouncement/RoundTrip.antt =====
-- The `node_announcement` message: its valid values, and round trips of its codec.
use ln_gossip_sim.Base.{◌≡◌, ◌++◌, append_assoc, Bytes, AllBytes, ok, Ensures, holds, Ensures-bind}
use ln_gossip_sim.Bitcoin.{Bitcoin, BitcoinLaws}
use ln_gossip_sim.Bolt.Wire.Arrays.{IsArray, array-IsLawful, Fits, uint-IsLawful}
use ln_gossip_sim.Bolt.Wire.Vectors.{IsVec, vec-IsLawful}
use ln_gossip_sim.Bolt.Wire.Keys.{public_key-IsLawful, signature-IsLawful}
use ln_gossip_sim.Bolt.Accepts.{Accepts}
use ln_gossip_sim.Bolt.NodeAnnouncement.{NodeAnnouncement, encode, decode}

pub record IsValid (b : Bitcoin) (m : NodeAnnouncement b) : Type 0 where
  pub features : IsVec m.features
  pub timestamp : Fits 4 m.timestamp
  pub rgb_color : IsArray 3 m.rgb_color
  pub alias : IsArray 32 m.alias
  pub addresses : IsVec m.addresses

module _ (b : Bitcoin) (laws : BitcoinLaws b) where
  pub decode-encode :
      (m : NodeAnnouncement b) (rest : Bytes) → IsValid b m → decode b (encode b m ++ rest) ≡ ok m
  unfolding decode encode
  decode-encode m rest v = simp append_assoc (
      rw (
        (signature-IsLawful b laws).read-write m.signature _ tt,
        vec-IsLawful.read-write m.features _ v.features,
        (uint-IsLawful 4).read-write m.timestamp _ v.timestamp,
        (public_key-IsLawful b laws).read-write m.node_id _ tt,
        (array-IsLawful 3).read-write m.rgb_color _ v.rgb_color,
        (array-IsLawful 32).read-write m.alias _ v.alias,
        vec-IsLawful.read-write m.addresses _ v.addresses,
      ))

  pub decode-Ensures :
      (payload : Bytes)
      → AllBytes payload
      → Ensures (Accepts (encode b) (IsValid b) payload) (decode b payload)
  unfolding decode encode
  decode-Ensures payload h =
      Ensures-bind ((signature-IsLawful b laws).read-Ensures payload h) λ (a1, c1) p1.
        Ensures-bind (vec-IsLawful.read-Ensures c1 p1.1) λ (a2, c2) p2.
          Ensures-bind ((uint-IsLawful 4).read-Ensures c2 p2.1) λ (a3, c3) p3.
            Ensures-bind ((public_key-IsLawful b laws).read-Ensures c3 p3.1) λ (a4, c4) p4.
              Ensures-bind ((array-IsLawful 3).read-Ensures c4 p4.1) λ (a5, c5) p5.
                Ensures-bind ((array-IsLawful 32).read-Ensures c5 p5.1) λ (a6, c6) p6.
                  Ensures-bind (vec-IsLawful.read-Ensures c6 p6.1) λ (a7, c7) p7. holds (
                    record {
                      features = p2.0;
                      timestamp = p3.0;
                      rgb_color = p5.0;
                      alias = p6.0;
                      addresses = p7.0;
                    },
                    c7,
                    simp append_assoc (rw (p2.2, p3.2, p4.2, p5.2, p6.2, p7.2) at p1.2),
                  )
