-- ===== src/Bolt/FundingCreated/RoundTrip.antt =====
-- The `funding_created` message: its valid values, and round trips of its codec.
use ln_gossip_sim.Base.{◌≡◌, ◌++◌, append_assoc, Bytes, AllBytes, ok, Ensures, holds, Ensures-bind}
use ln_gossip_sim.Bitcoin.{Bitcoin, BitcoinLaws}
use ln_gossip_sim.Bolt.Wire.Arrays.{IsArray, channel_id-IsLawful, Fits, uint-IsLawful}
use ln_gossip_sim.Bolt.Wire.Keys.{signature-IsLawful, txid-IsLawful}
use ln_gossip_sim.Bolt.Accepts.{Accepts}
use ln_gossip_sim.Bolt.FundingCreated.{FundingCreated, encode, decode}

pub record IsValid (b : Bitcoin) (m : FundingCreated b) : Type 0 where
  pub temporary_channel_id : IsArray 32 m.temporary_channel_id
  pub funding_output_index : Fits 2 m.funding_output_index

module _ (b : Bitcoin) (laws : BitcoinLaws b) where
  pub decode-encode :
      (m : FundingCreated b) (rest : Bytes) → IsValid b m → decode b (encode b m ++ rest) ≡ ok m
  unfolding decode encode
  decode-encode m rest v = simp append_assoc (
      rw (
        channel_id-IsLawful.read-write m.temporary_channel_id _ v.temporary_channel_id,
        (txid-IsLawful b laws).read-write m.funding_txid _ tt,
        (uint-IsLawful 2).read-write m.funding_output_index _ v.funding_output_index,
        (signature-IsLawful b laws).read-write m.signature _ tt,
      ))

  pub decode-Ensures :
      (payload : Bytes)
      → AllBytes payload
      → Ensures (Accepts (encode b) (IsValid b) payload) (decode b payload)
  unfolding decode encode
  decode-Ensures payload h =
      Ensures-bind (channel_id-IsLawful.read-Ensures payload h) λ (a1, c1) p1.
        Ensures-bind ((txid-IsLawful b laws).read-Ensures c1 p1.1) λ (a2, c2) p2.
          Ensures-bind ((uint-IsLawful 2).read-Ensures c2 p2.1) λ (a3, c3) p3.
            Ensures-bind ((signature-IsLawful b laws).read-Ensures c3 p3.1) λ (a4, c4) p4. holds (
              record { temporary_channel_id = p1.0; funding_output_index = p3.0 },
              c4,
              simp append_assoc (rw (p2.2, p3.2, p4.2) at p1.2),
            )
