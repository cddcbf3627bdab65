-- ===== src/Bolt/Warning/RoundTrip.antt =====
-- The `warning` message: its valid values, and round trips of its codec.
use ln_gossip_sim.Base.{◌≡◌, ◌++◌, append_assoc, Bytes, AllBytes, ok, Ensures, holds, Ensures-bind}
use ln_gossip_sim.Bolt.Wire.Arrays.{IsArray, channel_id-IsLawful}
use ln_gossip_sim.Bolt.Wire.Vectors.{IsVec, vec-IsLawful}
use ln_gossip_sim.Bolt.Accepts.{Accepts}
use ln_gossip_sim.Bolt.Warning.{Warning, encode, decode}

pub record IsValid (m : Warning) : Type 0 where
  pub id : IsArray 32 m.channel_id
  pub contents : IsVec m.contents

pub decode-encode : (m : Warning) (rest : Bytes) → IsValid m → decode (encode m ++ rest) ≡ ok m
unfolding decode encode
decode-encode m rest v = simp append_assoc (
    rw (
      channel_id-IsLawful.read-write m.channel_id _ v.id,
      vec-IsLawful.read-write m.contents rest v.contents,
    ))

pub decode-Ensures :
    (payload : Bytes) → AllBytes payload → Ensures (Accepts encode IsValid payload) (decode payload)
unfolding decode encode
decode-Ensures payload h = Ensures-bind (channel_id-IsLawful.read-Ensures payload h) λ (id, c₁) p₁.
    Ensures-bind (vec-IsLawful.read-Ensures c₁ p₁.1) λ (contents, rest) p₂.
      holds (record { id = p₁.0; contents = p₂.0 }, rest, simp append_assoc (rw p₂.2 at p₁.2))
