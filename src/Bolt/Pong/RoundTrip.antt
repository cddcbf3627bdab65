-- ===== src/Bolt/Pong/RoundTrip.antt =====
-- The `pong` message: its valid values, and round trips of its codec.
use ln_gossip_sim.Base.{◌≡◌, ◌++◌, Bytes, AllBytes, ok, Ensures, holds, Ensures-bind}
use ln_gossip_sim.Bolt.Wire.Vectors.{IsVec, vec-IsLawful}
use ln_gossip_sim.Bolt.Accepts.{Accepts}
use ln_gossip_sim.Bolt.Pong.{Pong, encode, decode}

pub record IsValid (m : Pong) : Type 0 where
  pub ignored : IsVec m.ignored

pub decode-encode : (m : Pong) (rest : Bytes) → IsValid m → decode (encode m ++ rest) ≡ ok m
unfolding decode encode
decode-encode m rest v = rw (vec-IsLawful.read-write m.ignored rest v.ignored)

pub decode-Ensures :
    (payload : Bytes) → AllBytes payload → Ensures (Accepts encode IsValid payload) (decode payload)
unfolding decode encode
decode-Ensures payload h =
    Ensures-bind (vec-IsLawful.read-Ensures payload h)
      λ (a1, c1) p1. holds (record { ignored = p1.0 }, c1, p1.2)
