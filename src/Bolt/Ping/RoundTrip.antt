-- ===== src/Bolt/Ping/RoundTrip.antt =====
-- The `ping` message: its valid values, and round trips of its codec.
use ln_gossip_sim.Base.{◌≡◌, ◌++◌, append_assoc, Bytes, AllBytes, ok, Ensures, holds, Ensures-bind}
use ln_gossip_sim.Bolt.Wire.Arrays.{Fits, uint-IsLawful}
use ln_gossip_sim.Bolt.Wire.Vectors.{IsVec, vec-IsLawful}
use ln_gossip_sim.Bolt.Accepts.{Accepts}
use ln_gossip_sim.Bolt.Ping.{Ping, encode, decode}

pub record IsValid (m : Ping) : Type 0 where
  pub num_pong_bytes : Fits 2 m.num_pong_bytes
  pub ignored : IsVec m.ignored

pub decode-encode : (m : Ping) (rest : Bytes) → IsValid m → decode (encode m ++ rest) ≡ ok m
unfolding decode encode
decode-encode m rest v = simp append_assoc (
    rw (
      (uint-IsLawful 2).read-write m.num_pong_bytes _ v.num_pong_bytes,
      vec-IsLawful.read-write m.ignored _ v.ignored,
    ))

pub decode-Ensures :
    (payload : Bytes) → AllBytes payload → Ensures (Accepts encode IsValid payload) (decode payload)
unfolding decode encode
decode-Ensures payload h = Ensures-bind ((uint-IsLawful 2).read-Ensures payload h) λ (a1, c1) p1.
    Ensures-bind (vec-IsLawful.read-Ensures c1 p1.1) λ (a2, c2) p2.
      holds (
        record { num_pong_bytes = p1.0; ignored = p2.0 },
        c2,
        simp append_assoc (rw (p2.2) at p1.2),
      )
