-- ===== src/Bolt/Pong.antt =====
-- bolt/src/pong.rs
use Prim.Native.Nat.{min}
use ln_gossip_sim.Base.{ℕ, replicate, Bytes, Outcome, ok, ◌>>=◌}
use ln_gossip_sim.Bolt.Types.{BoltError}
use ln_gossip_sim.Bolt.Ping.{Ping}
use ln_gossip_sim.Bolt.Wire.{vec}
pub mod RoundTrip

pub record Pong : Type 0 where
  pub ignored : Bytes

-- `Pong::new`
unfoldable pub new : ℕ → Pong
new byteslen = record { ignored = replicate byteslen 0 }

unfoldable pub respond_to : Ping → Pong
unfolding new
respond_to ping = new (min ping.num_pong_bytes 65531)

unfoldable pub encode : Pong → Bytes
encode m = vec.write m.ignored

unfoldable pub decode : Bytes → Outcome BoltError Pong
decode payload = do (ignored, cursor) ← vec.read payload; ok (record { ignored = ignored })
