-- ===== src/Bolt/Ping.antt =====
-- bolt/src/ping.rs
use ln_gossip_sim.Base.{ℕ, [], ◌++◌, replicate, Bytes, Outcome, ok, ◌>>=◌}
use ln_gossip_sim.Bolt.Types.{BoltError}
use ln_gossip_sim.Bolt.Wire.{u16, vec}
pub mod RoundTrip

pub record Ping : Type 0 where
  pub num_pong_bytes : ℕ
  pub ignored : Bytes

-- `Ping::new`
unfoldable pub new : ℕ → Ping
new num_pong_bytes = record { num_pong_bytes = num_pong_bytes; ignored = [] }

unfoldable pub with_padding : ℕ → ℕ → Ping
with_padding num_pong_bytes padding_len = record {
  num_pong_bytes = num_pong_bytes;
  ignored = replicate padding_len 0;
}

unfoldable pub encode : Ping → Bytes
encode m = u16.write m.num_pong_bytes ++ vec.write m.ignored

unfoldable pub decode : Bytes → Outcome BoltError Ping
decode payload = do
  (num_pong_bytes, cursor) ← u16.read payload
  (ignored, cursor) ← vec.read cursor
  ok (record { num_pong_bytes = num_pong_bytes; ignored = ignored })
