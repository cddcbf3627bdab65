-- ===== src/Bolt/FundingCreated.antt =====
-- bolt/src/funding_created.rs
use ln_gossip_sim.Base.{ℕ, ◌++◌, Bytes, Outcome, ok, ◌>>=◌}
use ln_gossip_sim.Bitcoin.{Bitcoin}
use ln_gossip_sim.Bolt.Types.{BoltError}
use ln_gossip_sim.Bolt.Wire.{channel_id, txid, u16, signature}
pub mod RoundTrip

pub record FundingCreated (b : Bitcoin) : Type 0 where
  pub temporary_channel_id : Bytes
  pub funding_txid : b.Txid
  pub funding_output_index : ℕ
  pub signature : b.Signature

unfoldable pub encode : (b : Bitcoin) → FundingCreated b → Bytes
encode b m =
    channel_id.write m.temporary_channel_id
    ++ ((txid b).write m.funding_txid
        ++ (u16.write m.funding_output_index ++ (signature b).write m.signature))

unfoldable pub decode : (b : Bitcoin) → Bytes → Outcome BoltError (FundingCreated b)
decode b payload = do
  (temporary_channel_id, cursor) ← channel_id.read payload
  (funding_txid, cursor) ← (txid b).read cursor
  (funding_output_index, cursor) ← u16.read cursor
  (sig, cursor) ← (signature b).read cursor
  ok (record {
    temporary_channel_id = temporary_channel_id;
    funding_txid = funding_txid;
    funding_output_index = funding_output_index;
    signature = sig;
  })
