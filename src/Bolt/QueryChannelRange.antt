-- ===== src/Bolt/QueryChannelRange.antt =====
-- bolt/src/query_channel_range.rs
use mathlib.Core.Option
use ln_gossip_sim.Base.{ℕ, Option, none, some, ◌++◌, Bytes, Outcome, ok, ◌>>=◌}
use ln_gossip_sim.Bolt.Types.{BoltError}
use ln_gossip_sim.Bolt.Wire.{array, u32, big_size}
use ln_gossip_sim.Bolt.Tlv
pub mod RoundTrip

abbrev pub tlv_query_option : ℕ
tlv_query_option = 1

pub record QueryChannelRange : Type 0 where
  pub chain_hash : Bytes
  pub first_blocknum : ℕ
  pub number_of_blocks : ℕ
  pub query_option : Option ℕ

unfoldable pub encode {ℓ} : {E : Type ℓ} → QueryChannelRange → Outcome E Bytes
encode m = do
  stream ← Tlv.add_option Tlv.empty tlv_query_option (Option.map big_size.write m.query_option)
  ok (
      (array 32).write m.chain_hash
      ++ (u32.write m.first_blocknum ++ (u32.write m.number_of_blocks ++ Tlv.encode stream)))

-- Bytes behind the number are ignored.
unfoldable pub parse_option : Option Bytes → Outcome BoltError (Option ℕ)
parse_option none = ok none
parse_option (some value) = do (flags, rest) ← big_size.read value; ok (some flags)

unfoldable pub decode : Bytes → Outcome BoltError QueryChannelRange
unfolding parse_option
decode payload = do
  (chain_hash, cursor) ← (array 32).read payload
  (first_blocknum, cursor) ← u32.read cursor
  (number_of_blocks, cursor) ← u32.read cursor
  stream ← Tlv.decode cursor
  query_option ← parse_option (Tlv.get stream tlv_query_option)
  ok (record {
    chain_hash = chain_hash;
    first_blocknum = first_blocknum;
    number_of_blocks = number_of_blocks;
    query_option = query_option;
  })
