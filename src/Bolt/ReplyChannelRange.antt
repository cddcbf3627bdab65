-- ===== src/Bolt/ReplyChannelRange.antt =====
-- bolt/src/reply_channel_range.rs
use ln_gossip_sim.Base.{
  ℕ, ◌+◌, ◌*◌, Bool, Option, none, List, [], ◌∷◌, ◌++◌, map, ◌==◌, if◌then◌else◌, length, Bytes,
  Outcome, ok, err, ◌>>=◌,
}
use ln_gossip_sim.Base.Words.{from_be_bytes}
use ln_gossip_sim.Base.Chunks.{as_chunks}
use ln_gossip_sim.Bolt.Types.{BoltError, truncated, unknown_encoding}
use ln_gossip_sim.Bolt.Wire.{array, u32, u8, vec, u64}
use ln_gossip_sim.Bolt.Tlv
pub mod RoundTrip
pub mod ShortIds

abbrev pub tlv_timestamps : ℕ
tlv_timestamps = 1

abbrev pub tlv_checksums : ℕ
tlv_checksums = 3

abbrev pub encoding_uncompressed : ℕ
encoding_uncompressed = 0

abbrev pub scid_size : ℕ
scid_size = 8

pub record ReplyChannelRangeTlvs : Type 0 where
  pub timestamps : Option Bytes
  pub checksums : Option Bytes

pub record ReplyChannelRange : Type 0 where
  pub chain_hash : Bytes
  pub first_blocknum : ℕ
  pub number_of_blocks : ℕ
  pub sync_complete : ℕ
  pub encoded_short_ids : Bytes
  pub tlvs : ReplyChannelRangeTlvs

unfoldable pub encode {ℓ} : {E : Type ℓ} → ReplyChannelRange → Outcome E Bytes
encode m = do
  stream ← Tlv.add_option Tlv.empty tlv_timestamps m.tlvs.timestamps
  stream ← Tlv.add_option stream tlv_checksums m.tlvs.checksums
  ok (
      (array 32).write m.chain_hash
      ++ (u32.write m.first_blocknum
          ++ (u32.write m.number_of_blocks
              ++ (u8.write m.sync_complete
                  ++ (vec.write m.encoded_short_ids ++ Tlv.encode stream)))))

unfoldable pub decode : Bytes → Outcome BoltError ReplyChannelRange
decode payload = do
  (chain_hash, cursor) ← (array 32).read payload
  (first_blocknum, cursor) ← u32.read cursor
  (number_of_blocks, cursor) ← u32.read cursor
  (sync_complete, cursor) ← u8.read cursor
  (encoded_short_ids, cursor) ← vec.read cursor
  stream ← Tlv.decode cursor
  ok (record {
    chain_hash = chain_hash;
    first_blocknum = first_blocknum;
    number_of_blocks = number_of_blocks;
    sync_complete = sync_complete;
    encoded_short_ids = encoded_short_ids;
    tlvs = record {
      timestamps = Tlv.get stream tlv_timestamps;
      checksums = Tlv.get stream tlv_checksums;
    };
  })

-- The short channel IDs, each written behind the last.
unfoldable pub write_scids : List ℕ → Bytes
write_scids [] = []
write_scids (scid ∷ scids) = u64.write scid ++ write_scids scids

-- `ReplyChannelRange::from_scids`; `u8::from` of a Boolean is 1 or 0.
unfoldable pub from_scids : Bytes → ℕ → ℕ → Bool → List ℕ → ReplyChannelRange
unfolding write_scids
from_scids chain_hash first_blocknum number_of_blocks sync_complete scids = record {
  chain_hash = chain_hash;
  first_blocknum = first_blocknum;
  number_of_blocks = number_of_blocks;
  sync_complete = if sync_complete then 1 else 0;
  encoded_short_ids = u8.write encoding_uncompressed ++ write_scids scids;
  tlvs = record { timestamps = none; checksums = none };
}

parse_scids : Bytes → Outcome BoltError (List ℕ)
parse_scids cursor =
    let (chunks, remainder) = as_chunks scid_size cursor in
    elim remainder [
      | [] ↦ ok (map from_be_bytes chunks)
      | _ ∷ _ ↦ err (truncated ((length chunks + 1) * scid_size) (length cursor))
    ]

-- `ReplyChannelRange::short_channel_ids`
unfoldable pub short_channel_ids : ReplyChannelRange → Outcome BoltError (List ℕ)
unfolding parse_scids
short_channel_ids m = do
  (encoding_type, cursor) ← u8.read m.encoded_short_ids
  if encoding_type == encoding_uncompressed
      then parse_scids cursor
      else err (unknown_encoding encoding_type)
