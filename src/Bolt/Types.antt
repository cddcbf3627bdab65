-- ===== src/Bolt/Types.antt =====
-- bolt/src/types.rs, and the error type of bolt/src/lib.rs. A tuple struct of one field is that
-- field: a `ChannelId` is its 32 bytes, a `BigSize` its number.
use ln_gossip_sim.Base.{ℕ, ltb, if◌then◌else◌, replicate, Bytes}

abbrev pub max_message_size : ℕ
max_message_size = 65535

abbrev pub channel_id_size : ℕ
channel_id_size = 32

abbrev pub chain_hash_size : ℕ
chain_hash_size = 32

abbrev pub txid_size : ℕ
txid_size = 32

abbrev pub compact_signature_size : ℕ
compact_signature_size = 64

abbrev pub public_key_size : ℕ
public_key_size = 33

-- `ChannelId::ALL`
abbrev pub all_channel_ids : Bytes
all_channel_ids = replicate channel_id_size 0

-- `BigSize::len`
unfoldable pub big_size_len : ℕ → ℕ
big_size_len value =
    if ltb value 0xfd
    then 1
    else if ltb value 0x1_0000
    then 3
    else if ltb value 0x1_0000_0000
    then 5
    else 9

pub data BoltError : Type 0 where
  truncated : (expected actual : ℕ) → BoltError
  unknown_even_type : ℕ → BoltError
  invalid_public_key : Bytes → BoltError
  invalid_signature : Bytes → BoltError
  unknown_encoding : ℕ → BoltError
  big_size_not_minimal : BoltError
  big_size_truncated : BoltError
  tlv_not_increasing : (previous current : ℕ) → BoltError
  tlv_length_overflow : BoltError
  tlv_unknown_even_type : ℕ → BoltError
