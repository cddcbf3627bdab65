-- ===== src/Bolt/ChannelUpdate.antt =====
-- bolt/src/channel_update.rs. A digest is its bytes.
use ln_gossip_sim.Base.{ℕ, replicate, ◌++◌, Bytes, Outcome, ok, ◌>>=◌}
use ln_gossip_sim.Base.Text.{Text}
use ln_gossip_sim.Bitcoin.{Bitcoin}
use ln_gossip_sim.Bolt.ScidText.{scid_text}
use ln_gossip_sim.Bolt.Types.{BoltError}
use ln_gossip_sim.Bolt.Wire.{signature, array, u64, u32, u8, u16}
pub mod RoundTrip
pub mod Signing

pub record ChannelUpdate (b : Bitcoin) : Type 0 where
  pub signature : b.Signature
  pub chain_hash : Bytes
  pub short_channel_id : ℕ
  pub timestamp : ℕ
  pub message_flags : ℕ
  pub channel_flags : ℕ
  pub cltv_expiry_delta : ℕ
  pub htlc_minimum_msat : ℕ
  pub fee_base_msat : ℕ
  pub fee_proportional_millionths : ℕ
  pub htlc_maximum_msat : ℕ

unfoldable pub encode : (b : Bitcoin) → ChannelUpdate b → Bytes
encode b m =
    (signature b).write m.signature
    ++ ((array 32).write m.chain_hash
        ++ (u64.write m.short_channel_id
            ++ (u32.write m.timestamp
                ++ (u8.write m.message_flags
                    ++ (u8.write m.channel_flags
                        ++ (u16.write m.cltv_expiry_delta
                            ++ (u64.write m.htlc_minimum_msat
                                ++ (u32.write m.fee_base_msat
                                    ++ (u32.write m.fee_proportional_millionths
                                        ++ u64.write m.htlc_maximum_msat)))))))))

unfoldable pub decode : (b : Bitcoin) → Bytes → Outcome BoltError (ChannelUpdate b)
decode b payload = do
  (signature, cursor) ← (signature b).read payload
  (chain_hash, cursor) ← (array 32).read cursor
  (short_channel_id, cursor) ← u64.read cursor
  (timestamp, cursor) ← u32.read cursor
  (message_flags, cursor) ← u8.read cursor
  (channel_flags, cursor) ← u8.read cursor
  (cltv_expiry_delta, cursor) ← u16.read cursor
  (htlc_minimum_msat, cursor) ← u64.read cursor
  (fee_base_msat, cursor) ← u32.read cursor
  (fee_proportional_millionths, cursor) ← u32.read cursor
  (htlc_maximum_msat, cursor) ← u64.read cursor
  ok (record {
    signature = signature;
    chain_hash = chain_hash;
    short_channel_id = short_channel_id;
    timestamp = timestamp;
    message_flags = message_flags;
    channel_flags = channel_flags;
    cltv_expiry_delta = cltv_expiry_delta;
    htlc_minimum_msat = htlc_minimum_msat;
    fee_base_msat = fee_base_msat;
    fee_proportional_millionths = fee_proportional_millionths;
    htlc_maximum_msat = htlc_maximum_msat;
  })

-- The digest that is signed, over the fields behind the signatures.
unfoldable pub signature_hash : (b : Bitcoin) → ChannelUpdate b → Bytes
signature_hash b m = b.sha256d (
    (array 32).write m.chain_hash
    ++ (u64.write m.short_channel_id
        ++ (u32.write m.timestamp
            ++ (u8.write m.message_flags
                ++ (u8.write m.channel_flags
                    ++ (u16.write m.cltv_expiry_delta
                        ++ (u64.write m.htlc_minimum_msat
                            ++ (u32.write m.fee_base_msat
                                ++ (u32.write m.fee_proportional_millionths
                                    ++ u64.write m.htlc_maximum_msat)))))))))

-- The digest of all zeros, which the throwaway signature is over.
abbrev zero_digest : Bytes
zero_digest = replicate 32 0

-- `ChannelUpdate::new_signed`
unfoldable pub new_signed :
    (b : Bitcoin) (chain_hash : Bytes)
    (short_channel_id timestamp message_flags channel_flags cltv_expiry_delta : ℕ)
    (htlc_minimum_msat fee_base_msat fee_proportional_millionths htlc_maximum_msat : ℕ)
    → b.SecretKey
    → ChannelUpdate b
new_signed b chain_hash short_channel_id timestamp message_flags channel_flags cltv_expiry_delta
      htlc_minimum_msat fee_base_msat fee_proportional_millionths htlc_maximum_msat node_sk =
    let update : ChannelUpdate b = record {
      signature = b.sign_ecdsa zero_digest node_sk;
      chain_hash = chain_hash;
      short_channel_id = short_channel_id;
      timestamp = timestamp;
      message_flags = message_flags;
      channel_flags = channel_flags;
      cltv_expiry_delta = cltv_expiry_delta;
      htlc_minimum_msat = htlc_minimum_msat;
      fee_base_msat = fee_base_msat;
      fee_proportional_millionths = fee_proportional_millionths;
      htlc_maximum_msat = htlc_maximum_msat;
    } in
    record update { signature = b.sign_ecdsa (signature_hash b update) node_sk }

unfoldable pub scid_str : (b : Bitcoin) → ChannelUpdate b → Text
unfolding scid_text
scid_str b m = scid_text m.short_channel_id
