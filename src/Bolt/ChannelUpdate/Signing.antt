-- ===== src/Bolt/ChannelUpdate/Signing.antt =====
-- The signature of a `channel_update`: what it covers and how it is made.
use ln_gossip_sim.Base.{ℕ, ◌≡◌, true, drop, Bytes}
use ln_gossip_sim.Bitcoin.{Bitcoin, BitcoinLaws, SignsCorrectly}
use ln_gossip_sim.Bolt.Wire.Keys.{drop-signature}
use ln_gossip_sim.Bolt.ChannelUpdate.{ChannelUpdate, encode, signature_hash, new_signed}

-- The signed digest is that of the encoded message from offset 64 on, as BOLT 7 wants.
pub signature_hash_offset :
    (b : Bitcoin)
    → BitcoinLaws b
    → (m : ChannelUpdate b) → signature_hash b m ≡ b.sha256d (drop 64 (encode b m))
unfolding signature_hash encode
signature_hash_offset b laws m = rw (drop-signature b laws m.signature)

-- Where signatures verify under the key of their secret, an update signed by a node's secret verifies
-- under the node's key, over the digest of the finished message.
pub verify_ecdsa-new_signed :
    (b : Bitcoin)
    → SignsCorrectly b
    → (chain_hash : Bytes)
      (short_channel_id timestamp message_flags channel_flags cltv_expiry_delta : ℕ)
      (htlc_minimum_msat fee_base_msat fee_proportional_millionths htlc_maximum_msat : ℕ)
      (node_sk : b.SecretKey)
    → let update =
        new_signed b chain_hash short_channel_id timestamp message_flags channel_flags
          cltv_expiry_delta htlc_minimum_msat fee_base_msat fee_proportional_millionths
          htlc_maximum_msat node_sk in
      b.verify_ecdsa (signature_hash b update) update.signature (b.from_secret_key node_sk) ≡ true
unfolding new_signed signature_hash
verify_ecdsa-new_signed b signs chain_hash short_channel_id timestamp message_flags channel_flags
      cltv_expiry_delta htlc_minimum_msat fee_base_msat fee_proportional_millionths
      htlc_maximum_msat node_sk =
    signs _ node_sk
