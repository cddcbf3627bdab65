-- ===== src/Bolt/ChannelAnnouncement/Signing.antt =====
-- The four signatures of a `channel_announcement`: what they cover and how they are made.
use ln_gossip_sim.Base.{ℕ, ◌≡◌, true, drop, Bytes}
use ln_gossip_sim.Bitcoin.{Bitcoin, BitcoinLaws, SignsCorrectly}
use ln_gossip_sim.Bolt.Wire.Keys.{drop-signature}
use ln_gossip_sim.Bolt.ChannelAnnouncement.{ChannelAnnouncement, encode, signature_hash, new_signed}

-- Under the laws of the crate, the signed digest is that of the encoded message from offset 256 on, as BOLT 7 wants.
pub signature_hash_offset :
    (b : Bitcoin)
    → BitcoinLaws b
    → (m : ChannelAnnouncement b)
    → signature_hash b m ≡ b.sha256d (drop 64 (drop 64 (drop 64 (drop 64 (encode b m)))))
unfolding signature_hash encode
signature_hash_offset b laws m = rw (
  drop-signature b laws m.node_signature_1,
  drop-signature b laws m.node_signature_2,
  drop-signature b laws m.bitcoin_signature_1,
  drop-signature b laws m.bitcoin_signature_2,
)

-- Each signature verifies under the key of its place, over the digest of the finished message.
abbrev pub AllVerify : (b : Bitcoin) → ChannelAnnouncement b → Type 0
AllVerify b m =
    let digest = signature_hash b m in
    (b.verify_ecdsa digest m.node_signature_1 m.node_id_1 ≡ true)
    × (b.verify_ecdsa digest m.node_signature_2 m.node_id_2 ≡ true)
    × (b.verify_ecdsa digest m.bitcoin_signature_1 m.bitcoin_key_1 ≡ true)
    × (b.verify_ecdsa digest m.bitcoin_signature_2 m.bitcoin_key_2 ≡ true)

-- Where signatures verify under the key of their secret, the four signatures of an announcement signed
-- by four secrets verify, each under its key and over the digest of the finished message.
pub new_signed-AllVerify :
    (b : Bitcoin)
    → SignsCorrectly b
    → (features chain_hash : Bytes) (short_channel_id : ℕ)
      (node_sk_1 node_sk_2 bitcoin_sk_1 bitcoin_sk_2 : b.SecretKey)
    → AllVerify b (
        new_signed b features chain_hash short_channel_id node_sk_1 node_sk_2 bitcoin_sk_1
          bitcoin_sk_2)
unfolding new_signed signature_hash
new_signed-AllVerify b signs features chain_hash short_channel_id node_sk_1 node_sk_2 bitcoin_sk_1
      bitcoin_sk_2 =
    (signs _ node_sk_1, signs _ node_sk_2, signs _ bitcoin_sk_1, signs _ bitcoin_sk_2)
