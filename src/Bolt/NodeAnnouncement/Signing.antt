-- ===== src/Bolt/NodeAnnouncement/Signing.antt =====
-- The signature of a `node_announcement`: what it covers and how it is made.
use ln_gossip_sim.Base.{ℕ, ◌≡◌, true, drop, Bytes}
use ln_gossip_sim.Bitcoin.{Bitcoin, BitcoinLaws, SignsCorrectly}
use ln_gossip_sim.Bolt.Wire.Keys.{drop-signature}
use ln_gossip_sim.Bolt.NodeAnnouncement.{
  NodeAnnouncement, encode, signature_hash, verify, new_signed,
}

-- The signed digest is that of the encoded message from offset 64 on, as BOLT 7 wants.
pub signature_hash_offset :
    (b : Bitcoin)
    → BitcoinLaws b
    → (m : NodeAnnouncement b) → signature_hash b m ≡ b.sha256d (drop 64 (encode b m))
unfolding signature_hash encode
signature_hash_offset b laws m = rw (drop-signature b laws m.signature)

-- Where signatures verify under the key of their secret, an announcement signed by a node's secret
-- verifies.
pub verify-new_signed :
    (b : Bitcoin)
    → SignsCorrectly b
    → (features : Bytes) (timestamp : ℕ) (rgb_color alias addresses : Bytes) (node_sk : b.SecretKey)
    → verify b (new_signed b features timestamp rgb_color alias addresses node_sk) ≡ true
unfolding verify new_signed signature_hash
verify-new_signed b signs features timestamp rgb_color alias addresses node_sk = signs _ node_sk
