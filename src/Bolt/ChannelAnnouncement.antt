-- ===== src/Bolt/ChannelAnnouncement.antt =====
-- bolt/src/channel_announcement.rs. A digest is its bytes.
use ln_gossip_sim.Base.{ℕ, replicate, ◌++◌, Bytes, Outcome, ok, ◌>>=◌}
use ln_gossip_sim.Base.Text.{Text}
use ln_gossip_sim.Bitcoin.{Bitcoin}
use ln_gossip_sim.Bolt.ScidText.{scid_text}
use ln_gossip_sim.Bolt.Types.{BoltError}
use ln_gossip_sim.Bolt.Wire.{signature, vec, array, u64, public_key}
pub mod RoundTrip
pub mod Signing

pub record ChannelAnnouncement (b : Bitcoin) : Type 0 where
  pub node_signature_1 : b.Signature
  pub node_signature_2 : b.Signature
  pub bitcoin_signature_1 : b.Signature
  pub bitcoin_signature_2 : b.Signature
  pub features : Bytes
  pub chain_hash : Bytes
  pub short_channel_id : ℕ
  pub node_id_1 : b.PublicKey
  pub node_id_2 : b.PublicKey
  pub bitcoin_key_1 : b.PublicKey
  pub bitcoin_key_2 : b.PublicKey

unfoldable pub encode : (b : Bitcoin) → ChannelAnnouncement b → Bytes
encode b m =
    (signature b).write m.node_signature_1
    ++ ((signature b).write m.node_signature_2
        ++ ((signature b).write m.bitcoin_signature_1
            ++ ((signature b).write m.bitcoin_signature_2
                ++ (vec.write m.features
                    ++ ((array 32).write m.chain_hash
                        ++ (u64.write m.short_channel_id
                            ++ ((public_key b).write m.node_id_1
                                ++ ((public_key b).write m.node_id_2
                                    ++ ((public_key b).write m.bitcoin_key_1
                                        ++ (public_key b).write m.bitcoin_key_2)))))))))

unfoldable pub decode : (b : Bitcoin) → Bytes → Outcome BoltError (ChannelAnnouncement b)
decode b payload = do
  (node_signature_1, cursor) ← (signature b).read payload
  (node_signature_2, cursor) ← (signature b).read cursor
  (bitcoin_signature_1, cursor) ← (signature b).read cursor
  (bitcoin_signature_2, cursor) ← (signature b).read cursor
  (features, cursor) ← vec.read cursor
  (chain_hash, cursor) ← (array 32).read cursor
  (short_channel_id, cursor) ← u64.read cursor
  (node_id_1, cursor) ← (public_key b).read cursor
  (node_id_2, cursor) ← (public_key b).read cursor
  (bitcoin_key_1, cursor) ← (public_key b).read cursor
  (bitcoin_key_2, cursor) ← (public_key b).read cursor
  ok (record {
    node_signature_1 = node_signature_1;
    node_signature_2 = node_signature_2;
    bitcoin_signature_1 = bitcoin_signature_1;
    bitcoin_signature_2 = bitcoin_signature_2;
    features = features;
    chain_hash = chain_hash;
    short_channel_id = short_channel_id;
    node_id_1 = node_id_1;
    node_id_2 = node_id_2;
    bitcoin_key_1 = bitcoin_key_1;
    bitcoin_key_2 = bitcoin_key_2;
  })

-- The digest that is signed, over the fields behind the signatures.
unfoldable pub signature_hash : (b : Bitcoin) → ChannelAnnouncement b → Bytes
signature_hash b m = b.sha256d (
    vec.write m.features
    ++ ((array 32).write m.chain_hash
        ++ (u64.write m.short_channel_id
            ++ ((public_key b).write m.node_id_1
                ++ ((public_key b).write m.node_id_2
                    ++ ((public_key b).write m.bitcoin_key_1
                        ++ (public_key b).write m.bitcoin_key_2))))))

-- The digest of all zeros, which the throwaway signature is over.
abbrev zero_digest : Bytes
zero_digest = replicate 32 0

-- `ChannelAnnouncement::new_signed`
unfoldable pub new_signed :
    (b : Bitcoin) (features chain_hash : Bytes) (short_channel_id : ℕ)
    (node_sk_1 node_sk_2 bitcoin_sk_1 bitcoin_sk_2 : b.SecretKey)
    → ChannelAnnouncement b
unfolding signature_hash
new_signed b features chain_hash short_channel_id node_sk_1 node_sk_2 bitcoin_sk_1 bitcoin_sk_2 =
    let placeholder = b.sign_ecdsa zero_digest node_sk_1 in
    let ann : ChannelAnnouncement b = record {
      node_signature_1 = placeholder;
      node_signature_2 = placeholder;
      bitcoin_signature_1 = placeholder;
      bitcoin_signature_2 = placeholder;
      features = features;
      chain_hash = chain_hash;
      short_channel_id = short_channel_id;
      node_id_1 = b.from_secret_key node_sk_1;
      node_id_2 = b.from_secret_key node_sk_2;
      bitcoin_key_1 = b.from_secret_key bitcoin_sk_1;
      bitcoin_key_2 = b.from_secret_key bitcoin_sk_2;
    } in
    let msg = signature_hash b ann in
    record ann {
      node_signature_1 = b.sign_ecdsa msg node_sk_1;
      node_signature_2 = b.sign_ecdsa msg node_sk_2;
      bitcoin_signature_1 = b.sign_ecdsa msg bitcoin_sk_1;
      bitcoin_signature_2 = b.sign_ecdsa msg bitcoin_sk_2;
    }

unfoldable pub scid_str : (b : Bitcoin) → ChannelAnnouncement b → Text
unfolding scid_text
scid_str b m = scid_text m.short_channel_id
