-- ===== src/Bolt/NodeAnnouncement.antt =====
-- bolt/src/node_announcement.rs. A digest is its bytes.
use ln_gossip_sim.Base.{ℕ, Bool, [], replicate, ◌++◌, Bytes, Outcome, ok, ◌>>=◌}
use ln_gossip_sim.Bitcoin.{Bitcoin}
use ln_gossip_sim.Bolt.Types.{BoltError}
use ln_gossip_sim.Bolt.Wire.{signature, vec, u32, public_key, array}
pub mod RoundTrip
pub mod Signing

pub record NodeAnnouncement (b : Bitcoin) : Type 0 where
  pub signature : b.Signature
  pub features : Bytes
  pub timestamp : ℕ
  pub node_id : b.PublicKey
  pub rgb_color : Bytes
  pub alias : Bytes
  pub addresses : Bytes

unfoldable pub encode : (b : Bitcoin) → NodeAnnouncement b → Bytes
encode b m =
    (signature b).write m.signature
    ++ (vec.write m.features
        ++ (u32.write m.timestamp
            ++ ((public_key b).write m.node_id
                ++ ((array 3).write m.rgb_color
                    ++ ((array 32).write m.alias ++ vec.write m.addresses)))))

unfoldable pub decode : (b : Bitcoin) → Bytes → Outcome BoltError (NodeAnnouncement b)
decode b payload = do
  (signature, cursor) ← (signature b).read payload
  (features, cursor) ← vec.read cursor
  (timestamp, cursor) ← u32.read cursor
  (node_id, cursor) ← (public_key b).read cursor
  (rgb_color, cursor) ← (array 3).read cursor
  (alias, cursor) ← (array 32).read cursor
  (addresses, cursor) ← vec.read cursor
  ok (record {
    signature = signature;
    features = features;
    timestamp = timestamp;
    node_id = node_id;
    rgb_color = rgb_color;
    alias = alias;
    addresses = addresses;
  })

-- The digest that is signed, over the fields behind the signatures.
unfoldable pub signature_hash : (b : Bitcoin) → NodeAnnouncement b → Bytes
signature_hash b m = b.sha256d (
    vec.write m.features
    ++ (u32.write m.timestamp
        ++ ((public_key b).write m.node_id
            ++ ((array 3).write m.rgb_color
                ++ ((array 32).write m.alias ++ vec.write m.addresses)))))

-- The digest of all zeros, which the throwaway signature is over.
abbrev zero_digest : Bytes
zero_digest = replicate 32 0

unfoldable pub verify : (b : Bitcoin) → NodeAnnouncement b → Bool
verify b m = b.verify_ecdsa (signature_hash b m) m.signature m.node_id

-- `NodeAnnouncement::new_signed`
unfoldable pub new_signed :
    (b : Bitcoin) (features : Bytes) (timestamp : ℕ) (rgb_color alias addresses : Bytes)
    → b.SecretKey
    → NodeAnnouncement b
new_signed b features timestamp rgb_color alias addresses node_sk =
    let ann : NodeAnnouncement b = record {
      signature = b.sign_ecdsa zero_digest node_sk;
      features = features;
      timestamp = timestamp;
      node_id = b.from_secret_key node_sk;
      rgb_color = rgb_color;
      alias = alias;
      addresses = addresses;
    } in
    record ann { signature = b.sign_ecdsa (signature_hash b ann) node_sk }

unfoldable pub default_signed : (b : Bitcoin) → b.SecretKey → NodeAnnouncement b
unfolding new_signed
default_signed b node_sk = new_signed b [] 0 (replicate 3 0) (replicate 32 0) [] node_sk
