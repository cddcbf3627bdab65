-- ===== src/GossipSim/Keys.antt =====
-- ln-gossip-sim/src/keys.rs: the two secrets of the node.
use ln_gossip_sim.Base.{replicate, Bytes, Outcome, ok, ◌>>=◌}
use ln_gossip_sim.Base.State.{expect}
use ln_gossip_sim.Bitcoin.{Bitcoin}

abbrev pub seed : Bytes
seed = replicate 32 0x11

abbrev pub seed_2 : Bytes
seed_2 = replicate 32 0x22

unfoldable pub node_secret : {E : Type 0} → (b : Bitcoin) → Outcome E b.SecretKey
node_secret b = expect (b.secret_key_from_slice seed)

unfoldable pub node_secret_2 : {E : Type 0} → (b : Bitcoin) → Outcome E b.SecretKey
node_secret_2 b = expect (b.secret_key_from_slice seed_2)

unfoldable pub node_id : {E : Type 0} → (b : Bitcoin) → Outcome E b.PublicKey
unfolding node_secret
node_id b = do sk ← node_secret b; ok (b.from_secret_key sk)
