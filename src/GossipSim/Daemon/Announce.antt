-- ===== src/GossipSim/Daemon/Announce.antt =====
-- ln-gossip-sim/src/bin/simd.rs: the commands that announce channels and nodes to a peer.
use ln_gossip_sim.Base.{ℕ, List, [], ◌∷◌, if◌then◌else◌, Bytes}
use ln_gossip_sim.Base.State.{◌>>=◌, ◌>>◌, return, throw, call, ok_or}
use ln_gossip_sim.Base.Text.{Text}
use ln_gossip_sim.Bitcoin.{Bitcoin}
use ln_gossip_sim.Crypto.{Crypto}
use ln_gossip_sim.Bolt.Message
use ln_gossip_sim.Bolt.Message.{Message, channel_announcement, channel_update, node_announcement}
use ln_gossip_sim.Bolt.ChannelAnnouncement
use ln_gossip_sim.Bolt.ChannelAnnouncement.{ChannelAnnouncement}
use ln_gossip_sim.Bolt.ChannelUpdate
use ln_gossip_sim.Bolt.ChannelUpdate.{ChannelUpdate}
use ln_gossip_sim.Bolt.NodeAnnouncement
use ln_gossip_sim.Bolt.NodeAnnouncement.{NodeAnnouncement}
use ln_gossip_sim.GossipSim.Tcp.{Tcp}
use ln_gossip_sim.GossipSim.Host.{Host}
use ln_gossip_sim.GossipSim.Keys.{node_secret, node_secret_2}
use ln_gossip_sim.GossipSim.Scid.{parse_scid}
use ln_gossip_sim.GossipSim.Bitcoind.{FundingKeys, mine_to_funding, regtest_chain_hash}
use ln_gossip_sim.GossipSim.Daemon.{
  Answer, usage, invalid_pubkey, invalid_scid, funding_failed, sent_announcement,
  sent_announcement_2, sent_update, sent_node_announcement, Command, send_to,
}
use ln_gossip_sim.GossipSim.Daemon.Commands.{parse_pubkey, writer_of, blocking}

-- A `channel_announcement` without features on the test chain.
unfoldable pub announcement :
    (b : Bitcoin) (scid : ℕ) (node_sk_1 node_sk_2 bitcoin_sk_1 bitcoin_sk_2 : b.SecretKey)
    → ChannelAnnouncement b
announcement b scid node_sk_1 node_sk_2 bitcoin_sk_1 bitcoin_sk_2 =
    ChannelAnnouncement.new_signed b [] regtest_chain_hash scid node_sk_1 node_sk_2 bitcoin_sk_1
      bitcoin_sk_2

-- The update that the daemon sends for a channel.
unfoldable pub update : (b : Bitcoin) → ℕ → b.SecretKey → ChannelUpdate b
update b scid node_sk_1 =
    ChannelUpdate.new_signed b regtest_chain_hash scid 0 1 0 40 1 1000 1 4294967295 node_sk_1

module _ (b : Bitcoin) (t : Tcp) (h : Host b t) (c : Crypto)
    (ecdh : b.SecretKey → b.PublicKey → Bytes) where
  -- The two node secrets, that of the lesser node ID first.
  unfoldable pub ordered_secrets : Command b t h (b.SecretKey × b.SecretKey)
  ordered_secrets = do
    sk_a ← call (node_secret b)
    sk_b ← call (node_secret_2 b)
    if b.lt_key (b.from_secret_key sk_a) (b.from_secret_key sk_b)
        then return (sk_a, sk_b)
        else return (sk_b, sk_a)

  -- `writer.lock().await.send(&msg.encode()).await`
  unfoldable pub send_message : ℕ → Message b → Command b t h (Unit {0})
  send_message writer m = do bytes ← call (Message.encode b m); send_to b t h c writer bytes

  -- Six blocks to a fresh funding address.
  unfoldable pub fund : Command b t h (Text × FundingKeys b t h × ℕ)
  fund = blocking b t h c ecdh funding_failed (λ client. mine_to_funding b t h client 6)

  unfoldable pub cmd_send_channel_announcement : List Text → Command b t h (Answer b)
  unfolding fund send_message
  cmd_send_channel_announcement (name ∷ key ∷ []) = do
    peer_pubkey ← call (ok_or (parse_pubkey b t h c ecdh key) invalid_pubkey)
    writer ← writer_of b t h c ecdh peer_pubkey
    (_, funding, scid) ← fund
    our_sk ← call (node_secret b)
    let ann = announcement b scid our_sk our_sk funding.sk1 funding.sk2
    send_message writer (channel_announcement ann)
    return (sent_announcement (ChannelAnnouncement.scid_str b ann) peer_pubkey)
  cmd_send_channel_announcement _ = throw usage

  unfoldable pub cmd_send_channel_announcement_2 : List Text → Command b t h (Answer b)
  unfolding fund send_message ordered_secrets
  cmd_send_channel_announcement_2 (name ∷ key ∷ []) = do
    peer_pubkey ← call (ok_or (parse_pubkey b t h c ecdh key) invalid_pubkey)
    writer ← writer_of b t h c ecdh peer_pubkey
    (_, funding, scid) ← fund
    (node_sk_1, node_sk_2) ← ordered_secrets
    let ann = announcement b scid node_sk_1 node_sk_2 funding.sk1 funding.sk2
    send_message writer (channel_announcement ann)
    return (sent_announcement_2 (ChannelAnnouncement.scid_str b ann) peer_pubkey)
  cmd_send_channel_announcement_2 _ = throw usage

  unfoldable pub cmd_send_channel_update : List Text → Command b t h (Answer b)
  unfolding send_message ordered_secrets
  cmd_send_channel_update (name ∷ key ∷ scid_text ∷ []) = do
    peer_pubkey ← call (ok_or (parse_pubkey b t h c ecdh key) invalid_pubkey)
    scid ← call (ok_or (parse_scid scid_text) invalid_scid)
    writer ← writer_of b t h c ecdh peer_pubkey
    (node_sk_1, _) ← ordered_secrets
    let upd = update b scid node_sk_1
    send_message writer (channel_update upd)
    return (sent_update (ChannelUpdate.scid_str b upd) peer_pubkey)
  cmd_send_channel_update _ = throw usage

  unfoldable pub cmd_send_node_announcement : List Text → Command b t h (Answer b)
  unfolding send_message ordered_secrets
  cmd_send_node_announcement (name ∷ key ∷ []) = do
    peer_pubkey ← call (ok_or (parse_pubkey b t h c ecdh key) invalid_pubkey)
    writer ← writer_of b t h c ecdh peer_pubkey
    (node_sk_1, _) ← ordered_secrets
    let ann = NodeAnnouncement.default_signed b node_sk_1
    send_message writer (node_announcement ann)
    return (sent_node_announcement ann.node_id peer_pubkey)
  cmd_send_node_announcement _ = throw usage
