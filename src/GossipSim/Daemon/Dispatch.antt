-- ===== src/GossipSim/Daemon/Dispatch.antt =====
-- ln-gossip-sim/src/bin/simd.rs: a line of the control socket is taken apart and dispatched.
use ln_gossip_sim.Base.{
  true, false, List, [], ◌∷◌, if◌then◌else◌, Bytes, ok, err, panic, stuck, Outcome,
}
use ln_gossip_sim.Base.State.{◌>>◌, return, modify}
use ln_gossip_sim.Base.Text.{Text, chars, same, split_whitespace}
use ln_gossip_sim.Bitcoin.{Bitcoin}
use ln_gossip_sim.Crypto.{Crypto}
use ln_gossip_sim.GossipSim.Tcp.{Tcp}
use ln_gossip_sim.GossipSim.Host.{Host}
use ln_gossip_sim.GossipSim.Keys.{node_id}
use ln_gossip_sim.GossipSim.Daemon.{Answer, stopping, unknown_command, nothing, Daemon, Command}
use ln_gossip_sim.GossipSim.Daemon.Table
use ln_gossip_sim.GossipSim.Daemon.Commands.{
  cmd_connect, cmd_disconnect, cmd_send_message, cmd_peers, cmd_info, cmd_mine,
}
use ln_gossip_sim.GossipSim.Daemon.Announce.{
  cmd_send_channel_announcement, cmd_send_channel_announcement_2, cmd_send_channel_update,
  cmd_send_node_announcement,
}

module _ (b : Bitcoin) (t : Tcp) (h : Host b t) (c : Crypto)
    (ecdh : b.SecretKey → b.PublicKey → Bytes) where
  -- `Daemon::new`
  unfoldable pub new : {E : Type 0} → h.Client → h.State → Outcome E (Daemon b t h)
  new client host = elim (node_id b) [
    | ok id ↦ ok (record {
      node_id = id;
      table = Table.new b;
      writers = [];
      readers = [];
      bitcoind = client;
      stop = false;
      host = host;
    })
    | err e ↦ err e
    | panic ↦ panic
    | stuck ↦ stuck
  ]

  -- `let _ = self.stop_tx.send(true);`
  unfoldable pub shutdown : Command b t h (Unit {0})
  shutdown = modify (λ d. record d { stop = true })

  unfoldable pub run : List Text → Command b t h (Answer b)
  unfolding shutdown
  run [] = return nothing
  run (name ∷ rest) =
      let parts = name ∷ rest in
      if same name (chars "connect")
      then cmd_connect b t h c ecdh parts
      else if same name (chars "disconnect")
      then cmd_disconnect b t h c ecdh parts
      else if same name (chars "sendchannelannouncement")
      then cmd_send_channel_announcement b t h c ecdh parts
      else if same name (chars "sendchannelannouncement2")
      then cmd_send_channel_announcement_2 b t h c ecdh parts
      else if same name (chars "sendchannelupdate")
      then cmd_send_channel_update b t h c ecdh parts
      else if same name (chars "sendnodeannouncement")
      then cmd_send_node_announcement b t h c ecdh parts
      else if same name (chars "sendmessage")
      then cmd_send_message b t h c ecdh parts
      else if same name (chars "peers")
      then cmd_peers b t h c ecdh
      else if same name (chars "info")
      then cmd_info b t h c ecdh
      else if same name (chars "mine")
      then cmd_mine b t h c ecdh parts
      else if same name (chars "stop")
      then (shutdown >> return stopping)
      else return (unknown_command name)

  unfoldable pub handle_command : Text → Command b t h (Answer b)
  unfolding run
  handle_command line = run (split_whitespace line)
