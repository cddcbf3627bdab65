-- ===== src/GossipSim/Daemon/Refinement.antt =====
-- The commands of ln-gossip-sim/src/bin/simd.rs move the table of peers by the steps of Daemon/Steps.
use ln_gossip_sim.Base.{
  ℕ, ◌≡◌, Bool, true, false, Bool-cases, Option, List, [], ◌∷◌, length, inl, inr, get_elem?,
  Outcome, ok, err, panic, stuck, map_err, Bytes, if◌then◌else◌,
}
use ln_gossip_sim.Base.State.{Method, continue, ◌>>◌, return, call, ok_or}
use ln_gossip_sim.Base.Text.{Text, chars, same, split_whitespace}
use ln_gossip_sim.Base.Options.{Option-cases}
use ln_gossip_sim.Bitcoin.{Bitcoin}
use ln_gossip_sim.Crypto.{Crypto}
use ln_gossip_sim.GossipSim.Tcp.{Tcp}
use ln_gossip_sim.GossipSim.Host.{Host}
use ln_gossip_sim.GossipSim.Conn.{NoiseWriter, NoiseReader}
use ln_gossip_sim.GossipSim.Keys.{node_secret, node_secret_2}
use ln_gossip_sim.Bolt.Message
use ln_gossip_sim.Bolt.Message.{Message}
use ln_gossip_sim.Noise.Cipher.{first_two}
use ln_gossip_sim.GossipSim.Conn.Connect.{connect}
use ln_gossip_sim.GossipSim.Daemon.{
  Answer, Daemon, PeerTable, running, on_host, send_to, connection_failed, mined, funding_failed,
}
use ln_gossip_sim.GossipSim.Daemon.Table.{get, disconnect, spawn}
use ln_gossip_sim.GossipSim.Daemon.Commands.{
  to_wire, parse_pubkey, writer_of, spawn_reader, register, drop_peer, cmd_connect, cmd_disconnect,
  cmd_send_message, cmd_peers, cmd_info, blocking, cmd_mine,
}
use ln_gossip_sim.GossipSim.Daemon.Announce.{
  ordered_secrets, send_message, fund, cmd_send_channel_announcement,
  cmd_send_channel_announcement_2, cmd_send_channel_update, cmd_send_node_announcement,
}
use ln_gossip_sim.GossipSim.Daemon.Dispatch.{shutdown, run, handle_command}
use ln_gossip_sim.GossipSim.Daemon.Steps.{
  spawned, inserted, disconnected, Trace, stay, onward, Trace-trans, Reachable,
}
use ln_gossip_sim.GossipSim.Bitcoind
use ln_gossip_sim.GossipSim.Scid.{parse_scid}
use ln_gossip_sim.Base.Decimal.{parse_u64}
use ln_gossip_sim.GossipSim.Daemon.Steps.Entries.{Owns-last}
pub mod Commands

module _ {b : Bitcoin} {t : Tcp} {h : Host b t} where
  -- The method ends in a state of the table that steps lead to, and a stop that was asked for stays.
  pub data Walks {E A : Type 0} (d₀ : Daemon b t h) : Outcome E A × Daemon b t h → Type 0 where
    walks :
        {r : Outcome E A} {d : Daemon b t h}
        → Trace b d₀.table d.table
        → (d₀.stop ≡ true → d.stop ≡ true)
        → Walks d₀ (r, d)

  pub Walks-Trace :
      {E A : Type 0} {d₀ : Daemon b t h} {m : Outcome E A × Daemon b t h}
      → Walks d₀ m
      → Trace b d₀.table m.1.table
  Walks-Trace (walks p q) = p

  pub Walks-stop :
      {E A : Type 0} {d₀ : Daemon b t h} {m : Outcome E A × Daemon b t h}
      → Walks d₀ m
      → d₀.stop ≡ true
      → m.1.stop ≡ true
  Walks-stop (walks p q) = q

  Walks-after :
      {E A : Type 0} {d₀ d₁ : Daemon b t h} {m : Outcome E A × Daemon b t h}
      → Trace b d₀.table d₁.table
      → (d₀.stop ≡ true → d₁.stop ≡ true)
      → Walks d₁ m
      → Walks d₀ m
  Walks-after p q (walks p' q') = walks (Trace-trans b p p') (λ e. q' (q e))

  pub Walks-continue :
      {E A B : Type 0} {d₀ : Daemon b t h} {m : Outcome E A × Daemon b t h}
      {f : A → Method (Daemon b t h) E B}
      → Walks d₀ m
      → ((a : A) (d : Daemon b t h) → Walks d (f a d))
      → Walks d₀ (continue m f)
  Walks-continue (walks {r = ok a} {d = d} p q) k = Walks-after p q (k a d)
  Walks-continue (walks {r = err e} p q) k = walks p q
  Walks-continue (walks {r = panic} p q) k = walks p q
  Walks-continue (walks {r = stuck} p q) k = walks p q

  -- A call that leaves the daemon alone, and one that changes only what lies outside of it.
  pub call-Walks : {E A : Type 0} (r : Outcome E A) (d : Daemon b t h) → Walks d (call r d)
  call-Walks r d = walks stay (λ e. e)

  pub found-Walks :
      {A : Type 0} (found : Option A) (e : Answer b) (d : Daemon b t h)
      → Walks d (call (ok_or found e) d)
  found-Walks found e d = call-Walks (ok_or found e) d

  pub on_host-Walks :
      {A : Type 0} (request : h.State → A × h.State) (d : Daemon b t h)
      → Walks d (on_host b t h request d)
  on_host-Walks request d = walks stay (λ e. e)
