-- ===== src/GossipSim/Daemon/Main/Stopping.antt =====
-- How `main` of ln-gossip-sim/src/bin/simd.rs ends, and what holds while it runs.
use ln_gossip_sim.Base.{
  Outcome, Bool, err, panic, stuck, ℕ, ◌≡◌, refl, ◌∙◌, arith, true, false, Bool-cases, ◌⊎◌, inl,
  inr, List, ◌∷◌, Bytes, ok, some,
}
use ln_gossip_sim.Base.Text.{Text, chars, same, split_whitespace}
use ln_gossip_sim.Bitcoin.{Bitcoin}
use ln_gossip_sim.Crypto.{Crypto}
use ln_gossip_sim.GossipSim.Tcp.{Tcp}
use ln_gossip_sim.GossipSim.Host.{Host}
use ln_gossip_sim.GossipSim.Bitcoind
use ln_gossip_sim.GossipSim.Bitcoind.{Error}
use ln_gossip_sim.GossipSim.Daemon.Table
use ln_gossip_sim.GossipSim.Daemon.Dispatch.{new, run, shutdown, handle_command}
use ln_gossip_sim.GossipSim.Daemon.Steps.{onward, stay, Trace-trans, Reachable, Consistent}
use ln_gossip_sim.GossipSim.Daemon.Steps.Invariant.{Reachable-Consistent}
use ln_gossip_sim.GossipSim.Daemon.Refinement.Commands.{
  handle_command-Reachable, handle_command-stop,
}
use ln_gossip_sim.GossipSim.Daemon.Main.{
  start, listen, Running, handle_line, on_ctrl_c, Moves, accepted, handled, task_moved, ctrl_c,
  stop_changed, Run, here, next,
}

module _ (b : Bitcoin) (t : Tcp) (h : Host b t) (c : Crypto)
    (ecdh : b.SecretKey → b.PublicKey → Bytes) where
  -- `main` starts with no peers.
  listen-some :
      (bound : Bool) (m : Outcome Error h.Client × h.State) (s : Running b t h)
      → listen b t h c ecdh bound m ≡ some s
      → (s.daemon.table ≡ Table.new b) × (s.ended ≡ false)
  unfolding listen new
  listen-some bound (ok client, host) s e = ground arith
  listen-some bound (err x, host) s e = cc
  listen-some bound (panic, host) s e = cc
  listen-some bound (stuck, host) s e = cc

  handle_line-stop :
      (n : ℕ) (line : Text) (rest more : List Text) (s : Running b t h)
      → split_whitespace line ≡ chars "stop" ∷ more
      → (handle_line b t h c ecdh n line rest s).daemon.stop ≡ true
  unfolding handle_line handle_command run same shutdown
  handle_line-stop n line rest more s e = rw (handle_command, e) refl

  -- A move of `main` keeps every state of the table reachable, and a stop that was asked for.
  Moves-Reachable :
      {s s' : Running b t h}
      → Moves b t h c ecdh s s'
      → Reachable b s.daemon.table
      → Reachable b s'.daemon.table
  unfolding handle_line on_ctrl_c shutdown
  Moves-Reachable (accepted lines s e) p = p
  Moves-Reachable (handled n line rest s e at) p =
      handle_command-Reachable b t h c ecdh line s.daemon p
  Moves-Reachable (task_moved d s e step same) p = Trace-trans b p (onward step stay)
  Moves-Reachable (ctrl_c s e) p = p
  Moves-Reachable (stop_changed s e stopped) p = p

  Moves-stop :
      {s s' : Running b t h}
      → Moves b t h c ecdh s s'
      → s.daemon.stop ≡ true
      → s'.daemon.stop ≡ true
  unfolding handle_line on_ctrl_c shutdown
  Moves-stop (accepted lines s e) p = p
  Moves-stop (handled n line rest s e at) p = handle_command-stop b t h c ecdh line s.daemon p
  Moves-stop (task_moved d s e step same) p = same ∙ p
  Moves-stop (ctrl_c s e) p = refl
  Moves-stop (stop_changed s e stopped) p = p

  -- The loop has ended only where a stop was asked for.
  Moves-ended :
      {s s' : Running b t h} → Moves b t h c ecdh s s' → s'.ended ≡ true → s'.daemon.stop ≡ true
  unfolding handle_line on_ctrl_c shutdown
  Moves-ended (accepted lines s e) p = cc
  Moves-ended (handled n line rest s e at) p = cc
  Moves-ended (task_moved d s e step same) p = cc
  Moves-ended (ctrl_c s e) p = refl
  Moves-ended (stop_changed s e stopped) p = stopped

  -- What holds while `main` runs, and when it has left its loop.
  pub record IsSound (s : Running b t h) : Type 0 where
    pub consistent : Consistent b s.daemon.table
    pub asked : s.ended ≡ true → s.daemon.stop ≡ true

  Run-Reachable :
      {s s' : Running b t h}
      → Reachable b s.daemon.table
      → Run b t h c ecdh s s'
      → Reachable b s'.daemon.table
  Run-Reachable p here = p
  Run-Reachable p (next r m) = Moves-Reachable m (Run-Reachable p r)

  Run-asked :
      {s s' : Running b t h}
      → s.ended ≡ false
      → Run b t h c ecdh s s'
      → s'.ended ≡ true
      → s'.daemon.stop ≡ true
  Run-asked p here q = cc
  Run-asked p (next r m) q = Moves-ended m q

  -- From what `main` starts with, whichever clients connect, whatever lines they send and however their
  -- commands and the reader tasks take turns: no peer stands in the table twice and each entry is about
  -- one connection to the peer of that entry; and `main` has left its loop only where a stop was
  -- asked for.
  pub Run-IsSound :
      (rpc_url rpc_user rpc_pass : Text) (bound : Bool) (host : h.State) (s s' : Running b t h)
      → start b t h c ecdh rpc_url rpc_user rpc_pass bound host ≡ some s
      → Run b t h c ecdh s s'
      → IsSound s'
  unfolding start
  Run-IsSound rpc_url rpc_user rpc_pass bound host s s' e r =
      let (empty, fresh) =
        listen-some bound (Bitcoind.new b t h rpc_url rpc_user rpc_pass host) s e in
      record {
        consistent = Reachable-Consistent b s'.daemon.table (Run-Reachable (rw empty stay) r);
        asked = Run-asked fresh r;
      }

  Run-stop :
      {s s' : Running b t h} → s.daemon.stop ≡ true → Run b t h c ecdh s s' → s'.daemon.stop ≡ true
  Run-stop p here = p
  Run-stop p (next r m) = Moves-stop m (Run-stop p r)

  -- Once a client of a running daemon has said `stop`, whatever else it says on that line: whatever is done
  -- afterwards, `main` has left its loop, or it may leave it by the next turn.
  pub handle_line-Ends :
      (n : ℕ) (line : Text) (rest more : List Text) (s s' : Running b t h)
      → split_whitespace line ≡ chars "stop" ∷ more
      → Run b t h c ecdh (handle_line b t h c ecdh n line rest s) s'
      → (s'.ended ≡ true) ⊎ Moves b t h c ecdh s' (record s' { ended = true })
  handle_line-Ends n line rest more s s' e r = elim (Bool-cases s'.ended) [
    | inl ended ↦ inl ended
    | inr running ↦
        inr (stop_changed s' running (Run-stop (handle_line-stop n line rest more s e) r))
  ]
