-- ===== src/GossipSim/Daemon/Main.antt =====
-- ln-gossip-sim/src/bin/simd.rs: `main`, and the tasks of the clients of the control socket, as steps. A step
-- handles one line of one client, from the call of `handle_command` to its answer; where commands and
-- reader tasks interleave inside of it, see Daemon/Steps.
use ln_gossip_sim.Base.{
  ℕ, ◌≡◌, Bool, true, false, Option, none, if◌then◌else◌, List, [], ◌∷◌, ◌++◌, some, get_elem?,
  Bytes, Outcome, ok, err, panic, stuck,
}
use ln_gossip_sim.Base.Text.{Text}
use ln_gossip_sim.Bitcoin.{Bitcoin}
use ln_gossip_sim.Crypto.{Crypto}
use ln_gossip_sim.GossipSim.Tcp.{Tcp}
use ln_gossip_sim.GossipSim.Host.{Host}
use ln_gossip_sim.GossipSim.Bitcoind
use ln_gossip_sim.GossipSim.Bitcoind.{Error}
use ln_gossip_sim.GossipSim.Daemon.{Answer, Daemon, set_at}
use ln_gossip_sim.GossipSim.Daemon.Dispatch.{new, shutdown, handle_command}
use ln_gossip_sim.GossipSim.Daemon.Steps.{Step}
pub mod Stopping

-- The daemon, what each client has still to say, and whether `main` has left its loop.
pub record Running (b : Bitcoin) (t : Tcp) (h : Host b t) : Type 0 where
  pub daemon : Daemon b t h
  pub clients : List (List Text)
  pub ended : Bool

-- A panic ends the task of the client.
unfoldable pub remaining : {b : Bitcoin} → Outcome (Answer b) (Answer b) → List Text → List Text
remaining (ok a) rest = rest
remaining (err a) rest = rest
remaining panic rest = []
remaining stuck rest = []

module _ (b : Bitcoin) (t : Tcp) (h : Host b t) (c : Crypto)
    (ecdh : b.SecretKey → b.PublicKey → Bytes) where
  -- `main` before its loop, with the daemon that it has made.
  abbrev pub started : Daemon b t h → Running b t h
  started d = record { daemon = d; clients = []; ended = false }

  -- The client of bitcoind, the daemon, and whether the socket is bound; the process exits otherwise.
  unfoldable pub listen : Bool → Outcome Error h.Client × h.State → Option (Running b t h)
  listen bound (ok client, host) = elim (new b t h c ecdh {E = Error} client host) [
    | ok d ↦ if bound then some (started d) else none
    | _ ↦ none
  ]
  listen bound (_, host) = none

  unfoldable pub start :
      (rpc_url rpc_user rpc_pass : Text) (bound : Bool) → h.State → Option (Running b t h)
  unfolding listen
  start rpc_url rpc_user rpc_pass bound host =
      listen bound (Bitcoind.new b t h rpc_url rpc_user rpc_pass host)

  -- The task of client `n` handles a line.
  unfoldable pub handle_line : ℕ → Text → List Text → Running b t h → Running b t h
  unfolding remaining
  handle_line n line rest s =
      let (outcome, d) = handle_command b t h c ecdh line s.daemon in
      record s { daemon = d; clients = set_at n (remaining outcome rest) s.clients }

  -- The branch of `ctrl_c`.
  unfoldable pub on_ctrl_c : Running b t h → Running b t h
  on_ctrl_c s = record s { daemon = (shutdown b t h c ecdh s.daemon).1; ended = true }

  -- A turn of the loop, or a step of a task. An accept that fails changes nothing.
  pub data Moves : Running b t h → Running b t h → Type 0 where
    accepted :
        (lines : List Text) (s : Running b t h)
        → s.ended ≡ false
        → Moves s (record s { clients = s.clients ++ lines ∷ [] })
    handled :
        (n : ℕ) (line : Text) (rest : List Text) (s : Running b t h)
        → s.ended ≡ false
        → get_elem? s.clients n ≡ some (line ∷ rest)
        → Moves s (handle_line n line rest s)
    task_moved :
        (d : Daemon b t h) (s : Running b t h)
        → s.ended ≡ false
        → Step b s.daemon.table d.table
        → d.stop ≡ s.daemon.stop
        → Moves s (record s { daemon = d })
    ctrl_c : (s : Running b t h) → s.ended ≡ false → Moves s (on_ctrl_c s)
    stop_changed :
        (s : Running b t h)
        → s.ended ≡ false
        → s.daemon.stop ≡ true
        → Moves s (record s { ended = true })

  -- Any number of moves.
  pub data Run (s : Running b t h) : Running b t h → Type 0 where
    here : Run s s
    next : {s' s'' : Running b t h} → Run s s' → Moves s' s'' → Run s s''
