-- ===== src/GossipSim/Daemon/Steps.antt =====
-- ln-gossip-sim/src/bin/simd.rs: how the table of peers moves. Commands and reader tasks interleave, and each
-- takes the lock on the table for one of these steps; a command that connects takes it twice, and
-- whatever happens to the task in between.
use ln_gossip_sim.Base.{
  ℕ, zero, suc, ◌≡◌, refl, sym, ◌∙◌, ap, Option, none, some, List, [], ◌∷◌, ◌++◌, length, get_elem?,
  All, Bool, true, false, Bool-cases, inl, inr,
}
use ln_gossip_sim.Base.Options.{Option-cases}
use ln_gossip_sim.Bitcoin.{Bitcoin, KeyLaws}
use ln_gossip_sim.GossipSim.Daemon.{Peer, PeerTable, Task, running, leaving, aborting, over, set_at}
use ln_gossip_sim.GossipSim.Daemon.Table.{
  Peers, get, remove, insert, new, spawn, insert_peer, change_task, break_loop, finish, drop_task,
  disconnect,
}
pub mod Entries
pub mod Invariant
pub mod Races

module _ (b : Bitcoin) where
  -- The task was spawned for this peer.
  abbrev pub Owns : List (b.PublicKey × Task) → b.PublicKey → ℕ → Type 0
  Owns tasks k n = (task : Task) × (get_elem? tasks n ≡ some (k, task))

  -- A command spawns a reader task, and the same command puts the peer in; a task leaves its loop, and takes
  -- itself out of the table, also where its abort was asked for but no await came; or it is cancelled
  -- at an await; a command disconnects a peer.
  pub data Step : PeerTable b → PeerTable b → Type 0 where
    spawned : (k : b.PublicKey) (s : PeerTable b) → Step s (spawn b k s).1
    inserted :
        (k : b.PublicKey) (n i : ℕ) (s : PeerTable b)
        → get_elem? s.connecting i ≡ some (k, n)
        → Step s (insert_peer b k n s)
    broke : (n : ℕ) (s : PeerTable b) → Step s (break_loop b n s)
    finished :
        (k : b.PublicKey) (n : ℕ) (s : PeerTable b)
        → get_elem? s.tasks n ≡ some (k, leaving)
        → Step s (finish b k n s)
    finished_first :
        (k : b.PublicKey) (n : ℕ) (s : PeerTable b)
        → get_elem? s.tasks n ≡ some (k, aborting)
        → Step s (finish b k n s)
    cancelled : (n : ℕ) (s : PeerTable b) → Step s (drop_task b n s)
    disconnected : (k : b.PublicKey) (s s' : PeerTable b) → disconnect b k s ≡ some s' → Step s s'

  -- Any number of steps, and the states that the daemon can get to.
  pub data Trace : PeerTable b → PeerTable b → Type 0 where
    stay : {s : PeerTable b} → Trace s s
    onward : {s s' s'' : PeerTable b} → Step s s' → Trace s' s'' → Trace s s''

  abbrev pub Reachable : PeerTable b → Type 0
  Reachable s = Trace (new b) s

  pub Trace-trans : {s s' s'' : PeerTable b} → Trace s s' → Trace s' s'' → Trace s s''
  Trace-trans stay q = q
  Trace-trans (onward step p) q = onward step (Trace-trans p q)

  -- No key stands in the table twice.
  abbrev pub Distinct : Peers b → Type 0
  Distinct [] = Unit
  Distinct ((k, peer) ∷ peers) = (get b k peers ≡ none) × Distinct peers

  -- An entry is about one connection, and that one was made to the peer of its key.
  abbrev pub IsEntry : List (b.PublicKey × Task) → b.PublicKey × Peer → Type 0
  IsEntry tasks (k, peer) = (peer.writer ≡ peer.read_handle) × Owns tasks k peer.read_handle

  pub record Consistent (s : PeerTable b) : Type 0 where
    pub entries : All (IsEntry s.tasks) s.peers
    pub distinct : Distinct s.peers
    pub waiting : All (λ (k, n). Owns s.tasks k n) s.connecting
