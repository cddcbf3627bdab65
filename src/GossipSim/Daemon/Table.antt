-- ===== src/GossipSim/Daemon/Table.antt =====
-- ln-gossip-sim/src/bin/simd.rs: what commands and reader tasks do to the table of peers, a
-- `HashMap` from public keys that is locked for each of these functions.
use ln_gossip_sim.Base.{
  ℕ, Option, none, some, List, [], ◌∷◌, ◌++◌, length, get_elem?, if◌then◌else◌, ◌==◌,
}
use ln_gossip_sim.Bitcoin.{Bitcoin}
use ln_gossip_sim.GossipSim.Daemon.{Peer, PeerTable, Task, running, leaving, aborting, over, set_at}

module _ (b : Bitcoin) where
  abbrev pub Peers : Type 0
  Peers = List (b.PublicKey × Peer)

  -- `HashMap::get`, `remove` and `insert`
  unfoldable pub get : b.PublicKey → Peers → Option Peer
  get k [] = none
  get k ((l, peer) ∷ peers) = if b.same_key k l then some peer else get k peers

  unfoldable pub remove : b.PublicKey → Peers → Peers
  remove k [] = []
  remove k ((l, peer) ∷ peers) =
      let rest = remove k peers in if b.same_key k l then rest else (l, peer) ∷ rest

  unfoldable pub insert : b.PublicKey → Peer → Peers → Peers
  unfolding remove
  insert k peer peers = (k, peer) ∷ remove k peers

  unfoldable pub new : PeerTable b
  new = record { peers = []; tasks = []; connecting = [] }

  -- `tokio::spawn` of the reader task of a peer: the number of the task, and the table behind it.
  unfoldable pub spawn : b.PublicKey → PeerTable b → ℕ × PeerTable b
  spawn k s = (
    length s.tasks,
    record s {
      tasks = s.tasks ++ (k, running) ∷ [];
      connecting = (k, length s.tasks) ∷ s.connecting;
    },
  )

  -- The commands that wait, without the one of the task.
  unfoldable pub forget : ℕ → List (b.PublicKey × ℕ) → List (b.PublicKey × ℕ)
  forget n [] = []
  forget n ((k, m) ∷ waiting) =
      let rest = forget n waiting in if n == m then rest else (k, m) ∷ rest

  -- `peers.insert(pubkey, Peer { writer, read_handle })`
  unfoldable pub insert_peer : b.PublicKey → ℕ → PeerTable b → PeerTable b
  unfolding insert forget
  insert_peer k n s = record s {
    peers = insert k (record { writer = n; read_handle = n }) s.peers;
    connecting = forget n s.connecting;
  }

  -- The task breaks out of its loop.
  abbrev leave : Task → Task
  leave running = leaving
  leave leaving = leaving
  leave aborting = aborting
  leave over = over

  abbrev pub left : b.PublicKey × Task → b.PublicKey × Task
  left (k, task) = (k, leave task)

  abbrev pub change_task : (b.PublicKey × Task → b.PublicKey × Task) → ℕ → PeerTable b → PeerTable b
  change_task f n s = elim (get_elem? s.tasks n) [
    | none ↦ s
    | some task ↦ record s { tasks = set_at n (f task) s.tasks }
  ]

  unfoldable pub break_loop : ℕ → PeerTable b → PeerTable b
  break_loop n s = change_task left n s

  -- `daemon.peers.lock().await.remove(&peer_id)`, the last thing that a task does.
  unfoldable pub finish : b.PublicKey → ℕ → PeerTable b → PeerTable b
  unfolding remove
  finish k n s = record s { peers = remove k s.peers; tasks = set_at n (k, over) s.tasks }

  -- `read_handle.abort()` asks for the end of a task that is not over.
  abbrev abort : Task → Task
  abort running = aborting
  abort leaving = aborting
  abort aborting = aborting
  abort over = over

  abbrev pub aborted : b.PublicKey × Task → b.PublicKey × Task
  aborted (k, task) = (k, abort task)

  -- A task of which the abort was asked for ends at an await.
  abbrev drop_aborting : Task → Task
  drop_aborting running = running
  drop_aborting leaving = leaving
  drop_aborting aborting = over
  drop_aborting over = over

  abbrev pub dropped : b.PublicKey × Task → b.PublicKey × Task
  dropped (k, task) = (k, drop_aborting task)

  unfoldable pub drop_task : ℕ → PeerTable b → PeerTable b
  drop_task n s = change_task dropped n s

  -- `peers.remove(&pubkey)`, and the abort of the task that was found.
  unfoldable pub disconnect : b.PublicKey → PeerTable b → Option (PeerTable b)
  unfolding get remove
  disconnect k s = elim (get k s.peers) [
    | none ↦ none
    | some peer ↦
        some (change_task aborted peer.read_handle (record s { peers = remove k s.peers }))
  ]
