-- ===== src/GossipSim/Daemon.antt =====
-- ln-gossip-sim/src/bin/simd.rs: the state of the daemon. `Arc<Mutex<NoiseWriter>>`, which the table of
-- peers shares with a reader task, is the index of the writer in a store that only grows, and the
-- handle of a reader task is its index in a list of the tasks. A command awaits its locks; between
-- two of them other tasks may run, see Daemon/Steps.
use ln_gossip_sim.Base.{
  ℕ, zero, suc, Bool, true, false, Option, none, some, List, [], ◌∷◌, ◌++◌, length, get_elem?,
  if◌then◌else◌, Bytes, Outcome, ok, err, panic, stuck, map_err,
}
use ln_gossip_sim.Base.State.{Method, continue, ◌>>=◌, ◌>>◌, return, throw, call, ok_or}
use ln_gossip_sim.Base.Text.{Text}
use ln_gossip_sim.Bitcoin.{Bitcoin}
use ln_gossip_sim.Crypto.{Crypto}
use ln_gossip_sim.Bolt.Types.{BoltError}
use ln_gossip_sim.Noise.NoiseError.{NoiseError}
use ln_gossip_sim.GossipSim.Tcp.{Tcp}
use ln_gossip_sim.GossipSim.Host.{Host}
use ln_gossip_sim.GossipSim.Conn.{NoiseWriter, NoiseReader, send}
use ln_gossip_sim.GossipSim.Bitcoind.{Error}
pub mod Table
pub mod PeerMessage
pub mod Commands
pub mod Announce
pub mod Dispatch
pub mod Control
pub mod Main
pub mod Steps
pub mod Refinement
pub mod Writing
pub mod Sending
pub mod Forwarding
pub mod Replies
pub mod Reading

-- What a command answers. The texts around the values are left out.
pub data Answer (b : Bitcoin) : Type 0 where
  usage invalid_pubkey invalid_address invalid_scid invalid_message_hex : Answer b
  connection_failed send_failed : NoiseError → Answer b
  connected disconnected not_connected : b.PublicKey → Answer b
  funding_failed : Error → Answer b
  task_failed : Answer b
  sent_announcement sent_announcement_2 sent_update : (scid : Text) → b.PublicKey → Answer b
  sent_node_announcement : (node_id : b.PublicKey) → b.PublicKey → Answer b
  unknown_message_type : ℕ → Answer b
  decode_failed : BoltError → Answer b
  sent_message_type : ℕ → b.PublicKey → Answer b
  peer_list : List b.PublicKey → Answer b
  info : (node_id : b.PublicKey) (peers blocks : ℕ) (hash balance : Text) → Answer b
  mined : Text → Answer b
  stopping : Answer b
  unknown_command : Text → Answer b
  nothing : Answer b

pub record Peer : Type 0 where
  pub writer : ℕ
  pub read_handle : ℕ

-- A reader task is in its loop; or it has left the loop and waits for the table; or its abort was asked for,
-- and it goes on to its next await or to its end; or it is over.
pub data Task : Type 0 where
  running leaving aborting over : Task

-- The connected peers, each reader task with the peer that it was spawned for, and the commands that have
-- spawned a reader task and wait for the table to put in the peer: the peer and the number of its task.
pub record PeerTable (b : Bitcoin) : Type 0 where
  pub peers : List (b.PublicKey × Peer)
  pub tasks : List (b.PublicKey × Task)
  pub connecting : List (b.PublicKey × ℕ)

module _ (b : Bitcoin) (t : Tcp) (h : Host b t) where
  pub record Daemon : Type 0 where
    pub node_id : b.PublicKey
    pub table : PeerTable b
    pub writers : List (NoiseWriter t)
    pub readers : List (NoiseReader t)
    pub bitcoind : h.Client
    pub stop : Bool
    pub host : h.State

  abbrev pub Command : Type 0 → Type 0
  Command A = Method Daemon (Answer b) A

  -- A call outside of the daemon that cannot fail.
  abbrev pub on_host : {A : Type 0} → (h.State → A × h.State) → Command A
  on_host request d = let (a, s) = request d.host in (ok a, record d { host = s })

-- `xs[i] = a`
abbrev pub set_at : {A : Type 0} → ℕ → A → List A → List A
set_at i a [] = []
set_at zero a (x ∷ xs) = a ∷ xs
set_at (suc i) a (x ∷ xs) = x ∷ set_at i a xs

module _ (b : Bitcoin) (t : Tcp) (h : Host b t) (c : Crypto) where
  -- The lock, the call and the error of `writer.lock().await.send(bytes).await`; the store has the
  -- writer, see Daemon/Steps.
  unfoldable pub send_to : ℕ → Bytes → Command b t h (Unit {0})
  send_to n bytes d = elim (get_elem? d.writers n) [
    | none ↦ (stuck, d)
    | some w ↦
        let (sent, w') = send t c bytes w in
        (map_err send_failed sent, record d { writers = set_at n w' d.writers })
  ]
