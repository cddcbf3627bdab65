-- ===== src/GossipSim/Daemon/Steps/Races.antt =====
-- What the interleaving of ln-gossip-sim/src/bin/simd.rs lets happen to the table of peers.
use ln_gossip_sim.Base.{
  ℕ, suc, ◌<◌, ◌≡◌, ◌∙◌, refl, ap, arith, List, [], ◌∷◌, ◌++◌, none, some, length, length-append,
  get_elem?, Bytes,
}
use mathlib.Core.Path.{subst}
use ln_gossip_sim.Bitcoin.{Bitcoin, KeyLaws}
use ln_gossip_sim.Crypto.{Crypto}
use ln_gossip_sim.GossipSim.Tcp.{Tcp}
use ln_gossip_sim.GossipSim.Host.{Host}
use ln_gossip_sim.GossipSim.Conn.{NoiseWriter, NoiseReader}
use ln_gossip_sim.GossipSim.Daemon.{Peer, PeerTable, Daemon, Task, running, leaving, over, set_at}
use ln_gossip_sim.GossipSim.Daemon.Table.{
  Peers, get, remove, insert, spawn, insert_peer, break_loop, finish, disconnect, change_task,
}
use ln_gossip_sim.GossipSim.Daemon.Commands.{spawn_reader, register}
use ln_gossip_sim.GossipSim.Daemon.Steps.{inserted, broke, finished, Trace, stay, onward}
use ln_gossip_sim.GossipSim.Daemon.Steps.Entries.{
  remove_same, Owns-last, set_at-same, set_at-other, get_elem?-append,
}

module _ (b : Bitcoin) where
  leaves :
      (s : PeerTable b) (n : ℕ) (k : b.PublicKey)
      → get_elem? s.tasks n ≡ some (k, running)
      → break_loop b n s ≡ record s { tasks = set_at n (k, leaving) s.tasks }
  unfolding break_loop
  leaves s n k e = rw (change_task, e) refl

  -- A reader task breaks out of its loop, and takes its peer out of the table.
  abbrev pub end_task : b.PublicKey → ℕ → PeerTable b → PeerTable b
  end_task k n s = finish b k n (break_loop b n s)

  ended :
      (s : PeerTable b) (n : ℕ) (k : b.PublicKey)
      → get_elem? s.tasks n ≡ some (k, running)
      → end_task k n s ≡ record s {
        peers = remove b k s.peers;
        tasks = set_at n (k, over) (set_at n (k, leaving) s.tasks);
      }
  unfolding finish
  ended s n k e = ap (finish b k n) (leaves s n k e)

  -- Both are steps that a running task can take.
  end_task-Step :
      (s : PeerTable b) (n : ℕ) (k : b.PublicKey)
      → get_elem? s.tasks n ≡ some (k, running)
      → {s' : PeerTable b} → Trace b (end_task k n s) s'
      → Trace b s s'
  end_task-Step s n k e p =
      let at : get_elem? (break_loop b n s).tasks n ≡ some (k, leaving) =
        ap (λ x. get_elem? x.tasks n) (leaves s n k e)
        ∙ set_at-same b s.tasks n k k running leaving e in
      onward (broke n s) (onward (finished k n (break_loop b n s) at) p)

  end_task-over :
      (s : PeerTable b) (n : ℕ) (k : b.PublicKey)
      → get_elem? s.tasks n ≡ some (k, running)
      → get_elem? (end_task k n s).tasks n ≡ some (k, over)
  end_task-over s n k e =
      ap (λ x. get_elem? x.tasks n) (ended s n k e)
      ∙ set_at-same b (set_at n (k, leaving) s.tasks) n k k leaving over
          (set_at-same b s.tasks n k k running leaving e)

  end_task-later :
      (s : PeerTable b) (n m : ℕ) (k : b.PublicKey)
      → n < m
      → get_elem? s.tasks n ≡ some (k, running)
      → get_elem? (end_task k n s).tasks m ≡ get_elem? s.tasks m
  end_task-later s n m k lt e =
      ap (λ x. get_elem? x.tasks m) (ended s n k e)
      ∙ set_at-other b (set_at n (k, leaving) s.tasks) n m (k, over) lt
      ∙ set_at-other b s.tasks n m (k, leaving) lt

  end_task-get :
      (s : PeerTable b) (n : ℕ) (k : b.PublicKey)
      → get_elem? s.tasks n ≡ some (k, running)
      → get b k (end_task k n s).peers ≡ none
  end_task-get s n k e = ap (λ x. get b k x.peers) (ended s n k e) ∙ remove_same b k s.peers

  disconnect-none :
      (k : b.PublicKey) (s : PeerTable b) → get b k s.peers ≡ none → disconnect b k s ≡ none
  unfolding disconnect
  disconnect-none k s e = rw (disconnect, e) refl

  -- Where a second task is spawned behind a first one.
  second_at :
      (tasks : List (b.PublicKey × Task)) (k : b.PublicKey)
      → get_elem? ((tasks ++ (k, running) ∷ []) ++ (k, running) ∷ []) (suc (length tasks))
        ≡ some (k, running)
  second_at tasks k =
      let same : length (tasks ++ (k, running) ∷ []) ≡ suc (length tasks) =
        omega (arith, length-append tasks ((k, running) ∷ [])) in
      subst
        (λ m. get_elem? ((tasks ++ (k, running) ∷ []) ++ (k, running) ∷ []) m ≡ some (k, running))
        same (Owns-last b (tasks ++ (k, running) ∷ []) k running)

  -- The entry of a peer for one task.
  abbrev pub entry : ℕ → Peer
  entry n = record { writer = n; read_handle = n }

  module _ (kl : KeyLaws b) (t : Tcp) (h : Host b t) (c : Crypto)
      (ecdh : b.SecretKey → b.PublicKey → Bytes) where
    get-insert :
        (k : b.PublicKey) (peer : Peer) (peers : Peers b)
        → get b k (insert b k peer peers) ≡ some peer
    unfolding get insert
    get-insert k peer peers = rw (kl.same_key-refl k)

    -- What is left of a connection of which the task ends before its peer is put into the table: the table has
    -- an entry for the peer all the same.
    abbrev pub Stale : b.PublicKey → ℕ → (s s' : PeerTable b) → Type 0
    Stale k n s s' =
        Trace b s s' × (get b k s'.peers ≡ some (entry n)) × (get_elem? s'.tasks n ≡ some (k, over))

    -- The entry was that of a task, which runs on, and the entry is gone, so that `disconnect` finds nothing.
    abbrev pub Lost : b.PublicKey → ℕ → (s s' : PeerTable b) → Type 0
    Lost k m s s' =
        Trace b s s'
        × (get b k s.peers ≡ some (entry m))
        × (get_elem? s'.tasks m ≡ some (k, running))
        × (get b k s'.peers ≡ none)
        × (disconnect b k s' ≡ none)

    becomes-Stale :
        (k : b.PublicKey) (w : NoiseWriter t) (r : NoiseReader t) (d : Daemon b t h)
        → let n = length d.table.tasks in
          let s = (spawn_reader b t h c ecdh k w r d).1.table in
          Stale k n s (insert_peer b k n (end_task k n s))
    unfolding spawn_reader spawn insert_peer
    becomes-Stale k w r d =
        let n = length d.table.tasks in
        let s = (spawn b k d.table).1 in
        let at = Owns-last b d.table.tasks k running in
        let s' = end_task k n s in
        let waits : get_elem? s'.connecting 0 ≡ some (k, n) =
          ap (λ x. get_elem? x.connecting 0) (ended s n k at) in
        (
          end_task-Step s n k at (onward (inserted k n 0 s' waits) stay),
          get-insert k (entry n) s'.peers,
          end_task-over s n k at,
        )

    becomes-Lost :
        (k : b.PublicKey) (w w' : NoiseWriter t) (r r' : NoiseReader t) (d : Daemon b t h)
        → let n = length d.table.tasks in
          let d1 = (register b t h c ecdh k w r d).1 in
          let s = (register b t h c ecdh k w' r' d1).1.table in Lost k (suc n) s (end_task k n s)
    unfolding register spawn_reader spawn insert_peer
    becomes-Lost k w w' r r' d =
        let n = length d.table.tasks in
        let d1 = (register b t h c ecdh k w r d).1 in
        let s = (register b t h c ecdh k w' r' d1).1.table in
        let at : get_elem? s.tasks n ≡ some (k, running) =
          get_elem?-append b d1.table.tasks ((k, running) ∷ []) n (k, running)
            (Owns-last b d.table.tasks k running) in
        let gone = end_task-get s n k at in
        let newest : length d1.table.tasks ≡ suc n =
          omega (arith, length-append d.table.tasks ((k, running) ∷ [])) in
        (
          end_task-Step s n k at stay,
          get-insert k _ d1.table.peers ∙ ap (λ m. some (entry m)) newest,
          end_task-later s n (suc n) k (omega arith) at ∙ second_at d.table.tasks k,
          gone,
          disconnect-none k (end_task k n s) gone,
        )

    -- Where keys compare as equal to themselves, for every peer and from every state of the daemon: where the
    -- reader task of a new connection ends between the two halves of `connect`, the table gets an
    -- entry for it although its task is over; and where the peer is connected twice, the table has the
    -- second connection, but once the task of the first has ended, that entry is gone, while the second
    -- task runs on, and `disconnect` finds nothing.
    pub races :
        (k : b.PublicKey) (w w' : NoiseWriter t) (r r' : NoiseReader t) (d : Daemon b t h)
        → let n = length d.table.tasks in
          let s = (spawn_reader b t h c ecdh k w r d).1.table in
          let d1 = (register b t h c ecdh k w r d).1 in
          let s1 = (register b t h c ecdh k w' r' d1).1.table in
          Stale k n s (insert_peer b k n (end_task k n s)) × Lost k (suc n) s1 (end_task k n s1)
    races k w w' r r' d = (becomes-Stale k w r d, becomes-Lost k w w' r r' d)
