-- ===== src/GossipSim/Daemon/Steps/Invariant.antt =====
-- The invariant of the table of peers of ln-gossip-sim/src/bin/simd.rs.
use ln_gossip_sim.Base.{ℕ, ◌≡◌, refl, sym, ◌∙◌, ap, some, List, [], ◌∷◌, get_elem?, inl, inr}
use mathlib.Core.Path.{subst}
use ln_gossip_sim.Base.Options.{Option-cases}
use ln_gossip_sim.Bitcoin.{Bitcoin}
use ln_gossip_sim.GossipSim.Daemon.{Peer, PeerTable, Task, running, leaving, aborting, over}
use ln_gossip_sim.GossipSim.Daemon.Table.{
  get, remove, insert, new, spawn, insert_peer, change_task, break_loop, finish, disconnect, left,
  aborted, drop_task, dropped,
}
use ln_gossip_sim.GossipSim.Daemon.Steps.{
  Owns, IsEntry, Consistent, Step, spawned, inserted, broke, finished, finished_first, cancelled,
  disconnected, Trace, stay, onward, Reachable,
}
use ln_gossip_sim.GossipSim.Daemon.Steps.Entries.{
  All-remove, All-weaken, Distinct-remove, remove_same, All-forget, All-get, Owns-last, Owns-append,
  Owns-set_at,
}

module _ (b : Bitcoin) where
  -- The entries stay what they were where every task keeps its peer.
  kept :
      {s : PeerTable b} {tasks : List (b.PublicKey × Task)}
      → ((k : b.PublicKey) (n : ℕ) → Owns b s.tasks k n → Owns b tasks k n)
      → Consistent b s
      → Consistent b (record s { tasks = tasks })
  kept {s = s} keeps h = record {
    entries =
        All-weaken b s.peers (λ (k, peer) (same, own). (same, keeps k peer.read_handle own))
          h.entries;
    distinct = h.distinct;
    waiting = All-weaken b s.connecting (λ (k, n). keeps k n) h.waiting;
  }

  removed :
      {s : PeerTable b} (k : b.PublicKey)
      → Consistent b s
      → Consistent b (record s { peers = remove b k s.peers })
  removed {s = s} k h = record {
    entries = All-remove b (IsEntry b s.tasks) k s.peers h.entries;
    distinct = Distinct-remove b k s.peers h.distinct;
    waiting = h.waiting;
  }

  -- A change of one task leaves it its peer.
  changed :
      (f : b.PublicKey × Task → b.PublicKey × Task) (n : ℕ) (s : PeerTable b)
      → ((task : b.PublicKey × Task) → (f task).0 ≡ task.0)
      → Consistent b s
      → Consistent b (change_task b f n s)
  changed f n s same h = elim (Option-cases (get_elem? s.tasks n)) [
    | inl e ↦ rw (change_task, e) h
    | inr ((l, task), e) ↦
        rw (change_task, e)
          (kept
            (Owns-set_at b s.tasks n (f (l, task)).0 (f (l, task)).1
              (task, e ∙ ap (λ j. some (j, task)) (sym (same (l, task)))))
            h)
  ]

  disconnect-some :
      (k : b.PublicKey) (s s' : PeerTable b)
      → disconnect b k s ≡ some s'
      → (peer : Peer) × (get b k s.peers ≡ some peer)
        × (change_task b (aborted b) peer.read_handle (record s { peers = remove b k s.peers })
            ≡ s')
  unfolding disconnect
  disconnect-some k s s' e = elim (Option-cases (get b k s.peers)) [
    | inl absent ↦ let f = rw (disconnect, absent) at e in cc
    | inr (peer, found) ↦ let f = rw (disconnect, found) at e in (peer, found, cc)
  ]

  Step-Consistent : (s s' : PeerTable b) → Step b s s' → Consistent b s → Consistent b s'
  unfolding spawn insert_peer insert break_loop finish drop_task disconnect
  Step-Consistent s _ (spawned k _) h =
      let grown = kept (Owns-append b s.tasks ((k, running) ∷ [])) h in
      record {
        entries = grown.entries;
        distinct = grown.distinct;
        waiting = ((running, Owns-last b s.tasks k running), grown.waiting);
      }
  Step-Consistent s _ (inserted k n i _ e) h = record {
    entries = (
      (refl, All-get b (λ (l, m). Owns b s.tasks l m) s.connecting i (k, n) h.waiting e),
      All-remove b (IsEntry b s.tasks) k s.peers h.entries,
    );
    distinct = (remove_same b k s.peers, Distinct-remove b k s.peers h.distinct);
    waiting = All-forget b (λ (l, m). Owns b s.tasks l m) n s.connecting h.waiting;
  }
  Step-Consistent s _ (broke n _) h = changed (left b) n s (λ task. refl) h
  Step-Consistent s _ (finished k n _ e) h =
      kept (Owns-set_at b s.tasks n k over (leaving, e)) (removed k h)
  Step-Consistent s _ (finished_first k n _ e) h =
      kept (Owns-set_at b s.tasks n k over (aborting, e)) (removed k h)
  Step-Consistent s _ (cancelled n _) h = changed (dropped b) n s (λ task. refl) h
  Step-Consistent s s' (disconnected k _ _ e) h =
      let (peer, found, same) = disconnect-some k s s' e in
      subst (Consistent b) same (
        changed (aborted b) peer.read_handle (record s { peers = remove b k s.peers })
          (λ task. refl) (removed k h))

  -- In every state that the daemon gets to, however commands and reader tasks interleave: no peer stands in the
  -- table twice, each entry is about one connection, of which the task was spawned for the peer of that
  -- entry, and so was the task of each command that has yet to put its peer in.
  pub Reachable-Consistent : (s : PeerTable b) → Reachable b s → Consistent b s
  Reachable-Consistent s p =
      go (new b) s (unfold new get remove in record { entries = tt; distinct = tt; waiting = tt }) p
    where
      go : (s s' : PeerTable b) → Consistent b s → Trace b s s' → Consistent b s'
      go s _ h stay = h
      go s s' h (onward {s' = m} step p) = go m s' (Step-Consistent s m step h) p
