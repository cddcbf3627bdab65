-- ===== src/GossipSim/Daemon/Steps/Entries.antt =====
-- The entries of the table of peers of ln-gossip-sim/src/bin/simd.rs under its operations.
use ln_gossip_sim.Base.{
  ◌<◌, arith, ℕ, zero, suc, ◌≡◌, refl, ap, none, ◌==◌, some, List, [], ◌∷◌, ◌++◌, length, get_elem?,
  All, Bool-cases, inl, inr,
}
use mathlib.Core.Path.{subst}
use ln_gossip_sim.Bitcoin.{Bitcoin}
use ln_gossip_sim.GossipSim.Daemon.{Peer, Task, set_at}
use ln_gossip_sim.GossipSim.Daemon.Table.{Peers, get, remove, forget}
use ln_gossip_sim.GossipSim.Daemon.Steps.{Owns, Distinct}

module _ (b : Bitcoin) where
  pub get-remove :
      (k l : b.PublicKey) (peers : Peers b)
      → get b k peers ≡ none
      → get b k (remove b l peers) ≡ none
  unfolding get remove
  get-remove k l [] h = refl
  get-remove k l ((m, peer) ∷ peers) h = ground (arith, get-remove k l peers)

  pub remove_same : (k : b.PublicKey) (peers : Peers b) → get b k (remove b k peers) ≡ none
  unfolding get remove
  remove_same k [] = refl
  remove_same k ((m, peer) ∷ peers) = elim (Bool-cases (b.same_key k m)) [
    | inl h ↦ rw h (remove_same k peers)
    | inr h ↦ rw (h, h) (remove_same k peers)
  ]

  pub Distinct-remove :
      (k : b.PublicKey) (peers : Peers b) → Distinct b peers → Distinct b (remove b k peers)
  unfolding remove
  Distinct-remove k [] d = tt
  Distinct-remove k ((m, peer) ∷ peers) (new_key, d) = elim (Bool-cases (b.same_key k m)) [
    | inl h ↦ rw h (Distinct-remove k peers d)
    | inr h ↦ rw h (get-remove m k peers new_key, Distinct-remove k peers d)
  ]

  pub All-remove :
      (P : b.PublicKey × Peer → Type 0) (k : b.PublicKey) (peers : Peers b)
      → All P peers
      → All P (remove b k peers)
  unfolding remove
  All-remove P k [] h = tt
  All-remove P k ((m, peer) ∷ peers) (p, h) = elim (Bool-cases (b.same_key k m)) [
    | inl e ↦ rw e (All-remove P k peers h)
    | inr e ↦ rw e (p, All-remove P k peers h)
  ]

  pub All-weaken :
      {A : Type 0} {P Q : A → Type 0} (peers : List A)
      → ((entry : A) → P entry → Q entry)
      → All P peers
      → All Q peers
  All-weaken [] f h = tt
  All-weaken (entry ∷ peers) f (p, h) = (f entry p, All-weaken peers f h)

  pub All-forget :
      (P : b.PublicKey × ℕ → Type 0) (n : ℕ) (waiting : List (b.PublicKey × ℕ))
      → All P waiting
      → All P (forget b n waiting)
  unfolding forget
  All-forget P n [] h = tt
  All-forget P n ((k, m) ∷ waiting) (p, h) = elim (Bool-cases (n == m)) [
    | inl e ↦ rw e (All-forget P n waiting h)
    | inr e ↦ rw e (p, All-forget P n waiting h)
  ]

  pub All-get :
      {A : Type 0} (P : A → Type 0) (xs : List A) (i : ℕ) (x : A)
      → All P xs
      → get_elem? xs i ≡ some x
      → P x
  All-get P [] i x h e = cc
  All-get P (y ∷ xs) zero x (p, h) e = let same : y ≡ x = cc in subst P same p
  All-get P (y ∷ xs) (suc i) x (p, h) e = All-get P xs i x h e

  -- Tasks keep their place and their peer where one is added or changed.
  pub Owns-append :
      (tasks more : List (b.PublicKey × Task)) (k : b.PublicKey) (n : ℕ)
      → Owns b tasks k n
      → Owns b (tasks ++ more) k n
  Owns-append [] more k n (task, h) = cc
  Owns-append (x ∷ tasks) more k zero h = h
  Owns-append (x ∷ tasks) more k (suc n) h = Owns-append tasks more k n h

  pub Owns-last :
      (tasks : List (b.PublicKey × Task)) (k : b.PublicKey) (task : Task)
      → get_elem? (tasks ++ (k, task) ∷ []) (length tasks) ≡ some (k, task)
  Owns-last [] k task = refl
  Owns-last (x ∷ tasks) k task = Owns-last tasks k task

  pub Owns-set_at :
      (tasks : List (b.PublicKey × Task)) (m : ℕ) (l : b.PublicKey) (task : Task)
      → Owns b tasks l m
      → (k : b.PublicKey) (n : ℕ) → Owns b tasks k n
      → Owns b (set_at m (l, task) tasks) k n
  Owns-set_at [] m l task h k n (own, e) = cc
  Owns-set_at (x ∷ tasks) zero l task (old, h) k zero (own, e) =
      let same : l ≡ k = cc in (task, ap (λ j. some (j, task)) same)
  Owns-set_at (x ∷ tasks) zero l task h k (suc n) e = e
  Owns-set_at (x ∷ tasks) (suc m) l task h k zero e = e
  Owns-set_at (x ∷ tasks) (suc m) l task h k (suc n) e = Owns-set_at tasks m l task h k n e

  pub set_at-same :
      (tasks : List (b.PublicKey × Task)) (m : ℕ) (k l : b.PublicKey) (old task : Task)
      → get_elem? tasks m ≡ some (l, old)
      → get_elem? (set_at m (k, task) tasks) m ≡ some (k, task)
  set_at-same [] m k l old task h = cc
  set_at-same (x ∷ tasks) zero k l old task h = refl
  set_at-same (x ∷ tasks) (suc m) k l old task h = set_at-same tasks m k l old task h

  pub set_at-other :
      (tasks : List (b.PublicKey × Task)) (m n : ℕ) (x : b.PublicKey × Task)
      → m < n
      → get_elem? (set_at m x tasks) n ≡ get_elem? tasks n
  set_at-other [] m n x lt = refl
  set_at-other (y ∷ tasks) zero zero x lt = absurd (omega arith)
  set_at-other (y ∷ tasks) zero (suc n) x lt = refl
  set_at-other (y ∷ tasks) (suc m) zero x lt = refl
  set_at-other (y ∷ tasks) (suc m) (suc n) x lt = set_at-other tasks m n x (omega arith)

  pub get_elem?-append :
      (tasks more : List (b.PublicKey × Task)) (n : ℕ) (x : b.PublicKey × Task)
      → get_elem? tasks n ≡ some x
      → get_elem? (tasks ++ more) n ≡ some x
  get_elem?-append [] more n x h = cc
  get_elem?-append (y ∷ tasks) more zero x h = h
  get_elem?-append (y ∷ tasks) more (suc n) x h = get_elem?-append tasks more n x h
