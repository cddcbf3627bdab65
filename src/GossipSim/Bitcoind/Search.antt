-- ===== src/GossipSim/Bitcoind/Search.antt =====
-- What `mine_to_funding` of ln-gossip-sim/src/bitcoind.rs finds.
use ln_gossip_sim.Base.{
  All, take, ℕ, suc, ◌+◌, ◌≡◌, refl, arith, true, false, Bool-cases, inl, inr, Option, none, some,
  List, [], ◌∷◌, get_elem?, ok,
}
use mathlib.Core.Path.{subst}
use ln_gossip_sim.Base.Options.{Option-cases}
use ln_gossip_sim.Base.Text.{Text}
use ln_gossip_sim.Base.Runs.{IfOk, value, IfOk-refl, IfOk-continue, IfOk-weaken}
use ln_gossip_sim.Bitcoin.{Bitcoin}
use ln_gossip_sim.GossipSim.Tcp.{Tcp}
use ln_gossip_sim.GossipSim.Host.{Host}
use ln_gossip_sim.GossipSim.Bitcoind.{pays, position, outputs, search}

module _ (b : Bitcoin) (t : Tcp) (h : Host b t) where
  -- The output at the index pays to the address, and none in front of it does.
  pub record IsFirst (addr_str : Text) (vout : List h.Value) (oi : ℕ) : Type 0 where
    pub found : h.Value
    pub at : get_elem? vout oi ≡ some found
    pub pays_it : pays b t h addr_str found ≡ true
    pub before : All (λ o. pays b t h addr_str o ≡ false) (take oi vout)

  position-IsFirst :
      (addr_str : Text) (vout : List h.Value) (oi : ℕ)
      → position b t h addr_str vout ≡ some oi
      → IsFirst addr_str vout oi
  unfolding position
  position-IsFirst addr_str [] oi e = cc
  position-IsFirst addr_str (o ∷ os) oi e = elim (Bool-cases (pays b t h addr_str o)) [
    | inl hit ↦
        let f = rw hit at e in
        let same : 0 ≡ oi = cc in
        subst (IsFirst addr_str (o ∷ os)) same
          (record { found = o; at = refl; pays_it = hit; before = tt })
    | inr miss ↦
        let f = rw miss at e in
        elim (Option-cases (position b t h addr_str os)) [
          | inl later ↦ let g = rw later at f in cc
          | inr (oi', later) ↦
              let g = rw later at f in
              let same : suc oi' ≡ oi = cc in
              let p = position-IsFirst addr_str os oi' later in
              subst (IsFirst addr_str (o ∷ os)) same (record {
                found = p.found;
                at = p.at;
                pays_it = p.pays_it;
                before = (miss, p.before);
              })
        ]
  ]

  module _ (client : h.Client) (first_hash addr_str : Text) where
    -- The outputs of a transaction were asked for, and none of them pays to the address.
    abbrev pub Skipped : h.Value → Type 0
    Skipped txid_val =
        (s : h.State) × (s' : h.State) × (vout : List h.Value) × (outputs b t h client first_hash
            txid_val s
          ≡ (ok vout, s'))
        × (position b t h addr_str vout ≡ none)

    -- Where the search ends: at the first transaction with such an output, of which bitcoind's answer is
    -- the last that was asked for.
    pub record Located (txids : List h.Value) (ti oi : ℕ) (s' : h.State) : Type 0 where
      pub txid_val : h.Value
      pub at : get_elem? txids ti ≡ some txid_val
      pub asked : h.State
      pub vout : List h.Value
      pub answered : outputs b t h client first_hash txid_val asked ≡ (ok vout, s')
      pub output_found : IsFirst addr_str vout oi
      pub skipped : All Skipped (take ti txids)

    further :
        {txid_val : h.Value} {txids : List h.Value} {ti oi : ℕ} {s' : h.State}
        → Located txids ti oi s'
        → Skipped txid_val
        → Located (txid_val ∷ txids) (suc ti) oi s'
    further l skip = record {
      txid_val = l.txid_val;
      at = l.at;
      asked = l.asked;
      vout = l.vout;
      answered = l.answered;
      output_found = l.output_found;
      skipped = (skip, l.skipped);
    }

    -- The postcondition of the search that starts at the index `start`.
    abbrev pub After : ℕ → List h.Value → Option (ℕ × ℕ) → h.State → Type 0
    After start txids none s' = Unit
    After start txids (some (ti, oi)) s' = (n : ℕ) × (ti ≡ start + n) × Located txids n oi s'

    After-further :
        (start : ℕ) (txid_val : h.Value) (txids : List h.Value) (found : Option (ℕ × ℕ))
        (s' : h.State)
        → Skipped txid_val
        → After (start + 1) txids found s'
        → After start (txid_val ∷ txids) found s'
    After-further start txid_val txids none s' skip p = tt
    After-further start txid_val txids (some (ti, oi)) s' skip (n, same, l) =
        (suc n, omega arith, further l skip)

    pub search-After :
        (start : ℕ) (txids : List h.Value) (s : h.State)
        → IfOk (After start txids) (search b t h client first_hash addr_str start txids s)
    unfolding search
    search-After start [] s = value tt
    search-After start (txid_val ∷ txids) s =
        IfOk-continue (IfOk-refl (outputs b t h client first_hash txid_val s)) λ vout s1 answered.
          elim (Option-cases (position b t h addr_str vout)) [
            | inl absent ↦ rw absent (
                IfOk-weaken (search-After (start + 1) txids s1) λ found s' p.
                  After-further start txid_val txids found s' (s, s1, vout, answered, absent) p)
            | inr (oi, present) ↦ rw present (
                value (
                  0,
                  omega arith,
                  record {
                    txid_val = txid_val;
                    at = refl;
                    asked = s;
                    vout = vout;
                    answered = answered;
                    output_found = position-IsFirst addr_str vout oi present;
                    skipped = tt;
                  },
                ))
          ]
