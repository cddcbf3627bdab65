-- ===== src/GossipSim/Bitcoind/Funding.antt =====
-- The short channel ID that `mine_to_funding` of ln-gossip-sim/src/bitcoind.rs returns.
use ln_gossip_sim.Base.{
  ℕ, ◌*◌, ◌%◌, ◌^◌, ◌≡◌, refl, arith, Option, none, some, List, [], ◌∷◌, get_elem?, ok,
}
use Prim.Native.Nat.{bit_or}
use mathlib.Core.Path.{subst}
use ln_gossip_sim.Base.Text.{Text, chars}
use ln_gossip_sim.Base.State.{call, ok_or}
use ln_gossip_sim.Base.Runs.{IfOk, value, failed, IfOk-eq, IfOk-continue, IfOk-ok_or, IfOk-expect}
use ln_gossip_sim.Bitcoin.{Bitcoin}
use ln_gossip_sim.GossipSim.Tcp.{Tcp}
use ln_gossip_sim.GossipSim.Host.{Host, answer}
use ln_gossip_sim.GossipSim.Bitcoind.{FundingKeys, mine_to_funding, rpc}
use ln_gossip_sim.GossipSim.Bitcoind.Search.{After, search-After, Located}
use ln_gossip_sim.GossipSim.Bitcoind.Address.{IsMultisig, IfOk-try, new_funding_address-IfOk}

module _ (b : Bitcoin) (t : Tcp) (h : Host b t) where
  -- The end of the method.
  module _ (client : h.Client) (first_hash addr_str : Text) (txids : List h.Value) where
    IfOk-found :
        (found : Option (ℕ × ℕ)) (s : h.State)
        → After b t h client first_hash addr_str 0 txids found s
        → IfOk
            (λ (ti, oi) s'. Located b t h client first_hash addr_str txids ti oi s')
            (call (ok_or found (rpc (chars "funding output not found in block"))) s)
    IfOk-found none s p = failed
    IfOk-found (some (ti, oi)) s (n, same, l) =
        value (subst (λ i. Located b t h client first_hash addr_str txids i oi s) (omega arith) l)

  -- Where a funding output was mined: bitcoind derived the address from the keys, mined the blocks to it and reported the first of
  -- them with these transactions and this height, and the output stands in it.
  pub record Funded (client : h.Client) (blocks : ℕ) (funding : FundingKeys b t h) (scid : ℕ)
      (s' : h.State) : Type 0 where
    is_multisig : IsMultisig b t h client funding
    hashes : List Text
    first_hash : Text
    address_made : h.State
    mined_blocks : h.State
    asked : h.State
    left : h.State
    block : h.Value
    height : ℕ
    txids : List h.Value
    tx_index : ℕ
    output_index : ℕ
    mined :
        h.generate_to_address client blocks funding.address address_made
        ≡ (answer hashes, mined_blocks)
    is_first : get_elem? hashes 0 ≡ some first_hash
    reported :
        h.call client (chars "getblock") (h.string first_hash ∷ []) asked ≡ (answer block, left)
    height_is : h.as_u64 (h.field block (chars "height")) ≡ some height
    txids_is : h.as_array (h.field block (chars "tx")) ≡ some txids
    located :
        Located b t h client first_hash
          (h.address_text funding.address)
          txids
          tx_index
          output_index
          s'
    scid_is :
        scid ≡ bit_or (bit_or (height * 2 ^ 40 % 2 ^ 64) (tx_index * 2 ^ 16 % 2 ^ 64)) output_index

  mine_to_funding-IfOk :
      (client : h.Client) (blocks : ℕ) (s : h.State)
      → IfOk
          (λ (msg, funding, scid) s'. Funded client blocks funding scid s')
          (mine_to_funding b t h client blocks s)
  unfolding mine_to_funding
  mine_to_funding-IfOk client blocks s =
      IfOk-continue (new_funding_address-IfOk b t h client s) λ funding s1 is_multisig.
        IfOk-continue (IfOk-try b t h rpc (h.generate_to_address client blocks funding.address) s1)
          λ hashes s2 mined.
            IfOk-continue (IfOk-expect (get_elem? hashes 0) s2) λ first_hash s3 is_first.
              IfOk-continue
                (IfOk-try b t h rpc (h.call client (chars "getblock") (h.string first_hash ∷ []))
                  s3)
                λ block s4 reported.
                  IfOk-continue (IfOk-ok_or (h.as_u64 (h.field block (chars "height"))) _ s4)
                    λ height s5 height_is.
                      IfOk-continue (IfOk-ok_or (h.as_array (h.field block (chars "tx"))) _ s5)
                        λ txids s6 txids_is.
                          let addr_str = h.address_text funding.address in
                          IfOk-continue (search-After b t h client first_hash addr_str 0 txids s6)
                            λ found s7 after.
                              IfOk-continue
                                (IfOk-found client first_hash addr_str txids found s7 after)
                                λ (ti, oi) s8 located. value (record {
                                  is_multisig = is_multisig;
                                  hashes = hashes;
                                  first_hash = first_hash;
                                  address_made = s1;
                                  mined_blocks = s2;
                                  asked = s3;
                                  left = s4;
                                  block = block;
                                  height = height;
                                  txids = txids;
                                  tx_index = ti;
                                  output_index = oi;
                                  mined = mined;
                                  is_first = is_first;
                                  reported = reported;
                                  height_is = height_is;
                                  txids_is = txids_is;
                                  located = located;
                                  scid_is = refl;
                                })

  -- Where `mine_to_funding` returns keys and a short channel ID: bitcoind derived the funding address from the
  -- descriptor of the 2-of-2 of the two secrets, mined the blocks to that address and
  -- reported the first of them, and the ID is made of the height of that block, the index of a
  -- transaction in it and the index of an output of it. That output pays to the funding address; no
  -- output in front of it does, and of the earlier transactions bitcoind reported outputs of which
  -- none does.
  pub mine_to_funding-Funded :
      (client : h.Client) (blocks : ℕ) (s s' : h.State) (msg : Text) (funding : FundingKeys b t h)
      (scid : ℕ)
      → mine_to_funding b t h client blocks s ≡ (ok (msg, funding, scid), s')
      → Funded client blocks funding scid s'
  mine_to_funding-Funded client blocks s s' msg funding scid e =
      IfOk-eq (mine_to_funding-IfOk client blocks s) e
