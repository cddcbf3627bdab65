-- ===== src/GossipSim/Bitcoind/Address.antt =====
-- The funding address that `new_funding_address` of ln-gossip-sim/src/bitcoind.rs returns, and the
-- keys that it belongs to.
use ln_gossip_sim.Base.{◌≡◌, refl, some, [], ◌∷◌, ◌++◌}
use ln_gossip_sim.Base.Text.{Text, chars}
use ln_gossip_sim.Base.State.{call}
use ln_gossip_sim.Base.Runs.{IfOk, value, failed, IfOk-refl, IfOk-continue, IfOk-ok_or}
use ln_gossip_sim.Bitcoin.{Bitcoin}
use ln_gossip_sim.GossipSim.Tcp.{Tcp}
use ln_gossip_sim.GossipSim.Host.{Host, Reply, answer, failure}
use ln_gossip_sim.GossipSim.Bitcoind.{
  FundingKeys, Error, address, descriptor, sorted, unless_false, new_funding_address, try, outcome,
}

module _ (b : Bitcoin) (t : Tcp) (h : Host b t) where
  -- `wsh(multi(2,<wif1>,<wif2>))`
  abbrev multisig : b.SecretKey → b.SecretKey → Text
  multisig sk1 sk2 = chars "wsh(multi(2," ++ (h.to_wif sk1 ++ (b',' ∷ (h.to_wif sk2 ++ chars "))")))

  IfOk-reply :
      {A : Type 0} (kind : Text → Error) (r : Reply A × h.State)
      → IfOk (λ a s'. r ≡ (answer a, s')) (outcome b t h kind r.0, r.1)
  IfOk-reply kind (answer a, s') = value refl
  IfOk-reply kind (failure e, s') = failed

  pub IfOk-try :
      {A : Type 0} (kind : Text → Error) (request : h.State → Reply A × h.State) (s : h.State)
      → IfOk (λ a s'. request s ≡ (answer a, s')) (try b t h kind request s)
  IfOk-try kind request s = IfOk-reply kind (request s)

  -- `?` of a reply
  IfOk-outcome :
      {A : Type 0} (kind : Text → Error) (r : Reply A) (s : h.State)
      → IfOk (λ a s'. r ≡ answer a) (call (outcome b t h kind r) s)
  IfOk-outcome kind (answer a) s = value refl
  IfOk-outcome kind (failure e) s = failed

  -- How the address belongs to the keys: bitcoind derived it from the descriptor of a 2-of-2 multisig output
  -- of the two secrets, with the checksum that it gave for that descriptor.
  pub record IsMultisig (client : h.Client) (funding : FundingKeys b t h) : Type 0 where
    checked : h.State
    checksum_given : h.State
    derived_from : h.State
    derived : h.State
    info : h.Value
    addresses : h.Value
    checksum : Text
    address_text : Text
    is_checked :
        h.call client
          (chars "getdescriptorinfo")
          (h.string (multisig funding.sk1 funding.sk2) ∷ [])
          checked
        ≡ (answer info, checksum_given)
    checksum_is : h.as_str (h.field info (chars "checksum")) ≡ some checksum
    is_derived :
        h.call client
          (chars "deriveaddresses")
          (h.string (multisig funding.sk1 funding.sk2 ++ (b'#' ∷ checksum)) ∷ [])
          derived_from
        ≡ (answer addresses, derived)
    is_first : h.as_str (h.item addresses 0) ≡ some address_text
    address_is : h.parse_address address_text ≡ answer funding.address
    key_1 : funding.pk1 ≡ b.from_secret_key funding.sk1
    key_2 : funding.pk2 ≡ b.from_secret_key funding.sk2

  pub new_funding_address-IfOk :
      (client : h.Client) (s : h.State)
      → IfOk (λ funding s'. IsMultisig client funding) (new_funding_address b t h client s)
  unfolding new_funding_address
  new_funding_address-IfOk client s =
      let (sk_a, s1) = h.random_key s in
      let (sk_b, s2) = h.random_key s1 in
      let (sk1, sk2) = sorted b t h sk_a sk_b in
      let desc = multisig sk1 sk2 in
      IfOk-continue
        (IfOk-try descriptor (h.call client (chars "getdescriptorinfo") (h.string desc ∷ [])) s2)
        λ info s3 is_checked.
          IfOk-continue (IfOk-ok_or (h.as_str (h.field info (chars "checksum"))) _ s3)
            λ checksum s4 checksum_is.
              let desc_full = desc ++ (b'#' ∷ checksum) in
              IfOk-continue
                (IfOk-try address
                  (h.call client (chars "deriveaddresses") (h.string desc_full ∷ [])) s4)
                λ addrs s5 is_derived.
                  IfOk-continue (IfOk-ok_or (h.as_str (h.item addrs 0)) _ s5)
                    λ addr_text s6 is_first.
                      IfOk-continue (IfOk-outcome address (h.parse_address addr_text) s6)
                        λ addr s7 address_is.
                          IfOk-continue
                            (IfOk-try descriptor
                              (h.call client (chars "importdescriptors")
                                (h.descriptor_request desc_full ∷ []))
                              s7)
                            λ result s8 _.
                              IfOk-continue
                                (IfOk-refl (
                                  unless_false b t h
                                    (h.as_bool (h.field (h.item result 0) (chars "success"))) _ s8))
                                λ _ s9 _. value (record {
                                  checked = s2;
                                  checksum_given = s3;
                                  derived_from = s4;
                                  derived = s5;
                                  info = info;
                                  addresses = addrs;
                                  checksum = checksum;
                                  address_text = addr_text;
                                  is_checked = is_checked;
                                  checksum_is = checksum_is;
                                  is_derived = is_derived;
                                  is_first = is_first;
                                  address_is = address_is;
                                  key_1 = refl;
                                  key_2 = refl;
                                })
