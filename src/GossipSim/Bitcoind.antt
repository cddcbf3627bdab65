-- ===== src/GossipSim/Bitcoind.antt =====
-- ln-gossip-sim/src/bitcoind.rs and ln-gossip-sim/src/error.rs: the client of bitcoind. The state is
-- all that lies outside of the daemon.
use ln_gossip_sim.Base.{
  suc, ℕ, ◌+◌, ◌*◌, ◌%◌, ◌^◌, Bool, true, false, ◌&&◌, Option, none, some, List, [], ◌∷◌, ◌++◌,
  length, get_elem?, ◌==◌, if◌then◌else◌, Outcome, ok, err, panic, stuck, Bytes,
}
use Prim.Native.Nat.{bit_or}
use ln_gossip_sim.Base.State.{Method, continue, ◌>>=◌, ◌>>◌, return, throw, call, expect, ok_or}
use ln_gossip_sim.Base.Text.{Text, chars, same, is_nil}
use ln_gossip_sim.Base.Decimal.{to_text}
use ln_gossip_sim.Bitcoin.{Bitcoin}
use ln_gossip_sim.GossipSim.Tcp.{Tcp}
use ln_gossip_sim.GossipSim.Host.{Host, Reply, answer, failure}
pub mod Search
pub mod Address
pub mod Funding

pub data Error : Type 0 where
  rpc address descriptor chain : Text → Error

-- `Display` of an error
unfoldable pub error_text : Error → Text
error_text (rpc e) = chars "RPC: " ++ e
error_text (address e) = chars "address: " ++ e
error_text (descriptor e) = chars "descriptor: " ++ e
error_text (chain e) = chars "chain: " ++ e

-- `BitcoindClient::REGTEST_CHAIN_HASH`
abbrev pub regtest_chain_hash : Bytes
regtest_chain_hash =
    0x06 ∷ 0x22 ∷ 0x6e ∷ 0x46 ∷ 0x11 ∷ 0x1a ∷ 0x0b ∷ 0x59 ∷ 0xca ∷ 0xaf ∷ 0x12 ∷ 0x60 ∷ 0x43 ∷ 0xeb
    ∷ 0x5b ∷ 0xbf ∷ 0x28 ∷ 0xc3 ∷ 0x4f ∷ 0x3a ∷ 0x5e ∷ 0x33 ∷ 0x2a ∷ 0x1f ∷ 0xc7 ∷ 0xb2 ∷ 0xb7
    ∷ 0x3c ∷ 0xf1 ∷ 0x88 ∷ 0x91 ∷ 0x0f ∷ []

abbrev pub wallet_name : Text
wallet_name = chars "ln-gossip-sim"

-- `str::contains`, and `trim_end_matches('/')`
abbrev pub starts_with : Text → Text → Bool
starts_with [] s = true
starts_with (p ∷ ps) [] = false
starts_with (p ∷ ps) (c ∷ s) = (p == c) && starts_with ps s

abbrev pub contains : Text → Text → Bool
contains needle [] = is_nil needle
contains needle (c ∷ s) = if starts_with needle (c ∷ s) then true else contains needle s

abbrev pub trim_end_slashes : Text → Text
trim_end_slashes [] = []
trim_end_slashes (c ∷ s) =
    let rest = trim_end_slashes s in if is_nil rest && c == b'/' then [] else c ∷ rest

module _ (b : Bitcoin) (t : Tcp) (h : Host b t) where
  pub record FundingKeys : Type 0 where
    pub address : h.Address
    pub sk1 : b.SecretKey
    pub sk2 : b.SecretKey
    pub pk1 : b.PublicKey
    pub pk2 : b.PublicKey

  abbrev pub Rpc : Type 0 → Type 0
  Rpc A = Method h.State Error A

  -- A call outside, and its error in one of the constructors.
  abbrev pub outcome : {A : Type 0} → (Text → Error) → Reply A → Outcome Error A
  outcome kind (answer a) = ok a
  outcome kind (failure e) = err (kind e)

  abbrev pub try : {A : Type 0} → (Text → Error) → (h.State → Reply A × h.State) → Rpc A
  try kind request s = let (reply, s') = request s in (outcome kind reply, s')

  -- The wallet exists afterwards: it is loaded, or it was, or it is made.
  unfoldable pub ensure_wallet : h.Client → Rpc (Unit {0})
  ensure_wallet base s =
      let (loaded, s') = h.load_wallet base wallet_name s in
      elim loaded [
        | answer _ ↦ (ok tt, s')
        | failure e ↦
            if contains (chars "already loaded") e
            then (ok tt, s')
            else try (λ e. rpc (chars "create wallet: " ++ e)) (h.create_wallet base wallet_name) s'
      ]

  -- `BitcoindClient::new`
  unfoldable pub new : (url user pass : Text) → Rpc h.Client
  unfolding ensure_wallet
  new url user pass = do
    base ← call (outcome rpc (h.new_with_auth url user pass))
    info ← try rpc (h.call base (chars "getblockchaininfo") [])
    chain_name ←
        call (ok_or (h.as_str (h.field info (chars "chain"))) (rpc (chars "missing chain field")))
    if same chain_name (chars "regtest")
        then return tt
        else throw (chain (chars "expected regtest, got " ++ chain_name))
    ensure_wallet base
    let wallet_url = trim_end_slashes url ++ (chars "/wallet/" ++ wallet_name)
    call (outcome rpc (h.new_with_auth wallet_url user pass))

  -- `map_or` on a call.
  abbrev value_or : {A : Type 0} → A → Reply A × h.State → A × h.State
  value_or fallback (answer a, s) = (a, s)
  value_or fallback (failure e, s) = (fallback, s)

  unfoldable pub block_count : h.Client → h.State → ℕ × h.State
  block_count client s = value_or 0 (h.get_block_count client s)

  unfoldable pub best_block_hash : h.Client → h.State → Text × h.State
  best_block_hash client s = value_or (chars "unknown") (h.best_block_hash client s)

  unfoldable pub balance : h.Client → h.State → Text × h.State
  balance client s = value_or (chars "0 BTC") (h.get_balance client s)

  -- The two secrets, that of the lesser public key first.
  unfoldable pub sorted : b.SecretKey → b.SecretKey → b.SecretKey × b.SecretKey
  sorted sk1 sk2 =
      if b.lt_key (b.from_secret_key sk1) (b.from_secret_key sk2) then (sk1, sk2) else (sk2, sk1)

  abbrev random : Rpc b.SecretKey
  random s = let (sk, s') = h.random_key s in (ok sk, s')

  -- `if let Some(false) = ... { return Err(...) }`.
  abbrev pub unless_false : Option Bool → Error → Rpc (Unit {0})
  unless_false none e = return tt
  unless_false (some true) e = return tt
  unless_false (some false) e = throw e

  unfoldable pub new_funding_address : h.Client → Rpc FundingKeys
  unfolding sorted
  new_funding_address client = do
    sk1 ← random
    sk2 ← random
    let (sk1, sk2) = sorted sk1 sk2
    let desc = chars "wsh(multi(2," ++ (h.to_wif sk1 ++ (b',' ∷ (h.to_wif sk2 ++ chars "))")))
    info ← try descriptor (h.call client (chars "getdescriptorinfo") (h.string desc ∷ []))
    checksum ←
        call (
          ok_or (h.as_str (h.field info (chars "checksum")))
            (descriptor (chars "missing checksum")))
    let desc_full = desc ++ (b'#' ∷ checksum)
    addrs ← try address (h.call client (chars "deriveaddresses") (h.string desc_full ∷ []))
    addr_text ←
        call
          (ok_or (h.as_str (h.item addrs 0)) (address (chars "missing address in deriveaddresses")))
    addr ← call (outcome address (h.parse_address addr_text))
    result ←
        try descriptor
          (h.call client (chars "importdescriptors") (h.descriptor_request desc_full ∷ []))
    unless_false (h.as_bool (h.field (h.item result 0) (chars "success"))) (
        descriptor
          (chars "importdescriptors: " ++ h.show (h.field (h.item result 0) (chars "error"))))
    return (record {
      address = addr;
      sk1 = sk1;
      sk2 = sk2;
      pk1 = b.from_secret_key sk1;
      pk2 = b.from_secret_key sk2;
    })

  -- The output is a payment to the address.
  unfoldable pub pays : Text → h.Value → Bool
  pays addr_str o = elim (h.as_str (h.field (h.field o (chars "scriptPubKey")) (chars "address"))) [
    | none ↦ false
    | some a ↦ same a addr_str
  ]

  -- `vout.iter().position(...)`
  unfoldable pub position : Text → List h.Value → Option ℕ
  unfolding pays
  position addr_str [] = none
  position addr_str (o ∷ os) =
      let later = position addr_str os in
      if pays addr_str o then some 0 else (elim later [ none ↦ none | some oi ↦ some (suc oi) ])

  -- The outputs of the transaction that a value of the block names.
  unfoldable pub outputs : h.Client → (first_hash : Text) → h.Value → Rpc (List h.Value)
  outputs client first_hash txid_val = do
    txid ← call (ok_or (h.as_str txid_val) (rpc (chars "txid is not a string")))
    tx ← try rpc (
        h.call client (chars "getrawtransaction")
          (h.string txid ∷ h.bool true ∷ h.string first_hash ∷ []))
    call (ok_or (h.as_array (h.field tx (chars "vout"))) (rpc (chars "tx has no vout")))

  -- The loop over the transactions from index `ti` on: the indices of the transaction and of the output.
  unfoldable pub search :
      h.Client → (first_hash addr_str : Text) → ℕ → List h.Value → Rpc (Option (ℕ × ℕ))
  unfolding outputs position
  search client first_hash addr_str ti [] = return none
  search client first_hash addr_str ti (txid_val ∷ txids) =
      let again = search client first_hash addr_str (ti + 1) txids in
      outputs client first_hash txid_val >>= λ vout. elim (position addr_str vout) [
        | none ↦ again
        | some oi ↦ return (some (ti, oi))
      ]

  unfoldable pub mine_to_funding : h.Client → ℕ → Rpc (Text × FundingKeys × ℕ)
  unfolding new_funding_address search
  mine_to_funding client blocks = do
    funding ← new_funding_address client
    hashes ← try rpc (h.generate_to_address client blocks funding.address)
    first_hash ← call (expect (get_elem? hashes 0))
    block ← try rpc (h.call client (chars "getblock") (h.string first_hash ∷ []))
    block_height ←
        call (ok_or (h.as_u64 (h.field block (chars "height"))) (rpc (chars "block has no height")))
    txids ←
        call (ok_or (h.as_array (h.field block (chars "tx"))) (rpc (chars "block has no tx array")))
    let addr_str = h.address_text funding.address
    found ← search client first_hash addr_str 0 txids
    (tx_index, output_index) ← call (ok_or found (rpc (chars "funding output not found in block")))
    let scid =
        bit_or (bit_or (block_height * 2 ^ 40 % 2 ^ 64) (tx_index * 2 ^ 16 % 2 ^ 64)) output_index
    let msg =
        chars "Mined "
        ++ (to_text (length hashes) ++ (chars " block(s) to " ++ (addr_str ++ (10 ∷ []))))
    return (msg, funding, scid)

  -- `Ok((msg, _, _)) => msg, Err(e) => format!("{e}\n")`
  abbrev message_of : Outcome Error (Text × FundingKeys × ℕ) → Outcome Error Text
  message_of (ok (msg, funding, scid)) = ok msg
  message_of (err e) = ok (error_text e ++ (10 ∷ []))
  message_of panic = panic
  message_of stuck = stuck

  unfoldable pub mine : h.Client → ℕ → Rpc Text
  unfolding mine_to_funding
  mine client blocks s = let (found, s') = mine_to_funding client blocks s in (message_of found, s')
