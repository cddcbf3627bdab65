-- ===== src/Examples/Hosts.antt =====
-- A host of the examples: a bitcoind that has one block with one transaction, and a network that refuses.
use mathlib.Core.Path.{subst}
use ln_gossip_sim.Base.{
  ℕ, ◌≡◌, arith, Bool-cases, inl, inr, length, Bytes, AllBytes, Option, none, some, List, [], ◌∷◌,
  if◌then◌else◌,
}
use ln_gossip_sim.Base.Text.{Text, chars, same}
use ln_gossip_sim.GossipSim.Host.{Host, answer}
use ln_gossip_sim.Examples.Instances.{bitcoin, blank, is_block, is_block-AllBytes}
use ln_gossip_sim.Examples.Connections.{pipe}

pub data Value : Type 0 where
  empty block chain_info txs tx vout output script addrs : Value
  number : ℕ → Value
  text : Text → Value

abbrev address : Text
address = chars "bcrt1"

abbrev pub field : Value → Text → Value
field block name = if same name (chars "height") then number 101 else txs
field chain_info name = text (chars "regtest")
field tx name = vout
field output name = script
field script name = text address
field _ name = text []

abbrev pub as_text : Value → Option Text
as_text (text t) = some t
as_text _ = none

abbrev pub as_number : Value → Option ℕ
as_number (number n) = some n
as_number _ = none

abbrev pub as_list : Value → Option (List Value)
as_list txs = some (text [] ∷ [])
as_list vout = some (output ∷ [])
as_list _ = none

abbrev pub answer_to : Text → Value
answer_to method =
    if same method (chars "getblock")
    then block
    else if same method (chars "getrawtransaction")
    then tx
    else if same method (chars "getblockchaininfo")
    then chain_info
    else empty

-- A text whose characters are bytes stands for them.
abbrev pub as_bytes : Text → Option Bytes
as_bytes s = if is_block (length s) s then some s else none

pub as_bytes-AllBytes : (s : Text) (bytes : Bytes) → as_bytes s ≡ some bytes → AllBytes bytes
as_bytes-AllBytes s bytes e = elim (Bool-cases (is_block (length s) s)) [
  | inl h ↦
      let same : s ≡ bytes = ground arith in subst AllBytes same (is_block-AllBytes (length s) s h)
  | inr h ↦ ground arith
]

abbrev pub host : Host bitcoin pipe
host = record {
  State = Unit;
  hex_decode = as_bytes;
  display = λ k. k.0;
  SocketAddr = Text;
  parse_addr = λ s. some s;
  dial = λ place s. (none, s);
  random_key = λ s. (blank 33, s);
  to_wif = λ sk. [];
  Value = Value;
  field = field;
  item = λ v i. text address;
  as_str = as_text;
  as_u64 = as_number;
  as_bool = λ v. none;
  as_array = as_list;
  show = λ v. [];
  string = text;
  bool = λ v. empty;
  descriptor_request = text;
  Address = Text;
  parse_address = answer;
  address_text = λ a. a;
  Client = Unit;
  new_with_auth = λ url user pass. answer tt;
  call = λ client method params s. (answer (answer_to method), s);
  load_wallet = λ client name s. (answer tt, s);
  create_wallet = λ client name s. (answer tt, s);
  generate_to_address = λ client blocks a s. (answer (chars "00" ∷ []), s);
  get_block_count = λ client s. (answer 101, s);
  best_block_hash = λ client s. (answer (chars "00"), s);
  get_balance = λ client s. (answer (chars "0 BTC"), s);
}
