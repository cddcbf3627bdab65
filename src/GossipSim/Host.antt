-- ===== src/GossipSim/Host.antt =====
-- What the daemon takes from the crates hex, tokio, serde_json, corepc-client and bitcoin beyond keys, and
-- from the standard library's network types. None of them is part of the repository, so they are
-- parameters. `State` is all that lies outside of the daemon: the network, bitcoind and the random
-- number generator.
use ln_gossip_sim.Base.{ℕ, Bool, Option, List, Bytes}
use ln_gossip_sim.Base.Text.{Text}
use ln_gossip_sim.Bitcoin.{Bitcoin}
use ln_gossip_sim.GossipSim.Tcp.{Tcp}

-- A call that may fail with an error, of which its text is kept.
pub data Reply (A : Type 0) : Type 0 where
  answer : A → Reply A
  failure : Text → Reply A

pub record Host (b : Bitcoin) (t : Tcp) : Type 1 where
  pub State : Type 0
  -- `hex::decode`, and `Display` of a public key
  pub hex_decode : Text → Option Bytes
  pub display : b.PublicKey → Text
  -- `SocketAddr::from_str`, and `TcpStream::connect` with `into_split`
  pub SocketAddr : Type 0
  pub parse_addr : Text → Option SocketAddr
  pub dial : SocketAddr → State → Option (t.OwnedReadHalf × t.OwnedWriteHalf) × State
  -- a random secret key, `PrivateKey::new(_, Regtest).to_wif()`
  pub random_key : State → b.SecretKey × State
  pub to_wif : b.SecretKey → Text
  -- `serde_json::Value`: indexing with a name and with a number, the views, `Display`, and the values built
  pub Value : Type 0
  pub field : Value → Text → Value
  pub item : Value → ℕ → Value
  pub as_str : Value → Option Text
  pub as_u64 : Value → Option ℕ
  pub as_bool : Value → Option Bool
  pub as_array : Value → Option (List Value)
  pub show : Value → Text
  pub string : Text → Value
  pub bool : Bool → Value
  -- `json!([{"desc": …, "timestamp": "now", "active": false}])`
  pub descriptor_request : Text → Value
  -- `Address`: parsing with `assume_checked`, and `Display`
  pub Address : Type 0
  pub parse_address : Text → Reply Address
  pub address_text : Address → Text
  -- the client of bitcoind, with the URL, the user and the password
  pub Client : Type 0
  pub new_with_auth : Text → Text → Text → Reply Client
  pub call : Client → Text → List Value → State → Reply Value × State
  pub load_wallet : Client → Text → State → Reply (Unit {0}) × State
  pub create_wallet : Client → Text → State → Reply (Unit {0}) × State
  pub generate_to_address : Client → ℕ → Address → State → Reply (List Text) × State
  pub get_block_count : Client → State → Reply ℕ × State
  pub best_block_hash : Client → State → Reply Text × State
  pub get_balance : Client → State → Reply Text × State
