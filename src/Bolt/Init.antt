-- ===== src/Bolt/Init.antt =====
-- bolt/src/init.rs
use mathlib.Core.Option
use ln_gossip_sim.Base.{
  ℕ, ◌+◌, ◌*◌, Option, none, some, List, [], ◌∷◌, ◌++◌, length, Bytes, Outcome, ok, err, ◌>>=◌,
}
use ln_gossip_sim.Base.Chunks.{as_chunks, concat}
use ln_gossip_sim.Bolt.Types.{BoltError, truncated, chain_hash_size}
use ln_gossip_sim.Bolt.Wire.{vec}
use ln_gossip_sim.Bolt.Tlv
use ln_gossip_sim.Bolt.Tlv.{TlvStream}
pub mod RoundTrip

abbrev pub tlv_networks : ℕ
tlv_networks = 1

abbrev pub tlv_remote_addr : ℕ
tlv_remote_addr = 3

pub record InitTlvs : Type 0 where
  pub networks : Option (List Bytes)
  pub remote_addr : Option Bytes

pub record Init : Type 0 where
  pub globalfeatures : Bytes
  pub features : Bytes
  pub tlvs : InitTlvs

abbrev no_tlvs : InitTlvs
no_tlvs = record { networks = none; remote_addr = none }

-- `Init::empty`
unfoldable pub empty : Init
empty = record { globalfeatures = []; features = []; tlvs = no_tlvs }

unfoldable pub echo : Init → Init
echo received = record {
  globalfeatures = received.globalfeatures;
  features = received.features;
  tlvs = no_tlvs;
}

-- `TlvStream::add` panics on a type that is there, so an encoder may panic.
unfoldable pub encode {ℓ} : {E : Type ℓ} → Init → Outcome E Bytes
encode m = do
  stream ← Tlv.add_option Tlv.empty tlv_networks (Option.map concat m.tlvs.networks)
  stream ← Tlv.add_option stream tlv_remote_addr m.tlvs.remote_addr
  ok (vec.write m.globalfeatures ++ (vec.write m.features ++ Tlv.encode stream))

-- The `networks` value is a whole number of chain hashes.
unfoldable pub parse_networks : Option Bytes → Outcome BoltError (Option (List Bytes))
parse_networks none = ok none
parse_networks (some value) =
    let (chunks, remainder) = as_chunks chain_hash_size value in
    elim remainder [
      | [] ↦ ok (some chunks)
      | _ ∷ _ ↦ err (truncated ((length chunks + 1) * chain_hash_size) (length value))
    ]

-- `InitTlvs::from_stream`
unfoldable pub from_stream : TlvStream → Outcome BoltError InitTlvs
unfolding parse_networks
from_stream stream = do
  networks ← parse_networks (Tlv.get stream tlv_networks)
  ok (record { networks = networks; remote_addr = Tlv.get stream tlv_remote_addr })

unfoldable pub decode : Bytes → Outcome BoltError Init
decode payload = do
  (globalfeatures, cursor) ← vec.read payload
  (features, cursor) ← vec.read cursor
  stream ← Tlv.decode cursor
  tlvs ← from_stream stream
  ok (record { globalfeatures = globalfeatures; features = features; tlvs = tlvs })
