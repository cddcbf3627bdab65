-- ===== src/Bolt/Init/RoundTrip.antt =====
-- The `init` message: its valid values, and round trips of its codec.
use mathlib.Core.Option
use ln_gossip_sim.Base.{
  ◌+◌, ◌*◌, ◌^◌, ◌<◌, ◌≡◌, refl, arith, Option, none, some, List, [], ◌∷◌, ◌++◌, length, Bytes,
  AllBytes, ok, err, ◌>>=◌, Ensures, holds, rejected, Ensures-bind,
}
use ln_gossip_sim.Base.Chunks.{
  as_chunks, concat, AllChunks, length-concat, concat-AllBytes, as_chunks-concat,
  as_chunks-AllChunks, length-as_chunks-le,
}
use ln_gossip_sim.Bolt.Types.{truncated}
use ln_gossip_sim.Bolt.Wire.{vec}
use ln_gossip_sim.Bolt.Wire.Vectors.{IsVec, vec-IsLawful}
use ln_gossip_sim.Bolt.Tlv
use ln_gossip_sim.Bolt.Tlv.{TlvStream}
use ln_gossip_sim.Bolt.Tlv.Order.{IsStream}
use ln_gossip_sim.Bolt.Tlv.Pair.{
  IsOptional, pair_of, add_pair, get-first, get-second, pair-IsStream, get-IsOptional,
}
use ln_gossip_sim.Bolt.Tlv.RoundTrip as TlvRoundTrip
use ln_gossip_sim.Bolt.Init.{Init, InitTlvs, encode, decode, from_stream, parse_networks}

-- Chain hashes of 32 bytes each, which fit a TLV value together.
abbrev pub IsNetworks : Option (List Bytes) → Type 0
IsNetworks none = Unit
IsNetworks (some hashes) = AllChunks 32 hashes × (length hashes * 32 < 2 ^ 64)

abbrev Sound : InitTlvs → Type 0
Sound tlvs = IsNetworks tlvs.networks × IsOptional tlvs.remote_addr

pub record IsValid (m : Init) : Type 0 where
  pub globalfeatures : IsVec m.globalfeatures
  pub features : IsVec m.features
  pub networks : IsNetworks m.tlvs.networks
  pub remote_addr : IsOptional m.tlvs.remote_addr

networks_value : (o : Option (List Bytes)) → IsNetworks o → IsOptional (Option.map concat o)
networks_value none h = tt
networks_value (some hashes) h =
    (omega (arith, length-concat 32 hashes h.0), concat-AllBytes 32 hashes h.0)

parse_networks-concat :
    (o : Option (List Bytes)) → IsNetworks o → parse_networks (Option.map concat o) ≡ ok o
unfolding parse_networks
parse_networks-concat none h = refl
parse_networks-concat (some hashes) h =
    let split = as_chunks-concat 32 hashes (omega arith) h.0 in
    rw (split, parse_networks) (rw split)

parse_networks-Ensures : (o : Option Bytes) → IsOptional o → Ensures IsNetworks (parse_networks o)
unfolding parse_networks
parse_networks-Ensures none h = holds tt
parse_networks-Ensures (some value) h = whole (as_chunks 32 value).0 (as_chunks 32 value).1 (
  as_chunks-AllChunks 32 value (omega arith) h.1,
  omega (arith, length-as_chunks-le 32 value (omega arith), h.0),
)
  where
    whole :
        (hashes : List Bytes) (remainder : Bytes)
        → AllChunks 32 hashes × (length hashes * 32 < 2 ^ 64)
        → Ensures IsNetworks (elim remainder [
          | [] ↦ ok (some hashes)
          | _ ∷ _ ↦ err (truncated ((length hashes + 1) * 32) (length value))
        ])
    whole hashes [] v = holds v
    whole hashes (b ∷ bs) v = rejected

abbrev pub stream_of : Init → TlvStream
stream_of m = pair_of 1 (Option.map concat m.tlvs.networks) 3 m.tlvs.remote_addr

-- Encoding a message does not panic.
pub encode_lem {ℓ} :
    {E : Type ℓ} (m : Init)
    → encode {E = E} m
      ≡ ok (vec.write m.globalfeatures ++ (vec.write m.features ++ Tlv.encode (stream_of m)))
unfolding encode
encode_lem m =
    add_pair 1 3 (omega arith) (Option.map concat m.tlvs.networks) m.tlvs.remote_addr
      (λ s. ok (vec.write m.globalfeatures ++ (vec.write m.features ++ Tlv.encode s)))

from_stream-pair : (m : Init) → IsValid m → from_stream (stream_of m) ≡ ok m.tlvs
unfolding from_stream
from_stream-pair m v = rw (
  get-first 1 3 (omega arith) (Option.map concat m.tlvs.networks) m.tlvs.remote_addr,
  get-second 1 3 (omega arith) (Option.map concat m.tlvs.networks) m.tlvs.remote_addr,
  parse_networks-concat m.tlvs.networks v.networks,
)

stream_of-IsStream : (m : Init) → IsValid m → IsStream none [] (stream_of m).records
stream_of-IsStream m v =
    pair-IsStream 1 3 (omega arith) [] (Option.map concat m.tlvs.networks) m.tlvs.remote_addr
      (omega arith) (λ e. absurd (omega arith)) (λ e. absurd (omega arith))
      (networks_value m.tlvs.networks v.networks) v.remote_addr

-- Encoding does not panic, and decoding gives the message back.
pub decode-encode : (m : Init) → IsValid m → (encode m >>= decode) ≡ ok m
unfolding decode Tlv.decode
decode-encode m v = rw (
  encode_lem m,
  vec-IsLawful.read-write m.globalfeatures _ v.globalfeatures,
  vec-IsLawful.read-write m.features _ v.features,
  TlvRoundTrip.decode-encode (stream_of m) [] (stream_of-IsStream m v),
  from_stream-pair m v,
)

-- Decoding any payload ends in an error or with a valid message.
pub decode-Ensures : (payload : Bytes) → AllBytes payload → Ensures IsValid (decode payload)
unfolding decode Tlv.decode from_stream
decode-Ensures payload h = Ensures-bind (vec-IsLawful.read-Ensures payload h) λ (global, c₁) p₁.
    Ensures-bind (vec-IsLawful.read-Ensures c₁ p₁.1) λ (features, c₂) p₂.
      Ensures-bind (TlvRoundTrip.decode_with_known-Ensures c₂ [] p₂.1) λ s p₃.
        Ensures-bind
          (Ensures-bind {Q = Sound}
            (parse_networks-Ensures (Tlv.get s 1) (get-IsOptional [] s 1 p₃.0))
            (λ networks p₄. holds (p₄, get-IsOptional [] s 3 p₃.0)))
          λ tlvs p₅.
            holds (record {
              globalfeatures = p₁.0;
              features = p₂.0;
              networks = p₅.0;
              remote_addr = p₅.1;
            })
