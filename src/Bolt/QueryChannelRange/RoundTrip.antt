-- ===== src/Bolt/QueryChannelRange/RoundTrip.antt =====
-- The `query_channel_range` message: its valid values, and round trips of its codec.
use mathlib.Core.Option
use ln_gossip_sim.Base.{
  ℕ, ◌≤◌, ◌≡◌, refl, arith, Option, none, some, [], ◌++◌, append-nil, length, Bytes, AllBytes, ok,
  ◌>>=◌, Ensures, holds, Ensures-bind,
}
use ln_gossip_sim.Bolt.Types.{big_size_len}
use ln_gossip_sim.Bolt.Wire.{array, u32, big_size}
use ln_gossip_sim.Bolt.Wire.Arrays.{IsArray, array-IsLawful, Fits, uint-IsLawful}
use ln_gossip_sim.Bolt.Wire.BigSizes.{big_size-IsLawful, length-big_size}
use ln_gossip_sim.Bolt.Tlv
use ln_gossip_sim.Bolt.Tlv.{TlvStream}
use ln_gossip_sim.Bolt.Tlv.Order.{IsStream}
use ln_gossip_sim.Bolt.Tlv.Pair.{
  IsOptional, pair_of, add_pair, get-first, pair-IsStream, get-IsOptional,
}
use ln_gossip_sim.Bolt.Tlv.RoundTrip as TlvRoundTrip
use ln_gossip_sim.Bolt.QueryChannelRange.{QueryChannelRange, encode, decode, parse_option}

-- Flags of 64 bits, if there are any.
abbrev pub IsOption : Option ℕ → Type 0
IsOption none = Unit
IsOption (some flags) = Fits 8 flags

pub record IsValid (m : QueryChannelRange) : Type 0 where
  pub chain_hash : IsArray 32 m.chain_hash
  pub first_blocknum : Fits 4 m.first_blocknum
  pub number_of_blocks : Fits 4 m.number_of_blocks
  pub query_option : IsOption m.query_option

length-big_size-le : (v : ℕ) → length (big_size.write v) ≤ 9
length-big_size-le v = rw (length-big_size v) (unfold big_size_len in ground arith)

option_value : (o : Option ℕ) → IsOption o → IsOptional (Option.map big_size.write o)
option_value none h = tt
option_value (some flags) h =
    (omega (arith, length-big_size-le flags), big_size-IsLawful.write-AllBytes flags h)

parse_option-write : (o : Option ℕ) → IsOption o → parse_option (Option.map big_size.write o) ≡ ok o
unfolding parse_option
parse_option-write none h = refl
parse_option-write (some flags) h =
    let whole = rw append-nil at (big_size-IsLawful.read-write flags [] h) in rw whole

parse_option-Ensures : (o : Option Bytes) → IsOptional o → Ensures IsOption (parse_option o)
unfolding parse_option
parse_option-Ensures none h = holds tt
parse_option-Ensures (some value) h =
    Ensures-bind (big_size-IsLawful.read-Ensures value h.1) λ (flags, rest) p. holds p.0

abbrev stream_of : QueryChannelRange → TlvStream
stream_of m = pair_of 1 (Option.map big_size.write m.query_option) 3 none

abbrev front_of : QueryChannelRange → Bytes → Bytes
front_of m rest =
    (array 32).write m.chain_hash
    ++ (u32.write m.first_blocknum ++ (u32.write m.number_of_blocks ++ rest))

-- Encoding a message does not panic.
pub encode_lem {ℓ} :
    {E : Type ℓ} (m : QueryChannelRange)
    → encode {E = E} m ≡ ok (front_of m (Tlv.encode (stream_of m)))
unfolding encode
encode_lem m =
    add_pair 1 3 (omega arith) (Option.map big_size.write m.query_option) none
      (λ s. ok (front_of m (Tlv.encode s)))

stream_of-IsStream : (m : QueryChannelRange) → IsValid m → IsStream none [] (stream_of m).records
stream_of-IsStream m v =
    pair-IsStream 1 3 (omega arith) [] (Option.map big_size.write m.query_option) none (omega arith)
      (λ e. absurd (omega arith)) (λ e. absurd (omega arith))
      (option_value m.query_option v.query_option) tt

-- Encoding does not panic, and decoding gives the message back.
pub decode-encode : (m : QueryChannelRange) → IsValid m → (encode m >>= decode) ≡ ok m
unfolding decode Tlv.decode
decode-encode m v = rw (
  encode_lem m,
  (array-IsLawful 32).read-write m.chain_hash _ v.chain_hash,
  (uint-IsLawful 4).read-write m.first_blocknum _ v.first_blocknum,
  (uint-IsLawful 4).read-write m.number_of_blocks _ v.number_of_blocks,
  TlvRoundTrip.decode-encode (stream_of m) [] (stream_of-IsStream m v),
  get-first 1 3 (omega arith) (Option.map big_size.write m.query_option) none,
  parse_option-write m.query_option v.query_option,
)

-- Decoding any payload ends in an error or with a valid message.
pub decode-Ensures : (payload : Bytes) → AllBytes payload → Ensures IsValid (decode payload)
unfolding decode Tlv.decode
decode-Ensures payload h = Ensures-bind ((array-IsLawful 32).read-Ensures payload h) λ (a₁, c₁) p₁.
    Ensures-bind ((uint-IsLawful 4).read-Ensures c₁ p₁.1) λ (a₂, c₂) p₂.
      Ensures-bind ((uint-IsLawful 4).read-Ensures c₂ p₂.1) λ (a₃, c₃) p₃.
        Ensures-bind (TlvRoundTrip.decode_with_known-Ensures c₃ [] p₃.1) λ s q.
          Ensures-bind (parse_option-Ensures (Tlv.get s 1) (get-IsOptional [] s 1 q.0)) λ o r.
            holds (record {
              chain_hash = p₁.0;
              first_blocknum = p₂.0;
              number_of_blocks = p₃.0;
              query_option = r;
            })
