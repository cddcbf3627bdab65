-- ===== src/Examples/Codecs.antt =====
-- The theorems on messages and on TLV streams at small inputs.
use Prim.Native.Nat.{min}
use ln_gossip_sim.Base.{
  ℕ, ◌+◌, ◌≤◌, ◌<◌, ◌≡◌, ◌↔◌, refl, arith, true, none, some, List, [], ◌∷◌, ◌++◌, length, drop,
  replicate, All, if◌then◌else◌, ◌==◌, Bytes, AllBytes, ok, panic, ◌>>=◌, Ensures, length-replicate,
}
use ln_gossip_sim.Bolt.Types.{BoltError, max_message_size}
use ln_gossip_sim.Bolt.Wire.{u8, uint}
use ln_gossip_sim.Bolt.Wire.Laws.{IsLawful}
use ln_gossip_sim.Bolt.Wire.Arrays.{Fits, uint-IsLawful}
use ln_gossip_sim.Bolt.Tlv.{TlvRecord, TlvStream, add, find_value, get, decode_with_known}
use ln_gossip_sim.Bolt.Tlv
use ln_gossip_sim.Bolt.Tlv.Order.{IsStream}
use ln_gossip_sim.Bolt.Tlv.Add.{IsSorted, add_fresh, add_duplicate}
use ln_gossip_sim.Bolt.Tlv.RoundTrip.{decode-eq-ok_iff, decode_with_known-Ensures}
use ln_gossip_sim.Bolt.Ping.{Ping}
use ln_gossip_sim.Bolt.Error.{Error, for_channel}
use ln_gossip_sim.Bolt.Pong.{respond_to}
use ln_gossip_sim.Bolt.Message.{ping, pong, error, encode, decode}
use ln_gossip_sim.Bolt.Message.RoundTrip.{IsValid, decode-encode, decode-Ensures}
use ln_gossip_sim.Bolt.Message.Sizes.{respond_to_fits, for_channel_oversized}
use ln_gossip_sim.Bolt.ReplyChannelRange.{
  ReplyChannelRange, from_scids, short_channel_ids, write_scids,
}
use ln_gossip_sim.Bolt.ReplyChannelRange.ShortIds.{
  short_channel_ids-from_scids, short_channel_ids-Ensures,
}
use ln_gossip_sim.Bolt.ChannelAnnouncement
use ln_gossip_sim.Bolt.ChannelAnnouncement.{ChannelAnnouncement}
use ln_gossip_sim.Bolt.ChannelAnnouncement.Signing.{
  AllVerify, signature_hash_offset, new_signed-AllVerify,
}
use ln_gossip_sim.Bolt.ChannelUpdate
use ln_gossip_sim.Bolt.ChannelUpdate.{ChannelUpdate}
use ln_gossip_sim.Bolt.ChannelUpdate.Signing.{verify_ecdsa-new_signed}
use ln_gossip_sim.Examples.Instances.{bitcoin, bitcoin_laws, signs_correctly, blank}

abbrev small_ping : Ping
small_ping = record { num_pong_bytes = 4; ignored = 0 ∷ 255 ∷ [] }

small_ping-IsValid : IsValid bitcoin (ping small_ping)
small_ping-IsValid = omega arith

decode-encode_example : (encode bitcoin (ping small_ping) >>= decode bitcoin) ≡ ok (ping small_ping)
decode-encode_example = decode-encode bitcoin bitcoin_laws (ping small_ping) small_ping-IsValid

-- The type of a ping, and an answer of 4 bytes without padding.
abbrev input : Bytes
input = 0 ∷ 18 ∷ 0 ∷ 4 ∷ 0 ∷ 0 ∷ []

input-AllBytes : AllBytes input
input-AllBytes = omega arith

decode-Ensures_example : Ensures (IsValid bitcoin) (decode bitcoin input)
decode-Ensures_example = decode-Ensures bitcoin bitcoin_laws input input-AllBytes

abbrev first_record : TlvRecord
first_record = record { tlv_type = 1; value = 7 ∷ 8 ∷ [] }

abbrev stream : TlvStream
stream = record { records = first_record ∷ [] }

abbrev stream_bytes : Bytes
stream_bytes = 1 ∷ 2 ∷ 7 ∷ 8 ∷ []

stream_bytes-AllBytes : AllBytes stream_bytes
stream_bytes-AllBytes = omega arith

decode-eq-ok_iff_example :
    (decode_with_known stream_bytes (2 ∷ []) ≡ ok stream)
    ↔ (IsStream none (2 ∷ []) (stream.records) × (stream_bytes ≡ Tlv.encode stream))
decode-eq-ok_iff_example = decode-eq-ok_iff stream_bytes (2 ∷ []) stream stream_bytes-AllBytes

decode_with_known-Ensures_example :
    Ensures
      (λ s. IsStream none [] s.records × (stream_bytes ≡ Tlv.encode s))
      (decode_with_known stream_bytes [])
decode_with_known-Ensures_example = decode_with_known-Ensures stream_bytes [] stream_bytes-AllBytes

stream-IsSorted : IsSorted none stream.records
stream-IsSorted = (tt, tt)

get-absent : get stream 5 ≡ none
unfolding get find_value
get-absent = refl

get-present : get stream 1 ≡ some (7 ∷ 8 ∷ [])
unfolding get find_value
get-present = refl

add_fresh_example :
    (s : TlvStream) × (add {E = BoltError} stream 5 (9 ∷ []) ≡ ok s)
    × IsSorted none s.records
    × ((u : ℕ) → get s u ≡ (if 5 == u then some (9 ∷ []) else get stream u))
add_fresh_example = add_fresh stream 5 (9 ∷ []) stream-IsSorted get-absent

add_duplicate_example : add {E = BoltError} stream 1 (9 ∷ []) ≡ panic
add_duplicate_example = add_duplicate stream 1 (9 ∷ []) (7 ∷ 8 ∷ []) stream-IsSorted get-present

uint-IsLawful_example : IsLawful (uint 4) (Fits 4)
uint-IsLawful_example = uint-IsLawful 4

respond_to_fits_example :
    (bytes : Bytes) × (encode {E = BoltError} bitcoin (pong (respond_to small_ping)) ≡ ok bytes)
    × (length bytes ≡ 4 + min 4 65531)
    × (length bytes ≤ max_message_size)
respond_to_fits_example = respond_to_fits bitcoin small_ping

abbrev long_text : Bytes
long_text = replicate 65500 b'x'

long_text-length : length long_text ≡ 65500
long_text-length = length-replicate {A = ℕ} 65500 b'x'

for_channel_oversized_example :
    (m : Error) × (for_channel {E = BoltError} (replicate 32 1) long_text ≡ ok m)
    × (bytes : Bytes) × (encode {E = BoltError} bitcoin (error m) ≡ ok bytes)
    × (max_message_size < length bytes)
for_channel_oversized_example =
    for_channel_oversized bitcoin (replicate 32 1) long_text refl (omega (arith, long_text-length))
      (omega (arith, long_text-length))

abbrev scids : List ℕ
scids = 1 ∷ 0x0102_0304_0506_0708 ∷ []

scids-Fit : All (Fits 8) scids
scids-Fit = omega arith

short_channel_ids-from_scids_example :
    short_channel_ids (from_scids (replicate 32 6) 100 20 true scids) ≡ ok scids
short_channel_ids-from_scids_example =
    short_channel_ids-from_scids (replicate 32 6) 100 20 true scids scids-Fit

abbrev reply : ReplyChannelRange
reply = record {
  chain_hash = replicate 32 6;
  first_blocknum = 100;
  number_of_blocks = 20;
  sync_complete = 1;
  encoded_short_ids = 0 ∷ 0 ∷ 0 ∷ 0 ∷ 0 ∷ 0 ∷ 0 ∷ 0 ∷ 9 ∷ [];
  tlvs = record { timestamps = none; checksums = none };
}

short_channel_ids-Ensures_example :
    Ensures
      (λ ids. All (Fits 8) ids × (reply.encoded_short_ids ≡ u8.write 0 ++ write_scids ids))
      (short_channel_ids reply)
short_channel_ids-Ensures_example = short_channel_ids-Ensures reply (omega arith)

abbrev announcement : ChannelAnnouncement bitcoin
announcement =
    ChannelAnnouncement.new_signed bitcoin [] (replicate 32 6) 42 (blank 33) (blank 33) (blank 33)
      (blank 33)

signature_hash_offset_example :
    ChannelAnnouncement.signature_hash bitcoin announcement
    ≡ bitcoin.sha256d
        (drop 64 (drop 64 (drop 64 (drop 64 (ChannelAnnouncement.encode bitcoin announcement)))))
signature_hash_offset_example = signature_hash_offset bitcoin bitcoin_laws announcement

new_signed-AllVerify_example : AllVerify bitcoin announcement
new_signed-AllVerify_example =
    new_signed-AllVerify bitcoin signs_correctly [] (replicate 32 6) 42 (blank 33) (blank 33)
      (blank 33) (blank 33)

abbrev update : ChannelUpdate bitcoin
update = ChannelUpdate.new_signed bitcoin (replicate 32 6) 42 7 1 0 40 1000 1 10 5000 (blank 33)

verify_ecdsa-new_signed_example :
    bitcoin.verify_ecdsa
      (ChannelUpdate.signature_hash bitcoin update)
      update.signature
      (bitcoin.from_secret_key (blank 33))
    ≡ true
verify_ecdsa-new_signed_example =
    verify_ecdsa-new_signed bitcoin signs_correctly (replicate 32 6) 42 7 1 0 40 1000 1 10 5000
      (blank 33)
