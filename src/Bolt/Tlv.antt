-- ===== src/Bolt/Tlv.antt =====
-- bolt/src/tlv.rs: streams of type-length-value records. The loop of `decode_with_known` runs on
-- fuel; each round takes two bytes at least, so as many rounds as there are bytes are enough.
use ln_gossip_sim.Base.{
  ℕ, zero, suc, ◌%◌, Bool, true, false, not, ◌&&◌, ◌||◌, Option, none, some, List, [], ◌∷◌, ◌++◌,
  ltb, leb, ◌==◌, if◌then◌else◌, length, get_elem?, Bytes, Outcome, ok, err, panic, stuck, ◌>>=◌,
}
use ln_gossip_sim.Bolt.Types.{
  BoltError, tlv_not_increasing, tlv_length_overflow, tlv_unknown_even_type,
}
use ln_gossip_sim.Bolt.Wire.{big_size, split_at}
pub mod Order
pub mod RoundTrip
pub mod Add
pub mod Pair

pub record TlvRecord : Type 0 where
  pub tlv_type : ℕ
  pub value : Bytes

pub record TlvStream : Type 0 where
  pub records : List TlvRecord

-- `TlvStream::new`
abbrev pub empty : TlvStream
empty = record { records = [] }

-- The index of the first record of this type or a larger one, or else the number of records.
position : ℕ → List TlvRecord → ℕ
position tlv_type [] = 0
position tlv_type (r ∷ rs) = if leb tlv_type r.tlv_type then 0 else suc (position tlv_type rs)

-- `Vec::insert`, at an index within the bounds.
insert_at {ℓ} : {A : Type ℓ} → ℕ → A → List A → List A
insert_at zero a xs = a ∷ xs
insert_at (suc n) a [] = a ∷ []
insert_at (suc n) a (x ∷ xs) = x ∷ insert_at n a xs

-- The index is out of bounds exactly if it is the number of records.
unfoldable pub add {ℓ} : {E : Type ℓ} → TlvStream → ℕ → Bytes → Outcome E TlvStream
unfolding position insert_at
add stream tlv_type value =
    let pos = position tlv_type stream.records in
    let added : TlvStream = record {
      records = insert_at pos (record { tlv_type = tlv_type; value = value }) stream.records;
    } in
    elim (get_elem? stream.records pos) [
      | none ↦ ok added
      | some r ↦ if r.tlv_type == tlv_type then panic else ok added
    ]

-- `if let Some(value) = value { stream.add(tlv_type, value) }`
abbrev pub add_option {ℓ} : {E : Type ℓ} → TlvStream → ℕ → Option Bytes → Outcome E TlvStream
add_option stream tlv_type none = ok stream
add_option stream tlv_type (some value) = add stream tlv_type value

unfoldable pub find_value : ℕ → List TlvRecord → Option Bytes
find_value tlv_type [] = none
find_value tlv_type (r ∷ rs) =
    if r.tlv_type == tlv_type then some r.value else find_value tlv_type rs

unfoldable pub get : TlvStream → ℕ → Option Bytes
unfolding find_value
get stream tlv_type = find_value tlv_type stream.records

encode_records : List TlvRecord → Bytes
encode_records [] = []
encode_records (r ∷ rs) =
    big_size.write r.tlv_type ++ (big_size.write (length r.value) ++ (r.value ++ encode_records rs))

pub encode : TlvStream → Bytes
encode stream = encode_records stream.records

contains : List ℕ → ℕ → Bool
contains [] a = false
contains (x ∷ xs) a = x == a || contains xs a

-- `last_type` is the type of the record before, if there is one.
check_order : Option ℕ → ℕ → Outcome BoltError (Unit {0})
check_order none tlv_type = ok tt
check_order (some prev) tlv_type =
    if leb tlv_type prev then err (tlv_not_increasing prev tlv_type) else ok tt

-- One round of the loop: the record at the front of the cursor, and the cursor behind it.
-- `usize` has 64 bits, so the conversion of the length does not fail.
read_record : Option ℕ → List ℕ → Bytes → Outcome BoltError (TlvRecord × Bytes)
read_record last_type known_even input = do
  (tlv_type, cursor) ← big_size.read input
  _ ← check_order last_type tlv_type
  (len, cursor) ← big_size.read cursor
  if ltb (length cursor) len
      then err tlv_length_overflow
      else if tlv_type % 2 == 0 && not (contains known_even tlv_type)
      then err (tlv_unknown_even_type tlv_type)
      else do
        (value, cursor) ← split_at len cursor
        ok (record { tlv_type = tlv_type; value = value }, cursor)

decode_loop : ℕ → Bytes → Option ℕ → List ℕ → List TlvRecord → Outcome BoltError (List TlvRecord)
decode_loop fuel [] last_type known_even records = ok records
decode_loop zero (b ∷ bs) last_type known_even records = stuck
decode_loop (suc fuel) (b ∷ bs) last_type known_even records = do
  (r, cursor) ← read_record last_type known_even (b ∷ bs)
  decode_loop fuel cursor (some r.tlv_type) known_even (records ++ r ∷ [])

pub decode_with_known : Bytes → List ℕ → Outcome BoltError TlvStream
decode_with_known input known_even = do
  records ← decode_loop (length input) input none known_even []
  ok (record { records = records })

unfoldable pub decode : Bytes → Outcome BoltError TlvStream
decode input = decode_with_known input []
