-- ===== src/Bolt/Wire.antt =====
-- bolt/src/wire.rs: the trait `WireFormat` and its instances. `read` returns the value and the rest
-- of the slice; after an error no caller looks at the slice again. `write` returns the bytes that
-- it appends to its output.
use Prim.Native.Nat.{◌%◌, ◌^◌, ◌-◌}
use ln_gossip_sim.Base.{
  ℕ, ◌<◌, Option, none, some, [], ◌∷◌, ◌++◌, ltb, leb, ◌==◌, if◌then◌else◌, length, take, drop,
  Bytes, Outcome, ok, err, panic, ◌>>=◌, map_err,
}
use ln_gossip_sim.Base.Words.{to_be_bytes, from_be_bytes}
use ln_gossip_sim.Bitcoin.{Bitcoin}
use ln_gossip_sim.Bolt.Types.{
  BoltError, truncated, invalid_public_key, invalid_signature, big_size_not_minimal,
  big_size_truncated, channel_id_size, txid_size, compact_signature_size, public_key_size,
}
pub mod Laws
pub mod Arrays
pub mod BigSizes
pub mod Vectors
pub mod Keys
pub mod Lengths
pub mod Signed

pub record WireFormat (A : Type 0) : Type 0 where
  pub read : Bytes → Outcome BoltError (A × Bytes)
  pub write : A → Bytes

-- The slices `&data[..n]` and `&data[n..]`, which panic if the data is shorter.
unfoldable pub split_at {ℓ} : {E : Type ℓ} → ℕ → Bytes → Outcome E (Bytes × Bytes)
split_at n bytes = if leb n (length bytes) then ok (take n bytes, drop n bytes) else panic

-- `[u8; N]`
read_array : ℕ → Bytes → Outcome BoltError (Bytes × Bytes)
read_array n bytes =
    if ltb (length bytes) n then err (truncated n (length bytes)) else split_at n bytes

pub array : ℕ → WireFormat Bytes
array n = record { read = read_array n; write = λ bytes. bytes }

-- `impl_wire_format_int!` for an unsigned integer of `size` bytes.
read_uint : ℕ → Bytes → Outcome BoltError (ℕ × Bytes)
read_uint size input = do
  (bytes, cursor) ← (array size).read input
  ok (from_be_bytes bytes, cursor)

pub uint : ℕ → WireFormat ℕ
uint size = record { read = read_uint size; write = to_be_bytes size }

abbrev pub u8 : WireFormat ℕ
u8 = uint 1

abbrev pub u16 : WireFormat ℕ
u16 = uint 2

abbrev pub u32 : WireFormat ℕ
u32 = uint 4

abbrev pub u64 : WireFormat ℕ
u64 = uint 8

-- The three longer forms of a `BigSize`: an integer that the shorter forms could not hold.
read_minimal : WireFormat ℕ → ℕ → Bytes → Outcome BoltError (ℕ × Bytes)
read_minimal format least input = do
  (value, cursor) ← map_err (λ _. big_size_truncated) (format.read input)
  if ltb value least then err big_size_not_minimal else ok (value, cursor)

read_big_size : Bytes → Outcome BoltError (ℕ × Bytes)
read_big_size input = do
  (prefix, cursor) ← map_err (λ _. big_size_truncated) (u8.read input)
  if ltb prefix 0xfd
      then ok (prefix, cursor)
      else if prefix == 0xfd
      then read_minimal u16 0xfd cursor
      else if prefix == 0xfe
      then read_minimal u32 0x1_0000 cursor
      else read_minimal u64 0x1_0000_0000 cursor

-- The casts `value as u8`, `as u16`, `as u32` keep the low bits.
write_big_size : ℕ → Bytes
write_big_size value =
    if ltb value 0xfd
    then u8.write (value % 2 ^ 8)
    else if ltb value 0x1_0000
    then u8.write 0xfd ++ u16.write (value % 2 ^ 16)
    else if ltb value 0x1_0000_0000
    then u8.write 0xfe ++ u32.write (value % 2 ^ 32)
    else u8.write 0xff ++ u64.write value

pub big_size : WireFormat ℕ
big_size = record { read = read_big_size; write = write_big_size }

-- `Vec<u8>`: a 16-bit length and the bytes. The length is cast by `as u16`.
read_vec : Bytes → Outcome BoltError (Bytes × Bytes)
read_vec input = do
  (len, cursor) ← u16.read input
  if ltb (length cursor) len then err (truncated len (length cursor)) else split_at len cursor

write_vec : Bytes → Bytes
write_vec bytes = u16.write (length bytes % 2 ^ 16) ++ bytes

pub vec : WireFormat Bytes
vec = record { read = read_vec; write = write_vec }

pub channel_id : WireFormat Bytes
channel_id = array channel_id_size

module _ (b : Bitcoin) where
  read_public_key : Bytes → Outcome BoltError (b.PublicKey × Bytes)
  read_public_key input = do
    (buf, cursor) ← (array public_key_size).read input
    elim (b.public_key_from_slice buf) [
      | none ↦ err (invalid_public_key buf)
      | some pubkey ↦ ok (pubkey, cursor)
    ]

  pub public_key : WireFormat b.PublicKey
  public_key = record { read = read_public_key; write = b.serialize }

  read_txid : Bytes → Outcome BoltError (b.Txid × Bytes)
  read_txid input = do
    (buf, cursor) ← (array txid_size).read input
    ok (b.txid_from_byte_array buf, cursor)

  pub txid : WireFormat b.Txid
  txid = record { read = read_txid; write = b.txid_to_byte_array }

  read_signature : Bytes → Outcome BoltError (b.Signature × Bytes)
  read_signature input = do
    (buf, cursor) ← (array compact_signature_size).read input
    elim (b.from_compact buf) [ none ↦ err (invalid_signature buf) | some sig ↦ ok (sig, cursor) ]

  pub signature : WireFormat b.Signature
  signature = record { read = read_signature; write = b.serialize_compact }
