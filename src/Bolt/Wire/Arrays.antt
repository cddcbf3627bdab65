-- ===== src/Bolt/Wire/Arrays.antt =====
-- The formats of bolt/src/wire.rs of a fixed size: byte arrays and unsigned integers.
use ln_gossip_sim.Base.{
  ℕ, ◌^◌, ◌≤◌, ◌<◌, ◌≡◌, arith, ltb→le, ltb, leb, ◌++◌, length, length-append, take-append,
  drop-append, take-append-drop, length-take, All-take, All-drop, Bytes, AllBytes, ok, err, Ensures,
  holds, rejected, Ensures-if, Ensures-bind,
}
use ln_gossip_sim.Base.Words.{
  to_be_bytes, from_be_bytes, length-to_be_bytes, to_be_bytes-AllBytes, from_be_bytes-to_be_bytes,
  to_be_bytes-from_be_bytes, from_be_bytes-lt,
}
use ln_gossip_sim.Bolt.Types.{BoltError, truncated}
use ln_gossip_sim.Bolt.Wire.{channel_id, split_at, read_array, array, read_uint, uint}
use ln_gossip_sim.Bolt.Wire.Laws.{IsLawful}

abbrev pub IsArray : ℕ → Bytes → Type 0
IsArray n bytes = (length bytes ≡ n) × AllBytes bytes

abbrev pub Fits : ℕ → ℕ → Type 0
Fits size v = v < 256 ^ size

pub split_at-append {ℓ} :
    {E : Type ℓ} (n : ℕ) (front back : Bytes)
    → length front ≡ n
    → split_at {E = E} n (front ++ back) ≡ ok (front, back)
unfolding split_at
split_at-append n front back h =
    rw (← h)
      (ground (arith, length-append front back, take-append front back, drop-append front back))

-- A slice within bounds does not panic.
pub split_at-Ensures {ℓ} :
    {E : Type ℓ} (n : ℕ) (bytes : Bytes)
    → AllBytes bytes
    → n ≤ length bytes
    → Ensures {E = E}
        (λ (front, back). IsArray n front × AllBytes back × (bytes ≡ front ++ back))
        (split_at n bytes)
unfolding split_at
split_at-Ensures n bytes h le =
    Ensures-if (leb n (length bytes))
      (λ _. holds (
        (length-take n bytes le, All-take _ n bytes h),
        All-drop _ n bytes h,
        take-append-drop n bytes,
      ))
      (λ e. absurd (ground arith))

read_array-append :
    (n : ℕ) (front back : Bytes)
    → length front ≡ n
    → read_array n (front ++ back) ≡ ok (front, back)
unfolding read_array
read_array-append n front back h =
    ground (arith, length-append front back, split_at-append {E = BoltError} n front back h)

-- Too short an input is refused with the length wanted and the length found.
pub array_truncated :
    (n : ℕ) (bytes : Bytes)
    → length bytes < n
    → (array n).read bytes ≡ err (truncated n (length bytes))
unfolding array read_array
array_truncated n bytes h = ground arith

pub array-IsLawful : (n : ℕ) → IsLawful (array n) (IsArray n)
unfolding array
array-IsLawful n = record {
  read-write = λ a rest h. read_array-append n a rest h.0;
  read-Ensures = λ bytes h.
      unfold read_array in
      Ensures-if (ltb (length bytes) n) (λ _. rejected)
        (λ e. split_at-Ensures n bytes h (ltb→le _ _ e));
  write-AllBytes = λ a h. h.1;
}

pub array-append :
    (n : ℕ) (front back : Bytes)
    → length front ≡ n
    → (array n).read (front ++ back) ≡ ok (front, back)
unfolding array
array-append n front back h = read_array-append n front back h

-- What an array read returned stood at the front of the input.
pub array-Ensures :
    (n : ℕ) (bytes : Bytes)
    → AllBytes bytes
    → Ensures
        (λ (a, rest). IsArray n a × AllBytes rest × (bytes ≡ a ++ rest))
        ((array n).read bytes)
unfolding array
array-Ensures n bytes h = (array-IsLawful n).read-Ensures bytes h

-- An integer that fits its size is read back from its big-endian bytes, and reading any bytes ends in
-- an error, or with the integer whose encoding was consumed.
pub uint-IsLawful : (size : ℕ) → IsLawful (uint size) (Fits size)
unfolding uint read_uint
uint-IsLawful size = record {
  read-write = λ v rest h. rw (
    array-append size (to_be_bytes size v) rest (length-to_be_bytes size v),
    from_be_bytes-to_be_bytes size v h,
  );
  read-Ensures = λ bytes h. Ensures-bind (array-Ensures size bytes h) λ (a, rest) p. holds (
    from_be_bytes-lt size a p.0.1 p.0.0,
    p.1,
    rw (to_be_bytes-from_be_bytes size a p.0.1 p.0.0) p.2,
  );
  write-AllBytes = λ v h. to_be_bytes-AllBytes size v;
}

pub channel_id-IsLawful : IsLawful channel_id (IsArray 32)
unfolding channel_id
channel_id-IsLawful = array-IsLawful 32

-- An integer is written as an array of its size, which `from_be_bytes` reads back.
pub uint-IsArray : (size v : ℕ) → IsArray size ((uint size).write v)
unfolding uint
uint-IsArray size v = (length-to_be_bytes size v, to_be_bytes-AllBytes size v)

pub from_be_bytes-write : (size v : ℕ) → Fits size v → from_be_bytes ((uint size).write v) ≡ v
unfolding uint
from_be_bytes-write size v h = from_be_bytes-to_be_bytes size v h

pub write-from_be_bytes :
    (size : ℕ) (bytes : Bytes)
    → IsArray size bytes
    → (uint size).write (from_be_bytes bytes) ≡ bytes
unfolding uint
write-from_be_bytes size bytes h = to_be_bytes-from_be_bytes size bytes h.1 h.0
