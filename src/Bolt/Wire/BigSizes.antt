-- ===== src/Bolt/Wire/BigSizes.antt =====
-- `BigSize` of bolt/src/wire.rs: 1, 3, 5 or 9 bytes, in the shortest form only.
use ln_gossip_sim.Base.{
  ℕ, ◌^◌, ◌%◌, ◌≤◌, ◌<◌, ◌≡◌, sym, arith, ltb, ◌==◌, Bool-cases, ltb→lt, ltb→le, inl, inr, lt→ltb,
  le→ltb, ==→eq, ◌++◌, append_assoc, length, length-append, Bytes, AllBytes, All-append, ok,
  Ensures, holds, false, rejected, Ensures-if, Ensures-bind, Ensures-map_err, Ensures-weaken,
}
use native.Mathlib.Nat.{mod-eq_of_lt}
use ln_gossip_sim.Base.Words.{length-to_be_bytes, to_be_bytes-AllBytes}
use ln_gossip_sim.Bolt.Types.{big_size_len}
use ln_gossip_sim.Bolt.Wire.{
  uint, u8, u16, u32, u64, read_minimal, read_big_size, write_big_size, big_size,
}
use ln_gossip_sim.Bolt.Wire.Laws.{IsLawful, Reads}
use ln_gossip_sim.Bolt.Wire.Arrays.{Fits, uint-IsLawful}

-- The four forms, without the casts.
form_1 : (v : ℕ) → v < 0xfd → write_big_size v ≡ u8.write v
unfolding write_big_size
form_1 v h = let fits : v % 2 ^ 8 ≡ v = omega arith in rw (lt→ltb v 0xfd h, fits)

form_3 : (v : ℕ) → 0xfd ≤ v → v < 0x1_0000 → write_big_size v ≡ u8.write 0xfd ++ u16.write v
unfolding write_big_size
form_3 v lo hi = rw (le→ltb v 0xfd lo, lt→ltb v 0x1_0000 hi, mod-eq_of_lt hi)

form_5 :
    (v : ℕ) → 0x1_0000 ≤ v → v < 0x1_0000_0000 → write_big_size v ≡ u8.write 0xfe ++ u32.write v
unfolding write_big_size
form_5 v lo hi =
    rw (
      le→ltb v 0xfd (omega arith),
      le→ltb v 0x1_0000 lo,
      lt→ltb v 0x1_0000_0000 hi,
      mod-eq_of_lt hi,
    )

form_9 : (v : ℕ) → 0x1_0000_0000 ≤ v → write_big_size v ≡ u8.write 0xff ++ u64.write v
unfolding write_big_size
form_9 v lo =
    rw (le→ltb v 0xfd (omega arith), le→ltb v 0x1_0000 (omega arith), le→ltb v 0x1_0000_0000 lo)

-- A long form behind its prefix byte.
read_minimal-write :
    (size least v : ℕ) (rest : Bytes)
    → least ≤ v
    → Fits size v
    → read_minimal (uint size) least ((uint size).write v ++ rest) ≡ ok (v, rest)
unfolding read_minimal
read_minimal-write size least v rest lo hi =
    rw ((uint-IsLawful size).read-write v rest hi, le→ltb v least lo)

read_minimal-Ensures :
    (size least : ℕ) (bytes : Bytes)
    → AllBytes bytes
    → Ensures
        (λ (v, rest).
          (least ≤ v) × Fits size v × AllBytes rest × (bytes ≡ (uint size).write v ++ rest))
        (read_minimal (uint size) least bytes)
unfolding read_minimal
read_minimal-Ensures size least bytes h =
    Ensures-bind (Ensures-map_err _ ((uint-IsLawful size).read-Ensures bytes h)) λ (v, rest) p.
      Ensures-if (ltb v least) (λ _. rejected) (λ e. holds (ltb→le v least e, p.0, p.1, p.2))

read_prefix :
    (prefix : ℕ) (rest : Bytes)
    → prefix < 256
    → u8.read (u8.write prefix ++ rest) ≡ ok (prefix, rest)
read_prefix prefix rest h = (uint-IsLawful 1).read-write prefix rest h

read-write_big_size :
    (v : ℕ) (rest : Bytes) → Fits 8 v → read_big_size (write_big_size v ++ rest) ≡ ok (v, rest)
unfolding read_big_size
read-write_big_size v rest h = elim (Bool-cases (ltb v 0xfd)) [
  | inl a ↦ rw (form_1 v (ltb→lt _ _ a), read_prefix v rest (omega (arith, ltb→lt _ _ a)), a)
  | inr a ↦ elim (Bool-cases (ltb v 0x1_0000)) [
    | inl c ↦ rw (
      form_3 v (ltb→le _ _ a) (ltb→lt _ _ c),
      append_assoc,
      read_prefix 0xfd _ (omega arith),
      read_minimal-write 2 0xfd v rest (ltb→le _ _ a) (ltb→lt _ _ c),
    )
    | inr c ↦ elim (Bool-cases (ltb v 0x1_0000_0000)) [
      | inl d ↦ rw (
        form_5 v (ltb→le _ _ c) (ltb→lt _ _ d),
        append_assoc,
        read_prefix 0xfe _ (omega arith),
        read_minimal-write 4 0x1_0000 v rest (ltb→le _ _ c) (ltb→lt _ _ d),
      )
      | inr d ↦ rw (
        form_9 v (ltb→le _ _ d),
        append_assoc,
        read_prefix 0xff _ (omega arith),
        read_minimal-write 8 0x1_0000_0000 v rest (ltb→le _ _ d) h,
      )
    ]
  ]
]

-- The value read is in its shortest form: the bytes consumed are those that `write` gives.
long_form :
    (size least prefix : ℕ) (bytes cursor : Bytes)
    → AllBytes cursor
    → bytes ≡ u8.write prefix ++ cursor
    → ((v : ℕ)
        → least ≤ v
        → Fits size v
        → write_big_size v ≡ u8.write prefix ++ (uint size).write v)
    → ((v : ℕ) → Fits size v → Fits 8 v)
    → Ensures (Reads big_size (Fits 8) bytes) (read_minimal (uint size) least cursor)
unfolding big_size
long_form size least prefix bytes cursor h e form wide =
    Ensures-weaken (read_minimal-Ensures size least cursor h) λ (v, rest) p. (
      wide v p.1,
      p.2,
      rw (e, p.3, form v p.0 p.1) (sym (append_assoc (u8.write prefix) ((uint size).write v) rest)),
    )

last_prefix :
    (prefix : ℕ)
    → prefix < 256
    → ltb prefix 0xfd ≡ false
    → (prefix == 0xfd) ≡ false
    → (prefix == 0xfe) ≡ false
    → prefix ≡ 0xff
last_prefix prefix h b c d = ground arith

read_big_size-Ensures :
    (bytes : Bytes) → AllBytes bytes → Ensures (Reads big_size (Fits 8) bytes) (read_big_size bytes)
unfolding read_big_size
read_big_size-Ensures bytes h =
    Ensures-bind (Ensures-map_err _ ((uint-IsLawful 1).read-Ensures bytes h)) λ (prefix, cursor) p.
      Ensures-if (ltb prefix 0xfd)
        (λ a.
          holds {a = (prefix, cursor)}
            (omega arith, p.1, unfold big_size in rw (form_1 prefix (ltb→lt _ _ a)) p.2))
        λ b.
          Ensures-if (prefix == 0xfd)
            (λ a.
              long_form 2 0xfd 0xfd bytes cursor p.1 (rw (← ==→eq prefix _ a) p.2) form_3
                (λ v k. omega arith))
            λ c.
              Ensures-if (prefix == 0xfe)
                (λ a.
                  long_form 4 0x1_0000 0xfe bytes cursor p.1 (rw (← ==→eq prefix _ a) p.2) form_5
                    (λ v k. omega arith))
                λ d.
                  let last : prefix ≡ 0xff = last_prefix prefix p.0 b c d in
                  long_form 8 0x1_0000_0000 0xff bytes cursor p.1 (rw (← last) p.2)
                    (λ v lo _. form_9 v lo) (λ v k. k)

uint_bytes : (size v : ℕ) → AllBytes ((uint size).write v)
unfolding uint
uint_bytes size v = to_be_bytes-AllBytes size v

prefixed : (prefix size v : ℕ) → AllBytes (u8.write prefix ++ (uint size).write v)
prefixed prefix size v =
    All-append _ (u8.write prefix) ((uint size).write v) (uint_bytes 1 prefix) (uint_bytes size v)

write_big_size-AllBytes : (v : ℕ) → AllBytes (write_big_size v)
unfolding write_big_size
write_big_size-AllBytes v = ground (
  arith,
  uint_bytes 1 (v % 2 ^ 8),
  prefixed 0xfd 2 (v % 2 ^ 16),
  prefixed 0xfe 4 (v % 2 ^ 32),
  prefixed 0xff 8 v,
)

-- A `BigSize` of 64 bits is read back from its bytes, and what is read from any bytes had this one
-- encoding: longer forms are errors, as are cut ones.
pub big_size-IsLawful : IsLawful big_size (Fits 8)
unfolding big_size
big_size-IsLawful = record {
  read-write = λ v rest h. read-write_big_size v rest h;
  read-Ensures = λ bytes h. read_big_size-Ensures bytes h;
  write-AllBytes = λ v h. write_big_size-AllBytes v;
}

-- `BigSize::len` is the number of bytes written.
pub length-big_size : (v : ℕ) → length (big_size.write v) ≡ big_size_len v
unfolding big_size write_big_size big_size_len uint
length-big_size v = ground (
  arith,
  length-to_be_bytes 1 (v % 2 ^ 8),
  length-append (u8.write 0xfd) (u16.write (v % 2 ^ 16)),
  length-to_be_bytes 2 (v % 2 ^ 16),
  length-append (u8.write 0xfe) (u32.write (v % 2 ^ 32)),
  length-to_be_bytes 4 (v % 2 ^ 32),
  length-append (u8.write 0xff) (u64.write v),
  length-to_be_bytes 8 v,
  length-to_be_bytes 1 0xfd,
  length-to_be_bytes 1 0xfe,
  length-to_be_bytes 1 0xff,
)
