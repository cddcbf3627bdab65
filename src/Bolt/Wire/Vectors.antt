-- ===== src/Bolt/Wire/Vectors.antt =====
-- `Vec<u8>` of bolt/src/wire.rs: a 16-bit length and the bytes.
use ln_gossip_sim.Base.{
  ◌^◌, ◌%◌, ◌<◌, ◌≡◌, refl, false, arith, ltb, ltb→le, le→ltb, ◌++◌, append_assoc, length,
  length-append, Bytes, AllBytes, All-append, ok, Ensures, rejected, Ensures-if, Ensures-bind,
  Ensures-weaken,
}
use native.Mathlib.Nat.{mod-eq_of_lt}
use ln_gossip_sim.Base.Words.{to_be_bytes-AllBytes}
use ln_gossip_sim.Bolt.Types.{BoltError}
use ln_gossip_sim.Bolt.Wire.{uint, u16, read_vec, write_vec, vec}
use ln_gossip_sim.Bolt.Wire.Laws.{IsLawful, Reads}
use ln_gossip_sim.Bolt.Wire.Arrays.{uint-IsLawful, split_at-append, split_at-Ensures}

-- Byte strings whose length fits the 16-bit prefix.
abbrev pub IsVec : Bytes → Type 0
IsVec bytes = (length bytes < 2 ^ 16) × AllBytes bytes

-- Without the cast of the length.
write_vec_lem : (bytes : Bytes) → IsVec bytes → write_vec bytes ≡ u16.write (length bytes) ++ bytes
unfolding write_vec
write_vec_lem bytes h = rw (mod-eq_of_lt h.0)

read_vec-write_vec :
    (bytes rest : Bytes) → IsVec bytes → read_vec (write_vec bytes ++ rest) ≡ ok (bytes, rest)
unfolding read_vec
read_vec-write_vec bytes rest h =
    let enough : ltb (length (bytes ++ rest)) (length bytes) ≡ false =
      le→ltb _ _ (omega (arith, length-append bytes rest)) in
    rw (
      write_vec_lem bytes h,
      append_assoc,
      (uint-IsLawful 2).read-write (length bytes) (bytes ++ rest) h.0,
      enough,
      split_at-append {E = BoltError} (length bytes) bytes rest refl,
    )

read_vec-Ensures :
    (bytes : Bytes) → AllBytes bytes → Ensures (Reads vec IsVec bytes) (read_vec bytes)
unfolding read_vec vec
read_vec-Ensures bytes h = Ensures-bind ((uint-IsLawful 2).read-Ensures bytes h) λ (len, cursor) p.
    Ensures-if (ltb (length cursor) len) (λ _. rejected)
      λ e. Ensures-weaken (split_at-Ensures len cursor p.1 (ltb→le _ _ e)) λ (a, rest) q.
        let fits : IsVec a = (rw q.0.0 p.0, q.0.1) in
        (fits, q.1, rw (write_vec_lem a fits, q.0.0, append_assoc) (rw q.2 at p.2))

-- Up to 65535 bytes are read back behind their length prefix, and reading any bytes ends in an error, or
-- with the bytes whose encoding was consumed.
pub vec-IsLawful : IsLawful vec IsVec
unfolding vec write_vec uint
vec-IsLawful = record {
  read-write = λ bytes rest h. read_vec-write_vec bytes rest h;
  read-Ensures = λ bytes h. read_vec-Ensures bytes h;
  write-AllBytes = λ bytes h.
      All-append _ (u16.write (length bytes % 2 ^ 16)) bytes (to_be_bytes-AllBytes 2 _) h.1;
}
