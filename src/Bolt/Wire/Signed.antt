-- ===== src/Bolt/Wire/Signed.antt =====
-- `i64` of bolt/src/wire.rs: eight bytes in big-endian order, as two's complement.
use ln_gossip_sim.Base.{ok, ◌>>=◌, holds, Ensures-bind}
use ln_gossip_sim.Base.Int.{
  ℤ, IsI64, to_bits, from_bits, to_bits-lt, from_bits-to_bits, from_bits-IsI64, to_bits-from_bits,
}
use ln_gossip_sim.Bolt.Wire.{WireFormat, u64}
use ln_gossip_sim.Bolt.Wire.Laws.{IsLawful}
use ln_gossip_sim.Bolt.Wire.Arrays.{uint-IsLawful}

-- `impl_wire_format_int!(i64)`
unfoldable pub i64 : WireFormat ℤ
i64 = record {
  read = λ input. u64.read input >>= λ (u, cursor). ok (from_bits u, cursor);
  write = λ v. u64.write (to_bits v);
}

-- An integer of 64 bits with a sign is read back from its bytes, and reading any bytes ends in an error, or
-- with the integer whose encoding was consumed.
pub i64-IsLawful : IsLawful i64 IsI64
unfolding i64
i64-IsLawful = record {
  read-write = λ v rest h.
      rw ((uint-IsLawful 8).read-write (to_bits v) rest (to_bits-lt v h), from_bits-to_bits v h);
  read-Ensures = λ bytes h.
      Ensures-bind ((uint-IsLawful 8).read-Ensures bytes h)
        λ (u, rest) p. holds (from_bits-IsI64 u p.0, p.1, rw (to_bits-from_bits u p.0) p.2);
  write-AllBytes = λ v h. (uint-IsLawful 8).write-AllBytes (to_bits v) (to_bits-lt v h);
}
