-- ===== src/Bolt/Wire/Lengths.antt =====
-- The sizes that the formats of bolt/src/wire.rs write.
use ln_gossip_sim.Base.{ℕ, ◌+◌, ◌%◌, ◌^◌, ◌≡◌, refl, arith, length, length-append, Bytes}
use ln_gossip_sim.Base.Words.{to_be_bytes, length-to_be_bytes}
use ln_gossip_sim.Bolt.Wire.{uint, u16, vec, write_vec, array, channel_id}

pub length-uint : (size v : ℕ) → length ((uint size).write v) ≡ size
unfolding uint
length-uint size v = length-to_be_bytes size v

pub length-vec : (bytes : Bytes) → length (vec.write bytes) ≡ 2 + length bytes
unfolding vec write_vec
length-vec bytes = omega (
  arith,
  length-append (u16.write (length bytes % 2 ^ 16)) bytes,
  length-uint 2 (length bytes % 2 ^ 16),
)

pub length-channel_id : (id : Bytes) → length (channel_id.write id) ≡ length id
unfolding channel_id array
length-channel_id id = refl

pub write-u16 : (v : ℕ) → u16.write v ≡ to_be_bytes 2 v
unfolding uint
write-u16 v = refl
