-- ===== src/GossipSim/Tcp.antt =====
-- What the connection takes from the two halves of a TCP stream of the crate tokio. The crate is not
-- part of the repository, so it is a parameter.
use ln_gossip_sim.Base.{ℕ, ◌≤◌, ◌<◌, ◌≡◌, Bool, true, Option, some, ◌++◌, length, Bytes}

-- `write_all` tells whether it succeeded, `read_exact` fails where the stream ends too early.
-- `dropped_read n m` is a `read_exact` of `n` bytes whose future is dropped while it waits, after `m`
-- bytes have come: it may not be cancelled, and the bytes that it has read are gone.
pub record Tcp : Type 1 where
  pub OwnedReadHalf : Type 0
  pub OwnedWriteHalf : Type 0
  pub write_all : Bytes → OwnedWriteHalf → Bool × OwnedWriteHalf
  pub read_exact : ℕ → OwnedReadHalf → Option Bytes × OwnedReadHalf
  pub dropped_read : (n m : ℕ) → OwnedReadHalf → OwnedReadHalf

-- A stream delivers bytes in their order: `outgoing` are those written, `incoming` those that are still
-- to be read.
pub record TcpLaws (t : Tcp) : Type 0 where
  pub outgoing : t.OwnedWriteHalf → Bytes
  pub incoming : t.OwnedReadHalf → Bytes
  pub write_all-true :
      (bytes : Bytes) (w : t.OwnedWriteHalf)
      → (t.write_all bytes w).0 ≡ true
      → outgoing (t.write_all bytes w).1 ≡ outgoing w ++ bytes
  pub read_exact-incoming :
      (n : ℕ) (r : t.OwnedReadHalf) (bytes rest : Bytes)
      → incoming r ≡ bytes ++ rest
      → length bytes ≡ n
      → ((t.read_exact n r).0 ≡ some bytes) × (incoming (t.read_exact n r).1 ≡ rest)
  pub read_exact-some :
      (n : ℕ) (r : t.OwnedReadHalf) (bytes : Bytes)
      → (t.read_exact n r).0 ≡ some bytes
      → (length bytes ≡ n) × (incoming r ≡ bytes ++ incoming (t.read_exact n r).1)
  pub dropped_read-incoming :
      (n m : ℕ) (r : t.OwnedReadHalf) (bytes rest : Bytes)
      → incoming r ≡ bytes ++ rest
      → length bytes ≡ m
      → m < n
      → incoming (t.dropped_read n m r) ≡ rest
  pub dropped_read-le :
      (n m : ℕ) (r : t.OwnedReadHalf)
      → length (incoming (t.dropped_read n m r)) ≤ length (incoming r)
