-- ===== src/GossipSim/Conn/Dropped.antt =====
-- ln-gossip-sim/src/conn.rs: `NoiseReader::recv` where its future is dropped before it is done, as the
-- reader task of a peer does. The child Misread is about what follows.
use ln_gossip_sim.Base.{ℕ, ◌+◌, ok}
use ln_gossip_sim.Base.State.{Method, ◌>>=◌, ◌>>◌, modify}
use ln_gossip_sim.Crypto.{Crypto}
use ln_gossip_sim.GossipSim.Tcp.{Tcp}
use ln_gossip_sim.GossipSim.Conn.{NoiseReader, read_exact, with_receiver}
use ln_gossip_sim.Noise.NoiseError.{NoiseError}
use ln_gossip_sim.Noise.Cipher.{mac_size, encrypted_length_size}
use ln_gossip_sim.Noise.RecvCipher
pub mod Misread

-- Where the receive waits when it is dropped: in the first or in the second `read_exact`, with so many bytes
-- read.
pub data Cut : Type 0 where
  in_header in_body : ℕ → Cut

module _ (t : Tcp) (c : Crypto) where
  unfoldable pub drop_read : (n m : ℕ) → Method (NoiseReader t) NoiseError (Unit {0})
  drop_read n m = modify (λ r. record r { stream = t.dropped_read n m r.stream })

  -- What a receive does up to there.
  unfoldable pub drop_recv : Cut → Method (NoiseReader t) NoiseError (Unit {0})
  unfolding drop_read
  drop_recv (in_header m) = drop_read encrypted_length_size m
  drop_recv (in_body m) = do
    len_header ← read_exact t encrypted_length_size
    msg_len ← λ r. with_receiver t r (RecvCipher.decrypt_length c len_header r.cipher)
    drop_read (msg_len + mac_size) m
