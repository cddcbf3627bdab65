-- ===== src/GossipSim/Conn.antt =====
-- ln-gossip-sim/src/conn.rs: sending and receiving encrypted messages. A method returns its outcome and
-- the state that it leaves; awaiting a call of the stream is calling it.
use ln_gossip_sim.Base.{
  ℕ, zero, suc, ◌+◌, Bool, true, false, Option, none, some, [], ◌∷◌, drop, take, ltb, if◌then◌else◌,
  length, Bytes, Outcome, ok, err, panic, stuck,
}
use ln_gossip_sim.Base.Words.{from_be_bytes}
use ln_gossip_sim.Base.State.{Method, continue, ◌>>=◌, ◌>>◌, return, throw, call, ok_or}
use ln_gossip_sim.Bitcoin.{Bitcoin}
use ln_gossip_sim.Crypto.{Crypto}
use ln_gossip_sim.GossipSim.Tcp.{Tcp}
use ln_gossip_sim.Noise.NoiseError.{NoiseError, io}
use ln_gossip_sim.Noise.Cipher.{mac_size, max_message_size, encrypted_length_size}
use ln_gossip_sim.Noise.SendCipher
use ln_gossip_sim.Noise.SendCipher.{SendCipher}
use ln_gossip_sim.Noise.RecvCipher
use ln_gossip_sim.Noise.RecvCipher.{RecvCipher}
use ln_gossip_sim.Bolt.Message
use ln_gossip_sim.Bolt.Message.{Message, warning, init, ping, pong, unknown}
use ln_gossip_sim.Bolt.Ping.{Ping}
use ln_gossip_sim.Bolt.Pong.{respond_to}
pub mod Halves
pub mod Delivery
pub mod Dropped
pub mod Passing
pub mod Messages
pub mod Connect
pub mod Blocking

pub record NoiseWriter (t : Tcp) : Type 0 where
  pub stream : t.OwnedWriteHalf
  pub cipher : SendCipher

pub record NoiseReader (t : Tcp) : Type 0 where
  pub stream : t.OwnedReadHalf
  pub cipher : RecvCipher

module _ (t : Tcp) where
  -- `self.stream.write_all(bytes)` and `self.stream.read_exact(&mut buf)` with their errors mapped.
  unfoldable pub write_all : Bytes → Method (NoiseWriter t) NoiseError (Unit {0})
  write_all bytes w =
      let (done, stream) = t.write_all bytes w.stream in
      ((if done then ok tt else err io), record w { stream = stream })

  unfoldable pub read_exact : ℕ → Method (NoiseReader t) NoiseError Bytes
  read_exact size r =
      let (found, stream) = t.read_exact size r.stream in
      (ok_or found io, record r { stream = stream })

  -- A method of the cipher that the half holds.
  abbrev pub with_sender :
      {A : Type 0}
      → NoiseWriter t
      → Outcome NoiseError A × SendCipher
      → Outcome NoiseError A × NoiseWriter t
  with_sender w (outcome, cipher) = (outcome, record w { cipher = cipher })

  abbrev pub with_receiver :
      {A : Type 0}
      → NoiseReader t
      → Outcome NoiseError A × RecvCipher
      → Outcome NoiseError A × NoiseReader t
  with_receiver r (outcome, cipher) = (outcome, record r { cipher = cipher })

module _ (t : Tcp) (c : Crypto) where
  unfoldable pub send : Bytes → Method (NoiseWriter t) NoiseError (Unit {0})
  unfolding write_all
  send msg = if ltb max_message_size (length msg) then throw io else do
    encrypted ← λ w. with_sender t w (SendCipher.encrypt c msg w.cipher)
    write_all t encrypted

  unfoldable pub recv : Method (NoiseReader t) NoiseError Bytes
  unfolding read_exact
  recv = do
    len_header ← read_exact t encrypted_length_size
    msg_len ← λ r. with_receiver t r (RecvCipher.decrypt_length c len_header r.cipher)
    body ← read_exact t (msg_len + mac_size)
    λ r. with_receiver t r (RecvCipher.decrypt_message c body r.cipher)
