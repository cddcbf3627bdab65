-- ===== src/Noise/Connection.antt =====
-- noise/src/connection.rs: the connection over a blocking stream. A method returns its outcome and the
-- state that it leaves.
use ln_gossip_sim.Base.{
  ℕ, ◌+◌, Bool, Option, none, some, ltb, if◌then◌else◌, length, Bytes, Outcome, ok, err, panic,
  stuck, map_err, ◌>>=◌,
}
use ln_gossip_sim.Base.State
use ln_gossip_sim.Base.State.{Method, ok_or}
use ln_gossip_sim.Bitcoin.{Bitcoin}
use ln_gossip_sim.Crypto.{Crypto}
use ln_gossip_sim.Noise.NoiseError.{NoiseError}
use ln_gossip_sim.Noise.Cipher.{mac_size, max_message_size, encrypted_length_size}
use ln_gossip_sim.Noise.NoiseCipher
use ln_gossip_sim.Noise.NoiseCipher.{NoiseCipher}
use ln_gossip_sim.Noise.Handshake.{new_initiator}
use ln_gossip_sim.Noise.Handshake.Initiator.{get_act_one, process_act_two, into_cipher}

-- `ConnectionError`; the text of an I/O error is left out.
pub data ConnectionError : Type 0 where
  io : ConnectionError
  noise : NoiseError → ConnectionError
  message_too_large : ℕ → ConnectionError

-- The stream of the standard library, a parameter. `set_options` are the three calls behind
-- `TcpStream::connect_timeout`, and whether they succeed.
pub record BlockingTcp : Type 1 where
  pub TcpStream : Type 0
  pub set_options : TcpStream → Bool
  pub write_all : Bytes → TcpStream → Bool × TcpStream
  pub read_exact : ℕ → TcpStream → Option Bytes × TcpStream

pub record NoiseConnection (t : BlockingTcp) : Type 0 where
  pub stream : t.TcpStream
  pub cipher : NoiseCipher

module _ (t : BlockingTcp) (c : Crypto) where
  -- A method of the cipher, and the two calls of the stream with their errors in the enumeration.
  abbrev pub with_cipher :
      {A : Type 0}
      → NoiseConnection t
      → Outcome NoiseError A × NoiseCipher
      → Outcome ConnectionError A × NoiseConnection t
  with_cipher s (outcome, cipher) = (map_err noise outcome, record s { cipher = cipher })

  unfoldable pub write_all : Bytes → Method (NoiseConnection t) ConnectionError (Unit {0})
  write_all bytes s =
      let (done, stream) = t.write_all bytes s.stream in
      ((if done then ok tt else err io), record s { stream = stream })

  unfoldable pub read_exact : ℕ → Method (NoiseConnection t) ConnectionError Bytes
  read_exact size s =
      let (found, stream) = t.read_exact size s.stream in
      (ok_or found io, record s { stream = stream })

  unfoldable pub send_message : Bytes → Method (NoiseConnection t) ConnectionError (Unit {0})
  unfolding write_all
  send_message msg =
      if ltb max_message_size (length msg)
      then State.throw (message_too_large (length msg))
      else State.◌>>=◌ (λ s. with_cipher s (NoiseCipher.encrypt c msg s.cipher)) write_all

  unfoldable pub recv_message : Method (NoiseConnection t) ConnectionError Bytes
  unfolding read_exact
  recv_message = State.◌>>=◌ (read_exact encrypted_length_size) λ encrypted_len.
      State.◌>>=◌ (λ s. with_cipher s (NoiseCipher.decrypt_length c encrypted_len s.cipher))
        λ msg_len.
          State.◌>>=◌ (read_exact (msg_len + mac_size)) λ encrypted_msg.
            λ s. with_cipher s (NoiseCipher.decrypt_message c encrypted_msg s.cipher)

  -- A method on the local variable `handshake`, and the calls of the stream, whose end is not needed where
  -- they fail.
  abbrev pub on_handshake :
      {S A : Type 0} → Outcome NoiseError A × S → Outcome ConnectionError (A × S)
  on_handshake (ok a, s) = ok (a, s)
  on_handshake (err e, s) = err (noise e)
  on_handshake (panic, s) = panic
  on_handshake (stuck, s) = stuck

  abbrev pub written : Bool × t.TcpStream → Outcome ConnectionError t.TcpStream
  written (done, stream) = if done then ok stream else err io

  abbrev pub read : Option Bytes × t.TcpStream → Outcome ConnectionError (Bytes × t.TcpStream)
  read (none, stream) = err io
  read (some bytes, stream) = ok (bytes, stream)

  module _ (b : Bitcoin) (ecdh : b.SecretKey → b.PublicKey → Bytes) where
    -- The stream is changed in place: it is returned beside the cipher.
    unfoldable pub perform_handshake :
        t.TcpStream
        → (local_static local_ephemeral : b.SecretKey) → b.PublicKey
        → Outcome ConnectionError (NoiseCipher × t.TcpStream)
    perform_handshake stream local_static local_ephemeral remote_pubkey = do
      let handshake = new_initiator b c ecdh local_static local_ephemeral remote_pubkey
      (act_one, handshake) ← on_handshake (get_act_one b c ecdh handshake)
      stream ← written (t.write_all act_one stream)
      (act_two, stream) ← read (t.read_exact 50 stream)
      (act_three, handshake) ← on_handshake (process_act_two b c ecdh act_two handshake)
      stream ← written (t.write_all act_three stream)
      cipher ← map_err noise (into_cipher b c ecdh handshake)
      ok (cipher, stream)

    -- The stream is what `TcpStream::connect_timeout` gives, none where it fails.
    unfoldable pub connect :
        Option t.TcpStream
        → b.PublicKey
        → (local_static local_ephemeral : b.SecretKey) → Outcome ConnectionError (NoiseConnection t)
    unfolding perform_handshake
    connect none remote_pubkey local_static local_ephemeral = err io
    connect (some stream) remote_pubkey local_static local_ephemeral = do
      stream ← written (t.set_options stream, stream)
      (cipher, stream) ← perform_handshake stream local_static local_ephemeral remote_pubkey
      ok (record { stream = stream; cipher = cipher })
