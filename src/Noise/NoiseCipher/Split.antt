-- ===== src/Noise/NoiseCipher/Split.antt =====
-- The whole cipher of noise/src/cipher.rs against its two halves.
use ln_gossip_sim.Base.{◌≡◌, arith, Bytes}
use ln_gossip_sim.Crypto.{Crypto}
use ln_gossip_sim.Noise.SendCipher
use ln_gossip_sim.Noise.SendCipher.{SendCipher}
use ln_gossip_sim.Noise.RecvCipher
use ln_gossip_sim.Noise.RecvCipher.{RecvCipher}
use ln_gossip_sim.Noise.NoiseCipher.{
  NoiseCipher, split, maybe_rotate_send_key, maybe_rotate_recv_key, encrypt_length, encrypt,
  decrypt_length, decrypt_message,
}

-- A run of the sending half beside an untouched receiving half, and the other way round.
abbrev pub sends : {A : Type 0} → A × SendCipher → RecvCipher → A × SendCipher × RecvCipher
sends (a, send) recv = (a, send, recv)

abbrev pub receives : {A : Type 0} → SendCipher → A × RecvCipher → A × SendCipher × RecvCipher
receives send (a, recv) = (a, send, recv)

abbrev pub halves : {A : Type 0} → A × NoiseCipher → A × SendCipher × RecvCipher
halves (a, s) = (a, (split s).0, (split s).1)

module _ (c : Crypto) (s : NoiseCipher) where
  -- The whole cipher encrypts to what its sending half does, leaves that half as it does, and leaves
  -- the receiving half alone; failures are the same.
  pub encrypt-split :
      {E : Type 0} (plaintext : Bytes)
      → halves (encrypt c {E = E} plaintext s)
        ≡ sends (SendCipher.encrypt c {E = E} plaintext (split s).0) (split s).1
  unfolding split encrypt encrypt_length maybe_rotate_send_key SendCipher.encrypt
      SendCipher.encrypt_length SendCipher.maybe_rotate
  encrypt-split plaintext = ground arith

  -- The whole cipher decrypts a length header as its receiving half does, and leaves the sending half
  -- alone; failures are the same.
  pub decrypt_length-split :
      (bytes : Bytes)
      → halves (decrypt_length c bytes s)
        ≡ receives (split s).0 (RecvCipher.decrypt_length c bytes (split s).1)
  unfolding split decrypt_length maybe_rotate_recv_key RecvCipher.decrypt_length
      RecvCipher.maybe_rotate
  decrypt_length-split bytes = ground arith

  -- The whole cipher decrypts a body as its receiving half does, and leaves the sending half alone;
  -- failures are the same.
  pub decrypt_message-split :
      (bytes : Bytes)
      → halves (decrypt_message c bytes s)
        ≡ receives (split s).0 (RecvCipher.decrypt_message c bytes (split s).1)
  unfolding split decrypt_message maybe_rotate_recv_key RecvCipher.decrypt_message
      RecvCipher.maybe_rotate
  decrypt_message-split bytes = ground arith
