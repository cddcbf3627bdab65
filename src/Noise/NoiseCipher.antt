-- ===== src/Noise/NoiseCipher.antt =====
-- noise/src/cipher.rs: both directions of a connection in one cipher, and its two halves.
use ln_gossip_sim.Base.{
  ℕ, ◌+◌, ◌%◌, ◌^◌, some, none, [], ◌∷◌, ◌++◌, ltb, leb, if◌then◌else◌, length, get_elem?, Bytes,
  Outcome, ok, panic,
}
use ln_gossip_sim.Base.Words.{to_be_bytes, from_be_bytes}
use ln_gossip_sim.Base.State.{Method, continue, ◌>>=◌, ◌>>◌, return, call, this, modify}
use ln_gossip_sim.Crypto.{Crypto}
use ln_gossip_sim.Noise.NoiseError.{NoiseError}
use ln_gossip_sim.Noise.Cipher.{
  key_rotation_threshold, encrypt_with_ad, decrypt_with_ad, hkdf_two_keys, u16_try_from, first_two,
}
use ln_gossip_sim.Noise.SendCipher.{SendCipher}
use ln_gossip_sim.Noise.RecvCipher.{RecvCipher}
pub mod Split

pub record NoiseCipher : Type 0 where
  pub send_key : Bytes
  pub recv_key : Bytes
  pub send_nonce : ℕ
  pub recv_nonce : ℕ
  pub send_ck : Bytes
  pub recv_ck : Bytes

-- `NoiseCipher::new`
unfoldable pub new : (send_key recv_key chaining_key : Bytes) → NoiseCipher
new send_key recv_key chaining_key = record {
  send_key = send_key;
  recv_key = recv_key;
  send_nonce = 0;
  recv_nonce = 0;
  send_ck = chaining_key;
  recv_ck = chaining_key;
}

unfoldable pub split : NoiseCipher → SendCipher × RecvCipher
split s = (
  record { key = s.send_key; nonce = s.send_nonce; ck = s.send_ck },
  record { key = s.recv_key; nonce = s.recv_nonce; ck = s.recv_ck },
)

module _ (c : Crypto) where
  unfoldable pub maybe_rotate_send_key : NoiseCipher → NoiseCipher
  maybe_rotate_send_key s =
      let (new_ck, new_key) = hkdf_two_keys c s.send_ck s.send_key in
      if leb key_rotation_threshold s.send_nonce
      then record s { send_ck = new_ck; send_key = new_key; send_nonce = 0 }
      else s

  unfoldable pub maybe_rotate_recv_key : NoiseCipher → NoiseCipher
  maybe_rotate_recv_key s =
      let (new_ck, new_key) = hkdf_two_keys c s.recv_ck s.recv_key in
      if leb key_rotation_threshold s.recv_nonce
      then record s { recv_ck = new_ck; recv_key = new_key; recv_nonce = 0 }
      else s

  unfoldable pub encrypt_length : {E : Type 0} → ℕ → Method NoiseCipher E Bytes
  encrypt_length len = do
    modify maybe_rotate_send_key
    s ← this
    encrypted ← call (encrypt_with_ad c s.send_key s.send_nonce [] (to_be_bytes 2 len))
    modify (λ s. record s { send_nonce = (s.send_nonce + 1) % 2 ^ 64 })
    return encrypted

  unfoldable pub encrypt : {E : Type 0} → Bytes → Method NoiseCipher E Bytes
  encrypt plaintext = do
    len ← call (u16_try_from (length plaintext))
    encrypted_len ← encrypt_length len
    modify maybe_rotate_send_key
    s ← this
    encrypted_msg ← call (encrypt_with_ad c s.send_key s.send_nonce [] plaintext)
    modify (λ s. record s { send_nonce = (s.send_nonce + 1) % 2 ^ 64 })
    return (encrypted_len ++ encrypted_msg)

  unfoldable pub decrypt_length : Bytes → Method NoiseCipher NoiseError ℕ
  decrypt_length encrypted_len = do
    modify maybe_rotate_recv_key
    s ← this
    len_bytes ← call (decrypt_with_ad c s.recv_key s.recv_nonce [] encrypted_len)
    modify (λ s. record s { recv_nonce = (s.recv_nonce + 1) % 2 ^ 64 })
    call (first_two len_bytes)

  unfoldable pub decrypt_message : Bytes → Method NoiseCipher NoiseError Bytes
  decrypt_message encrypted_msg = do
    modify maybe_rotate_recv_key
    s ← this
    plaintext ← call (decrypt_with_ad c s.recv_key s.recv_nonce [] encrypted_msg)
    modify (λ s. record s { recv_nonce = (s.recv_nonce + 1) % 2 ^ 64 })
    return plaintext
