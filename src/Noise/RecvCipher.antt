-- ===== src/Noise/RecvCipher.antt =====
-- noise/src/cipher.rs: the receiving half of a split cipher.
use ln_gossip_sim.Base.{ℕ, ◌+◌, ◌%◌, ◌^◌, [], leb, if◌then◌else◌, Bytes}
use ln_gossip_sim.Base.State.{Method, ◌>>=◌, ◌>>◌, return, call, this, modify}
use ln_gossip_sim.Crypto.{Crypto}
use ln_gossip_sim.Noise.NoiseError.{NoiseError}
use ln_gossip_sim.Noise.Cipher.{key_rotation_threshold, decrypt_with_ad, hkdf_two_keys, first_two}

pub record RecvCipher : Type 0 where
  pub key : Bytes
  pub nonce : ℕ
  pub ck : Bytes

module _ (c : Crypto) where
  unfoldable pub maybe_rotate : RecvCipher → RecvCipher
  maybe_rotate s =
      let (new_ck, new_key) = hkdf_two_keys c s.ck s.key in
      if leb key_rotation_threshold s.nonce
      then record s { ck = new_ck; key = new_key; nonce = 0 }
      else s

  unfoldable pub decrypt_length : Bytes → Method RecvCipher NoiseError ℕ
  decrypt_length encrypted_len = do
    modify maybe_rotate
    s ← this
    len_bytes ← call (decrypt_with_ad c s.key s.nonce [] encrypted_len)
    modify (λ s. record s { nonce = (s.nonce + 1) % 2 ^ 64 })
    call (first_two len_bytes)

  unfoldable pub decrypt_message : Bytes → Method RecvCipher NoiseError Bytes
  decrypt_message encrypted_msg = do
    modify maybe_rotate
    s ← this
    plaintext ← call (decrypt_with_ad c s.key s.nonce [] encrypted_msg)
    modify (λ s. record s { nonce = (s.nonce + 1) % 2 ^ 64 })
    return plaintext
