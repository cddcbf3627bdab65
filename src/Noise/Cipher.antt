-- ===== src/Noise/Cipher.antt =====
-- noise/src/cipher.rs: message encryption after the handshake, with key rotation. A method on
-- `&mut self` returns its outcome and the state that it leaves, also where it fails. The sum
-- `nonce + 1` wraps at 64 bits.
use ln_gossip_sim.Base.{
  ℕ, ◌^◌, [], ◌∷◌, ◌++◌, ltb, if◌then◌else◌, take, drop, replicate, Bytes, Outcome, ok, panic,
}
use ln_gossip_sim.Base.Words.{to_le_bytes, from_be_bytes}
use ln_gossip_sim.Base.State.{expect, ok_or}
use ln_gossip_sim.Crypto.{Crypto}
use ln_gossip_sim.Noise.NoiseError.{NoiseError, decryption_failed}

abbrev pub mac_size : ℕ
mac_size = 16

abbrev pub max_message_size : ℕ
max_message_size = 65535

abbrev pub encrypted_length_size : ℕ
encrypted_length_size = 18

abbrev pub key_rotation_threshold : ℕ
key_rotation_threshold = 1000

-- 32 zero bits and the number in little-endian order.
unfoldable pub encode_nonce : ℕ → Bytes
encode_nonce n = replicate 4 0 ++ to_le_bytes 8 n

module _ (c : Crypto) where
  unfoldable pub encrypt_with_ad :
      {E : Type 0} → (key : Bytes) → ℕ → (ad plaintext : Bytes) → Outcome E Bytes
  encrypt_with_ad key nonce ad plaintext = expect (c.encrypt key (encode_nonce nonce) ad plaintext)

  unfoldable pub decrypt_with_ad :
      (key : Bytes) → ℕ → (ad ciphertext : Bytes) → Outcome NoiseError Bytes
  decrypt_with_ad key nonce ad ciphertext =
      ok_or (c.decrypt key (encode_nonce nonce) ad ciphertext) decryption_failed

  unfoldable pub hkdf_two_keys : (salt ikm : Bytes) → Bytes × Bytes
  hkdf_two_keys salt ikm = let output = c.hkdf salt ikm in (take 32 output, drop 32 output)

-- `u16::try_from(n).expect(...)`
abbrev pub u16_try_from : {E : Type 0} → ℕ → Outcome E ℕ
u16_try_from n = if ltb n (2 ^ 16) then ok n else panic

-- `u16::from_be_bytes([bytes[0], bytes[1]])`, which panics on fewer bytes.
abbrev pub first_two : {E : Type 0} → Bytes → Outcome E ℕ
first_two [] = panic
first_two (a ∷ []) = panic
first_two (a ∷ b ∷ rest) = ok (from_be_bytes (a ∷ b ∷ []))
