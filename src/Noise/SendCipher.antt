-- ===== src/Noise/SendCipher.antt =====
-- noise/src/cipher.rs: the sending half of a split cipher.
use ln_gossip_sim.Base.{ℕ, ◌+◌, ◌%◌, ◌^◌, [], ◌++◌, leb, if◌then◌else◌, length, Bytes}
use ln_gossip_sim.Base.Words.{to_be_bytes}
use ln_gossip_sim.Base.State.{Method, ◌>>=◌, ◌>>◌, return, call, this, modify}
use ln_gossip_sim.Crypto.{Crypto}
use ln_gossip_sim.Noise.Cipher.{
  key_rotation_threshold, encrypt_with_ad, hkdf_two_keys, u16_try_from,
}

pub record SendCipher : Type 0 where
  pub key : Bytes
  pub nonce : ℕ
  pub ck : Bytes

module _ (c : Crypto) where
  unfoldable pub maybe_rotate : SendCipher → SendCipher
  maybe_rotate s =
      let (new_ck, new_key) = hkdf_two_keys c s.ck s.key in
      if leb key_rotation_threshold s.nonce
      then record s { ck = new_ck; key = new_key; nonce = 0 }
      else s

  unfoldable pub encrypt_length : {E : Type 0} → ℕ → Method SendCipher E Bytes
  encrypt_length len = do
    modify maybe_rotate
    s ← this
    encrypted ← call (encrypt_with_ad c s.key s.nonce [] (to_be_bytes 2 len))
    modify (λ s. record s { nonce = (s.nonce + 1) % 2 ^ 64 })
    return encrypted

  unfoldable pub encrypt : {E : Type 0} → Bytes → Method SendCipher E Bytes
  encrypt plaintext = do
    len ← call (u16_try_from (length plaintext))
    encrypted_len ← encrypt_length len
    modify maybe_rotate
    s ← this
    encrypted_msg ← call (encrypt_with_ad c s.key s.nonce [] plaintext)
    modify (λ s. record s { nonce = (s.nonce + 1) % 2 ^ 64 })
    return (encrypted_len ++ encrypted_msg)
