-- ===== src/Crypto.antt =====
-- What the code takes from the crates chacha20poly1305, hkdf and sha2, and from the elliptic curve
-- of the crate bitcoin. They are not part of the repository, so they are parameters of the model.
use ln_gossip_sim.Base.{AllBytes, ◌+◌, ◌≤◌, ◌≡◌, Option, some, length, Bytes}

-- Keys are 32 bytes, nonces 12. `encrypt` fails on messages too long for the cipher, `decrypt` on a
-- wrong tag. `hkdf` are the first 64 bytes that HKDF-SHA256 expands from a salt and a secret.
pub record Crypto : Type 0 where
  pub encrypt : (key nonce ad msg : Bytes) → Option Bytes
  pub decrypt : (key nonce ad ciphertext : Bytes) → Option Bytes
  pub hkdf : (salt ikm : Bytes) → Bytes
  pub sha256 : Bytes → Bytes

pub record CryptoLaws (c : Crypto) : Type 0 where
  -- A message of Lightning's size is encrypted, to 16 bytes more, and is decrypted again.
  pub encrypt_sound :
      (key nonce ad msg : Bytes)
      → length msg ≤ 65535
      → (sealed : Bytes) × (c.encrypt key nonce ad msg ≡ some sealed)
        × (length sealed ≡ length msg + 16)
        × (c.decrypt key nonce ad sealed ≡ some msg)
  -- What decrypts is 16 bytes longer than its message.
  pub length-decrypt :
      (key nonce ad sealed msg : Bytes)
      → c.decrypt key nonce ad sealed ≡ some msg
      → length sealed ≡ length msg + 16
  -- Bytes decrypt to bytes.
  pub decrypt-AllBytes :
      (key nonce ad sealed msg : Bytes)
      → AllBytes sealed
      → c.decrypt key nonce ad sealed ≡ some msg
      → AllBytes msg
