-- ===== src/Noise/Transport.antt =====
-- One packet of noise/src/cipher.rs, at the sending and at the receiving half.
use ln_gossip_sim.Base.{
  ℕ, ◌+◌, ◌%◌, ◌^◌, ◌≤◌, ◌<◌, ◌≡◌, ap, arith, [], ◌++◌, some, length, lt→ltb, Bytes, ok,
}
use ln_gossip_sim.Base.Words.{
  to_be_bytes, from_be_bytes, length-to_be_bytes, from_be_bytes-to_be_bytes,
}
use ln_gossip_sim.Crypto.{Crypto, CryptoLaws}
use ln_gossip_sim.Noise.NoiseError.{NoiseError}
use ln_gossip_sim.Noise.Cipher.{encode_nonce, encrypt_with_ad, decrypt_with_ad, first_two}
use ln_gossip_sim.Noise.SendCipher
use ln_gossip_sim.Noise.SendCipher.{SendCipher}
use ln_gossip_sim.Noise.RecvCipher
use ln_gossip_sim.Noise.RecvCipher.{RecvCipher}
use ln_gossip_sim.Noise.Rotation.{
  key_at, ck_at, SendsAfter, ReceivesAfter, maybe_rotate-send_at, maybe_rotate-recv_at,
  next-IsAfter,
}

pub first_two_lem :
    {E : Type 0} (len : ℕ) → len < 2 ^ 16 → first_two {E = E} (to_be_bytes 2 len) ≡ ok len
unfolding to_be_bytes from_be_bytes
first_two_lem len h = ap ok (from_be_bytes-to_be_bytes 2 len h)

module _ (c : Crypto) (ck₀ key₀ : Bytes) where
  -- The halves behind operation `i`.
  abbrev pub sent_at : ℕ → SendCipher
  sent_at i = record {
    key = key_at c ck₀ key₀ i;
    nonce = (i % 1000 + 1) % 2 ^ 64;
    ck = ck_at c ck₀ key₀ i;
  }

  abbrev pub received_at : ℕ → RecvCipher
  received_at i = record {
    key = key_at c ck₀ key₀ i;
    nonce = (i % 1000 + 1) % 2 ^ 64;
    ck = ck_at c ck₀ key₀ i;
  }

  pub sent_at-SendsAfter : (i : ℕ) → SendsAfter c ck₀ key₀ (i + 1) (sent_at i)
  sent_at-SendsAfter i = next-IsAfter c ck₀ key₀ i

  pub received_at-ReceivesAfter : (i : ℕ) → ReceivesAfter c ck₀ key₀ (i + 1) (received_at i)
  received_at-ReceivesAfter i = next-IsAfter c ck₀ key₀ i

  -- Operation `i` seals or unseals under the key and the nonce of the schedule.
  abbrev Seals : ℕ → Bytes → Bytes → Type 0
  Seals i msg sealed =
      c.encrypt (key_at c ck₀ key₀ i) (encode_nonce (i % 1000)) [] msg ≡ some sealed

  abbrev Unseals : ℕ → Bytes → Bytes → Type 0
  Unseals i sealed msg =
      c.decrypt (key_at c ck₀ key₀ i) (encode_nonce (i % 1000)) [] sealed ≡ some msg

  encrypt_length_lem :
      {E : Type 0} (i len : ℕ) (s : SendCipher) (header : Bytes)
      → SendsAfter c ck₀ key₀ i s
      → Seals i (to_be_bytes 2 len) header
      → SendCipher.encrypt_length c {E = E} len s ≡ (ok header, sent_at i)
  unfolding SendCipher.encrypt_length encrypt_with_ad
  encrypt_length_lem i len s header h e = rw (maybe_rotate-send_at c ck₀ key₀ i s h, e)

  pub encrypt_lem :
      {E : Type 0} (i : ℕ) (s : SendCipher) (msg header body : Bytes)
      → SendsAfter c ck₀ key₀ i s
      → length msg ≤ 65535
      → Seals i (to_be_bytes 2 (length msg)) header
      → Seals (i + 1) msg body
      → SendCipher.encrypt c {E = E} msg s ≡ (ok (header ++ body), sent_at (i + 1))
  unfolding SendCipher.encrypt encrypt_with_ad
  encrypt_lem i s msg header body h le e f = rw (
    lt→ltb (length msg) (2 ^ 16) (omega arith),
    encrypt_length_lem i (length msg) s header h e,
    maybe_rotate-send_at c ck₀ key₀ (i + 1) (sent_at i) (sent_at-SendsAfter i),
    f,
  )

  pub decrypt_length_lem :
      (i len : ℕ) (s : RecvCipher) (header : Bytes)
      → ReceivesAfter c ck₀ key₀ i s
      → len < 2 ^ 16
      → Unseals i header (to_be_bytes 2 len)
      → RecvCipher.decrypt_length c header s ≡ (ok len, received_at i)
  unfolding RecvCipher.decrypt_length decrypt_with_ad
  decrypt_length_lem i len s header h lt e =
      rw (maybe_rotate-recv_at c ck₀ key₀ i s h, e) (rw (first_two_lem len lt))

  pub decrypt_message_lem :
      (i : ℕ) (s : RecvCipher) (body msg : Bytes)
      → ReceivesAfter c ck₀ key₀ i s
      → Unseals i body msg
      → RecvCipher.decrypt_message c body s ≡ (ok msg, received_at i)
  unfolding RecvCipher.decrypt_message decrypt_with_ad
  decrypt_message_lem i s body msg h e = rw (maybe_rotate-recv_at c ck₀ key₀ i s h, e)

  -- What one message needs of both halves: the sender's packet is a header of 18 bytes and a body of
  -- 16 bytes more than the message, and the receiver makes the length and the message of them.
  abbrev pub Carries : ℕ → SendCipher → RecvCipher → Bytes → Bytes → Bytes → Type 0
  Carries i s r msg header body =
      (SendCipher.encrypt c {E = NoiseError} msg s ≡ (ok (header ++ body), sent_at (i + 1)))
      × (length header ≡ 18)
      × (length body ≡ length msg + 16)
      × (RecvCipher.decrypt_length c header r ≡ (ok (length msg), received_at i))
      × (RecvCipher.decrypt_message c body (received_at i) ≡ (ok msg, received_at (i + 1)))

  -- One message: the packet, and what the body is for the cipher.
  sealed_packet :
      CryptoLaws c
      → (i : ℕ) (s : SendCipher) (r : RecvCipher) (msg : Bytes) → SendsAfter c ck₀ key₀ i s
      → ReceivesAfter c ck₀ key₀ i r
      → length msg ≤ 65535
      → (header : Bytes) × (body : Bytes) × Carries i s r msg header body × Unseals (i + 1) body msg
  sealed_packet laws i s r msg hs hr le =
      let prefix = to_be_bytes 2 (length msg) in
      let size : length prefix ≡ 2 = length-to_be_bytes 2 (length msg) in
      let (header, e, len_e, dec_e) =
        laws.encrypt_sound (key_at c ck₀ key₀ i) (encode_nonce (i % 1000)) [] prefix
          (omega arith) in
      let (body, f, len_f, dec_f) =
        laws.encrypt_sound (key_at c ck₀ key₀ (i + 1)) (encode_nonce ((i + 1) % 1000)) [] msg le in
      (
        header,
        body,
        (
          encrypt_lem i s msg header body hs le e f,
          omega arith,
          len_f,
          decrypt_length_lem i (length msg) r header hr (omega arith) dec_e,
          decrypt_message_lem (i + 1) (received_at i) body msg (received_at-ReceivesAfter i) dec_f,
        ),
        dec_f,
      )

  -- Under the laws of the cipher: if both halves have done `i` operations from the same keys, any message
  -- of at most 65535 bytes is encrypted to a header of 18 bytes and a body of 16 bytes more than the
  -- message, the receiver decrypts the length and the message from them, and both halves are then as
  -- they should be after two operations more.
  pub packet :
      CryptoLaws c
      → (i : ℕ) (s : SendCipher) (r : RecvCipher) (msg : Bytes) → SendsAfter c ck₀ key₀ i s
      → ReceivesAfter c ck₀ key₀ i r
      → length msg ≤ 65535
      → (header : Bytes) × (body : Bytes) × Carries i s r msg header body
  packet laws i s r msg hs hr le =
      let (header, body, p, _) = sealed_packet laws i s r msg hs hr le in (header, body, p)

  -- Two bytes, behind the header of their packet, are a length for the receiver that looks for one.
  pub packet_of_two :
      CryptoLaws c
      → (i : ℕ) (s : SendCipher) (r : RecvCipher) (len : ℕ) → SendsAfter c ck₀ key₀ i s
      → ReceivesAfter c ck₀ key₀ i r
      → len < 2 ^ 16
      → (header : Bytes) × (body : Bytes) × Carries i s r (to_be_bytes 2 len) header body
        × (RecvCipher.decrypt_length c body (received_at i) ≡ (ok len, received_at (i + 1)))
  packet_of_two laws i s r len hs hr lt =
      let (header, body, p, e) =
        sealed_packet laws i s r (to_be_bytes 2 len) hs hr
          (omega (arith, length-to_be_bytes 2 len)) in
      (
        header,
        body,
        p,
        decrypt_length_lem (i + 1) len (received_at i) body (received_at-ReceivesAfter i) lt e,
      )
