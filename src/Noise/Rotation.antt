-- ===== src/Noise/Rotation.antt =====
-- The key schedule of BOLT 8: operation number `i` of one direction, from 0, uses the key that was
-- rotated `i / 1000` times, with nonce `i % 1000`.
use ln_gossip_sim.Base.{
  ℕ, zero, suc, ◌+◌, ◌*◌, ◌/◌, ◌%◌, ◌^◌, ◌≤◌, ◌<◌, ◌≡◌, refl, ap, arith, true, false, leb,
  Bool-cases, inl, inr, Bytes,
}
use ln_gossip_sim.Crypto.{Crypto}
use ln_gossip_sim.Noise.Cipher.{hkdf_two_keys}
use ln_gossip_sim.Noise.SendCipher
use ln_gossip_sim.Noise.SendCipher.{SendCipher}
use ln_gossip_sim.Noise.RecvCipher
use ln_gossip_sim.Noise.RecvCipher.{RecvCipher}

-- The chaining key and the key of one direction after that many rotations.
unfoldable pub rotated : Crypto → ℕ → Bytes → Bytes → Bytes × Bytes
rotated c zero ck key = (ck, key)
rotated c (suc epoch) ck key = let (ck', key') = rotated c epoch ck key in hkdf_two_keys c ck' key'

rotated-suc :
    (c : Crypto) (epoch : ℕ) (ck key : Bytes)
    → rotated c (suc epoch) ck key
      ≡ hkdf_two_keys c (rotated c epoch ck key).0 (rotated c epoch ck key).1
unfolding rotated
rotated-suc c epoch ck key = refl

-- A direction that started with `ck` and `key` has done `i` operations.
pub record IsAfter (c : Crypto) (ck₀ key₀ : Bytes) (i : ℕ) (key : Bytes) (nonce : ℕ) (ck : Bytes)
    : Type 0 where
  pub epoch : ℕ
  pub counted : i ≡ epoch * 1000 + nonce
  pub bounded : nonce ≤ 1000
  pub ck_is : ck ≡ (rotated c epoch ck₀ key₀).0
  pub key_is : key ≡ (rotated c epoch ck₀ key₀).1

module _ {c : Crypto} {ck₀ key₀ : Bytes} {i nonce : ℕ} {key ck : Bytes}
    (h : IsAfter c ck₀ key₀ i key nonce ck) where
  at_threshold : leb 1000 nonce ≡ true → (i / 1000 ≡ suc h.epoch) × (i % 1000 ≡ 0)
  at_threshold due =
      let full : nonce ≡ 1000 = ground (arith, h.bounded) in
      (omega (arith, h.counted), omega (arith, h.counted))

  below_threshold : leb 1000 nonce ≡ false → (i / 1000 ≡ h.epoch) × (i % 1000 ≡ nonce)
  below_threshold early =
      let room : nonce < 1000 = ground arith in (omega (arith, h.counted), omega (arith, h.counted))

module _ (c : Crypto) (ck₀ key₀ : Bytes) where
  abbrev pub ck_at : ℕ → Bytes
  ck_at i = (rotated c (i / 1000) ck₀ key₀).0

  abbrev pub key_at : ℕ → Bytes
  key_at i = (rotated c (i / 1000) ck₀ key₀).1

  abbrev pub SendsAfter : ℕ → SendCipher → Type 0
  SendsAfter i s = IsAfter c ck₀ key₀ i s.key s.nonce s.ck

  abbrev pub ReceivesAfter : ℕ → RecvCipher → Type 0
  ReceivesAfter i s = IsAfter c ck₀ key₀ i s.key s.nonce s.ck

  -- The half cipher before operation `i`, rotated if that is due, and after it.
  abbrev pub send_at : ℕ → SendCipher
  send_at i = record { key = key_at i; nonce = i % 1000; ck = ck_at i }

  abbrev pub recv_at : ℕ → RecvCipher
  recv_at i = record { key = key_at i; nonce = i % 1000; ck = ck_at i }

  -- For a sending half that has done `i` operations, the step in front of the next one sets the key,
  -- the nonce and the chaining key to those of the schedule for operation `i`.
  pub maybe_rotate-send_at :
      (i : ℕ) (s : SendCipher) → SendsAfter i s → SendCipher.maybe_rotate c s ≡ send_at i
  unfolding SendCipher.maybe_rotate
  maybe_rotate-send_at i s h = elim (Bool-cases (leb 1000 s.nonce)) [
    | inl due ↦
        let (e, r) = at_threshold h due in
        rw due (
          cc (
            ap (λ (t : ℕ). rotated c t ck₀ key₀) e,
            r,
            rotated-suc c h.epoch ck₀ key₀,
            h.ck_is,
            h.key_is,
          ))
    | inr early ↦
        let (e, r) = below_threshold h early in
        rw early (cc (ap (λ (t : ℕ). rotated c t ck₀ key₀) e, r, h.ck_is, h.key_is))
  ]

  -- For a receiving half that has done `i` operations, the step in front of the next one sets the key,
  -- the nonce and the chaining key to those of the schedule for operation `i`.
  pub maybe_rotate-recv_at :
      (i : ℕ) (s : RecvCipher) → ReceivesAfter i s → RecvCipher.maybe_rotate c s ≡ recv_at i
  unfolding RecvCipher.maybe_rotate
  maybe_rotate-recv_at i s h = elim (Bool-cases (leb 1000 s.nonce)) [
    | inl due ↦
        let (e, r) = at_threshold h due in
        rw due (
          cc (
            ap (λ (t : ℕ). rotated c t ck₀ key₀) e,
            r,
            rotated-suc c h.epoch ck₀ key₀,
            h.ck_is,
            h.key_is,
          ))
    | inr early ↦
        let (e, r) = below_threshold h early in
        rw early (cc (ap (λ (t : ℕ). rotated c t ck₀ key₀) e, r, h.ck_is, h.key_is))
  ]

  -- One operation further.
  pub next-IsAfter :
      (i : ℕ) → IsAfter c ck₀ key₀ (i + 1) (key_at i) ((i % 1000 + 1) % 2 ^ 64) (ck_at i)
  next-IsAfter i = record {
    epoch = i / 1000;
    counted = omega arith;
    bounded = omega arith;
    ck_is = refl;
    key_is = refl;
  }
