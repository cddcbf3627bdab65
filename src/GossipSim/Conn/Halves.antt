-- ===== src/GossipSim/Conn/Halves.antt =====
-- What a send and a receive of ln-gossip-sim/src/conn.rs do to the connection.
use ln_gossip_sim.Base.{
  ℕ, ◌+◌, ◌^◌, ◌%◌, ◌≤◌, ◌<◌, ◌≡◌, refl, ap, arith, Bool-cases, inl, inr, some, [], ◌∷◌, length,
  length-append, ltb, lt→ltb, ltb→le, Bytes, AllBytes, Outcome,
}
use ln_gossip_sim.Base.Words.{to_be_bytes, length-to_be_bytes}
use ln_gossip_sim.Base.State.{call, Steps, done, failed, Steps-continue, Steps-ok_or, Steps-weaken}
use ln_gossip_sim.Crypto.{Crypto, CryptoLaws}
use ln_gossip_sim.GossipSim.Tcp.{Tcp, TcpLaws}
use ln_gossip_sim.GossipSim.Conn.{
  NoiseWriter, NoiseReader, send, recv, write_all, read_exact, with_receiver, with_sender,
}
use ln_gossip_sim.GossipSim.Conn.Dropped.{Cut, in_header, in_body, drop_read, drop_recv}
use ln_gossip_sim.Noise.NoiseError.{NoiseError, decryption_failed, io}
use ln_gossip_sim.Noise.Cipher.{encode_nonce, encrypt_with_ad, decrypt_with_ad, first_two}
use ln_gossip_sim.Noise.SendCipher
use ln_gossip_sim.Noise.SendCipher.{SendCipher}
use ln_gossip_sim.Noise.RecvCipher
use ln_gossip_sim.Noise.RecvCipher.{RecvCipher}

first_two-Steps :
    {S : Type 0} (bytes : Bytes) (s : S)
    → length bytes ≡ 2
    → Steps (λ len s'. Unit) (call (first_two {E = NoiseError} bytes) s)
first_two-Steps [] s h = absurd (omega arith)
first_two-Steps (x ∷ []) s h = absurd (omega arith)
first_two-Steps (x ∷ y ∷ rest) s h = done tt

module _ (c : Crypto) (cl : CryptoLaws c) where
  encrypt-Steps :
      (msg : Bytes) (s : SendCipher)
      → length msg ≤ 65535
      → Steps (λ bytes s'. Unit) (SendCipher.encrypt c {E = NoiseError} msg s)
  unfolding SendCipher.encrypt SendCipher.encrypt_length encrypt_with_ad
  encrypt-Steps msg s le =
      let prefix = to_be_bytes 2 (length msg) in
      let s1 = SendCipher.maybe_rotate c s in
      let (header, e, _, _) =
        cl.encrypt_sound s1.key (encode_nonce s1.nonce) [] prefix
          (omega (arith, length-to_be_bytes 2 (length msg))) in
      let s2 = SendCipher.maybe_rotate c (record s1 { nonce = (s1.nonce + 1) % 2 ^ 64 }) in
      let (body, f, _, _) = cl.encrypt_sound s2.key (encode_nonce s2.nonce) [] msg le in
      rw (lt→ltb (length msg) (2 ^ 16) (omega arith), e, f) (done tt)

  decrypt_length-Steps :
      (header : Bytes) (s : RecvCipher)
      → length header ≡ 18
      → Steps (λ len s'. Unit) (RecvCipher.decrypt_length c header s)
  unfolding RecvCipher.decrypt_length decrypt_with_ad
  decrypt_length-Steps header s size =
      let s1 = RecvCipher.maybe_rotate c s in
      Steps-continue
        (Steps-ok_or (c.decrypt s1.key (encode_nonce s1.nonce) [] header) decryption_failed s1
          (λ msg e. e))
        λ msg s' (e : c.decrypt s1.key (encode_nonce s1.nonce) [] header ≡ some msg).
          first_two-Steps msg _
            (omega (arith, cl.length-decrypt s1.key (encode_nonce s1.nonce) [] header msg e))

  decrypt_message-Steps :
      (body : Bytes) (s : RecvCipher)
      → AllBytes body
      → Steps (λ msg s'. AllBytes msg) (RecvCipher.decrypt_message c body s)
  unfolding RecvCipher.decrypt_message decrypt_with_ad
  decrypt_message-Steps body s h =
      let s1 = RecvCipher.maybe_rotate c s in
      Steps-continue
        (Steps-ok_or (c.decrypt s1.key (encode_nonce s1.nonce) [] body) decryption_failed s1
          (λ msg e. e))
        λ msg s' e. done (cl.decrypt-AllBytes s1.key (encode_nonce s1.nonce) [] body msg h e)

module _ (t : Tcp) (tl : TcpLaws t)
    (bytes_arrive : (n : ℕ) (r : t.OwnedReadHalf) (bytes : Bytes)
      → (t.read_exact n r).0 ≡ some bytes
      → AllBytes bytes) where
  -- What is left to be read.
  abbrev pub left : NoiseReader t → ℕ
  left r = length (tl.incoming r.stream)

  read_exact-Steps :
      (n : ℕ) (r : NoiseReader t)
      → Steps
          (λ bytes r'. AllBytes bytes × (length bytes ≡ n) × (left r' + n ≡ left r))
          (read_exact t n r)
  unfolding read_exact
  read_exact-Steps n r = Steps-ok_or (t.read_exact n r.stream).0 io _ λ bytes e.
      let (size, parts) = tl.read_exact-some n r.stream bytes e in
      (
        bytes_arrive n r.stream bytes e,
        size,
        omega (
          arith,
          size,
          ap length parts,
          length-append bytes (tl.incoming (t.read_exact n r.stream).1),
        ),
      )

  write_all-Steps : (bytes : Bytes) (w : NoiseWriter t) → Steps (λ u w'. Unit) (write_all t bytes w)
  unfolding write_all
  write_all-Steps bytes w = elim (Bool-cases (t.write_all bytes w.stream).0) [
    | inl e ↦ rw e (done tt)
    | inr e ↦ rw e failed
  ]

  with_receiver-Steps :
      {A : Type 0} {P : A → Type 0} (r : NoiseReader t) {m : Outcome NoiseError A × RecvCipher}
      → Steps (λ a s. P a) m
      → Steps (λ a r'. P a × (left r' ≡ left r)) (with_receiver t r m)
  with_receiver-Steps r (done p) = done (p, refl)
  with_receiver-Steps r failed = failed

  with_sender-Steps :
      {A : Type 0} (w : NoiseWriter t) {m : Outcome NoiseError A × SendCipher}
      → Steps (λ a s. Unit) m
      → Steps (λ a w'. Unit) (with_sender t w m)
  with_sender-Steps w (done p) = done tt
  with_sender-Steps w failed = failed

  module _ (c : Crypto) (cl : CryptoLaws c) where
    pub recv-Steps :
        (r : NoiseReader t) → Steps (λ raw r'. AllBytes raw × (left r' < left r)) (recv t c r)
    unfolding recv
    recv-Steps r = Steps-continue (read_exact-Steps 18 r) λ header r1 (_, size, used).
        Steps-continue (with_receiver-Steps r1 (decrypt_length-Steps c cl header r1.cipher size))
          λ len r2 (_, same).
            Steps-continue (read_exact-Steps (len + 16) r2) λ body r3 (bytes, _, used').
              Steps-weaken
                (with_receiver-Steps r3 (decrypt_message-Steps c cl body r3.cipher bytes))
                λ raw r4 (h, same'). (h, omega (arith, used, same, used', same'))

    pub send-Steps : (msg : Bytes) (w : NoiseWriter t) → Steps (λ u w'. Unit) (send t c msg w)
    unfolding send
    send-Steps msg w = elim (Bool-cases (ltb 65535 (length msg))) [
      | inl large ↦ rw large failed
      | inr fits ↦ rw fits (
          Steps-continue (with_sender-Steps w (encrypt-Steps c cl msg w.cipher (ltb→le _ _ fits)))
            λ encrypted w' _. write_all-Steps encrypted w')
    ]

    pub drop_recv-Steps :
        (cut : Cut) (r : NoiseReader t) → Steps (λ u r'. left r' ≤ left r) (drop_recv t c cut r)
    unfolding drop_recv drop_read
    drop_recv-Steps (in_header m) r = done (tl.dropped_read-le 18 m r.stream)
    drop_recv-Steps (in_body m) r =
        Steps-continue (read_exact-Steps 18 r) λ header r1 (_, size, used).
          Steps-continue (with_receiver-Steps r1 (decrypt_length-Steps c cl header r1.cipher size))
            λ len r2 (_, same).
              done (omega (arith, tl.dropped_read-le (len + 16) m r2.stream, used, same))
