-- ===== src/GossipSim/Conn/Dropped/Misread.antt =====
-- How ln-gossip-sim/src/conn.rs goes on behind a receive that was dropped in the middle of a packet.
use ln_gossip_sim.Base.{
  ℕ, ◌^◌, ◌+◌, ◌<◌, ◌≡◌, refl, ap, ◌∙◌, arith, [], ◌++◌, append_assoc, length, Bytes, ok, err, some,
  none, inl, inr, length-append,
}
use ln_gossip_sim.Base.State.{◌>>◌}
use ln_gossip_sim.Base.Words.{to_be_bytes, length-to_be_bytes}
use ln_gossip_sim.Base.Options.{Option-cases}
use ln_gossip_sim.Crypto.{Crypto, CryptoLaws}
use ln_gossip_sim.GossipSim.Tcp.{Tcp, TcpLaws}
use ln_gossip_sim.GossipSim.Conn.{NoiseReader, recv, read_exact}
use ln_gossip_sim.GossipSim.Conn.Delivery.{recv_lem}
use ln_gossip_sim.GossipSim.Conn.Dropped.{in_body, drop_recv}
use ln_gossip_sim.Noise.NoiseError.{NoiseError, io}
use ln_gossip_sim.Noise.SendCipher
use ln_gossip_sim.Noise.SendCipher.{SendCipher}
use ln_gossip_sim.Noise.Transport.{packet_of_two, received_at}
use ln_gossip_sim.Noise.RecvCipher
use ln_gossip_sim.Noise.RecvCipher.{RecvCipher}
use ln_gossip_sim.Noise.Rotation.{SendsAfter, ReceivesAfter}

module _ (t : Tcp) (tl : TcpLaws t) (c : Crypto) (cl : CryptoLaws c) where
  -- More bytes than come are not read.
  read_exact-none :
      (n : ℕ) (r : t.OwnedReadHalf) → length (tl.incoming r) < n → (t.read_exact n r).0 ≡ none
  read_exact-none n r short = elim (Option-cases (t.read_exact n r).0) [
    | inl e ↦ e
    | inr (bytes, e) ↦
        let (size, parts) = tl.read_exact-some n r bytes e in
        absurd (
          omega
            (arith, size, ap length parts, length-append bytes (tl.incoming (t.read_exact n r).1)))
  ]

  -- A receive that is dropped behind the header, and a receive that finds its body missing.
  drop_recv_lem :
      (size : ℕ) (r : NoiseReader t) (header : Bytes) (cipher : RecvCipher)
      → (t.read_exact 18 r.stream).0 ≡ some header
      → RecvCipher.decrypt_length c header r.cipher ≡ (ok size, cipher)
      → drop_recv t c (in_body 0) r ≡ (
        ok tt,
        record {
          stream = t.dropped_read (size + 16) 0 (t.read_exact 18 r.stream).1;
          cipher = cipher;
        },
      )
  unfolding drop_recv read_exact
  drop_recv_lem size r header cipher e d = rw (e, d)

  recv-io :
      (size : ℕ) (r : NoiseReader t) (header : Bytes) (cipher : RecvCipher)
      → (t.read_exact 18 r.stream).0 ≡ some header
      → RecvCipher.decrypt_length c header r.cipher ≡ (ok size, cipher)
      → (t.read_exact (size + 16) (t.read_exact 18 r.stream).1).0 ≡ none
      → (recv t c r).0 ≡ err io
  unfolding recv read_exact
  recv-io size r header cipher e d f = rw (e, d, f)

  -- Under the laws of the stream and of the cipher, with both ciphers behind the same number of operations
  -- from the same keys: where the packet of a message of two bytes has come, a receive gives the
  -- message. A receive that is dropped when it has read the header, and a second one, give an I/O
  -- error, unless as many bytes and 16 more follow the packet as the two bytes spell: the second
  -- receive takes the message for a length.
  pub two_bytes-misread :
      (ck₀ key₀ : Bytes) (i len : ℕ) (s : SendCipher) (r : NoiseReader t) (sealed rest : Bytes)
      → SendsAfter c ck₀ key₀ i s
      → ReceivesAfter c ck₀ key₀ i r.cipher
      → len < 2 ^ 16
      → (SendCipher.encrypt c {E = NoiseError} (to_be_bytes 2 len) s).0 ≡ ok sealed
      → tl.incoming r.stream ≡ sealed ++ rest
      → length rest < len + 16
      → ((recv t c r).0 ≡ ok (to_be_bytes 2 len))
        × (((drop_recv t c (in_body 0) >> recv t c) r).0 ≡ err io)
  two_bytes-misread ck₀ key₀ i len s r sealed rest hs hr lt e come short =
      let (header, body, p, misread) = packet_of_two c ck₀ key₀ cl i s r.cipher len hs hr lt in
      let whole : sealed ≡ header ++ body = cc in
      let size : length (to_be_bytes 2 len) ≡ 2 = length-to_be_bytes 2 len in
      let behind = (t.read_exact 18 r.stream).1 in
      let arrived : tl.incoming r.stream ≡ header ++ (body ++ rest) =
        come ∙ ap (λ x. x ++ rest) whole ∙ append_assoc header body rest in
      let (e1, e2) = tl.read_exact-incoming 18 r.stream header (body ++ rest) arrived p.1 in
      let (f1, f2) =
        tl.read_exact-incoming (length (to_be_bytes 2 len) + 16) behind body rest e2 p.2 in
      let cut = t.dropped_read (length (to_be_bytes 2 len) + 16) 0 behind in
      let left =
        tl.dropped_read-incoming (length (to_be_bytes 2 len) + 16) 0 behind [] (body ++ rest) e2
          refl (omega arith) in
      let (g1, g2) = tl.read_exact-incoming 18 cut body rest left (omega (arith, p.2)) in
      (
        ap (λ x. x.0) (recv_lem t c tl ck₀ key₀ i r s (to_be_bytes 2 len) header body p e1 f1),
        rw (drop_recv_lem (length (to_be_bytes 2 len)) r header _ e1 p.3) (
            recv-io len (record { stream = cut; cipher = received_at c ck₀ key₀ i }) body _ g1
              misread
              (read_exact-none (len + 16) (t.read_exact 18 cut).1 (omega (arith, ap length g2)))),
      )
