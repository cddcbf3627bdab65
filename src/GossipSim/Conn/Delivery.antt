-- ===== src/GossipSim/Conn/Delivery.antt =====
-- Runs of sends at one end of a connection of ln-gossip-sim/src/conn.rs, and of receives at the other.
use ln_gossip_sim.Base.{
  ℕ, zero, suc, ◌+◌, ◌≤◌, ◌≡◌, refl, sym, ap, ◌∙◌, true, List, [], ◌∷◌, ◌++◌, append_assoc,
  append-nil, All, length, drop, drop-append, le→ltb, Bytes, ok, some,
}
use ln_gossip_sim.Base.State.{Method, ◌>>=◌, ◌>>◌, return}
use ln_gossip_sim.Crypto.{Crypto, CryptoLaws}
use ln_gossip_sim.GossipSim.Tcp.{Tcp, TcpLaws}
use ln_gossip_sim.GossipSim.Conn.{NoiseWriter, NoiseReader, send, recv, write_all, read_exact}
use ln_gossip_sim.Noise.NoiseError.{NoiseError}
use ln_gossip_sim.Noise.RecvCipher.{RecvCipher}
use ln_gossip_sim.Noise.Rotation.{SendsAfter, ReceivesAfter}
use ln_gossip_sim.Noise.Transport.{
  Carries, packet, sent_at, received_at, sent_at-SendsAfter, received_at-ReceivesAfter,
}

module _ (t : Tcp) (c : Crypto) where
  -- The messages one after the other, and as many receives.
  unfoldable pub send_each : List Bytes → Method (NoiseWriter t) NoiseError (Unit {0})
  send_each [] = return tt
  send_each (msg ∷ msgs) = do send t c msg; send_each msgs

  unfoldable pub recv_each : ℕ → Method (NoiseReader t) NoiseError (List Bytes)
  recv_each zero = return []
  recv_each (suc n) = do msg ← recv t c; msgs ← recv_each n; return (msg ∷ msgs)

  module _ (tl : TcpLaws t) (ck₀ key₀ : Bytes) where
    pub send_lem :
        (i : ℕ) (w : NoiseWriter t) (r : _) (msg header body : Bytes)
        → Carries c ck₀ key₀ i w.cipher r msg header body
        → length msg ≤ 65535
        → (t.write_all (header ++ body) w.stream).0 ≡ true
        → send t c msg w ≡ (
          ok tt,
          record {
            stream = (t.write_all (header ++ body) w.stream).1;
            cipher = sent_at c ck₀ key₀ (i + 1);
          },
        )
    unfolding send write_all
    send_lem i w r msg header body p le open_stream =
        rw (le→ltb 65535 (length msg) le, p.0, open_stream)

    pub recv_lem :
        (i : ℕ) (r : NoiseReader t) (s : _) (msg header body : Bytes)
        → Carries c ck₀ key₀ i s r.cipher msg header body
        → (t.read_exact 18 r.stream).0 ≡ some header
        → (t.read_exact (length msg + 16) (t.read_exact 18 r.stream).1).0 ≡ some body
        → recv t c r ≡ (
          ok msg,
          record {
            stream = (t.read_exact (length msg + 16) (t.read_exact 18 r.stream).1).1;
            cipher = received_at c ck₀ key₀ (i + 1);
          },
        )
    unfolding recv read_exact
    recv_lem i r s msg header body p e f = rw (e, p.3, f, p.4)

    -- What a run of sends writes, and what a receiver makes of it that has seen as many packets.
    record Delivered (i : ℕ) (w : NoiseWriter t) (receiver : RecvCipher) (msgs : List Bytes)
        : Type 0 where
      written : Bytes
      sender_end : NoiseWriter t
      sent : send_each msgs w ≡ (ok tt, sender_end)
      appended : tl.outgoing sender_end.stream ≡ tl.outgoing w.stream ++ written
      received :
          (stream : t.OwnedReadHalf) (rest : Bytes)
          → tl.incoming stream ≡ written ++ rest
          → (receiver_end : NoiseReader t) × (recv_each
                (length msgs)
                (record { stream = stream; cipher = receiver })
              ≡ (ok msgs, receiver_end))
            × (tl.incoming receiver_end.stream ≡ rest)

    module _ (cl : CryptoLaws c)
        (stays_open : (bytes : Bytes) (s : t.OwnedWriteHalf) → (t.write_all bytes s).0 ≡ true) where
      send_each-Delivered :
          (i : ℕ) (w : NoiseWriter t) (receiver : RecvCipher) (msgs : List Bytes)
          → SendsAfter c ck₀ key₀ i w.cipher
          → ReceivesAfter c ck₀ key₀ i receiver
          → All (λ msg. length msg ≤ 65535) msgs
          → Delivered i w receiver msgs
      unfolding send_each recv_each
      send_each-Delivered i w receiver [] h hr fit = record {
        written = [];
        sender_end = w;
        sent = refl;
        appended = sym (append-nil (tl.outgoing w.stream));
        received = λ stream rest e. (record { stream = stream; cipher = receiver }, refl, e);
      }
      send_each-Delivered i w receiver (msg ∷ msgs) h hr (le, fit) =
          let (header, body, p) = packet c ck₀ key₀ cl i w.cipher receiver msg h hr le in
          let open_stream = stays_open (header ++ body) w.stream in
          let next : NoiseWriter t = record {
            stream = (t.write_all (header ++ body) w.stream).1;
            cipher = sent_at c ck₀ key₀ (i + 1);
          } in
          let d =
            send_each-Delivered (i + 1 + 1) next (received_at c ck₀ key₀ (i + 1)) msgs
              (sent_at-SendsAfter c ck₀ key₀ (i + 1)) (received_at-ReceivesAfter c ck₀ key₀ (i + 1))
              fit in
          record {
            written = (header ++ body) ++ d.written;
            sender_end = d.sender_end;
            sent = rw (send_lem i w receiver msg header body p le open_stream, d.sent);
            appended =
                d.appended
                ∙ ap (λ x. x ++ d.written) (tl.write_all-true (header ++ body) w.stream open_stream)
                ∙ append_assoc (tl.outgoing w.stream) (header ++ body) d.written;
            received = λ stream rest e.
                let (e1, e2) =
                  tl.read_exact-incoming 18 stream header (body ++ (d.written ++ rest))
                    (e
                      ∙ append_assoc (header ++ body) d.written rest
                      ∙ append_assoc header body (d.written ++ rest))
                    p.1 in
                let (f1, f2) =
                  tl.read_exact-incoming (length msg + 16) (t.read_exact 18 stream).1 body
                    (d.written ++ rest) e2 p.2 in
                let (r_end, g, k) =
                  d.received (t.read_exact (length msg + 16) (t.read_exact 18 stream).1).1 rest
                    f2 in
                (
                  r_end,
                  rw (
                    recv_lem i (record { stream = stream; cipher = receiver }) w.cipher msg header
                        body p e1 f1,
                    g,
                  ),
                  k,
                );
          }

      -- Over a stream that stays open and delivers in order, under the laws of the cipher, with both halves
      -- behind the same number of operations from the same keys: any messages of at most 65535 bytes each are
      -- sent without an error, and a receiver to which everything arrives that was written meanwhile
      -- receives these messages, in this order.
      pub recv_each-send_each :
          (i : ℕ) (w : NoiseWriter t) (r : NoiseReader t) (msgs : List Bytes)
          → SendsAfter c ck₀ key₀ i w.cipher
          → ReceivesAfter c ck₀ key₀ i r.cipher
          → All (λ msg. length msg ≤ 65535) msgs
          → tl.outgoing (send_each msgs w).1.stream ≡ tl.outgoing w.stream ++ tl.incoming r.stream
          → ((send_each msgs w).0 ≡ ok tt) × ((recv_each (length msgs) r).0 ≡ ok msgs)
      recv_each-send_each i w r msgs h hr fit arrived =
          let d = send_each-Delivered i w r.cipher msgs h hr fit in
          let front = tl.outgoing w.stream in
          let both : front ++ tl.incoming r.stream ≡ front ++ d.written =
            sym arrived ∙ ap (λ x. tl.outgoing x.1.stream) d.sent ∙ d.appended in
          let same : tl.incoming r.stream ≡ d.written =
            sym (drop-append front (tl.incoming r.stream))
            ∙ ap (drop (length front)) both
            ∙ drop-append front d.written in
          let (r_end, g, k) = d.received r.stream [] (same ∙ sym (append-nil d.written)) in
          (ap (λ x. x.0) d.sent, ap (λ x. x.0) g)
