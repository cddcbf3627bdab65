-- ===== src/GossipSim/Conn/Passing.antt =====
-- One message over a connection of ln-gossip-sim/src/conn.rs of which neither end has been used.
use ln_gossip_sim.Base.{
  ◌+◌, ◌≤◌, ◌≡◌, refl, ◌∙◌, arith, true, ◌++◌, append_assoc, length, Bytes, ok,
}
use ln_gossip_sim.Crypto.{Crypto, CryptoLaws}
use ln_gossip_sim.GossipSim.Tcp.{Tcp, TcpLaws}
use ln_gossip_sim.GossipSim.Conn.{NoiseWriter, NoiseReader, send, recv}
use ln_gossip_sim.GossipSim.Conn.Delivery.{send_lem, recv_lem}
use ln_gossip_sim.Noise.NoiseError.{NoiseError}
use ln_gossip_sim.Noise.SendCipher
use ln_gossip_sim.Noise.SendCipher.{SendCipher}
use ln_gossip_sim.Noise.RecvCipher.{RecvCipher}
use ln_gossip_sim.Noise.Rotation.{rotated, SendsAfter, ReceivesAfter}
use ln_gossip_sim.Noise.Transport.{packet, sent_at, received_at}

module _ (c : Crypto) where
  -- A half that has done nothing yet.
  pub fresh_sends :
      (ck ck' key : Bytes)
      → ck' ≡ ck
      → SendsAfter c ck key 0 (record { key = key; nonce = 0; ck = ck' })
  unfolding rotated
  fresh_sends ck ck' key e = record {
    epoch = 0;
    counted = refl;
    bounded = omega arith;
    ck_is = e;
    key_is = refl;
  }

  pub fresh_receives :
      (ck ck' key : Bytes)
      → ck' ≡ ck
      → ReceivesAfter c ck key 0 (record { key = key; nonce = 0; ck = ck' })
  unfolding rotated
  fresh_receives ck ck' key e = record {
    epoch = 0;
    counted = refl;
    bounded = omega arith;
    ck_is = e;
    key_is = refl;
  }

module _ (t : Tcp) (tl : TcpLaws t)
    (stays_open : (bytes : Bytes) (s : t.OwnedWriteHalf) → (t.write_all bytes s).0 ≡ true)
    (c : Crypto) (cl : CryptoLaws c) where
  -- A packet that has come from a fresh sender is received by a fresh receiver.
  pub record Passed (ck key : Bytes) (s : SendCipher) (r : RecvCipher) (msg sealed : Bytes)
      : Type 0 where
    pub sends : SendCipher.encrypt c {E = NoiseError} msg s ≡ (ok sealed, sent_at c ck key 1)
    pub arrives :
        (stream : t.OwnedReadHalf) (rest : Bytes)
        → tl.incoming stream ≡ sealed ++ rest
        → (reader : NoiseReader t) × (recv t c (record { stream = stream; cipher = r })
            ≡ (ok msg, reader))
          × (tl.incoming reader.stream ≡ rest)
          × (reader.cipher ≡ received_at c ck key 1)
    pub written_by :
        (stream : t.OwnedWriteHalf)
        → (writer : NoiseWriter t) × (send t c msg (record { stream = stream; cipher = s })
            ≡ (ok tt, writer))
          × (tl.outgoing writer.stream ≡ tl.outgoing stream ++ sealed)
          × (writer.cipher ≡ sent_at c ck key 1)

  pub passes :
      (ck key : Bytes) (s : SendCipher) (r : RecvCipher) (msg : Bytes)
      → SendsAfter c ck key 0 s
      → ReceivesAfter c ck key 0 r
      → length msg ≤ 65535
      → (sealed : Bytes) × Passed ck key s r msg sealed
  passes ck key s r msg hs hr le =
      let (header, body, p) = packet c ck key cl 0 s r msg hs hr le in
      (
        header ++ body,
        record {
          sends = p.0;
          arrives = λ stream rest e.
              let (e1, e2) =
                tl.read_exact-incoming 18 stream header (body ++ rest)
                  (e ∙ append_assoc header body rest) p.1 in
              let (f1, f2) =
                tl.read_exact-incoming (length msg + 16) (t.read_exact 18 stream).1 body rest e2
                  p.2 in
              (
                _,
                recv_lem t c tl ck key 0 (record { stream = stream; cipher = r }) s msg header body
                    p e1 f1,
                f2,
                refl,
              );
          written_by = λ stream.
              let done = stays_open (header ++ body) stream in
              (
                _,
                send_lem t c tl ck key 0 (record { stream = stream; cipher = s }) r msg header body
                    p le done,
                tl.write_all-true (header ++ body) stream done,
                refl,
              );
        },
      )
