-- ===== src/GossipSim/Conn/Connect/Succeeds.antt =====
-- `connect` of ln-gossip-sim/src/conn.rs with a peer that follows the protocol.
use ln_gossip_sim.Base.{
  ◌≤◌, ◌≡◌, refl, sym, ap, ◌∙◌, arith, Bool, true, Option, some, ◌++◌, append_assoc, length, Bytes,
  ok,
}
use ln_gossip_sim.Bitcoin.{Bitcoin, BitcoinLaws}
use ln_gossip_sim.Crypto.{Crypto, CryptoLaws}
use ln_gossip_sim.Bolt.Wire.{u16}
use ln_gossip_sim.Bolt.Init.{Init, echo}
use ln_gossip_sim.Bolt.Init.RoundTrip as InitRoundTrip
use ln_gossip_sim.Bolt.Message
use ln_gossip_sim.Bolt.Message.{init, msg_type}
use ln_gossip_sim.Bolt.Message.Total.{encode-total, decode-encoded}
use ln_gossip_sim.Bolt.Message.Echo.{echo-IsValid, length-echo-le}
use ln_gossip_sim.GossipSim.Tcp.{Tcp, TcpLaws}
use ln_gossip_sim.GossipSim.Conn.{NoiseWriter, NoiseReader, send, recv}
use ln_gossip_sim.GossipSim.Conn.Connect.{connect, written, read}
use ln_gossip_sim.GossipSim.Conn.Passing.{fresh_sends, fresh_receives, passes}
use ln_gossip_sim.Noise.NoiseError.{NoiseError}
use ln_gossip_sim.Noise.NoiseCipher
use ln_gossip_sim.Noise.NoiseCipher.{split}
use ln_gossip_sim.Noise.SendCipher
use ln_gossip_sim.Noise.SendCipher.{SendCipher}
use ln_gossip_sim.Noise.RecvCipher.{RecvCipher}
use ln_gossip_sim.Noise.Rotation.{SendsAfter, ReceivesAfter}
use ln_gossip_sim.Noise.Transport.{sent_at-SendsAfter, received_at-ReceivesAfter}
use ln_gossip_sim.Noise.Handshake.{NoiseHandshake}
use ln_gossip_sim.Noise.Handshake.Initiator.{into_cipher, get_final_keys}
use ln_gossip_sim.Noise.Handshake.Agreement.{Agreed}

written_lem : {W : Type 0} (p : Bool × W) → p.0 ≡ true → written {W = W} p ≡ ok p.1
written_lem p e = rw e

read_lem :
    {R : Type 0} (p : Option Bytes × R) (bytes : Bytes)
    → p.0 ≡ some bytes
    → read {R = R} p ≡ ok (bytes, p.1)
read_lem p bytes e = rw e

module _ (t : Tcp) (tl : TcpLaws t)
    (stays_open : (bytes : Bytes) (s : t.OwnedWriteHalf) → (t.write_all bytes s).0 ≡ true)
    (c : Crypto) (cl : CryptoLaws c) (b : Bitcoin) (bl : BitcoinLaws b)
    (ecdh : b.SecretKey → b.PublicKey → Bytes) {si ei sr er : b.SecretKey}
    (a : Agreed b c ecdh si ei sr er) where
  -- The cipher of the peer behind the handshake, and the halves of both parties.
  abbrev pub peer_cipher : SendCipher × RecvCipher
  peer_cipher = split (NoiseCipher.new a.rk a.sk a.responder_end.ck)

  abbrev pub our_cipher : SendCipher × RecvCipher
  our_cipher = split (NoiseCipher.new a.sk a.rk a.initiator_end.ck)

  into_cipher_lem :
      (s : NoiseHandshake b) (sk rk : Bytes)
      → get_final_keys b c ecdh s ≡ ok (sk, rk)
      → into_cipher b c ecdh s ≡ ok (NoiseCipher.new sk rk s.ck)
  unfolding into_cipher
  into_cipher_lem s sk rk e = rw (into_cipher, e)

  -- The connection is set up with a peer that sends `theirs`.
  pub record Connected (read_half : t.OwnedReadHalf) (write_half : t.OwnedWriteHalf) (theirs : Init)
      (rest : Bytes) : Type 0 where
    pub writer : NoiseWriter t
    pub reader : NoiseReader t
    pub outcome :
        connect t c b ecdh (some (read_half, write_half)) (b.from_secret_key sr) si ei
        ≡ ok (writer, reader, b.from_secret_key sr)
    pub reply : Bytes
    pub reply_is : Message.decode b reply ≡ ok (init (echo theirs))
    pub sealed : Bytes
    pub appended :
        tl.outgoing writer.stream ≡ tl.outgoing write_half ++ (a.act_one ++ (a.act_three ++ sealed))
    pub peer_reads :
        (stream : t.OwnedReadHalf) (after : Bytes)
        → tl.incoming stream ≡ sealed ++ after
        → (recv t c (record { stream = stream; cipher = peer_cipher.1 })).0 ≡ ok reply
    pub unread : tl.incoming reader.stream ≡ rest
    pub sends : SendsAfter c a.initiator_end.ck a.sk 2 writer.cipher
    pub receives : ReceivesAfter c a.initiator_end.ck a.rk 2 reader.cipher

  -- The steps of `connect`, from what each call gives.
  connect_lem :
      (read_half : t.OwnedReadHalf) (write_half : t.OwnedWriteHalf) (raw reply : Bytes)
      (theirs : Init) (reader : NoiseReader t) (writer : NoiseWriter t)
      → (t.read_exact 50 read_half).0 ≡ some a.act_two
      → recv t c (record { stream = (t.read_exact 50 read_half).1; cipher = our_cipher.1 })
        ≡ (ok raw, reader)
      → Message.decode b raw ≡ ok (init theirs)
      → Message.encode {E = NoiseError} b (init (echo theirs)) ≡ ok reply
      → send t c reply (record {
        stream = (t.write_all a.act_three (t.write_all a.act_one write_half).1).1;
        cipher = our_cipher.0;
      })
        ≡ (ok tt, writer)
      → connect t c b ecdh (some (read_half, write_half)) (b.from_secret_key sr) si ei
        ≡ ok (writer, reader, b.from_secret_key sr)
  unfolding connect
  connect_lem read_half write_half raw reply theirs reader writer e1 e2 e3 e4 e5 = rw (
    a.first,
    written_lem (t.write_all a.act_one write_half) (stays_open _ _),
    read_lem (t.read_exact 50 read_half) a.act_two e1,
    a.third,
    written_lem (t.write_all a.act_three (t.write_all a.act_one write_half).1) (stays_open _ _),
    into_cipher_lem a.initiator_end a.sk a.rk a.initiator_keys,
    e2,
    e3,
    e4,
    e5,
  )

  -- Under the laws of the crates, over a stream that stays open and delivers in order, for the shared
  -- secrets of a handshake that succeeds: where act two of the peer arrives, and behind it its Init
  -- message, valid and of at most 65535 bytes, under the key of the peer, `connect` succeeds. It has
  -- written acts one and three and a packet that the peer receives, with an Init message that echoes
  -- the features. What follows is left to be read, and both directions are behind two operations.
  pub connect-Connected :
      (read_half : t.OwnedReadHalf) (write_half : t.OwnedWriteHalf) (theirs : Init)
      (raw sealed rest : Bytes)
      → InitRoundTrip.IsValid theirs
      → Message.encode {E = NoiseError} b (init theirs) ≡ ok raw
      → length raw ≤ 65535
      → (SendCipher.encrypt c {E = NoiseError} raw peer_cipher.0).0 ≡ ok sealed
      → tl.incoming read_half ≡ a.act_two ++ (sealed ++ rest)
      → Connected read_half write_half theirs rest
  unfolding split NoiseCipher.new
  connect-Connected read_half write_half theirs raw sealed rest valid coded fits sent come =
      let ck = a.initiator_end.ck in
      let (sealed₁, in_pass) =
        passes t tl stays_open c cl ck a.rk peer_cipher.0 our_cipher.1 raw
          (fresh_sends c ck _ a.rk (sym a.same_ck)) (fresh_receives c ck _ a.rk refl) fits in
      let whole : sealed ≡ sealed₁ = cc in_pass.sends in
      let (e1, e2) =
        tl.read_exact-incoming 50 read_half a.act_two (sealed ++ rest) come a.size_two in
      let (reader, got, left, reader_is) =
        in_pass.arrives (t.read_exact 50 read_half).1 rest (e2 ∙ ap (λ x. x ++ rest) whole) in
      let (body, encodes) = encode-total b (init (echo theirs)) in
      let reply = u16.write (msg_type b (init (echo theirs))) ++ body in
      let short = length-echo-le b theirs raw reply coded (encodes NoiseError) in
      let (sealed₂, out_pass) =
        passes t tl stays_open c cl ck a.sk our_cipher.0 peer_cipher.1 reply
          (fresh_sends c ck _ a.sk refl) (fresh_receives c ck _ a.sk (sym a.same_ck))
          (omega (arith, short)) in
      let one = (t.write_all a.act_one write_half).1 in
      let (writer, put, grown, writer_is) = out_pass.written_by (t.write_all a.act_three one).1 in
      record {
        writer = writer;
        reader = reader;
        outcome =
            connect_lem read_half write_half raw reply theirs reader writer e1 got
              (decode-encoded b bl (init theirs) raw valid coded) (encodes NoiseError) put;
        reply = reply;
        reply_is =
            decode-encoded b bl (init (echo theirs)) reply (echo-IsValid theirs valid)
              (encodes NoiseError);
        sealed = sealed₂;
        appended =
            grown
            ∙ ap (λ x. x ++ sealed₂)
                (tl.write_all-true a.act_three one (stays_open _ _)
                  ∙ ap (λ x. x ++ a.act_three)
                      (tl.write_all-true a.act_one write_half (stays_open _ _)))
            ∙ append_assoc (tl.outgoing write_half ++ a.act_one) a.act_three sealed₂
            ∙ append_assoc (tl.outgoing write_half) a.act_one (a.act_three ++ sealed₂);
        peer_reads = λ stream after e.
            let (peer_end, read_by, _, _) = out_pass.arrives stream after e in
            ap (λ x. x.0) read_by;
        unread = left;
        sends = rw writer_is (sent_at-SendsAfter c ck a.sk 1);
        receives = rw reader_is (received_at-ReceivesAfter c ck a.rk 1);
      }
