-- ===== src/GossipSim/Daemon/Forwarding.antt =====
-- What `sendmessage` of ln-gossip-sim/src/bin/simd.rs hands on to a peer.
use ln_gossip_sim.Base.{
  ℕ, ◌^◌, ◌<◌, ◌≡◌, refl, ◌∙◌, ap, some, [], ◌∷◌, ◌++◌, Bytes, AllBytes, Outcome, ok, err, panic,
  stuck, Ensures-ok,
}
use ln_gossip_sim.Base.Words.{to_be_bytes}
use ln_gossip_sim.Base.Runs.{found-IfOk, call-IfOk, IfOk, value, IfOk-continue}
use ln_gossip_sim.Base.Text.{Text}
use ln_gossip_sim.Bitcoin.{Bitcoin, BitcoinLaws}
use ln_gossip_sim.Crypto.{Crypto}
use ln_gossip_sim.Bolt.Types.{BoltError, unknown_even_type}
use ln_gossip_sim.Bolt.Wire.{u16}
use ln_gossip_sim.Bolt.Wire.Lengths.{write-u16}
use ln_gossip_sim.Bolt.Message
use ln_gossip_sim.Bolt.Message.{Message, unknown, msg_type}
use ln_gossip_sim.Bolt.Message.RoundTrip.{IsValid, decode-Ensures, msg_type-Fits}
use ln_gossip_sim.Bolt.Message.Total.{encode-total, decode-encoded}
use ln_gossip_sim.Noise.Cipher.{first_two}
use ln_gossip_sim.Noise.Transport.{first_two_lem}
use ln_gossip_sim.GossipSim.Tcp.{Tcp}
use ln_gossip_sim.GossipSim.Host.{Host}
use ln_gossip_sim.GossipSim.Daemon.{Answer, Daemon, sent_message_type}
use ln_gossip_sim.GossipSim.Daemon.Table.{get}
use ln_gossip_sim.GossipSim.Daemon.Commands.{parse_pubkey, to_wire, cmd_send_message}
use ln_gossip_sim.GossipSim.Daemon.Writing.{Sent, over_writer-Sent, writer_of-IfOk, send_to-IfOk}

-- The type of the message has a codec.
abbrev pub HasCodec : {b : Bitcoin} → Message b → Type 0
HasCodec (unknown t payload) = ⊥
HasCodec m = Unit

module _ (b : Bitcoin) where
  -- What is encoded again has a codec.
  to_wire-ok :
      (r : Outcome BoltError (Message b)) (wire : Bytes)
      → to_wire b r ≡ ok wire
      → (m : Message b) × (r ≡ ok m) × HasCodec m × (Message.encode {E = Answer b} b m ≡ ok wire)
  unfolding to_wire
  to_wire-ok (ok (unknown t payload)) wire e = cc
  to_wire-ok (err (unknown_even_type t)) wire e = cc
  to_wire-ok panic wire e = cc
  to_wire-ok stuck wire e = cc
  to_wire-ok (ok m) wire e = (m, refl, tt, e)
  to_wire-ok (err x) wire e = cc

  first_two-wire :
      {E : Type 0} (v : ℕ) (body : Bytes)
      → v < 2 ^ 16
      → first_two {E = E} (u16.write v ++ body) ≡ ok v
  unfolding to_be_bytes
  first_two-wire v body lt = rw (write-u16 v) (first_two_lem v lt)

  -- The encoding of a valid message, read back, and read up to its type.
  reads_back :
      BitcoinLaws b
      → (m : Message b) (wire : Bytes) → IsValid b m
      → Message.encode {E = Answer b} b m ≡ ok wire
      → (Message.decode b wire ≡ ok m) × (first_two {E = Answer b} wire ≡ ok (msg_type b m))
  reads_back bl m wire v e =
      let (body, encodes) = encode-total b m in
      let whole : u16.write (msg_type b m) ++ body ≡ wire = cc (encodes (Answer b)) in
      (
        decode-encoded b bl m wire v e,
        rw (← whole) (first_two-wire (msg_type b m) body (msg_type-Fits m v)),
      )

  module _ (bl : BitcoinLaws b) (t : Tcp) (h : Host b t)
      (hex_bytes : (s : Text) (bytes : Bytes) → h.hex_decode s ≡ some bytes → AllBytes bytes)
      (c : Crypto) (ecdh : b.SecretKey → b.PublicKey → Bytes) where
    -- The given message was sent to the peer.
    pub record Forwarded (key message : Text) (d : Daemon b t h) (a : Answer b) (d' : Daemon b t h)
        : Type 0 where
      pub peer : b.PublicKey
      pub peer_is : parse_pubkey b t h c ecdh key ≡ some peer
      pub given : Bytes
      pub given_is : h.hex_decode message ≡ some given
      pub m : Message b
      pub decodes : Message.decode b given ≡ ok m
      pub has_codec : HasCodec m
      pub wire : Bytes
      pub rereads : Message.decode b wire ≡ ok m
      pub sent : Sent b t h c ecdh peer wire d d'
      pub answered : a ≡ sent_message_type (msg_type b m) peer

    -- Where hexadecimal text is decoded to bytes, under the laws of keys, signatures and transaction ids: a
    -- `sendmessage` that answers with success has sent one message over the writer that the table
    -- holds for the peer that is named. The bytes sent decode to the message that the given bytes
    -- decode to, it has a codec, and the answer tells its type.
    pub cmd_send_message-IfOk :
        (name key message : Text) (d : Daemon b t h)
        → IfOk
            (Forwarded key message d)
            (cmd_send_message b t h c ecdh (name ∷ key ∷ message ∷ []) d)
    unfolding cmd_send_message
    cmd_send_message-IfOk name key message d =
        IfOk-continue (found-IfOk (parse_pubkey b t h c ecdh key) _ d) λ k d1 (known, same1).
          IfOk-continue (found-IfOk (h.hex_decode message) _ d1) λ given d2 (read, same2).
            IfOk-continue (call-IfOk (to_wire b (Message.decode b given)) d2)
              λ wire d3 (coded, same3).
                let (m, decodes, has_codec, encodes) =
                  to_wire-ok (Message.decode b given) wire coded in
                let (rereads, typed) =
                  reads_back bl m wire
                    (Ensures-ok (decode-Ensures b bl given (hex_bytes message given read)) decodes)
                    encodes in
                IfOk-continue (writer_of-IfOk b t h c ecdh k d3)
                  λ n d4 (peer, found, same_n, same4).
                    let before : d ≡ d3 = same1 ∙ same2 ∙ same3 in
                    let whole : d ≡ d4 = before ∙ same4 in
                    IfOk-continue (send_to-IfOk b t h c ecdh n wire d4)
                      λ _ d5 (w, w', at, sent, stored). rw typed (
                        value (record {
                          peer = k;
                          peer_is = known;
                          given = given;
                          given_is = read;
                          m = m;
                          decodes = decodes;
                          has_codec = has_codec;
                          wire = wire;
                          rereads = rereads;
                          sent =
                              over_writer-Sent b t h c ecdh k wire d d4 d5 peer n w w'
                                (ap (λ x. get b k x.table.peers) before ∙ found) same_n
                                (ap (λ x. x.writers) whole) at sent stored;
                          answered = refl;
                        }))
