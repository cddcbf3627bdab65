-- ===== src/GossipSim/Daemon/Replies.antt =====
-- What the reader task of ln-gossip-sim/src/bin/simd.rs answers to the messages of a peer.
use Prim.Native.Nat.{min}
use ln_gossip_sim.Base.{
  ℕ, ◌≤◌, ◌<◌, ◌≡◌, refl, sym, ◌∙◌, ap, arith, Bool, true, [], ◌∷◌, length, All-replicate,
  replicate, length-replicate, length-append, All-append, ◌++◌, Bytes, AllBytes, Outcome, ok, err,
  panic, stuck, ◌>>=◌, Ensures, holds, rejected,
}
use ln_gossip_sim.Bitcoin.{Bitcoin, BitcoinLaws}
use ln_gossip_sim.Crypto.{Crypto}
use ln_gossip_sim.Bolt.Types.{BoltError}
use ln_gossip_sim.Bolt.Wire.{u8}
use ln_gossip_sim.Bolt.Wire.Lengths.{length-uint}
use ln_gossip_sim.Bolt.Wire.Arrays.{uint-IsLawful}
use ln_gossip_sim.Bolt.Wire.Vectors.{IsVec}
use ln_gossip_sim.Bolt.Message
use ln_gossip_sim.Bolt.Message.{Message, ping, pong, query_channel_range, reply_channel_range}
use ln_gossip_sim.Bolt.Message.RoundTrip.{IsValid, decode-encode, decode-Ensures}
use ln_gossip_sim.Bolt.Message.Answers.{encode-pong, encode-reply_channel_range}
use ln_gossip_sim.Bolt.Pong
use ln_gossip_sim.Bolt.Pong.{Pong, respond_to}
use ln_gossip_sim.Bolt.Ping.{Ping}
use ln_gossip_sim.Bolt.QueryChannelRange.{QueryChannelRange}
use ln_gossip_sim.Bolt.ReplyChannelRange.{
  ReplyChannelRange, from_scids, short_channel_ids, write_scids,
}
use ln_gossip_sim.Bolt.ReplyChannelRange.ShortIds.{short_channel_ids-from_scids}
use ln_gossip_sim.GossipSim.Tcp.{Tcp}
use ln_gossip_sim.GossipSim.Conn.{NoiseWriter, send}
use ln_gossip_sim.Noise.NoiseError.{NoiseError}
use ln_gossip_sim.GossipSim.Daemon.PeerMessage.{
  no_channels, succeeded, reply, handle_decoded, handle_peer_message,
}

-- The answers that BOLT 1 and BOLT 7 ask for, of a node that knows no channel.
pub data Answers (b : Bitcoin) : Message b → Message b → Type 0 where
  with_pong :
      (p : Ping) (r : Pong)
      → r.ignored ≡ replicate (min p.num_pong_bytes 65531) 0
      → Answers b (ping p) (pong r)
  with_range :
      (q : QueryChannelRange) (r : ReplyChannelRange)
      → r.chain_hash ≡ q.chain_hash
      → r.first_blocknum ≡ q.first_blocknum
      → r.number_of_blocks ≡ q.number_of_blocks
      → r.sync_complete ≡ 1
      → short_channel_ids r ≡ ok []
      → Answers b (query_channel_range q) (reply_channel_range r)

-- Nothing is answered.
abbrev pub IsQuiet : {b : Bitcoin} → Outcome BoltError (Message b) → Type 0
IsQuiet (ok (ping p)) = ⊥
IsQuiet (ok (query_channel_range q)) = ⊥
IsQuiet (ok m) = Unit
IsQuiet (err e) = Unit
IsQuiet panic = ⊥
IsQuiet stuck = ⊥

module _ (b : Bitcoin) (bl : BitcoinLaws b) where
  -- The encoding of no short channel IDs.
  no_scids : IsVec (u8.write 0 ++ [])
  no_scids = (
    omega (arith, length-append (u8.write 0) [], length-uint 1 0),
    All-append (λ v. v < 256) (u8.write 0) [] ((uint-IsLawful 1).write-AllBytes 0 (omega arith)) tt,
  )

  decoded :
      (m : Message b) (bytes : Bytes)
      → IsValid b m
      → Message.encode {E = BoltError} b m ≡ ok bytes
      → Message.decode b bytes ≡ ok m
  decoded m bytes v e = ap (λ r. r >>= Message.decode b) (sym e) ∙ decode-encode b bl m v

  module _ (t : Tcp) (c : Crypto) where
    -- What the handling of a message did to the writer, and its outcome.
    pub data Handled (raw : Bytes) (w : NoiseWriter t)
        : Outcome NoiseError Bool × NoiseWriter t → Type 0 where
      ignored : IsQuiet (Message.decode b raw) → Handled raw w (ok true, w)
      answered :
          (m r : Message b) (bytes : Bytes)
          → Message.decode b raw ≡ ok m
          → Answers b m r
          → Message.decode b bytes ≡ ok r
          → Handled raw w (succeeded (send t c bytes w))

    reply-Handled :
        (raw : Bytes) (w : NoiseWriter t) (m r : Message b) (bytes : Bytes)
        → Message.decode b raw ≡ ok m
        → Answers b m r
        → IsValid b r
        → Message.encode {E = NoiseError} b r ≡ ok bytes
        → Message.encode {E = BoltError} b r ≡ ok bytes
        → Handled raw w (reply t c b r w)
    unfolding reply
    reply-Handled raw w m r bytes e a v sent read =
        rw (reply, sent) (answered m r bytes e a (decoded r bytes v read))

    pong-Handled :
        (raw : Bytes) (w : NoiseWriter t) (p : Ping)
        → Message.decode b raw ≡ ok (ping p)
        → Handled raw w (reply t c b (pong (respond_to p)) w)
    unfolding respond_to Pong.new
    pong-Handled raw w p e =
        let size = min p.num_pong_bytes 65531 in
        reply-Handled raw w (ping p) (pong (respond_to p)) _ e (with_pong p (respond_to p) refl)
          (record {
            ignored = (
              omega (arith, length-replicate {A = ℕ} size 0),
              All-replicate (λ v. v < 256) size 0 (omega arith),
            );
          })
          (encode-pong b (respond_to p)) (encode-pong b (respond_to p))

    range-Handled :
        (raw : Bytes) (w : NoiseWriter t) (q : QueryChannelRange)
        → IsValid b (query_channel_range q)
        → Message.decode b raw ≡ ok (query_channel_range q)
        → Handled raw w (reply t c b (reply_channel_range (no_channels q)) w)
    unfolding no_channels from_scids
    range-Handled raw w q v e =
        let r = no_channels q in
        reply-Handled raw w (query_channel_range q) (reply_channel_range r) _ e
          (with_range q r refl refl refl refl (
            short_channel_ids-from_scids q.chain_hash q.first_blocknum q.number_of_blocks true []
              tt))
          (record {
            chain_hash = v.chain_hash;
            first_blocknum = v.first_blocknum;
            number_of_blocks = v.number_of_blocks;
            sync_complete = omega arith;
            encoded_short_ids = unfold write_scids in no_scids;
            timestamps = tt;
            checksums = tt;
          })
          (encode-reply_channel_range b r) (encode-reply_channel_range b r)

    accepted-Handled :
        (raw : Bytes) (w : NoiseWriter t) (m : Message b)
        → Message.decode b raw ≡ ok m
        → IsValid b m
        → Handled raw w (handle_decoded t c b raw (ok m) w)
    unfolding handle_decoded
    accepted-Handled raw w (ping p) e v = pong-Handled raw w p e
    accepted-Handled raw w (query_channel_range q) e v = range-Handled raw w q v e
    accepted-Handled raw w m e v = ignored (rw e tt)

    refused-Handled :
        (raw : Bytes) (w : NoiseWriter t) (x : BoltError)
        → Message.decode b raw ≡ err x
        → 2 ≤ length raw
        → Handled raw w (handle_decoded t c b raw (err x) w)
    unfolding handle_decoded
    refused-Handled [] w x e le = absurd (omega arith)
    refused-Handled (v ∷ []) w x e le = absurd (omega arith)
    refused-Handled (v₁ ∷ v₂ ∷ rest) w x e le = ignored (rw e tt)

    decoded-Handled :
        (raw : Bytes) (w : NoiseWriter t) (found : Outcome BoltError (Message b))
        → Message.decode b raw ≡ found
        → Ensures (IsValid b) found
        → 2 ≤ length raw
        → Handled raw w (handle_decoded t c b raw found w)
    decoded-Handled raw w _ e (holds {a = m} v) le = accepted-Handled raw w m e v
    decoded-Handled raw w _ e (rejected {e = x}) le = refused-Handled raw w x e le

    -- Under the laws of keys, signatures and transaction ids, for the bytes of a message with a type: either
    -- the message asks for no answer, and the handler sends nothing and keeps the connection; or it is
    -- a ping or a query for channels, and the handler sends bytes that decode to the answer that is
    -- due: a pong of as many zero bytes as were asked for, at most 65531, or a complete reply without channels over the same
    -- chain and blocks. Then the connection is kept where the send succeeds.
    pub handle_peer_message-Handled :
        (raw : Bytes) (w : NoiseWriter t)
        → AllBytes raw
        → 2 ≤ length raw
        → Handled raw w (handle_peer_message t c b raw w)
    unfolding handle_peer_message
    handle_peer_message-Handled raw w h le =
        decoded-Handled raw w (Message.decode b raw) refl (decode-Ensures b bl raw h) le
