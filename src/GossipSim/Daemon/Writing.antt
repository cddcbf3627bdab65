-- ===== src/GossipSim/Daemon/Writing.antt =====
-- How the commands of ln-gossip-sim/src/bin/simd.rs write to the connection of a peer.
use ln_gossip_sim.Base.{
  ℕ, ◌≡◌, refl, sym, ◌∙◌, ap, inl, inr, some, get_elem?, Outcome, ok, err, panic, stuck, map_err,
  Bytes,
}
use ln_gossip_sim.Base.Runs.{
  found-IfOk, call-IfOk, IfOk, value, failed, panicked, endless, IfOk-continue, IfOk-weaken,
}
use ln_gossip_sim.Base.Options.{Option-cases}
use ln_gossip_sim.Bitcoin.{Bitcoin}
use ln_gossip_sim.Crypto.{Crypto}
use ln_gossip_sim.Bolt.Message
use ln_gossip_sim.Bolt.Message.{Message, channel_announcement}
use ln_gossip_sim.Noise.NoiseError.{NoiseError}
use ln_gossip_sim.GossipSim.Tcp.{Tcp}
use ln_gossip_sim.GossipSim.Host.{Host}
use ln_gossip_sim.GossipSim.Conn.{NoiseWriter, send}
use ln_gossip_sim.GossipSim.Daemon.{Answer, Peer, Daemon, send_to, set_at, send_failed}
use ln_gossip_sim.GossipSim.Daemon.Table.{get}
use ln_gossip_sim.GossipSim.Daemon.Commands.{writer_of}
use ln_gossip_sim.GossipSim.Daemon.Announce.{send_message}

module _ (b : Bitcoin) (t : Tcp) (h : Host b t) (c : Crypto)
    (ecdh : b.SecretKey → b.PublicKey → Bytes) where
  -- The writer of the peer, which the table holds, has taken the bytes.
  pub record Sent (k : b.PublicKey) (bytes : Bytes) (d d' : Daemon b t h) : Type 0 where
    pub peer : Peer
    pub is_connected : get b k d.table.peers ≡ some peer
    pub before : NoiseWriter t
    pub after : NoiseWriter t
    pub writer_is : get_elem? d.writers peer.writer ≡ some before
    pub sent : send t c bytes before ≡ (ok tt, after)
    pub stored : d'.writers ≡ set_at peer.writer after d.writers

  pub writer_of-IfOk :
      (k : b.PublicKey) (d : Daemon b t h)
      → IfOk
          (λ n d'.
            (peer : Peer) × (get b k d.table.peers ≡ some peer) × (peer.writer ≡ n) × (d ≡ d'))
          (writer_of b t h c ecdh k d)
  unfolding writer_of
  writer_of-IfOk k d =
      IfOk-continue (found-IfOk (get b k d.table.peers) _ d)
        λ peer d1 (found, same). value (peer, found, refl, same)

  stored-IfOk :
      (n : ℕ) (d : Daemon b t h) (m : Outcome NoiseError (Unit {0}) × NoiseWriter t)
      → IfOk {E = Answer b}
          (λ _ d'. (w' : NoiseWriter t) × (m ≡ (ok tt, w')) × (d'.writers ≡ set_at n w' d.writers))
          (map_err send_failed m.0, record d { writers = set_at n m.1 d.writers })
  stored-IfOk n d (ok tt, w') = value (w', refl, refl)
  stored-IfOk n d (err e, w') = failed
  stored-IfOk n d (panic, w') = panicked
  stored-IfOk n d (stuck, w') = endless

  pub send_to-IfOk :
      (n : ℕ) (bytes : Bytes) (d : Daemon b t h)
      → IfOk
          (λ _ d'.
            (w : NoiseWriter t) × (w' : NoiseWriter t) × (get_elem? d.writers n ≡ some w)
            × (send t c bytes w ≡ (ok tt, w'))
            × (d'.writers ≡ set_at n w' d.writers))
          (send_to b t h c n bytes d)
  unfolding send_to
  send_to-IfOk n bytes d = elim (Option-cases (get_elem? d.writers n)) [
    | inl e ↦ rw (send_to, e) endless
    | inr (w, e) ↦
        rw (send_to, e)
          (IfOk-weaken (stored-IfOk n d (send t c bytes w))
            λ _ d' (w', sent, stored). (w, w', refl, sent, stored))
  ]

  -- What was sent over the writer with the number that the table has, with the writers as they were.
  pub over_writer-Sent :
      (k : b.PublicKey) (bytes : Bytes) (d d1 d' : Daemon b t h) (peer : Peer) (n : ℕ)
      (w w' : NoiseWriter t)
      → get b k d.table.peers ≡ some peer
      → peer.writer ≡ n
      → d.writers ≡ d1.writers
      → get_elem? d1.writers n ≡ some w
      → send t c bytes w ≡ (ok tt, w')
      → d'.writers ≡ set_at n w' d1.writers
      → Sent k bytes d d'
  over_writer-Sent k bytes d d1 d' peer n w w' found same_n same_w at sent stored = record {
    peer = peer;
    is_connected = found;
    before = w;
    after = w';
    writer_is = ap (get_elem? d.writers) same_n ∙ ap (λ ws. get_elem? ws n) same_w ∙ at;
    sent = sent;
    stored = stored ∙ ap (set_at n w') (sym same_w) ∙ ap (λ i. set_at i w' d.writers) (sym same_n);
  }

  -- A message is sent over a writer that was found earlier, with the writers as they were then.
  pub send_message-IfOk :
      (k : b.PublicKey) (d d1 : Daemon b t h) (peer : Peer) (n : ℕ) (m : Message b)
      → get b k d.table.peers ≡ some peer
      → peer.writer ≡ n
      → d1.writers ≡ d.writers
      → IfOk
          (λ _ d'.
            (bytes : Bytes) × (Message.encode {E = Answer b} b m ≡ ok bytes) × Sent k bytes d d')
          (send_message b t h c ecdh n m d1)
  unfolding send_message
  send_message-IfOk k d d1 peer n m found same_n same_w =
      IfOk-continue (call-IfOk (Message.encode b m) d1) λ bytes d2 (e, same_d).
        IfOk-weaken (send_to-IfOk n bytes d2) λ _ d' (w, w', at, sent, stored).
          let earlier : d.writers ≡ d2.writers = sym same_w ∙ ap (λ x. x.writers) same_d in
          (
            bytes,
            e,
            over_writer-Sent k bytes d d2 d' peer n w w' found same_n earlier at sent stored,
          )
