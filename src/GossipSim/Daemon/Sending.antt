-- ===== src/GossipSim/Daemon/Sending.antt =====
-- What `sendchannelannouncement2` of ln-gossip-sim/src/bin/simd.rs sends to a peer.
use ln_gossip_sim.Base.{
  ℕ, ◌≡◌, ◌≢◌, refl, sym, ◌∙◌, ap, true, Bool-cases, ◌⊎◌, inl, inr, some, List, [], ◌∷◌, Outcome,
  ok, Bytes,
}
use mathlib.Core.Path.{subst}
use ln_gossip_sim.Base.Runs.{
  found-IfOk, expected-IfOk, IfOk, value, failed, panicked, endless, IfOk-refl, IfOk-continue,
  IfOk-weaken,
}
use ln_gossip_sim.Base.Text.{Text}
use ln_gossip_sim.Bitcoin.{Bitcoin, KeyLaws, SignsCorrectly}
use ln_gossip_sim.Crypto.{Crypto}
use ln_gossip_sim.Bolt.Message
use ln_gossip_sim.Bolt.Message.{Message, channel_announcement}
use ln_gossip_sim.Bolt.ChannelAnnouncement
use ln_gossip_sim.Bolt.ChannelAnnouncement.{ChannelAnnouncement}
use ln_gossip_sim.Bolt.ChannelAnnouncement.Signing.{AllVerify, new_signed-AllVerify}
use ln_gossip_sim.GossipSim.Tcp.{Tcp}
use ln_gossip_sim.GossipSim.Host.{Host}
use ln_gossip_sim.GossipSim.Keys.{seed, seed_2, node_secret, node_secret_2}
use ln_gossip_sim.GossipSim.Bitcoind.{FundingKeys, mine_to_funding, regtest_chain_hash}
use ln_gossip_sim.GossipSim.Bitcoind.Funding.{Funded, mine_to_funding-Funded}
use ln_gossip_sim.GossipSim.Daemon.{Answer, Daemon, funding_failed}
use ln_gossip_sim.GossipSim.Daemon.Table.{get}
use ln_gossip_sim.GossipSim.Daemon.Commands.{parse_pubkey, joined, blocking}
use ln_gossip_sim.GossipSim.Daemon.Announce.{
  ordered_secrets, announcement, fund, cmd_send_channel_announcement_2,
}
use ln_gossip_sim.GossipSim.Daemon.Writing.{Sent, writer_of-IfOk, send_message-IfOk}

module _ (b : Bitcoin) (t : Tcp) (h : Host b t) (c : Crypto)
    (ecdh : b.SecretKey → b.PublicKey → Bytes) where
  joined-IfOk :
      {E A : Type 0} {P : A → h.State → Type 0} (failed_as : E → Answer b) (d : Daemon b t h)
      {m : Outcome E A × h.State}
      → IfOk P m
      → IfOk
          (λ a d'. P a d'.host × (d'.writers ≡ d.writers) × (d'.table ≡ d.table))
          (joined failed_as m.0, record d { host = m.1 })
  joined-IfOk failed_as d (value p) = value (p, refl, refl)
  joined-IfOk failed_as d failed = failed
  joined-IfOk failed_as d panicked = failed
  joined-IfOk failed_as d endless = endless

  -- What `fund` leaves of the daemon, and where the funding output is.
  fund-IfOk :
      (d : Daemon b t h)
      → IfOk
          (λ (msg, funding, scid) d'.
            Funded b t h d.bitcoind 6 funding scid d'.host
            × (d'.writers ≡ d.writers)
            × (d'.table ≡ d.table))
          (fund b t h c ecdh d)
  unfolding fund blocking
  fund-IfOk d = joined-IfOk funding_failed d (
      IfOk-weaken (IfOk-refl (mine_to_funding b t h d.bitcoind 6 d.host))
        λ (msg, funding, scid) s e.
          mine_to_funding-Funded b t h d.bitcoind 6 d.host s msg funding scid e)

  module _ (kl : KeyLaws b)
      (two_identities : (sk_a sk_b : b.SecretKey)
        → b.secret_key_from_slice seed ≡ some sk_a
        → b.secret_key_from_slice seed_2 ≡ some sk_b
        → b.from_secret_key sk_a ≢ b.from_secret_key sk_b) where
    -- The two secrets of the node, in either order.
    abbrev pub IsOurs : b.SecretKey → b.SecretKey → Type 0
    IsOurs sk_1 sk_2 =
        ((b.secret_key_from_slice seed ≡ some sk_1) × (b.secret_key_from_slice seed_2 ≡ some sk_2))
        ⊎ ((b.secret_key_from_slice seed_2 ≡ some sk_1)
            × (b.secret_key_from_slice seed ≡ some sk_2))

    ordered_secrets-IfOk :
        (d : Daemon b t h)
        → IfOk
            (λ (sk_1, sk_2) d'.
              (d ≡ d')
              × IsOurs sk_1 sk_2
              × (b.lt_key (b.from_secret_key sk_1) (b.from_secret_key sk_2) ≡ true))
            (ordered_secrets b t h c ecdh d)
    unfolding ordered_secrets node_secret node_secret_2
    ordered_secrets-IfOk d =
        IfOk-continue (expected-IfOk (b.secret_key_from_slice seed) d) λ sk_a d1 (found_a, same1).
          IfOk-continue (expected-IfOk (b.secret_key_from_slice seed_2) d1)
            λ sk_b d2 (found_b, same2).
              elim (Bool-cases (b.lt_key (b.from_secret_key sk_a) (b.from_secret_key sk_b))) [
                | inl e ↦ rw e (value (same1 ∙ same2, inl (found_a, found_b), e))
                | inr e ↦ rw e (
                    value (
                      same1 ∙ same2,
                      inr (found_b, found_a),
                      kl.lt_key-total _ _ (two_identities sk_a sk_b found_a found_b) e,
                    ))
              ]

    -- A channel was funded and announced to the connected peer that the command names.
    pub record Announced (parts : List Text) (d d' : Daemon b t h) : Type 0 where
      pub name : Text
      pub key : Text
      pub words : parts ≡ name ∷ key ∷ []
      pub peer : b.PublicKey
      pub peer_is : parse_pubkey b t h c ecdh key ≡ some peer
      pub funding : FundingKeys b t h
      pub scid : ℕ
      pub funded_at : h.State
      pub funded : Funded b t h d.bitcoind 6 funding scid funded_at
      pub ann : ChannelAnnouncement b
      pub scid_is : ann.short_channel_id ≡ scid
      pub keys_are :
          (ann.bitcoin_key_1 ≡ b.from_secret_key funding.sk1)
          × (ann.bitcoin_key_2 ≡ b.from_secret_key funding.sk2)
      pub rest_is : (ann.features ≡ []) × (ann.chain_hash ≡ regtest_chain_hash)
      pub node_sk_1 : b.SecretKey
      pub node_sk_2 : b.SecretKey
      pub are_ours : IsOurs node_sk_1 node_sk_2
      pub node_ids_are :
          (ann.node_id_1 ≡ b.from_secret_key node_sk_1)
          × (ann.node_id_2 ≡ b.from_secret_key node_sk_2)
      pub ordered : b.lt_key ann.node_id_1 ann.node_id_2 ≡ true
      pub verifies : AllVerify b ann
      pub bytes : Bytes
      pub encodes : Message.encode {E = Answer b} b (channel_announcement ann) ≡ ok bytes
      pub sent : Sent b t h c ecdh peer bytes d d'

    -- Where signatures verify under the key of their secret, keys are totally ordered, and the two secrets of
    -- the node have different public keys: a `sendchannelannouncement2` that answers with success has
    -- sent one message over the writer that the table holds for the peer that the command names. It is an
    -- announcement of the funding output that bitcoind reported, for the two keys of the 2-of-2 from
    -- which bitcoind derived the address of that output, with the IDs of the node's two secrets in
    -- their order and with four signatures that verify.
    pub cmd_send_channel_announcement_2-IfOk :
        SignsCorrectly b
        → (parts : List Text) (d : Daemon b t h)
        → IfOk (λ a d'. Announced parts d d') (cmd_send_channel_announcement_2 b t h c ecdh parts d)
    unfolding cmd_send_channel_announcement_2 announcement
    cmd_send_channel_announcement_2-IfOk signs (name ∷ key ∷ []) d =
        IfOk-continue (found-IfOk (parse_pubkey b t h c ecdh key) _ d) λ k d1 (named, same1).
          IfOk-continue (writer_of-IfOk b t h c ecdh k d1) λ n d2 (peer, found, same_n, same2).
            IfOk-continue (fund-IfOk d2) λ (msg, funding, scid) d3 (funded, writers, table).
              IfOk-continue (ordered_secrets-IfOk d3) λ (sk_1, sk_2) d4 (same4, ours, lt).
                let whole : d ≡ d2 = same1 ∙ same2 in
                let ann = announcement b scid sk_1 sk_2 funding.sk1 funding.sk2 in
                IfOk-continue
                  (send_message-IfOk b t h c ecdh k d d4 peer n (channel_announcement ann)
                    (ap (λ x. get b k x.table.peers) same1 ∙ found) same_n
                    (ap (λ x. x.writers) (sym same4) ∙ writers ∙ ap (λ x. x.writers) (sym whole)))
                  λ _ d5 (bytes, encodes, sent). value (record {
                    name = name;
                    key = key;
                    words = refl;
                    peer = k;
                    peer_is = named;
                    funding = funding;
                    scid = scid;
                    funded_at = d3.host;
                    funded =
                        subst (λ client. Funded b t h client 6 funding scid d3.host)
                          (ap (λ x. x.bitcoind) (sym whole)) funded;
                    ann = ann;
                    scid_is = unfold ChannelAnnouncement.new_signed in refl;
                    keys_are = unfold ChannelAnnouncement.new_signed in (refl, refl);
                    rest_is = unfold ChannelAnnouncement.new_signed in (refl, refl);
                    node_sk_1 = sk_1;
                    node_sk_2 = sk_2;
                    are_ours = ours;
                    node_ids_are = unfold ChannelAnnouncement.new_signed in (refl, refl);
                    ordered = unfold ChannelAnnouncement.new_signed in lt;
                    verifies =
                        new_signed-AllVerify b signs [] regtest_chain_hash scid sk_1 sk_2
                          funding.sk1 funding.sk2;
                    bytes = bytes;
                    encodes = encodes;
                    sent = sent;
                  })
    cmd_send_channel_announcement_2-IfOk signs _ d = failed
