-- ===== src/GossipSim/Daemon/Refinement/Commands.antt =====
-- Each command of ln-gossip-sim/src/bin/simd.rs moves the table of peers by its steps.
use ln_gossip_sim.Base.{
  ℕ, ◌≡◌, refl, Bool, true, false, Bool-cases, List, [], ◌∷◌, length, inl, inr, get_elem?, Outcome,
  ok, map_err, Bytes, if◌then◌else◌,
}
use ln_gossip_sim.Base.State.{Method, ◌>>◌, return}
use ln_gossip_sim.Base.Text.{Text, chars, same, split_whitespace}
use ln_gossip_sim.Base.Options.{Option-cases}
use ln_gossip_sim.Bitcoin.{Bitcoin}
use ln_gossip_sim.Crypto.{Crypto}
use ln_gossip_sim.GossipSim.Tcp.{Tcp}
use ln_gossip_sim.GossipSim.Host.{Host}
use ln_gossip_sim.GossipSim.Conn.{NoiseWriter, NoiseReader}
use ln_gossip_sim.GossipSim.Keys.{node_secret, node_secret_2}
use ln_gossip_sim.Bolt.Message
use ln_gossip_sim.Bolt.Message.{Message}
use ln_gossip_sim.Noise.Cipher.{first_two}
use ln_gossip_sim.GossipSim.Conn.Connect.{connect}
use ln_gossip_sim.GossipSim.Daemon.{
  Answer, Daemon, send_to, connection_failed, mined, funding_failed,
}
use ln_gossip_sim.GossipSim.Daemon.Table.{get, disconnect, spawn}
use ln_gossip_sim.GossipSim.Daemon.Commands.{
  to_wire, parse_pubkey, writer_of, spawn_reader, register, drop_peer, cmd_connect, cmd_disconnect,
  cmd_send_message, cmd_peers, cmd_info, blocking, cmd_mine,
}
use ln_gossip_sim.GossipSim.Daemon.Announce.{
  ordered_secrets, send_message, fund, cmd_send_channel_announcement,
  cmd_send_channel_announcement_2, cmd_send_channel_update, cmd_send_node_announcement,
}
use ln_gossip_sim.GossipSim.Daemon.Dispatch.{shutdown, run, handle_command}
use ln_gossip_sim.GossipSim.Daemon.Steps.{
  spawned, inserted, disconnected, stay, onward, Trace-trans, Reachable,
}
use ln_gossip_sim.GossipSim.Bitcoind
use ln_gossip_sim.GossipSim.Scid.{parse_scid}
use ln_gossip_sim.Base.Decimal.{parse_u64}
use ln_gossip_sim.GossipSim.Daemon.Refinement.{
  Walks, walks, Walks-Trace, Walks-stop, Walks-continue, call-Walks, found-Walks, on_host-Walks,
}

module _ (b : Bitcoin) (t : Tcp) (h : Host b t) (c : Crypto)
    (ecdh : b.SecretKey → b.PublicKey → Bytes) where
  send_to-Walks : (n : ℕ) (bytes : Bytes) (d : Daemon b t h) → Walks d (send_to b t h c n bytes d)
  unfolding send_to
  send_to-Walks n bytes d = elim (Option-cases (get_elem? d.writers n)) [
    | inl e ↦ rw (send_to, e) (walks stay (λ e. e))
    | inr (w, e) ↦ rw (send_to, e) (walks stay (λ e. e))
  ]

  blocking-Walks :
      {E A : Type 0} (failed : E → Answer b) (request : h.Client → h.State → Outcome E A × h.State)
      (d : Daemon b t h)
      → Walks d (blocking b t h c ecdh failed request d)
  unfolding blocking
  blocking-Walks failed request d = walks stay (λ e. e)

  writer_of-Walks : (k : b.PublicKey) (d : Daemon b t h) → Walks d (writer_of b t h c ecdh k d)
  unfolding writer_of
  writer_of-Walks k d =
      Walks-continue (found-Walks (get b k d.table.peers) _ d)
        λ peer d1. call-Walks (ok peer.writer) d1

  send_message-Walks :
      (n : ℕ) (m : Message b) (d : Daemon b t h) → Walks d (send_message b t h c ecdh n m d)
  unfolding send_message
  send_message-Walks n m d =
      Walks-continue (call-Walks (Message.encode b m) d) λ bytes d1. send_to-Walks n bytes d1

  ordered_secrets-Walks : (d : Daemon b t h) → Walks d (ordered_secrets b t h c ecdh d)
  unfolding ordered_secrets
  ordered_secrets-Walks d = Walks-continue (call-Walks (node_secret b) d) λ sk_a d1.
      Walks-continue (call-Walks (node_secret_2 b) d1) λ sk_b d2.
        elim (Bool-cases (b.lt_key (b.from_secret_key sk_a) (b.from_secret_key sk_b))) [
          | inl e ↦ rw e (call-Walks (ok (sk_a, sk_b)) d2)
          | inr e ↦ rw e (call-Walks (ok (sk_b, sk_a)) d2)
        ]

  -- The task and its entry: two steps.
  register-Walks :
      (k : b.PublicKey) (writer : NoiseWriter t) (reader : NoiseReader t) (d : Daemon b t h)
      → Walks d (register b t h c ecdh k writer reader d)
  unfolding register spawn_reader spawn
  register-Walks k writer reader d =
      walks
        (onward (spawned k d.table)
          (onward (inserted k (length d.table.tasks) 0 (spawn b k d.table).1 refl) stay))
        (λ e. e)

  drop_peer-Walks : (k : b.PublicKey) (d : Daemon b t h) → Walks d (drop_peer b t h c ecdh k d)
  unfolding drop_peer
  drop_peer-Walks k d = elim (Option-cases (disconnect b k d.table)) [
    | inl e ↦ rw (drop_peer, e) (walks stay (λ e. e))
    | inr (s, e) ↦ rw (drop_peer, e) (walks (onward (disconnected k d.table s e) stay) (λ q. q))
  ]

  cmd_connect-Walks :
      (parts : List Text) (d : Daemon b t h) → Walks d (cmd_connect b t h c ecdh parts d)
  unfolding cmd_connect
  cmd_connect-Walks (name ∷ key ∷ place ∷ []) d =
      Walks-continue (found-Walks (parse_pubkey b t h c ecdh key) _ d) λ pubkey d1.
        Walks-continue (found-Walks (h.parse_addr place) _ d1) λ addr d2.
          Walks-continue (call-Walks (node_secret b) d2) λ secret d3.
            Walks-continue (on_host-Walks h.random_key d3) λ ephemeral d4.
              Walks-continue (on_host-Walks (h.dial addr) d4) λ stream d5.
                Walks-continue
                  (call-Walks
                    (map_err connection_failed (connect t c b ecdh stream pubkey secret ephemeral))
                    d5)
                  λ (writer, reader, _) d6. register-Walks pubkey writer reader d6
  cmd_connect-Walks _ d = walks stay (λ e. e)

  cmd_disconnect-Walks :
      (parts : List Text) (d : Daemon b t h) → Walks d (cmd_disconnect b t h c ecdh parts d)
  unfolding cmd_disconnect
  cmd_disconnect-Walks (name ∷ key ∷ []) d =
      Walks-continue (found-Walks (parse_pubkey b t h c ecdh key) _ d)
        λ pubkey d1. drop_peer-Walks pubkey d1
  cmd_disconnect-Walks _ d = walks stay (λ e. e)

  cmd_send_message-Walks :
      (parts : List Text) (d : Daemon b t h) → Walks d (cmd_send_message b t h c ecdh parts d)
  unfolding cmd_send_message
  cmd_send_message-Walks (name ∷ key ∷ message ∷ []) d =
      Walks-continue (found-Walks (parse_pubkey b t h c ecdh key) _ d) λ pubkey d1.
        Walks-continue (found-Walks (h.hex_decode message) _ d1) λ bytes d2.
          Walks-continue (call-Walks (to_wire b (Message.decode b bytes)) d2) λ wire d3.
            Walks-continue (writer_of-Walks pubkey d3) λ writer d4.
              Walks-continue (send_to-Walks writer wire d4) λ _ d5.
                Walks-continue (call-Walks (first_two wire) d5) λ msg_type d6. walks stay (λ e. e)
  cmd_send_message-Walks _ d = walks stay (λ e. e)

  cmd_peers-Walks : (d : Daemon b t h) → Walks d (cmd_peers b t h c ecdh d)
  unfolding cmd_peers
  cmd_peers-Walks d = walks stay (λ e. e)

  cmd_info-Walks : (d : Daemon b t h) → Walks d (cmd_info b t h c ecdh d)
  unfolding cmd_info
  cmd_info-Walks d = walks stay (λ e. e)

  cmd_mine-Walks : (parts : List Text) (d : Daemon b t h) → Walks d (cmd_mine b t h c ecdh parts d)
  unfolding cmd_mine
  cmd_mine-Walks (name ∷ count ∷ rest) d =
      Walks-continue (found-Walks (parse_u64 count) _ d) λ blocks d1.
        Walks-continue
          (blocking-Walks (λ e. mined (Bitcoind.error_text e))
            (λ client. Bitcoind.mine b t h client blocks) d1)
          λ text d2. call-Walks (ok (mined text)) d2
  cmd_mine-Walks _ d = walks stay (λ e. e)

  fund-Walks : (d : Daemon b t h) → Walks d (fund b t h c ecdh d)
  unfolding fund
  fund-Walks d = blocking-Walks funding_failed (λ client. Bitcoind.mine_to_funding b t h client 6) d

  -- The last two calls of the announcing commands.
  sent-Walks :
      (n : ℕ) (m : Message b) (a : Answer b) (d : Daemon b t h)
      → Walks d ((send_message b t h c ecdh n m >> return a) d)
  sent-Walks n m a d = Walks-continue (send_message-Walks n m d) λ _ d1. call-Walks (ok a) d1

  cmd_send_channel_announcement-Walks :
      (parts : List Text) (d : Daemon b t h)
      → Walks d (cmd_send_channel_announcement b t h c ecdh parts d)
  unfolding cmd_send_channel_announcement
  cmd_send_channel_announcement-Walks (name ∷ key ∷ []) d =
      Walks-continue (found-Walks (parse_pubkey b t h c ecdh key) _ d) λ k d1.
        Walks-continue (writer_of-Walks k d1) λ writer d2.
          Walks-continue (fund-Walks d2) λ (_, funding, scid) d3.
            Walks-continue (call-Walks (node_secret b) d3) λ our_sk d4. sent-Walks writer _ _ d4
  cmd_send_channel_announcement-Walks _ d = walks stay (λ e. e)

  cmd_send_channel_announcement_2-Walks :
      (parts : List Text) (d : Daemon b t h)
      → Walks d (cmd_send_channel_announcement_2 b t h c ecdh parts d)
  unfolding cmd_send_channel_announcement_2
  cmd_send_channel_announcement_2-Walks (name ∷ key ∷ []) d =
      Walks-continue (found-Walks (parse_pubkey b t h c ecdh key) _ d) λ k d1.
        Walks-continue (writer_of-Walks k d1) λ writer d2.
          Walks-continue (fund-Walks d2) λ (_, funding, scid) d3.
            Walks-continue (ordered_secrets-Walks d3) λ (sk_1, sk_2) d4. sent-Walks writer _ _ d4
  cmd_send_channel_announcement_2-Walks _ d = walks stay (λ e. e)

  cmd_send_channel_update-Walks :
      (parts : List Text) (d : Daemon b t h)
      → Walks d (cmd_send_channel_update b t h c ecdh parts d)
  unfolding cmd_send_channel_update
  cmd_send_channel_update-Walks (name ∷ key ∷ scid_text ∷ []) d =
      Walks-continue (found-Walks (parse_pubkey b t h c ecdh key) _ d) λ k d1.
        Walks-continue (found-Walks (parse_scid scid_text) _ d1) λ scid d2.
          Walks-continue (writer_of-Walks k d2) λ writer d3.
            Walks-continue (ordered_secrets-Walks d3) λ (sk_1, sk_2) d4. sent-Walks writer _ _ d4
  cmd_send_channel_update-Walks _ d = walks stay (λ e. e)

  cmd_send_node_announcement-Walks :
      (parts : List Text) (d : Daemon b t h)
      → Walks d (cmd_send_node_announcement b t h c ecdh parts d)
  unfolding cmd_send_node_announcement
  cmd_send_node_announcement-Walks (name ∷ key ∷ []) d =
      Walks-continue (found-Walks (parse_pubkey b t h c ecdh key) _ d) λ k d1.
        Walks-continue (writer_of-Walks k d1) λ writer d2.
          Walks-continue (ordered_secrets-Walks d2) λ (sk_1, sk_2) d3. sent-Walks writer _ _ d3
  cmd_send_node_announcement-Walks _ d = walks stay (λ e. e)

  Walks-if :
      {E A : Type 0} (test : Bool) {m m' : Method (Daemon b t h) E A}
      → ((d : Daemon b t h) → Walks d (m d))
      → ((d : Daemon b t h) → Walks d (m' d))
      → (d : Daemon b t h) → Walks d ((if test then m else m') d)
  Walks-if true p q d = p d
  Walks-if false p q d = q d

  run-Walks : (parts : List Text) (d : Daemon b t h) → Walks d (run b t h c ecdh parts d)
  unfolding run shutdown
  run-Walks [] d = walks stay (λ e. e)
  run-Walks (name ∷ rest) d =
      let parts = name ∷ rest in
      (Walks-if (same name (chars "connect")) (cmd_connect-Walks parts) (
          Walks-if (same name (chars "disconnect")) (cmd_disconnect-Walks parts) (
            Walks-if (same name (chars "sendchannelannouncement"))
              (cmd_send_channel_announcement-Walks parts)
              (Walks-if (same name (chars "sendchannelannouncement2"))
                (cmd_send_channel_announcement_2-Walks parts)
                (Walks-if (same name (chars "sendchannelupdate"))
                  (cmd_send_channel_update-Walks parts)
                  (Walks-if (same name (chars "sendnodeannouncement"))
                    (cmd_send_node_announcement-Walks parts)
                    (Walks-if (same name (chars "sendmessage")) (cmd_send_message-Walks parts) (
                      Walks-if (same name (chars "peers")) (cmd_peers-Walks) (
                        Walks-if (same name (chars "info")) (cmd_info-Walks) (
                          Walks-if (same name (chars "mine")) (cmd_mine-Walks parts) (
                            Walks-if (same name (chars "stop")) (λ d. walks stay (λ e. refl))
                              (λ d. walks stay (λ e. e)))))))))))))
        d

  -- Whatever line the control socket brings, and in whatever state the daemon is: the command moves the table
  -- of peers by the steps of the table only, so that it keeps every state reachable.
  pub handle_command-Reachable :
      (line : Text) (d : Daemon b t h)
      → Reachable b d.table
      → Reachable b (handle_command b t h c ecdh line d).1.table
  unfolding handle_command
  handle_command-Reachable line d reached =
      Trace-trans b reached (Walks-Trace (run-Walks (split_whitespace line) d))

  -- A stop that was asked for is not forgotten.
  pub handle_command-stop :
      (line : Text) (d : Daemon b t h)
      → d.stop ≡ true
      → (handle_command b t h c ecdh line d).1.stop ≡ true
  unfolding handle_command
  handle_command-stop line d = Walks-stop (run-Walks (split_whitespace line) d)
