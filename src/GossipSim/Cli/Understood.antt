-- ===== src/GossipSim/Cli/Understood.antt =====
-- The daemon of ln-gossip-sim/src/bin/simd.rs understands the lines of ln-gossip-sim/src/bin/cli.rs.
use ln_gossip_sim.Base.{◌<◌, ◌^◌, ◌≡◌, refl, ap, ◌∙◌, Bytes, [], ◌∷◌, ◌++◌}
use ln_gossip_sim.Base.State.{return, ◌>>◌}
use ln_gossip_sim.Base.Text.{Text, chars, same, split_whitespace, IsWord}
use ln_gossip_sim.Base.Decimal.{to_text}
use ln_gossip_sim.Bitcoin.{Bitcoin}
use ln_gossip_sim.Crypto.{Crypto}
use ln_gossip_sim.GossipSim.Tcp.{Tcp}
use ln_gossip_sim.GossipSim.Host.{Host}
use ln_gossip_sim.GossipSim.Cli
use ln_gossip_sim.GossipSim.Cli.{line}
use ln_gossip_sim.GossipSim.Cli.Words.{
  split_whitespace-word, split_whitespace-last, to_text-IsWord, is_word, is_word-IsWord,
}
use ln_gossip_sim.GossipSim.Daemon.{Answer, Command, stopping}
use ln_gossip_sim.GossipSim.Daemon.Commands.{
  cmd_connect, cmd_disconnect, cmd_send_message, cmd_peers, cmd_info, cmd_mine,
}
use ln_gossip_sim.GossipSim.Daemon.Announce.{
  cmd_send_channel_announcement, cmd_send_channel_announcement_2, cmd_send_channel_update,
  cmd_send_node_announcement,
}
use ln_gossip_sim.GossipSim.Daemon.Dispatch.{shutdown, run, handle_command}

-- The arguments are words, and the number of blocks is a `usize`.
abbrev pub IsPlain : Cli.Command → Type 0
IsPlain (Cli.connect pubkey addr) = IsWord pubkey × IsWord addr
IsPlain (Cli.disconnect pubkey) = IsWord pubkey
IsPlain (Cli.mine blocks) = blocks < 2 ^ 64
IsPlain (Cli.send_channel_announcement pubkey) = IsWord pubkey
IsPlain (Cli.send_channel_announcement_2 pubkey) = IsWord pubkey
IsPlain (Cli.send_channel_update pubkey scid) = IsWord pubkey × IsWord scid
IsPlain (Cli.send_node_announcement pubkey) = IsWord pubkey
IsPlain (Cli.send_message pubkey message) = IsWord pubkey × IsWord message
IsPlain _ = Unit

one : (name w : Text) → IsWord name → IsWord w → split_whitespace (name ++ b' ' ∷ w) ≡ name ∷ w ∷ []
one name w hn hw =
    split_whitespace-word name w hn ∙ ap (λ ws. name ∷ ws) (split_whitespace-last w hw)

two :
    (name v w : Text)
    → IsWord name
    → IsWord v
    → IsWord w
    → split_whitespace (name ++ b' ' ∷ (v ++ b' ' ∷ w)) ≡ name ∷ v ∷ w ∷ []
two name v w hn hv hw =
    split_whitespace-word name (v ++ b' ' ∷ w) hn ∙ ap (λ ws. name ∷ ws) (one v w hv hw)

module _ (b : Bitcoin) (t : Tcp) (h : Host b t) (c : Crypto)
    (ecdh : b.SecretKey → b.PublicKey → Bytes) where
  -- The command of the daemon that a command of the client stands for, with its arguments.
  abbrev pub meant : Cli.Command → Command b t h (Answer b)
  meant (Cli.connect pubkey addr) = cmd_connect b t h c ecdh (chars "connect" ∷ pubkey ∷ addr ∷ [])
  meant (Cli.disconnect pubkey) = cmd_disconnect b t h c ecdh (chars "disconnect" ∷ pubkey ∷ [])
  meant Cli.peers = cmd_peers b t h c ecdh
  meant Cli.info = cmd_info b t h c ecdh
  meant (Cli.mine blocks) = cmd_mine b t h c ecdh (chars "mine" ∷ to_text blocks ∷ [])
  meant (Cli.send_channel_announcement pubkey) =
      cmd_send_channel_announcement b t h c ecdh (chars "sendchannelannouncement" ∷ pubkey ∷ [])
  meant (Cli.send_channel_announcement_2 pubkey) =
      cmd_send_channel_announcement_2 b t h c ecdh (chars "sendchannelannouncement2" ∷ pubkey ∷ [])
  meant (Cli.send_channel_update pubkey scid) =
      cmd_send_channel_update b t h c ecdh (chars "sendchannelupdate" ∷ pubkey ∷ scid ∷ [])
  meant (Cli.send_node_announcement pubkey) =
      cmd_send_node_announcement b t h c ecdh (chars "sendnodeannouncement" ∷ pubkey ∷ [])
  meant (Cli.send_message pubkey message) =
      cmd_send_message b t h c ecdh (chars "sendmessage" ∷ pubkey ∷ message ∷ [])
  meant Cli.stop = shutdown b t h c ecdh >> return stopping

  -- Where the arguments are words without whitespace, and the number of blocks has 64 bits: the daemon runs
  -- the command that the client was given, with its arguments.
  pub handle_command-line :
      (command : Cli.Command)
      → IsPlain command
      → handle_command b t h c ecdh (line command) ≡ meant command
  unfolding handle_command run line same is_word
  handle_command-line (Cli.connect pubkey addr) (hk, ha) =
      ap (run b t h c ecdh)
        (two (chars "connect") pubkey addr (is_word-IsWord (chars "connect") refl) hk ha)
  handle_command-line (Cli.disconnect pubkey) hk =
      ap (run b t h c ecdh)
        (one (chars "disconnect") pubkey (is_word-IsWord (chars "disconnect") refl) hk)
  handle_command-line (Cli.send_channel_announcement pubkey) hk = ap (run b t h c ecdh) (
      one (chars "sendchannelannouncement") pubkey
        (is_word-IsWord (chars "sendchannelannouncement") refl) hk)
  handle_command-line (Cli.send_channel_announcement_2 pubkey) hk = ap (run b t h c ecdh) (
      one (chars "sendchannelannouncement2") pubkey
        (is_word-IsWord (chars "sendchannelannouncement2") refl) hk)
  handle_command-line (Cli.send_node_announcement pubkey) hk = ap (run b t h c ecdh) (
      one (chars "sendnodeannouncement") pubkey (is_word-IsWord (chars "sendnodeannouncement") refl)
        hk)
  handle_command-line Cli.peers hk =
      ap (run b t h c ecdh)
        (split_whitespace-last (chars "peers") (is_word-IsWord (chars "peers") refl))
  handle_command-line Cli.info hk =
      ap (run b t h c ecdh)
        (split_whitespace-last (chars "info") (is_word-IsWord (chars "info") refl))
  handle_command-line Cli.stop hk =
      ap (run b t h c ecdh)
        (split_whitespace-last (chars "stop") (is_word-IsWord (chars "stop") refl))
  handle_command-line (Cli.mine blocks) hb = ap (run b t h c ecdh) (
      one (chars "mine") (to_text blocks) (is_word-IsWord (chars "mine") refl)
        (to_text-IsWord blocks hb))
  handle_command-line (Cli.send_channel_update pubkey scid) (hk, hv) = ap (run b t h c ecdh) (
      two (chars "sendchannelupdate") pubkey scid (is_word-IsWord (chars "sendchannelupdate") refl)
        hk hv)
  handle_command-line (Cli.send_message pubkey message) (hk, hv) =
      ap (run b t h c ecdh)
        (two (chars "sendmessage") pubkey message (is_word-IsWord (chars "sendmessage") refl) hk hv)
