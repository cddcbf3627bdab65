-- ===== src/Examples/Gossip.antt =====
-- The theorems on the daemon, on the client of bitcoind and on the command line client at small inputs.
use ln_gossip_sim.Base.{
  ℕ, ◌+◌, ◌*◌, ◌^◌, ◌++◌, ◌≡◌, ◌≢◌, refl, ap, sym, ◌∙◌, arith, false, some, List, [], ◌∷◌,
  replicate, Bytes, ok,
}
use ln_gossip_sim.Base.State.{Steps}
use ln_gossip_sim.Base.Runs.{IfOk}
use ln_gossip_sim.Base.Text.{Text, chars, same}
use ln_gossip_sim.Base.Decimal.{to_text, digits}
use ln_gossip_sim.Bolt.ScidText.{scid_text}
use ln_gossip_sim.GossipSim.Scid.{parse_scid, IsScid, parse_scid-scid_text, parse_scid-IsScid}
use ln_gossip_sim.GossipSim.Keys.{seed, seed_2}
use ln_gossip_sim.Noise.NoiseCipher
use ln_gossip_sim.Noise.Connection.{NoiseConnection, send_message, recv_message}
use ln_gossip_sim.GossipSim.Conn.{send, recv}
use ln_gossip_sim.GossipSim.Conn.Blocking
use ln_gossip_sim.GossipSim.Conn.Blocking.{whole_stream, reader_of, Same, blocking-Same}
use ln_gossip_sim.GossipSim.Conn.Dropped.{in_header}
use ln_gossip_sim.GossipSim.Conn.Messages.{Both}
use ln_gossip_sim.GossipSim.Bitcoind.{
  FundingKeys, mine_to_funding, new_funding_address, search, outputs, position, pays, sorted,
}
use ln_gossip_sim.GossipSim.Bitcoind.Funding.{Funded, mine_to_funding-Funded}
use ln_gossip_sim.GossipSim.Daemon.{Daemon, PeerTable}
use ln_gossip_sim.GossipSim.Daemon.Table
use ln_gossip_sim.GossipSim.Daemon.Table.{spawn, insert_peer}
use ln_gossip_sim.GossipSim.Daemon.PeerMessage.{
  Event, handle_peer_message, received, ticked, interrupted, read_loop,
}
use ln_gossip_sim.GossipSim.Daemon.Commands.{cmd_mine}
use ln_gossip_sim.GossipSim.Daemon.Announce.{cmd_send_channel_announcement_2}
use ln_gossip_sim.GossipSim.Daemon.Dispatch.{handle_command}
use ln_gossip_sim.GossipSim.Daemon.Steps.Races.{end_task, Stale, Lost, races}
use ln_gossip_sim.GossipSim.Daemon.Commands.{spawn_reader, register}
use ln_gossip_sim.GossipSim.Daemon.Sending.{Announced, cmd_send_channel_announcement_2-IfOk}
use ln_gossip_sim.GossipSim.Daemon.Replies.{Handled, handle_peer_message-Handled}
use ln_gossip_sim.GossipSim.Daemon.Reading.{messages, unread, Onward, read_loop-Onward}
use ln_gossip_sim.GossipSim.Cli
use ln_gossip_sim.GossipSim.Cli.{line}
use ln_gossip_sim.GossipSim.Cli.Understood.{handle_command-line}
use ln_gossip_sim.Examples.Instances.{
  bitcoin, bitcoin_laws, key_laws, signs_correctly, blank, lt_bytes, crypto, crypto_laws, first_key,
  second_key, Block,
}
use ln_gossip_sim.Examples.Connections.{
  key, pipe, writer, byte_pipe, byte_pipe_laws, byte_pipe_arrives, byte_reader, byte_writer, reader,
}
use ln_gossip_sim.Examples.Hosts.{host}

abbrev keys : FundingKeys bitcoin pipe host
keys = record {
  address = chars "bcrt1";
  sk1 = blank 33;
  sk2 = blank 33;
  pk1 = blank 33;
  pk2 = blank 33;
}

mine_to_funding_run :
    mine_to_funding bitcoin pipe host tt 6 tt
    ≡ (ok (chars "Mined 1 block(s) to bcrt1" ++ 10 ∷ [], keys, 101 * 2 ^ 40), tt)
unfolding mine_to_funding new_funding_address search outputs position pays to_text digits sorted
    same lt_bytes
mine_to_funding_run = refl

mine_to_funding-Funded_example : Funded bitcoin pipe host tt 6 keys (101 * 2 ^ 40) tt
mine_to_funding-Funded_example =
    mine_to_funding-Funded bitcoin pipe host tt 6 tt tt
      (chars "Mined 1 block(s) to bcrt1" ++ 10 ∷ []) keys (101 * 2 ^ 40) mine_to_funding_run

-- A table with one peer, of which the task runs.
abbrev pub peer : Block 33
peer = first_key

abbrev pub spawned_table : PeerTable bitcoin
spawned_table = (spawn bitcoin peer (Table.new bitcoin)).1

abbrev pub table : PeerTable bitcoin
table = insert_peer bitcoin peer 0 spawned_table

abbrev pub ecdh : Block 33 → Block 33 → Bytes
ecdh sk k = []

abbrev pub daemon : Daemon bitcoin pipe host
daemon = record {
  node_id = first_key;
  table = table;
  writers = writer ∷ [];
  readers = [];
  bitcoind = tt;
  stop = false;
  host = tt;
}

abbrev once : Daemon bitcoin pipe host
once = (register bitcoin pipe host crypto ecdh peer writer reader daemon).1

-- The table behind two more connections to the peer.
abbrev twice : PeerTable bitcoin
twice = (register bitcoin pipe host crypto ecdh peer writer reader once).1.table

abbrev announce : List Text
announce = chars "sendchannelannouncement2" ∷ replicate 33 1 ∷ []

abbrev first_byte : Block 33 → ℕ
first_byte ([], p) = 0
first_byte (v ∷ rest, p) = v

-- The two secrets of the example have the public keys that begin with 1 and with 2.
two_identities :
    (sk_a sk_b : Block 33)
    → bitcoin.secret_key_from_slice seed ≡ some sk_a
    → bitcoin.secret_key_from_slice seed_2 ≡ some sk_b
    → bitcoin.from_secret_key sk_a ≢ bitcoin.from_secret_key sk_b
unfolding same
two_identities sk_a sk_b ea eb e =
    let first_a : first_key ≡ sk_a = cc in
    let second_b : second_key ≡ sk_b = cc in
    let heads : 1 ≡ 2 = ap first_byte (first_a ∙ e ∙ sym second_b) in omega (arith, heads)

cmd_send_channel_announcement_2-IfOk_example :
    IfOk
      (λ a d. Announced bitcoin pipe host crypto ecdh key_laws two_identities announce daemon d)
      (cmd_send_channel_announcement_2 bitcoin pipe host crypto ecdh announce daemon)
cmd_send_channel_announcement_2-IfOk_example =
    cmd_send_channel_announcement_2-IfOk bitcoin pipe host crypto ecdh key_laws two_identities
      signs_correctly announce daemon

races_example :
    Stale bitcoin key_laws pipe host crypto ecdh peer 1
      (spawn_reader bitcoin pipe host crypto ecdh peer writer reader daemon).1.table
      (insert_peer bitcoin peer 1 (
        end_task bitcoin peer 1
          (spawn_reader bitcoin pipe host crypto ecdh peer writer reader daemon).1.table))
    × Lost bitcoin key_laws pipe host crypto ecdh peer 2 twice (end_task bitcoin peer 1 twice)
unfolding spawn insert_peer Table.new
races_example = races bitcoin key_laws pipe host crypto ecdh peer writer writer reader reader daemon

-- A ping that asks for four bytes.
abbrev raw : Bytes
raw = 0 ∷ 18 ∷ 0 ∷ 4 ∷ 0 ∷ 0 ∷ []

handle_peer_message-Handled_example :
    Handled bitcoin bitcoin_laws pipe crypto raw writer
      (handle_peer_message pipe crypto bitcoin raw writer)
handle_peer_message-Handled_example =
    handle_peer_message-Handled bitcoin bitcoin_laws pipe crypto raw writer (omega arith)
      (omega arith)

abbrev ends : Both byte_pipe crypto bitcoin
ends = (byte_reader, byte_writer)

-- A tick, a message, a tick in the middle of the next packet, and a receive behind it.
abbrev events : List Event
events = ticked ∷ received ∷ interrupted (in_header 1) ∷ received ∷ []

read_loop-Onward_example :
    Steps
      (λ kept s.
        Onward byte_pipe byte_pipe_laws byte_pipe_arrives crypto crypto_laws bitcoin bitcoin_laws
          (unread byte_pipe byte_pipe_laws byte_pipe_arrives crypto crypto_laws bitcoin bitcoin_laws
            ends)
          (messages events)
          kept
          (unread byte_pipe byte_pipe_laws byte_pipe_arrives crypto crypto_laws bitcoin bitcoin_laws
            s))
      (read_loop byte_pipe crypto bitcoin events ends)
read_loop-Onward_example =
    read_loop-Onward byte_pipe byte_pipe_laws byte_pipe_arrives crypto crypto_laws bitcoin
      bitcoin_laws events ends

handle_command-line_example :
    handle_command bitcoin pipe host crypto ecdh (line (Cli.mine 6))
    ≡ cmd_mine bitcoin pipe host crypto ecdh (chars "mine" ∷ to_text 6 ∷ [])
handle_command-line_example =
    handle_command-line bitcoin pipe host crypto ecdh (Cli.mine 6) (omega arith)

-- The ID 539268x845x1.
abbrev scid : ℕ
scid = 539268 * 2 ^ 40 + 845 * 2 ^ 16 + 1

parse_scid-scid_text_example : parse_scid (scid_text scid) ≡ some scid
parse_scid-scid_text_example = parse_scid-scid_text scid (omega arith)

parse_scid-IsScid_example : IsScid (scid_text scid) scid
parse_scid-IsScid_example =
    parse_scid-IsScid (scid_text scid) scid (parse_scid-scid_text scid (omega arith))

-- A blocking connection that has two bytes to read.
abbrev blocking : NoiseConnection (whole_stream pipe)
blocking = record { stream = (7 ∷ 7 ∷ [], []); cipher = NoiseCipher.new key key key }

blocking-Same_example :
    Same pipe
      (Blocking.writer_of pipe)
      (reader_of pipe)
      (reader_of pipe blocking)
      (send_message (whole_stream pipe) crypto (0 ∷ 19 ∷ []) blocking)
      (send pipe crypto (0 ∷ 19 ∷ []) (Blocking.writer_of pipe blocking))
    × Same pipe
        (reader_of pipe)
        (Blocking.writer_of pipe)
        (Blocking.writer_of pipe blocking)
        (recv_message (whole_stream pipe) crypto blocking)
        (recv pipe crypto (reader_of pipe blocking))
blocking-Same_example = blocking-Same pipe crypto (0 ∷ 19 ∷ []) blocking (omega arith)
