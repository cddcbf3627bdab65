-- ===== src/Examples/Peers.antt =====
-- The theorems on the set-up of a connection, on receives that are dropped and on forwarded messages, at
-- small inputs.
use ln_gossip_sim.Base.{
  inl, true, ◌^◌, ◌<◌, ◌≡◌, refl, arith, none, [], ◌∷◌, ◌++◌, length, replicate, Bytes, ok, err,
  lt→ltb,
}
use ln_gossip_sim.Base.State.{◌>>◌}
use ln_gossip_sim.Base.Words.{to_be_bytes}
use ln_gossip_sim.Base.Runs.{IfOk}
use ln_gossip_sim.Base.Lines.{print_lines}
use ln_gossip_sim.Base.Text.{Text, chars}
use ln_gossip_sim.Bolt.Init.{Init, echo}
use ln_gossip_sim.Bolt.Message.Echo.{init_bytes, encode-echo, length-init_bytes_nil}
use ln_gossip_sim.GossipSim.Conn.{NoiseReader, recv}
use ln_gossip_sim.GossipSim.Conn.Dropped.{drop_recv, in_body}
use ln_gossip_sim.GossipSim.Conn.Dropped.Misread.{two_bytes-misread}
use ln_gossip_sim.GossipSim.Conn.Connect.Succeeds.{Connected, connect-Connected}
use ln_gossip_sim.GossipSim.Daemon.Commands.{cmd_send_message}
use ln_gossip_sim.GossipSim.Daemon.{Answer, stopping}
use ln_gossip_sim.GossipSim.Daemon.Dispatch.{shutdown}
use ln_gossip_sim.GossipSim.Daemon.Control.{serve}
use ln_gossip_sim.GossipSim.Cli
use ln_gossip_sim.GossipSim.Cli.{request, printed}
use ln_gossip_sim.GossipSim.Cli.Session.{session}
use ln_gossip_sim.GossipSim.Daemon.Forwarding.{Forwarded, cmd_send_message-IfOk}
use ln_gossip_sim.Noise.NoiseCipher
use ln_gossip_sim.Noise.Cipher.{encode_nonce, encrypt_with_ad}
use ln_gossip_sim.Noise.SendCipher
use ln_gossip_sim.Noise.NoiseError.{NoiseError, io}
use ln_gossip_sim.Noise.Handshake.Agreement.{Agreed, handshake_agrees}
use ln_gossip_sim.Examples.Instances.{bitcoin, bitcoin_laws, crypto, crypto_laws, blank}
use ln_gossip_sim.Examples.Connections.{
  pipe, pipe_laws, pipe-incoming, pipe_stays_open, key, writer, writer-SendsAfter, reader,
  reader-ReceivesAfter,
}
use ln_gossip_sim.Examples.Noises.{shared_point, shared_point_symmetric}
use ln_gossip_sim.Examples.Hosts.{host, as_bytes-AllBytes}
use ln_gossip_sim.Examples.Gossip.{daemon, ecdh}

-- The packet of the two bytes 0 and 18, and nothing behind it.
abbrev two_bytes : Bytes
two_bytes = (0 ∷ 2 ∷ replicate 16 0) ++ (0 ∷ 18 ∷ replicate 16 0)

abbrev two_bytes_reader : NoiseReader pipe
two_bytes_reader = record { stream = two_bytes ++ []; cipher = reader.cipher }

two_bytes-misread_example :
    ((recv pipe crypto two_bytes_reader).0 ≡ ok (to_be_bytes 2 18))
    × (((drop_recv pipe crypto (in_body 0) >> recv pipe crypto) two_bytes_reader).0 ≡ err io)
unfolding SendCipher.encrypt SendCipher.encrypt_length SendCipher.maybe_rotate encode_nonce
    encrypt_with_ad to_be_bytes
two_bytes-misread_example =
    two_bytes-misread pipe pipe_laws crypto crypto_laws key key 0 18 writer.cipher two_bytes_reader
      two_bytes [] writer-SendsAfter reader-ReceivesAfter (omega arith) refl (pipe-incoming _)
      (omega arith)

abbrev agreed : Agreed bitcoin crypto shared_point (blank 33) (blank 33) (blank 33) (blank 33)
agreed =
    handshake_agrees bitcoin crypto shared_point bitcoin_laws crypto_laws shared_point_symmetric
      (blank 33) (blank 33) (blank 33) (blank 33)

abbrev theirs : Init
theirs = record {
  globalfeatures = [];
  features = 0x22 ∷ [];
  tlvs = record { networks = none; remote_addr = none };
}

-- The packet of a message, with tags of zeros.
abbrev packet_of : Bytes → Bytes
packet_of msg = to_be_bytes 2 (length msg) ++ replicate 16 0 ++ (msg ++ replicate 16 0)

encrypt_run :
    (sending_key ck msg : Bytes)
    → length msg < 2 ^ 16
    → (SendCipher.encrypt crypto {E = NoiseError} msg
        (record { key = sending_key; nonce = 0; ck = ck })).0
      ≡ ok (packet_of msg)
unfolding SendCipher.encrypt SendCipher.encrypt_length SendCipher.maybe_rotate encode_nonce
    encrypt_with_ad
encrypt_run sending_key ck msg lt = rw (lt→ltb (length msg) (2 ^ 16) lt)

abbrev init_packet : Bytes
init_packet = packet_of (init_bytes theirs [])

connect-Connected_example :
    Connected pipe pipe_laws pipe_stays_open crypto crypto_laws bitcoin bitcoin_laws shared_point
      agreed
      (agreed.act_two ++ (init_packet ++ []))
      []
      theirs
      []
unfolding echo NoiseCipher.split NoiseCipher.new
connect-Connected_example =
    connect-Connected pipe pipe_laws pipe_stays_open crypto crypto_laws bitcoin bitcoin_laws
      shared_point agreed (agreed.act_two ++ (init_packet ++ [])) [] theirs (init_bytes theirs [])
      init_packet []
      (record {
        globalfeatures = omega arith;
        features = omega arith;
        networks = tt;
        remote_addr = tt;
      })
      (encode-echo bitcoin theirs) (omega (arith, length-init_bytes_nil theirs))
      (encrypt_run agreed.rk agreed.responder_end.ck (init_bytes theirs [])
        (omega (arith, length-init_bytes_nil theirs)))
      (pipe-incoming _)

abbrev message : Text
message = 0 ∷ 18 ∷ 0 ∷ 4 ∷ 0 ∷ 0 ∷ []

cmd_send_message-IfOk_example :
    IfOk
      (Forwarded bitcoin bitcoin_laws pipe host as_bytes-AllBytes crypto ecdh
        (replicate 33 1)
        message
        daemon)
      (cmd_send_message bitcoin pipe host crypto ecdh
        (chars "sendmessage" ∷ replicate 33 1 ∷ message ∷ [])
        daemon)
cmd_send_message-IfOk_example =
    cmd_send_message-IfOk bitcoin bitcoin_laws pipe host as_bytes-AllBytes crypto ecdh
      (chars "sendmessage") (replicate 33 1) message daemon

-- The text of an answer, of which only that of a stop is of interest here.
abbrev text_of : Answer bitcoin → Text
text_of a = chars "Stopping daemon" ++ 10 ∷ []

session_example :
    (serve bitcoin pipe host crypto ecdh text_of (request Cli.stop) daemon
      ≡ (text_of stopping, record daemon { stop = true }))
    × (printed (text_of stopping) ≡ text_of stopping)
unfolding shutdown print_lines
session_example =
    session bitcoin pipe host crypto ecdh text_of Cli.stop stopping (chars "Stopping daemon" ∷ [])
      daemon (record daemon { stop = true }) tt (inl refl) (omega arith) refl
