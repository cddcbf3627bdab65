-- ===== src/GossipSim/Conn/Connect.antt =====
-- ln-gossip-sim/src/conn.rs: `connect`, the handshake as initiator and the exchange of Init messages.
-- The two halves of the stream are those that `TcpStream::connect` and `into_split` make; they
-- are none where the connection is refused.
use ln_gossip_sim.Base.{
  Bool, Option, none, some, if◌then◌else◌, Bytes, Outcome, ok, err, panic, stuck, map_err, ◌>>=◌,
}
use ln_gossip_sim.Bitcoin.{Bitcoin}
use ln_gossip_sim.Crypto.{Crypto}
use ln_gossip_sim.GossipSim.Tcp.{Tcp}
use ln_gossip_sim.GossipSim.Conn.{NoiseWriter, NoiseReader, send, recv}
use ln_gossip_sim.Noise.NoiseError.{NoiseError, io}
use ln_gossip_sim.Noise.NoiseCipher.{split}
use ln_gossip_sim.Noise.Handshake.{new_initiator}
use ln_gossip_sim.Noise.Handshake.Initiator.{get_act_one, process_act_two, into_cipher}
use ln_gossip_sim.Bolt.Init
use ln_gossip_sim.Bolt.Init.{Init}
use ln_gossip_sim.Bolt.Message
use ln_gossip_sim.Bolt.Message.{Message, init}
pub mod Succeeds

-- A method on a local variable: the call, and the variable after it.
abbrev pub with_local : {S E A : Type 0} → Outcome E A × S → Outcome E (A × S)
with_local (ok a, s) = ok (a, s)
with_local (err e, s) = err e
with_local (panic, s) = panic
with_local (stuck, s) = stuck

abbrev pub written : {W : Type 0} → Bool × W → Outcome NoiseError W
written (done, stream) = if done then ok stream else err io

abbrev pub read : {R : Type 0} → Option Bytes × R → Outcome NoiseError (Bytes × R)
read (none, stream) = err io
read (some bytes, stream) = ok (bytes, stream)

abbrev pub expect_init : {b : Bitcoin} → Message b → Outcome NoiseError Init
expect_init (init m) = ok m
expect_init _ = err io

module _ (t : Tcp) (c : Crypto) (b : Bitcoin) (ecdh : b.SecretKey → b.PublicKey → Bytes) where
  unfoldable pub connect :
      Option (t.OwnedReadHalf × t.OwnedWriteHalf)
      → b.PublicKey
      → (our_static ephemeral : b.SecretKey)
      → Outcome NoiseError (NoiseWriter t × NoiseReader t × b.PublicKey)
  connect none their_node_id our_static ephemeral = err io
  connect (some (read_half, write_half)) their_node_id our_static ephemeral = do
    let handshake = new_initiator b c ecdh our_static ephemeral their_node_id
    (act_one, handshake) ← with_local (get_act_one b c ecdh handshake)
    write_half ← written (t.write_all act_one write_half)
    (act_two, read_half) ← read (t.read_exact 50 read_half)
    (act_three, handshake) ← with_local (process_act_two b c ecdh act_two handshake)
    write_half ← written (t.write_all act_three write_half)
    cipher ← into_cipher b c ecdh handshake
    let (send_cipher, recv_cipher) = split cipher
    let writer : NoiseWriter t = record { stream = write_half; cipher = send_cipher }
    let reader : NoiseReader t = record { stream = read_half; cipher = recv_cipher }
    (init_resp, reader) ← with_local (recv t c reader)
    message ← map_err (λ _. io) (Message.decode b init_resp)
    received_init ← expect_init message
    reply ← Message.encode b (init (Init.echo received_init))
    (_, writer) ← with_local (send t c reply writer)
    ok (writer, reader, their_node_id)
