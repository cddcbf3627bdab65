-- ===== src/GossipSim/Conn/Messages.antt =====
-- ln-gossip-sim/src/conn.rs: `NoiseReader::recv_message`, which answers pings on the way. The state is
-- the reader with the writer that the method borrows. The loop runs on fuel.
use ln_gossip_sim.Base.{
  ℕ, zero, suc, take, drop, length, ltb, if◌then◌else◌, Bytes, Outcome, ok, err, panic, stuck,
}
use ln_gossip_sim.Base.Words.{from_be_bytes}
use ln_gossip_sim.Base.State.{Method, continue, ◌>>=◌, ◌>>◌, return, throw, call}
use ln_gossip_sim.Bitcoin.{Bitcoin}
use ln_gossip_sim.Crypto.{Crypto}
use ln_gossip_sim.GossipSim.Tcp.{Tcp}
use ln_gossip_sim.GossipSim.Conn.{NoiseWriter, NoiseReader, send, recv}
use ln_gossip_sim.Noise.NoiseError.{NoiseError, io}
use ln_gossip_sim.Bolt.Types.{BoltError}
use ln_gossip_sim.Bolt.Message
use ln_gossip_sim.Bolt.Message.{Message, warning, ping, pong, unknown}
use ln_gossip_sim.Bolt.Pong.{respond_to}
pub mod Termination

module _ (t : Tcp) (c : Crypto) (b : Bitcoin) where
  abbrev pub Both : Type 0
  Both = NoiseReader t × NoiseWriter t

  abbrev pub on_reader :
      {A : Type 0} → Method (NoiseReader t) NoiseError A → Method Both NoiseError A
  on_reader m (r, w) = let (outcome, r') = m r in (outcome, (r', w))

  abbrev pub on_writer :
      {A : Type 0} → Method (NoiseWriter t) NoiseError A → Method Both NoiseError A
  on_writer m (r, w) = let (outcome, w') = m w in (outcome, (r, w'))

  -- One decoded message; `again` is the rest of the loop.
  unfoldable pub react :
      Method Both NoiseError (Message b) → Message b → Method Both NoiseError (Message b)
  react again (ping p) = do
    reply ← call (Message.encode b (pong (respond_to p)))
    on_writer (send t c reply)
    again
  react again (pong p) = again
  react again (warning w) = again
  react again m = return m

  unfoldable pub dispatch :
      Method Both NoiseError (Message b)
      → Bytes
      → Outcome BoltError (Message b)
      → Method Both NoiseError (Message b)
  unfolding react
  dispatch again raw (ok m) = react again m
  dispatch again raw (err e) = return (unknown (from_be_bytes (take 2 raw)) (drop 2 raw))
  dispatch again raw panic = call panic
  dispatch again raw stuck = call stuck

  unfoldable pub recv_message : ℕ → Method Both NoiseError (Message b)
  unfolding dispatch
  recv_message zero = call stuck
  recv_message (suc fuel) =
      let again = recv_message fuel in
      do
        raw ← on_reader (recv t c)
        if ltb (length raw) 2 then throw io else dispatch again raw (Message.decode b raw)
