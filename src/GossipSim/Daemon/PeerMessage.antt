-- ===== src/GossipSim/Daemon/PeerMessage.antt =====
-- ln-gossip-sim/src/bin/simd.rs: the reader task of a peer. The state is the reader of the task with
-- the writer that it shares; the lock on the writer is held during a send. Logging is left out.
use ln_gossip_sim.Base.{
  Bool, true, false, List, [], ◌∷◌, length, ltb, if◌then◌else◌, Bytes, Outcome, ok, err, panic,
  stuck,
}
use ln_gossip_sim.Base.State.{Method, ◌>>=◌, return, call}
use ln_gossip_sim.Bitcoin.{Bitcoin}
use ln_gossip_sim.Crypto.{Crypto}
use ln_gossip_sim.Bolt.Types.{BoltError}
use ln_gossip_sim.Bolt.Message
use ln_gossip_sim.Bolt.Message.{Message, ping, pong, query_channel_range, reply_channel_range}
use ln_gossip_sim.Bolt.Ping
use ln_gossip_sim.Bolt.Pong.{respond_to}
use ln_gossip_sim.Bolt.QueryChannelRange.{QueryChannelRange}
use ln_gossip_sim.Bolt.ReplyChannelRange.{ReplyChannelRange, from_scids}
use ln_gossip_sim.GossipSim.Tcp.{Tcp}
use ln_gossip_sim.GossipSim.Conn.{NoiseWriter, NoiseReader, send, recv}
use ln_gossip_sim.GossipSim.Conn.Messages.{Both}
use ln_gossip_sim.GossipSim.Conn.Dropped.{Cut, drop_recv}
use ln_gossip_sim.Noise.NoiseError.{NoiseError}
use ln_gossip_sim.Noise.Cipher.{first_two}

-- The answer to a query for channels: no channels, over the whole range that was asked for.
unfoldable pub no_channels : QueryChannelRange → ReplyChannelRange
unfolding from_scids
no_channels query = from_scids query.chain_hash query.first_blocknum query.number_of_blocks true []

-- `tokio::select!` picks a branch that is ready: a message, or the tick of the timer. A tick drops the
-- receive, which has read nothing yet, or which waits in the middle of a packet.
pub data Event : Type 0 where
  received ticked : Event
  interrupted : Cut → Event

-- `if let Err(e) = ... { return false; }` around a method: an error is a `false`.
abbrev pub succeeded :
    {S : Type 0} → Outcome NoiseError (Unit {0}) × S → Outcome NoiseError Bool × S
succeeded (ok _, s) = (ok true, s)
succeeded (err e, s) = (ok false, s)
succeeded (panic, s) = (panic, s)
succeeded (stuck, s) = (stuck, s)

module _ (t : Tcp) (c : Crypto) (b : Bitcoin) where
  unfoldable pub reply : Message b → Method (NoiseWriter t) NoiseError Bool
  reply m = do bytes ← call (Message.encode b m); λ w. succeeded (send t c bytes w)

  unfoldable pub handle_decoded :
      Bytes → Outcome BoltError (Message b) → Method (NoiseWriter t) NoiseError Bool
  unfolding reply no_channels
  handle_decoded raw (ok (ping p)) = reply (pong (respond_to p))
  handle_decoded raw (ok (query_channel_range q)) = reply (reply_channel_range (no_channels q))
  handle_decoded raw (ok m) = return true
  handle_decoded raw (err e) = do mt ← call (first_two raw); return true
  handle_decoded raw panic = call panic
  handle_decoded raw stuck = call stuck

  unfoldable pub handle_peer_message : Bytes → Method (NoiseWriter t) NoiseError Bool
  unfolding handle_decoded
  handle_peer_message raw = handle_decoded raw (Message.decode b raw)

  -- The match on what was received.
  unfoldable pub on_message :
      NoiseWriter t
      → Outcome NoiseError Bytes × NoiseReader t
      → Outcome NoiseError Bool × Both t c b
  unfolding handle_peer_message
  on_message w (ok raw, r) =
      if ltb (length raw) 2
      then (ok false, (r, w))
      else (let (kept, w') = handle_peer_message raw w in (kept, (r, w')))
  on_message w (err e, r) = (ok false, (r, w))
  on_message w (panic, r) = (panic, (r, w))
  on_message w (stuck, r) = (stuck, (r, w))

  -- The branch of the timer.
  unfoldable pub on_tick : Method (Both t c b) NoiseError Bool
  unfolding reply
  on_tick (r, w) = let (kept, w') = reply (ping (Ping.new 1)) w in (kept, (r, w'))

  -- The branch of the timer behind a receive that is dropped; where the receive has failed by then, its
  -- error is what comes.
  unfoldable pub on_drop :
      NoiseWriter t
      → Outcome NoiseError (Unit {0}) × NoiseReader t
      → Outcome NoiseError Bool × Both t c b
  unfolding on_tick
  on_drop w (ok _, r) = on_tick (r, w)
  on_drop w (err e, r) = (ok false, (r, w))
  on_drop w (panic, r) = (panic, (r, w))
  on_drop w (stuck, r) = (stuck, (r, w))

  -- One turn of the loop; `false` where it breaks.
  unfoldable pub turn : Event → Method (Both t c b) NoiseError Bool
  unfolding on_message on_drop on_tick
  turn received (r, w) = on_message w (recv t c r)
  turn ticked s = on_tick s
  turn (interrupted cut) (r, w) = on_drop w (drop_recv t c cut r)

  -- The loop on the first events that come: whether it still runs.
  unfoldable pub read_loop : List Event → Method (Both t c b) NoiseError Bool
  unfolding turn
  read_loop [] = return true
  read_loop (event ∷ events) =
      let again = read_loop events in do kept ← turn event; if kept then again else return false
