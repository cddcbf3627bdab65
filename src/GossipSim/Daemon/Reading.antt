-- ===== src/GossipSim/Daemon/Reading.antt =====
-- How the loop of a reader task of ln-gossip-sim/src/bin/simd.rs goes on and ends.
use ln_gossip_sim.Base.{
  ℕ, suc, ◌+◌, ◌≤◌, ◌<◌, ◌≡◌, refl, arith, Bool, true, false, ◌⊎◌, inl, inr, Bool-cases, ltb,
  ltb→le, List, [], ◌∷◌, length, Bytes, AllBytes, Outcome, some, if◌then◌else◌,
}
use ln_gossip_sim.Base.State.{Steps, done, failed, Steps-continue, Steps-weaken, return}
use ln_gossip_sim.Bitcoin.{Bitcoin, BitcoinLaws}
use ln_gossip_sim.Crypto.{Crypto, CryptoLaws}
use ln_gossip_sim.Bolt.Message
use ln_gossip_sim.Bolt.Message.{ping}
use ln_gossip_sim.Bolt.Ping
use ln_gossip_sim.GossipSim.Tcp.{Tcp, TcpLaws}
use ln_gossip_sim.GossipSim.Conn.{NoiseWriter, NoiseReader}
use ln_gossip_sim.GossipSim.Conn.Messages.{Both}
use ln_gossip_sim.GossipSim.Conn.Halves.{left, drop_recv-Steps, recv-Steps, send-Steps}
use ln_gossip_sim.Noise.NoiseError.{NoiseError}
use ln_gossip_sim.GossipSim.Daemon.PeerMessage.{
  succeeded, reply, Event, received, ticked, interrupted, on_message, on_tick, on_drop, turn,
  read_loop,
}
use ln_gossip_sim.GossipSim.Daemon.Replies.{Handled, ignored, answered, handle_peer_message-Handled}

-- The messages among the events.
unfoldable pub messages : List Event → ℕ
messages [] = 0
messages (received ∷ events) = suc (messages events)
messages (ticked ∷ events) = messages events
messages (interrupted cut ∷ events) = messages events

messages-cons :
    (event : Event) (events : List Event)
    → messages (event ∷ events) ≡ messages (event ∷ []) + messages events
unfolding messages
messages-cons received events = omega arith
messages-cons ticked events = omega arith
messages-cons (interrupted cut) events = omega arith

succeeded-Steps :
    {S : Type 0} {m : Outcome NoiseError (Unit {0}) × S}
    → Steps (λ u s. Unit) m
    → Steps (λ kept s. Unit) (succeeded m)
succeeded-Steps (done p) = done tt
succeeded-Steps failed = done tt

module _ (t : Tcp) (tl : TcpLaws t)
    (bytes_arrive : (n : ℕ) (r : t.OwnedReadHalf) (bytes : Bytes)
      → (t.read_exact n r).0 ≡ some bytes
      → AllBytes bytes)
    (c : Crypto) (cl : CryptoLaws c) (b : Bitcoin) (bl : BitcoinLaws b) where
  -- What is left to be read at the reader of a task.
  abbrev pub unread : Both t c b → ℕ
  unread (r, w) = left t tl bytes_arrive r

  Handled-Steps :
      {raw : Bytes} {w : NoiseWriter t} {m : Outcome NoiseError Bool × NoiseWriter t}
      → Handled b bl t c raw w m
      → Steps (λ kept w'. Unit) m
  Handled-Steps (ignored q) = done tt
  Handled-Steps {w = w} (answered m r bytes e a d) =
      succeeded-Steps (send-Steps t tl bytes_arrive c cl bytes w)

  ping-Steps : (w : NoiseWriter t) → Steps (λ kept w'. Unit) (reply t c b (ping (Ping.new 1)) w)
  unfolding reply Message.encode
  ping-Steps w = succeeded-Steps (send-Steps t tl bytes_arrive c cl _ w)

  -- The loop goes on with less to read, or it is over.
  abbrev pub Onward : ℕ → ℕ → Bool → ℕ → Type 0
  Onward before count kept after = (kept ≡ false) ⊎ (after + count ≤ before)

  with_writer :
      {P : Bool → Both t c b → Type 0} (r : NoiseReader t)
      {m : Outcome NoiseError Bool × NoiseWriter t}
      → Steps (λ kept w. Unit) m
      → ((kept : Bool) (w : NoiseWriter t) → P kept (r, w))
      → Steps P (m.0, (r, m.1))
  with_writer r (done p) k = done (k _ _)
  with_writer r failed k = failed

  on_message-Steps :
      (bound : ℕ) (w : NoiseWriter t) {m : Outcome NoiseError Bytes × NoiseReader t}
      → Steps (λ raw r'. AllBytes raw × (left t tl bytes_arrive r' < bound)) m
      → Steps (λ kept s. Onward bound 1 kept (unread s)) (on_message t c b w m)
  unfolding on_message
  on_message-Steps bound w (done {a = raw} {s = r} (bytes, less)) =
      elim (Bool-cases (ltb (length raw) 2)) [
        | inl short ↦ rw short (done (inl refl))
        | inr long ↦ rw long (
            with_writer r
              (Handled-Steps
                (handle_peer_message-Handled b bl t c raw w bytes (ltb→le (length raw) 2 long)))
              λ kept w'. inr (omega (arith, less)))
      ]
  on_message-Steps bound w failed = done (inl refl)

  tick-Steps :
      (before : ℕ) (r : NoiseReader t) (w : NoiseWriter t)
      → left t tl bytes_arrive r ≤ before
      → Steps (λ kept s'. Onward before 0 kept (unread s')) (on_tick t c b (r, w))
  unfolding on_tick
  tick-Steps before r w le = with_writer r (ping-Steps w) λ kept w'. inr (omega arith)

  on_drop-Steps :
      (before : ℕ) (w : NoiseWriter t) {m : Outcome NoiseError (Unit {0}) × NoiseReader t}
      → Steps (λ u r'. left t tl bytes_arrive r' ≤ before) m
      → Steps (λ kept s'. Onward before 0 kept (unread s')) (on_drop t c b w m)
  unfolding on_drop
  on_drop-Steps before w (done {s = r} le) = tick-Steps before r w le
  on_drop-Steps before w failed = done (inl refl)

  turn-Steps :
      (event : Event) (s : Both t c b)
      → Steps
          (λ kept s'. Onward (unread s) (messages (event ∷ [])) kept (unread s'))
          (turn t c b event s)
  unfolding turn messages
  turn-Steps received (r, w) =
      on_message-Steps (left t tl bytes_arrive r) w (recv-Steps t tl bytes_arrive c cl r)
  turn-Steps ticked (r, w) = tick-Steps (left t tl bytes_arrive r) r w (omega arith)
  turn-Steps (interrupted cut) (r, w) =
      on_drop-Steps (left t tl bytes_arrive r) w (drop_recv-Steps t tl bytes_arrive c cl cut r)

  -- The loop behind a turn, from what is known of the rest of it.
  goes_on :
      (before : ℕ) (event : Event) (events : List Event) (kept : Bool) (s : Both t c b)
      → ((s : Both t c b)
          → Steps
              (λ kept s'. Onward (unread s) (messages events) kept (unread s'))
              (read_loop t c b events s))
      → Onward before (messages (event ∷ [])) kept (unread s)
      → Steps
          (λ kept s'. Onward before (messages (event ∷ events)) kept (unread s'))
          ((if kept then read_loop t c b events else return false) s)
  goes_on before event events false s rest p = done (inl refl)
  goes_on before event events true s rest (inl e) = cc
  goes_on before event events true s rest (inr le) = Steps-weaken (rest s) λ kept s' q. elim q [
    | inl e ↦ inl e
    | inr le' ↦ inr (omega (arith, le, le', messages-cons event events))
  ]

  -- If reading yields bytes, under the laws of the stream, of the cipher and of the keys: whatever messages
  -- and ticks come, also ticks in the middle of a packet, the loop of a reader task does not panic. It
  -- is over, or for each message that it has handled there are less bytes to be read.
  pub read_loop-Onward :
      (events : List Event) (s : Both t c b)
      → Steps
          (λ kept s'. Onward (unread s) (messages events) kept (unread s'))
          (read_loop t c b events s)
  unfolding read_loop messages
  read_loop-Onward [] s = done (inr (omega arith))
  read_loop-Onward (event ∷ events) s =
      Steps-continue (turn-Steps event s)
        λ kept s' p. goes_on (unread s) event events kept s' (read_loop-Onward events) p
