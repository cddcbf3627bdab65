-- ===== src/GossipSim/Conn/Messages/Termination.antt =====
-- How the loop of `recv_message` in ln-gossip-sim/src/conn.rs ends.
use ln_gossip_sim.Base.{ℕ, ◌<◌, ◌≡◌, some, Bytes, AllBytes}
use ln_gossip_sim.Base.State.{Method, Steps}
use ln_gossip_sim.Bitcoin.{Bitcoin, BitcoinLaws}
use ln_gossip_sim.Crypto.{Crypto, CryptoLaws}
use ln_gossip_sim.GossipSim.Tcp.{Tcp, TcpLaws}
use ln_gossip_sim.GossipSim.Conn.{NoiseWriter, NoiseReader}
use ln_gossip_sim.GossipSim.Conn.Messages.{Both}
use ln_gossip_sim.Noise.NoiseError.{NoiseError}
use ln_gossip_sim.Bolt.Message
use ln_gossip_sim.Bolt.Message.{Message, warning, ping, pong, init, unknown}
use ln_gossip_sim.GossipSim.Conn.Halves.{left}

module _ (t : Tcp) (tl : TcpLaws t)
    (bytes_arrive : (n : ℕ) (r : t.OwnedReadHalf) (bytes : Bytes)
      → (t.read_exact n r).0 ≡ some bytes
      → AllBytes bytes)
    (c : Crypto) (cl : CryptoLaws c) where
  module _ (b : Bitcoin) (bl : BitcoinLaws b) where
    -- What the loop hands out: no ping, no pong and no warning, which it takes care of itself.
    abbrev pub IsReal : Message b → Type 0
    IsReal (ping m) = ⊥
    IsReal (pong m) = ⊥
    IsReal (warning m) = ⊥
    IsReal m = Unit

    -- What the rest of the loop has to show, on any state with less to read.
    abbrev Ends : ℕ → Method (Both t c b) NoiseError (Message b) → Type 0
    Ends bound again =
        (r : NoiseReader t) (w : NoiseWriter t)
        → left t tl bytes_arrive r < bound
        → Steps (λ m s. IsReal m) (again (r, w))
