-- ===== src/GossipSim/Daemon/Control.antt =====
-- ln-gossip-sim/src/bin/simd.rs: a connection to the control socket. Each line that the client sends is
-- handled as a command, and the answer is written back. `text` gives the text of an answer, with
-- the words around its values; a write that fails is ignored, as the code ignores it.
use ln_gossip_sim.Base.{List, [], ◌∷◌, ◌++◌, Bytes, Outcome, ok, err, panic, stuck}
use ln_gossip_sim.Base.Text.{Text}
use ln_gossip_sim.Base.Lines.{lines}
use ln_gossip_sim.Bitcoin.{Bitcoin}
use ln_gossip_sim.Crypto.{Crypto}
use ln_gossip_sim.GossipSim.Tcp.{Tcp}
use ln_gossip_sim.GossipSim.Host.{Host}
use ln_gossip_sim.GossipSim.Daemon.{Answer, Daemon}
use ln_gossip_sim.GossipSim.Daemon.Dispatch.{handle_command}

module _ (b : Bitcoin) (t : Tcp) (h : Host b t) (c : Crypto)
    (ecdh : b.SecretKey → b.PublicKey → Bytes) (text : Answer b → Text) where
  -- An answer, by an early return or at the end of a command, and the connection goes on; a panic ends
  -- the task of the connection, and nothing is written.
  abbrev pub respond :
      Outcome (Answer b) (Answer b) × Daemon b t h
      → (Daemon b t h → Text × Daemon b t h)
      → Text × Daemon b t h
  respond (ok a, d) rest = let (out, d') = rest d in (text a ++ out, d')
  respond (err a, d) rest = let (out, d') = rest d in (text a ++ out, d')
  respond (panic, d) rest = ([], d)
  respond (stuck, d) rest = ([], d)

  -- `while let Ok(Some(line)) = lines.next_line().await`: what is written, and the daemon behind it.
  unfoldable pub serve_lines : List Text → Daemon b t h → Text × Daemon b t h
  serve_lines [] d = ([], d)
  serve_lines (line ∷ rest) d = respond (handle_command b t h c ecdh line d) (serve_lines rest)

  -- The task of a connection, from all that the client sends.
  unfoldable pub serve : Text → Daemon b t h → Text × Daemon b t h
  unfolding serve_lines
  serve input d = serve_lines (lines input) d
