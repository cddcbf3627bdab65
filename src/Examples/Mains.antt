-- ===== src/Examples/Mains.antt =====
-- The theorems on `main` of the daemon at small inputs.
use ln_gossip_sim.Base.{◌≡◌, refl, true, false, ◌⊎◌, [], ◌∷◌, some}
use ln_gossip_sim.Base.Text.{
  chars, same, split_whitespace, whitespace_pieces, non_empty, is_whitespace,
}
use ln_gossip_sim.GossipSim.Keys.{node_id, node_secret}
use ln_gossip_sim.GossipSim.Bitcoind
use ln_gossip_sim.GossipSim.Daemon.{Daemon}
use ln_gossip_sim.GossipSim.Daemon.Table
use ln_gossip_sim.GossipSim.Daemon.Dispatch.{new, handle_command, run, shutdown}
use ln_gossip_sim.GossipSim.Daemon.Main.{
  Running, start, listen, started, handle_line, Moves, accepted, handled, stop_changed, Run, here,
  next,
}
use ln_gossip_sim.GossipSim.Daemon.Main.Stopping.{IsSound, Run-IsSound, handle_line-Ends}
use ln_gossip_sim.Examples.Instances.{bitcoin, crypto, first_key}
use ln_gossip_sim.Examples.Connections.{pipe}
use ln_gossip_sim.Examples.Hosts.{host}
use ln_gossip_sim.Examples.Gossip.{ecdh}

-- The daemon that is made, a client that says `stop`, the state behind its command, and the end.
abbrev made : Daemon bitcoin pipe host
made = record {
  node_id = first_key;
  table = Table.new bitcoin;
  writers = [];
  readers = [];
  bitcoind = tt;
  stop = false;
  host = tt;
}

abbrev asking : Running bitcoin pipe host
asking = record { daemon = made; clients = (chars "stop" ∷ []) ∷ []; ended = false }

abbrev asked : Running bitcoin pipe host
asked = handle_line bitcoin pipe host crypto ecdh 0 (chars "stop") [] asking

abbrev ended : Running bitcoin pipe host
ended = record asked { ended = true }

start_run :
    start bitcoin pipe host crypto ecdh (chars "http://b/") [] [] true tt
    ≡ some (started bitcoin pipe host crypto ecdh made)
unfolding start listen Bitcoind.new Bitcoind.ensure_wallet new node_id node_secret same
start_run = refl

stop_words : split_whitespace (chars "stop") ≡ chars "stop" ∷ []
unfolding split_whitespace whitespace_pieces non_empty is_whitespace
stop_words = refl

asked-stop : asked.daemon.stop ≡ true
unfolding handle_line handle_command run shutdown same split_whitespace whitespace_pieces non_empty
    is_whitespace
asked-stop = refl

ended-Run : Run bitcoin pipe host crypto ecdh (started bitcoin pipe host crypto ecdh made) ended
unfolding handle_line
ended-Run =
    next
      (next (next here (accepted (chars "stop" ∷ []) _ refl))
        (handled 0 (chars "stop") [] asking refl refl))
      (stop_changed asked refl asked-stop)

Run-IsSound_example : IsSound bitcoin pipe host crypto ecdh ended
Run-IsSound_example =
    Run-IsSound bitcoin pipe host crypto ecdh (chars "http://b/") [] [] true tt
      (started bitcoin pipe host crypto ecdh made) ended start_run ended-Run

handle_line-Ends_example :
    (asked.ended ≡ true) ⊎ Moves bitcoin pipe host crypto ecdh asked (record asked { ended = true })
handle_line-Ends_example =
    handle_line-Ends bitcoin pipe host crypto ecdh 0 (chars "stop") [] [] asking asked stop_words
      here
