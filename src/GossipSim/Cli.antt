-- ===== src/GossipSim/Cli.antt =====
-- ln-gossip-sim/src/bin/cli.rs: what the command line client sends for a command, and what it prints.
use ln_gossip_sim.Base.{ℕ, [], ◌∷◌, ◌++◌}
use ln_gossip_sim.Base.Text.{Text, chars}
use ln_gossip_sim.Base.Lines.{lines, print_lines}
use ln_gossip_sim.Base.Decimal.{to_text}
pub mod Words
pub mod Understood
pub mod Session

pub data Command : Type 0 where
  connect : (pubkey addr : Text) → Command
  disconnect : (pubkey : Text) → Command
  peers info : Command
  mine : (blocks : ℕ) → Command
  send_channel_announcement send_channel_announcement_2 : (pubkey : Text) → Command
  send_channel_update : (pubkey scid : Text) → Command
  send_node_announcement : (pubkey : Text) → Command
  send_message : (pubkey message : Text) → Command
  stop : Command

unfoldable pub line : Command → Text
line (connect pubkey addr) = chars "connect" ++ b' ' ∷ (pubkey ++ b' ' ∷ addr)
line (disconnect pubkey) = chars "disconnect" ++ b' ' ∷ pubkey
line peers = chars "peers"
line info = chars "info"
line (mine blocks) = chars "mine" ++ b' ' ∷ to_text blocks
line (send_channel_announcement pubkey) = chars "sendchannelannouncement" ++ b' ' ∷ pubkey
line (send_channel_announcement_2 pubkey) = chars "sendchannelannouncement2" ++ b' ' ∷ pubkey
line (send_channel_update pubkey scid) = chars "sendchannelupdate" ++ b' ' ∷ (pubkey ++ b' ' ∷ scid)
line (send_node_announcement pubkey) = chars "sendnodeannouncement" ++ b' ' ∷ pubkey
line (send_message pubkey message) = chars "sendmessage" ++ b' ' ∷ (pubkey ++ b' ' ∷ message)
line stop = chars "stop"

-- The line with its newline, behind which the client closes its side of the socket.
unfoldable pub request : Command → Text
unfolding line
request command = line command ++ 10 ∷ []

-- The lines of the response, by `println!`.
unfoldable pub printed : Text → Text
printed response = print_lines (lines response)
