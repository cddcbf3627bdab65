-- ===== src/GossipSim.antt =====
-- ln-gossip-sim/src: the connection of the daemon to a peer.
pub mod Tcp
pub mod Conn
pub mod Scid
pub mod Keys
pub mod Host
pub mod Bitcoind
pub mod Daemon
pub mod Cli
