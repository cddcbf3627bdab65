-- ===== src/Examples.antt =====
-- Concrete runs: parameters that satisfy the laws, and the theorems applied to small inputs.
mod Instances
mod Codecs
mod Noises
mod Connections
mod Hosts
mod Gossip
mod Peers
mod Mains
