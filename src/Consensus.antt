-- ===== src/Consensus.antt =====
-- hw2/src/consensus: the consensus node.
pub mod State
pub mod Message
pub mod Node
pub mod Examples
pub mod Merge
pub mod Replication
pub mod Frame
pub mod Quiet
pub mod Terms
pub mod Leadership
pub mod Heartbeats
pub mod Voting
pub mod Quorum
pub mod Reads
pub mod CommitRule
pub mod CatchUp
pub mod Retreat
pub mod Clients
pub mod Wellformed
pub mod Mail
pub mod Committed
