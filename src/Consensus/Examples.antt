-- ===== src/Consensus/Examples.antt =====
-- Runs of hw2/src/consensus/ut/node_test.cpp, and the theorems at concrete inputs.
pub mod Nodes
mod Replicas
pub mod Single
mod Logs
mod Elections
mod Calls
