-- ===== src/Integral/Examples.antt =====
-- hw1/src/leader/leader.cpp: the theorems at concrete inputs.
pub mod Tasks
mod Rounds
mod Workers
