-- ===== src/Types.antt =====
-- types/: what the learning loop and the checks on it stand on. `Trace` is the record of an episode,
-- `Monitor` the state machine that a trace is checked with, `Agent` the loop that makes traces.
pub mod Trace
pub mod Monitor
pub mod Agent
pub mod Partition
