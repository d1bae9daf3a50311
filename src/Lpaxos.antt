-- ===== src/Lpaxos.antt =====
-- lpaxos/: the LPaxos node. `Data` has its types, `Tracker` the record of acknowledgements,
-- `Node` the operations that the message cases share, `Step` the cases and the clock. `Moves` is
-- what each of them does to a node, and `Run` a node's life.
pub mod Data
pub mod Tracker
pub mod Node
pub mod Step
pub mod Moves
pub mod Run
pub mod Decisions
pub mod Commands
pub mod Env
