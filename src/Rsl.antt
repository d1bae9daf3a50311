-- ===== src/Rsl.antt =====
-- rsl/: the RSL Paxos node. `Data` has its types, `Node` the operations that the handlers share,
-- `Handlers` the message handlers, `Step` the dispatch, the clock and the client's side; the other
-- modules are about these.
pub mod Data
pub mod Node
pub mod Handlers
pub mod Step
pub mod Durable
pub mod Grows
pub mod Run
pub mod Frame
pub mod Acceptor
pub mod Decisions
pub mod Quorum
pub mod Repeats
pub mod Outcome
pub mod Env
pub mod Predicates
