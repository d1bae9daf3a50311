-- ===== src/Lpaxos/Moves.antt =====
-- What every operation of an LPaxos node does to it: its phase never falls, the messages it sends
-- follow its phases, and only the leader of a phase speaks as one.
pub mod Base
pub mod Phases
pub mod Handlers
