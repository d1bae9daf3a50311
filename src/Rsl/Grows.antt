-- ===== src/Rsl/Grows.antt =====
-- What every operation of a Node does to it: the log and the decided commands only grow, and the
-- votes that are sent ascend.
pub mod Votes
pub mod Base
pub mod Handlers
pub mod Accept
pub mod Clock
