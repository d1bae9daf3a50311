-- ===== src/Policies.antt =====
-- policies/: how the next action is chosen. `RewardMachine` is the chain of predicates that guides an
-- episode, `Progress` what one step does to its position.
pub mod RewardMachine
pub mod Progress
