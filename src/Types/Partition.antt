-- ===== src/Types/Partition.antt =====
-- types/partition_env.go: the partition environment, through which an agent drives a distributed
-- system. `Color` has the colours and their order, `State` the data, the interface of the system
-- underneath and the environment's own state, `Actions` the actions on offer,
-- `Parts` the parts and their colours, `Handlers` the change of a partition,
-- `Step` the other handlers and `Step`, `Reset` the start, `HandlersCtx` and `StepCtx` the versions with
-- a deadline.
pub mod Color
pub mod State
pub mod Actions
pub mod Parts
pub mod Handlers
pub mod Step
pub mod Reset
pub mod HandlersCtx
pub mod StepCtx
pub mod Agreement
pub mod Committed
pub mod Delivery
pub mod Painted
pub mod Offered
pub mod Budget
pub mod Spending
pub mod Runs
pub mod Invariant
pub mod Placement
pub mod Numbering
pub mod Regrouping
pub mod Placing
pub mod Assigning
pub mod Total
pub mod Kept
pub mod Steps
