-- ===== src/Tests.antt =====
-- Runs on concrete input, and the theorems at concrete arguments.
mod RslNode
mod LpaxosNode
mod LpaxosCluster
mod GridWalk
mod Monitors
mod Machines
mod Episodes
mod Partitions
mod RslCluster
mod RslChecks
