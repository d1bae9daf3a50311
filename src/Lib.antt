-- ===== src/Lib.antt =====
-- Reinforcement learning for the testing of consensus protocols: the two consensus nodes that the
-- repository implements itself, and parts of the testing loop around them.
--
-- The program drives a distributed system through an environment: an agent picks actions (deliver a
-- message, drop it, change a partition, stop a node), the environment applies them to the nodes and
-- shows the agent the state, and traces of such episodes are checked by monitors and predicates. The
-- nodes collect the messages that they send until the environment takes them with `Ready`, and get
-- messages and the passing of time by `Step` and `Tick`.
--
--   Rsl      rsl/algo.go, messages.go, log.go, reconfig.go, util.go: the RSL Paxos node. Rsl.Data has
--            the types, Rsl.Node the state (`Node` with its embedded `LocalState`) and the operations
--            that the handlers share, Rsl.Handlers one function per message handler, Rsl.Step the
--            dispatch (`Step`), the clock (`Tick`), `Propose` and `Ready`. Rsl.Run is a node's life:
--            `NewNode`, `Start`, then any calls. Rsl.Env is rsl/env.go: `RSLPartitionEnv`, a cluster of
--            these nodes with the messages between them. Rsl.Env.Calls has its methods and gives it as
--            the system that Types.Partition asks for; Rsl.Env.Partitioned is about the two together.
--            Rsl.Predicates is rsl/predicates.go and bugs.go: tests of the states of a cluster.
--   Lpaxos   lpaxos/algo.go, message.go, util.go: the LPaxos node. Lpaxos.Tracker is `Tracker`,
--            Lpaxos.Node the state and the shared operations (`updateToPhase`, `propose`, `promise`,
--            `decide`), Lpaxos.Step one function per case of `Step`, and `Tick`. Lpaxos.Run is a
--            node's life. Lpaxos.Env is lpaxos/rl_env.go: `LPaxosEnv`, a cluster of these nodes.
--   Types    types/trace.go, types/monitor.go and types/agent.go: the record of an episode, the state
--            machines that it is checked with, and the loop that makes it. Types.Trace.Steps is the
--            abstract view of a trace, a list of transitions.
--            Types.Partition is types/partition_env.go: the environment through which an agent splits a
--            distributed system into parts, stops and starts nodes, makes them Byzantine and sends
--            requests. Its actions are Partition.Actions, `Step` and the handlers are Partition.Step
--            and Partition.Handlers, `StepCtx` and its handlers Partition.StepCtx and HandlersCtx.
--   Policies policies/reward_machine.go: the reward machine, which follows an episode along a chain of
--            predicates.
--   Grid     grid/env.go: the grid world that policies are tried on.
--   Base     what these share: Boolean tests, lists, maps, pools of messages, Go's `int`, and the
--            relation `Ascending`.
--   Tests    runs at concrete input.
--
-- A method that changes its receiver is a function from the state to the state. A struct is a record
-- with the same fields, a string constant that names a kind is a constructor. A Go map is a list of
-- keys and values; where the code ranges over a map, the order is a parameter. Identifiers, ballots,
-- decrees and phases only grow by one and are natural numbers; where the code counts on
-- `math.MaxInt` (the deadlines of rsl) or on negative numbers (grid, `Last` in lpaxos) the number is
-- an integer, with the wrap-around of 64 bits in sums. Loops run along lists, so no fuel is needed;
-- where a loop has an index, it runs for the number of rounds that the code's bound gives.
--
-- Parameters, since their code is not part of the repository: the JSON form of a configuration
-- command, the hash of a command and the random choice among nodes (rsl), the hashes of messages
-- (the environments of rsl and lpaxos), the SHA-256 digest of a log (lpaxos), the order in which Go
-- ranges over a map, the policies that a reward machine chooses among, and for the partition
-- environment the random choices and the enumeration of partitions. An agent's environment and
-- policy, the system under a partition environment and its painter are interfaces in the code as
-- well. Strings are lists of bytes there, and sort.Sort is Go's insertion sort, which it uses up to
-- twelve elements.
--
-- Not modelled: the enumeration of partitions of a multiset (util), the visit graph, the drivers of
-- Redis Raft, Ratis and CometBFT and the wrapper of etcd's raft, which stand around third-party
-- programs; the policies with floating point tables; experiments and plots, the web interface, the
-- partition environment of lpaxos and its checks of traces.
pub mod Base
pub mod Rsl
pub mod Lpaxos
pub mod Grid
pub mod Policies
pub mod Types
mod Tests
