-- ===== src/Types/Partition/State.antt =====
-- The data of types/partition_env.go: the state and the actions that the agent sees, the interface
-- of the system underneath and the state of the environment. Sets of nodes are lists of keys.
use raft_rl_test.Base.{ℕ, Bool, List, Option}
use raft_rl_test.Base.Int.{ℤ}
use raft_rl_test.Base.Assoc.{GoMap}
use raft_rl_test.Types.Partition.Color.{Color}

pub record Partition (Replica Request : Type 0) : Type 0 where
  pub replica_colors : GoMap Color
  pub partition_map : GoMap ℕ
  pub replica_states : GoMap Replica
  pub partition : List (List Color)
  pub repeat_count : ℤ
  pub pending_requests : List Request
  pub can_deliver_request : Bool
  pub with_crashes : Bool
  pub remaining_crashes : ℤ
  pub max_inactive : ℤ
  pub active_nodes : List ℕ
  pub byzantine_nodes : List ℕ
  pub remaining_byzantine : ℤ
  pub with_byzantine : Bool

-- The strings "Stop" and "Start" of a StopStartAction.
pub data StopOrStart : Type 0 where
  stop start : StopOrStart

-- The types of actions. A colour that an action names is its hash.
pub data Action : Type 0 where
  create_partition : List (List Color) → Action
  keep_same_partition : Action
  stop_start : List ℕ → StopOrStart → Action
  send_request : Action
  byzantine : List ℕ → Action

-- What the environment asks of a PartitionedSystemState. The pending messages are a map in Go, whose
-- keys the environment does not use.
pub record SystemState (Replica Message Request : Type 0) : Type 0 where
  pub get_replica_state : ℕ → Replica
  pub pending_messages : List Message
  pub pending_requests : List Request
  pub can_deliver_request : Bool

-- The methods of a PartitionedSystemEnvironment, of its messages, and of a ByzantineEnvironment if
-- it is one.
pub record System (Env Replica Message Request : Type 0) : Type 0 where
  pub reset : Env → Env × SystemState Replica Message Request
  pub tick : Env → Env × SystemState Replica Message Request
  pub deliver_messages : Env → List Message → Env × SystemState Replica Message Request
  pub drop_messages : Env → List Message → Env × SystemState Replica Message Request
  pub receive_request : Env → Request → Env × SystemState Replica Message Request
  pub stop_node : Env → ℕ → Env
  pub start_node : Env → ℕ → Env
  pub become_byzantine : Option (Env → ℕ → Env)
  pub from_node : Message → ℕ
  pub to_node : Message → ℕ

-- Negative numbers of ticks, replicas or messages do what 0 does.
pub record PartitionEnvConfig : Type 0 where
  pub ticks_between_partition : ℕ
  pub num_replicas : ℕ
  pub max_messages_per_tick : ℕ
  pub stay_same_state_upto : ℤ
  pub with_crashes : Bool
  pub max_inactive : ℤ
  pub crash_limit : ℤ
  pub with_byzantine : Bool
  pub max_byzantine : ℤ

-- The times that the environment takes for statistics are left out.
pub record PartitionEnv (Env Replica Message Request : Type 0) : Type 0 where
  pub underlying_env : Env
  pub cur_partition : Partition Replica Request
  pub messages : List Message
  pub config : PartitionEnvConfig

-- What is left to chance in one step: the node that rand.Intn picks, the order in which Go ranges over
-- the colours, and the order that rand.Shuffle gives the messages of each tick.
pub record Chance (Message : Type 0) : Type 0 where
  pub pick : ℕ
  pub order : GoMap Color → GoMap Color
  pub shuffle : ℕ → List Message → List Message

pub data Error : Type 0 where
  timed_out invalid_action underlying : Error

-- A call returns, returns an error, or panics.
pub data Outcome (A : Type 0) : Type 0 where
  returns : A → Outcome A
  fails : Error → Outcome A
  panics : Outcome A
