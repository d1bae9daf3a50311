-- ===== src/Rsl/Env.antt =====
-- rsl/env.go: the nodes of a cluster and the messages between them, as a system that a partition
-- environment drives. `hash` is Message.Hash, by which the pool of messages is kept, and `order` the
-- order in which Go ranges over the nodes.
pub mod Calls
pub mod Lives
pub mod Safety
pub mod Partitioned
use raft_rl_test.Base.{
  ℕ, zero, suc, ◌+◌, ◌/◌, ◌%◌, Bool, true, false, ◌||◌, List, [], ◌∷◌, ◌++◌, Option, some, none,
  map, if◌then◌else◌, ◌==◌, ltb, bytes_eq, drop,
}
use raft_rl_test.Base.Assoc.{GoMap, get, put}
use raft_rl_test.Base.Pool.{put_messages}
use raft_rl_test.Rsl.Data.{
  RslState, inactive, is_stable_primary, Command, Ballot, no_ballot, Proposal, no_proposal, Log,
  new_log, RslConfig, Message, message, MessageType, command_message, NodeConfig, accept_req,
  accept_resp, status_req, status_resp, prepare_req, prepare_resp, fetch_req, fetch_resp,
}
use raft_rl_test.Rsl.Node.{Node, new_node, start}
use raft_rl_test.Rsl.Step.{step, propose, tick, ready}
use raft_rl_test.Types.Partition.State.{SystemState, System}

pub record LocalState : Type 0 where
  pub state : RslState
  pub max_accepted_proposal : Proposal
  pub max_prepared_ballot : Ballot
  pub old_freshest_proposal : Proposal
  pub decided : ℕ
  pub peer_config : RslConfig
  pub log : Log

abbrev pub empty_local_state : LocalState
empty_local_state = record {
  state = inactive;
  max_accepted_proposal = no_proposal;
  max_prepared_ballot = no_ballot;
  old_freshest_proposal = no_proposal;
  decided = 0;
  peer_config = record { number = 0; initial_decree = 0; members = [] };
  log = new_log;
}

-- node.State()
abbrev pub local_state : Node → LocalState
local_state n = record {
  state = n.state;
  max_accepted_proposal = n.max_accepted_proposal;
  max_prepared_ballot = n.max_prepared_ballot;
  old_freshest_proposal = n.old_freshest_proposal;
  decided = n.decided;
  peer_config = n.peer_config;
  log = n.log;
}

pub record RslPartitionState : Type 0 where
  pub replica_states : GoMap LocalState
  pub messages : List Message
  pub requests : List Message

pub record RslEnvConfig : Type 0 where
  pub nodes : ℕ
  pub node_config : NodeConfig
  pub num_commands : ℕ
  pub additional_commands : List Command

-- `delivered` counts the messages given to nodes; the node's random draw is that of its number.
pub record RslEnv : Type 0 where
  pub config : RslEnvConfig
  pub nodes : GoMap Node
  pub messages : List Message
  pub cur_state : RslPartitionState
  pub delivered : ℕ

-- GetReplicaState
abbrev pub replica_state : RslPartitionState → ℕ → LocalState
replica_state s node = elim (get s.replica_states node) [ some l ↦ l | none ↦ empty_local_state ]

abbrev pub any_primary : GoMap LocalState → Bool
any_primary [] = false
any_primary (e ∷ m) = let rest = any_primary m in is_stable_primary e.1.state || rest

-- A RSLPartitionState as a PartitionedSystemState.
abbrev pub system_state : RslPartitionState → SystemState LocalState Message Message
system_state s = record {
  get_replica_state = replica_state s;
  pending_messages = s.messages;
  pending_requests = s.requests;
  can_deliver_request = any_primary s.replica_states;
}

unfoldable pub remove_node : ℕ → GoMap Node → GoMap Node
remove_node id [] = []
remove_node id (e ∷ m) = let rest = remove_node id m in if e.0 == id then rest else e ∷ rest

-- The configuration of one node.
abbrev pub config_of : RslEnv → ℕ → NodeConfig
config_of r id = record r.config.node_config { id = id }

module _ (hash : Message → List ℕ) where
  -- `Ready` of every node, its messages into the pool. HasReady only skips empty lists.
  unfoldable pub collect : GoMap Node → List Message → GoMap Node × List Message
  unfolding ready put_messages
  collect [] pool = ([], pool)
  collect (e ∷ m) pool =
      let (node, sent) = ready e.1 in
      let (rest, pool') = collect m (put_messages hash sent pool) in ((e.0, node) ∷ rest, pool')

-- A function on every node.
unfoldable pub each_node : (Node → Node) → GoMap Node → GoMap Node
each_node f [] = []
each_node f (e ∷ m) = (e.0, f e.1) ∷ each_node f m

abbrev pub states_of : GoMap Node → GoMap LocalState
states_of m = map (λ e. (e.0, local_state e.1)) m
