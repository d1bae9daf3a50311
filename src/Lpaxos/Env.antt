-- ===== src/Lpaxos/Env.antt =====
-- lpaxos/rl_env.go: the nodes of a cluster and the messages between them, as an environment whose
-- actions deliver one message or drop all for a node. `hash` is Message.Hash, by which the pool of
-- messages is kept, `order` the order in which Go ranges over the states of the nodes; `log_hash` and
-- `ack_order` are those of the nodes.
pub mod Drops
use raft_rl_test.Base.{
  ℕ, zero, suc, Bool, true, false, not, ◌||◌, List, [], ◌∷◌, ◌++◌, Option, some, none, map, select,
  ◌==◌, if◌then◌else◌,
}
use raft_rl_test.Base.Int.{ℤ}
use raft_rl_test.Base.Assoc.{GoMap, get, put, set_of}
use raft_rl_test.Base.Pool.{itoa, one_to, put_messages, delete_message}
use raft_rl_test.Lpaxos.Data.{
  PaxosStep, Entry, MessageType, Message, message, Ack, prepare_message, ack_message,
  propose_message, promise_message, command_message, heartbeat_message, phase_change_message,
}
use raft_rl_test.Lpaxos.Node.{Node, new_node}
use raft_rl_test.Lpaxos.Step.{step, tick, ready}

pub record LNodeState : Type 0 where
  pub last : ℤ
  pub phase : ℕ
  pub leader : ℕ
  pub step : PaxosStep
  pub log : List Entry
  pub decided : ℕ

-- node.Status()
abbrev pub status : Node → LNodeState
status n = record {
  last = n.last;
  phase = n.phase;
  leader = n.leader;
  step = n.step;
  log = n.log;
  decided = n.decided;
}

pub record LPaxosState : Type 0 where
  pub node_states : GoMap LNodeState
  pub messages : List Message
  pub requests : List Message
  pub with_timeouts : Bool

-- The types "Deliver" and "Drop" of an action.
pub data LPaxosAction : Type 0 where
  deliver : Message → LPaxosAction
  drop_to : ℕ → LPaxosAction

pub record LPaxosEnvConfig : Type 0 where
  pub replicas : ℕ
  pub timeouts : Bool
  pub timeout : ℕ
  pub requests : ℕ

pub record LPaxosEnv : Type 0 where
  pub config : LPaxosEnvConfig
  pub nodes : GoMap Node
  pub messages : List Message
  pub cur_state : LPaxosState

-- The nodes that messages are for, but 0, each once.
unfoldable pub receivers : List Message → List ℕ
receivers ms = set_of (select (λ t. not (t == 0)) (map (λ m. m.t) ms))

unfoldable pub actions : LPaxosState → List LPaxosAction
unfolding receivers
actions s =
    map deliver s.messages ++ (if s.with_timeouts then map drop_to (receivers s.messages) else [])

abbrev pub is_command : MessageType → Bool
is_command command_message = true
is_command prepare_message = false
is_command ack_message = false
is_command propose_message = false
is_command promise_message = false
is_command heartbeat_message = false
is_command phase_change_message = false

-- The first node that takes itself for the leader.
unfoldable pub leader_of : GoMap LNodeState → Option ℕ
leader_of [] = none
leader_of (e ∷ m) = let rest = leader_of m in if e.1.leader == e.0 then some e.0 else rest

abbrev pub statuses : GoMap Node → GoMap LNodeState
statuses m = map (λ e. (e.0, status e.1)) m

unfoldable pub put_nodes : (ℕ → Node) → ℕ → GoMap Node → GoMap Node
put_nodes f zero m = m
put_nodes f (suc n) m = put (put_nodes f n m) (suc n) (f (suc n))

unfoldable pub make_nodes : LPaxosEnv → LPaxosEnv
unfolding one_to itoa put_nodes
make_nodes e =
    let peers = one_to (λ i. i) e.config.replicas in
    let nodes = put_nodes (λ i. new_node i peers e.config.timeout) e.config.replicas e.nodes in
    record e {
      nodes = nodes;
      cur_state = record {
        node_states = statuses nodes;
        messages = e.messages;
        requests =
            one_to
              (λ i. record (message command_message) {
                log = record { bytes = itoa (suc i) i } ∷ [];
              })
              e.config.requests;
        with_timeouts = e.config.timeouts;
      };
    }

-- NewLPaxosEnv
unfoldable pub new_env : LPaxosEnvConfig → LPaxosEnv
unfolding make_nodes
new_env c = make_nodes (record {
  config = c;
  nodes = [];
  messages = [];
  cur_state = record { node_states = []; messages = []; requests = []; with_timeouts = c.timeouts };
})

unfoldable pub reset : LPaxosEnv → LPaxosEnv
unfolding make_nodes
reset e = make_nodes (record e { messages = [] })

module _ (log_hash : List Entry → List ℕ) (ack_order : GoMap Ack → GoMap Ack)
    (hash : Message → List ℕ) (order : GoMap LNodeState → GoMap LNodeState) where
  -- e.nodes[message.T].Step(message), which panics if there is no such node.
  unfoldable pub hand_to : LPaxosEnv → Message → Option LPaxosEnv
  hand_to e m = elim (get e.nodes m.t) [
    | none ↦ none
    | some n ↦ some (record e {
      nodes = put e.nodes m.t (step log_hash ack_order n m);
      messages = delete_message hash m e.messages;
    })
  ]

  abbrev pub hand_to_leader : LPaxosEnv → Message → Option ℕ → Option LPaxosEnv
  hand_to_leader e m none = some e
  hand_to_leader e m (some leader) = hand_to e (record m { t = leader })

  -- The loops at the end of a delivery.
  unfoldable pub tick_nodes : GoMap Node → GoMap Node
  tick_nodes [] = []
  tick_nodes (e ∷ m) = (e.0, tick log_hash ack_order e.1) ∷ tick_nodes m

  unfoldable pub collect : GoMap Node → List Message → GoMap Node × List Message
  unfolding ready put_messages
  collect [] pool = ([], pool)
  collect (e ∷ m) pool =
      let (node, sent) = ready e.1 in
      let (rest, pool') = collect m (put_messages hash sent pool) in ((e.0, node) ∷ rest, pool')

  -- The new state has no requests.
  unfoldable pub finish : LPaxosEnv → LPaxosEnv
  unfolding tick_nodes collect
  finish e =
      let (nodes, pool) = collect (tick_nodes e.nodes) e.messages in
      record e {
        nodes = nodes;
        messages = pool;
        cur_state = record {
          node_states = statuses nodes;
          messages = pool;
          requests = [];
          with_timeouts = e.config.timeouts;
        };
      }

  abbrev pub finished : Option LPaxosEnv → Option LPaxosEnv
  finished none = none
  finished (some e) = some (finish e)

  -- Step, or none where it panics. A drop only changes the state that is shown.
  unfoldable pub step_env : LPaxosEnv → LPaxosAction → Option LPaxosEnv
  unfolding hand_to leader_of finish
  step_env e (deliver m) = finished (
      if is_command m.type
      then hand_to_leader e m (leader_of (order e.cur_state.node_states))
      else hand_to e m)
  step_env e (drop_to n) = some (record e {
    cur_state = record {
      node_states = e.cur_state.node_states;
      messages = select (λ m. not (m.t == n)) e.messages;
      requests = [];
      with_timeouts = e.config.timeouts;
    };
  })
