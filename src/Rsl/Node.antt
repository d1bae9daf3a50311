-- ===== src/Rsl/Node.antt =====
-- The state of rsl/algo.go's Node (the fields of the embedded LocalState among its own) and the
-- operations that the handlers share.
use raft_rl_test.Base.{
  ℕ, ◌+◌, Bool, false, not, List, [], ◌∷◌, ◌++◌, Option, some, none, if◌then◌else◌, ◌==◌, ltb, leb,
}
use raft_rl_test.Base.Int.{ℤ, pos, max_int, add_int, max_ℤ}
use raft_rl_test.Base.Assoc.{set_of}
use raft_rl_test.Rsl.Data.{
  RslState, inactive, stable_primary, stable_secondary, initializing, preparing, is_initializing,
  is_preparing, Command, Ballot, Proposal, no_proposal, no_ballot, promise_entry, accepted_entry,
  Log, new_log, log_add, add_decided, num_decided, RslConfig, quorum_size, RemoteState, Message,
  message, status_req, prepare_req, fetch_req, NodeConfig, initial_config,
}

pub record Node : Type 0 where
  pub id : ℕ
  pub state : RslState
  pub max_accepted_proposal : Proposal
  pub max_prepared_ballot : Ballot
  pub old_freshest_proposal : Proposal
  pub decided : ℕ
  pub peer_config : RslConfig
  pub log : Log
  pub config : NodeConfig
  pub command_q : List Command
  pub proposal_q : List Proposal
  pub ready_to_propose : Bool
  pub action_timeout : ℤ
  pub no_progress_time : ℤ
  pub next_election_time : ℤ
  pub last_chosen_time : ℕ
  pub ticks : ℕ
  pub remote_states : List (ℕ × RemoteState)
  pub learning_from : ℕ
  pub pending_messages_to_send : List Message

unfoldable pub new_node : NodeConfig → Node
unfolding initial_config
new_node c = record {
  id = c.id;
  state = inactive;
  max_accepted_proposal = no_proposal;
  max_prepared_ballot = no_ballot;
  old_freshest_proposal = no_proposal;
  decided = 0;
  peer_config = initial_config c;
  log = new_log;
  config = c;
  command_q = [];
  proposal_q = [];
  ready_to_propose = false;
  action_timeout = pos max_int;
  no_progress_time = pos max_int;
  next_election_time = pos max_int;
  last_chosen_time = 0;
  ticks = 0;
  remote_states = [];
  learning_from = 0;
  pending_messages_to_send = [];
}

-- The copies of a message for every peer but the sender.
unfoldable pub copies_to : ℕ → Message → List ℕ → List Message
copies_to id m [] = []
copies_to id m (p ∷ ps) =
    let rest = copies_to id m ps in if p == id then rest else record m { from = id; to = p } ∷ rest

unfoldable pub broadcast : Node → Message → Node
broadcast n m = record n {
  pending_messages_to_send = n.pending_messages_to_send ++ copies_to n.id m n.config.peers;
}

unfoldable pub send : Node → Message → Node
send n m = record n {
  pending_messages_to_send = n.pending_messages_to_send ++ record m { from = n.id } ∷ [];
}

unfoldable pub is_majority : Node → ℕ → Bool
unfolding quorum_size
is_majority n count = leb (quorum_size n.peer_config) count

unfoldable pub initialize : Node → Node
unfolding broadcast
initialize n =
    let n' =
      broadcast (record n { state = initializing; remote_states = [] }) (message status_req) in
    record n' { action_timeout = add_int (pos n.ticks) n.config.initialize_retry_interval }

unfoldable pub set_timers : Node → Node
set_timers n = record n {
  action_timeout = pos max_int;
  next_election_time = pos max_int;
  last_chosen_time = 0;
  no_progress_time = pos n.config.no_progress_timeout;
}

unfoldable pub start : Node → Node
unfolding initialize set_timers
start n = initialize (set_timers n)

unfoldable pub learn_votes : Node → ℕ → Node
unfolding send
learn_votes n to_learn_from =
    let n' = send n (record (message fetch_req) {
      to = to_learn_from;
      decree = n.max_accepted_proposal.decree;
      ballot = n.max_accepted_proposal.ballot;
    }) in
    record n' { learning_from = to_learn_from }

unfoldable pub log_proposal : Node → Proposal → Node
unfolding log_add
log_proposal n p =
    let n' = record n {
      log = log_add n.log (accepted_entry p);
      max_accepted_proposal = p;
      last_chosen_time = n.ticks;
      no_progress_time = add_int (pos n.ticks) n.config.no_progress_timeout;
    } in
    if ltb n.max_prepared_ballot.num p.ballot.num
    then record n' {
      max_prepared_ballot = p.ballot;
      next_election_time =
          add_int (max_ℤ n.next_election_time (pos n.ticks)) n.config.new_leader_grace_period;
    }
    else n'

unfoldable pub stabilize : Node → Bool → Node
stabilize n as_primary =
    let n' = record n {
      state = if as_primary then stable_primary else stable_secondary;
      remote_states = [];
    } in
    if n.max_prepared_ballot.node == n.id
    then if not (is_preparing n.state)
      then n'
      else record n' { action_timeout = add_int (pos n.ticks) n.config.vote_retry_interval }
    else record n' { action_timeout = pos max_int }

-- The first part of `prepare`, which takes the node out of the initializing state.
unfoldable pub begin_ballot : Node → Node
unfolding log_add
begin_ballot n =
    let ballot : Ballot = record { num = n.max_prepared_ballot.num + 1; node = n.id } in
    record n {
      state = preparing;
      max_prepared_ballot = ballot;
      log = log_add n.log (promise_entry ballot);
      next_election_time = add_int (pos n.ticks) n.config.new_leader_grace_period;
    }

-- The second part: ask every peer to prepare.
unfoldable pub ask_to_prepare : Node → Node
unfolding broadcast
ask_to_prepare n =
    let n' =
      broadcast (record n { old_freshest_proposal = n.max_accepted_proposal; remote_states = [] })
        (record (message prepare_req) {
          decree = n.max_accepted_proposal.decree;
          ballot = n.max_prepared_ballot;
        }) in
    record n' { action_timeout = add_int (pos n.ticks) n.config.prepare_retry_interval }

unfoldable pub prepare : Node → Node
unfolding begin_ballot ask_to_prepare
prepare n =
    if is_initializing n.state
    then ask_to_prepare (begin_ballot n)
    else if not (is_preparing n.state)
    then n
    else ask_to_prepare n

-- `decode_config` is json.Unmarshal into an RSLConfigCommand: the members, or none on an error.
module _ (decode_config : Command → Option (List ℕ)) where
  unfoldable pub add_to_execution_queue : Node → Proposal → Node
  unfolding add_decided num_decided
  add_to_execution_queue n p =
      let log = add_decided n.log p.command in
      let n' = record n { log = log; decided = num_decided log } in
      elim (decode_config p.command) [
        | none ↦ n'
        | some members ↦ record n' {
          peer_config = record {
            number = n.peer_config.number + 1;
            initial_decree = p.decree;
            members = set_of members;
          };
        }
      ]

  -- Executes the proposal accepted last and puts the next election off: what every handler does
  -- that moves on to the next decree.
  unfoldable pub advance : Node → Node
  unfolding add_to_execution_queue
  advance n =
      let n' = add_to_execution_queue n n.max_accepted_proposal in
      record n' { next_election_time = add_int (pos n.ticks) n.config.base_election_delay }

  -- The same if `decree` is the next one.
  unfoldable pub advance_to : Node → ℕ → Node
  advance_to n decree = if decree == n.max_accepted_proposal.decree + 1 then advance n else n
