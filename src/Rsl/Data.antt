-- ===== src/Rsl/Data.antt =====
-- The data of rsl/algo.go, rsl/messages.go, rsl/log.go and rsl/reconfig.go. Ballot numbers, decrees
-- and ticks start at 0 and grow by one at a time, so they are natural numbers; deadlines, which
-- start at math.MaxInt, are 64-bit integers. `Copy` methods return an equal value and have no
-- counterpart here.
use raft_rl_test.Base.{ℕ, ◌+◌, ◌/◌, Bool, true, false, List, [], ◌∷◌, ◌++◌, length}
use raft_rl_test.Base.Assoc.{set_of}

pub data RslState : Type 0 where
  inactive stable_primary stable_secondary initializing preparing : RslState

-- n.State == s, for the states that the code tests.
abbrev pub is_initializing : RslState → Bool
is_initializing initializing = true
is_initializing _ = false

abbrev pub is_preparing : RslState → Bool
is_preparing preparing = true
is_preparing _ = false

abbrev pub is_stable_primary : RslState → Bool
is_stable_primary stable_primary = true
is_stable_primary _ = false

abbrev pub is_stable : RslState → Bool
is_stable stable_primary = true
is_stable stable_secondary = true
is_stable _ = false

abbrev pub is_inactive : RslState → Bool
is_inactive inactive = true
is_inactive _ = false

pub record Command : Type 0 where
  pub bytes : List ℕ

pub record Ballot : Type 0 where
  pub num : ℕ
  pub node : ℕ

pub record Proposal : Type 0 where
  pub ballot : Ballot
  pub decree : ℕ
  pub command : Command

pub record Entry : Type 0 where
  pub accepted : Bool
  pub ballot : Ballot
  pub decree : ℕ
  pub command : Command

-- The zero values of Go.
abbrev pub no_command : Command
no_command = record { bytes = [] }

abbrev pub no_ballot : Ballot
no_ballot = record { num = 0; node = 0 }

abbrev pub no_proposal : Proposal
no_proposal = record { ballot = no_ballot; decree = 0; command = no_command }

-- Entry{Ballot: b}: a promise, written to the log before it is given.
abbrev pub promise_entry : Ballot → Entry
promise_entry b = record { accepted = false; ballot = b; decree = 0; command = no_command }

abbrev pub accepted_entry : Proposal → Entry
accepted_entry p = record {
  accepted = true;
  ballot = p.ballot;
  decree = p.decree;
  command = p.command;
}

pub record Log : Type 0 where
  pub entries : List Entry
  pub decided : List Command

abbrev pub new_log : Log
new_log = record { entries = []; decided = [] }

unfoldable pub log_add : Log → Entry → Log
log_add l e = record l { entries = l.entries ++ e ∷ [] }

unfoldable pub add_decided : Log → Command → Log
add_decided l c = record l { decided = l.decided ++ c ∷ [] }

unfoldable pub num_decided : Log → ℕ
num_decided l = length l.decided

-- `members` holds the keys of the map, each once.
pub record RslConfig : Type 0 where
  pub number : ℕ
  pub initial_decree : ℕ
  pub members : List ℕ

unfoldable pub quorum_size : RslConfig → ℕ
quorum_size c = length c.members / 2 + 1

pub record RemoteState : Type 0 where
  pub node : ℕ
  pub max_ballot : Ballot
  pub max_chosen : ℕ
  pub last_chosen_time : ℕ

pub data MessageType : Type 0 where
  accept_req accept_resp status_req status_resp prepare_req prepare_resp fetch_req fetch_resp
        command_message :
      MessageType

pub record Message : Type 0 where
  pub from : ℕ
  pub to : ℕ
  pub type : MessageType
  pub ballot : Ballot
  pub decree : ℕ
  pub command : Command
  pub proposal_ballot : Ballot
  pub timestamp : ℕ
  pub accept : Bool
  pub proposals : List Proposal

-- Message{Type: t}, every other field at its zero value.
abbrev pub message : MessageType → Message
message t = record {
  from = 0;
  to = 0;
  type = t;
  ballot = no_ballot;
  decree = 0;
  command = no_command;
  proposal_ballot = no_ballot;
  timestamp = 0;
  accept = false;
  proposals = [];
}

-- The timeouts are durations in ticks, so they are not negative.
pub record NodeConfig : Type 0 where
  pub id : ℕ
  pub peers : List ℕ
  pub heart_beat_interval : ℕ
  pub no_progress_timeout : ℕ
  pub base_election_delay : ℕ
  pub initialize_retry_interval : ℕ
  pub new_leader_grace_period : ℕ
  pub vote_retry_interval : ℕ
  pub prepare_retry_interval : ℕ
  pub max_cached_length : ℕ
  pub proposal_retry_interval : ℕ

-- The membership of NewNode: every configured peer.
unfoldable pub initial_config : NodeConfig → RslConfig
initial_config c = record { number = 0; initial_decree = 0; members = set_of c.peers }
