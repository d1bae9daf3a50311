-- ===== src/Lpaxos/Data.antt =====
-- The data of lpaxos/message.go and lpaxos/util.go. Phases start at 0 once a node is made, so they
-- are natural numbers; `Last` starts at -1, so it is an integer. A log is the list of its entries.
use raft_rl_test.Base.{ℕ, List, []}
use raft_rl_test.Base.Int.{ℤ, pos}

pub data PaxosStep : Type 0 where
  prepare ack propose promise : PaxosStep

pub record Entry : Type 0 where
  pub bytes : List ℕ

pub data MessageType : Type 0 where
  prepare_message ack_message propose_message promise_message command_message heartbeat_message
        phase_change_message :
      MessageType

pub record Message : Type 0 where
  pub type : MessageType
  pub phase : ℕ
  pub f : ℕ
  pub t : ℕ
  pub last : ℤ
  pub log : List Entry
  pub log_hash : List ℕ

-- Message{Type: t}, every other field at its zero value.
abbrev pub message : MessageType → Message
message t = record { type = t; phase = 0; f = 0; t = 0; last = pos 0; log = []; log_hash = [] }

pub record Ack : Type 0 where
  pub peer : ℕ
  pub phase : ℕ
  pub last : ℤ
  pub log : List Entry
  pub log_hash : List ℕ

pub record Promise : Type 0 where
  pub peer : ℕ
  pub phase : ℕ
  pub log : List Entry
  pub log_hash : List ℕ

-- The order of the steps within a phase: the constants of lpaxos/algo.go.
abbrev pub step_number : PaxosStep → ℕ
step_number prepare = 0
step_number ack = 1
step_number propose = 2
step_number promise = 3

-- The acknowledgement and the promise that a message carries.
abbrev pub ack_of : Message → Ack
ack_of m = record { peer = m.f; phase = m.phase; last = m.last; log = m.log; log_hash = m.log_hash }

abbrev pub promise_of : Message → Promise
promise_of m = record { peer = m.f; phase = m.phase; log = m.log; log_hash = m.log_hash }
