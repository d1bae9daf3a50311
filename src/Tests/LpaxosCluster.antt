-- ===== src/Tests/LpaxosCluster.antt =====
-- Three LPaxos nodes under the actions of an agent.
use raft_rl_test.Base.{ℕ, ◌≡◌, refl, true, List, [], ◌∷◌, some}
use raft_rl_test.Base.Assoc.{GoMap, get, put}
use raft_rl_test.Base.Pool.{in_pool}
use raft_rl_test.Lpaxos.Data.{Entry, Message, message, Ack, heartbeat_message}
use raft_rl_test.Lpaxos.Node.{new_node}
use raft_rl_test.Lpaxos.Env.{
  LNodeState, LPaxosEnvConfig, LPaxosEnv, deliver, drop_to, new_env, step_env,
}
use raft_rl_test.Lpaxos.Env.Drops.{then_step, drop_to-deliver}

abbrev log_bytes : List Entry → List ℕ
log_bytes log = []

abbrev as_tracked : GoMap Ack → GoMap Ack
as_tracked m = m

abbrev ends : Message → List ℕ
ends m = m.f ∷ m.t ∷ m.phase ∷ []

abbrev as_listed : GoMap LNodeState → GoMap LNodeState
as_listed m = m

abbrev config : LPaxosEnvConfig
config = record { replicas = 3; timeouts = true; timeout = 5; requests = 1 }

-- A heartbeat for node 2, and one for node 3.
abbrev to_two : Message
to_two = record (message heartbeat_message) { f = 1; t = 2 }

abbrev to_three : Message
to_three = record (message heartbeat_message) { f = 1; t = 3 }

abbrev begun : LPaxosEnv
begun = record (new_env config) { messages = to_two ∷ to_three ∷ [] }

-- The dropped message for node 2 is back after the delivery to node 3.
drop_to-deliver_example :
    (e' : LPaxosEnv) × (then_step log_bytes as_tracked ends as_listed
        (step_env log_bytes as_tracked ends as_listed begun (drop_to 2))
        (deliver to_three)
      ≡ some e')
    × (in_pool ends to_two e'.cur_state.messages ≡ true)
unfolding new_env put get in_pool
drop_to-deliver_example =
    drop_to-deliver log_bytes as_tracked ends as_listed begun 2 to_three to_two
      (new_node 3 (1 ∷ 2 ∷ 3 ∷ []) 5) refl refl refl refl
