-- ===== src/Lpaxos/Env/Drops.antt =====
-- What becomes of the messages that an action of LPaxosEnv drops.
use raft_rl_test.Base.{
  ℕ, ◌≡◌, refl, ap, true, false, not, List, [], ◌∷◌, Option, some, none, select, if-cases, ◌==◌,
  bytes_eq, arith,
}
use raft_rl_test.Base.Assoc.{GoMap, get, put}
use raft_rl_test.Base.Every.{Every}
use raft_rl_test.Base.Pool.{
  in_pool, put_messages, delete_message, in_pool-put_messages, in_pool-delete_message,
}
use raft_rl_test.Lpaxos.Data.{Entry, Message, Ack}
use raft_rl_test.Lpaxos.Node.{Node}
use raft_rl_test.Lpaxos.Step.{ready, step}
use raft_rl_test.Lpaxos.Env.{
  LNodeState, LPaxosEnv, LPaxosAction, deliver, drop_to, is_command, hand_to, tick_nodes, collect,
  finish, finished, step_env,
}

module _ (log_hash : List Entry → List ℕ) (ack_order : GoMap Ack → GoMap Ack)
    (hash : Message → List ℕ) (order : GoMap LNodeState → GoMap LNodeState) where
  -- One action after another.
  abbrev pub then_step : Option LPaxosEnv → LPaxosAction → Option LPaxosEnv
  then_step none a = none
  then_step (some e) a = step_env log_hash ack_order hash order e a

  in_pool-collect :
      (x : Message) (m : GoMap Node) (pool : List Message)
      → in_pool hash x pool ≡ true
      → in_pool hash x (collect log_hash ack_order hash order m pool).1 ≡ true
  unfolding collect
  in_pool-collect x [] pool h = h
  in_pool-collect x (e ∷ m) pool h =
      in_pool-collect x m (put_messages hash (ready e.1).1 pool)
        (in_pool-put_messages hash x (ready e.1).1 pool h)

  select-others :
      (n : ℕ) (ms : List Message)
      → Every (λ y. (y.t == n) ≡ false) (select (λ m. not (m.t == n)) ms)
  select-others n [] = tt
  select-others n (m ∷ ms) =
      if-cases (Every (λ y. (y.t == n) ≡ false)) (not (m.t == n))
        (λ e. (ground (arith, e), select-others n ms)) (λ e. select-others n ms)

  -- The state that the action returns shows no message for the node.
  pub drop_to-shows :
      (e : LPaxosEnv) (n : ℕ)
      → (d : LPaxosEnv) × (step_env log_hash ack_order hash order e (drop_to n) ≡ some d)
        × Every (λ y. (y.t == n) ≡ false) d.cur_state.messages
  unfolding step_env
  drop_to-shows e n = (_, refl, select-others n e.messages)

  -- A message that an action has dropped is back in the next state, when another message that is no
  -- command is then delivered to a node that there is.
  pub drop_to-deliver :
      (e : LPaxosEnv) (n : ℕ) (m x : Message) (node : Node)
      → is_command m.type ≡ false
      → get e.nodes m.t ≡ some node
      → bytes_eq (hash m) (hash x) ≡ false
      → in_pool hash x e.messages ≡ true
      → (e' : LPaxosEnv) × (then_step
            (step_env log_hash ack_order hash order e (drop_to n))
            (deliver m)
          ≡ some e')
        × (in_pool hash x e'.cur_state.messages ≡ true)
  unfolding step_env hand_to finish
  drop_to-deliver e n m x node c g o h =
      let d = record e {
        cur_state = record {
          node_states = e.cur_state.node_states;
          messages = select (λ m. not (m.t == n)) e.messages;
          requests = [];
          with_timeouts = e.config.timeouts;
        };
      } in
      let after = record d {
        nodes = put e.nodes m.t (step log_hash ack_order node m);
        messages = delete_message hash m e.messages;
      } in
      let there : hand_to log_hash ack_order hash order d m ≡ some after =
        ap
          (λ o. elim o as (λ o. Option LPaxosEnv) [
            | none ↦ none
            | some k ↦ some (record d {
              nodes = put e.nodes m.t (step log_hash ack_order k m);
              messages = delete_message hash m e.messages;
            })
          ])
          g in
      (
        finish log_hash ack_order hash order after,
        rw c (ap (finished log_hash ack_order hash order) there),
        in_pool-collect x (tick_nodes log_hash ack_order hash order after.nodes)
            (delete_message hash m e.messages) (in_pool-delete_message hash x m e.messages o h),
      )
