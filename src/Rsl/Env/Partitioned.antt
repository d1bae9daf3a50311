-- ===== src/Rsl/Env/Partitioned.antt =====
-- A cluster of RSL nodes under a partition environment.
use raft_rl_test.Base.{ℕ, List, [], ◌∷◌, Option}
use raft_rl_test.Base.Assoc.{GoMap}
use raft_rl_test.Base.Every.{Every, Every-weaken}
use raft_rl_test.Types.Partition.Color.{Color}
use raft_rl_test.Types.Partition.State.{Action, PartitionEnv, PartitionEnvConfig, Chance}
use raft_rl_test.Types.Partition.Reset.{new_partition_env}
use raft_rl_test.Types.Partition.Step.{step}
use raft_rl_test.Types.Partition.Invariant.{IsInvariant, step-keeps}
use raft_rl_test.Rsl.Data.{Command, Message}
use raft_rl_test.Rsl.Node.{Node}
use raft_rl_test.Rsl.Env.{LocalState, RslEnvConfig, RslEnv}
use raft_rl_test.Rsl.Env.Calls.{
  rsl_system, new_env, perform_env, resets, ticks_all, delivers, drops, requests, stops, starts,
}
use raft_rl_test.Rsl.Env.Lives.{Life}
use raft_rl_test.Rsl.Env.Safety.{
  IsLived, Ranges, Durable, Life-Durable, perform_env-IsLived, new_env-IsLived, with_peers,
}

module _ (decode_config : Command → Option (List ℕ)) (hash : Message → List ℕ)
    (order : GoMap Node → GoMap Node) (draw : ℕ → ℕ) (painter : LocalState → Color) where
  -- The steps of an episode, one after another; a step that panics leaves what it has done so far.
  unfoldable pub steps :
      PartitionEnv RslEnv LocalState Message Message
      → List (Chance Message × Action)
      → PartitionEnv RslEnv LocalState Message Message
  steps p [] = p
  steps p (x ∷ xs) = steps (step (rsl_system decode_config hash order draw) painter x.0 p x.1).0 xs

module _ (decode_config : Command → Option (List ℕ)) (hash : Message → List ℕ)
    (order : GoMap Node → GoMap Node) (draw : ℕ → ℕ) (c : RslEnvConfig)
    (ranges : Ranges order) where
  IsLived-IsInvariant :
      IsInvariant
        (rsl_system decode_config hash order draw)
        (IsLived decode_config hash order draw c)
  unfolding perform_env
  IsLived-IsInvariant =
      let keep = perform_env-IsLived decode_config hash order draw c ranges in
      record {
        reset_keeps = λ r. keep r resets;
        tick_keeps = λ r. keep r ticks_all;
        deliver_keeps = λ r ms. keep r (delivers ms);
        drop_keeps = λ r ms. keep r (drops ms);
        request_keeps = λ r m. keep r (requests m);
        stop_keeps = λ r id. keep r (stops id);
        start_keeps = λ r id. keep r (starts id);
        become_keeps = λ become e. absurd (cc);
      }

  steps-IsLived :
      (painter : LocalState → Color) (p : PartitionEnv RslEnv LocalState Message Message)
      (xs : List (Chance Message × Action))
      → IsLived decode_config hash order draw c p.underlying_env
      → IsLived decode_config hash order draw c
          (steps decode_config hash order draw painter p xs).underlying_env
  unfolding steps
  steps-IsLived painter p [] h = h
  steps-IsLived painter p (x ∷ xs) h =
      let sys = rsl_system decode_config hash order draw in
      steps-IsLived painter (step sys painter x.0 p x.1).0 xs (
        step-keeps sys painter (IsLived decode_config hash order draw c) IsLived-IsInvariant x.0 p
          x.1 h)

  -- However a partition environment drives a cluster of RSL nodes (partitions, lost messages, stops and
  -- starts, requests), the log of each node replays to its state: the last accepted entry is the
  -- proposal that it holds and the
  -- first ballot in the log with the highest number the one it has promised, its node included;
  -- `Decided` counts the commands executed, and the number of the proposal's ballot is not above
  -- that of the promise. (If ranging over the map of nodes meets only its entries.)
  pub steps-Durable :
      (painter : LocalState → Color) (config : PartitionEnvConfig)
      (xs : List (Chance Message × Action))
      → let p =
          new_partition_env (rsl_system decode_config hash order draw) painter config (new_env c) in
        Every
          (λ e. Durable e.1)
          (steps decode_config hash order draw painter p xs).underlying_env.nodes
  unfolding new_partition_env perform_env
  steps-Durable painter config xs =
      let sys = rsl_system decode_config hash order draw in
      let p = new_partition_env sys painter config (new_env c) in
      let first =
        perform_env-IsLived decode_config hash order draw c ranges (new_env c) resets
          (new_env-IsLived decode_config hash order draw c) in
      let last = steps decode_config hash order draw painter p xs in
      Every-weaken (Life decode_config (with_peers decode_config hash order draw c).node_config)
        (λ e. Durable e.1) (Life-Durable decode_config hash order draw c) last.underlying_env.nodes
        (steps-IsLived painter p xs first).lives
