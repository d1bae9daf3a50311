-- ===== src/Tests/RslCluster.antt =====
-- Three RSL nodes under the partition environment.
use raft_rl_test.Base.{ℕ, true, false, ◌≡◌, refl, List, [], ◌∷◌, Option, none, length}
use raft_rl_test.Base.Int.{pos}
use raft_rl_test.Base.Assoc.{GoMap, get, put, has}
use raft_rl_test.Base.Every.{Every}
use raft_rl_test.Types.Partition.Color.{Color, painted, hash}
use raft_rl_test.Types.Partition.State.{
  Action, keep_same_partition, stop_start, stop, start, PartitionEnvConfig, PartitionEnv, Chance,
}
use raft_rl_test.Types.Partition.Reset.{new_partition_env}
use raft_rl_test.Rsl.Data.{Command, Message, message, status_req}
use raft_rl_test.Rsl.Node.{Node}
use raft_rl_test.Rsl.Env.{LocalState, RslEnvConfig, RslEnv}
use raft_rl_test.Rsl.Env.Calls.{
  rsl_system, new_env, run_env, EnvCall, resets, ticks_all, delivers, drops, requests, stops,
  starts,
}
use raft_rl_test.Rsl.Env.Lives.{Life}
use raft_rl_test.Rsl.Env.Safety.{Ranges, Durable, with_peers, run_env-Life}
use raft_rl_test.Rsl.Env.Partitioned.{steps, steps-Durable}

-- No command is a configuration.
abbrev plain : Command → Option (List ℕ)
plain c = none

abbrev ends : Message → List ℕ
ends m = m.from ∷ m.to ∷ m.timestamp ∷ m.decree ∷ m.ballot.num ∷ []

abbrev in_order : GoMap Node → GoMap Node
in_order m = m

abbrev in_order_ranges : Ranges in_order
in_order_ranges P m h = h

abbrev always_first : ℕ → ℕ
always_first i = 0

abbrev cluster : RslEnvConfig
cluster = record {
  nodes = 3;
  node_config = record {
    id = 0;
    peers = [];
    heart_beat_interval = 2;
    no_progress_timeout = 100;
    base_election_delay = 0;
    initialize_retry_interval = 3;
    new_leader_grace_period = 5;
    vote_retry_interval = 5;
    prepare_retry_interval = 5;
    max_cached_length = 10;
    proposal_retry_interval = 5;
  };
  num_commands = 2;
  additional_commands = [];
}

abbrev some_calls : List EnvCall
some_calls =
    ticks_all
    ∷ delivers (record (message status_req) { from = 1; to = 2 } ∷ [])
    ∷ stops 2
    ∷ starts 2
    ∷ ticks_all
    ∷ []

-- Each node sends a status request to the two others.
first_messages :
    length (run_env plain ends in_order always_first (new_env cluster) (ticks_all ∷ [])).messages
    ≡ 6
unfolding run_env new_env put raft_rl_test.Rsl.Step.tick raft_rl_test.Rsl.Node.start
    raft_rl_test.Rsl.Node.new_node raft_rl_test.Rsl.Node.copies_to
first_messages = refl

run_env-Life_example :
    Every
      (Life plain (with_peers plain ends in_order always_first cluster).node_config)
      (run_env plain ends in_order always_first (new_env cluster) some_calls).nodes
run_env-Life_example =
    run_env-Life plain ends in_order always_first cluster in_order_ranges some_calls

abbrev paint_decided : LocalState → Color
paint_decided s = painted (s.decided ∷ [])

abbrev config : PartitionEnvConfig
config = record {
  ticks_between_partition = 2;
  num_replicas = 3;
  max_messages_per_tick = 5;
  stay_same_state_upto = pos 3;
  with_crashes = true;
  max_inactive = pos 1;
  crash_limit = pos 2;
  with_byzantine = false;
  max_byzantine = pos 0;
}

abbrev chance : Chance Message
chance = record { pick = 0; order = λ m. m; shuffle = λ i xs. xs }

abbrev episode : List (Chance Message × Action)
episode =
    (chance, keep_same_partition)
    ∷ (chance, stop_start (0 ∷ []) stop)
    ∷ (chance, keep_same_partition)
    ∷ (chance, stop_start [] start)
    ∷ []

abbrev begun : PartitionEnv RslEnv LocalState Message Message
begun =
    new_partition_env (rsl_system plain ends in_order always_first) paint_decided config
      (new_env cluster)

-- A stopped node is no longer part of the cluster.
two_left :
    length
      (steps plain ends in_order always_first paint_decided begun (
        (chance, keep_same_partition)
        ∷ (chance, stop_start (0 ∷ []) stop)
        ∷ [])).underlying_env.nodes
    ≡ 2
unfolding steps new_partition_env new_env raft_rl_test.Types.Partition.Step.step put get has hash
    raft_rl_test.Rsl.Env.Calls.tick_all raft_rl_test.Rsl.Step.tick raft_rl_test.Rsl.Node.start
    raft_rl_test.Rsl.Node.new_node raft_rl_test.Rsl.Node.copies_to
    raft_rl_test.Rsl.Env.Calls.deliver_message raft_rl_test.Rsl.Step.step
    raft_rl_test.Rsl.Handlers.handle_status_request raft_rl_test.Rsl.Node.send
    raft_rl_test.Types.Partition.Color.sort raft_rl_test.Rsl.Env.Calls.stop_node
two_left = refl

steps-Durable_example :
    Every
      (λ e. Durable e.1)
      (steps plain ends in_order always_first paint_decided begun episode).underlying_env.nodes
steps-Durable_example =
    steps-Durable plain ends in_order always_first cluster in_order_ranges paint_decided config
      episode

-- Reset keeps the messages of the episode before.
kept_messages :
    length
      (run_env plain ends in_order always_first
        (new_env cluster)
        (ticks_all ∷ resets ∷ [])).messages
    ≡ 6
unfolding run_env new_env put raft_rl_test.Rsl.Step.tick raft_rl_test.Rsl.Node.start
    raft_rl_test.Rsl.Node.new_node raft_rl_test.Rsl.Node.copies_to
kept_messages = refl
