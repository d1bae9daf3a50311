-- ===== src/Types/Partition/Reset.antt =====
-- `NewPartitionEnv`, `reset` and `Reset` of types/partition_env.go.
use raft_rl_test.Base.{ℕ, zero, suc, List, [], ◌∷◌, ◌++◌, map}
use raft_rl_test.Base.Int.{pos}
use raft_rl_test.Base.Assoc.{GoMap, put}
use raft_rl_test.Types.Partition.Color.{Color, sort, color_less}
use raft_rl_test.Types.Partition.State.{
  Partition, SystemState, System, PartitionEnv, PartitionEnvConfig,
}
use raft_rl_test.Types.Partition.Parts.{number_part}

-- The nodes 1 to `n`.
unfoldable pub up_to : ℕ → List ℕ
up_to zero = []
up_to (suc n) = up_to n ++ suc n ∷ []

-- m[id] = f(id) for the nodes of a list.
unfoldable pub put_all : {V : Type 0} → (ℕ → V) → List ℕ → GoMap V → GoMap V
put_all f [] m = m
put_all f (n ∷ ns) m = put_all f ns (put m n (f n))

module _ {Env Replica Message Request : Type 0} (sys : System Env Replica Message Request)
    (painter : Replica → Color) where
  unfoldable pub first_partition :
      PartitionEnvConfig → SystemState Replica Message Request → Partition Replica Request
  unfolding up_to put_all number_part
  first_partition config s =
      let ids = up_to config.num_replicas in
      record {
        replica_colors = put_all (λ n. painter (s.get_replica_state n)) ids [];
        partition_map = number_part 0 ids [];
        replica_states = put_all s.get_replica_state ids [];
        partition = sort color_less (map (λ n. painter (s.get_replica_state n)) ids) ∷ [];
        repeat_count = pos 0;
        pending_requests = s.pending_requests;
        can_deliver_request = s.can_deliver_request;
        with_crashes = config.with_crashes;
        remaining_crashes = config.crash_limit;
        max_inactive = config.max_inactive;
        active_nodes = ids;
        byzantine_nodes = [];
        remaining_byzantine = config.max_byzantine;
        with_byzantine = config.with_byzantine;
      }

  abbrev pub started_with :
      PartitionEnvConfig
      → Env × SystemState Replica Message Request
      → PartitionEnv Env Replica Message Request
  started_with config (env, s) = record {
    underlying_env = env;
    cur_partition = first_partition config s;
    messages = s.pending_messages;
    config = config;
  }

  unfoldable pub new_partition_env :
      PartitionEnvConfig → Env → PartitionEnv Env Replica Message Request
  unfolding first_partition
  new_partition_env config env = started_with config (sys.reset env)

  unfoldable pub reset :
      PartitionEnv Env Replica Message Request → PartitionEnv Env Replica Message Request
  unfolding first_partition
  reset p = started_with p.config (sys.reset p.underlying_env)
