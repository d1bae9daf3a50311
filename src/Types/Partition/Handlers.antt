-- ===== src/Types/Partition/Handlers.antt =====
-- The handlers of types/partition_env.go, `reset` and `Step`. Copies of a partition are equal to it
-- and have no counterpart.
use raft_rl_test.Base.{
  ℕ, zero, suc, ◌%◌, Bool, true, false, not, ◌&&◌, List, [], ◌∷◌, Option, some, none, length,
  if◌then◌else◌, ◌==◌, map, select, take, get_elem?,
}
use raft_rl_test.Base.Int.{ℤ}
use raft_rl_test.Base.Assoc.{GoMap, get, has}
use raft_rl_test.Types.Partition.Color.{Color, is_same_partition}
use raft_rl_test.Types.Partition.State.{
  Partition, Action, create_partition, keep_same_partition, stop_start, send_request, byzantine,
  SystemState, System, PartitionEnv, PartitionEnvConfig, Chance, Outcome, returns, panics,
}
use raft_rl_test.Types.Partition.Parts.{
  place_all, empty_parts, number_parts, assign_parts, paint_parts, sorted_parts, repeats,
  recolor_to,
}

-- delete(active, node)
unfoldable pub remove : ℕ → List ℕ → List ℕ
remove k [] = []
remove k (j ∷ s) = let rest = remove k s in if j == k then rest else j ∷ rest

-- The nodes of a map whose entry passes a test.
abbrev pub nodes_where : {V : Type 0} → (ℕ × V → Bool) → GoMap V → List ℕ
nodes_where test m = map (λ e. e.0) (select test m)

-- nodes[rand.Intn(len(nodes))], if there are any.
abbrev pub pick_node : ℕ → List ℕ → Option ℕ
pick_node r [] = none
pick_node r (n ∷ ns) = get_elem? (n ∷ ns) (r % length (n ∷ ns))

abbrev pub is_nonempty : List ℕ → Bool
is_nonempty [] = false
is_nonempty (n ∷ ns) = true

-- Whether two nodes are in one part, or one of them in none.
abbrev pub together : Option ℕ → Option ℕ → Bool
together none _ = true
together (some i) none = true
together (some i) (some j) = i == j

module _ {Env Replica Message Request : Type 0} (sys : System Env Replica Message Request)
    (painter : Replica → Color) where
  -- What the end of each handler takes over from the system's state.
  abbrev pub with_requests :
      Partition Replica Request → SystemState Replica Message Request → Partition Replica Request
  with_requests p s = record p {
    pending_requests = s.pending_requests;
    can_deliver_request = s.can_deliver_request;
  }

  -- The end of handlePartition and handleStartStop: the new parts, sorted, and the repeat count.
  abbrev pub settle :
      PartitionEnvConfig
      → List (List Color)
      → ℤ
      → Partition Replica Request
      → Option (List (List Color))
      → Outcome (Partition Replica Request)
  settle config old count p none = panics
  settle config old count p (some ps) = returns (record p {
    partition = sorted_parts ps;
    repeat_count =
        repeats count config.stay_same_state_upto (is_same_partition (sorted_parts ps) old);
  })

  -- A message may pass to a running node unless the partition separates the two nodes.
  abbrev pub may_pass : GoMap ℕ → List ℕ → Message → Bool
  may_pass m active x =
      together (get m (sys.from_node x)) (get m (sys.to_node x)) && has (sys.to_node x) active

  abbrev pub deliver_some : List Message → Env → Env
  deliver_some [] env = env
  deliver_some (x ∷ xs) env = (sys.deliver_messages env (x ∷ xs)).0

  abbrev pub drop_some : List Message → Env → Env
  drop_some [] env = env
  drop_some (x ∷ xs) env = (sys.drop_messages env (x ∷ xs)).0

  -- The messages of one tick: the first of them in a random order, delivered or dropped.
  unfoldable pub pass_messages :
      PartitionEnvConfig
      → GoMap ℕ
      → List ℕ
      → (List Message → List Message)
      → List Message
      → Env
      → Env
  pass_messages config m active shuffle messages env =
      let chosen = take config.max_messages_per_tick (shuffle messages) in
      let to_deliver = select (may_pass m active) chosen in
      let to_drop = select (λ x. not (may_pass m active x)) chosen in
      if length messages == 0 then env else drop_some to_drop (deliver_some to_deliver env)

  -- The messages in transit: those kept from the last action until a tick has passed.
  abbrev pub waiting :
      PartitionEnv Env Replica Message Request
      → Option (SystemState Replica Message Request)
      → List Message
  waiting p none = p.messages
  waiting p (some s) = s.pending_messages

  -- The loop of handlePartition over the ticks. `s` is the state after the tick before, if any.
  unfoldable pub ticks :
      Chance Message
      → GoMap ℕ
      → List ℕ
      → ℕ
      → ℕ
      → PartitionEnv Env Replica Message Request
      → Option (SystemState Replica Message Request)
      → PartitionEnv Env Replica Message Request × Option (SystemState Replica Message Request)
  unfolding pass_messages
  ticks c m active i zero p s = (p, s)
  ticks c m active i (suc n) p s =
      let messages = waiting p s in
      let env = pass_messages p.config m active (c.shuffle i) messages p.underlying_env in
      let (env', s') = sys.tick env in
      ticks c m active (suc i) n (record p { underlying_env = env' }) (some s')

  -- The first part of handlePartition: the nodes of each part and the map of their numbers.
  abbrev pub keep_parts : Partition Replica Request → Option (List (List ℕ) × GoMap ℕ)
  keep_parts p = elim (place_all (some (empty_parts p.partition)) p.partition_map) [
    | none ↦ none
    | some parts ↦ some (parts, p.partition_map)
  ]

  abbrev pub change_parts :
      Chance Message
      → Partition Replica Request
      → List (List Color)
      → Option (List (List ℕ) × GoMap ℕ)
  change_parts c p new = elim (assign_parts new (c.order p.replica_colors)) [
    | none ↦ none
    | some parts ↦ some (parts, number_parts 0 parts [])
  ]

  -- The part after the ticks; without a tick there is no state to read, and Go panics.
  abbrev pub after_ticks :
      List (List ℕ)
      → GoMap ℕ
      → PartitionEnv Env Replica Message Request × Option (SystemState Replica Message Request)
      → PartitionEnv Env Replica Message Request × Outcome (Partition Replica Request)
  after_ticks parts m (p, none) = (p, panics)
  after_ticks parts m (p, some s) =
      let old = p.cur_partition in
      let next = recolor_to painter s old.active_nodes p.config.num_replicas old in
      (
        record p { messages = s.pending_messages },
        settle p.config old.partition old.repeat_count
            (with_requests (record next { partition_map = m }) s)
            (paint_parts next.replica_colors parts),
      )

  abbrev pub run_parts :
      Chance Message
      → PartitionEnv Env Replica Message Request
      → Option (List (List ℕ) × GoMap ℕ)
      → PartitionEnv Env Replica Message Request × Outcome (Partition Replica Request)
  run_parts c p none = (p, panics)
  run_parts c p (some (parts, m)) =
      after_ticks parts m
        (ticks c m p.cur_partition.active_nodes 0 p.config.ticks_between_partition p none)

  unfoldable pub handle_partition :
      Chance Message
      → PartitionEnv Env Replica Message Request
      → Action
      → PartitionEnv Env Replica Message Request × Outcome (Partition Replica Request)
  unfolding ticks place_all number_parts assign_parts
  handle_partition c p (create_partition new) = run_parts c p (change_parts c p.cur_partition new)
  handle_partition c p keep_same_partition = run_parts c p (keep_parts p.cur_partition)
  handle_partition c p (stop_start _ _) = (p, returns p.cur_partition)
  handle_partition c p send_request = (p, returns p.cur_partition)
  handle_partition c p (byzantine _) = (p, returns p.cur_partition)
