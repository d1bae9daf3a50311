-- ===== src/Rsl/Predicates.antt =====
-- rsl/predicates.go and rsl/bugs.go: tests of the states that a cluster of RSL nodes goes through. A
-- test of a state that is no Partition is false in Go; here all states are partitions.
pub mod Logs
pub mod Primaries
use raft_rl_test.Base.{
  ℕ, zero, suc, ◌-◌, Bool, true, false, not, ◌&&◌, ◌||◌, List, [], ◌∷◌, Option, some, none, length,
  map, get_elem?, if◌then◌else◌, ◌==◌, ltb, leb,
}
use raft_rl_test.Base.Assoc.{GoMap, has, set_of}
use raft_rl_test.Types.Partition.State.{Partition}
use raft_rl_test.Types.Partition.Actions.{distinct}
use raft_rl_test.Types.Trace.{Trace}
use raft_rl_test.Rsl.Data.{
  RslState, inactive, stable_primary, stable_secondary, initializing, preparing, is_stable_primary,
  Command, Message,
}
use raft_rl_test.Rsl.Env.{LocalState}

-- A number for each state, to compare them.
abbrev pub state_number : RslState → ℕ
state_number inactive = 0
state_number stable_primary = 1
state_number stable_secondary = 2
state_number initializing = 3
state_number preparing = 4

-- The loops that return true, or false, at the first node that passes a test.
unfoldable pub any_node : (ℕ → LocalState → Bool) → GoMap LocalState → Bool
any_node test [] = false
any_node test (e ∷ m) = let rest = any_node test m in test e.0 e.1 || rest

unfoldable pub no_node : (ℕ → LocalState → Bool) → GoMap LocalState → Bool
unfolding any_node
no_node test m = not (any_node test m)

abbrev pub accepted_ballot : LocalState → ℕ
accepted_ballot l = l.max_accepted_proposal.ballot.num

abbrev pub prepared_ballot : LocalState → ℕ
prepared_ballot l = l.max_prepared_ballot.num

-- The ballots of the nodes, each once.
unfoldable pub ballots : GoMap LocalState → List ℕ
ballots m = set_of (map (λ e. accepted_ballot e.1) m)

abbrev pub greatest : ℕ → List ℕ → ℕ
greatest b [] = b
greatest b (c ∷ cs) = greatest (if ltb b c then c else b) cs

abbrev pub least : ℕ → List ℕ → ℕ
least b [] = b
least b (c ∷ cs) = least (if ltb c b then c else b) cs

-- A state without nodes makes Go panic. A negative difference does what 0 does.
abbrev pub apart_by : ℕ → List ℕ → Option Bool
apart_by diff [] = none
apart_by diff (b ∷ bs) = some (leb diff (greatest b (b ∷ bs) - least b (b ∷ bs)))

abbrev pub one_ballot : List ℕ → Bool
one_ballot [] = false
one_ballot (b ∷ []) = not (b == 0)
one_ballot (b ∷ c ∷ bs) = false

module _ (s : Partition LocalState Message) where
  unfoldable pub decided : Bool
  unfolding any_node
  decided = any_node (λ n l. ltb 0 l.decided) s.replica_states

  unfoldable pub in_state : RslState → Bool
  unfolding any_node
  in_state state = any_node (λ n l. state_number l.state == state_number state) s.replica_states

  unfoldable pub node_primary : ℕ → Bool
  unfolding any_node
  node_primary node = any_node (λ n l. is_stable_primary l.state && n == node) s.replica_states

  unfoldable pub node_primary_in_ballot : ℕ → ℕ → Bool
  unfolding any_node
  node_primary_in_ballot node ballot =
      any_node (λ n l. is_stable_primary l.state && (n == node && accepted_ballot l == ballot))
        s.replica_states

  unfoldable pub in_state_and_ballot : RslState → ℕ → Bool
  unfolding any_node
  in_state_and_ballot state ballot =
      any_node (λ n l. state_number l.state == state_number state && accepted_ballot l == ballot)
        s.replica_states

  unfoldable pub out_sync_ballot_by : ℕ → Option Bool
  unfolding ballots
  out_sync_ballot_by diff = apart_by diff (ballots s.replica_states)

  unfoldable pub all_in_sync : Bool
  unfolding ballots
  all_in_sync = one_ballot (ballots s.replica_states)

  unfoldable pub all_at_most_ballot : ℕ → Bool
  unfolding no_node
  all_at_most_ballot most = no_node (λ n l. ltb most (accepted_ballot l)) s.replica_states

  unfoldable pub all_at_least_ballot : ℕ → Bool
  unfolding no_node
  all_at_least_ballot least = no_node (λ n l. ltb (accepted_ballot l) least) s.replica_states

  unfoldable pub node_decided : ℕ → Bool
  unfolding any_node
  node_decided node = any_node (λ n l. n == node && ltb 0 l.decided) s.replica_states

  unfoldable pub num_decided_is : ℕ → Bool
  unfolding any_node
  num_decided_is d = any_node (λ n l. l.decided == d) s.replica_states

  unfoldable pub at_most_decided : ℕ → Bool
  unfolding no_node
  at_most_decided d = no_node (λ n l. ltb d l.decided) s.replica_states

  unfoldable pub at_least_decided : ℕ → Bool
  unfolding no_node
  at_least_decided d = no_node (λ n l. ltb l.decided d) s.replica_states

  unfoldable pub node_num_decided : ℕ → ℕ → Bool
  unfolding any_node
  node_num_decided node d = any_node (λ n l. l.decided == d && node == n) s.replica_states

  unfoldable pub in_ballot : ℕ → Bool
  unfolding any_node
  in_ballot ballot = any_node (λ n l. accepted_ballot l == ballot) s.replica_states

  unfoldable pub node_in_ballot : ℕ → ℕ → Bool
  unfolding any_node
  node_in_ballot node ballot =
      any_node (λ n l. accepted_ballot l == ballot && n == node) s.replica_states

  unfoldable pub in_prepared_ballot : ℕ → Bool
  unfolding any_node
  in_prepared_ballot ballot = any_node (λ n l. prepared_ballot l == ballot) s.replica_states

  unfoldable pub node_in_prepared_ballot : ℕ → ℕ → Bool
  unfolding any_node
  node_in_prepared_ballot node ballot =
      any_node (λ n l. prepared_ballot l == ballot && n == node) s.replica_states

-- The ballots in which a primary has been seen: the loop of MultiplePrimaries over the nodes.
unfoldable pub second_primary : List ℕ → GoMap LocalState → Bool
second_primary seen [] = false
second_primary seen (e ∷ m) =
    let rest = second_primary seen m in
    let rest' = second_primary (accepted_ballot e.1 ∷ seen) m in
    if not (is_stable_primary e.1.state)
    then rest
    else if has (accepted_ballot e.1) seen
    then true
    else rest'

-- The length of the longest log of decided commands.
abbrev pub max_log_length : GoMap LocalState → ℕ
max_log_length [] = 0
max_log_length (e ∷ m) =
    let rest = max_log_length m in let n = length e.1.log.decided in if ltb rest n then n else rest

-- The first state of a trace that passes a test, from index `i` on.
unfoldable pub first_state : {S : Type 0} → (S → Bool) → ℕ → List S → Option ℕ
first_state test i [] = none
first_state test i (s ∷ ss) =
    let rest = first_state test (suc i) ss in if test s then some i else rest

module _ (hash : Command → List ℕ) where
  -- The hashes of the commands decided at an index.
  abbrev pub with_hash : Option Command → List (List ℕ) → List (List ℕ)
  with_hash none hs = hs
  with_hash (some c) hs = hash c ∷ hs

  unfoldable pub hashes_at : ℕ → GoMap LocalState → List (List ℕ)
  hashes_at j [] = []
  hashes_at j (e ∷ m) = with_hash (get_elem? e.1.log.decided j) (hashes_at j m)

  -- The loop over the indexes below `n`.
  unfoldable pub differ_below : ℕ → GoMap LocalState → Bool
  unfolding distinct hashes_at
  differ_below zero m = false
  differ_below (suc n) m =
      let rest = differ_below n m in rest || ltb 1 (length (distinct (hashes_at n m)))

  unfoldable pub inconsistent_log_state : Partition LocalState Message → Bool
  unfolding differ_below
  inconsistent_log_state s = differ_below (max_log_length s.replica_states) s.replica_states

  unfoldable pub inconsistent_logs :
      {Act : Type 0} → Trace (Partition LocalState Message) Act → Option ℕ
  unfolding first_state inconsistent_log_state
  inconsistent_logs t = first_state inconsistent_log_state 0 t.states

unfoldable pub multiple_primaries :
    {Act : Type 0} → Trace (Partition LocalState Message) Act → Option ℕ
unfolding first_state second_primary
multiple_primaries t = first_state (λ s. second_primary [] s.replica_states) 0 t.states
