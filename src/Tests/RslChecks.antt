-- ===== src/Tests/RslChecks.antt =====
-- States of two RSL nodes that the bug predicates tell apart.
use raft_rl_test.Base.{ℕ, ◌≡◌, ◌↔◌, refl, true, false, List, [], ◌∷◌, some, none}
use raft_rl_test.Base.Int.{pos}
use raft_rl_test.Base.Assoc.{GoMap, has, set_of}
use raft_rl_test.Base.Every.{Every}
use raft_rl_test.Types.Partition.State.{Partition}
use raft_rl_test.Types.Trace.{Trace}
use raft_rl_test.Rsl.Data.{Command, Message, RslState, stable_primary, stable_secondary}
use raft_rl_test.Rsl.Env.{LocalState, empty_local_state}
use raft_rl_test.Rsl.Predicates.{
  inconsistent_log_state, multiple_primaries, out_sync_ballot_by, all_in_sync,
}
use raft_rl_test.Rsl.Predicates.Logs.{Consistent, inconsistent_log_state-Consistent}
use raft_rl_test.Rsl.Predicates.Primaries.{OnePrimary, multiple_primaries-OnePrimary}

abbrev bytes_of : Command → List ℕ
bytes_of c = c.bytes

abbrev node_with : RslState → ℕ → LocalState
node_with state command = record empty_local_state {
  state = state;
  decided = 1;
  log = record { entries = []; decided = record { bytes = command ∷ [] } ∷ [] };
}

abbrev state_of : GoMap LocalState → Partition LocalState Message
state_of m = record {
  replica_colors = [];
  partition_map = [];
  replica_states = m;
  partition = [];
  repeat_count = pos 0;
  pending_requests = [];
  can_deliver_request = false;
  with_crashes = false;
  remaining_crashes = pos 0;
  max_inactive = pos 0;
  active_nodes = 1 ∷ 2 ∷ [];
  byzantine_nodes = [];
  remaining_byzantine = pos 0;
  with_byzantine = false;
}

-- Both nodes are primaries, and they have decided different commands.
abbrev diverged : Partition LocalState Message
diverged = state_of ((1, node_with stable_primary 7) ∷ (2, node_with stable_primary 8) ∷ [])

abbrev agreed : Partition LocalState Message
agreed = state_of ((1, node_with stable_primary 7) ∷ (2, node_with stable_secondary 7) ∷ [])

diverged_found : inconsistent_log_state bytes_of diverged ≡ true
unfolding inconsistent_log_state
diverged_found = refl

agreed_passes : inconsistent_log_state bytes_of agreed ≡ false
unfolding inconsistent_log_state
agreed_passes = refl

abbrev episode : Trace (Partition LocalState Message) ℕ
episode = record {
  states = agreed ∷ diverged ∷ [];
  actions = 0 ∷ 0 ∷ [];
  next_states = diverged ∷ diverged ∷ [];
  rewards = false ∷ false ∷ [];
}

second_state : multiple_primaries episode ≡ some 1
unfolding multiple_primaries has
second_state = refl

nothing_in_sync : all_in_sync agreed ≡ false
unfolding all_in_sync has set_of
nothing_in_sync = refl

close_ballots : out_sync_ballot_by agreed 1 ≡ some false
unfolding out_sync_ballot_by has set_of
close_ballots = refl

inconsistent_log_state-Consistent_example :
    (inconsistent_log_state bytes_of agreed ≡ false) ↔ Consistent bytes_of agreed.replica_states
inconsistent_log_state-Consistent_example = inconsistent_log_state-Consistent bytes_of agreed

multiple_primaries-OnePrimary_example :
    (multiple_primaries episode ≡ none) ↔ Every (λ s. OnePrimary s.replica_states) episode.states
multiple_primaries-OnePrimary_example = multiple_primaries-OnePrimary episode
