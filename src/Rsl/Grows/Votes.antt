-- ===== src/Rsl/Grows/Votes.antt =====
-- Votes, the messages that bind a node to a ballot, and what it is for them to ascend.
use raft_rl_test.Base.{ℕ, ◌≡◌, Bool, true, false, List, [], ◌∷◌, arith, if-both, ◌==◌}
use raft_rl_test.Base.Ascending.{Ascending, Ascending-append, Ascending-one}
use raft_rl_test.Rsl.Data.{
  MessageType, Message, accept_req, accept_resp, status_req, status_resp, prepare_req, prepare_resp,
  fetch_req, fetch_resp, command_message,
}
use raft_rl_test.Rsl.Node.{copies_to}

-- A node votes for a ballot when it proposes in it, promises it or accepts in it.
abbrev pub binds : MessageType → Bool → Bool
binds accept_req _ = true
binds prepare_req _ = true
binds accept_resp accept = accept
binds prepare_resp accept = accept
binds status_req _ = false
binds status_resp _ = false
binds fetch_req _ = false
binds fetch_resp _ = false
binds command_message _ = false

abbrev pub is_vote : Message → Bool
is_vote m = binds m.type m.accept

abbrev pub ballot_num : Message → ℕ
ballot_num m = m.ballot.num

-- The votes of a list ascend from a ballot up to another.
abbrev pub Ascend : ℕ → List Message → ℕ → Type 0
Ascend lo ms hi = Ascending is_vote ballot_num lo ms hi

pub Ascend-copies_to :
    (lo id : ℕ) (m : Message) (ps : List ℕ)
    → (is_vote m ≡ true → m.ballot.num ≡ lo)
    → Ascend lo (copies_to id m ps) lo
unfolding copies_to
Ascend-copies_to lo id m [] h = omega arith
Ascend-copies_to lo id m (p ∷ ps) h =
    if-both (λ l. Ascend lo l lo) (p == id) (Ascend-copies_to lo id m ps h)
      (Ascending-append is_vote ballot_num lo lo lo (record m { from = id; to = p } ∷ [])
        (copies_to id m ps) (Ascending-one is_vote ballot_num lo (record m { from = id; to = p }) h)
        (Ascend-copies_to lo id m ps h))
