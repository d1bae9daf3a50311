-- ===== src/Rsl/Grows/Base.antt =====
-- The relation between a Node and what an operation makes of it, and the operations of Node.antt.
use mathlib.Core.List.{append-nil, append_assoc}
use raft_rl_test.Base.{
  ℕ, ◌+◌, ◌≤◌, ◌≡◌, refl, sym, ap, ◌∙◌, Bool, true, not, List, [], ◌∷◌, ◌++◌, Option, some, none,
  arith, ltb, ◌==◌, IsPrefix, IsPrefix-refl, IsPrefix-trans, IsPrefix-append, if-both, if-cases,
}
use raft_rl_test.Rsl.Data.{
  Command, Proposal, Entry, log_add, add_decided, promise_entry, accepted_entry, Message, message,
  status_req, prepare_req, fetch_req, is_initializing, is_preparing, no_ballot, no_proposal,
  num_decided,
}
use raft_rl_test.Rsl.Node.{
  Node, copies_to, broadcast, send, initialize, learn_votes, log_proposal, stabilize, begin_ballot,
  ask_to_prepare, prepare, add_to_execution_queue, advance, advance_to,
}
use raft_rl_test.Rsl.Durable.{IsDurable, last_accepted-append, highest-append}
use raft_rl_test.Base.Ascending.{Ascending-append, Ascending-one}
use raft_rl_test.Rsl.Grows.Votes.{is_vote, ballot_num, Ascend, Ascend-copies_to}

pub record Grows (n n' : Node) : Type 0 where
  pub same_id : n'.id ≡ n.id
  pub same_config : n'.config ≡ n.config
  pub entries : IsPrefix n.log.entries n'.log.entries
  pub decided : IsPrefix n.log.decided n'.log.decided
  pub sent : List Message
  pub sends : n'.pending_messages_to_send ≡ n.pending_messages_to_send ++ sent
  pub ascends : Ascend n.max_prepared_ballot.num sent n'.max_prepared_ballot.num
  pub keeps : IsDurable n → IsDurable n'

pub Grows-trans : {n n' n'' : Node} → Grows n n' → Grows n' n'' → Grows n n''
Grows-trans {n} {n'} {n''} g h = record {
  same_id = h.same_id ∙ g.same_id;
  same_config = h.same_config ∙ g.same_config;
  entries = IsPrefix-trans g.entries h.entries;
  decided = IsPrefix-trans g.decided h.decided;
  sent = g.sent ++ h.sent;
  sends =
      h.sends
      ∙ ap (λ l. l ++ h.sent) g.sends
      ∙ append_assoc n.pending_messages_to_send g.sent h.sent;
  ascends =
      Ascending-append is_vote ballot_num n.max_prepared_ballot.num n'.max_prepared_ballot.num
        n''.max_prepared_ballot.num g.sent h.sent g.ascends h.ascends;
  keeps = λ v. h.keeps (g.keeps v);
}

-- An operation that sends nothing.
pub silent :
    (n n' : Node)
    → n'.id ≡ n.id
    → n'.config ≡ n.config
    → IsPrefix n.log.entries n'.log.entries
    → IsPrefix n.log.decided n'.log.decided
    → n'.pending_messages_to_send ≡ n.pending_messages_to_send
    → n.max_prepared_ballot.num ≤ n'.max_prepared_ballot.num
    → (IsDurable n → IsDurable n')
    → Grows n n'
silent n n' i c e d p b k = record {
  same_id = i;
  same_config = c;
  entries = e;
  decided = d;
  sent = [];
  sends = p ∙ sym (append-nil n.pending_messages_to_send);
  ascends = b;
  keeps = k;
}

-- One that leaves the log and the promise alone as well.
pub quiet :
    (n n' : Node)
    → n'.id ≡ n.id
    → n'.config ≡ n.config
    → n'.log ≡ n.log
    → n'.pending_messages_to_send ≡ n.pending_messages_to_send
    → n'.max_prepared_ballot ≡ n.max_prepared_ballot
    → n'.max_accepted_proposal ≡ n.max_accepted_proposal
    → n'.decided ≡ n.decided
    → Grows n n'
quiet n n' i c l p b a x =
    silent n n' i c (rw l (IsPrefix-refl n.log.entries)) (rw l (IsPrefix-refl n.log.decided)) p
      (rw b (omega arith)) (λ v. rw (l, a, b, x) v)

pub Grows-refl : (n : Node) → Grows n n
Grows-refl n = quiet n n refl refl refl refl refl refl refl

pub broadcast-Grows :
    (n : Node) (m : Message)
    → (is_vote m ≡ true → m.ballot.num ≡ n.max_prepared_ballot.num)
    → Grows n (broadcast n m)
unfolding broadcast
broadcast-Grows n m h = record {
  same_id = refl;
  same_config = refl;
  entries = IsPrefix-refl n.log.entries;
  decided = IsPrefix-refl n.log.decided;
  sent = copies_to n.id m n.config.peers;
  sends = refl;
  ascends = Ascend-copies_to n.max_prepared_ballot.num n.id m n.config.peers h;
  keeps = λ v. v;
}

pub send-Grows :
    (n : Node) (m : Message)
    → (is_vote m ≡ true → m.ballot.num ≡ n.max_prepared_ballot.num)
    → Grows n (send n m)
unfolding send
send-Grows n m h = record {
  same_id = refl;
  same_config = refl;
  entries = IsPrefix-refl n.log.entries;
  decided = IsPrefix-refl n.log.decided;
  sent = record m { from = n.id } ∷ [];
  sends = refl;
  ascends = Ascending-one is_vote ballot_num n.max_prepared_ballot.num (record m { from = n.id }) h;
  keeps = λ v. v;
}

pub initialize-Grows : (n : Node) → Grows n (initialize n)
unfolding initialize
initialize-Grows n = record {
  same_id = refl;
  same_config = refl;
  entries = IsPrefix-refl n.log.entries;
  decided = IsPrefix-refl n.log.decided;
  sent = copies_to n.id (message status_req) n.config.peers;
  sends = refl;
  ascends =
      Ascend-copies_to n.max_prepared_ballot.num n.id (message status_req) n.config.peers (λ e. cc);
  keeps = λ v. v;
}

pub log_proposal-Grows : (n : Node) (p : Proposal) → Grows n (log_proposal n p)
unfolding log_proposal log_add
log_proposal-Grows n p =
    if-cases (Grows n) (ltb n.max_prepared_ballot.num p.ballot.num)
      (λ h. silent n _ refl refl (IsPrefix-append _ _) (IsPrefix-refl _) refl (ground arith) (λ v. (
        last_accepted-append no_proposal n.log.entries (accepted_entry p),
        ground (arith, highest-append no_ballot n.log.entries (accepted_entry p)),
        v.2,
      )))
      (λ h. silent n _ refl refl (IsPrefix-append _ _) (IsPrefix-refl _) refl (omega arith) (λ v. (
        last_accepted-append no_proposal n.log.entries (accepted_entry p),
        ground (arith, highest-append no_ballot n.log.entries (accepted_entry p)),
        v.2,
      )))

pub stabilize-Grows : (n : Node) (b : Bool) → Grows n (stabilize n b)
unfolding stabilize
stabilize-Grows n b =
    if-both (Grows n) (n.max_prepared_ballot.node == n.id)
      (if-both (Grows n) (not (is_preparing n.state)) (quiet n _ refl refl refl refl refl refl refl)
        (quiet n _ refl refl refl refl refl refl refl))
      (quiet n _ refl refl refl refl refl refl refl)

pub learn_votes-Grows : (n : Node) (from : ℕ) → Grows n (learn_votes n from)
unfolding learn_votes
learn_votes-Grows n from =
    Grows-trans (send-Grows n request (λ e. cc)) (quiet _ _ refl refl refl refl refl refl refl)
  where
    request : Message
    request = record (message fetch_req) {
      to = from;
      decree = n.max_accepted_proposal.decree;
      ballot = n.max_accepted_proposal.ballot;
    }

pub begin_ballot-Grows : (n : Node) → Grows n (begin_ballot n)
unfolding begin_ballot log_add
begin_ballot-Grows n =
    silent n _ refl refl (IsPrefix-append _ _) (IsPrefix-refl _) refl (omega arith) (λ v. (
      last_accepted-append no_proposal n.log.entries ballot ∙ v.0,
      ground (arith, highest-append no_ballot n.log.entries ballot),
      v.2,
    ))
  where
    ballot : Entry
    ballot = promise_entry (record { num = n.max_prepared_ballot.num + 1; node = n.id })

pub ask_to_prepare-Grows : (n : Node) → Grows n (ask_to_prepare n)
unfolding ask_to_prepare
ask_to_prepare-Grows n = record {
  same_id = refl;
  same_config = refl;
  entries = IsPrefix-refl n.log.entries;
  decided = IsPrefix-refl n.log.decided;
  sent = copies_to n.id request n.config.peers;
  sends = refl;
  ascends = Ascend-copies_to n.max_prepared_ballot.num n.id request n.config.peers (λ e. refl);
  keeps = λ v. v;
}
  where
    request : Message
    request = record (message prepare_req) {
      decree = n.max_accepted_proposal.decree;
      ballot = n.max_prepared_ballot;
    }

pub prepare-Grows : (n : Node) → Grows n (prepare n)
unfolding prepare
prepare-Grows n =
    if-both (Grows n) (is_initializing n.state)
      (Grows-trans (begin_ballot-Grows n) (ask_to_prepare-Grows (begin_ballot n)))
      (if-both (Grows n) (not (is_preparing n.state)) (Grows-refl n) (ask_to_prepare-Grows n))

module _ (decode_config : Command → Option (List ℕ)) where
  pub add_to_execution_queue-Grows :
      (n : Node) (p : Proposal) → Grows n (add_to_execution_queue decode_config n p)
  unfolding add_to_execution_queue add_decided num_decided
  add_to_execution_queue-Grows n p = go (decode_config p.command) refl
    where
      go :
          (members : Option (List ℕ))
          → decode_config p.command ≡ members
          → Grows n (add_to_execution_queue decode_config n p)
      go none e =
          rw (e, add_to_execution_queue)
            (silent n _ refl refl (IsPrefix-refl _) (IsPrefix-append _ _) refl (omega arith)
              (λ v. (v.0, v.1, refl)))
      go (some members) e =
          rw (e, add_to_execution_queue)
            (silent n _ refl refl (IsPrefix-refl _) (IsPrefix-append _ _) refl (omega arith)
              (λ v. (v.0, v.1, refl)))

  pub advance-Grows : (n : Node) → Grows n (advance decode_config n)
  unfolding advance
  advance-Grows n =
      Grows-trans (add_to_execution_queue-Grows n n.max_accepted_proposal)
        (quiet _ _ refl refl refl refl refl refl refl)

  pub advance_to-Grows : (n : Node) (decree : ℕ) → Grows n (advance_to decode_config n decree)
  unfolding advance_to
  advance_to-Grows n decree =
      if-both (Grows n) (decree == n.max_accepted_proposal.decree + 1) (advance-Grows n)
        (Grows-refl n)
