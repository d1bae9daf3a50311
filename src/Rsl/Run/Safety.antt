-- ===== src/Rsl/Run/Safety.antt =====
-- What holds of a node after any sequence of calls.
use mathlib.Core.List.{append-nil, append_assoc}
use raft_rl_test.Base.{
  ℕ, ◌≤◌, ◌≡◌, refl, sym, ap, ◌∙◌, true, List, [], ◌∷◌, ◌++◌, Option, arith, length, IsPrefix,
  IsPrefix-refl, IsPrefix-trans,
}
use raft_rl_test.Rsl.Data.{Command, Message, NodeConfig, no_ballot, no_proposal}
use raft_rl_test.Rsl.Node.{Node, new_node, start}
use raft_rl_test.Rsl.Step.{step, propose, tick, ready}
use raft_rl_test.Rsl.Durable.{IsDurable, IsDurable-accepted_le, last_accepted, highest}
use raft_rl_test.Base.Ascending.{Ascending-le, Ascending-append, Ascending-ordered}
use raft_rl_test.Rsl.Grows.Votes.{is_vote, ballot_num, Ascend}
use raft_rl_test.Rsl.Grows.Base.{Grows}
use raft_rl_test.Rsl.Grows.Accept.{step-Grows}
use raft_rl_test.Rsl.Grows.Clock.{start-Grows, tick-Grows, propose-Grows}
use raft_rl_test.Rsl.Run.{
  Call, ticks, receives, proposes, collects, Driven, sent_by, boot, perform, run,
}

-- What a call keeps: the state is durable and the votes sent so far ascend up to the promise.
pub record IsSound (d : Driven) : Type 0 where
  pub durable : IsDurable d.node
  pub votes : Ascend 0 (sent_by d) d.node.max_prepared_ballot.num

-- What a call does: nothing that was sent, logged or decided is taken back.
pub record Extends (d d' : Driven) : Type 0 where
  pub sent : IsPrefix (sent_by d) (sent_by d')
  pub entries : IsPrefix d.node.log.entries d'.node.log.entries
  pub decided : IsPrefix d.node.log.decided d'.node.log.decided
  pub promise : d.node.max_prepared_ballot.num ≤ d'.node.max_prepared_ballot.num

Extends-trans : {d d' d'' : Driven} → Extends d d' → Extends d' d'' → Extends d d''
Extends-trans g h = record {
  sent = IsPrefix-trans g.sent h.sent;
  entries = IsPrefix-trans g.entries h.entries;
  decided = IsPrefix-trans g.decided h.decided;
  promise = omega (arith, g.promise, h.promise);
}

regroup :
    (n n' : Node) (collected : List Message) (g : Grows n n')
    → collected ++ n'.pending_messages_to_send ≡ (collected ++ n.pending_messages_to_send) ++ g.sent
regroup n n' collected g =
    ap (λ l. collected ++ l) g.sends
    ∙ sym (append_assoc collected n.pending_messages_to_send g.sent)

Grows-IsSound :
    (d : Driven) (n' : Node) → Grows d.node n' → IsSound d → IsSound (record d { node = n' })
Grows-IsSound d n' g s = record {
  durable = g.keeps s.durable;
  votes = rw (regroup d.node n' d.collected g) (
      Ascending-append is_vote ballot_num 0 d.node.max_prepared_ballot.num
        n'.max_prepared_ballot.num (sent_by d) g.sent s.votes g.ascends);
}

Grows-Extends : (d : Driven) (n' : Node) → Grows d.node n' → Extends d (record d { node = n' })
Grows-Extends d n' g = record {
  sent = record { rest = g.sent; splits = regroup d.node n' d.collected g };
  entries = g.entries;
  decided = g.decided;
  promise = Ascending-le is_vote ballot_num _ _ g.sent g.ascends;
}

-- Collecting moves messages and loses none.
sent_by-collect : (d : Driven) → (d.collected ++ d.node.pending_messages_to_send) ++ [] ≡ sent_by d
sent_by-collect d = append-nil (sent_by d)

module _ (decode_config : Command → Option (List ℕ)) where
  perform-IsSound : (d : Driven) (c : Call) → IsSound d → IsSound (perform decode_config d c)
  unfolding perform ready
  perform-IsSound d ticks s = Grows-IsSound d (tick d.node) (tick-Grows d.node) s
  perform-IsSound d (receives m r) s =
      Grows-IsSound d (step decode_config d.node m r) (step-Grows decode_config d.node m r) s
  perform-IsSound d (proposes c) s = Grows-IsSound d (propose d.node c) (propose-Grows d.node c) s
  perform-IsSound d collects s = record {
    durable = s.durable;
    votes = rw (sent_by-collect d) s.votes;
  }

  perform-Extends : (d : Driven) (c : Call) → Extends d (perform decode_config d c)
  unfolding perform ready
  perform-Extends d ticks = Grows-Extends d (tick d.node) (tick-Grows d.node)
  perform-Extends d (receives m r) =
      Grows-Extends d (step decode_config d.node m r) (step-Grows decode_config d.node m r)
  perform-Extends d (proposes c) = Grows-Extends d (propose d.node c) (propose-Grows d.node c)
  perform-Extends d collects = record {
    sent = rw (sent_by-collect d) (IsPrefix-refl (sent_by d));
    entries = IsPrefix-refl d.node.log.entries;
    decided = IsPrefix-refl d.node.log.decided;
    promise = omega arith;
  }

  run-IsSound : (d : Driven) (cs : List Call) → IsSound d → IsSound (run decode_config d cs)
  unfolding run
  run-IsSound d [] s = s
  run-IsSound d (c ∷ cs) s = run-IsSound (perform decode_config d c) cs (perform-IsSound d c s)

  -- No sequence of calls takes back a message that was sent, an entry of the log or a decided
  -- command, and none lowers the ballot that the node has promised.
  pub run-Extends : (d : Driven) (cs : List Call) → Extends d (run decode_config d cs)
  unfolding run
  run-Extends d [] = record {
    sent = IsPrefix-refl (sent_by d);
    entries = IsPrefix-refl d.node.log.entries;
    decided = IsPrefix-refl d.node.log.decided;
    promise = omega arith;
  }
  run-Extends d (c ∷ cs) =
      Extends-trans (perform-Extends d c) (run-Extends (perform decode_config d c) cs)

boot-IsSound : (c : NodeConfig) → IsSound (boot c)
unfolding boot
boot-IsSound c =
    Grows-IsSound fresh (start fresh.node) (start-Grows fresh.node)
      (unfold new_node in record { durable = (refl, refl, refl); votes = omega arith })
  where
    fresh : Driven
    fresh = record { node = new_node c; collected = [] }

module _ (decode_config : Command → Option (List ℕ)) (c : NodeConfig) (cs : List Call) where
  pub boot-durable :
      let n = (run decode_config (boot c) cs).node in
      (last_accepted no_proposal n.log.entries ≡ n.max_accepted_proposal)
      × (highest no_ballot n.log.entries ≡ n.max_prepared_ballot)
      × (n.decided ≡ length n.log.decided)
      × (n.max_accepted_proposal.ballot.num ≤ n.max_prepared_ballot.num)
  boot-durable =
      let n = (run decode_config (boot c) cs).node in
      let d = (run-IsSound decode_config (boot c) cs (boot-IsSound c)).durable in
      (d.0, d.1, d.2, IsDurable-accepted_le n d)

  -- Of any two votes (proposals, prepare requests, promises, acceptances) that a booted node has
  -- sent, the later one has the same ballot number or a higher one.
  pub boot-votes_ascend :
      (xs : List Message) (early : Message) (ys : List Message) (late : Message) (zs : List Message)
      → sent_by (run decode_config (boot c) cs) ≡ xs ++ early ∷ (ys ++ late ∷ zs)
      → is_vote early ≡ true
      → is_vote late ≡ true
      → early.ballot.num ≤ late.ballot.num
  boot-votes_ascend xs early ys late zs e =
      let d = run decode_config (boot c) cs in
      Ascending-ordered is_vote ballot_num 0 d.node.max_prepared_ballot.num xs early ys late zs
        (rw e at (run-IsSound decode_config (boot c) cs (boot-IsSound c)).votes)
