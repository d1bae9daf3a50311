-- ===== src/Lpaxos/Run/Safety.antt =====
-- What holds of an LPaxos node after any sequence of calls.
use mathlib.Core.List.{append-nil, append_assoc}
use raft_rl_test.Base.{ℕ, ◌≤◌, ◌≡◌, sym, ap, ◌∙◌, true, List, [], ◌∷◌, ◌++◌}
use raft_rl_test.Base.Every.{Every-append, Every-at}
use raft_rl_test.Base.Ascending.{Ascending, Ascending-append, Ascending-ordered}
use raft_rl_test.Lpaxos.Data.{Entry, Message}
use raft_rl_test.Lpaxos.Node.{Node, get_leader}
use raft_rl_test.Lpaxos.Step.{step, tick, ready}
use raft_rl_test.Lpaxos.Moves.Base.{
  Moves, IsLed, NotAbove, Fits, Fitting, tells_phase, phase_of, leads,
}
use raft_rl_test.Lpaxos.Moves.Phases.{new_node-IsNew}
use raft_rl_test.Lpaxos.Moves.Handlers.{step-Moves, tick-Moves}
use raft_rl_test.Lpaxos.Run.{Call, ticks, receives, collects, Driven, sent_by, boot, perform, run}

-- What a call keeps, for the node `id` among `peers`.
pub record IsSound (id : ℕ) (peers : List ℕ) (d : Driven) : Type 0 where
  pub own : d.node.id ≡ id
  pub known : d.node.peers ≡ peers
  pub led : IsLed d.node
  pub phases : Ascending tells_phase phase_of 0 (sent_by d) d.node.phase
  pub fitting : Fitting id peers (sent_by d)

module _ (id : ℕ) (peers : List ℕ) where
  regroup :
      (n n' : Node) (collected : List Message) (g : Moves n n')
      → collected ++ n'.pending_messages ≡ (collected ++ n.pending_messages) ++ g.sent
  regroup n n' collected g =
      ap (λ l. collected ++ l) g.sends ∙ sym (append_assoc collected n.pending_messages g.sent)

  Moves-IsSound :
      (d : Driven) (n' : Node)
      → Moves d.node n'
      → IsSound id peers d
      → IsSound id peers (record d { node = n' })
  Moves-IsSound d n' g s = record {
    own = g.same_id ∙ s.own;
    known = g.same_peers ∙ s.known;
    led = (g.keeps s.led).0;
    phases = rw (regroup d.node n' d.collected g) (
        Ascending-append tells_phase phase_of 0 d.node.phase n'.phase (sent_by d) g.sent s.phases
          g.ascends);
    fitting = rw (regroup d.node n' d.collected g) (
        Every-append (Fits id peers) (sent_by d) g.sent s.fitting
          (rw (s.own, s.known) at (g.keeps s.led).1));
  }

  module _ (hash : List Entry → List ℕ) where
    perform-IsSound :
        (d : Driven) (c : Call) → IsSound id peers d → IsSound id peers (perform hash d c)
    unfolding perform ready
    perform-IsSound d ticks s =
        Moves-IsSound d (tick hash (λ m. m) d.node) (tick-Moves hash (λ m. m) d.node) s
    perform-IsSound d (receives m order) s =
        Moves-IsSound d (step hash order d.node m) (step-Moves hash order d.node m) s
    perform-IsSound d collects s = record {
      own = s.own;
      known = s.known;
      led = record { leader = s.led.leader; last = s.led.last };
      phases = rw (append-nil (sent_by d)) s.phases;
      fitting = rw (append-nil (sent_by d)) s.fitting;
    }

    run-IsSound :
        (d : Driven) (cs : List Call) → IsSound id peers d → IsSound id peers (run hash d cs)
    unfolding run
    run-IsSound d [] s = s
    run-IsSound d (c ∷ cs) s = run-IsSound (perform hash d c) cs (perform-IsSound d c s)

  boot-IsSound : (timeout : ℕ) → IsSound id peers (boot id peers timeout)
  unfolding boot
  boot-IsSound timeout =
      let v = new_node-IsNew id peers timeout in
      record { own = v.own; known = v.known; led = v.led; phases = v.ascends; fitting = v.fitting }

module _ (hash : List Entry → List ℕ) (id : ℕ) (peers : List ℕ) (timeout : ℕ) (cs : List Call) where
  -- After any calls the leader that an LPaxos node follows is the one of its phase, its log was
  -- last replaced in that phase or an earlier one, and the node has kept its name and its peers.
  pub boot-leader :
      let n = (run hash (boot id peers timeout) cs).node in
      (n.leader ≡ get_leader peers n.phase)
      × NotAbove n.last n.phase
      × (n.id ≡ id)
      × (n.peers ≡ peers)
  boot-leader =
      let s =
        run-IsSound id peers hash (boot id peers timeout) cs (boot-IsSound id peers timeout) in
      (rw s.known at s.led.leader, s.led.last, s.own, s.known)

  -- Of any two messages that a new LPaxos node has sent over any calls and that carry its phase
  -- (prepare, acknowledgement, proposal, promise, heartbeat), the later one has the same phase or a
  -- later one.
  pub boot-phases_ascend :
      (xs : List Message) (early : Message) (ys : List Message) (late : Message) (zs : List Message)
      → sent_by (run hash (boot id peers timeout) cs) ≡ xs ++ early ∷ (ys ++ late ∷ zs)
      → tells_phase early ≡ true
      → tells_phase late ≡ true
      → early.phase ≤ late.phase
  boot-phases_ascend xs early ys late zs e =
      let d = run hash (boot id peers timeout) cs in
      Ascending-ordered tells_phase phase_of 0 d.node.phase xs early ys late zs (
        rw e at
          (run-IsSound id peers hash (boot id peers timeout) cs
            (boot-IsSound id peers timeout)).phases)

  pub boot-Fits :
      (xs : List Message) (m : Message) (ys : List Message)
      → sent_by (run hash (boot id peers timeout) cs) ≡ xs ++ m ∷ ys
      → Fits id peers m
  boot-Fits xs m ys e = Every-at (Fits id peers) xs m ys (
      rw e at
        (run-IsSound id peers hash (boot id peers timeout) cs
          (boot-IsSound id peers timeout)).fitting)

-- Two LPaxos nodes that know the same peers, whatever they have been called with, never both speak
-- as the leader of one phase: if both have sent a prepare message, a proposal or a heartbeat for the
-- same phase, they are the same node.
pub one_leader :
    (hash : List Entry → List ℕ) (peers : List ℕ) (a b : ℕ) (timeout timeout' : ℕ)
    (cs ds : List Call) (xs : List Message) (m : Message) (ys : List Message) (zs : List Message)
    (m' : Message) (ws : List Message)
    → sent_by (run hash (boot a peers timeout) cs) ≡ xs ++ m ∷ ys
    → sent_by (run hash (boot b peers timeout') ds) ≡ zs ++ m' ∷ ws
    → leads m.type ≡ true
    → leads m'.type ≡ true
    → m.phase ≡ m'.phase
    → a ≡ b
one_leader hash peers a b timeout timeout' cs ds xs m ys zs m' ws e e' l l' p =
    sym ((boot-Fits hash a peers timeout cs xs m ys e).1 l)
    ∙ ap (get_leader peers) p
    ∙ (boot-Fits hash b peers timeout' ds zs m' ws e').1 l'
