-- ===== src/Rsl/Durable.antt =====
-- What a node can read back from its log: the proposal accepted last and the highest ballot.
use raft_rl_test.Base.{◌≤◌, ◌≡◌, refl, ap, List, [], ◌∷◌, ◌++◌, arith, if◌then◌else◌, ltb, length}
use raft_rl_test.Rsl.Data.{Ballot, Proposal, Entry, no_ballot, no_proposal}
use raft_rl_test.Rsl.Node.{Node}

-- The last accepted entry, as a proposal.
abbrev pub last_accepted : Proposal → List Entry → Proposal
last_accepted p [] = p
last_accepted p (e ∷ es) =
    last_accepted
      (if e.accepted
        then record { ballot = e.ballot; decree = e.decree; command = e.command }
        else p)
      es

-- A ballot replaces another one if its number is higher.
abbrev pub higher : Ballot → Ballot → Ballot
higher b c = if ltb b.num c.num then c else b

-- The first of the entries with the highest ballot number: its ballot, node included.
abbrev pub highest : Ballot → List Entry → Ballot
highest b [] = b
highest b (e ∷ es) = highest (higher b e.ballot) es

pub last_accepted-append :
    (p : Proposal) (es : List Entry) (e : Entry)
    → last_accepted p (es ++ e ∷ []) ≡ (
        if e.accepted
        then record { ballot = e.ballot; decree = e.decree; command = e.command }
        else last_accepted p es)
last_accepted-append p [] e = refl
last_accepted-append p (x ∷ es) e = last_accepted-append _ es e

pub highest-append :
    (b : Ballot) (es : List Entry) (e : Entry)
    → highest b (es ++ e ∷ []) ≡ higher (highest b es) e.ballot
highest-append b [] e = refl
highest-append b (x ∷ es) e = highest-append (higher b x.ballot) es e

-- No accepted entry has a ballot above the highest.
pub last_accepted-le-highest :
    (p : Proposal) (b : Ballot) (es : List Entry)
    → p.ballot.num ≤ b.num
    → (last_accepted p es).ballot.num ≤ (highest b es).num
last_accepted-le-highest p b [] h = h
last_accepted-le-highest p b (e ∷ es) h =
    last_accepted-le-highest
      (if e.accepted
        then record { ballot = e.ballot; decree = e.decree; command = e.command }
        else p)
      (higher b e.ballot) es (ground arith)

-- The log is written before the state it records: replaying it gives the proposal accepted last
-- and the ballot promised; and `decided` counts the executed commands.
abbrev pub IsDurable : Node → Type 0
IsDurable n =
    (last_accepted no_proposal n.log.entries ≡ n.max_accepted_proposal)
    × (highest no_ballot n.log.entries ≡ n.max_prepared_ballot)
    × (n.decided ≡ length n.log.decided)

-- So a durable node never holds a proposal above its promise, which the accept handler asserts.
pub IsDurable-accepted_le :
    (n : Node) → IsDurable n → n.max_accepted_proposal.ballot.num ≤ n.max_prepared_ballot.num
IsDurable-accepted_le n h = omega (
  arith,
  last_accepted-le-highest no_proposal no_ballot n.log.entries (omega arith),
  ap (λ p. p.ballot.num) h.0,
  ap (λ b. b.num) h.1,
)
