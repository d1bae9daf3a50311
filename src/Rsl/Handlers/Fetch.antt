-- ===== src/Rsl/Handlers/Fetch.antt =====
-- The handler of fetch requests, in rsl/algo.go.
use raft_rl_test.Base.{ℕ, ◌&&◌, List, select, leb, map}
use raft_rl_test.Rsl.Data.{Proposal, Entry, Message, message, fetch_resp}
use raft_rl_test.Rsl.Node.{Node, send}

-- The accepted entries of the log from a decree on, as proposals.
abbrev pub valid_proposals : ℕ → List Entry → List Proposal
valid_proposals decree es =
    map (λ e. record { ballot = e.ballot; decree = e.decree; command = e.command })
      (select (λ e. e.accepted && leb decree e.decree) es)

abbrev pub fetch_reply : Node → Message → Message
fetch_reply n m = record (message fetch_resp) {
  to = m.from;
  proposals = valid_proposals m.decree n.log.entries;
}

unfoldable pub handle_fetch_request : Node → Message → Node
handle_fetch_request n m = send n (fetch_reply n m)
