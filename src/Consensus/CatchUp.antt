-- ===== src/Consensus/CatchUp.antt =====
-- A leader and one follower exchange append requests and answers until the follower has the leader's
-- log: `SendAppendEntriesToSomeone`, `HandleAppendEntriesRequest`, `HandleAppendEntriesResponse`.
pub mod Request
pub mod Round
pub mod Rounds
use to_ftds.Base.{
  ℕ, zero, suc, ◌+◌, ◌-◌, ◌^◌, max, ◌≤◌, ◌<◌, ◌≡◌, refl, ap, ◌∙◌, ◌⊎◌, Bool, true, false, inl, inr,
  Option-cases, List, [], ◌∷◌, ◌++◌, Option, none, some, arith, ltb, u64, if◌then◌else◌, Bool-cases,
  Outcome, ok, need, ◌>>=◌, Returns, length, get_elem?, take, drop, get_elem?-lt, length-drop,
  length-take, take-append-drop, lookup-insert, find_or, insert, nat_key,
}
use to_ftds.Timeout.{ITimeout}
use to_ftds.Consensus.State.{leader, LogItem, Log, LeaderState}
use to_ftds.Consensus.Message.{AppendEntriesRequest, AppendEntriesResponse}
use to_ftds.Consensus.Node.{Node, get_current_term, get_log}
use to_ftds.Consensus.Node.Roles.{next_index_of, build_append_entries}
use to_ftds.Consensus.Node.Requests.{observe_term, handle_append_entries_request}
use to_ftds.Consensus.Node.Responses.{
  record_match, step_back, note_append_entries, handle_append_entries_response,
}
use to_ftds.Consensus.Merge.{merge, take-append_add, take-merge}
use to_ftds.Consensus.Replication.{accepts, merged, AppendEntriesEffect, append_entries-Effect}

-- What `log[next_index - 1]` and the entries behind it make of a request.
pub record Continues {T : Type 0} (l : Node T) (i : ℕ) (req : AppendEntriesRequest) : Type 0 where
  pub term : req.leader_term ≡ get_current_term l
  pub index : req.prev_log_index ≡ i
  pub entries : req.entries ≡ drop (suc i) (get_log l)
  pub prev : LogItem
  pub at_prev : get_elem? (get_log l) i ≡ some prev
  pub prev_term : req.prev_log_term ≡ prev.leader_term

-- Items of one term at `i` are the same, and so are all before them.
abbrev pub AgreeAt : Log → Log → ℕ → Type 0
AgreeAt xs ys i =
    (x y : LogItem)
    → get_elem? xs i ≡ some x
    → get_elem? ys i ≡ some y
    → x.leader_term ≡ y.leader_term
    → take (suc i) xs ≡ take (suc i) ys

-- One request of the leader, its handling by the follower, and the answer's by the leader.
abbrev pub round :
    {T : Type 0} → ⦃timer : ITimeout T⦄ → ℕ → Node T × Node T → Outcome (Node T × Node T)
round id (l, f) = need l.leader_state >>= λ ls. build_append_entries l ls id >>= λ req.
    (let r = handle_append_entries_request f req in
      handle_append_entries_response l r.1 id >>= λ l'. ok (l', r.0))

abbrev pub rounds :
    {T : Type 0} → ⦃timer : ITimeout T⦄ → ℕ → ℕ → Node T × Node T → Outcome (Node T × Node T)
rounds zero id p = ok p
rounds (suc k) id p = round id p >>= rounds k id

-- A leader that sends the item `i` and those behind it next, and a follower of no later term.
pub record Exchange {T : Type 0} (id i : ℕ) (ls : LeaderState) (l f : Node T) : Type 0 where
  pub leads : l.role ≡ leader
  pub has_state : l.leader_state ≡ some ls
  pub next : next_index_of ls id ≡ suc i
  pub in_log : i < length (get_log l)
  pub fits : length (get_log l) < 2 ^ 64
  pub known : find_or id 0 ls.match_index < length (get_log l)
  pub terms : get_current_term f ≤ get_current_term l

-- The follower has the leader's log and the leader knows it.
pub record CaughtUp {T : Type 0} (id : ℕ) (log : Log) (l f : Node T) : Type 0 where
  pub leader_log : get_log l ≡ log
  pub follower_log : take (length log) (get_log f) ≡ log
  pub ls : LeaderState
  pub has_state : l.leader_state ≡ some ls
  pub next : next_index_of ls id ≡ length log
  pub matched : find_or id 0 ls.match_index ≡ length log - 1
