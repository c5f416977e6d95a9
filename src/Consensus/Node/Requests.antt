-- ===== src/Consensus/Node/Requests.antt =====
-- hw2/src/consensus/node.cpp: how a node answers the requests of the others.
use to_ftds.Base.{
  ℕ, suc, ◌+◌, ◌-◌, min, ltb, leb, ◌==◌, if◌then◌else◌, Bool, true, false, ◌&&◌, ◌||◌, List, [],
  ◌∷◌, ◌++◌, Option, none, some, length, get_elem?, take,
}
use to_ftds.Timeout.{ITimeout}
use to_ftds.Consensus.State.{Command, LogItem, Log, item_eq}
use to_ftds.Consensus.Message.{
  AppendEntriesRequest, AppendEntriesResponse, RequestVoteRequest, RequestVoteResponse,
}
use to_ftds.Consensus.Node.{
  Node, get_current_term, get_voted_for, get_log, get_commit_index, set_current_term, set_voted_for,
  set_log, set_commit_index, get_last_log_term, get_last_log_index, set_command_result,
}
use to_ftds.Consensus.Node.Roles.{is_leader, become_follower, reset_election_timer}

-- One round of the loop over `req.entries`: `i` is `req.prev_log_index + pos_in_request + 1`, and
-- `get_elem?` is `none` where `log.size() <= i`.
unfoldable pub put_entry : Log → ℕ → LogItem → Log
put_entry log i e = elim (get_elem? log i) [
  | none ↦ log ++ e ∷ []
  | some old ↦ if item_eq old e then log else take i log ++ e ∷ []
]

unfoldable pub put_entries : Log → ℕ → Log → Log
put_entries log i [] = log
put_entries log i (e ∷ es) = put_entries (put_entry log i e) (suc i) es

module _ {T : Type 0} where
  abbrev pub append_entries_unsuccessfull : Node T → AppendEntriesResponse
  append_entries_unsuccessfull n = record {
    current_term = get_current_term n;
    success = false;
    matched_until = none;
  }

  abbrev pub append_entries_successfull : Node T → ℕ → AppendEntriesResponse
  append_entries_successfull n id = record {
    current_term = get_current_term n;
    success = true;
    matched_until = some id;
  }

  -- An aggregate's missing member is 0.
  abbrev pub request_vote_unsuccessfull : Node T → RequestVoteResponse
  request_vote_unsuccessfull n = record {
    current_term = get_current_term n;
    vote_granted = false;
    candidate_term = 0;
  }

  abbrev pub request_vote_successfull : Node T → ℕ → RequestVoteResponse
  request_vote_successfull n candidate_term = record {
    current_term = get_current_term n;
    vote_granted = true;
    candidate_term = candidate_term;
  }

  -- The promises of the waiting commands are told who leads.
  unfoldable pub redirect : Node T → ℕ → List (Command × ℕ) → Node T
  redirect n leader_id [] = n
  redirect n leader_id ((c, p) ∷ cs) =
      redirect (set_command_result n p (record { leader_id = some leader_id })) leader_id cs

  unfoldable pub redirect_commands : Node T → ℕ → Node T
  unfolding redirect
  redirect_commands n leader_id =
      if is_leader n.role
      then n
      else redirect (record n { incoming_commands = [] }) leader_id n.incoming_commands

  -- Steps 3 to 5, behind the tests on the log.
  unfoldable pub accept_entries : Node T → AppendEntriesRequest → Node T × AppendEntriesResponse
  accept_entries n req =
      let log = put_entries (get_log n) (suc req.prev_log_index) req.entries in
      let last = req.prev_log_index + length req.entries in
      let n' = set_log n log in
      let n'' =
        if ltb (get_commit_index n) req.leader_commit
        then set_commit_index n' (min req.leader_commit last)
        else n' in
      (n'', append_entries_successfull n'' (min (length log - 1) last))

  -- Step 2, on the item at `prev_log_index`.
  unfoldable pub check_prev :
      Node T → AppendEntriesRequest → Option LogItem → Node T × AppendEntriesResponse
  check_prev n req none = (n, append_entries_unsuccessfull n)
  check_prev n req (some prev) =
      if prev.leader_term == req.prev_log_term
      then accept_entries n req
      else (n, append_entries_unsuccessfull n)

  -- Step 1, and the commands that wait.
  unfoldable pub answer_append_entries :
      Node T → AppendEntriesRequest → Node T × AppendEntriesResponse
  answer_append_entries n req =
      if ltb req.leader_term (get_current_term n)
      then (n, append_entries_unsuccessfull n)
      else (let n' = redirect_commands n req.leader_id in
          check_prev n' req (get_elem? (get_log n') req.prev_log_index))

  -- The test of step 2 of `HandleRequestVoteRequest`.
  abbrev pub may_vote : Node T → RequestVoteRequest → Bool
  may_vote n req = elim (get_voted_for n) [ none ↦ true | some v ↦ v == req.candidate_id ]

  abbrev pub is_up_to_date : Node T → RequestVoteRequest → Bool
  is_up_to_date n req =
      ltb (get_last_log_term n) req.candidate_last_log_term
      || ((get_last_log_term n == req.candidate_last_log_term)
          && leb (get_last_log_index n) req.candidate_last_log_index)

  unfoldable pub answer_vote : Node T → RequestVoteRequest → Node T × RequestVoteResponse
  answer_vote n req =
      if ltb req.candidate_term (get_current_term n)
      then (n, record { current_term = 0; vote_granted = false; candidate_term = 0 })
      else (if may_vote n req && is_up_to_date n req
          then (
            set_voted_for n (some req.candidate_id),
            request_vote_successfull n req.candidate_term,
          )
          else (n, request_vote_unsuccessfull n))

module _ {T : Type 0} ⦃timer : ITimeout T⦄ where
  -- The test that every handler begins with.
  unfoldable pub observe_term : Node T → ℕ → Node T
  observe_term n term =
      if ltb (get_current_term n) term then become_follower (set_current_term n term) else n

  unfoldable pub handle_append_entries_request :
      Node T → AppendEntriesRequest → Node T × AppendEntriesResponse
  handle_append_entries_request n req =
      answer_append_entries (reset_election_timer (observe_term n req.leader_term)) req

  unfoldable pub handle_request_vote_request :
      Node T → RequestVoteRequest → Node T × RequestVoteResponse
  handle_request_vote_request n req = answer_vote (observe_term n req.candidate_term) req
