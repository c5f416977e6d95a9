-- ===== src/Consensus/Node/Responses.antt =====
-- hw2/src/consensus/node.cpp: what a node makes of the responses to its requests.
use to_ftds.Base.{
  ℕ, suc, ◌+◌, ◌-◌, ◌*◌, ◌^◌, max, leb, ◌==◌, u64, if◌then◌else◌, Bool, some, Outcome, ok, need,
  ◌>>=◌, length, insert, find_or, set_insert, nat_key,
}
use to_ftds.Timeout.{ITimeout}
use to_ftds.Consensus.State.{LeaderState, CandidateState}
use to_ftds.Consensus.Message.{AppendEntriesResponse, RequestVoteResponse}
use to_ftds.Consensus.Node.{Node, get_current_term}
use to_ftds.Consensus.Node.Roles.{is_leader, is_candidate, next_index_of, become_leader}
use to_ftds.Consensus.Node.Requests.{observe_term}

-- `--leader_state_->next_index[from_who]`
unfoldable pub step_back : LeaderState → ℕ → LeaderState
step_back ls id = record ls {
  next_index = insert id (u64 (next_index_of ls id + 2 ^ 64 - 1)) ls.next_index;
}

-- The two assignments of a success.
unfoldable pub record_match : LeaderState → ℕ → ℕ → LeaderState
record_match ls id matched =
    let m = max (find_or id 0 ls.match_index) matched in
    record {
      match_index = insert id m ls.match_index;
      next_index = insert id (max (next_index_of ls id) (u64 (suc m))) ls.next_index;
    }

-- `count * 2 >= total_nodes_ + 1`
abbrev pub is_quorum : ℕ → ℕ → Bool
is_quorum total count = leb (total + 1) (count * 2)

module _ {T : Type 0} where
  unfoldable pub note_append_entries : Node T → AppendEntriesResponse → ℕ → Outcome (Node T)
  note_append_entries n resp id =
      if is_leader n.role
      then (need n.leader_state >>= λ ls.
          if resp.success
          then (need resp.matched_until >>= λ matched.
              ok (record n { leader_state = some (record_match ls id matched) }))
          else ok (record n { leader_state = some (step_back ls id) }))
      else ok n

  unfoldable pub count_vote : Node T → ℕ → CandidateState → Outcome (Node T)
  count_vote n id cs =
      let votes = set_insert id cs.votes in
      let n' = record n { candidate_state = some (record { votes = votes }) } in
      if is_quorum n.total_nodes (length votes) then become_leader n' else ok n'

  unfoldable pub note_request_vote : Node T → RequestVoteResponse → ℕ → Outcome (Node T)
  note_request_vote n resp id =
      if is_candidate n.role
      then (if resp.vote_granted
          then (if resp.candidate_term == get_current_term n
              then (need n.candidate_state >>= count_vote n id)
              else ok n)
          else ok n)
      else ok n

module _ {T : Type 0} ⦃timer : ITimeout T⦄ where
  unfoldable pub handle_append_entries_response :
      Node T → AppendEntriesResponse → ℕ → Outcome (Node T)
  handle_append_entries_response n resp from_who =
      note_append_entries (observe_term n resp.current_term) resp from_who

  unfoldable pub handle_request_vote_response : Node T → RequestVoteResponse → ℕ → Outcome (Node T)
  handle_request_vote_response n resp from_who =
      note_request_vote (observe_term n resp.current_term) resp from_who
