-- ===== src/Consensus/Node/Roles.antt =====
-- hw2/src/consensus/node.cpp: the changes of role, and what a node sends on them.
use to_ftds.Base.{
  ℕ, suc, ◌+◌, ◌-◌, ◌^◌, leb, u64, if◌then◌else◌, Bool, true, false, ◌||◌, List, [], ◌∷◌, none,
  some, Outcome, ok, fault, out_of_range, need, ◌>>=◌, for_each, get_elem?, drop, insert, contains,
  find_or, nat_key,
}
use to_ftds.Timeout.{ITimeout}
use to_ftds.Consensus.State.{leader, follower, candidate, NodeState, LeaderState}
use to_ftds.Consensus.Message.{
  AppendEntriesRequest, RequestVoteRequest, append_entries_request, request_vote_request,
}
use to_ftds.Consensus.Node.{
  Node, get_current_term, get_log, get_commit_index, set_current_term, set_voted_for,
  get_last_log_term, get_last_log_index, send,
}

-- The test that `SendAppendEntriesToSomeone`, `AddCommand` and others make on the role.
abbrev pub is_leader : NodeState → Bool
is_leader leader = true
is_leader follower = false
is_leader candidate = false

abbrev pub is_candidate : NodeState → Bool
is_candidate leader = false
is_candidate follower = false
is_candidate candidate = true

-- `leader_state_->next_index[id]`: a new entry is 0.
abbrev pub next_index_of : LeaderState → ℕ → ℕ
next_index_of ls id = find_or id 0 ls.next_index

-- The entries of the two maps for each channel, in a new `LeaderState`.
unfoldable pub fresh_leader_state : ℕ → LeaderState → List ℕ → LeaderState
fresh_leader_state next ls [] = ls
fresh_leader_state next ls (id ∷ ids) =
    fresh_leader_state next
      (record {
        next_index = insert id next ls.next_index;
        match_index = insert id 0 ls.match_index;
      })
      ids

module _ {T : Type 0} where
  -- The request that `SendAppendEntriesToSomeone` builds. `log[i]` for the items to send are in
  -- range by the test of the loop; `log[next_index - 1]` is read with no check.
  unfoldable pub build_append_entries : Node T → LeaderState → ℕ → Outcome AppendEntriesRequest
  build_append_entries n ls id = do
    let next = next_index_of ls id
    prev ← need (get_elem? (get_log n) (u64 (next + 2 ^ 64 - 1)))
    ok (record {
      leader_term = get_current_term n;
      leader_id = n.my_id;
      prev_log_index = u64 (next + 2 ^ 64 - 1);
      prev_log_term = prev.leader_term;
      entries = drop next (get_log n);
      leader_commit = get_commit_index n;
    })

  -- The part of `SendAppendEntriesToSomeone` that reads the leader's state.
  unfoldable pub send_entries : Bool → Node T → ℕ → LeaderState → Outcome (Node T)
  send_entries heartbeat n id ls =
      if leb (next_index_of ls id) (get_last_log_index n) || heartbeat
      then (build_append_entries n ls id >>= λ r. ok (send n id (append_entries_request r)))
      else ok n

  unfoldable pub send_append_entries_to_someone : Bool → Node T → ℕ → Outcome (Node T)
  send_append_entries_to_someone heartbeat n id =
      if is_leader n.role
      then (if contains id n.channels
          then (need n.leader_state >>= send_entries heartbeat n id)
          else fault out_of_range)
      else ok n

  unfoldable pub send_append_entries_to_all : Bool → Node T → Outcome (Node T)
  send_append_entries_to_all heartbeat n =
      for_each (send_append_entries_to_someone heartbeat) n n.channels

  -- Each channel in turn.
  unfoldable pub send_each : Node T → RequestVoteRequest → List ℕ → Node T
  send_each n r [] = n
  send_each n r (id ∷ ids) = send_each (send n id (request_vote_request r)) r ids

  unfoldable pub send_request_vote_to_all : Node T → Node T
  send_request_vote_to_all n =
      let request : RequestVoteRequest = record {
        candidate_term = get_current_term n;
        candidate_id = n.my_id;
        candidate_last_log_index = get_last_log_index n;
        candidate_last_log_term = get_last_log_term n;
      } in
      send_each n request n.channels

  unfoldable pub become_leader : Node T → Outcome (Node T)
  become_leader n = send_append_entries_to_all true (record (set_voted_for n none) {
    candidate_state = none;
    role = leader;
    leader_state = some (
        fresh_leader_state (suc (get_last_log_index n))
          (record { next_index = []; match_index = [] }) n.channels);
  })

module _ {T : Type 0} ⦃timer : ITimeout T⦄ where
  unfoldable pub reset_election_timer : Node T → Node T
  reset_election_timer n = record n { election_timeout = timer.reset n.election_timeout }

  unfoldable pub become_follower : Node T → Node T
  become_follower n = reset_election_timer (record (set_voted_for n none) {
    role = follower;
    candidate_state = none;
    leader_state = none;
  })

  -- The first three lines of `BecomeCandidate`.
  unfoldable pub start_election : Node T → Node T
  start_election n =
      reset_election_timer
        (set_voted_for (set_current_term n (u64 (suc (get_current_term n)))) (some n.my_id))

  unfoldable pub become_candidate : Node T → Node T
  become_candidate n = record (send_request_vote_to_all (start_election n)) {
    role = candidate;
    candidate_state = some (record { votes = [] });
    leader_state = none;
  }
