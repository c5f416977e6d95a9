-- ===== src/Consensus/Terms.antt =====
-- hw2/src/consensus/node.cpp: what a handler, and a tick, may do to a node's term, role and vote.
pub mod Messages
pub mod Ticks
use to_ftds.Base.{
  ℕ, suc, ◌+◌, ◌-◌, ◌^◌, ◌≤◌, ◌<◌, max, ◌≡◌, refl, sym, ap, ◌∙◌, ◌⊎◌, inl, inr, Bool, true, false,
  ◌&&◌, List, [], ◌∷◌, ◌++◌, Option, none, some, arith, ltb, leb, ◌==◌, u64, if◌then◌else◌,
  Bool-cases, Option-cases, Outcome, ok, fault, Ensures, Ensures-map, >>=-Ensures, All,
  for_each-All, for_each-Ensures, need, ◌>>=◌, for_each, contains, length, set_insert, Fault,
}
use to_ftds.Timeout.{ITimeout}
use to_ftds.Consensus.State.{
  State, LogItem, NodeState, leader, follower, candidate, LeaderState, CandidateState,
}
use to_ftds.Consensus.Message.{
  AppendEntriesRequest, AppendEntriesResponse, RequestVoteRequest, RequestVoteResponse,
  append_entries_response, request_vote_response,
}
use to_ftds.Consensus.Node.{Node, send, get_current_term, get_voted_for, set_current_term}
use to_ftds.Consensus.Node.Roles.{
  is_leader, is_candidate, become_follower, become_candidate, become_leader, reset_election_timer,
  send_append_entries_to_all, send_request_vote_to_all,
}
use to_ftds.Consensus.Node.Requests.{
  observe_term, answer_append_entries, redirect_commands, check_prev, accept_entries, answer_vote,
  handle_append_entries_request, handle_request_vote_request,
}
use to_ftds.Consensus.Node.Responses.{
  is_quorum, note_append_entries, note_request_vote, count_vote, step_back, record_match,
  handle_append_entries_response, handle_request_vote_response,
}
use to_ftds.Consensus.Frame.{
  SendsOnly, send-SendsOnly, send_append_entries_to_all-SendsOnly,
  send_request_vote_to_all-SendsOnly,
}
use to_ftds.Consensus.Replication.{redirect_lem}

-- From the first node to the second the term does not fall. While it stays, a leader goes on to
-- lead, and a vote stands, unless the node has come to lead.
pub record Advance {T : Type 0} (n m : Node T) : Type 0 where
  pub term : get_current_term n ≤ get_current_term m
  pub lead : get_current_term m ≡ get_current_term n → n.role ≡ leader → m.role ≡ leader
  pub vote :
      (v : ℕ)
      → get_current_term m ≡ get_current_term n
      → get_voted_for n ≡ some v
      → (get_voted_for m ≡ some v) ⊎ (m.role ≡ leader)

module _ {T : Type 0} where
  pub Advance-refl : (n : Node T) → Advance n n
  Advance-refl n = record { term = omega arith; lead = λ e h. h; vote = λ v e h. inl h }

  pub Advance-trans : (a b c : Node T) → Advance a b → Advance b c → Advance a c
  Advance-trans a b c p q = record {
    term = omega arith;
    lead = λ e h. q.lead (omega arith) (p.lead (omega arith) h);
    vote = λ v e h. elim (p.vote v (omega arith) h) [
      | inl kept ↦ q.vote v (omega arith) kept
      | inr leads ↦ inr (q.lead (omega arith) leads)
    ];
  }

  -- Neither the term, the role nor the vote has changed.
  pub Advance-same :
      (n m : Node T)
      → get_current_term m ≡ get_current_term n
      → get_voted_for m ≡ get_voted_for n
      → m.role ≡ n.role
      → Advance n m
  Advance-same n m t v r = record {
    term = omega arith;
    lead = λ e h. r ∙ h;
    vote = λ w e h. inl (v ∙ h);
  }

  pub SendsOnly-Advance : (n m : Node T) → SendsOnly n m → Advance n m
  SendsOnly-Advance n m s = Advance-same n m (ground arith) (ground arith) s.role

  -- The term has grown.
  pub Advance-later : (n m : Node T) → get_current_term n < get_current_term m → Advance n m
  Advance-later n m h = record {
    term = omega arith;
    lead = λ e k. absurd (omega arith);
    vote = λ v e k. absurd (omega arith);
  }

  become_leader-Advance :
      (n : Node T)
      → Ensures
          (λ m.
            (get_current_term m ≡ get_current_term n)
            × (m.role ≡ leader)
            × (get_voted_for m ≡ none))
          (become_leader n)
  unfolding become_leader
  become_leader-Advance n =
      Ensures-map (SendsOnly _) _ (send_append_entries_to_all true _)
        (send_append_entries_to_all-SendsOnly true _)
        (λ m s. (
          ap (λ (x : State). x.persistent_state.current_term) s.state,
          s.role,
          ap (λ (x : State). x.persistent_state.voted_for) s.state,
        ))

  redirect_commands-Advance : (n : Node T) (l : ℕ) → Advance n (redirect_commands n l)
  unfolding redirect_commands
  redirect_commands-Advance n l = elim (Bool-cases (is_leader n.role)) [
    | inl leads ↦ rw leads (Advance-refl n)
    | inr other ↦
        rw (other, redirect_lem (record n { incoming_commands = [] }) l n.incoming_commands)
          (Advance-same n _ refl refl refl)
  ]

  check_prev-Advance :
      (n : Node T) (req : AppendEntriesRequest) (found : Option LogItem)
      → Advance n (check_prev n req found).0
  unfolding check_prev accept_entries
  check_prev-Advance n req none = Advance-refl n
  check_prev-Advance n req (some prev) =
      Advance-same n _ (ground arith) (ground arith) (ground arith)

  pub answer_append_entries-Advance :
      (n : Node T) (req : AppendEntriesRequest) → Advance n (answer_append_entries n req).0
  unfolding answer_append_entries
  answer_append_entries-Advance n req =
      elim (Bool-cases (ltb req.leader_term (get_current_term n))) [
        | inl stale ↦ rw stale (Advance-refl n)
        | inr fresh ↦ rw fresh (
            Advance-trans n (redirect_commands n req.leader_id) _
              (redirect_commands-Advance n req.leader_id) (check_prev-Advance _ req _))
      ]

  pub answer_vote-Advance :
      (n : Node T) (req : RequestVoteRequest) → Advance n (answer_vote n req).0
  unfolding answer_vote
  answer_vote-Advance n req = record {
    term = ground arith;
    lead = λ e h. ground arith;
    vote = λ v e h. ground arith;
  }

  count_vote-Advance :
      (n : Node T) (id : ℕ) (cs : CandidateState)
      → Ensures (λ m. Advance n m × (get_current_term m ≡ get_current_term n)) (count_vote n id cs)
  unfolding count_vote
  count_vote-Advance n id cs =
      elim (Bool-cases (is_quorum n.total_nodes (length (set_insert id cs.votes)))) [
        | inl won ↦ rw won (
            Ensures-map _ _ (become_leader _) (become_leader-Advance _) λ m s.
              (record { term = omega arith; lead = λ e h. s.1; vote = λ v e h. inr s.1 }, s.0))
        | inr waits ↦ rw waits (Advance-same n _ refl refl refl, refl)
      ]

  pub note_request_vote-Advance :
      (n : Node T) (resp : RequestVoteResponse) (id : ℕ)
      → Ensures
          (λ m. Advance n m × (get_current_term m ≡ get_current_term n))
          (note_request_vote n resp id)
  unfolding note_request_vote
  note_request_vote-Advance n resp id =
      on_tests (is_candidate n.role) resp.vote_granted (resp.candidate_term == get_current_term n)
        n.candidate_state
    where
      on_tests :
          (a b c : Bool) (cs : Option CandidateState)
          → Ensures
              (λ m. Advance n m × (get_current_term m ≡ get_current_term n))
              (if a
                then (if b then (if c then (need cs >>= count_vote n id) else ok n) else ok n)
                else ok n)
      on_tests false b c cs = (Advance-refl n, refl)
      on_tests true false c cs = (Advance-refl n, refl)
      on_tests true true false cs = (Advance-refl n, refl)
      on_tests true true true none = tt
      on_tests true true true (some cs) = count_vote-Advance n id cs

  pub note_append_entries-Advance :
      (n : Node T) (resp : AppendEntriesResponse) (id : ℕ)
      → Ensures
          (λ m. Advance n m × (get_current_term m ≡ get_current_term n))
          (note_append_entries n resp id)
  unfolding note_append_entries
  note_append_entries-Advance n resp id =
      on_tests (is_leader n.role) resp.success resp.matched_until n.leader_state
    where
      same :
          (ls : LeaderState)
          → Advance n (record n { leader_state = some ls })
            × (get_current_term n ≡ get_current_term n)
      same ls = (Advance-same n _ refl refl refl, refl)

      on_tests :
          (a b : Bool) (m : Option ℕ) (ls : Option LeaderState)
          → Ensures
              (λ m. Advance n m × (get_current_term m ≡ get_current_term n))
              (if a
                then (need ls >>= λ ls.
                    if b
                    then (need m >>= λ matched.
                        ok (record n { leader_state = some (record_match ls id matched) }))
                    else ok (record n { leader_state = some (step_back ls id) }))
                else ok n)
      on_tests false b m ls = (Advance-refl n, refl)
      on_tests true b m none = tt
      on_tests true false m (some ls) = same _
      on_tests true true none (some ls) = tt
      on_tests true true (some k) (some ls) = same _
