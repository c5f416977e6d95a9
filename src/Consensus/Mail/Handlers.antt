-- ===== src/Consensus/Mail/Handlers.antt =====
-- hw2/src/consensus/node.cpp: what the handlers do to the messages that wait and that were sent.
use to_ftds.Base.{
  ℕ, refl, inl, inr, Bool, true, false, if◌then◌else◌, ◌&&◌, ◌==◌, ltb, List, [], Option, none,
  some, length, set_insert, Bool-cases, ok, Ensures, need, ◌>>=◌,
}
use to_ftds.Timeout.{ITimeout}
use to_ftds.Consensus.State.{LeaderState, CandidateState, LogItem}
use to_ftds.Consensus.Message.{
  AppendEntriesRequest, AppendEntriesResponse, RequestVoteRequest, RequestVoteResponse,
  append_entries_response,
}
use to_ftds.Consensus.Node.{Node, get_commit_index, get_current_term}
use to_ftds.Consensus.Node.Roles.{
  is_leader, is_candidate, become_follower, become_leader, reset_election_timer,
}
use to_ftds.Consensus.Node.Requests.{
  observe_term, redirect_commands, check_prev, accept_entries, answer_append_entries, may_vote,
  is_up_to_date, answer_vote, handle_append_entries_request, handle_request_vote_request,
}
use to_ftds.Consensus.Node.Responses.{
  is_quorum, note_append_entries, note_request_vote, count_vote, step_back, record_match,
}
use to_ftds.Consensus.Leadership.{crowned}
use to_ftds.Consensus.Replication.{redirect_lem}
use to_ftds.Consensus.Mail.{Complete, Mail, Mail-same, send_append_entries_to_all-Mail}

module _ {T : Type 0} ⦃timer : ITimeout T⦄ (channels : List ℕ) where
  pub observe_term-Mail : (n : Node T) (t : ℕ) → Mail channels n → Mail channels (observe_term n t)
  unfolding observe_term become_follower reset_election_timer
  observe_term-Mail n t mail = elim (Bool-cases (ltb (get_current_term n) t)) [
    | inl newer ↦ rw newer (Mail-same channels n _ refl refl refl refl refl mail)
    | inr known ↦ rw known mail
  ]

module _ {T : Type 0} (channels : List ℕ) where
  redirect_commands-Mail :
      (n : Node T) (l : ℕ) → Mail channels n → Mail channels (redirect_commands n l)
  unfolding redirect_commands
  redirect_commands-Mail n l mail = elim (Bool-cases (is_leader n.role)) [
    | inl leads ↦ rw leads mail
    | inr other ↦
        rw (other, redirect_lem (record n { incoming_commands = [] }) l n.incoming_commands)
          (Mail-same channels n _ refl refl refl refl refl mail)
  ]

  -- With the response to the request.
  check_prev-Mail :
      (n : Node T) (req : AppendEntriesRequest) (found : Option LogItem)
      → Mail channels n
      → Mail channels (check_prev n req found).0
        × Complete (append_entries_response (check_prev n req found).1)
  unfolding check_prev accept_entries
  check_prev-Mail n req none mail = (mail, λ e. cc)
  check_prev-Mail n req (some prev) mail =
      elim (Bool-cases (prev.leader_term == req.prev_log_term)) [
        | inr other ↦ rw other (mail, λ e. cc)
        | inl agrees ↦ elim (Bool-cases (ltb (get_commit_index n) req.leader_commit)) [
          | inl ahead ↦
              rw (agrees, ahead) (Mail-same channels n _ refl refl refl refl refl mail, λ e e'. cc)
          | inr known ↦
              rw (agrees, known) (Mail-same channels n _ refl refl refl refl refl mail, λ e e'. cc)
        ]
      ]

  answer_append_entries-Mail :
      (n : Node T) (req : AppendEntriesRequest)
      → Mail channels n
      → Mail channels (answer_append_entries n req).0
        × Complete (append_entries_response (answer_append_entries n req).1)
  unfolding answer_append_entries
  answer_append_entries-Mail n req mail =
      elim (Bool-cases (ltb req.leader_term (get_current_term n))) [
        | inl stale ↦ rw stale (mail, λ e. cc)
        | inr current ↦ rw current (
            check_prev-Mail (redirect_commands n req.leader_id) req _
              (redirect_commands-Mail n req.leader_id mail))
      ]

  answer_vote-Mail :
      (n : Node T) (req : RequestVoteRequest)
      → Mail channels n
      → Mail channels (answer_vote n req).0
  unfolding answer_vote
  answer_vote-Mail n req mail = elim (Bool-cases (ltb req.candidate_term (get_current_term n))) [
    | inl stale ↦ rw stale mail
    | inr current ↦ rw current (elim (Bool-cases (may_vote n req && is_up_to_date n req)) [
      | inl grants ↦ rw grants (Mail-same channels n _ refl refl refl refl refl mail)
      | inr refuses ↦ rw refuses mail
    ])
  ]

  pub become_leader-Mail :
      (n : Node T) → Mail channels n → Ensures (Mail channels) (become_leader n)
  unfolding become_leader
  become_leader-Mail n mail =
      send_append_entries_to_all-Mail channels true (crowned n)
        (Mail-same channels n _ refl refl refl refl refl mail)

  pub note_append_entries-Mail :
      (n : Node T) (resp : AppendEntriesResponse) (id : ℕ)
      → Mail channels n
      → Ensures (Mail channels) (note_append_entries n resp id)
  unfolding note_append_entries
  note_append_entries-Mail n resp id mail =
      on_role (is_leader n.role) n.leader_state resp.success resp.matched_until
    where
      on_role :
          (leads : Bool) (o : Option LeaderState) (success : Bool) (matched : Option ℕ)
          → Ensures (Mail channels) (
              if leads
              then (need o >>= λ ls.
                  if success
                  then (need matched >>= λ until.
                      ok (record n { leader_state = some (record_match ls id until) }))
                  else ok (record n { leader_state = some (step_back ls id) }))
              else ok n)
      on_role false o success matched = mail
      on_role true none success matched = tt
      on_role true (some ls) false matched = Mail-same channels n _ refl refl refl refl refl mail
      on_role true (some ls) true none = tt
      on_role true (some ls) true (some until) =
          Mail-same channels n _ refl refl refl refl refl mail

  count_vote-Mail :
      (n : Node T) (id : ℕ) (cs : CandidateState)
      → Mail channels n
      → Ensures (Mail channels) (count_vote n id cs)
  unfolding count_vote
  count_vote-Mail n id cs mail =
      let n' = record n { candidate_state = some (record { votes = set_insert id cs.votes }) } in
      let mail' = Mail-same channels n n' refl refl refl refl refl mail in
      elim (Bool-cases (is_quorum n.total_nodes (length (set_insert id cs.votes)))) [
        | inl quorum ↦ rw quorum (become_leader-Mail n' mail')
        | inr few ↦ rw (few, Ensures) mail'
      ]

  pub note_request_vote-Mail :
      (n : Node T) (resp : RequestVoteResponse) (id : ℕ)
      → Mail channels n
      → Ensures (Mail channels) (note_request_vote n resp id)
  unfolding note_request_vote
  note_request_vote-Mail n resp id mail =
      on_role (is_candidate n.role) resp.vote_granted (resp.candidate_term == get_current_term n)
        n.candidate_state
    where
      on_role :
          (runs granted now : Bool) (o : Option CandidateState)
          → Ensures (Mail channels) (
              if runs
              then (if granted then (if now then (need o >>= count_vote n id) else ok n) else ok n)
              else ok n)
      on_role false granted now o = mail
      on_role true false now o = mail
      on_role true true false o = mail
      on_role true true true none = tt
      on_role true true true (some cs) = count_vote-Mail n id cs mail

module _ {T : Type 0} ⦃timer : ITimeout T⦄ (channels : List ℕ) where
  pub handle_append_entries_request-Mail :
      (n : Node T) (req : AppendEntriesRequest)
      → Mail channels n
      → Mail channels (handle_append_entries_request n req).0
        × Complete (append_entries_response (handle_append_entries_request n req).1)
  unfolding handle_append_entries_request reset_election_timer
  handle_append_entries_request-Mail n req mail =
      answer_append_entries-Mail channels (reset_election_timer (observe_term n req.leader_term))
        req
        (Mail-same channels (observe_term n req.leader_term) _ refl refl refl refl refl
          (observe_term-Mail channels n req.leader_term mail))

  pub handle_request_vote_request-Mail :
      (n : Node T) (req : RequestVoteRequest)
      → Mail channels n
      → Mail channels (handle_request_vote_request n req).0
  unfolding handle_request_vote_request
  handle_request_vote_request-Mail n req mail =
      answer_vote-Mail channels (observe_term n req.candidate_term) req
        (observe_term-Mail channels n req.candidate_term mail)
