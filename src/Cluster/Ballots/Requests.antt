-- ===== src/Cluster/Ballots/Requests.antt =====
-- hw2/src/consensus/node.cpp: `HandleRequestVoteRequest` and `HandleAppendEntriesRequest`, by the votes of a
-- cluster.
use to_ftds.Base.{
  [], ℕ, ◌≡◌, refl, sym, ◌∙◌, inl, inr, Bool-cases, none, some, Option, List, ◌==◌, ltb, Ensures,
  contains, arith,
}
use to_ftds.Timeout.{ITimeout}
use to_ftds.Consensus.State.{leader, LogItem}
use to_ftds.Consensus.Message.{AppendEntriesRequest, AppendEntriesResponse, append_entries_response}
use to_ftds.Consensus.Node.{Node, send, get_current_term, get_voted_for, get_commit_index}
use to_ftds.Consensus.Node.Roles.{is_leader, become_follower, reset_election_timer}
use to_ftds.Consensus.Node.Requests.{
  observe_term, redirect_commands, check_prev, accept_entries, answer_append_entries,
  handle_append_entries_request,
}
use to_ftds.Consensus.Node.Ticks.{receive_append_entries_request}
use to_ftds.Consensus.Frame.{send-SendsOnly}
use to_ftds.Consensus.Replication.{redirect_lem}
use to_ftds.Cluster.Ballots.{History, Agrees, Ballot-same, Letters-same, SendsOnly-Ballot}
use to_ftds.Cluster.Ballots.Sending.{send-Letters}

-- Where the second node leads, the first one leads in the same term.
abbrev pub StillLeads : {T : Type 0} → Node T → Node T → Type 0
StillLeads n m = m.role ≡ leader → (n.role ≡ leader) × (get_current_term m ≡ get_current_term n)

module _ (ids : List ℕ) (H : History) (i : ℕ) {T : Type 0} where
  -- The same term, vote, role, votes, and messages.
  pub Agrees-frame :
      (n m : Node T)
      → get_current_term m ≡ get_current_term n
      → get_voted_for m ≡ get_voted_for n
      → m.role ≡ n.role
      → m.candidate_state ≡ n.candidate_state
      → m.my_id ≡ n.my_id
      → m.total_nodes ≡ n.total_nodes
      → m.incoming_request_vote_requests ≡ n.incoming_request_vote_requests
      → m.incoming_request_vote_responses ≡ n.incoming_request_vote_responses
      → m.sent ≡ n.sent
      → Agrees ids H i n
      → Agrees ids H i m
  Agrees-frame n m t v r cs id total q p s (b, l) =
      (Ballot-same ids H i n m t v r cs b, Letters-same ids H i n m id total q p s l)

  pub send-Agrees :
      (n : Node T) (who : ℕ) (resp : AppendEntriesResponse)
      → Agrees ids H i n
      → Agrees ids H i (send n who (append_entries_response resp))
  send-Agrees n who resp (b, l) = (
    SendsOnly-Ballot ids H i n _ (send-SendsOnly n who (append_entries_response resp)) b,
    send-Letters ids H i n who (append_entries_response resp) tt l,
  )

  redirect_commands-Agrees :
      (n : Node T) (id : ℕ)
      → Agrees ids H i n
      → Agrees ids H i (redirect_commands n id) × StillLeads n (redirect_commands n id)
  unfolding redirect_commands
  redirect_commands-Agrees n id a = elim (Bool-cases (is_leader n.role)) [
    | inl leads ↦ rw leads (a, λ e. (e, refl))
    | inr other ↦
        rw (other, redirect_lem (record n { incoming_commands = [] }) id n.incoming_commands)
          (Agrees-frame n _ refl refl refl refl refl refl refl refl refl a, λ e. (e, refl))
  ]

  check_prev-Agrees :
      (n : Node T) (req : AppendEntriesRequest) (found : Option LogItem)
      → Agrees ids H i n
      → Agrees ids H i (check_prev n req found).0 × StillLeads n (check_prev n req found).0
  unfolding check_prev accept_entries
  check_prev-Agrees n req none a = (a, λ e. (e, refl))
  check_prev-Agrees n req (some prev) a =
      elim (Bool-cases (prev.leader_term == req.prev_log_term)) [
        | inr other ↦ rw other (a, λ e. (e, refl))
        | inl same ↦ elim (Bool-cases (ltb (get_commit_index n) req.leader_commit)) [
          | inl ahead ↦
              rw (same, ahead)
                (Agrees-frame n _ refl refl refl refl refl refl refl refl refl a, λ e. (e, refl))
          | inr known ↦
              rw (same, known)
                (Agrees-frame n _ refl refl refl refl refl refl refl refl refl a, λ e. (e, refl))
        ]
      ]

  answer_append_entries-Agrees :
      (n : Node T) (req : AppendEntriesRequest)
      → Agrees ids H i n
      → Agrees ids H i (answer_append_entries n req).0
        × StillLeads n (answer_append_entries n req).0
  unfolding answer_append_entries
  answer_append_entries-Agrees n req a =
      elim (Bool-cases (ltb req.leader_term (get_current_term n))) [
        | inl stale ↦ rw stale (a, λ e. (e, refl))
        | inr current ↦
            let (a', s) = redirect_commands-Agrees n req.leader_id a in
            let (a'', s') = check_prev-Agrees (redirect_commands n req.leader_id) req _ a' in
            rw current (a'', λ e. let (e', t') = s' e in let (e'', t'') = s e' in (e'', t' ∙ t''))
      ]

module _ {T : Type 0} ⦃timer : ITimeout T⦄ (ids : List ℕ) (H : History) (i : ℕ) where
  pub observe_term-Agrees :
      (n : Node T) (t : ℕ)
      → Agrees ids H i n
      → Agrees ids H i (observe_term n t) × StillLeads n (observe_term n t)
  unfolding observe_term become_follower reset_election_timer
  observe_term-Agrees n t (b, l) = elim (Bool-cases (ltb (get_current_term n) t)) [
    | inr known ↦ rw known ((b, l), λ e. (e, refl))
    | inl newer ↦ rw newer (
      (
        record {
          below = λ u c h. ground (arith, b.below u c h);
          kept = λ c h. absurd (ground (arith, b.below t c h));
          won = λ e. cc;
          votes = λ cs e. cc;
        },
        Letters-same ids H i n _ refl refl refl refl refl l,
      ),
      λ e. cc,
    )
  ]

  pub receive_append_entries_request-Agrees :
      (n : Node T) (x : ℕ × AppendEntriesRequest)
      → Agrees ids H i n
      → Ensures (λ m. Agrees ids H i m × StillLeads n m) (receive_append_entries_request n x)
  unfolding receive_append_entries_request handle_append_entries_request reset_election_timer
  receive_append_entries_request-Agrees n (sender, req) a =
      elim (Bool-cases (contains sender n.channels)) [
        | inr unknown ↦ rw (unknown, Ensures) tt
        | inl known ↦
            let (a', s) = observe_term-Agrees n req.leader_term a in
            let n' = reset_election_timer (observe_term n req.leader_term) in
            let r = answer_append_entries n' req in
            let (a'', s') =
              answer_append_entries-Agrees ids H i n' req
                (Agrees-frame ids H i _ n' refl refl refl refl refl refl refl refl refl a') in
            let only = send-SendsOnly r.0 sender (append_entries_response r.1) in
            rw (known, Ensures)
              (
                send-Agrees ids H i r.0 sender r.1 a'',
                λ e.
                    let (e', t') = s' (sym only.role ∙ e) in
                    let (e'', t'') = s e' in (e'', ground (arith, only.state, t', t'')),
              )
      ]
