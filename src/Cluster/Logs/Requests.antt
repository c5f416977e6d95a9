-- ===== src/Cluster/Logs/Requests.antt =====
-- hw2/src/consensus/node.cpp: `HandleAppendEntriesRequest` and `HandleRequestVoteRequest`, by the logs of a
-- cluster.
use to_ftds.Base.{
  ℕ, suc, ◌+◌, ◌≤◌, ◌^◌, ◌≡◌, refl, sym, ap, ◌∙◌, inl, inr, ◌&&◌, Bool-cases, none, some, Option,
  [], ltb, ◌==◌, length, get_elem?, Ensures, contains, arith,
}
use to_ftds.Timeout.{ITimeout}
use to_ftds.Consensus.State.{LogItem}
use to_ftds.Consensus.Message.{
  AppendEntriesRequest, RequestVoteRequest, append_entries_response, request_vote_response,
}
use to_ftds.Consensus.Node.{Node, get_current_term, get_log, get_commit_index}
use to_ftds.Consensus.Node.Roles.{is_leader, become_follower, reset_election_timer}
use to_ftds.Consensus.Node.Requests.{
  observe_term, redirect_commands, check_prev, accept_entries, answer_append_entries, may_vote,
  is_up_to_date, answer_vote, handle_append_entries_request, handle_request_vote_request,
}
use to_ftds.Consensus.Node.Ticks.{receive_append_entries_request, receive_request_vote_request}
use to_ftds.Consensus.Frame.{send-SendsOnly}
use to_ftds.Consensus.Replication.{redirect_lem}
use to_ftds.Cluster.Logs.{Book, Matches, Taken}
use to_ftds.Cluster.Logs.Merging.{Merged, put_entries-Merged}
use to_ftds.Cluster.Logs.Nodes.{Holds, Keeps-frame, Keeps-same, send-Keeps, SendsOnly-Short}

-- The entries of a request end before the end of 32 bits.
abbrev pub EndsEarly : AppendEntriesRequest → Type 0
EndsEarly req = suc req.prev_log_index + length req.entries ≤ 2 ^ 32

module _ {T : Type 0} (B : Book) (i : ℕ) (matches : (t : ℕ) → Matches B (B.logs t)) where
  -- The node with its log replaced, all else that counts here as it was.
  Merged-Holds :
      (n m : Node T) (req : AppendEntriesRequest)
      → Holds B i n
      → req.leader_term ≡ get_current_term n
      → Merged B (get_log n) req (get_log m)
      → EndsEarly req
      → get_current_term m ≡ get_current_term n
      → m.role ≡ n.role
      → m.leader_state ≡ n.leader_state
      → m.candidate_state ≡ n.candidate_state
      → m.incoming_append_entries_requests ≡ n.incoming_append_entries_requests
      → m.sent ≡ n.sent
      → Holds B i m
  Merged-Holds n m req (k, short) now merged early t r ls cs q s = (
    record {
      led = rw (t, r) k.led;
      leads = λ e.
          let (own, led) = k.leads (sym r ∙ e) in
          let same : get_log m ≡ get_log n = merged.own (sym own ∙ ap B.logs (sym now)) in
          (ap B.logs t ∙ own ∙ sym same, rw t led);
      log = merged.matches;
      next = rw ls k.next;
      candidate = rw (cs, t) k.candidate;
      waiting = rw q k.waiting;
      sent = rw s k.sent;
    },
    elim merged.bounded [
      | inl same ↦ omega (arith, short, ap length same)
      | inr ends ↦ omega (arith, early, ends)
    ],
  )

  accept_entries-Holds :
      (n : Node T) (req : AppendEntriesRequest) (p : LogItem)
      → Holds B i n
      → Taken B req
      → EndsEarly req
      → req.leader_term ≡ get_current_term n
      → get_elem? (get_log n) req.prev_log_index ≡ some p
      → p.leader_term ≡ req.prev_log_term
      → Holds B i (accept_entries n req).0
  unfolding accept_entries
  accept_entries-Holds n req p (k, short) taken early now found agrees =
      let merged =
        put_entries-Merged B (get_log n) req p k.log (matches req.leader_term) taken found agrees in
      elim (Bool-cases (ltb (get_commit_index n) req.leader_commit)) [
        | inl ahead ↦
            rw ahead
              (Merged-Holds n _ req (k, short) now merged early refl refl refl refl refl refl)
        | inr known ↦
            rw known
              (Merged-Holds n _ req (k, short) now merged early refl refl refl refl refl refl)
      ]

  check_prev-Holds :
      (n : Node T) (req : AppendEntriesRequest) (found : Option LogItem)
      → get_elem? (get_log n) req.prev_log_index ≡ found
      → Holds B i n
      → Taken B req
      → EndsEarly req
      → req.leader_term ≡ get_current_term n
      → Holds B i (check_prev n req found).0
  unfolding check_prev
  check_prev-Holds n req none e h taken early now = h
  check_prev-Holds n req (some p) e h taken early now =
      elim (Bool-cases (p.leader_term == req.prev_log_term)) [
        | inl same ↦ rw same (accept_entries-Holds n req p h taken early now e (ground arith))
        | inr other ↦ rw other h
      ]

  redirect_commands-Holds :
      (n : Node T) (id : ℕ)
      → Holds B i n
      → Holds B i (redirect_commands n id)
        × (get_current_term (redirect_commands n id) ≡ get_current_term n)
  unfolding redirect_commands
  redirect_commands-Holds n id (k, short) = elim (Bool-cases (is_leader n.role)) [
    | inl leads ↦ rw leads ((k, short), refl)
    | inr other ↦
        rw (other, redirect_lem (record n { incoming_commands = [] }) id n.incoming_commands)
          ((Keeps-same B i n _ refl refl refl refl refl refl refl k, short), refl)
  ]

  answer_append_entries-Holds :
      (n : Node T) (req : AppendEntriesRequest)
      → Holds B i n
      → Taken B req
      → EndsEarly req
      → req.leader_term ≤ get_current_term n
      → Holds B i (answer_append_entries n req).0
  unfolding answer_append_entries
  answer_append_entries-Holds n req h taken early seen =
      elim (Bool-cases (ltb req.leader_term (get_current_term n))) [
        | inl stale ↦ rw stale h
        | inr fresh ↦
            let (h', t) = redirect_commands-Holds n req.leader_id h in
            rw fresh (
              check_prev-Holds (redirect_commands n req.leader_id) req _ refl h' taken early
                (ground (arith, t, seen)))
      ]

module _ {T : Type 0} ⦃timer : ITimeout T⦄ (B : Book) (i : ℕ) where
  pub observe_term-Holds :
      (n : Node T) (t : ℕ)
      → Holds B i n
      → Holds B i (observe_term n t) × (t ≤ get_current_term (observe_term n t))
  unfolding observe_term become_follower reset_election_timer
  observe_term-Holds n t (k, short) = elim (Bool-cases (ltb (get_current_term n) t)) [
    | inr known ↦ rw known ((k, short), ground arith)
    | inl newer ↦ rw newer (
      (
        Keeps-frame B i n _ (ground arith) (λ same. absurd (ground arith)) (λ e. cc) refl
            (λ ls e. cc) (λ cs e. cc) refl refl k,
        short,
      ),
      omega arith,
    )
  ]

  pub receive_append_entries_request-Holds :
      (n : Node T) (x : ℕ × AppendEntriesRequest)
      → ((t : ℕ) → Matches B (B.logs t))
      → Holds B i n
      → Taken B x.1
      → EndsEarly x.1
      → Ensures (Holds B i) (receive_append_entries_request n x)
  unfolding receive_append_entries_request handle_append_entries_request reset_election_timer
  receive_append_entries_request-Holds n (sender, req) matches h taken early =
      elim (Bool-cases (contains sender n.channels)) [
        | inr unknown ↦ rw (unknown, Ensures) tt
        | inl known ↦
            let ((k, short), seen) = observe_term-Holds n req.leader_term h in
            let n' = reset_election_timer (observe_term n req.leader_term) in
            let r = answer_append_entries n' req in
            let (k', short') =
              answer_append_entries-Holds B i matches n' req
                (Keeps-same B i _ n' refl refl refl refl refl refl refl k, short) taken early
                seen in
            rw (known, Ensures)
              (
                send-Keeps B i r.0 sender (append_entries_response r.1) tt k',
                SendsOnly-Short B i r.0 _ (send-SendsOnly r.0 sender (append_entries_response r.1))
                    short',
              )
      ]

  answer_vote-Holds :
      (n : Node T) (req : RequestVoteRequest) → Holds B i n → Holds B i (answer_vote n req).0
  unfolding answer_vote
  answer_vote-Holds n req (k, short) =
      elim (Bool-cases (ltb req.candidate_term (get_current_term n))) [
        | inl stale ↦ rw stale (k, short)
        | inr fresh ↦ rw fresh (elim (Bool-cases (may_vote n req && is_up_to_date n req)) [
          | inl grants ↦ rw grants (Keeps-same B i n _ refl refl refl refl refl refl refl k, short)
          | inr refuses ↦ rw refuses (k, short)
        ])
      ]

  pub receive_request_vote_request-Holds :
      (n : Node T) (x : ℕ × RequestVoteRequest)
      → Holds B i n
      → Ensures (Holds B i) (receive_request_vote_request n x)
  unfolding receive_request_vote_request handle_request_vote_request
  receive_request_vote_request-Holds n (sender, req) h =
      elim (Bool-cases (contains sender n.channels)) [
        | inr unknown ↦ rw (unknown, Ensures) tt
        | inl known ↦
            let r = answer_vote (observe_term n req.candidate_term) req in
            let (k, short) =
              answer_vote-Holds (observe_term n req.candidate_term) req
                (observe_term-Holds n req.candidate_term h).0 in
            rw (known, Ensures)
              (
                send-Keeps B i r.0 sender (request_vote_response r.1) tt k,
                SendsOnly-Short B i r.0 _ (send-SendsOnly r.0 sender (request_vote_response r.1))
                    short,
              )
      ]
