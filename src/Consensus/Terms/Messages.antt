-- ===== src/Consensus/Terms/Messages.antt =====
-- hw2/src/consensus/node.cpp: terms, roles and votes over `HandleIncomingMessages`.
use to_ftds.Base.{
  ℕ, ◌≤◌, max, ◌≡◌, refl, inl, inr, List, arith, ltb, Bool-cases, Outcome, Ensures, Ensures-map,
  >>=-Ensures, All, for_each-All, for_each, contains,
}
use to_ftds.Timeout.{ITimeout}
use to_ftds.Consensus.Message.{
  AppendEntriesRequest, AppendEntriesResponse, RequestVoteRequest, RequestVoteResponse,
  append_entries_response, request_vote_response,
}
use to_ftds.Consensus.Node.{Node, send, get_current_term}
use to_ftds.Consensus.Node.Roles.{become_follower, reset_election_timer}
use to_ftds.Consensus.Node.Requests.{
  observe_term, answer_vote, handle_append_entries_request, handle_request_vote_request,
}
use to_ftds.Consensus.Node.Responses.{
  note_append_entries, note_request_vote, handle_append_entries_response,
  handle_request_vote_response,
}
use to_ftds.Consensus.Node.Ticks.{
  receive_append_entries_request, receive_request_vote_request, receive_append_entries_response,
  receive_request_vote_response, take_messages, handle_incoming_messages,
}
use to_ftds.Consensus.Frame.{send-SendsOnly}
use to_ftds.Consensus.Terms.{
  Advance, Advance-refl, Advance-trans, Advance-same, Advance-later, SendsOnly-Advance,
  answer_append_entries-Advance, answer_vote-Advance, note_request_vote-Advance,
  note_append_entries-Advance,
}
use to_ftds.Consensus.Replication.{append_entries-Effect}

-- Every message that waits has a term of at most `bound`.
pub record MessagesBelow {T : Type 0} (bound : ℕ) (n : Node T) : Type 0 where
  pub append_entries_requests :
      All
        (λ (x : ℕ × AppendEntriesRequest). x.1.leader_term ≤ bound)
        n.incoming_append_entries_requests
  pub request_vote_requests :
      All
        (λ (x : ℕ × RequestVoteRequest). x.1.candidate_term ≤ bound)
        n.incoming_request_vote_requests
  pub append_entries_responses :
      All
        (λ (x : ℕ × AppendEntriesResponse). x.1.current_term ≤ bound)
        n.incoming_append_entries_responses
  pub request_vote_responses :
      All
        (λ (x : ℕ × RequestVoteResponse). x.1.current_term ≤ bound)
        n.incoming_request_vote_responses

module _ {T : Type 0} ⦃timer : ITimeout T⦄ where
  observe_term-Advance :
      (n : Node T) (t : ℕ)
      → Advance n (observe_term n t)
        × (get_current_term (observe_term n t) ≡ max (get_current_term n) t)
  unfolding observe_term become_follower reset_election_timer
  observe_term-Advance n t = elim (Bool-cases (ltb (get_current_term n) t)) [
    | inl newer ↦ rw newer (Advance-later n _ (ground arith), ground arith)
    | inr known ↦ rw known (Advance-refl n, ground arith)
  ]

  handle_append_entries_request-Advance :
      (n : Node T) (req : AppendEntriesRequest) → Advance n (handle_append_entries_request n req).0
  unfolding handle_append_entries_request reset_election_timer
  handle_append_entries_request-Advance n req =
      Advance-trans n (observe_term n req.leader_term) _ (observe_term-Advance n req.leader_term).0
        (Advance-trans _ (reset_election_timer (observe_term n req.leader_term)) _
          (Advance-same _ _ refl refl refl) (answer_append_entries-Advance _ req))

  handle_request_vote_request-Advance :
      (n : Node T) (req : RequestVoteRequest) → Advance n (handle_request_vote_request n req).0
  unfolding handle_request_vote_request
  handle_request_vote_request-Advance n req =
      Advance-trans n (observe_term n req.candidate_term) _
        (observe_term-Advance n req.candidate_term).0 (answer_vote-Advance _ req)

  handle_request_vote_request-term :
      (n : Node T) (req : RequestVoteRequest)
      → get_current_term (handle_request_vote_request n req).0
        ≡ max (get_current_term n) req.candidate_term
  unfolding handle_request_vote_request answer_vote
  handle_request_vote_request-term n req =
      ground (arith, (observe_term-Advance n req.candidate_term).1)

  abbrev pub Grows : ℕ → Node T → Node T → Type 0
  Grows bound n m = (get_current_term m ≤ bound) × Advance n m

  receive_append_entries_request-Grows :
      (bound : ℕ) (n : Node T) (x : ℕ × AppendEntriesRequest)
      → get_current_term n ≤ bound
      → x.1.leader_term ≤ bound
      → Ensures (Grows bound n) (receive_append_entries_request n x)
  unfolding receive_append_entries_request
  receive_append_entries_request-Grows bound n (sender, req) b t =
      elim (Bool-cases (contains sender n.channels)) [
        | inl known ↦ rw known (
            grown (handle_append_entries_request n req)
              (handle_append_entries_request-Advance n req) (append_entries-Effect n req).term)
        | inr other ↦ rw other tt
      ]
    where
      grown :
          (r : Node T × AppendEntriesResponse)
          → Advance n r.0
          → get_current_term r.0 ≡ max (get_current_term n) req.leader_term
          → Grows bound n (send r.0 sender (append_entries_response r.1))
      grown r a e = (
        ground (arith, send-SendsOnly r.0 sender (append_entries_response r.1)),
        Advance-trans n r.0 _ a
            (SendsOnly-Advance r.0 _ (send-SendsOnly r.0 sender (append_entries_response r.1))),
      )

  receive_request_vote_request-Grows :
      (bound : ℕ) (n : Node T) (x : ℕ × RequestVoteRequest)
      → get_current_term n ≤ bound
      → x.1.candidate_term ≤ bound
      → Ensures (Grows bound n) (receive_request_vote_request n x)
  unfolding receive_request_vote_request
  receive_request_vote_request-Grows bound n (sender, req) b t =
      elim (Bool-cases (contains sender n.channels)) [
        | inl known ↦ rw known (
            grown (handle_request_vote_request n req) (handle_request_vote_request-Advance n req)
              (handle_request_vote_request-term n req))
        | inr other ↦ rw other tt
      ]
    where
      grown :
          (r : Node T × RequestVoteResponse)
          → Advance n r.0
          → get_current_term r.0 ≡ max (get_current_term n) req.candidate_term
          → Grows bound n (send r.0 sender (request_vote_response r.1))
      grown r a e = (
        ground (arith, send-SendsOnly r.0 sender (request_vote_response r.1)),
        Advance-trans n r.0 _ a
            (SendsOnly-Advance r.0 _ (send-SendsOnly r.0 sender (request_vote_response r.1))),
      )

  receive_append_entries_response-Grows :
      (bound : ℕ) (n : Node T) (x : ℕ × AppendEntriesResponse)
      → get_current_term n ≤ bound
      → x.1.current_term ≤ bound
      → Ensures (Grows bound n) (receive_append_entries_response n x)
  unfolding receive_append_entries_response handle_append_entries_response
  receive_append_entries_response-Grows bound n (sender, resp) b t =
      let (a, e) = observe_term-Advance n resp.current_term in
      Ensures-map _ _ (note_append_entries (observe_term n resp.current_term) resp sender)
        (note_append_entries-Advance _ resp sender) λ m k. (omega arith, Advance-trans n _ m a k.0)

  receive_request_vote_response-Grows :
      (bound : ℕ) (n : Node T) (x : ℕ × RequestVoteResponse)
      → get_current_term n ≤ bound
      → x.1.current_term ≤ bound
      → Ensures (Grows bound n) (receive_request_vote_response n x)
  unfolding receive_request_vote_response handle_request_vote_response
  receive_request_vote_response-Grows bound n (sender, resp) b t =
      let (a, e) = observe_term-Advance n resp.current_term in
      Ensures-map _ _ (note_request_vote (observe_term n resp.current_term) resp sender)
        (note_request_vote-Advance _ resp sender) λ m k. (omega arith, Advance-trans n _ m a k.0)

  -- One of the four loops, from a node `m` that has grown from `n`.
  loop-Grows :
      {X : Type 0} (bound : ℕ) (P : X → Type 0) (body : Node T → X → Outcome (Node T))
      → ((m : Node T) (x : X)
          → get_current_term m ≤ bound
          → P x
          → Ensures (Grows bound m) (body m x))
      → (n m : Node T) (xs : List X) → Grows bound n m
      → All P xs
      → Ensures (Grows bound n) (for_each body m xs)
  loop-Grows bound P body each n m xs g ps =
      Ensures-map _ _ (for_each body m xs)
        (for_each-All (λ k. get_current_term k ≤ bound) P Advance body Advance-refl Advance-trans
          each m xs g.0 ps)
        (λ k h. (h.0, Advance-trans n m k g.1 h.1))

  pub handle_incoming_messages-Grows :
      (bound : ℕ) (n : Node T)
      → MessagesBelow bound n
      → get_current_term n ≤ bound
      → Ensures (Grows bound n) (handle_incoming_messages n)
  unfolding handle_incoming_messages
  handle_incoming_messages-Grows bound n below b =
      >>=-Ensures (Grows bound n) _ _ _
        (loop-Grows bound _ _ (receive_append_entries_request-Grows bound) n (take_messages n) _
          (b, Advance-same n _ refl refl refl) below.append_entries_requests)
        λ n1 g1.
          >>=-Ensures (Grows bound n) _ _ _
            (loop-Grows bound _ _ (receive_request_vote_request-Grows bound) n n1 _ g1
              below.request_vote_requests)
            λ n2 g2.
              >>=-Ensures (Grows bound n) _ _ _
                (loop-Grows bound _ _ (receive_append_entries_response-Grows bound) n n2 _ g2
                  below.append_entries_responses)
                λ n3 g3.
                  loop-Grows bound _ _ (receive_request_vote_response-Grows bound) n n3 _ g3
                    below.request_vote_responses
