-- ===== src/Cluster/Ballots/Ticks.antt =====
-- hw2/src/consensus/node.cpp: a round of `Tick`, by the votes of a cluster.
use to_ftds.Base.{
  ◌∷◌, ℕ, ◌≡◌, ◌≢◌, refl, ◌∙◌, true, List, [], All, Ensures, Ensures-map, >>=-Ensures, for_each,
  for_each-Keeps, for_each-Keeps_given, contains,
}
use to_ftds.Timeout.{ITimeout}
use to_ftds.Consensus.State.{leader}
use to_ftds.Consensus.Message.{RequestVoteRequest}
use to_ftds.Consensus.Node.{Node, get_current_term}
use to_ftds.Consensus.Node.Ticks.{
  receive_append_entries_request, receive_request_vote_request, receive_append_entries_response,
  receive_request_vote_response, take_messages, handle_incoming_messages,
}
use to_ftds.Cluster.Ballots.{
  History, Fair, Extends-refl, Extends-trans, Asked, Answered, Answered-mono, Agrees, Voted,
  All-map,
}
use to_ftds.Cluster.Ballots.Requests.{StillLeads, receive_append_entries_request-Agrees}
use to_ftds.Cluster.Ballots.Grants.{Polled, receive_request_vote_request-Polled}
use to_ftds.Cluster.Ballots.Responses.{
  receive_append_entries_response-Agrees, receive_request_vote_response-Agrees,
}

-- No candidate asks the leader for its vote in the leader's own term.
abbrev pub Unasked : {T : Type 0} → Node T → Type 0
Unasked n =
    n.role ≡ leader
    → All (λ (x : ℕ × RequestVoteRequest). x.1.candidate_term ≢ get_current_term n)
        n.incoming_request_vote_requests

pub All-both :
    {A : Type 0} (P Q : A → Type 0) (xs : List A) → All P xs → All Q xs → All (λ x. P x × Q x) xs
All-both P Q [] p q = tt
All-both P Q (x ∷ xs) p q = ((p.0, q.0), All-both P Q xs p.1 q.1)

module _ {T : Type 0} ⦃timer : ITimeout T⦄ (ids : List ℕ) (i : ℕ)
    (known : contains i ids ≡ true) where
  -- A vote request that waits for `n`.
  abbrev Waits : Node T → ℕ × RequestVoteRequest → Type 0
  Waits n x = Asked i x × (n.role ≡ leader → x.1.candidate_term ≢ get_current_term n)

  unasked_each :
      (n : Node T) (xs : List (ℕ × RequestVoteRequest))
      → (n.role ≡ leader
          → All (λ (x : ℕ × RequestVoteRequest). x.1.candidate_term ≢ get_current_term n) xs)
      → All
          (λ (x : ℕ × RequestVoteRequest).
            n.role ≡ leader → x.1.candidate_term ≢ get_current_term n)
          xs
  unasked_each n [] h = tt
  unasked_each n (x ∷ xs) h = (λ e. (h e).0, unasked_each n xs (λ e. (h e).1))

  vote_requests :
      (H : History) (n m : Node T) (xs : List (ℕ × RequestVoteRequest))
      → Polled ids H i n m
      → All (Waits n) xs
      → Ensures (Polled ids H i n) (for_each receive_request_vote_request m xs)
  vote_requests H n m xs polled waits =
      for_each-Keeps_given (Polled ids H i n) (Waits n) receive_request_vote_request
        (λ k x (K, grows, fair, a, s) w.
          Ensures-map (Polled ids K i k) (Polled ids H i n) (receive_request_vote_request k x)
            (receive_request_vote_request-Polled ids i known K k x fair a w.0
              (λ e. let (leads, same) = s e in λ asked. w.1 leads (asked ∙ same)))
            (λ k' (L, grows', fair', a', s'). (
              L,
              Extends-trans i H K L grows grows',
              fair',
              a',
              λ e. let (e', t') = s' e in let (e'', t'') = s e' in (e'', t' ∙ t''),
            )))
        m xs polled waits

  -- The first two of the four loops of `HandleIncomingMessages`.
  pub append_requests-Agrees :
      (H : History) (n : Node T)
      → Agrees ids H i n
      → Ensures
          (λ m. Agrees ids H i m × StillLeads n m)
          (for_each receive_append_entries_request
            (take_messages n)
            n.incoming_append_entries_requests)
  append_requests-Agrees H n (b, l) =
      let n0 = take_messages n in
      let a0 : Agrees ids H i n0 = (
        record { below = b.below; kept = b.kept; won = b.won; votes = b.votes },
        record { own = l.own; total = l.total; requests = tt; responses = tt; sent = l.sent },
      ) in
      let I = λ (m : Node T). Agrees ids H i m × StillLeads n m in
      for_each-Keeps I receive_append_entries_request
        (λ m x (a, s).
          Ensures-map (λ k. Agrees ids H i k × StillLeads m k) I _
            (receive_append_entries_request-Agrees ids H i m x a)
            (λ k (a', s').
              (a', λ e. let (e', t') = s' e in let (e'', t'') = s e' in (e'', t' ∙ t''))))
        n0 n.incoming_append_entries_requests (a0, λ e. (e, refl))

  pub vote_requests-Polled :
      (H : History) (n m : Node T)
      → Fair ids H
      → Agrees ids H i n
      → Unasked n
      → Agrees ids H i m
      → StillLeads n m
      → Ensures
          (Polled ids H i n)
          (for_each receive_request_vote_request m n.incoming_request_vote_requests)
  vote_requests-Polled H n m fair (b, l) unasked a s =
      vote_requests H n m n.incoming_request_vote_requests (H, Extends-refl i H, fair, a, s)
        (All-both _ _ n.incoming_request_vote_requests l.requests
          (unasked_each n n.incoming_request_vote_requests unasked))

  pub handle_incoming_messages-Voted :
      (H : History) (n : Node T)
      → Fair ids H
      → Agrees ids H i n
      → Unasked n
      → Ensures (Voted ids H i) (handle_incoming_messages n)
  unfolding handle_incoming_messages
  handle_incoming_messages-Voted H n fair (b, l) unasked =
      let I = λ (m : Node T). Agrees ids H i m × StillLeads n m in
      >>=-Ensures I (Voted ids H i)
        (for_each receive_append_entries_request (take_messages n)
          n.incoming_append_entries_requests)
        _ (append_requests-Agrees H n (b, l))
        λ n1 (a1, s1).
          >>=-Ensures (Polled ids H i n) (Voted ids H i)
            (for_each receive_request_vote_request n1 n.incoming_request_vote_requests) _
            (vote_requests-Polled H n n1 fair (b, l) unasked a1 s1)
            λ n2 (K, grows, fair', a2, s2).
              >>=-Ensures (Agrees ids K i) (Voted ids H i)
                (for_each receive_append_entries_response n2 n.incoming_append_entries_responses) _
                (for_each-Keeps (Agrees ids K i) receive_append_entries_response
                  (λ m x a. receive_append_entries_response-Agrees ids K i m x a) n2
                  n.incoming_append_entries_responses a2)
                λ n3 a3.
                  Ensures-map (Agrees ids K i) (Voted ids H i) _
                    (for_each-Keeps_given (Agrees ids K i) (Answered K i)
                      receive_request_vote_response
                      (λ m x a p. receive_request_vote_response-Agrees ids K i m x a p) n3
                      n.incoming_request_vote_responses a3
                      (All-map _ _ n.incoming_request_vote_responses
                        (Answered-mono ids H K grows.keeps i) l.responses))
                    (λ m a. (K, grows, fair', a))
