-- ===== src/Consensus/Wellformed/Keeps.antt =====
-- hw2/src/consensus/node.cpp: `HandleIncomingMessages` with any messages.
use to_ftds.Base.{
  ℕ, ◌≡◌, refl, sym, ◌∙◌, ◌⊎◌, inl, inr, true, List, none, Bool-cases, Option-cases, Ensures,
  >>=-Ensures, Returns-Ensures, ◌>>=◌, for_each, for_each-Keeps, contains,
}
use to_ftds.Timeout.{ITimeout}
use to_ftds.Consensus.Message.{AppendEntriesRequest, AppendEntriesResponse, RequestVoteRequest}
use to_ftds.Consensus.Node.{Node}
use to_ftds.Consensus.Node.Roles.{is_leader}
use to_ftds.Consensus.Node.Requests.{observe_term}
use to_ftds.Consensus.Node.Responses.{note_append_entries, handle_append_entries_response}
use to_ftds.Consensus.Node.Ticks.{
  receive_append_entries_request, receive_request_vote_request, receive_append_entries_response,
  receive_request_vote_response, take_messages, handle_incoming_messages,
}
use to_ftds.Consensus.Wellformed.{Wellformed, Wellformed-same, observe_term-Wellformed}
use to_ftds.Consensus.Wellformed.Messages.{
  Matched, some_not_none, receive_append_entries_request-Returns,
  receive_request_vote_request-Returns, receive_append_entries_response-Returns,
  receive_request_vote_response-Returns,
}

success_cases :
    (resp : AppendEntriesResponse) (sender : ℕ)
    → Matched (sender, resp) ⊎ ((resp.success ≡ true) × (resp.matched_until ≡ none))
success_cases resp sender = elim (Option-cases resp.matched_until) [
  | inr (until, e) ↦ inl (λ accepted nothing. some_not_none until (sym e ∙ nothing))
  | inl nothing ↦ elim (Bool-cases resp.success) [
    | inl accepted ↦ inr (accepted, nothing)
    | inr refused ↦ inl (λ accepted. cc)
  ]
]

module _ {T : Type 0} ⦃timer : ITimeout T⦄ (channels : List ℕ) where
  keeps_append_entries_request :
      (n : Node T) (x : ℕ × AppendEntriesRequest)
      → Wellformed channels n
      → Ensures (Wellformed channels) (receive_append_entries_request n x)
  unfolding receive_append_entries_request
  keeps_append_entries_request n (sender, req) w = elim (Bool-cases (contains sender n.channels)) [
    | inl inside ↦
        Returns-Ensures (Wellformed channels) (receive_append_entries_request n (sender, req)) (
          receive_append_entries_request-Returns channels n (sender, req) w
            (rw w.same_channels at inside))
    | inr unknown ↦ rw (unknown, Ensures) tt
  ]

  keeps_request_vote_request :
      (n : Node T) (x : ℕ × RequestVoteRequest)
      → Wellformed channels n
      → Ensures (Wellformed channels) (receive_request_vote_request n x)
  unfolding receive_request_vote_request
  keeps_request_vote_request n (sender, req) w = elim (Bool-cases (contains sender n.channels)) [
    | inl inside ↦
        Returns-Ensures (Wellformed channels) (receive_request_vote_request n (sender, req)) (
          receive_request_vote_request-Returns channels n (sender, req) w
            (rw w.same_channels at inside))
    | inr unknown ↦ rw (unknown, Ensures) tt
  ]

  keeps_append_entries_response :
      (n : Node T) (x : ℕ × AppendEntriesResponse)
      → Wellformed channels n
      → Ensures (Wellformed channels) (receive_append_entries_response n x)
  unfolding receive_append_entries_response handle_append_entries_response note_append_entries
  keeps_append_entries_response n (sender, resp) w = elim (success_cases resp sender) [
    | inl matched ↦
        Returns-Ensures (Wellformed channels) (receive_append_entries_response n (sender, resp))
          (receive_append_entries_response-Returns channels n (sender, resp) w matched)
    | inr (accepted, nothing) ↦
        let m = observe_term n resp.current_term in
        let w' = observe_term-Wellformed channels n resp.current_term w in
        elim (Bool-cases (is_leader m.role)) [
          | inr other ↦ rw (other, Ensures) w'
          | inl leads ↦ elim (Option-cases m.leader_state) [
            | inl no_state ↦ rw (leads, no_state, Ensures) tt
            | inr (ls, has) ↦ rw (leads, has, ◌>>=◌, accepted, nothing, Ensures) tt
          ]
        ]
  ]

  pub handle_incoming_messages-Keeps :
      (n : Node T)
      → Wellformed channels n
      → Ensures (Wellformed channels) (handle_incoming_messages n)
  unfolding handle_incoming_messages
  handle_incoming_messages-Keeps n w =
      let W = Wellformed channels in
      >>=-Ensures W W
        (for_each receive_append_entries_request (take_messages n)
          n.incoming_append_entries_requests)
        _
        (for_each-Keeps W receive_append_entries_request keeps_append_entries_request
          (take_messages n) n.incoming_append_entries_requests
          (Wellformed-same channels n _ refl refl refl refl refl refl w.has_item w))
        λ n1 w1.
          >>=-Ensures W W
            (for_each receive_request_vote_request n1 n.incoming_request_vote_requests) _
            (for_each-Keeps W receive_request_vote_request keeps_request_vote_request n1
              n.incoming_request_vote_requests w1)
            λ n2 w2.
              >>=-Ensures W W
                (for_each receive_append_entries_response n2 n.incoming_append_entries_responses) _
                (for_each-Keeps W receive_append_entries_response keeps_append_entries_response n2
                  n.incoming_append_entries_responses w2)
                λ n3 w3.
                  for_each-Keeps W receive_request_vote_response
                    (λ m x h.
                      Returns-Ensures W (receive_request_vote_response m x)
                        (receive_request_vote_response-Returns channels m x h tt))
                    n3 n.incoming_request_vote_responses w3
