-- ===== src/Consensus/Wellformed/Messages.antt =====
-- hw2/src/consensus/node.cpp: `HandleIncomingMessages` of a node with the state for its role.
use to_ftds.Base.{
  ℕ, ◌≡◌, ◌≢◌, refl, inl, inr, true, List, [], ◌∷◌, Option, none, some, length, Bool-cases,
  Option-cases, Returns, >>=-Returns, All, for_each, for_each-Returns, contains, ◌==◌, set_insert,
}
use to_ftds.Timeout.{ITimeout}
use to_ftds.Consensus.State.{NodeState, leader, follower, candidate, LeaderState, CandidateState}
use to_ftds.Consensus.Message.{
  AppendEntriesRequest, AppendEntriesResponse, RequestVoteRequest, RequestVoteResponse,
  append_entries_response, request_vote_response,
}
use to_ftds.Consensus.Node.{Node, get_current_term, get_voted_for}
use to_ftds.Consensus.Node.Roles.{is_leader, is_candidate, become_leader}
use to_ftds.Consensus.Node.Requests.{
  observe_term, handle_append_entries_request, handle_request_vote_request,
}
use to_ftds.Consensus.Node.Responses.{
  is_quorum, note_append_entries, note_request_vote, count_vote, step_back, record_match,
  handle_append_entries_response, handle_request_vote_response,
}
use to_ftds.Consensus.Node.Ticks.{
  receive_append_entries_request, receive_request_vote_request, receive_append_entries_response,
  receive_request_vote_response, take_messages, handle_incoming_messages,
}
use to_ftds.Consensus.Frame.{send-SendsOnly}
use to_ftds.Consensus.Leadership.{crowned, become_leader-Returns}
use to_ftds.Consensus.Wellformed.{
  RoleState, Wellformed, Wellformed-same, SendsOnly-Wellformed, observe_term-Wellformed,
  handle_append_entries_request-Wellformed, handle_request_vote_request-Wellformed,
}

-- The sender has a channel.
abbrev pub Known : {A : Type 0} → List ℕ → ℕ × A → Type 0
Known channels x = contains x.0 channels ≡ true

-- A success says up to which index the logs match.
abbrev pub Matched : ℕ × AppendEntriesResponse → Type 0
Matched x = x.1.success ≡ true → x.1.matched_until ≢ none

-- What waits for the node are messages of nodes it knows.
pub record MessagesKnown {T : Type 0} (channels : List ℕ) (n : Node T) : Type 0 where
  pub append_entries_requests : All (Known channels) n.incoming_append_entries_requests
  pub request_vote_requests : All (Known channels) n.incoming_request_vote_requests
  pub append_entries_responses : All Matched n.incoming_append_entries_responses

pub leader_has :
    (role : NodeState) (ls : Option LeaderState) (cs : Option CandidateState) (vote : Option ℕ)
    (my_id : ℕ)
    → RoleState role ls cs vote my_id
    → is_leader role ≡ true
    → (role ≡ leader) × (x : LeaderState) × (ls ≡ some x) × (cs ≡ none)
leader_has leader none cs vote my_id s leads = absurd (s.0 refl)
leader_has leader (some x) cs vote my_id s leads = (refl, x, refl, s.1)
leader_has candidate ls cs vote my_id s leads = cc
leader_has follower ls cs vote my_id s leads = cc

candidate_has :
    (role : NodeState) (ls : Option LeaderState) (cs : Option CandidateState) (vote : Option ℕ)
    (my_id : ℕ)
    → RoleState role ls cs vote my_id
    → is_candidate role ≡ true
    → (role ≡ candidate) × (x : CandidateState) × (cs ≡ some x) × (ls ≡ none) × (vote ≡ some my_id)
candidate_has candidate ls none vote my_id s runs = absurd (s.1 refl)
candidate_has candidate ls (some x) vote my_id s runs = (refl, x, refl, s.0, s.2)
candidate_has leader ls cs vote my_id s runs = cc
candidate_has follower ls cs vote my_id s runs = cc

pub any : {A : Type 0} (xs : List A) → All (λ _. Unit {0}) xs
any [] = tt
any (x ∷ xs) = (tt, any xs)

pub some_not_none : {A : Type 0} (a : A) → some a ≢ none
some_not_none a = λ e. cc

module _ {T : Type 0} (channels : List ℕ) where
  note_append_entries-Returns :
      (n : Node T) (resp : AppendEntriesResponse) (id : ℕ)
      → Wellformed channels n
      → Matched (id, resp)
      → Returns (Wellformed channels) (note_append_entries n resp id)
  unfolding note_append_entries
  note_append_entries-Returns n resp id w matched = elim (Bool-cases (is_leader n.role)) [
    | inr other ↦ rw other (n, refl, w)
    | inl leads ↦
        let (role, ls, has, no_cs) =
          leader_has n.role n.leader_state n.candidate_state (get_voted_for n) n.my_id w.has_state
            leads in
        let led : (x : LeaderState) → Wellformed channels (record n { leader_state = some x }) =
          λ x. record {
            has_state = rw role (some_not_none x, no_cs);
            has_item = w.has_item;
            same_channels = w.same_channels;
          } in
        rw (leads, has)
          (elim (Bool-cases resp.success) [
            | inr refused ↦ rw refused (_, refl, led (step_back ls id))
            | inl accepted ↦ elim (Option-cases resp.matched_until) [
              | inl nothing ↦ absurd (matched accepted nothing)
              | inr (until, e) ↦ rw (accepted, e) (_, refl, led (record_match ls id until))
            ]
          ])
  ]

  become_leader-Wellformed :
      (n : Node T) → Wellformed channels n → Returns (Wellformed channels) (become_leader n)
  become_leader-Wellformed n w =
      let (m, e, (s, c)) = become_leader-Returns n w.has_item in
      (
        m,
        e,
        SendsOnly-Wellformed channels (crowned n) m s (record {
          has_state = (some_not_none _, refl);
          has_item = w.has_item;
          same_channels = w.same_channels;
        }),
      )

  note_request_vote-Returns :
      (n : Node T) (resp : RequestVoteResponse) (id : ℕ)
      → Wellformed channels n
      → Returns (Wellformed channels) (note_request_vote n resp id)
  unfolding note_request_vote count_vote
  note_request_vote-Returns n resp id w = elim (Bool-cases (is_candidate n.role)) [
    | inr other ↦ rw other (n, refl, w)
    | inl runs ↦
        let (role, cs, has, no_ls, own) =
          candidate_has n.role n.leader_state n.candidate_state (get_voted_for n) n.my_id
            w.has_state runs in
        let votes = set_insert id cs.votes in
        let counted : Wellformed channels
            (record n { candidate_state = some (record { votes = votes }) }) =
          record {
            has_state = rw role (no_ls, some_not_none _, own);
            has_item = w.has_item;
            same_channels = w.same_channels;
          } in
        elim (Bool-cases resp.vote_granted) [
          | inr refused ↦ rw (runs, refused) (n, refl, w)
          | inl granted ↦ elim (Bool-cases (resp.candidate_term == get_current_term n)) [
            | inr old ↦ rw (runs, granted, old) (n, refl, w)
            | inl now ↦
                rw (runs, granted, now, has)
                  (elim (Bool-cases (is_quorum n.total_nodes (length votes))) [
                    | inl quorum ↦ rw quorum (become_leader-Wellformed _ counted)
                    | inr few ↦ rw few (_, refl, counted)
                  ])
          ]
        ]
  ]

module _ {T : Type 0} ⦃timer : ITimeout T⦄ (channels : List ℕ) where
  pub receive_append_entries_request-Returns :
      (n : Node T) (x : ℕ × AppendEntriesRequest)
      → Wellformed channels n
      → Known channels x
      → Returns (Wellformed channels) (receive_append_entries_request n x)
  unfolding receive_append_entries_request
  receive_append_entries_request-Returns n (sender, req) w known =
      let m = handle_append_entries_request n req in
      let inside : contains sender n.channels ≡ true = rw w.same_channels known in
      rw inside (
        _,
        refl,
        SendsOnly-Wellformed channels m.0 _
            (send-SendsOnly m.0 sender (append_entries_response m.1))
            (handle_append_entries_request-Wellformed channels n req w),
      )

  pub receive_request_vote_request-Returns :
      (n : Node T) (x : ℕ × RequestVoteRequest)
      → Wellformed channels n
      → Known channels x
      → Returns (Wellformed channels) (receive_request_vote_request n x)
  unfolding receive_request_vote_request
  receive_request_vote_request-Returns n (sender, req) w known =
      let m = handle_request_vote_request n req in
      let inside : contains sender n.channels ≡ true = rw w.same_channels known in
      rw inside (
        _,
        refl,
        SendsOnly-Wellformed channels m.0 _ (send-SendsOnly m.0 sender (request_vote_response m.1))
            (handle_request_vote_request-Wellformed channels n req w),
      )

  pub receive_append_entries_response-Returns :
      (n : Node T) (x : ℕ × AppendEntriesResponse)
      → Wellformed channels n
      → Matched x
      → Returns (Wellformed channels) (receive_append_entries_response n x)
  unfolding receive_append_entries_response handle_append_entries_response
  receive_append_entries_response-Returns n (sender, resp) w matched =
      note_append_entries-Returns channels (observe_term n resp.current_term) resp sender
        (observe_term-Wellformed channels n resp.current_term w) matched

  pub receive_request_vote_response-Returns :
      (n : Node T) (x : ℕ × RequestVoteResponse)
      → Wellformed channels n
      → Unit {0}
      → Returns (Wellformed channels) (receive_request_vote_response n x)
  unfolding receive_request_vote_response handle_request_vote_response
  receive_request_vote_response-Returns n (sender, resp) w _ =
      note_request_vote-Returns channels (observe_term n resp.current_term) resp sender
        (observe_term-Wellformed channels n resp.current_term w)

  -- HandleIncomingMessages of a node that has the state for its role returns, where the senders of requests
  -- have channels and each success says how far the logs match.
  pub handle_incoming_messages-Returns :
      (n : Node T)
      → Wellformed channels n
      → MessagesKnown channels n
      → Returns (Wellformed channels) (handle_incoming_messages n)
  unfolding handle_incoming_messages
  handle_incoming_messages-Returns n w known =
      let W = Wellformed channels in
      >>=-Returns W W
        (for_each receive_append_entries_request (take_messages n)
          n.incoming_append_entries_requests)
        _
        (for_each-Returns W (Known channels) receive_append_entries_request
          receive_append_entries_request-Returns (take_messages n)
          n.incoming_append_entries_requests
          (Wellformed-same channels n _ refl refl refl refl refl refl w.has_item w)
          known.append_entries_requests)
        λ n1 w1.
          >>=-Returns W W
            (for_each receive_request_vote_request n1 n.incoming_request_vote_requests) _
            (for_each-Returns W (Known channels) receive_request_vote_request
              receive_request_vote_request-Returns n1 n.incoming_request_vote_requests w1
              known.request_vote_requests)
            λ n2 w2.
              >>=-Returns W W
                (for_each receive_append_entries_response n2 n.incoming_append_entries_responses) _
                (for_each-Returns W Matched receive_append_entries_response
                  receive_append_entries_response-Returns n2 n.incoming_append_entries_responses w2
                  known.append_entries_responses)
                λ n3 w3.
                  for_each-Returns W (λ _. Unit {0}) receive_request_vote_response
                    receive_request_vote_response-Returns n3 n.incoming_request_vote_responses w3
                    (any n.incoming_request_vote_responses)
