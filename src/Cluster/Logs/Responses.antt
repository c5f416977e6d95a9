-- ===== src/Cluster/Logs/Responses.antt =====
-- hw2/src/consensus/node.cpp: what a node makes of the responses, by the logs of a cluster.
use to_ftds.Base.{
  ℕ, ◌<◌, ◌^◌, ◌≡◌, ◌≢◌, refl, inl, inr, true, false, Bool, Bool-cases, if◌then◌else◌, none, some,
  Option, List, ◌==◌, ok, need, ◌>>=◌, Ensures, length, set_insert, insert, lookup-insert, find_or,
  nat_key, arith,
}
use to_ftds.Timeout.{ITimeout}
use to_ftds.Consensus.State.{NodeState, leader, LeaderState, CandidateState}
use to_ftds.Consensus.Message.{AppendEntriesResponse, RequestVoteResponse}
use to_ftds.Consensus.Node.{Node, get_current_term}
use to_ftds.Consensus.Node.Roles.{is_leader, is_candidate, next_index_of}
use to_ftds.Consensus.Node.Responses.{
  is_quorum, note_append_entries, note_request_vote, count_vote, step_back, record_match,
  handle_append_entries_response, handle_request_vote_response,
}
use to_ftds.Consensus.Node.Ticks.{receive_append_entries_response, receive_request_vote_response}
use to_ftds.Cluster.Ballots.{History, Fair, Agrees, Answered}
use to_ftds.Cluster.Ballots.Requests.{observe_term-Agrees}
use to_ftds.Cluster.Ballots.Responses.{count_vote-Won}
use to_ftds.Cluster.Logs.{Book, Grows-refl}
use to_ftds.Cluster.Logs.Nodes.{Filed, Holds}
use to_ftds.Cluster.Logs.Requests.{observe_term-Holds}
use to_ftds.Cluster.Logs.Leading.{Carries, become_leader-Carries}

is_candidate_follows : (r : NodeState) → is_candidate r ≡ true → r ≢ leader
is_candidate_follows leader e = cc
is_candidate_follows NodeState.follower e = λ f. cc
is_candidate_follows NodeState.candidate e = λ f. cc

insert_small :
    (j v : ℕ) (m : List (ℕ × ℕ))
    → v < 2 ^ 64
    → ((id : ℕ) → find_or id 0 m < 2 ^ 64)
    → (id : ℕ) → find_or id 0 (insert j v m) < 2 ^ 64
insert_small j v m low all id = ground (arith, lookup-insert j id v m, all id)

step_back_small :
    (ls : LeaderState) (j : ℕ)
    → ((id : ℕ) → next_index_of ls id < 2 ^ 64)
    → (id : ℕ) → next_index_of (step_back ls j) id < 2 ^ 64
unfolding step_back
step_back_small ls j low = insert_small j _ ls.next_index (omega arith) low

record_match_small :
    (ls : LeaderState) (j until : ℕ)
    → ((id : ℕ) → next_index_of ls id < 2 ^ 64)
    → (id : ℕ) → next_index_of (record_match ls j until) id < 2 ^ 64
unfolding record_match
record_match_small ls j until low = insert_small j _ ls.next_index (omega (arith, low j)) low

module _ {T : Type 0} (B : Book) (i : ℕ) where
  with_state :
      (n : Node T) (ls : LeaderState)
      → ((id : ℕ) → next_index_of ls id < 2 ^ 64)
      → Holds B i n
      → Holds B i (record n { leader_state = some ls })
  with_state n ls low (k, short) = (
    record {
      led = k.led;
      leads = k.leads;
      log = k.log;
      next = λ l e. same_next ls l e low;
      candidate = k.candidate;
      waiting = k.waiting;
      sent = k.sent;
    },
    short,
  )
    where
      same_next :
          (a b : LeaderState)
          → some a ≡ some b
          → ((id : ℕ) → next_index_of a id < 2 ^ 64)
          → (id : ℕ) → next_index_of b id < 2 ^ 64
      same_next a b e h = let same : a ≡ b = cc in rw same at h

  note_append_entries-Holds :
      (n : Node T) (resp : AppendEntriesResponse) (id : ℕ)
      → Holds B i n
      → Ensures (Holds B i) (note_append_entries n resp id)
  unfolding note_append_entries
  note_append_entries-Holds n resp id h =
      on_role (is_leader n.role) n.leader_state refl resp.success resp.matched_until
    where
      on_role :
          (leads : Bool) (o : Option LeaderState)
          → n.leader_state ≡ o
          → (success : Bool) (matched : Option ℕ)
          → Ensures (Holds B i) (
              if leads
              then (need o >>= λ ls.
                  if success
                  then (need matched >>= λ until.
                      ok (record n { leader_state = some (record_match ls id until) }))
                  else ok (record n { leader_state = some (step_back ls id) }))
              else ok n)
      on_role false o e success matched = h
      on_role true none e success matched = tt
      on_role true (some ls) e false matched =
          with_state n (step_back ls id) (step_back_small ls id (h.0.next ls e)) h
      on_role true (some ls) e true none = tt
      on_role true (some ls) e true (some until) =
          with_state n (record_match ls id until) (record_match_small ls id until (h.0.next ls e)) h

module _ {T : Type 0} (ids : List ℕ) (H : History) (B : Book) (i : ℕ) (fair : Fair ids H)
    (filed : Filed ids H B) where
  count_vote-Carries :
      (n : Node T) (id : ℕ) (cs : CandidateState)
      → n.role ≢ leader
      → Agrees ids H i n
      → Holds B i n
      → n.candidate_state ≡ some cs
      → H id (get_current_term n) i
      → Ensures (Carries ids H B i) (count_vote n id cs)
  unfolding count_vote
  count_vote-Carries n id cs follows a (k, short) here vote =
      let n' = record n { candidate_state = some (record { votes = set_insert id cs.votes }) } in
      let positive = k.candidate cs here in
      let h' : Holds B i n' = (
        record {
          led = k.led;
          leads = k.leads;
          log = k.log;
          next = k.next;
          candidate = λ cs' e. positive;
          waiting = k.waiting;
          sent = k.sent;
        },
        short,
      ) in
      elim (Bool-cases (is_quorum n.total_nodes (length (set_insert id cs.votes)))) [
        | inr few ↦ rw (few, Ensures) (B, Grows-refl i B, filed, h')
        | inl quorum ↦ rw quorum (
            become_leader-Carries ids H B i fair filed n' follows positive
              (count_vote-Won ids H i n id cs a here vote quorum) h')
      ]

  note_request_vote-Carries :
      (n : Node T) (resp : RequestVoteResponse) (id : ℕ)
      → Agrees ids H i n
      → Answered H i (id, resp)
      → Holds B i n
      → Ensures (Carries ids H B i) (note_request_vote n resp id)
  unfolding note_request_vote
  note_request_vote-Carries n resp id a answered h =
      on_tests (is_candidate n.role) resp.vote_granted (resp.candidate_term == get_current_term n)
        n.candidate_state refl refl refl refl
    where
      same : Carries ids H B i n
      same = (B, Grows-refl i B, filed, h)

      on_tests :
          (runs granted now : Bool) (o : Option CandidateState)
          → is_candidate n.role ≡ runs
          → resp.vote_granted ≡ granted
          → (resp.candidate_term == get_current_term n) ≡ now
          → n.candidate_state ≡ o
          → Ensures (Carries ids H B i) (
              if runs
              then (if granted then (if now then (need o >>= count_vote n id) else ok n) else ok n)
              else ok n)
      on_tests false granted now o er eg en eo = same
      on_tests true false now o er eg en eo = same
      on_tests true true false o er eg en eo = same
      on_tests true true true none er eg en eo = tt
      on_tests true true true (some cs) er eg en eo =
          let here : resp.candidate_term ≡ get_current_term n = ground arith in
          count_vote-Carries n id cs (is_candidate_follows n.role er) a h eo
            (rw here at (answered eg))

module _ {T : Type 0} ⦃timer : ITimeout T⦄ where
  pub receive_append_entries_response-Holds :
      (B : Book) (i : ℕ) (n : Node T) (x : ℕ × AppendEntriesResponse)
      → Holds B i n
      → Ensures (Holds B i) (receive_append_entries_response n x)
  unfolding receive_append_entries_response handle_append_entries_response
  receive_append_entries_response-Holds B i n (sender, resp) h =
      note_append_entries-Holds B i _ resp sender (observe_term-Holds B i n resp.current_term h).0

  pub receive_request_vote_response-Carries :
      (ids : List ℕ) (H : History) (B : Book) (i : ℕ) (n : Node T) (x : ℕ × RequestVoteResponse)
      → Fair ids H
      → Filed ids H B
      → Agrees ids H i n
      → Answered H i x
      → Holds B i n
      → Ensures (Carries ids H B i) (receive_request_vote_response n x)
  unfolding receive_request_vote_response handle_request_vote_response
  receive_request_vote_response-Carries ids H B i n (sender, resp) fair filed a answered h =
      note_request_vote-Carries ids H B i fair filed _ resp sender
        (observe_term-Agrees ids H i n resp.current_term a).0 answered
        (observe_term-Holds B i n resp.current_term h).0
