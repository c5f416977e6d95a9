-- ===== src/Cluster/Ballots/Responses.antt =====
-- hw2/src/consensus/node.cpp: what a node makes of the responses, by the votes of a cluster.
use to_ftds.Base.{
  ℕ, ◌≡◌, refl, inl, inr, true, false, Bool, Bool-cases, if◌then◌else◌, none, some, Option, List,
  ◌==◌, ok, need, ◌>>=◌, Ensures, Ensures-map, Ensures-both, length, set_insert,
  set_insert-Increasing, All-set_insert_of, arith,
}
use to_ftds.Timeout.{ITimeout}
use to_ftds.Consensus.State.{LeaderState, CandidateState}
use to_ftds.Consensus.Message.{AppendEntriesResponse, RequestVoteResponse}
use to_ftds.Consensus.Node.{Node, get_current_term}
use to_ftds.Consensus.Node.Roles.{
  is_leader, is_candidate, become_leader, send_append_entries_to_all,
}
use to_ftds.Consensus.Node.Responses.{
  is_quorum, note_append_entries, note_request_vote, count_vote, step_back, record_match,
  handle_append_entries_response, handle_request_vote_response,
}
use to_ftds.Consensus.Node.Ticks.{receive_append_entries_response, receive_request_vote_response}
use to_ftds.Consensus.Frame.{SendsOnly, send_append_entries_to_all-SendsOnly}
use to_ftds.Consensus.Leadership.{crowned}
use to_ftds.Cluster.Ballots.{
  History, Ballot, Letters, Answered, Agrees, Won, Collected, Letters-same, SendsOnly-Ballot,
}
use to_ftds.Cluster.Ballots.Sending.{send_append_entries_to_all-Letters}
use to_ftds.Cluster.Ballots.Requests.{Agrees-frame, observe_term-Agrees}

module _ (ids : List ℕ) (H : History) (i : ℕ) {T : Type 0} where
  pub send_append_entries_to_all-Agrees :
      (heartbeat : Bool) (n : Node T)
      → Agrees ids H i n
      → Ensures (Agrees ids H i) (send_append_entries_to_all heartbeat n)
  send_append_entries_to_all-Agrees heartbeat n (b, l) =
      Ensures-both (Ballot ids H i) (Letters ids H i) (send_append_entries_to_all heartbeat n)
        (Ensures-map (SendsOnly n) (Ballot ids H i) _
          (send_append_entries_to_all-SendsOnly heartbeat n)
          (λ m s. SendsOnly-Ballot ids H i n m s b))
        (send_append_entries_to_all-Letters ids H i heartbeat n l)

  become_leader-Agrees :
      (n : Node T)
      → Agrees ids H i n
      → Won ids H i (get_current_term n)
      → Ensures (Agrees ids H i) (become_leader n)
  unfolding become_leader
  become_leader-Agrees n (b, l) won = send_append_entries_to_all-Agrees true (crowned n) (
    record { below = b.below; kept = λ c h. inr refl; won = λ leads. won; votes = λ cs e. cc },
    Letters-same ids H i n _ refl refl refl refl refl l,
  )

  -- The vote that makes a quorum.
  pub count_vote-Won :
      (n : Node T) (id : ℕ) (cs : CandidateState)
      → Agrees ids H i n
      → n.candidate_state ≡ some cs
      → H id (get_current_term n) i
      → is_quorum n.total_nodes (length (set_insert id cs.votes)) ≡ true
      → Won ids H i (get_current_term n)
  count_vote-Won n id cs (b, l) here vote quorum =
      let (sorted, all) = b.votes cs here in
      (
        set_insert id cs.votes,
        (
          set_insert-Increasing id cs.votes sorted,
          All-set_insert_of (λ v. H v (get_current_term n) i) id cs.votes vote all,
        ),
        rw l.total at quorum,
      )

  count_vote-Agrees :
      (n : Node T) (id : ℕ) (cs : CandidateState)
      → Agrees ids H i n
      → n.candidate_state ≡ some cs
      → H id (get_current_term n) i
      → Ensures (Agrees ids H i) (count_vote n id cs)
  unfolding count_vote
  count_vote-Agrees n id cs (b, l) here vote =
      let (sorted, all) = b.votes cs here in
      let t = get_current_term n in
      let counted : Collected H i t (set_insert id cs.votes) = (
        set_insert-Increasing id cs.votes sorted,
        All-set_insert_of (λ v. H v t i) id cs.votes vote all,
      ) in
      let n' = record n { candidate_state = some (record { votes = set_insert id cs.votes }) } in
      let a' : Agrees ids H i n' = (
        record {
          below = b.below;
          kept = b.kept;
          won = b.won;
          votes = λ cs' e. collected (record { votes = set_insert id cs.votes }) cs' t e counted;
        },
        Letters-same ids H i n _ refl refl refl refl refl l,
      ) in
      elim (Bool-cases (is_quorum n.total_nodes (length (set_insert id cs.votes)))) [
        | inr few ↦ rw (few, Ensures) a'
        | inl quorum ↦
            rw quorum (become_leader-Agrees n' a' (count_vote-Won n id cs (b, l) here vote quorum))
      ]
    where
      collected :
          (a c : CandidateState) (t : ℕ)
          → some a ≡ some c
          → Collected H i t a.votes
          → Collected H i t c.votes
      collected a c t e h = let same : a ≡ c = cc in rw same at h

  note_request_vote-Agrees :
      (n : Node T) (resp : RequestVoteResponse) (id : ℕ)
      → Agrees ids H i n
      → Answered H i (id, resp)
      → Ensures (Agrees ids H i) (note_request_vote n resp id)
  unfolding note_request_vote
  note_request_vote-Agrees n resp id a answered =
      on_tests (is_candidate n.role) resp.vote_granted (resp.candidate_term == get_current_term n)
        n.candidate_state refl refl refl
    where
      on_tests :
          (runs granted now : Bool) (o : Option CandidateState)
          → resp.vote_granted ≡ granted
          → (resp.candidate_term == get_current_term n) ≡ now
          → n.candidate_state ≡ o
          → Ensures (Agrees ids H i) (
              if runs
              then (if granted then (if now then (need o >>= count_vote n id) else ok n) else ok n)
              else ok n)
      on_tests false granted now o eg en eo = a
      on_tests true false now o eg en eo = a
      on_tests true true false o eg en eo = a
      on_tests true true true none eg en eo = tt
      on_tests true true true (some cs) eg en eo =
          let same : resp.candidate_term ≡ get_current_term n = ground arith in
          count_vote-Agrees n id cs a eo (rw same at (answered eg))

  note_append_entries-Agrees :
      (n : Node T) (resp : AppendEntriesResponse) (id : ℕ)
      → Agrees ids H i n
      → Ensures (Agrees ids H i) (note_append_entries n resp id)
  unfolding note_append_entries
  note_append_entries-Agrees n resp id a =
      on_role (is_leader n.role) n.leader_state resp.success resp.matched_until
    where
      with_state : (ls : LeaderState) → Agrees ids H i (record n { leader_state = some ls })
      with_state ls = Agrees-frame ids H i n _ refl refl refl refl refl refl refl refl refl a

      on_role :
          (leads : Bool) (o : Option LeaderState) (success : Bool) (matched : Option ℕ)
          → Ensures (Agrees ids H i) (
              if leads
              then (need o >>= λ ls.
                  if success
                  then (need matched >>= λ until.
                      ok (record n { leader_state = some (record_match ls id until) }))
                  else ok (record n { leader_state = some (step_back ls id) }))
              else ok n)
      on_role false o success matched = a
      on_role true none success matched = tt
      on_role true (some ls) false matched = with_state _
      on_role true (some ls) true none = tt
      on_role true (some ls) true (some until) = with_state _

module _ {T : Type 0} ⦃timer : ITimeout T⦄ (ids : List ℕ) (H : History) (i : ℕ) where
  pub receive_append_entries_response-Agrees :
      (n : Node T) (x : ℕ × AppendEntriesResponse)
      → Agrees ids H i n
      → Ensures (Agrees ids H i) (receive_append_entries_response n x)
  unfolding receive_append_entries_response handle_append_entries_response
  receive_append_entries_response-Agrees n (sender, resp) a =
      note_append_entries-Agrees ids H i _ resp sender
        (observe_term-Agrees ids H i n resp.current_term a).0

  pub receive_request_vote_response-Agrees :
      (n : Node T) (x : ℕ × RequestVoteResponse)
      → Agrees ids H i n
      → Answered H i x
      → Ensures (Agrees ids H i) (receive_request_vote_response n x)
  unfolding receive_request_vote_response handle_request_vote_response
  receive_request_vote_response-Agrees n (sender, resp) a answered =
      note_request_vote-Agrees ids H i _ resp sender
        (observe_term-Agrees ids H i n resp.current_term a).0 answered
