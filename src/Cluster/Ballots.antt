-- ===== src/Cluster/Ballots.antt =====
-- hw2/src/consensus/node.cpp and hw2/src/worker/worker.cpp: the votes of a cluster. A history says which
-- votes were granted; a node's state and the messages about votes agree with it.
pub mod Sending
pub mod Requests
pub mod Grants
pub mod Responses
pub mod Ticks
pub mod Rounds
use to_ftds.Base.{
  ◌∷◌, [], ℕ, ◌≤◌, ◌≡◌, ◌≢◌, ◌⊎◌, inl, inr, refl, sym, ap, ◌∙◌, subst, true, none, some, List, All,
  length, contains, Increasing, arith,
}
use to_ftds.Consensus.State.{State, leader, CandidateState}
use to_ftds.Consensus.Message.{
  Message, RequestVoteRequest, RequestVoteResponse, append_entries_request, append_entries_response,
  request_vote_request, request_vote_response,
}
use to_ftds.Consensus.Node.{Node, get_current_term, get_voted_for}
use to_ftds.Consensus.Node.Responses.{is_quorum}
use to_ftds.Consensus.Frame.{SendsOnly}
use to_ftds.Consensus.Quiet.{Quiet}
use to_ftds.Communication.{to_int32, from_int32}

-- Whether a voter has granted its vote in a term to a candidate.
abbrev pub History : Type 1
History = ℕ → ℕ → ℕ → Type 0

-- A term that the transfer from node to node does not change.
abbrev pub Canonical : ℕ → Type 0
Canonical t = from_int32 (to_int32 t) ≡ t

-- The voters are nodes of the cluster, and each grants a term's vote to one candidate.
pub record Fair (ids : List ℕ) (H : History) : Type 0 where
  pub voters : (v t c : ℕ) → H v t c → contains v ids ≡ true
  pub one : (v t c d : ℕ) → H v t c → H v t d → c ≡ d

-- The second history has all of the first, and what it has more are votes of the node `i`.
pub record Extends (i : ℕ) (H K : History) : Type 0 where
  pub keeps : (v t c : ℕ) → H v t c → K v t c
  pub others : (v t c : ℕ) → v ≢ i → K v t c → H v t c

pub Extends-refl : (i : ℕ) (H : History) → Extends i H H
Extends-refl i H = record { keeps = λ v t c h. h; others = λ v t c ne h. h }

pub Extends-trans : (i : ℕ) (H K L : History) → Extends i H K → Extends i K L → Extends i H L
Extends-trans i H K L a b = record {
  keeps = λ v t c h. b.keeps v t c (a.keeps v t c h);
  others = λ v t c ne h. a.others v t c ne (b.others v t c ne h);
}

abbrev pub Collected : History → ℕ → ℕ → List ℕ → Type 0
Collected H i t votes = Increasing votes × All (λ v. H v t i) votes

-- The votes of a quorum.
abbrev pub Won : List ℕ → History → ℕ → ℕ → Type 0
Won ids H i t =
    (votes : List ℕ) × Collected H i t votes × (is_quorum (length ids) (length votes) ≡ true)

-- The state of the node `i`: it votes in no term after its own, it remembers the vote of its own term unless
-- it leads, a leader has won, and a candidate counts votes that were granted to it.
pub record Ballot {T : Type 0} (ids : List ℕ) (H : History) (i : ℕ) (n : Node T) : Type 0 where
  pub below : (t c : ℕ) → H i t c → t ≤ get_current_term n
  pub kept : (c : ℕ) → H i (get_current_term n) c → (get_voted_for n ≡ some c) ⊎ (n.role ≡ leader)
  pub won : n.role ≡ leader → Won ids H i (get_current_term n)
  pub votes :
      (cs : CandidateState)
      → n.candidate_state ≡ some cs
      → Collected H i (get_current_term n) cs.votes

-- A request comes from the candidate itself.
abbrev pub Asked : ℕ → ℕ × RequestVoteRequest → Type 0
Asked i (sender, req) = (req.candidate_id ≡ sender) × ((sender ≡ i) ⊎ Canonical req.candidate_term)

-- The vote of a response was granted.
abbrev pub Answered : History → ℕ → ℕ × RequestVoteResponse → Type 0
Answered H i (sender, resp) = resp.vote_granted ≡ true → H sender resp.candidate_term i

-- What the node `i` may send to `who`.
abbrev pub Ready : History → ℕ → ℕ → Message → Type 0
Ready H i who (append_entries_request req) = Unit
Ready H i who (append_entries_response resp) = Unit
Ready H i who (request_vote_request req) = req.candidate_id ≡ i
Ready H i who (request_vote_response resp) =
    resp.vote_granted ≡ true
    → H i resp.candidate_term who × ((who ≡ i) ⊎ Canonical resp.candidate_term)

pub record Letters {T : Type 0} (ids : List ℕ) (H : History) (i : ℕ) (n : Node T) : Type 0 where
  pub own : n.my_id ≡ i
  pub total : n.total_nodes ≡ length ids
  pub requests : All (Asked i) n.incoming_request_vote_requests
  pub responses : All (Answered H i) n.incoming_request_vote_responses
  pub sent : All (λ (x : ℕ × Message). (x.0 ≢ i) × Ready H i x.0 x.1) n.sent

-- A node agrees with the history.
abbrev pub Agrees : {T : Type 0} → List ℕ → History → ℕ → Node T → Type 0
Agrees ids H i n = Ballot ids H i n × Letters ids H i n

-- It agrees with a history that has its own votes more.
abbrev pub Voted : {T : Type 0} → List ℕ → History → ℕ → Node T → Type 1
Voted ids H i n = (K : History) × Extends i H K × Fair ids K × Agrees ids K i n

pub All-map :
    {A : Type 0} (P Q : A → Type 0) (xs : List A) → ((x : A) → P x → Q x) → All P xs → All Q xs
All-map P Q [] f h = tt
All-map P Q (x ∷ xs) f h = (f x h.0, All-map P Q xs f h.1)

module _ (ids : List ℕ) (H : History) (i : ℕ) {T : Type 0} where
  pub Ballot-same :
      (n m : Node T)
      → get_current_term m ≡ get_current_term n
      → get_voted_for m ≡ get_voted_for n
      → m.role ≡ n.role
      → m.candidate_state ≡ n.candidate_state
      → Ballot ids H i n
      → Ballot ids H i m
  Ballot-same n m t v r cs b = record {
    below = rw t b.below;
    kept = rw (t, v, r) b.kept;
    won = rw (t, r) b.won;
    votes = rw (t, cs) b.votes;
  }

  pub SendsOnly-Ballot : (n m : Node T) → SendsOnly n m → Ballot ids H i n → Ballot ids H i m
  SendsOnly-Ballot n m s b =
      Ballot-same n m (ap (λ (x : State). x.persistent_state.current_term) s.state)
        (ap (λ (x : State). x.persistent_state.voted_for) s.state) s.role s.candidate_state b

  pub Letters-same :
      (n m : Node T)
      → m.my_id ≡ n.my_id
      → m.total_nodes ≡ n.total_nodes
      → m.incoming_request_vote_requests ≡ n.incoming_request_vote_requests
      → m.incoming_request_vote_responses ≡ n.incoming_request_vote_responses
      → m.sent ≡ n.sent
      → Letters ids H i n
      → Letters ids H i m
  Letters-same n m id total q r s l = record {
    own = id ∙ l.own;
    total = total ∙ l.total;
    requests = rw q l.requests;
    responses = rw r l.responses;
    sent = rw s l.sent;
  }

  pub Agrees-same : (n m : Node T) → Quiet n m → Agrees ids H i n → Agrees ids H i m
  Agrees-same n m q (b, l) = (
    Ballot-same n m q.term q.vote q.role q.candidate_state b,
    Letters-same n m q.my_id q.total_nodes q.request_vote_requests q.request_vote_responses q.sent
        l,
  )

-- What a history has, a longer one has too.
module _ (ids : List ℕ) (H K : History) (keeps : (v t c : ℕ) → H v t c → K v t c) where
  pub Won-mono : (i t : ℕ) → Won ids H i t → Won ids K i t
  Won-mono i t (votes, (sorted, all), quorum) =
      (votes, (sorted, All-map _ _ votes (λ v h. keeps v t i h) all), quorum)

  Ready-mono : (i who : ℕ) (msg : Message) → Ready H i who msg → Ready K i who msg
  Ready-mono i who (append_entries_request req) h = tt
  Ready-mono i who (append_entries_response resp) h = tt
  Ready-mono i who (request_vote_request req) h = h
  Ready-mono i who (request_vote_response resp) h =
      λ granted. let (vote, fits) = h granted in (keeps i resp.candidate_term who vote, fits)

  pub Answered-mono : (i : ℕ) (x : ℕ × RequestVoteResponse) → Answered H i x → Answered K i x
  Answered-mono i (sender, resp) h = λ granted. keeps sender resp.candidate_term i (h granted)

  pub Letters-mono : {T : Type 0} (i : ℕ) (n : Node T) → Letters ids H i n → Letters ids K i n
  Letters-mono i n l = record {
    own = l.own;
    total = l.total;
    requests = l.requests;
    responses = All-map _ _ n.incoming_request_vote_responses (Answered-mono i) l.responses;
    sent = All-map _ _ n.sent (λ x h. (h.0, Ready-mono i x.0 x.1 h.1)) l.sent;
  }

-- The votes of one node leave the others as they are.
pub Agrees-others :
    {T : Type 0} (ids : List ℕ) (H K : History) (i j : ℕ) (n : Node T)
    → j ≢ i
    → Extends i H K
    → Agrees ids H j n
    → Agrees ids K j n
Agrees-others ids H K i j n ne e (b, l) = (
  record {
    below = λ t c h. b.below t c (e.others j t c ne h);
    kept = λ c h. b.kept c (e.others j (get_current_term n) c ne h);
    won = λ leads. Won-mono ids H K e.keeps j (get_current_term n) (b.won leads);
    votes = λ cs some_state.
        let (sorted, all) = b.votes cs some_state in
        (sorted, All-map _ _ cs.votes (λ v h. e.keeps v (get_current_term n) j h) all);
  },
  Letters-mono ids H K e.keeps j n l,
)
