-- ===== src/Cluster/Ballots/Grants.antt =====
-- hw2/src/consensus/node.cpp: `HandleRequestVoteRequest`, where a node casts its vote.
use to_ftds.Base.{
  List, ℕ, ◌≡◌, ◌≢◌, ◌⊎◌, refl, sym, ap, ◌∙◌, inl, inr, true, ◌&&◌, Bool-cases, some, ltb, Ensures,
  contains, arith, max,
}
use to_ftds.Timeout.{ITimeout}
use to_ftds.Consensus.State.{leader}
use to_ftds.Consensus.Message.{RequestVoteRequest, RequestVoteResponse, request_vote_response}
use to_ftds.Consensus.Node.{Node, send, get_current_term, set_voted_for}
use to_ftds.Consensus.Node.Requests.{
  observe_term, may_vote, is_up_to_date, answer_vote, handle_request_vote_request,
}
use to_ftds.Consensus.Node.Ticks.{receive_request_vote_request}
use to_ftds.Consensus.Frame.{send-SendsOnly}
use to_ftds.Cluster.Ballots.{
  History, Fair, Extends, Extends-refl, Ballot, Asked, Agrees, Letters-same, SendsOnly-Ballot,
  Letters-mono, All-map, Ready, Canonical,
}
use to_ftds.Cluster.Ballots.Sending.{send-Letters}
use to_ftds.Cluster.Ballots.Requests.{StillLeads, observe_term-Agrees}
use to_ftds.Consensus.Node.Roles.{become_follower, reset_election_timer}

-- The history with one vote more.
abbrev with_vote : History → ℕ → ℕ → ℕ → History
with_vote H i t c = λ v u d. H v u d ⊎ ((v ≡ i) × (u ≡ t) × (d ≡ c))

with_vote-Extends : (i : ℕ) (H : History) (t c : ℕ) → Extends i H (with_vote H i t c)
with_vote-Extends i H t c = record {
  keeps = λ v u d h. inl h;
  others = λ v u d ne h. elim h [ inl old ↦ old | inr new ↦ absurd (ne new.0) ];
}

module _ (ids : List ℕ) (H : History) (i : ℕ) (known : contains i ids ≡ true)
    (fair : Fair ids H) where
  with_vote-Fair : (t cand : ℕ) → ((c : ℕ) → H i t c → c ≡ cand) → Fair ids (with_vote H i t cand)
  with_vote-Fair t cand only = record {
    voters = λ v u c h. elim h [ inl old ↦ fair.voters v u c old | inr new ↦ rw new.0 known ];
    one = λ v u c d h k. both v u c d h k;
  }
    where
      both : (v u c d : ℕ) → with_vote H i t cand v u c → with_vote H i t cand v u d → c ≡ d
      both v u c d (inl h) (inl k) = fair.one v u c d h k
      both v u c d (inl h) (inr k) = only c (rw (k.0, k.1) at h) ∙ sym k.2
      both v u c d (inr h) (inl k) = h.2 ∙ sym (only d (rw (h.0, h.1) at k))
      both v u c d (inr h) (inr k) = h.2 ∙ sym k.2

module _ (ids : List ℕ) (H : History) (i : ℕ) {T : Type 0} (known : contains i ids ≡ true)
    (fair : Fair ids H) where
  -- A node that may vote for a candidate, and does not lead, has voted for no other in its term.
  free :
      (n : Node T) (req : RequestVoteRequest)
      → Ballot ids H i n
      → n.role ≢ leader
      → may_vote n req ≡ true
      → (c : ℕ) → H i (get_current_term n) c
      → c ≡ req.candidate_id
  free n req b follows may c h = elim (b.kept c h) [
    | inl voted ↦ ground (arith, may, voted)
    | inr leads ↦ absurd (follows leads)
  ]

  -- The node grants its vote.
  granted-Agrees :
      (n : Node T) (req : RequestVoteRequest)
      → n.role ≢ leader
      → may_vote n req ≡ true
      → Agrees ids H i n
      → let K = with_vote H i (get_current_term n) req.candidate_id in
        Fair ids K × Agrees ids K i (set_voted_for n (some req.candidate_id))
  granted-Agrees n req follows may (b, l) =
      let t = get_current_term n in
      let cand = req.candidate_id in
      let K = with_vote H i t cand in
      let grows = with_vote-Extends i H t cand in
      let only = free n req b follows may in
      (
        with_vote-Fair ids H i known fair t cand only,
        (
          record {
            below = λ u c h. elim h [ inl old ↦ b.below u c old | inr new ↦ omega (arith, new.1) ];
            kept = λ c h.
                inl
                  (elim h [ inl old ↦ ap some (sym (only c old)) | inr new ↦ ap some (sym new.2) ]);
            won = λ leads. absurd (follows leads);
            votes = λ cs e.
                let (sorted, all) = b.votes cs e in
                (sorted, All-map _ _ cs.votes (λ v h. inl h) all);
          },
          Letters-same ids K i n _ refl refl refl refl refl
              (Letters-mono ids H K grows.keeps i n l),
        ),
      )

-- A node that agrees with a history that has more of its own votes, and leads only where the first did.
abbrev pub Polled : {T : Type 0} → List ℕ → History → ℕ → Node T → Node T → Type 1
Polled ids H i n m = (K : History) × Extends i H K × Fair ids K × Agrees ids K i m × StillLeads n m

module _ (ids : List ℕ) (i : ℕ) {T : Type 0} (known : contains i ids ≡ true) where
  respond-Polled :
      (H K : History) (n m : Node T) (who : ℕ) (resp : RequestVoteResponse)
      → Extends i H K
      → Fair ids K
      → Agrees ids K i m
      → StillLeads n m
      → Ready K i who (request_vote_response resp)
      → Polled ids H i n (send m who (request_vote_response resp))
  respond-Polled H K n m who resp grows fair (b, l) s ready =
      let only = send-SendsOnly m who (request_vote_response resp) in
      (
        K,
        grows,
        fair,
        (
          SendsOnly-Ballot ids K i m _ only b,
          send-Letters ids K i m who (request_vote_response resp) ready l,
        ),
        λ e. let (e', t) = s (sym only.role ∙ e) in (e', ground (arith, only.state, t)),
      )

  answer_vote-Polled :
      (H : History) (n m : Node T) (who : ℕ) (req : RequestVoteRequest)
      → Fair ids H
      → Agrees ids H i m
      → StillLeads n m
      → Asked i (who, req)
      → get_current_term m ≡ max (get_current_term n) req.candidate_term
      → (n.role ≡ leader → req.candidate_term ≢ get_current_term n)
      → let r = answer_vote m req in Polled ids H i n (send r.0 who (request_vote_response r.1))
  unfolding answer_vote
  answer_vote-Polled H n m who req fair a s (own, fits) term unasked =
      elim (Bool-cases (ltb req.candidate_term (get_current_term m))) [
        | inl stale ↦ rw stale (respond-Polled H H n m who _ (Extends-refl i H) fair a s (λ e. cc))
        | inr fresh ↦ rw fresh (elim (Bool-cases (may_vote m req && is_up_to_date m req)) [
          | inr refuses ↦
              rw refuses (respond-Polled H H n m who _ (Extends-refl i H) fair a s (λ e. cc))
          | inl grants ↦
              let now : get_current_term m ≡ req.candidate_term = ground (arith, term, fresh) in
              let follows : m.role ≢ leader =
                λ e. let (leads, same) = s e in unasked leads (sym now ∙ same) in
              let (fair', a') =
                granted-Agrees ids H i known fair m req follows (ground (arith, grants)) a in
              rw grants (
                respond-Polled H _ n (set_voted_for m (some req.candidate_id)) who _
                  (with_vote-Extends i H (get_current_term m) req.candidate_id) fair' a' s
                  (λ e. (inr (refl, sym now, sym own), answers)))
        ])
      ]
    where
      answers : (who ≡ i) ⊎ Canonical req.candidate_term
      answers = fits

module _ {T : Type 0} ⦃timer : ITimeout T⦄ (ids : List ℕ) (i : ℕ)
    (known : contains i ids ≡ true) where
  observe_term-max :
      (n : Node T) (t : ℕ) → get_current_term (observe_term n t) ≡ max (get_current_term n) t
  unfolding observe_term become_follower reset_election_timer
  observe_term-max n t = ground arith

  pub receive_request_vote_request-Polled :
      (H : History) (n : Node T) (x : ℕ × RequestVoteRequest)
      → Fair ids H
      → Agrees ids H i n
      → Asked i x
      → (n.role ≡ leader → x.1.candidate_term ≢ get_current_term n)
      → Ensures (Polled ids H i n) (receive_request_vote_request n x)
  unfolding receive_request_vote_request handle_request_vote_request
  receive_request_vote_request-Polled H n (sender, req) fair a asked unasked =
      elim (Bool-cases (contains sender n.channels)) [
        | inr unknown ↦ rw (unknown, Ensures) tt
        | inl there ↦
            let (a', s) = observe_term-Agrees ids H i n req.candidate_term a in
            rw (there, Ensures)
              (answer_vote-Polled ids i known H n (observe_term n req.candidate_term) sender req
                fair a' s asked (observe_term-max n req.candidate_term) unasked)
      ]
