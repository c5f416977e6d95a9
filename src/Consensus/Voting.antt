-- ===== src/Consensus/Voting.antt =====
-- `HandleRequestVoteRequest`: whom a node votes for, and how often in a term.
use to_ftds.Base.{
  ℕ, ◌≤◌, max, ◌≡◌, ◌≢◌, sym, ap, ◌∙◌, inl, inr, Bool, true, false, not, ◌&&◌, ◌||◌, none, some,
  arith, ltb, if◌then◌else◌, Bool-cases, Returns, length, ◌==◌,
}
use native.Mathlib.Decide.{dec_lt}
use to_ftds.Timeout.{ITimeout}
use to_ftds.Consensus.State.{State, leader}
use to_ftds.Consensus.Message.{RequestVoteRequest, RequestVoteResponse}
use to_ftds.Consensus.Node.{
  Node, get_current_term, get_voted_for, get_log, get_commit_index, get_last_log_term,
  get_last_log_index,
}
use to_ftds.Consensus.Node.Roles.{become_leader, become_follower, reset_election_timer}
use to_ftds.Consensus.Node.Requests.{
  observe_term, may_vote, is_up_to_date, answer_vote, handle_request_vote_request,
}
use to_ftds.Consensus.Leadership.{become_leader-Returns}
use to_ftds.Consensus.Terms.{Advance}

-- The candidate's log is up to date: its last term is not smaller than the node's, and where the two
-- are equal its last index is not.
abbrev reaches : {T : Type 0} → Node T → RequestVoteRequest → Bool
reaches n req =
    not (ltb req.candidate_last_log_term (get_last_log_term n))
    && not (
        (req.candidate_last_log_term == get_last_log_term n)
        && ltb req.candidate_last_log_index (get_last_log_index n))

reaches_lem :
    {T : Type 0} (n : Node T) (req : RequestVoteRequest) → is_up_to_date n req ≡ reaches n req
reaches_lem n req = ground arith

-- When a vote is granted: the candidate's term is not stale, the node is free to vote for it in that
-- term, and the candidate's log is up to date.
abbrev pub grants : {T : Type 0} → Node T → RequestVoteRequest → Bool
grants n req =
    not (ltb req.candidate_term (get_current_term n))
    && ((ltb (get_current_term n) req.candidate_term || may_vote n req) && reaches n req)

pub record VoteEffect {T : Type 0} (n : Node T) (req : RequestVoteRequest) (n' : Node T)
    (resp : RequestVoteResponse) : Type 0 where
  pub term : get_current_term n' ≡ max (get_current_term n) req.candidate_term
  pub vote : get_voted_for n' ≡ (
      if grants n req
      then some req.candidate_id
      else (if ltb (get_current_term n) req.candidate_term then none else get_voted_for n))
  pub log : get_log n' ≡ get_log n
  pub commit : get_commit_index n' ≡ get_commit_index n
  pub granted : resp.vote_granted ≡ grants n req
  pub told_term : resp.current_term ≡ (
      if ltb req.candidate_term (get_current_term n)
      then 0
      else max (get_current_term n) req.candidate_term)

module _ {T : Type 0} where
  -- `m` is the node behind the test of the term.
  answer_vote-Effect :
      (n m : Node T) (req : RequestVoteRequest)
      → get_log m ≡ get_log n
      → get_commit_index m ≡ get_commit_index n
      → get_current_term m ≡ max (get_current_term n) req.candidate_term
      → get_voted_for m
        ≡ (if ltb (get_current_term n) req.candidate_term then none else get_voted_for n)
      → VoteEffect n req (answer_vote m req).0 (answer_vote m req).1
  unfolding answer_vote
  answer_vote-Effect n m req l c t v = elim (Bool-cases (is_up_to_date n req)) [
    | inl fits ↦ ground (arith, reaches_lem n req)
    | inr behind ↦ ground (arith, reaches_lem n req)
  ]

module _ {T : Type 0} ⦃timer : ITimeout T⦄ where
  observe_term-vote :
      (n : Node T) (t : ℕ)
      → (get_log (observe_term n t) ≡ get_log n)
        × (get_commit_index (observe_term n t) ≡ get_commit_index n)
        × (get_current_term (observe_term n t) ≡ max (get_current_term n) t)
        × (get_voted_for (observe_term n t)
            ≡ (if ltb (get_current_term n) t then none else get_voted_for n))
  unfolding observe_term become_follower reset_election_timer
  observe_term-vote n t = ground arith

  -- On every branch of HandleRequestVoteRequest: a vote is granted exactly if the candidate's
  -- term is not stale, the node is free to vote for it in that term and its log is up to date;
  -- the term becomes the larger of the two, the vote is recorded, kept or forgotten accordingly,
  -- log and commit index stay, and the answer carries the new term, or 0 to a stale candidate.
  pub request_vote-Effect :
      (n : Node T) (req : RequestVoteRequest)
      → let r = handle_request_vote_request n req in VoteEffect n req r.0 r.1
  unfolding handle_request_vote_request
  request_vote-Effect n req =
      let (l, c, t, v) = observe_term-vote n req.candidate_term in
      answer_vote-Effect n (observe_term n req.candidate_term) req l c t v

  granted-facts :
      (n : Node T) (req : RequestVoteRequest)
      → (handle_request_vote_request n req).1.vote_granted ≡ true
      → (get_current_term (handle_request_vote_request n req).0 ≡ req.candidate_term)
        × (get_voted_for (handle_request_vote_request n req).0 ≡ some req.candidate_id)
  granted-facts n req h = ground (arith, request_vote-Effect n req)

  refused :
      (m : Node T) (req : RequestVoteRequest) (v : ℕ)
      → get_current_term m ≡ req.candidate_term
      → get_voted_for m ≡ some v
      → req.candidate_id ≢ v
      → (handle_request_vote_request m req).1.vote_granted ≡ false
  refused m req v t e ne = ground (arith, request_vote-Effect m req)

  -- A node that has granted a vote refuses, however it has gone on meanwhile in the sense of
  -- Advance, every other candidate of that term, unless it has come to lead.
  pub one_vote :
      (n m : Node T) (first second : RequestVoteRequest)
      → (handle_request_vote_request n first).1.vote_granted ≡ true
      → Advance (handle_request_vote_request n first).0 m
      → m.role ≢ leader
      → second.candidate_term ≡ first.candidate_term
      → second.candidate_id ≢ first.candidate_id
      → (handle_request_vote_request m second).1.vote_granted ≡ false
  one_vote n m first second granted a follows e ne =
      elim (dec_lt second.candidate_term (get_current_term m)) [
        | yes stale ↦ ground (arith, request_vote-Effect m second)
        | no fresh ↦
            let (t, v) = granted-facts n first granted in
            elim (a.vote first.candidate_id (omega (arith, a.term)) v) [
              | inl kept ↦ refused m second first.candidate_id (omega (arith, a.term)) kept ne
              | inr leads ↦ absurd (follows leads)
            ]
      ]

  unvoted_grants :
      (m : Node T) (req : RequestVoteRequest)
      → req.candidate_term ≡ get_current_term m
      → get_voted_for m ≡ none
      → is_up_to_date m req ≡ true
      → (handle_request_vote_request m req).1.vote_granted ≡ true
  unvoted_grants m req t v fits = ground (arith, request_vote-Effect m req, reaches_lem m req)

  -- A node whose log is not empty comes to lead by BecomeLeader, and then grants its vote to any
  -- candidate of its own term whose log is up to date, whoever it voted for before.
  pub new_leader_votes_again :
      (n : Node T) (req : RequestVoteRequest)
      → 1 ≤ length (get_log n)
      → req.candidate_term ≡ get_current_term n
      → is_up_to_date n req ≡ true
      → Returns
          (λ m. (m.role ≡ leader) × ((handle_request_vote_request m req).1.vote_granted ≡ true))
          (become_leader n)
  new_leader_votes_again n req some_item t up_to_date =
      let (m, e, h) = become_leader-Returns n some_item in
      let log : get_log m ≡ get_log n = ap (λ (s : State). s.persistent_state.log) h.0.state in
      let term : get_current_term m ≡ get_current_term n =
        ap (λ (s : State). s.persistent_state.current_term) h.0.state in
      let vote : get_voted_for m ≡ none =
        ap (λ (s : State). s.persistent_state.voted_for) h.0.state in
      (m, e, (h.0.role, unvoted_grants m req (t ∙ sym term) vote (ground (arith, log))))
