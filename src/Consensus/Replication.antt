-- ===== src/Consensus/Replication.antt =====
-- What an `AppendEntriesRequest` does to a node, and how a leader's log reaches it.
use to_ftds.Base.{
  ℕ, suc, ◌+◌, min, max, ◌<◌, ◌≡◌, refl, ap, ◌∙◌, Bool, true, false, not, ◌&&◌, List, [], ◌∷◌, ◌++◌,
  inl, inr, append_assoc, append-nil, Option, none, some, arith, ltb, ◌==◌, if◌then◌else◌,
  Bool-cases, length, get_elem?, take, drop, get_elem?-some_lt,
}
use to_ftds.Timeout.{ITimeout}
use to_ftds.Consensus.State.{State, Command, LogItem, Log}
use to_ftds.Consensus.Message.{AppendEntriesRequest, AppendEntriesResponse}
use to_ftds.Consensus.Node.{
  Node, AddCommandResult, get_current_term, get_log, get_commit_index, set_command_result,
}
use to_ftds.Consensus.Node.Roles.{become_follower, reset_election_timer}
use to_ftds.Consensus.Node.Requests.{
  redirect, redirect_commands, accept_entries, check_prev, observe_term, answer_append_entries,
  handle_append_entries_request,
}
use to_ftds.Consensus.Merge.{merge, put_entries_lem, length-put_entries}

abbrev redirected : ℕ → List (Command × ℕ) → List (ℕ × AddCommandResult)
redirected leader_id [] = []
redirected leader_id ((c, p) ∷ cs) =
    (p, record { leader_id = some leader_id }) ∷ redirected leader_id cs

module _ {T : Type 0} where
  pub redirect_lem :
      (n : Node T) (l : ℕ) (cs : List (Command × ℕ))
      → redirect n l cs ≡ record n { command_results = n.command_results ++ redirected l cs }
  unfolding redirect
  redirect_lem n l [] = rw (append-nil n.command_results)
  redirect_lem n l ((c, p) ∷ cs) =
      redirect_lem (set_command_result n p (record { leader_id = some l })) l cs
      ∙ rw (
          append_assoc n.command_results ((p, record { leader_id = some l }) ∷ [])
            (redirected l cs))

  redirect_commands-state : (n : Node T) (l : ℕ) → (redirect_commands n l).state ≡ n.state
  unfolding redirect_commands
  redirect_commands-state n l =
      ground (arith, redirect_lem (record n { incoming_commands = [] }) l n.incoming_commands)

-- The tests of steps 1 and 2: the leader's term is not stale, and the log has an item of the term
-- `prev_log_term` at `prev_log_index`.
abbrev pub accepts : {T : Type 0} → Node T → AppendEntriesRequest → Bool
accepts n req =
    not (ltb req.leader_term (get_current_term n))
    && elim (get_elem? (get_log n) req.prev_log_index) [
      | none ↦ false
      | some prev ↦ prev.leader_term == req.prev_log_term
    ]

-- The log that an accepted request leaves.
abbrev pub merged : {T : Type 0} → Node T → AppendEntriesRequest → Log
merged n req =
    take (suc req.prev_log_index) (get_log n)
    ++ merge (drop (suc req.prev_log_index) (get_log n)) req.entries

module _ {T : Type 0} where
  accept_entries-log :
      (n : Node T) (req : AppendEntriesRequest)
      → req.prev_log_index < length (get_log n)
      → get_log (accept_entries n req).0 ≡ merged n req
  unfolding accept_entries
  accept_entries-log n req h =
      ground (arith, put_entries_lem (get_log n) (suc req.prev_log_index) req.entries)

  accept_entries-response :
      (n : Node T) (req : AppendEntriesRequest)
      → req.prev_log_index < length (get_log n)
      → (accept_entries n req).1 ≡ record {
        current_term = get_current_term n;
        success = true;
        matched_until = some (req.prev_log_index + length req.entries);
      }
  unfolding accept_entries
  accept_entries-response n req h =
      ground (arith, length-put_entries (get_log n) (suc req.prev_log_index) req.entries)

  accept_entries-term :
      (n : Node T) (req : AppendEntriesRequest)
      → get_current_term (accept_entries n req).0 ≡ get_current_term n
  unfolding accept_entries
  accept_entries-term n req = ground arith

  accept_entries-commit :
      (n : Node T) (req : AppendEntriesRequest)
      → get_commit_index (accept_entries n req).0 ≡ (
          if ltb (get_commit_index n) req.leader_commit
          then min req.leader_commit (req.prev_log_index + length req.entries)
          else get_commit_index n)
  unfolding accept_entries
  accept_entries-commit n req = ground arith

module _ {T : Type 0} ⦃timer : ITimeout T⦄ where
  observe_term-log :
      (n : Node T) (t : ℕ)
      → (get_log (observe_term n t) ≡ get_log n)
        × (get_commit_index (observe_term n t) ≡ get_commit_index n)
        × (get_current_term (observe_term n t) ≡ max (get_current_term n) t)
  unfolding observe_term become_follower reset_election_timer
  observe_term-log n t = ground arith

-- What the handler does to the replicated state and what it answers, on every branch.
pub record AppendEntriesEffect {T : Type 0} (n : Node T) (req : AppendEntriesRequest) (n' : Node T)
    (resp : AppendEntriesResponse) : Type 0 where
  pub term : get_current_term n' ≡ max (get_current_term n) req.leader_term
  pub log : get_log n' ≡ (if accepts n req then merged n req else get_log n)
  pub commit : get_commit_index n' ≡ (
      if accepts n req && ltb (get_commit_index n) req.leader_commit
      then min req.leader_commit (req.prev_log_index + length req.entries)
      else get_commit_index n)
  pub told_term : resp.current_term ≡ max (get_current_term n) req.leader_term
  pub told_success : resp.success ≡ accepts n req
  pub told_matched :
      resp.matched_until
      ≡ (if accepts n req then some (req.prev_log_index + length req.entries) else none)

module _ {T : Type 0} where
  check_prev-Effect :
      (n m : Node T) (req : AppendEntriesRequest) (found : Option LogItem)
      → get_elem? (get_log m) req.prev_log_index ≡ found
      → ltb req.leader_term (get_current_term n) ≡ false
      → get_log m ≡ get_log n
      → get_commit_index m ≡ get_commit_index n
      → get_current_term m ≡ max (get_current_term n) req.leader_term
      → AppendEntriesEffect n req (check_prev m req found).0 (check_prev m req found).1
  unfolding check_prev
  check_prev-Effect n m req none e fresh l c t = ground arith
  check_prev-Effect n m req (some prev) e fresh l c t = ground (
    arith,
    accept_entries-log m req,
    accept_entries-response m req,
    accept_entries-commit m req,
    get_elem?-some_lt (get_log m) req.prev_log_index prev e,
    accept_entries-term m req,
  )

module _ {T : Type 0} ⦃timer : ITimeout T⦄ where
  reset-state : (n : Node T) → (reset_election_timer n).state ≡ n.state
  unfolding reset_election_timer
  reset-state n = refl

  answer-Effect :
      (n m : Node T) (req : AppendEntriesRequest)
      → get_log m ≡ get_log n
      → get_commit_index m ≡ get_commit_index n
      → get_current_term m ≡ max (get_current_term n) req.leader_term
      → AppendEntriesEffect n req (answer_append_entries m req).0 (answer_append_entries m req).1
  unfolding answer_append_entries
  answer-Effect n m req l c t = elim (Bool-cases (ltb req.leader_term (get_current_term n))) [
    | inl stale ↦ rw (stale_at stale) (ground arith)
    | inr fresh ↦
        let m' = redirect_commands m req.leader_id in
        let same = redirect_commands-state m req.leader_id in
        let effect =
          check_prev-Effect n m' req (get_elem? (get_log m') req.prev_log_index) refl fresh
            (ap (λ (s : State). s.persistent_state.log) same ∙ l)
            (ap (λ (s : State). s.volatile_state.commit_index) same ∙ c)
            (ap (λ (s : State). s.persistent_state.current_term) same ∙ t) in
        rw (fresh_at fresh) effect
  ]
    where
      stale_at :
          ltb req.leader_term (get_current_term n) ≡ true
          → ltb req.leader_term (get_current_term m) ≡ true
      stale_at h = ground arith

      fresh_at :
          ltb req.leader_term (get_current_term n) ≡ false
          → ltb req.leader_term (get_current_term m) ≡ false
      fresh_at h = ground arith

  -- On every branch of HandleAppendEntriesRequest: the term becomes the larger of the two, the
  -- answer is a success exactly if the leader's term is not stale and the log has an item of term
  -- prev_log_term at prev_log_index, a success merges the entries into the log behind
  -- prev_log_index and moves the commit index as step 5 says, a refusal leaves log and commit
  -- index alone, and the answer carries the new term and the index matched.
  pub append_entries-Effect :
      (n : Node T) (req : AppendEntriesRequest)
      → let r = handle_append_entries_request n req in AppendEntriesEffect n req r.0 r.1
  unfolding handle_append_entries_request
  append_entries-Effect n req =
      let m = observe_term n req.leader_term in
      answer-Effect n (reset_election_timer m) req
        (ground (arith, reset-state m, observe_term-log n req.leader_term))
        (ground (arith, reset-state m, observe_term-log n req.leader_term))
        (ground (arith, reset-state m, observe_term-log n req.leader_term))
