-- ===== src/Consensus/Quiet.antt =====
-- What the work for clients leaves alone: committing, appending commands, answering queries.
use to_ftds.Base.{
  ℕ, zero, suc, ◌+◌, ◌-◌, ◌≡◌, List, [], ◌∷◌, ◌++◌, Option, none, some, arith, u64, Outcome, ok,
  fault, length, length-append, ◌≤◌, Ensures, Ensures-map, for_each-Ensures, ◌>>=◌, for_each, refl,
  ◌∙◌,
}
use to_ftds.Consensus.State.{Command}
use to_ftds.Consensus.Node.{
  Node, get_current_term, get_voted_for, get_commit_index, get_log, get_last_log_index,
}
use to_ftds.Consensus.Node.Commit.{
  respond, respond_from, commit_until, scan_matches, commit_if_possible, add_command_to_log,
  add_to_log, add_new_commands_to_log, answer_query, collect,
  handle_get_persistent_command_requests,
}

-- The second node has the role, term and vote of the first, its states as leader and candidate, its
-- channels, the messages that wait and those that it sent, and a log that is not shorter.
pub record Quiet {T : Type 0} (n m : Node T) : Type 0 where
  pub role : m.role ≡ n.role
  pub sent : m.sent ≡ n.sent
  pub grows : length (get_log n) ≤ length (get_log m)
  pub term : get_current_term m ≡ get_current_term n
  pub vote : get_voted_for m ≡ get_voted_for n
  pub leader_state : m.leader_state ≡ n.leader_state
  pub candidate_state : m.candidate_state ≡ n.candidate_state
  pub my_id : m.my_id ≡ n.my_id
  pub channels : m.channels ≡ n.channels
  pub total_nodes : m.total_nodes ≡ n.total_nodes
  pub append_entries_requests :
      m.incoming_append_entries_requests ≡ n.incoming_append_entries_requests
  pub request_vote_requests : m.incoming_request_vote_requests ≡ n.incoming_request_vote_requests
  pub append_entries_responses :
      m.incoming_append_entries_responses ≡ n.incoming_append_entries_responses
  pub request_vote_responses : m.incoming_request_vote_responses ≡ n.incoming_request_vote_responses

module _ {T : Type 0} where
  pub Quiet-refl : (n : Node T) → Quiet n n
  Quiet-refl n = ground arith

  pub Quiet-trans : (a b c : Node T) → Quiet a b → Quiet b c → Quiet a c
  Quiet-trans a b c p q = ground arith

  respond-Quiet : (n : Node T) (i : ℕ) → Quiet n (respond n i)
  unfolding respond
  respond-Quiet n i = ground arith

  respond_from-Quiet : (n : Node T) (i rounds : ℕ) → Quiet n (respond_from n i rounds)
  unfolding respond_from
  respond_from-Quiet n i zero = Quiet-refl n
  respond_from-Quiet n i (suc rounds) =
      Quiet-trans n (respond n i) _ (respond-Quiet n i)
        (respond_from-Quiet (respond n i) (suc i) rounds)

  commit_until-Quiet : (n : Node T) (id : ℕ) → Quiet n (commit_until n id)
  unfolding commit_until
  commit_until-Quiet n id =
      ground (arith, respond_from-Quiet n (suc (get_commit_index n)) (id - get_commit_index n))

  pub commit_if_possible-Quiet : (n : Node T) → Ensures (Quiet n) (commit_if_possible n)
  unfolding commit_if_possible
  commit_if_possible-Quiet n = decided (scan_matches n (get_last_log_index n - get_commit_index n))
    where
      decided :
          (r : Outcome (Option ℕ))
          → Ensures
              (Quiet n)
              (r >>= λ found. elim found [ none ↦ ok n | some id ↦ ok (commit_until n id) ])
      decided (ok none) = Quiet-refl n
      decided (ok (some id)) = commit_until-Quiet n id
      decided (fault e) = tt

  add_command_to_log-Quiet : (n : Node T) (x : Command × ℕ) → Quiet n (add_command_to_log n x)
  unfolding add_command_to_log
  add_command_to_log-Quiet n (c, p) = ground (
    arith,
    length-append (get_log n) (record { command = c; leader_term = get_current_term n } ∷ []),
  )

  add_to_log-Quiet : (n : Node T) (cs : List (Command × ℕ)) → Quiet n (add_to_log n cs)
  unfolding add_to_log
  add_to_log-Quiet n [] = Quiet-refl n
  add_to_log-Quiet n (x ∷ xs) =
      Quiet-trans n (add_command_to_log n x) _ (add_command_to_log-Quiet n x)
        (add_to_log-Quiet (add_command_to_log n x) xs)

  answer_query-Quiet : (n : Node T) (q : (ℕ × ℕ) × ℕ) → Ensures (Quiet n) (answer_query n q)
  unfolding answer_query
  answer_query-Quiet n ((from, cnt), p) =
      answered (collect (get_log n) (get_commit_index n) from (u64 (from + cnt) - from))
    where
      answered :
          (r : Outcome (List Command))
          → Ensures
              (Quiet n)
              (r >>= λ result. ok (record n { read_results = n.read_results ++ (p, result) ∷ [] }))
      answered (ok result) = ground arith
      answered (fault e) = tt

  pub add_new_commands_to_log-Quiet : (n : Node T) → Quiet n (add_new_commands_to_log n)
  unfolding add_new_commands_to_log
  add_new_commands_to_log-Quiet n =
      ground (arith, add_to_log-Quiet (record n { incoming_commands = [] }) n.incoming_commands)

  pub queries-Quiet : (n : Node T) → Ensures (Quiet n) (handle_get_persistent_command_requests n)
  unfolding handle_get_persistent_command_requests
  queries-Quiet n =
      let m = record n { get_persistent_commands_reqs = [] } in
      let apart : Quiet n m = ground arith in
      Ensures-map (Quiet m) (Quiet n) (for_each answer_query m n.get_persistent_commands_reqs)
        (for_each-Ensures Quiet answer_query Quiet-refl Quiet-trans answer_query-Quiet m
          n.get_persistent_commands_reqs)
        (λ k q. Quiet-trans n m k apart q)

-- Committing and answering leave the log as it is.
module _ {T : Type 0} where
  respond_from-log : (n : Node T) (i rounds : ℕ) → get_log (respond_from n i rounds) ≡ get_log n
  unfolding respond_from respond
  respond_from-log n i zero = refl
  respond_from-log n i (suc rounds) = respond_from-log (respond n i) (suc i) rounds ∙ ground arith

  commit_until-log : (n : Node T) (id : ℕ) → get_log (commit_until n id) ≡ get_log n
  unfolding commit_until
  commit_until-log n id = respond_from-log n (suc (get_commit_index n)) (id - get_commit_index n)

  pub commit_if_possible-log :
      (n : Node T) → Ensures (λ m. get_log m ≡ get_log n) (commit_if_possible n)
  unfolding commit_if_possible
  commit_if_possible-log n = decided (scan_matches n (get_last_log_index n - get_commit_index n))
    where
      decided :
          (r : Outcome (Option ℕ))
          → Ensures
              (λ m. get_log m ≡ get_log n)
              (r >>= λ found. elim found [ none ↦ ok n | some id ↦ ok (commit_until n id) ])
      decided (ok none) = refl
      decided (ok (some id)) = commit_until-log n id
      decided (fault e) = tt

  answer_query-log :
      (n : Node T) (x : (ℕ × ℕ) × ℕ) → Ensures (λ m. get_log m ≡ get_log n) (answer_query n x)
  unfolding answer_query
  answer_query-log n ((from, count), p) =
      answered (collect (get_log n) (get_commit_index n) from (u64 (from + count) - from))
    where
      answered :
          (r : Outcome (List Command))
          → Ensures
              (λ m. get_log m ≡ get_log n)
              (r >>= λ result. ok (record n { read_results = n.read_results ++ (p, result) ∷ [] }))
      answered (ok result) = refl
      answered (fault e) = tt

  pub queries-log :
      (n : Node T) → Ensures (λ m. get_log m ≡ get_log n) (handle_get_persistent_command_requests n)
  unfolding handle_get_persistent_command_requests
  queries-log n =
      for_each-Ensures (λ a b. get_log b ≡ get_log a) answer_query (λ a. refl) (λ a b c p q. q ∙ p)
        answer_query-log (record n { get_persistent_commands_reqs = [] })
        n.get_persistent_commands_reqs
