-- ===== src/Consensus/Reads.antt =====
-- `GetPersistentCommands`: a query is answered with the committed commands it asks for.
use to_ftds.Base.{
  ℕ, zero, suc, ◌+◌, ◌-◌, ◌^◌, ◌≤◌, ◌<◌, ◌≡◌, refl, ◌∙◌, inl, inr, List, [], ◌∷◌, ◌++◌, map,
  append_assoc, append-nil, some, arith, leb, u64, Bool-cases, ok, for_each, All, length, get_elem?,
  take, drop, length-take, get_elem?-lt, leb→le,
}
use to_ftds.Consensus.State.{Command, LogItem, Log}
use to_ftds.Consensus.Node.{Node, get_log, get_commit_index}
use to_ftds.Consensus.Node.Commit.{collect, answer_query, handle_get_persistent_command_requests}

drop-all {ℓ} : {A : Type ℓ} (i : ℕ) (xs : List A) → length xs ≤ i → drop i xs ≡ []
drop-all zero [] h = refl
drop-all zero (x ∷ xs) h = absurd (omega arith)
drop-all (suc i) [] h = refl
drop-all (suc i) (x ∷ xs) h = drop-all i xs (omega arith)

drop-cons {ℓ} :
    {A : Type ℓ} (i : ℕ) (xs : List A) (x : A)
    → get_elem? xs i ≡ some x
    → drop i xs ≡ x ∷ drop (suc i) xs
drop-cons zero [] x h = cc
drop-cons zero (y ∷ xs) x h = ground arith
drop-cons (suc i) [] x h = cc
drop-cons (suc i) (y ∷ xs) x h = drop-cons i xs x h

get_elem?-take {ℓ} :
    {A : Type ℓ} (k : ℕ) (xs : List A) (i : ℕ) → i < k → get_elem? (take k xs) i ≡ get_elem? xs i
get_elem?-take zero xs i h = elim h [ ]
get_elem?-take (suc k) [] i h = refl
get_elem?-take (suc k) (x ∷ xs) zero h = refl
get_elem?-take (suc k) (x ∷ xs) (suc i) h = get_elem?-take k xs i (omega arith)

-- The committed commands from item `from` on, `count` at most.
abbrev pub committed : Log → ℕ → ℕ → ℕ → List Command
committed log commit from count =
    map (λ (item : LogItem). item.command) (take count (drop from (take (suc commit) log)))

collect-committed :
    (log : Log) (commit i rounds : ℕ)
    → commit < length log
    → collect log commit i rounds ≡ ok (committed log commit i rounds)
unfolding collect
collect-committed log commit i zero h = refl
collect-committed log commit i (suc rounds) h = elim (Bool-cases (leb i commit)) [
  | inl inside ↦
      let low = leb→le i commit inside in
      let (item, e) = get_elem?-lt log i (omega arith) in
      rw (
        inside,
        e,
        collect-committed log commit (suc i) rounds h,
        drop-cons i (take (suc commit) log) item
            (get_elem?-take (suc commit) log i (omega arith) ∙ e),
      )
  | inr past ↦
      rw (past, drop-all i (take (suc commit) log) (ground (arith, length-take (suc commit) log)))
]

module _ {T : Type 0} where
  abbrev pub answer : Node T → (ℕ × ℕ) × ℕ → ℕ × List Command
  answer n ((from, count), p) = (p, committed (get_log n) (get_commit_index n) from count)

  abbrev pub answers : Node T → List ((ℕ × ℕ) × ℕ) → List (ℕ × List Command)
  answers n [] = []
  answers n (q ∷ qs) = answer n q ∷ answers n qs

  answer_query_lem :
      (n : Node T) (q : (ℕ × ℕ) × ℕ)
      → get_commit_index n < length (get_log n)
      → q.0.0 + q.0.1 < 2 ^ 64
      → answer_query n q ≡ ok (record n { read_results = n.read_results ++ answer n q ∷ [] })
  unfolding answer_query
  answer_query_lem n ((from, count), p) h small =
      let rounds : u64 (from + count) - from ≡ count = omega arith in
      rw (rounds, collect-committed (get_log n) (get_commit_index n) from count h)

  for_each-answers :
      (n : Node T) (qs : List ((ℕ × ℕ) × ℕ))
      → get_commit_index n < length (get_log n)
      → All (λ (q : (ℕ × ℕ) × ℕ). q.0.0 + q.0.1 < 2 ^ 64) qs
      → for_each answer_query n qs ≡ ok (record n { read_results = n.read_results ++ answers n qs })
  unfolding for_each
  for_each-answers n [] h small = rw (append-nil n.read_results)
  for_each-answers n (q ∷ qs) h small = rw (answer_query_lem n q h small.0) (
      for_each-answers (record n { read_results = n.read_results ++ answer n q ∷ [] }) qs h small.1
      ∙ rw (append_assoc n.read_results (answer n q ∷ []) (answers n qs)))

  -- Where the commit index lies in the log and no query's range wraps, each waiting query is
  -- answered, in order, with the committed commands from its first index on, as many as it asks
  -- for at most, and nothing else changes.
  pub queries_lem :
      (n : Node T)
      → get_commit_index n < length (get_log n)
      → All (λ (q : (ℕ × ℕ) × ℕ). q.0.0 + q.0.1 < 2 ^ 64) n.get_persistent_commands_reqs
      → handle_get_persistent_command_requests n
        ≡ ok (record n {
          get_persistent_commands_reqs = [];
          read_results = n.read_results ++ answers n n.get_persistent_commands_reqs;
        })
  unfolding handle_get_persistent_command_requests
  queries_lem n h small =
      for_each-answers (record n { get_persistent_commands_reqs = [] })
        n.get_persistent_commands_reqs h small
