-- ===== src/Consensus/Node/Commit.antt =====
-- hw2/src/consensus/node.cpp: the commands of the clients, from the log to the commit and back.
use to_ftds.Base.{
  ℕ, zero, suc, ◌+◌, ◌-◌, leb, u64, if◌then◌else◌, List, [], ◌∷◌, ◌++◌, Option, none, some, Outcome,
  ok, need, ◌>>=◌, for_each, length, get_elem?, lookup, insert, erase, nat_key,
}
use to_ftds.Consensus.State.{Command, Log, LogItem}
use to_ftds.Consensus.Node.{
  Node, get_current_term, get_log, get_commit_index, set_log, set_commit_index, get_last_log_index,
  set_command_result,
}
use to_ftds.Consensus.Node.Responses.{is_quorum}

-- `cnt`: the nodes that are known to hold item `i`.
unfoldable pub replicas : List (ℕ × ℕ) → ℕ → ℕ
replicas [] i = 0
replicas ((k, v) ∷ m) i = if leb i v then suc (replicas m i) else replicas m i

-- The loop over `i` from `i`, for `rounds` items.
unfoldable pub find_commit : List (ℕ × ℕ) → ℕ → ℕ → ℕ → Option ℕ → Option ℕ
find_commit matches total i zero found = found
find_commit matches total i (suc rounds) found =
    find_commit matches total (suc i) rounds
      (if is_quorum total (replicas matches i) then some i else found)

-- The loop of `HandleGetPersistentCommandRequests`.
unfoldable pub collect : Log → ℕ → ℕ → ℕ → Outcome (List Command)
collect log commit i zero = ok []
collect log commit i (suc rounds) =
    let rest = collect log commit (suc i) rounds in
    let here =
      need (get_elem? log i) >>= λ (item : LogItem). rest >>= λ cs. ok (item.command ∷ cs) in
    if leb i commit then here else ok []

module _ {T : Type 0} where
  -- The body of the loop over the items to commit.
  unfoldable pub respond : Node T → ℕ → Node T
  respond n i = elim (lookup i n.items_to_response) [
    | none ↦ n
    | some p ↦
        set_command_result (record n { items_to_response = erase i n.items_to_response }) p
          (record { leader_id = none })
  ]

  unfoldable pub respond_from : Node T → ℕ → ℕ → Node T
  respond_from n i zero = n
  respond_from n i (suc rounds) = respond_from (respond n i) (suc i) rounds

  unfoldable pub commit_until : Node T → ℕ → Node T
  commit_until n id =
      set_commit_index (respond_from n (suc (get_commit_index n)) (id - get_commit_index n)) id

  -- The leader's state is read once the loop has a round.
  unfoldable pub scan_matches : Node T → ℕ → Outcome (Option ℕ)
  scan_matches n zero = ok none
  scan_matches n (suc rounds) = do
    ls ← need n.leader_state
    ok (find_commit ls.match_index n.total_nodes (suc (get_commit_index n)) (suc rounds) none)

  unfoldable pub commit_if_possible : Node T → Outcome (Node T)
  commit_if_possible n =
      let rounds = get_last_log_index n - get_commit_index n in
      scan_matches n rounds >>= λ found. elim found [
        | none ↦ ok n
        | some id ↦ ok (commit_until n id)
      ]

  unfoldable pub add_command_to_log : Node T → Command × ℕ → Node T
  add_command_to_log n (c, p) =
      let log = get_log n ++ record { command = c; leader_term = get_current_term n } ∷ [] in
      record (set_log n log) { items_to_response = insert (length log - 1) p n.items_to_response }

  unfoldable pub add_to_log : Node T → List (Command × ℕ) → Node T
  add_to_log n [] = n
  add_to_log n (x ∷ xs) = add_to_log (add_command_to_log n x) xs

  unfoldable pub add_new_commands_to_log : Node T → Node T
  add_new_commands_to_log n = add_to_log (record n { incoming_commands = [] }) n.incoming_commands

  unfoldable pub answer_query : Node T → (ℕ × ℕ) × ℕ → Outcome (Node T)
  answer_query n ((from, cnt), p) =
      collect (get_log n) (get_commit_index n) from (u64 (from + cnt) - from) >>= λ result.
      ok (record n { read_results = n.read_results ++ (p, result) ∷ [] })

  unfoldable pub handle_get_persistent_command_requests : Node T → Outcome (Node T)
  handle_get_persistent_command_requests n =
      for_each answer_query (record n { get_persistent_commands_reqs = [] })
        n.get_persistent_commands_reqs
