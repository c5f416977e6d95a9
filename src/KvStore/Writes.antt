-- ===== src/KvStore/Writes.antt =====
-- hw2/src/worker/worker.cpp: what becomes of the command of a `Write` at a leader.
use to_ftds.Base.{
  ℕ, suc, ◌+◌, ◌-◌, ◌^◌, ◌≤◌, ◌<◌, ◌≡◌, refl, ap, ◌∙◌, List, [], ◌∷◌, ◌++◌, append_assoc,
  append-nil, none, some, arith, Returns, length, length-append, lookup, lookup-insert, nat_key,
}
use to_ftds.Consensus.State.{State, Command, Log}
use to_ftds.Consensus.Node.{Node, get_current_term, get_log, get_commit_index, add_command}
use to_ftds.Consensus.Node.Commit.{add_command_to_log, add_to_log, add_new_commands_to_log}
use to_ftds.KvStore.{Key, Value, KeyValueStore, batch, write_command, write}
use to_ftds.KvStore.Replay.{Follows, actualize_state-Follows}

-- The items that commands of clients become.
abbrev pub items : ℕ → List (Command × ℕ) → Log
items term [] = []
items term ((c, p) ∷ cs) = record { command = c; leader_term = term } ∷ items term cs

-- The log of a leader that has added the waiting commands and one more.
abbrev pub extended : State → List (Command × ℕ) → Command → Log
extended st xs c =
    let term = st.persistent_state.current_term in
    st.persistent_state.log ++ (items term xs ++ record { command = c; leader_term = term } ∷ [])

module _ {T : Type 0} where
  add_to_log-append :
      (n : Node T) (xs ys : List (Command × ℕ))
      → add_to_log n (xs ++ ys) ≡ add_to_log (add_to_log n xs) ys
  unfolding add_to_log
  add_to_log-append n [] ys = refl
  add_to_log-append n (x ∷ xs) ys = add_to_log-append (add_command_to_log n x) xs ys

  add_to_log-log :
      (n : Node T) (xs : List (Command × ℕ))
      → (get_log (add_to_log n xs) ≡ get_log n ++ items (get_current_term n) xs)
        × (get_current_term (add_to_log n xs) ≡ get_current_term n)
  unfolding add_to_log add_command_to_log
  add_to_log-log n [] = ground (arith, append-nil (get_log n))
  add_to_log-log n ((c, p) ∷ xs) =
      let (log, term) = add_to_log-log (add_command_to_log n (c, p)) xs in
      (
        log
            ∙ append_assoc (get_log n)
                (record { command = c; leader_term = get_current_term n } ∷ [])
                (items (get_current_term n) xs),
        term,
      )

  add_command_to_log-waits :
      (n : Node T) (c : Command) (p : ℕ)
      → (get_log (add_command_to_log n (c, p))
          ≡ get_log n ++ record { command = c; leader_term = get_current_term n } ∷ [])
        × (lookup (length (get_log n)) (add_command_to_log n (c, p)).items_to_response ≡ some p)
  unfolding add_command_to_log
  add_command_to_log-waits n c p = ground (
    arith,
    length-append (get_log n) (record { command = c; leader_term = get_current_term n } ∷ []),
    lookup-insert (length (get_log n)) (length (get_log n)) p n.items_to_response,
  )

  -- The last command of those that wait.
  logged :
      (n : Node T) (xs : List (Command × ℕ)) (c : Command) (p : ℕ)
      → let m = add_to_log n (xs ++ (c, p) ∷ []) in
        (get_log m ≡ extended n.state xs c)
        × (lookup (length (get_log m) - 1) m.items_to_response ≡ some p)
  unfolding add_to_log
  logged n xs c p =
      let k = add_to_log n xs in
      let (log, term) = add_to_log-log n xs in
      let (last, waits) = add_command_to_log-waits k c p in
      rw (add_to_log-append n xs ((c, p) ∷ [])) (
        last
            ∙ ap (λ l. l ++ record { command = c; leader_term = get_current_term k } ∷ []) log
            ∙ append_assoc (get_log n) (items (get_current_term n) xs)
                (record { command = c; leader_term = get_current_term k } ∷ [])
            ∙ ap
                (λ t.
                  get_log n
                  ++ (items (get_current_term n) xs
                      ++ record { command = c; leader_term = t } ∷ []))
                term,
        rw (index k) waits,
      )
    where
      index : (k : Node T) → length (get_log (add_command_to_log k (c, p))) - 1 ≡ length (get_log k)
      index k = omega (
        arith,
        ap length (add_command_to_log-waits k c p).0,
        length-append (get_log k) (record { command = c; leader_term = get_current_term k } ∷ []),
      )

  -- Where ActualizeState returns by the conditions of a store that is the replay of the commands
  -- it has counted, of a commit index in the log and at most one batch ahead, of indices that fit
  -- 64 bits, of no other query waiting and of a fresh promise: after a Write and
  -- AddNewCommandsToLog the log is the old one, the commands that waited, in order, and last the
  -- command of the Write, all of the current term, and the promise of the Write waits for that
  -- last index.
  pub write_logged :
      (s : KeyValueStore) (n : Node T) (key : Key) (value : Value)
      → Follows s n
      → get_commit_index n < length (get_log n)
      → get_commit_index n ≤ s.last_persisted_id + batch
      → suc s.last_persisted_id + batch < 2 ^ 64
      → n.get_persistent_commands_reqs ≡ []
      → lookup n.next_promise n.read_results ≡ none
      → Returns
          (λ r.
            let m = add_new_commands_to_log r.2 in
            (get_log m ≡ extended n.state n.incoming_commands (write_command key value))
            × (lookup (length (get_log m) - 1) m.items_to_response ≡ some r.0))
          (write s n key value)
  unfolding write add_new_commands_to_log add_command
  write_logged s n key value f inside near small quiet new =
      let (r, done, (_, _, state, incoming)) =
        actualize_state-Follows s n f inside near small quiet new in
      let c = write_command key value in
      let (log, waits) =
        logged (record r.1 { incoming_commands = []; next_promise = suc r.1.next_promise })
          r.1.incoming_commands c r.1.next_promise in
      let all : _ ≡ extended n.state n.incoming_commands c =
        log
        ∙ ap (λ st. extended st r.1.incoming_commands c) state
        ∙ ap (λ xs. extended n.state xs c) incoming in
      rw done (_, refl, (all, waits))
