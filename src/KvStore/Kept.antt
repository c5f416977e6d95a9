-- ===== src/KvStore/Kept.antt =====
-- hw2/src/worker/worker.cpp and hw2/src/consensus/node.cpp: a store, and its node that handles an
-- `AppendEntriesRequest`.
use to_ftds.Base.{
  ℕ, zero, suc, ◌+◌, ◌≤◌, ◌<◌, ◌≡◌, refl, sym, ap, ◌∙◌, List, [], ◌∷◌, arith, length, take, drop,
  map,
}
use to_ftds.Timeout.{ITimeout}
use to_ftds.Consensus.State.{Log, LogItem}
use to_ftds.Consensus.Message.{AppendEntriesRequest}
use to_ftds.Consensus.Node.{Node, get_log, get_commit_index}
use to_ftds.Consensus.Node.Requests.{handle_append_entries_request}
use to_ftds.Consensus.Committed.{AgreesWithCommitted, append_entries-KeepsCommitted}
use to_ftds.KvStore.{KeyValueStore, new_store, apply_commands}
use to_ftds.KvStore.Replay.{commands_of, Follows, take-map}

take-take : {A : Type 0} (m n : ℕ) (xs : List A) → m ≤ n → take m (take n xs) ≡ take m xs
take-take zero n xs low = refl
take-take (suc m) zero xs low = absurd (omega arith)
take-take (suc m) (suc n) [] low = refl
take-take (suc m) (suc n) (x ∷ xs) low = ap (◌∷◌ x) (take-take m n xs (omega arith))

take-tail : {A : Type 0} (n : ℕ) (xs : List A) → take n (drop 1 xs) ≡ drop 1 (take (suc n) xs)
take-tail zero [] = refl
take-tail (suc n) [] = refl
take-tail n (x ∷ xs) = refl

-- The first commands are those of the first items.
take-commands_of :
    (n c : ℕ) (log : Log)
    → n ≤ c
    → take n (commands_of log)
      ≡ map (λ (item : LogItem). item.command) (drop 1 (take (suc n) (take (suc c) log)))
take-commands_of n c log low =
    take-map (λ (item : LogItem). item.command) n (drop 1 log)
    ∙ ap (map (λ (item : LogItem). item.command))
        (take-tail n log ∙ ap (drop 1) (sym (take-take (suc n) (suc c) log (omega arith))))

module _ {T : Type 0} ⦃timer : ITimeout T⦄ where
  -- A store that is the replay of the commands it has counted is so also for the log that its
  -- node has after an AppendEntriesRequest, where the commit index lies in the log, the entries
  -- that lie on committed items are these items, and the request speaks of indices up to the
  -- commit index at least.
  pub append_entries-Follows :
      (s : KeyValueStore) (n : Node T) (req : AppendEntriesRequest)
      → Follows s n
      → get_commit_index n < length (get_log n)
      → get_commit_index n ≤ req.prev_log_index + length req.entries
      → AgreesWithCommitted n req
      → Follows s (handle_append_entries_request n req).0
  append_entries-Follows s n req follows inside reaches agrees =
      let m = (handle_append_entries_request n req).0 in
      let kept = append_entries-KeepsCommitted n req inside agrees in
      let same : take s.last_persisted_id (commands_of (get_log m))
          ≡ take s.last_persisted_id (commands_of (get_log n)) =
        take-commands_of s.last_persisted_id (get_commit_index n) (get_log m) follows.behind
        ∙ ap
            (λ (l : Log).
              map (λ (item : LogItem). item.command) (drop 1 (take (suc s.last_persisted_id) l)))
            kept.items
        ∙ sym (
            take-commands_of s.last_persisted_id (get_commit_index n) (get_log n) follows.behind) in
      record {
        replayed = follows.replayed ∙ ap (apply_commands new_store) (sym same);
        behind = omega (arith, kept.low, follows.behind);
      }
