-- ===== src/KvStore/Replay.antt =====
-- hw2/src/worker/worker.cpp: `ActualizeState` and the committed part of the node's log.
use to_ftds.Base.{
  ℕ, zero, suc, ◌+◌, ◌-◌, ◌^◌, ◌≤◌, ◌<◌, ◌≡◌, refl, sym, ap, ◌∙◌, List, [], ◌∷◌, ◌++◌, map, none,
  some, arith, Returns, length, take, drop, lookup, bytes_key, nat_key, length-take, take_all,
}
use to_ftds.Consensus.State.{Command, LogItem, Log}
use to_ftds.Consensus.Node.{Node, get_log, get_commit_index, get_persistent_commands}
use to_ftds.Consensus.Reads.{committed, queries_lem}
use to_ftds.KvStore.{
  KeyValueStore, new_store, apply_command, apply_commands, batch, actualize_state,
}

-- The commands of a log: its items but the first, which the constructor of the node puts there.
abbrev pub commands_of : Log → List Command
commands_of log = map (λ (item : LogItem). item.command) (drop 1 log)

-- The store after the first `count` commands of the log.
abbrev pub replay : Log → ℕ → KeyValueStore
replay log count = apply_commands new_store (take count (commands_of log))

pub apply_commands-append :
    (s : KeyValueStore) (xs ys : List Command)
    → apply_commands s (xs ++ ys) ≡ apply_commands (apply_commands s xs) ys
unfolding apply_commands
apply_commands-append s [] ys = refl
apply_commands-append s (x ∷ xs) ys = apply_commands-append (apply_command s x) xs ys

drop-nil {ℓ} : {A : Type ℓ} (n : ℕ) → drop {A = A} n [] ≡ []
drop-nil zero = refl
drop-nil (suc n) = refl

-- The items from `seen` to `until` follow the first `seen`.
take-append-window {ℓ} :
    {A : Type ℓ} (seen until k : ℕ) (xs : List A)
    → seen ≤ until
    → until ≤ seen + k
    → take seen xs ++ take k (drop seen (take until xs)) ≡ take until xs
take-append-window zero until k xs low high =
    take_all k (take until xs) (omega (arith, length-take until xs))
take-append-window (suc seen) zero k xs low high = absurd (omega arith)
take-append-window (suc seen) (suc until) k [] low high = take_all k [] (omega arith)
take-append-window (suc seen) (suc until) k (x ∷ xs) low high =
    ap (◌∷◌ x) (take-append-window seen until k xs (omega arith) (omega arith))

pub take-map {ℓ κ} :
    {A : Type ℓ} {B : Type κ} (f : A → B) (n : ℕ) (xs : List A)
    → take n (map f xs) ≡ map f (take n xs)
take-map f zero xs = refl
take-map f (suc n) [] = refl
take-map f (suc n) (x ∷ xs) = ap (◌∷◌ (f x)) (take-map f n xs)

drop-map {ℓ κ} :
    {A : Type ℓ} {B : Type κ} (f : A → B) (n : ℕ) (xs : List A)
    → drop n (map f xs) ≡ map f (drop n xs)
drop-map f zero xs = refl
drop-map f (suc n) [] = refl
drop-map f (suc n) (x ∷ xs) = drop-map f n xs

committed-window :
    (log : Log) (commit seen count : ℕ)
    → committed log commit (suc seen) count ≡ take count (drop seen (take commit (commands_of log)))
committed-window [] commit seen count = rw (
  take_all commit no_commands (omega arith),
  drop-nil {A = Command} seen,
  take_all count no_commands (omega arith),
  take_all count no_items (omega arith),
)
  where
    no_commands : List Command
    no_commands = []

    no_items : List LogItem
    no_items = []
committed-window (d ∷ log) commit seen count = rw (
  take-map _ commit log,
  drop-map _ seen (take commit log),
  take-map _ count (drop seen (take commit log)),
)

replay_step :
    (log : Log) (commit seen count : ℕ)
    → seen ≤ commit
    → commit ≤ seen + count
    → apply_commands (replay log seen) (committed log commit (suc seen) count) ≡ replay log commit
replay_step log commit seen count low high = rw (committed-window log commit seen count) (
    sym (
      apply_commands-append new_store (take seen (commands_of log))
        (take count (drop seen (take commit (commands_of log)))))
    ∙ ap (apply_commands new_store)
        (take-append-window seen commit count (commands_of log) low high))

replay-last_persisted_id :
    (s : KeyValueStore) (cs : List Command)
    → (apply_commands s cs).last_persisted_id ≡ s.last_persisted_id + length cs
unfolding apply_commands apply_command
replay-last_persisted_id s [] = omega arith
replay-last_persisted_id s (c ∷ cs) = omega (arith, replay-last_persisted_id (apply_command s c) cs)

length-commands_of : (log : Log) → length (commands_of log) ≡ length log - 1
length-commands_of [] = omega arith
length-commands_of (d ∷ log) = omega (arith, length-map log)
  where
    length-map :
        (xs : List LogItem) → length (map (λ (item : LogItem). item.command) xs) ≡ length xs
    length-map [] = refl
    length-map (x ∷ xs) = ap suc (length-map xs)

-- The store is the replay of the commands that it has counted, all of them committed.
pub record Follows {T : Type 0} (s : KeyValueStore) (n : Node T) : Type 0 where
  pub replayed : s ≡ replay (get_log n) s.last_persisted_id
  pub behind : s.last_persisted_id ≤ get_commit_index n

lookup-snoc :
    {V : Type 0} (k : ℕ) (v : V) (m : List (ℕ × V))
    → lookup k m ≡ none
    → lookup k (m ++ (k, v) ∷ []) ≡ some v
lookup-snoc k v [] h = ground arith
lookup-snoc k v ((j, w) ∷ m) h = ground (arith, lookup-snoc k v m)

module _ {T : Type 0} where
  -- The node with the one query of `ActualizeState`.
  asked : Node T → ℕ → Node T
  asked n seen = record n {
    get_persistent_commands_reqs = ((suc seen, batch), n.next_promise) ∷ [];
    next_promise = suc n.next_promise;
  }

  ask :
      (n : Node T) (seen : ℕ)
      → n.get_persistent_commands_reqs ≡ []
      → get_persistent_commands n (suc seen) batch ≡ (asked n seen, n.next_promise)
  unfolding get_persistent_commands asked
  ask n seen quiet = ground (arith, quiet)

  -- ActualizeState of a store that is the replay of the commands it has counted returns the
  -- replay of all committed commands, with their number counted, and leaves the node's state and
  -- waiting commands alone; the commit index lies in the log and at most one batch ahead, the
  -- indices fit 64 bits, no other query waits and the promise is fresh.
  pub actualize_state-Follows :
      (s : KeyValueStore) (n : Node T)
      → Follows s n
      → get_commit_index n < length (get_log n)
      → get_commit_index n ≤ s.last_persisted_id + batch
      → suc s.last_persisted_id + batch < 2 ^ 64
      → n.get_persistent_commands_reqs ≡ []
      → lookup n.next_promise n.read_results ≡ none
      → Returns
          (λ r.
            (r.0 ≡ replay (get_log n) (get_commit_index n))
            × (r.0.last_persisted_id ≡ get_commit_index n)
            × (r.1.state ≡ n.state)
            × (r.1.incoming_commands ≡ n.incoming_commands))
          (actualize_state s n)
  unfolding actualize_state asked
  actualize_state-Follows s n f inside near small quiet new =
      let seen = s.last_persisted_id in
      let commands = committed (get_log n) (get_commit_index n) (suc seen) batch in
      let caught_up : apply_commands s commands ≡ replay (get_log n) (get_commit_index n) =
        ap (λ t. apply_commands t commands) f.replayed
        ∙ replay_step (get_log n) (get_commit_index n) seen batch f.behind near in
      rw
        (
          ask n seen quiet,
          queries_lem (asked n seen) inside (small, tt),
          lookup-snoc n.next_promise commands n.read_results new,
        )
        (
          _,
          refl,
          (
            caught_up,
            ap (λ (t : KeyValueStore). t.last_persisted_id) caught_up ∙ counted,
            refl,
            refl,
          ),
        )
    where
      counted : (replay (get_log n) (get_commit_index n)).last_persisted_id ≡ get_commit_index n
      counted = omega (
        arith,
        replay-last_persisted_id new_store (take (get_commit_index n) (commands_of (get_log n))),
        length-take (get_commit_index n) (commands_of (get_log n)),
        length-commands_of (get_log n),
      )
