-- ===== src/KvStore/Reads.antt =====
-- hw2/src/worker/worker.cpp: what a `Read` returns.
use to_ftds.Base.{
  suc, ◌+◌, ◌^◌, ◌≤◌, ◌<◌, ◌≡◌, ◌≢◌, refl, ap, ◌∙◌, List, [], ◌∷◌, ◌++◌, Option, none, some, arith,
  if◌then◌else◌, All, Returns, length, take, lookup, lookup-insert, bytes_eq, bytes_eq_iff,
  bytes_key, nat_key,
}
use to_ftds.Consensus.State.{Command}
use to_ftds.Consensus.Node.{Node, get_log, get_commit_index}
use to_ftds.KvStore.{
  Key, Value, set, KeyValueStore, new_store, parse_command, apply_command, apply_commands, batch,
  read,
}
use to_ftds.KvStore.Replay.{commands_of, apply_commands-append, Follows, actualize_state-Follows}

abbrev value_of : KeyValueStore → Key → Option Value
value_of s key = lookup key s.storage.values

apply_command-value :
    (s : KeyValueStore) (c : Command) (key : Key)
    → value_of (apply_command s c) key
      ≡ (if bytes_eq (parse_command c).0 key then some (parse_command c).1 else value_of s key)
unfolding apply_command set
apply_command-value s c key =
    lookup-insert (parse_command c).0 key (parse_command c).1 s.storage.values

-- A command for another key.
apply_command-other :
    (s : KeyValueStore) (c : Command) (key : Key)
    → (parse_command c).0 ≢ key
    → value_of (apply_command s c) key ≡ value_of s key
apply_command-other s c key ne =
    ground (arith, apply_command-value s c key, bytes_eq_iff (parse_command c).0 key)

apply_command-own :
    (s : KeyValueStore) (c : Command) (key : Key) (value : Value)
    → parse_command c ≡ (key, value)
    → value_of (apply_command s c) key ≡ some value
apply_command-own s c key value e =
    ground (arith, apply_command-value s c key, bytes_eq_iff (parse_command c).0 key)

apply_commands-other :
    (s : KeyValueStore) (cs : List Command) (key : Key)
    → All (λ c. (parse_command c).0 ≢ key) cs
    → value_of (apply_commands s cs) key ≡ value_of s key
unfolding apply_commands
apply_commands-other s [] key h = refl
apply_commands-other s (c ∷ cs) key h =
    apply_commands-other (apply_command s c) cs key h.1 ∙ apply_command-other s c key h.0

last_write :
    (s : KeyValueStore) (before : List Command) (c : Command) (after : List Command) (key : Key)
    (value : Value)
    → parse_command c ≡ (key, value)
    → All (λ d. (parse_command d).0 ≢ key) after
    → value_of (apply_commands s (before ++ c ∷ after)) key ≡ some value
unfolding apply_commands
last_write s before c after key value e h = rw (apply_commands-append s before (c ∷ after)) (
    apply_commands-other (apply_command (apply_commands s before) c) after key h
    ∙ apply_command-own (apply_commands s before) c key value e)

module _ {T : Type 0} where
  -- A Read of a store that is the replay of the commands it has counted returns the value that
  -- the last committed command for its key sets; the commit index lies in the log and at most one
  -- batch ahead, the indices fit 64 bits, no other query waits and the promise is fresh.
  pub read_last_write :
      (s : KeyValueStore) (n : Node T) (before : List Command) (c : Command) (after : List Command)
      (key : Key) (value : Value)
      → Follows s n
      → get_commit_index n < length (get_log n)
      → get_commit_index n ≤ s.last_persisted_id + batch
      → suc s.last_persisted_id + batch < 2 ^ 64
      → n.get_persistent_commands_reqs ≡ []
      → lookup n.next_promise n.read_results ≡ none
      → take (get_commit_index n) (commands_of (get_log n)) ≡ before ++ c ∷ after
      → parse_command c ≡ (key, value)
      → All (λ d. (parse_command d).0 ≢ key) after
      → Returns (λ r. r.0 ≡ value) (read s n key)
  unfolding read
  read_last_write s n before c after key value f inside near small quiet new split e h =
      let (r, done, caught_up) = actualize_state-Follows s n f inside near small quiet new in
      let found : value_of r.0 key ≡ some value =
        ap (λ t. value_of t key) caught_up.0
        ∙ ap (λ cs. value_of (apply_commands new_store cs) key) split
        ∙ last_write new_store before c after key value e h in
      rw done (_, refl, ground (arith, found))
