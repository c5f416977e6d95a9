-- ===== src/KvStore.antt =====
-- hw2/src/common/storage.h, hw2/src/common/query.h and the class `KeyValueStoreImpl` of
-- hw2/src/worker/worker.cpp: the key-value store on top of the consensus node. Strings are lists of
-- bytes; the map of the storage is in the order of its keys.
pub mod Commands
pub mod Reads
pub mod Writes
pub mod Replay
pub mod Kept
pub mod Examples
use to_ftds.Base.{
  ℕ, suc, ◌+◌, ◌%◌, ◌^◌, leb, ◌==◌, if◌then◌else◌, Bool, true, ◌||◌, ◌&&◌, List, [], ◌∷◌, ◌++◌,
  Option, none, some, Outcome, ok, need, ◌>>=◌, lookup, insert, find_or, bytes_key, nat_key,
}
use to_ftds.Consensus.State.{Command}
use to_ftds.Consensus.Node.{Node, AddCommandResult, get_persistent_commands, add_command}
use to_ftds.Consensus.Node.Commit.{handle_get_persistent_command_requests}

abbrev pub Key : Type 0
Key = List ℕ

abbrev pub Value : Type 0
Value = List ℕ

pub record Storage : Type 0 where
  pub values : List (Key × Value)

abbrev pub empty_storage : Storage
empty_storage = record { values = [] }

abbrev pub get : Storage → Key → Option Value
get s key = lookup key s.values

pub set : Storage → Key → Value → Storage
set s key new_value = record { values = insert key new_value s.values }

-- The lines that `ToString` writes: a newline, two blanks, the key, `: ` and the value.
pub lines : List (Key × Value) → List ℕ
lines [] = []
lines ((key, value) ∷ m) = 10 ∷ 32 ∷ 32 ∷ (key ++ 58 ∷ 32 ∷ (value ++ lines m))

pub to_string : Storage → List ℕ
unfolding lines
to_string s = b'{' ∷ (lines s.values ++ 10 ∷ b'}' ∷ [])

-- `isspace` in the C locale.
abbrev pub is_space : ℕ → Bool
is_space c = (c == 32) || (leb 9 c && leb c 13)

-- `stream >> word`: blanks are skipped, and the word ends before the next blank.
pub skip_space : List ℕ → List ℕ
skip_space [] = []
skip_space (c ∷ cs) = if is_space c then skip_space cs else c ∷ cs

pub span_word : List ℕ → List ℕ × List ℕ
span_word [] = ([], [])
span_word (c ∷ cs) =
    let (word, rest) = span_word cs in if is_space c then ([], c ∷ cs) else (c ∷ word, rest)

pub read_word : List ℕ → List ℕ × List ℕ
unfolding skip_space span_word
read_word s = span_word (skip_space s)

-- `c >> key >> value`
pub parse_command : Command → Key × Value
parse_command c = let (key, rest) = read_word c in let (value, _) = read_word rest in (key, value)

-- The command of a `Write`.
unfoldable pub write_command : Key → Value → Command
write_command key value = key ++ 32 ∷ value

pub record KeyValueStore : Type 0 where
  pub last_persisted_id : ℕ
  pub storage : Storage

abbrev pub new_store : KeyValueStore
new_store = record { last_persisted_id = 0; storage = empty_storage }

-- One round of the loop of `ActualizeState`.
pub apply_command : KeyValueStore → Command → KeyValueStore
apply_command s c =
    let (key, value) = parse_command c in
    record { last_persisted_id = suc s.last_persisted_id; storage = set s.storage key value }

pub apply_commands : KeyValueStore → List Command → KeyValueStore
apply_commands s [] = s
apply_commands s (c ∷ cs) = apply_commands (apply_command s c) cs

abbrev pub batch : ℕ
batch = 100_000_000

module _ {T : Type 0} where
  -- `get()` waits for the tick that answers the query; of that tick only the handling of queries
  -- bears on the answer.
  pub actualize_state : KeyValueStore → Node T → Outcome (KeyValueStore × Node T)
  actualize_state s n = do
    let asked = get_persistent_commands n (suc s.last_persisted_id) batch
    n' ← handle_get_persistent_command_requests asked.0
    commands ← need (lookup asked.1 n'.read_results)
    ok (apply_commands s commands, n')

  -- The response to a `Read`.
  pub read : KeyValueStore → Node T → Key → Outcome (Value × KeyValueStore × Node T)
  read s n key = actualize_state s n >>= λ r. ok (find_or key [] r.0.storage.values, r.0, r.1)

  -- A `Write` up to the wait for its result.
  pub write : KeyValueStore → Node T → Key → Value → Outcome (ℕ × KeyValueStore × Node T)
  write s n key value = actualize_state s n >>= λ r.
      (let asked = add_command r.1 (write_command key value) in ok (asked.1, r.0, asked.0))

-- `WriteResponse`: `master_id` is an `int32`, here its bits.
pub data WriteResponse : Type 0 where
  value_persisted : WriteResponse
  master_id : ℕ → WriteResponse

abbrev pub write_response : AddCommandResult → WriteResponse
write_response r = elim r.leader_id [ none ↦ value_persisted | some id ↦ master_id (id % 2 ^ 32) ]
