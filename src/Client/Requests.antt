-- ===== src/Client/Requests.antt =====
-- hw2/src/client/cli.cpp: which flags lead to which call, and what a store makes of the calls.
use to_ftds.Base.{
  ℕ, suc, ◌+◌, ◌^◌, ◌≤◌, ◌<◌, ◌≡◌, ◌≢◌, ◌⊎◌, refl, sym, ap, ◌∙◌, ◌==◌, true, false, Bool-cases, inl,
  inr, List, [], ◌∷◌, ◌++◌, none, take, length, lookup, nat_key, All, Returns, bytes_eq,
  bytes_eq_iff, arith,
}
use to_ftds.Consensus.State.{Command}
use to_ftds.Consensus.Node.{Node, get_log, get_commit_index}
use to_ftds.KvStore.{Key, Value, KeyValueStore, parse_command, write_command, batch, read}
use to_ftds.KvStore.Commands.{IsWord, parse-write}
use to_ftds.KvStore.Replay.{commands_of, Follows}
use to_ftds.KvStore.Reads.{read_last_write}
use to_ftds.Client.{
  Flags, Request, read_request, write_request, port_not_set, key_not_set, value_not_set,
  unknown_operation, Run, refuses, calls, read_operation, write_operation, address, start_read,
  start_write, run_client,
}

abbrev IsOperation : Flags → Type 0
IsOperation f = (f.operation ≡ read_operation) ⊎ (f.operation ≡ write_operation)

-- The flags call for the request.
abbrev pub Asks : Flags → Request → Type 0
Asks f (read_request key) = (f.operation ≡ read_operation) × (f.key ≡ key) × (key ≢ [])
Asks f (write_request key value) =
    (f.operation ≡ write_operation) × (f.key ≡ key) × (f.value ≡ value) × (key ≢ []) × (value ≢ [])

abbrev pub Explains : (ℕ → List ℕ) → Flags → Run → Type 0
Explains to_string f (refuses port_not_set) = f.port ≡ 0
Explains to_string f (refuses key_not_set) = (f.port ≢ 0) × IsOperation f × (f.key ≡ [])
Explains to_string f (refuses value_not_set) =
    (f.port ≢ 0) × (f.operation ≡ write_operation) × (f.key ≢ []) × (f.value ≡ [])
Explains to_string f (refuses unknown_operation) = (f.port ≢ 0) × ¬ IsOperation f
Explains to_string f (calls addr request) =
    (f.port ≢ 0) × (addr ≡ f.host ++ 58 ∷ to_string f.port) × Asks f request

same_or_not :
    (a b : List ℕ) → ((bytes_eq a b ≡ true) × (a ≡ b)) ⊎ ((bytes_eq a b ≡ false) × (a ≢ b))
same_or_not a b = elim (Bool-cases (bytes_eq a b)) [
  | inl same ↦ inl (same, (bytes_eq_iff a b).0 same)
  | inr other ↦ inr (other, λ e. grind (arith, bytes_eq_iff a b))
]

start_read-Explains :
    (to_string : ℕ → List ℕ) (f : Flags)
    → f.port ≢ 0
    → f.operation ≡ read_operation
    → Explains to_string f (start_read (address to_string f) f)
unfolding start_read
start_read-Explains to_string f port op = elim (same_or_not f.key []) [
  | inl (same, no_key) ↦ rw (same, Explains) (port, inl op, no_key)
  | inr (other, some_key) ↦ rw (other, Explains) (port, refl, (op, refl, some_key))
]

start_write-Explains :
    (to_string : ℕ → List ℕ) (f : Flags)
    → f.port ≢ 0
    → f.operation ≡ write_operation
    → Explains to_string f (start_write (address to_string f) f)
unfolding start_write
start_write-Explains to_string f port op = elim (same_or_not f.key []) [
  | inl (same, no_key) ↦ rw (same, Explains) (port, inr op, no_key)
  | inr (other, some_key) ↦
      rw (other, ◌≡◌)
        (elim (same_or_not f.value []) [
          | inl (same', no_value) ↦ rw (same', Explains) (port, op, some_key, no_value)
          | inr (other', some_value) ↦
              rw (other', Explains) (port, refl, (op, refl, refl, some_key, some_value))
        ])
]

-- On every branch of the client: it refuses for a port of 0, for a key or a value that the
-- operation needs and that is not set, or for an operation that is neither read nor write, and
-- for the first of these that applies; and where it calls, the address is made of host and port,
-- and the request is the operation's, with the key and the value of the flags, which are not
-- empty.
pub run_client-Explains :
    (to_string : ℕ → List ℕ) (f : Flags) → Explains to_string f (run_client to_string f)
unfolding run_client
run_client-Explains to_string f = elim (Bool-cases (f.port == 0)) [
  | inl zero_port ↦ rw (zero_port, Explains) (ground arith)
  | inr set_port ↦
      let port : f.port ≢ 0 = ground arith in
      rw set_port (elim (same_or_not f.operation read_operation) [
        | inl (same, op) ↦ rw same (start_read-Explains to_string f port op)
        | inr (other, no_read) ↦ rw other (elim (same_or_not f.operation write_operation) [
          | inl (same', op) ↦ rw same' (start_write-Explains to_string f port op)
          | inr (other', no_write) ↦
              rw (other', Explains) (port, λ o. elim o [ inl e ↦ no_read e | inr e ↦ no_write e ])
        ])
      ])
]

-- A request that is called for is one that the flags ask for.
asked :
    (to_string : ℕ → List ℕ) (f : Flags) (addr : List ℕ) (request : Request)
    → run_client to_string f ≡ calls addr request
    → Asks f request
asked to_string f addr request e =
    let explained = run_client-Explains to_string f in (rw e at explained).2

parsed :
    (key : Key) (value : Value)
    → key ≢ []
    → IsWord key
    → IsWord value
    → parse_command (write_command key value) ≡ (key, value)
parsed [] value some_key word word' = absurd (some_key refl)
parsed (c ∷ key) value some_key word word' = parse-write c key value word word'

module _ {T : Type 0} where
  -- A value that one client writes and whose command is the last committed one for its key is
  -- what a Read for another client's key, the same one, returns, where the key and the value have
  -- no blank; the store is the replay of the commands it has counted, the commit index lies in
  -- the log and at most one batch ahead, the indices fit 64 bits, no other query waits and the
  -- promise is fresh.
  pub written-read :
      (to_string : ℕ → List ℕ) (f g : Flags) (addr addr' : List ℕ) (key : Key) (value : Value)
      (s : KeyValueStore) (n : Node T) (before after : List Command)
      → run_client to_string f ≡ calls addr (write_request key value)
      → run_client to_string g ≡ calls addr' (read_request key)
      → IsWord f.key
      → IsWord f.value
      → Follows s n
      → get_commit_index n < length (get_log n)
      → get_commit_index n ≤ s.last_persisted_id + batch
      → suc s.last_persisted_id + batch < 2 ^ 64
      → n.get_persistent_commands_reqs ≡ []
      → lookup n.next_promise n.read_results ≡ none
      → take (get_commit_index n) (commands_of (get_log n))
        ≡ before ++ write_command key value ∷ after
      → All (λ d. (parse_command d).0 ≢ g.key) after
      → Returns (λ r. r.0 ≡ f.value) (read s n g.key)
  written-read to_string f g addr addr' key value s n before after write read' word word' follows
        inside near small quiet new split later =
      let (op, own_key, own_value, some_key, some_value) =
        asked to_string f addr (write_request key value) write in
      let (op', read_key, some) = asked to_string g addr' (read_request key) read' in
      rw read_key (
        read_last_write s n before (write_command key value) after key f.value follows inside near
          small quiet new split
          (parsed key value some_key (rw own_key at word) (rw own_value at word')
            ∙ ap (λ v. (key, v)) (sym own_value))
          (rw read_key at later))
