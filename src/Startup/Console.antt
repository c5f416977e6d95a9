-- ===== src/Startup/Console.antt =====
-- `main` of hw2/src/worker/worker.cpp behind the start: the two servers, the thread that ticks, and the loop
-- over the words of the standard input. The list of words ends where no word has come yet; each word
-- comes with the store and the node as the other threads have left them by then.
use to_ftds.Base.{ℕ, ◌+◌, if◌then◌else◌, List, [], ◌∷◌, ◌++◌, Outcome, ok, ◌>>=◌, bytes_eq}
use to_ftds.Consensus.Node.{Node}
use to_ftds.KvStore.{KeyValueStore, actualize_state, to_string}

-- The port of the key-value server, and that of the server for the other nodes.
abbrev pub kv_port : ℕ → ℕ
kv_port port = port

abbrev pub communication_port : ℕ → ℕ
communication_port port = port + 10

-- What `stop` does to the servers and to the threads.
pub data ServerCall : Type 0 where
  shutdown_communication join_communication shutdown_kv join_kv : ServerCall
  stop_consensus join_consensus : ServerCall

pub record Process (T : Type 0) : Type 0 where
  pub store : KeyValueStore
  pub node : Node T
  pub printed : List (List ℕ)
  pub calls : List ServerCall

pub data Console (T : Type 0) : Type 0 where
  waits : Process T → Console T
  exited : ℕ → Process T → Console T

abbrev pub dump_word : List ℕ
dump_word = b'd' ∷ b'u' ∷ b'm' ∷ b'p' ∷ []

abbrev pub stop_word : List ℕ
stop_word = b's' ∷ b't' ∷ b'o' ∷ b'p' ∷ []

abbrev pub shutdown : List ServerCall
shutdown =
    shutdown_communication ∷ join_communication ∷ shutdown_kv ∷ join_kv ∷ stop_consensus
    ∷ join_consensus ∷ []

module _ {T : Type 0} where
  -- `DumpState`
  unfoldable pub dump_state : Process T → Outcome (Process T)
  dump_state p = do
    r ← actualize_state p.store p.node
    ok (record p { store = r.0; node = r.1; printed = p.printed ++ to_string r.0.storage ∷ [] })

  -- One round of the loop.
  unfoldable pub obey : Process T → List ℕ → Outcome (Console T)
  obey p command =
      if bytes_eq command dump_word
      then (dump_state p >>= λ p'. ok (waits p'))
      else (if bytes_eq command stop_word
          then ok (exited 0 (record p { calls = p.calls ++ shutdown }))
          else ok (waits p))

  unfoldable pub console : Process T → List (KeyValueStore × Node T × List ℕ) → Outcome (Console T)
  console p [] = ok (waits p)
  console p ((s, n, command) ∷ rest) = obey (record p { store = s; node = n }) command >>= λ c.
      elim c [ waits p' ↦ console p' rest | exited code p' ↦ ok (exited code p') ]
