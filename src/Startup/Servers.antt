-- ===== src/Startup/Servers.antt =====
-- `main` of hw2/src/worker/worker.cpp: the ports of the servers of a cluster, and the dumps and the stop of a
-- process.
use to_ftds.Base.{
  ℕ, zero, suc, ◌+◌, ◌^◌, ◌≤◌, ◌<◌, ◌≡◌, ◌≢◌, refl, sym, ap, ◌∙◌, inl, inr, true, false, Bool-cases,
  ◌==◌, if◌then◌else◌, List, [], ◌∷◌, ◌++◌, append_assoc, append-nil, some, none, lookup, ok,
  bytes_eq, length, nat_key, arith,
}
use to_ftds.Consensus.Node.{Node, get_log, get_commit_index}
use to_ftds.Consensus.Quorum.{Distinct}
use to_ftds.KvStore.{KeyValueStore, to_string, batch}
use to_ftds.KvStore.Replay.{replay, Follows, actualize_state-Follows}
use to_ftds.Startup.{ports_valid, nodes_count, add_channels}
use to_ftds.Startup.Nodes.{targets, add_channels_lem}
use to_ftds.Startup.Console.{
  kv_port, communication_port, Process, waits, exited, dump_word, stop_word, dump_state,
  shutdown_communication, join_communication, shutdown_kv, join_kv, stop_consensus, join_consensus,
  obey, console,
}

lookup-targets :
    (port i n q : ℕ) → i ≤ q → q < i + n → q ≢ port → lookup q (targets port i n) ≡ some (q + 10)
unfolding targets
lookup-targets port i zero q low high other = absurd (omega arith)
lookup-targets port i (suc n) q low high other = elim (Bool-cases (i == q)) [
  | inl here ↦ ground arith
  | inr later ↦ ground (arith, lookup-targets port (suc i) n q)
]

-- With valid ports below the largest uint16_t, and fuel for more rounds than there are nodes: the
-- ports on which two different nodes of the cluster serve the clients and the other nodes are
-- four different ones, and the channel that the first node has for the second sends to the port
-- on which the second serves the other nodes.
pub servers_apart :
    (fuel p q min_port max_port : ℕ)
    → suc max_port < 2 ^ 16
    → nodes_count min_port max_port < fuel
    → ports_valid p min_port max_port ≡ true
    → ports_valid q min_port max_port ≡ true
    → p ≢ q
    → Distinct (kv_port p ∷ communication_port p ∷ kv_port q ∷ communication_port q ∷ [])
      × ((channels : List (ℕ × ℕ)) × (add_channels fuel p min_port max_port [] ≡ some channels)
          × (lookup q channels ≡ some (communication_port q)))
servers_apart fuel p q min_port max_port fits few valid_p valid_q other = (
  ground arith,
  (
    targets p min_port (nodes_count min_port max_port),
    add_channels_lem fuel p min_port (nodes_count min_port max_port) max_port [] (ground arith) fits
        few tt,
    lookup-targets p min_port (nodes_count min_port max_port) q (ground arith) (ground arith)
        (λ e. ground arith),
  ),
)

-- What `ActualizeState` needs of the store and of the node.
pub record CanDump {T : Type 0} (s : KeyValueStore) (n : Node T) : Type 0 where
  pub follows : Follows s n
  pub inside : get_commit_index n < length (get_log n)
  pub near : get_commit_index n ≤ s.last_persisted_id + batch
  pub small : suc s.last_persisted_id + batch < 2 ^ 64
  pub quiet : n.get_persistent_commands_reqs ≡ []
  pub new : lookup n.next_promise n.read_results ≡ none

module _ {T : Type 0} where
  -- The state that a dump of the node shows.
  abbrev shown : Node T → KeyValueStore
  shown n = replay (get_log n) (get_commit_index n)

  -- No word is `stop`, and each dump can be made.
  abbrev pub Obeyed : List (KeyValueStore × Node T × List ℕ) → Type 0
  Obeyed [] = Unit
  Obeyed ((s, n, command) ∷ rest) =
      (bytes_eq command stop_word ≡ false)
      × (if bytes_eq command dump_word then CanDump s n else Unit)
      × Obeyed rest

  abbrev pub dumps : List (KeyValueStore × Node T × List ℕ) → List (List ℕ)
  dumps [] = []
  dumps ((s, n, command) ∷ rest) =
      if bytes_eq command dump_word then to_string (shown n).storage ∷ dumps rest else dumps rest

  -- What the loop has done by the end of the words, and what it does at a `stop` there.
  abbrev pub Done : Process T → List (KeyValueStore × Node T × List ℕ) → Process T → Type 0
  Done p words q =
      (q.printed ≡ p.printed ++ dumps words)
      × (q.calls ≡ p.calls)
      × ((s : KeyValueStore) (n : Node T) (rest : List (KeyValueStore × Node T × List ℕ))
          → console p (words ++ (s, n, stop_word) ∷ rest)
            ≡ ok (
                exited 0 (record q {
                  store = s;
                  node = n;
                  calls =
                      q.calls
                      ++ shutdown_communication ∷ join_communication ∷ shutdown_kv ∷ join_kv
                        ∷ stop_consensus ∷ join_consensus ∷ [];
                })))

  -- Where the other threads may change store and node before each word, no word is stop and
  -- ActualizeState can be made at each dump (the store is the replay of the commands it has
  -- counted, the commit index lies in the log and at most one batch ahead, the indices fit 64
  -- bits, no other query waits and the promise is fresh): the loop of main still waits after the
  -- words, has printed for each dump the state that all commands committed by then make, and
  -- nothing else, and has called nothing; and at a stop that follows, main exits with 0, having
  -- shut down and joined the server for the nodes, that for the clients, and the thread that
  -- ticks, in this order and once each.
  pub console_lem :
      (p : Process T) (words : List (KeyValueStore × Node T × List ℕ))
      → Obeyed words
      → (q : Process T) × (console p words ≡ ok (waits q)) × Done p words q
  unfolding console obey dump_state
  console_lem p [] h = (p, refl, (sym (append-nil p.printed), refl, λ s n rest. refl))
  console_lem p ((s, n, command) ∷ rest) (going, can, h) =
      elim (Bool-cases (bytes_eq command dump_word)) [
        | inr other ↦
            let (q, e, (printed, calls, at_stop)) =
              console_lem (record p { store = s; node = n }) rest h in
            rw (other, going) (q, e, (printed, calls, at_stop))
        | inl dumped ↦
            let can' : CanDump s n = rw dumped at can in
            let (r, e, (same, counted, _, _)) =
              actualize_state-Follows s n can'.follows can'.inside can'.near can'.small can'.quiet
                can'.new in
            let p' : Process T = record p {
              store = r.0;
              node = r.1;
              printed = p.printed ++ to_string r.0.storage ∷ [];
            } in
            let (q, e', (printed, calls, at_stop)) = console_lem p' rest h in
            let shows : q.printed ≡ p.printed ++ to_string (shown n).storage ∷ dumps rest =
              printed
              ∙ append_assoc p.printed (to_string r.0.storage ∷ []) (dumps rest)
              ∙ ap (λ (t : KeyValueStore). p.printed ++ to_string t.storage ∷ dumps rest) same in
            rw (dumped, e) (q, e', (shows, calls, at_stop))
      ]
