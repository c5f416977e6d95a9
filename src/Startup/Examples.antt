-- ===== src/Startup/Examples.antt =====
-- `main` of hw2/src/worker/worker.cpp: starts of nodes, with a number for the timer.
use to_ftds.Base.{ℕ, ◌≡◌, refl, [], ◌∷◌, arith, List, some, ok, lookup, nat_key}
use to_ftds.Consensus.Node.{Node}
use to_ftds.Startup.{running, started, start, add_channels}
use to_ftds.Startup.Nodes.{start-knows_all, start-runs}
use to_ftds.Consensus.Examples.Nodes.{follower_node}
use to_ftds.Timeout.{UniformTimer}
use to_ftds.Consensus.Quorum.{Distinct}
use to_ftds.KvStore.{KeyValueStore, new_store}
use to_ftds.KvStore.Examples.{written, new_store-Follows}
use to_ftds.Startup.Console.{Process, waits, console, dump_word}
use to_ftds.Startup.Servers.{servers_apart, console_lem, Done}

start-knows_all_example :
    (n : Node ℕ) × (start 4 5002 5001 5003 0 ≡ started n)
    × (n.my_id ≡ 5002)
    × (n.channels ≡ 5001 ∷ 5002 ∷ 5003 ∷ [])
    × (n.total_nodes ≡ 3)
start-knows_all_example = start-knows_all 4 5002 5001 5003 0 (omega arith) (omega arith) refl

start-runs_example : start {T = ℕ} 100000 65534 65533 65535 0 ≡ running
start-runs_example = start-runs {T = ℕ} 100000 65534 65533 0 refl

servers_apart_example :
    Distinct (5001 ∷ 5011 ∷ 5003 ∷ 5013 ∷ [])
    × ((channels : List (ℕ × ℕ)) × (add_channels 4 5001 5001 5003 [] ≡ some channels)
        × (lookup 5003 channels ≡ some 5013))
servers_apart_example =
    servers_apart 4 5001 5003 5001 5003 (omega arith) (omega arith) refl refl (omega arith)

-- A word that is no command, before anything was written, then `dump`.
abbrev words : List (KeyValueStore × Node UniformTimer × List ℕ)
words = (new_store, follower_node, 108 ∷ []) ∷ (new_store, written, dump_word) ∷ []

abbrev process : Process UniformTimer
process = record { store = new_store; node = follower_node; printed = []; calls = [] }

console_lem_example :
    (q : Process UniformTimer) × (console process words ≡ ok (waits q)) × Done process words q
console_lem_example = console_lem process words (
  refl,
  tt,
  (
    refl,
    record {
      follows = new_store-Follows;
      inside = omega arith;
      near = omega arith;
      small = omega arith;
      quiet = refl;
      new = refl;
    },
    tt,
  ),
)
