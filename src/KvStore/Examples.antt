-- ===== src/KvStore/Examples.antt =====
-- The class `KeyValueStoreImpl` of hw2/src/worker/worker.cpp on a node with two committed writes.
use to_ftds.Base.{
  ◌≡◌, refl, [], ◌∷◌, none, arith, Returns, ◌-◌, some, length, lookup, nat_key, zero, suc,
}
use to_ftds.Timeout.{UniformTimer, uniform_timer}
use to_ftds.Consensus.State.{Command}
use to_ftds.Consensus.Node.{Node, get_log}
use to_ftds.Consensus.Examples.Nodes.{follower_node}
use to_ftds.KvStore.{
  new_store, parse_command, read_word, write_command, apply_commands, to_string, actualize_state,
  read, write,
}
use to_ftds.KvStore.Commands.{parse-write_cut}
use to_ftds.KvStore.Replay.{replay, Follows, actualize_state-Follows}
use to_ftds.KvStore.Reads.{read_last_write}
use to_ftds.KvStore.Writes.{extended, write_logged}
use to_ftds.Consensus.Node.Commit.{add_new_commands_to_log}
use to_ftds.KvStore.Kept.{append_entries-Follows}
use to_ftds.Consensus.Committed.{AgreesWithCommitted}
use to_ftds.Consensus.Message.{AppendEntriesRequest}
use to_ftds.Consensus.Node.Requests.{handle_append_entries_request}

-- `k v`, then `k w`.
abbrev pub first_write : Command
first_write = 107 ∷ 32 ∷ 118 ∷ []

abbrev pub second_write : Command
second_write = 107 ∷ 32 ∷ 119 ∷ []

abbrev pub written : Node UniformTimer
written = record follower_node {
  state = record {
    persistent_state = record {
      current_term = 1;
      voted_for = none;
      log =
          record { command = []; leader_term = 0 }
          ∷ record { command = first_write; leader_term = 1 }
          ∷ record { command = second_write; leader_term = 1 }
          ∷ [];
    };
    volatile_state = record { commit_index = 2 };
  };
}

pub new_store-Follows : Follows new_store written
unfolding apply_commands
new_store-Follows = record { replayed = refl; behind = omega arith }

parse-write_cut_example :
    parse_command (write_command (107 ∷ []) (118 ∷ 32 ∷ 119 ∷ [])) ≡ (107 ∷ [], 118 ∷ [])
parse-write_cut_example = parse-write_cut 107 [] 118 [] (119 ∷ []) (refl, tt) (refl, tt)

actualize_state-Follows_example :
    Returns
      (λ r.
        (r.0 ≡ replay (get_log written) 2)
        × (r.0.last_persisted_id ≡ 2)
        × (r.1.state ≡ written.state)
        × (r.1.incoming_commands ≡ written.incoming_commands))
      (actualize_state new_store written)
actualize_state-Follows_example =
    actualize_state-Follows new_store written new_store-Follows (omega arith) (omega arith)
      (omega arith) refl refl

read_last_write_example : Returns (λ r. r.0 ≡ 119 ∷ []) (read new_store written (107 ∷ []))
unfolding parse_command read_word
read_last_write_example =
    read_last_write new_store written (first_write ∷ []) second_write [] (107 ∷ []) (119 ∷ [])
      new_store-Follows (omega arith) (omega arith) (omega arith) refl refl refl refl tt

-- The text of `dump`.
dumped :
    to_string (record { values = (107 ∷ [], 118 ∷ []) ∷ [] })
    ≡ 123 ∷ 10 ∷ 32 ∷ 32 ∷ 107 ∷ 58 ∷ 32 ∷ 118 ∷ 10 ∷ 125 ∷ []
unfolding to_string
dumped = refl

write_logged_example :
    Returns
      (λ r.
        let m = add_new_commands_to_log r.2 in
        (get_log m ≡ extended written.state [] (write_command (107 ∷ []) (120 ∷ [])))
        × (lookup (length (get_log m) - 1) m.items_to_response ≡ some r.0))
      (write new_store written (107 ∷ []) (120 ∷ []))
write_logged_example =
    write_logged new_store written (107 ∷ []) (120 ∷ []) new_store-Follows (omega arith)
      (omega arith) (omega arith) refl refl

-- The request brings the second write again, and another behind it.
abbrev extending : AppendEntriesRequest
extending = record {
  leader_term = 1;
  leader_id = 3;
  prev_log_index = 1;
  prev_log_term = 1;
  entries =
      record { command = second_write; leader_term = 1 }
      ∷ record { command = first_write; leader_term = 1 }
      ∷ [];
  leader_commit = 3;
}

extending_agrees : AgreesWithCommitted written extending
extending_agrees zero low short = refl
extending_agrees (suc j) low short = absurd (omega arith)

append_entries-Follows_example :
    Follows new_store (handle_append_entries_request written extending).0
append_entries-Follows_example =
    append_entries-Follows new_store written extending new_store-Follows (omega arith) (omega arith)
      extending_agrees
