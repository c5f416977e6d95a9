-- ===== src/Consensus/Examples/Logs.antt =====
-- hw2/src/consensus: the theorems on logs at concrete inputs.
use to_ftds.Base.{◌≡◌, refl, [], ◌∷◌, arith, Returns, ok, zero, suc}
use to_ftds.Consensus.State.{Log}
use to_ftds.Consensus.Node.Requests.{handle_append_entries_request}
use to_ftds.Consensus.Node.Commit.{commit_if_possible, handle_get_persistent_command_requests}
use to_ftds.Consensus.Replication.{AppendEntriesEffect, append_entries-Effect}
use to_ftds.Consensus.CommitRule.{CommitEffect, commit_if_possible-CommitEffect}
use to_ftds.Consensus.Reads.{queries_lem}
use to_ftds.Consensus.Examples.Nodes.{follower_node, overwrite, progress, leader_node, queried_node}
use to_ftds.Timeout.{uniform_timer, UniformTimer}
use to_ftds.Consensus.Committed.{AgreesWithCommitted, KeepsCommitted, append_entries-KeepsCommitted}
use to_ftds.Consensus.Message.{AppendEntriesRequest}
use to_ftds.Consensus.Node.{Node}

abbrev new_items : Log
new_items =
    record { command = 99 ∷ []; leader_term = 2 }
    ∷ record { command = 100 ∷ []; leader_term = 2 }
    ∷ []

append_entries-Effect_example :
    AppendEntriesEffect follower_node overwrite
      (handle_append_entries_request follower_node overwrite).0
      (handle_append_entries_request follower_node overwrite).1
append_entries-Effect_example = append_entries-Effect follower_node overwrite

commit_if_possible-CommitEffect_example :
    Returns (CommitEffect leader_node progress) (commit_if_possible leader_node)
commit_if_possible-CommitEffect_example = commit_if_possible-CommitEffect leader_node progress refl

queries_lem_example :
    handle_get_persistent_command_requests queried_node
    ≡ ok (record queried_node {
      get_persistent_commands_reqs = [];
      read_results = (4, (97 ∷ []) ∷ (98 ∷ []) ∷ []) ∷ [];
    })
queries_lem_example = queries_lem queried_node (omega arith) (omega arith)

-- Item 1 of three is committed; the request brings it again, and another item 2.
abbrev committed_node : Node UniformTimer
committed_node = record follower_node {
  state = record follower_node.state { volatile_state = record { commit_index = 1 } };
}

abbrev resend : AppendEntriesRequest
resend = record overwrite {
  prev_log_index = 0;
  prev_log_term = 0;
  entries =
      record { command = 97 ∷ []; leader_term = 1 }
      ∷ record { command = 99 ∷ []; leader_term = 2 }
      ∷ [];
}

resend_agrees : AgreesWithCommitted committed_node resend
resend_agrees zero low short = refl
resend_agrees (suc j) low short = absurd (omega arith)

append_entries-KeepsCommitted_example :
    KeepsCommitted committed_node resend (handle_append_entries_request committed_node resend).0
append_entries-KeepsCommitted_example =
    append_entries-KeepsCommitted committed_node resend (omega arith) resend_agrees
