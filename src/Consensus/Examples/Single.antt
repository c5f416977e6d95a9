-- ===== src/Consensus/Examples/Single.antt =====
-- A node with no others, as in the tests `Leader` and `Trivial`.
use to_ftds.Base.{ℕ, ◌≡◌, refl, sym, ◌∙◌, fault, List, [], ◌∷◌, none, Outcome, ok, ◌>>=◌, for_each}
use to_ftds.Timeout.{UniformTimer, uniform_timer, reset, is_expired}
use to_ftds.Consensus.State.{NodeState, leader, Command}
use to_ftds.Consensus.Node.{
  AddCommandResult, Node, new_node, add_command, get_persistent_commands, add_message, send,
}
use to_ftds.Consensus.Node.Roles.{
  start_election, send_entries, build_append_entries, fresh_leader_state, reset_election_timer,
  send_append_entries_to_all, send_append_entries_to_someone, send_request_vote_to_all, send_each,
  become_leader, become_candidate, become_follower,
}
use to_ftds.Consensus.Node.Requests.{
  observe_term, answer_append_entries, redirect_commands, redirect, check_prev, accept_entries,
  answer_vote, handle_append_entries_request, handle_request_vote_request, put_entries, put_entry,
}
use to_ftds.Consensus.Node.Responses.{
  note_append_entries, note_request_vote, count_vote, step_back, record_match,
  handle_append_entries_response, handle_request_vote_response,
}
use to_ftds.Consensus.Node.Commit.{
  add_command_to_log, collect, answer_query, find_commit, scan_matches, respond_from, commit_until,
  add_to_log, commit_if_possible, add_new_commands_to_log, handle_get_persistent_command_requests,
  replicas, respond,
}
use to_ftds.Consensus.Node.Ticks.{
  check_election_timeout, tick_follower, tick_candidate, tick_leader, tick_role,
  receive_append_entries_request, receive_request_vote_request, receive_append_entries_response,
  receive_request_vote_response, handle_incoming_messages, tick_once, tick,
}
use to_ftds.Consensus.Examples.Nodes.{started}

-- A run of `tick` with all that it calls unfolded.
unfoldable pub run : Node UniformTimer → ℕ → Outcome (Node UniformTimer)
unfolding tick start_election add_command_to_log send_entries build_append_entries
    fresh_leader_state reset_election_timer observe_term answer_append_entries redirect_commands
    redirect check_prev accept_entries answer_vote note_append_entries note_request_vote count_vote
    step_back record_match collect answer_query find_commit scan_matches respond_from commit_until
    add_to_log check_election_timeout tick_follower tick_candidate tick_leader tick_role tick_once
    reset is_expired for_each handle_incoming_messages receive_append_entries_request
    receive_request_vote_request receive_append_entries_response receive_request_vote_response
    handle_append_entries_request handle_request_vote_request put_entries put_entry
    handle_append_entries_response handle_request_vote_response commit_if_possible
    add_new_commands_to_log handle_get_persistent_command_requests replicas respond
    send_append_entries_to_all send_append_entries_to_someone send_request_vote_to_all send_each
    become_leader become_candidate become_follower send add_message
run = tick

pub tick-run : (n : Node UniformTimer) (times : ℕ) → tick n times ≡ run n times
unfolding run
tick-run n times = refl

right_unit : {A : Type 0} (m : Outcome A) → (m >>= λ a. ok a) ≡ m
right_unit (ok a) = refl
right_unit (fault e) = refl

pub once : (n m : Node UniformTimer) → run n 1 ≡ ok m → tick_once n ≡ ok m
unfolding run
once n m e = sym (right_unit (tick_once n)) ∙ e

-- `node.Tick(5); node.AddCommand(...); node.Tick(5); node.GetPersistentCommands(0, 10); node.Tick(5)`
abbrev trivial : Outcome (Node UniformTimer)
trivial = do
  n1 ← run (new_node 123 [] started) 5
  n2 ← run (add_command n1 (7 ∷ [])).0 5
  run (get_persistent_commands n2 0 10).0 5

-- What a client sees of a node.
abbrev outputs :
    Node UniformTimer → Outcome (NodeState × List (ℕ × AddCommandResult) × List (ℕ × List Command))
outputs n = ok (n.role, n.command_results, n.read_results)

-- The node leads; the command is persisted, and the query finds it.
trivial_result :
    (trivial >>= outputs)
    ≡ ok (leader, (0, record { leader_id = none }) ∷ [], (1, (7 ∷ []) ∷ []) ∷ [])
unfolding run new_node add_command get_persistent_commands
trivial_result = refl
