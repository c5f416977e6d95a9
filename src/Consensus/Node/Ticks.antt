-- ===== src/Consensus/Node/Ticks.antt =====
-- hw2/src/consensus/node.cpp: a tick, and the messages that it handles.
use to_ftds.Base.{
  ℕ, zero, suc, u64, if◌then◌else◌, true, [], Outcome, ok, fault, out_of_range, ◌>>=◌, for_each,
  contains,
}
use to_ftds.Timeout.{ITimeout}
use to_ftds.Consensus.State.{NodeState, leader, follower, candidate}
use to_ftds.Consensus.Message.{
  AppendEntriesRequest, AppendEntriesResponse, RequestVoteRequest, RequestVoteResponse,
  append_entries_response, request_vote_response,
}
use to_ftds.Consensus.Node.{Node, send}
use to_ftds.Consensus.Node.Roles.{is_leader, become_candidate, send_append_entries_to_all}
use to_ftds.Consensus.Node.Requests.{handle_append_entries_request, handle_request_vote_request}
use to_ftds.Consensus.Node.Responses.{handle_append_entries_response, handle_request_vote_response}
use to_ftds.Consensus.Node.Commit.{
  commit_if_possible, add_new_commands_to_log, handle_get_persistent_command_requests,
}

module _ {T : Type 0} ⦃timer : ITimeout T⦄ where
  unfoldable pub receive_append_entries_request :
      Node T → ℕ × AppendEntriesRequest → Outcome (Node T)
  receive_append_entries_request n (sender, req) =
      if contains sender n.channels
      then (let (n', resp) = handle_append_entries_request n req in
          ok (send n' sender (append_entries_response resp)))
      else fault out_of_range

  unfoldable pub receive_request_vote_request : Node T → ℕ × RequestVoteRequest → Outcome (Node T)
  receive_request_vote_request n (sender, req) =
      if contains sender n.channels
      then (let (n', resp) = handle_request_vote_request n req in
          ok (send n' sender (request_vote_response resp)))
      else fault out_of_range

  unfoldable pub receive_append_entries_response :
      Node T → ℕ × AppendEntriesResponse → Outcome (Node T)
  receive_append_entries_response n (sender, resp) = handle_append_entries_response n resp sender

  unfoldable pub receive_request_vote_response : Node T → ℕ × RequestVoteResponse → Outcome (Node T)
  receive_request_vote_response n (sender, resp) = handle_request_vote_response n resp sender

  -- The queues are taken at once: what a node sends to itself meanwhile waits for the next tick.
  abbrev pub take_messages : Node T → Node T
  take_messages n = record n {
    incoming_append_entries_requests = [];
    incoming_request_vote_requests = [];
    incoming_append_entries_responses = [];
    incoming_request_vote_responses = [];
  }

  unfoldable pub handle_incoming_messages : Node T → Outcome (Node T)
  handle_incoming_messages n = do
    n1 ←
        for_each receive_append_entries_request (take_messages n) n.incoming_append_entries_requests
    n2 ← for_each receive_request_vote_request n1 n.incoming_request_vote_requests
    n3 ← for_each receive_append_entries_response n2 n.incoming_append_entries_responses
    for_each receive_request_vote_response n3 n.incoming_request_vote_responses

  unfoldable pub check_election_timeout : Node T → Node T
  check_election_timeout n =
      let (expired, t) = timer.is_expired n.election_timeout in
      let n' = record n { election_timeout = t } in if expired then become_candidate n' else n'

  unfoldable pub tick_follower : Node T → Outcome (Node T)
  tick_follower n = handle_incoming_messages n >>= λ n'. ok (check_election_timeout n')

  unfoldable pub tick_candidate : Node T → Outcome (Node T)
  tick_candidate n = tick_follower n

  unfoldable pub tick_leader : Node T → Outcome (Node T)
  tick_leader n = do
    n1 ← commit_if_possible n
    n2 ← handle_incoming_messages n1
    if is_leader n2.role
        then (send_append_entries_to_all true n2 >>= λ n3. ok (add_new_commands_to_log n3))
        else ok n2

  unfoldable pub tick_role : NodeState → Node T → Outcome (Node T)
  tick_role follower n = tick_follower n
  tick_role candidate n = tick_candidate n
  tick_role leader n = tick_leader n

  -- One round of the loop of `Tick`.
  unfoldable pub tick_once : Node T → Outcome (Node T)
  tick_once n = do
    n' ← handle_get_persistent_command_requests (record n { tick_number = u64 (suc n.tick_number) })
    tick_role n'.role n'

  unfoldable pub tick : Node T → ℕ → Outcome (Node T)
  tick n zero = ok n
  tick n (suc times) = tick_once n >>= λ n'. tick n' times
