-- ===== src/Consensus/Mail/Ticks.antt =====
-- hw2/src/consensus/node.cpp: what a round of `Tick` does to the messages that wait and that were sent.
use to_ftds.Base.{
  ℕ, suc, refl, inl, inr, true, if◌then◌else◌, List, Bool-cases, ok, Ensures, >>=-Ensures, ◌>>=◌,
  for_each, for_each-Keeps, contains, u64,
}
use to_ftds.Timeout.{ITimeout}
use to_ftds.Consensus.State.{NodeState, leader, follower, candidate}
use to_ftds.Consensus.Message.{
  AppendEntriesRequest, AppendEntriesResponse, RequestVoteRequest, RequestVoteResponse,
  append_entries_response, request_vote_response,
}
use to_ftds.Consensus.Node.{Node}
use to_ftds.Consensus.Node.Roles.{
  is_leader, start_election, become_candidate, reset_election_timer, send_append_entries_to_all,
  send_request_vote_to_all,
}
use to_ftds.Consensus.Node.Requests.{
  observe_term, handle_append_entries_request, handle_request_vote_request,
}
use to_ftds.Consensus.Node.Responses.{handle_append_entries_response, handle_request_vote_response}
use to_ftds.Consensus.Node.Commit.{
  commit_if_possible, add_new_commands_to_log, handle_get_persistent_command_requests,
}
use to_ftds.Consensus.Node.Ticks.{
  receive_append_entries_request, receive_request_vote_request, receive_append_entries_response,
  receive_request_vote_response, take_messages, handle_incoming_messages, check_election_timeout,
  tick_follower, tick_candidate, tick_leader, tick_role, tick_once,
}
use to_ftds.Consensus.Quiet.{
  Quiet, commit_if_possible-Quiet, add_new_commands_to_log-Quiet, queries-Quiet,
}
use to_ftds.Consensus.Mail.{
  Mail, Mail-same, Quiet-Mail, send-Mail, send_request_vote_to_all-Mail,
  send_append_entries_to_all-Mail,
}
use to_ftds.Consensus.Mail.Handlers.{
  observe_term-Mail, note_append_entries-Mail, note_request_vote-Mail,
  handle_append_entries_request-Mail, handle_request_vote_request-Mail,
}

module _ {T : Type 0} ⦃timer : ITimeout T⦄ (channels : List ℕ) where
  receive_append_entries_request-Mail :
      (n : Node T) (x : ℕ × AppendEntriesRequest)
      → Mail channels n
      → Ensures (Mail channels) (receive_append_entries_request n x)
  unfolding receive_append_entries_request
  receive_append_entries_request-Mail n (sender, req) mail =
      elim (Bool-cases (contains sender n.channels)) [
        | inr unknown ↦ rw (unknown, Ensures) tt
        | inl known ↦
            let m = handle_append_entries_request n req in
            let (kept, complete) = handle_append_entries_request-Mail channels n req mail in
            rw (known, Ensures)
              (send-Mail channels m.0 sender (append_entries_response m.1) complete kept)
      ]

  receive_request_vote_request-Mail :
      (n : Node T) (x : ℕ × RequestVoteRequest)
      → Mail channels n
      → Ensures (Mail channels) (receive_request_vote_request n x)
  unfolding receive_request_vote_request
  receive_request_vote_request-Mail n (sender, req) mail =
      elim (Bool-cases (contains sender n.channels)) [
        | inr unknown ↦ rw (unknown, Ensures) tt
        | inl known ↦
            let m = handle_request_vote_request n req in
            rw (known, Ensures)
              (send-Mail channels m.0 sender (request_vote_response m.1) tt
                (handle_request_vote_request-Mail channels n req mail))
      ]

  receive_append_entries_response-Mail :
      (n : Node T) (x : ℕ × AppendEntriesResponse)
      → Mail channels n
      → Ensures (Mail channels) (receive_append_entries_response n x)
  unfolding receive_append_entries_response handle_append_entries_response
  receive_append_entries_response-Mail n (sender, resp) mail =
      note_append_entries-Mail channels (observe_term n resp.current_term) resp sender
        (observe_term-Mail channels n resp.current_term mail)

  receive_request_vote_response-Mail :
      (n : Node T) (x : ℕ × RequestVoteResponse)
      → Mail channels n
      → Ensures (Mail channels) (receive_request_vote_response n x)
  unfolding receive_request_vote_response handle_request_vote_response
  receive_request_vote_response-Mail n (sender, resp) mail =
      note_request_vote-Mail channels (observe_term n resp.current_term) resp sender
        (observe_term-Mail channels n resp.current_term mail)

  handle_incoming_messages-Mail :
      (n : Node T) → Mail channels n → Ensures (Mail channels) (handle_incoming_messages n)
  unfolding handle_incoming_messages
  handle_incoming_messages-Mail n mail =
      let M = Mail channels in
      let taken : Mail channels (take_messages n) = record {
        own = mail.own;
        waiting = record {
          append_entries_requests = tt;
          request_vote_requests = tt;
          append_entries_responses = tt;
        };
        sent = mail.sent;
      } in
      >>=-Ensures M M
        (for_each receive_append_entries_request (take_messages n)
          n.incoming_append_entries_requests)
        _
        (for_each-Keeps M receive_append_entries_request receive_append_entries_request-Mail
          (take_messages n) n.incoming_append_entries_requests taken)
        λ n1 m1.
          >>=-Ensures M M
            (for_each receive_request_vote_request n1 n.incoming_request_vote_requests) _
            (for_each-Keeps M receive_request_vote_request receive_request_vote_request-Mail n1
              n.incoming_request_vote_requests m1)
            λ n2 m2.
              >>=-Ensures M M
                (for_each receive_append_entries_response n2 n.incoming_append_entries_responses) _
                (for_each-Keeps M receive_append_entries_response
                  receive_append_entries_response-Mail n2 n.incoming_append_entries_responses m2)
                λ n3 m3.
                  for_each-Keeps M receive_request_vote_response receive_request_vote_response-Mail
                    n3 n.incoming_request_vote_responses m3

  check_election_timeout-Mail :
      (n : Node T) → Mail channels n → Mail channels (check_election_timeout n)
  unfolding check_election_timeout become_candidate start_election reset_election_timer
  check_election_timeout-Mail n mail =
      let n' = record n { election_timeout = (timer.is_expired n.election_timeout).1 } in
      let mail' = Mail-same channels n n' refl refl refl refl refl mail in
      elim (Bool-cases (timer.is_expired n.election_timeout).0) [
        | inr early ↦ rw early mail'
        | inl expired ↦ rw expired (
            Mail-same channels (send_request_vote_to_all (start_election n')) _ refl refl refl refl
              refl
              (send_request_vote_to_all-Mail channels (start_election n')
                (Mail-same channels n' _ refl refl refl refl refl mail')))
      ]

  tick_follower-Mail : (n : Node T) → Mail channels n → Ensures (Mail channels) (tick_follower n)
  unfolding tick_follower
  tick_follower-Mail n mail =
      >>=-Ensures (Mail channels) (Mail channels) (handle_incoming_messages n) _
        (handle_incoming_messages-Mail n mail) check_election_timeout-Mail

  lead-Mail :
      (n : Node T)
      → Mail channels n
      → Ensures (Mail channels) (
          if is_leader n.role
          then (send_append_entries_to_all true n >>= λ m. ok (add_new_commands_to_log m))
          else ok n)
  lead-Mail n mail = elim (Bool-cases (is_leader n.role)) [
    | inr other ↦ rw (other, Ensures) mail
    | inl leads ↦ rw leads (
        >>=-Ensures (Mail channels) (Mail channels) (send_append_entries_to_all true n) _
          (send_append_entries_to_all-Mail channels true n mail)
          λ m mail'. Quiet-Mail channels m _ (add_new_commands_to_log-Quiet m) mail')
  ]

  tick_leader-Mail : (n : Node T) → Mail channels n → Ensures (Mail channels) (tick_leader n)
  unfolding tick_leader
  tick_leader-Mail n mail =
      >>=-Ensures (Quiet n) (Mail channels) (commit_if_possible n) _ (commit_if_possible-Quiet n)
        λ m q.
          >>=-Ensures (Mail channels) (Mail channels) (handle_incoming_messages m) _
            (handle_incoming_messages-Mail m (Quiet-Mail channels n m q mail)) lead-Mail

  tick_role-Mail :
      (r : NodeState) (n : Node T) → Mail channels n → Ensures (Mail channels) (tick_role r n)
  unfolding tick_role tick_candidate
  tick_role-Mail leader n mail = tick_leader-Mail n mail
  tick_role-Mail follower n mail = tick_follower-Mail n mail
  tick_role-Mail candidate n mail = tick_follower-Mail n mail

  pub tick_once-Mail : (n : Node T) → Mail channels n → Ensures (Mail channels) (tick_once n)
  unfolding tick_once
  tick_once-Mail n mail =
      let n0 = record n { tick_number = u64 (suc n.tick_number) } in
      >>=-Ensures (Quiet n0) (Mail channels) (handle_get_persistent_command_requests n0) _
        (queries-Quiet n0)
        λ m q.
          tick_role-Mail m.role m
            (Quiet-Mail channels n0 m q (Mail-same channels n n0 refl refl refl refl refl mail))
