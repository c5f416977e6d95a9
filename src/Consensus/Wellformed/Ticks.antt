-- ===== src/Consensus/Wellformed/Ticks.antt =====
-- hw2/src/consensus/node.cpp: a round of `Tick`, of a node with the state for its role.
use to_ftds.Base.{
  ℕ, zero, suc, ◌+◌, ◌^◌, ◌<◌, ◌≢◌, refl, ◌∙◌, inl, inr, true, if◌then◌else◌, List, arith, length,
  u64, Bool-cases, ok, Ensures, >>=-Ensures, Returns, >>=-Returns, ◌>>=◌, All,
}
use to_ftds.Timeout.{ITimeout}
use to_ftds.Consensus.State.{NodeState, leader, follower, candidate}
use to_ftds.Consensus.Node.{Node, get_log, get_commit_index}
use to_ftds.Consensus.Node.Roles.{
  is_leader, start_election, become_candidate, reset_election_timer, send_append_entries_to_all,
}
use to_ftds.Consensus.Node.Commit.{
  commit_if_possible, add_new_commands_to_log, handle_get_persistent_command_requests,
}
use to_ftds.Consensus.Node.Ticks.{
  handle_incoming_messages, check_election_timeout, tick_follower, tick_candidate, tick_leader,
  tick_role, tick_once, tick,
}
use to_ftds.Consensus.Frame.{
  SendsOnly, send_append_entries_to_all-SendsOnly, send_request_vote_to_all-SendsOnly,
}
use to_ftds.Consensus.Quiet.{
  Quiet, commit_if_possible-Quiet, add_new_commands_to_log-Quiet, queries-Quiet,
}
use to_ftds.Consensus.Reads.{queries_lem}
use to_ftds.Consensus.Wellformed.{
  Wellformed, Wellformed-same, SendsOnly-Wellformed, Quiet-Wellformed,
}
use to_ftds.Consensus.Wellformed.Messages.{
  MessagesKnown, some_not_none, handle_incoming_messages-Returns,
}
use to_ftds.Consensus.Wellformed.Keeps.{handle_incoming_messages-Keeps}

module _ {T : Type 0} ⦃timer : ITimeout T⦄ (channels : List ℕ) where
  become_candidate-Wellformed :
      (n : Node T) → Wellformed channels n → Wellformed channels (become_candidate n)
  unfolding become_candidate start_election reset_election_timer
  become_candidate-Wellformed n w =
      let s = send_request_vote_to_all-SendsOnly (start_election n) in
      record {
        has_state = (refl, some_not_none _, ground (arith, s));
        has_item = ground (arith, s, w.has_item);
        same_channels = s.channels ∙ w.same_channels;
      }

  check_election_timeout-Wellformed :
      (n : Node T) → Wellformed channels n → Wellformed channels (check_election_timeout n)
  unfolding check_election_timeout
  check_election_timeout-Wellformed n w =
      let n' = record n { election_timeout = (timer.is_expired n.election_timeout).1 } in
      let w' = Wellformed-same channels n n' refl refl refl refl refl refl w.has_item w in
      elim (Bool-cases (timer.is_expired n.election_timeout).0) [
        | inl expired ↦ rw expired (become_candidate-Wellformed n' w')
        | inr early ↦ rw early w'
      ]

  tick_follower-Wellformed :
      (n : Node T) → Wellformed channels n → Ensures (Wellformed channels) (tick_follower n)
  unfolding tick_follower
  tick_follower-Wellformed n w =
      >>=-Ensures (Wellformed channels) (Wellformed channels) (handle_incoming_messages n) _
        (handle_incoming_messages-Keeps channels n w) check_election_timeout-Wellformed

  tick_follower-Returns :
      (n : Node T)
      → Wellformed channels n
      → MessagesKnown channels n
      → Returns (Wellformed channels) (tick_follower n)
  unfolding tick_follower
  tick_follower-Returns n w known =
      >>=-Returns (Wellformed channels) (Wellformed channels) (handle_incoming_messages n) _
        (handle_incoming_messages-Returns channels n w known)
        λ m w'. (_, refl, check_election_timeout-Wellformed m w')

  -- The sends of a leader, and the commands for its log.
  lead-Wellformed :
      (n : Node T)
      → Wellformed channels n
      → Ensures (Wellformed channels) (
          if is_leader n.role
          then (send_append_entries_to_all true n >>= λ m. ok (add_new_commands_to_log m))
          else ok n)
  lead-Wellformed n w = elim (Bool-cases (is_leader n.role)) [
    | inr other ↦ rw (other, Ensures) w
    | inl leads ↦ rw leads (
        >>=-Ensures (SendsOnly n) (Wellformed channels) (send_append_entries_to_all true n) _
          (send_append_entries_to_all-SendsOnly true n)
          λ m s.
            Quiet-Wellformed channels m _ (add_new_commands_to_log-Quiet m)
              (SendsOnly-Wellformed channels n m s w))
  ]

  tick_leader-Wellformed :
      (n : Node T) → Wellformed channels n → Ensures (Wellformed channels) (tick_leader n)
  unfolding tick_leader
  tick_leader-Wellformed n w =
      >>=-Ensures (Quiet n) (Wellformed channels) (commit_if_possible n) _
        (commit_if_possible-Quiet n)
        λ m q.
          >>=-Ensures (Wellformed channels) (Wellformed channels) (handle_incoming_messages m) _
            (handle_incoming_messages-Keeps channels m (Quiet-Wellformed channels n m q w))
            lead-Wellformed

  tick_role-Wellformed :
      (r : NodeState) (n : Node T)
      → Wellformed channels n
      → Ensures (Wellformed channels) (tick_role r n)
  unfolding tick_role tick_candidate
  tick_role-Wellformed leader n w = tick_leader-Wellformed n w
  tick_role-Wellformed follower n w = tick_follower-Wellformed n w
  tick_role-Wellformed candidate n w = tick_follower-Wellformed n w

  pub tick_once-Wellformed :
      (n : Node T) → Wellformed channels n → Ensures (Wellformed channels) (tick_once n)
  unfolding tick_once
  tick_once-Wellformed n w =
      let n0 = record n { tick_number = u64 (suc n.tick_number) } in
      let w0 = Wellformed-same channels n n0 refl refl refl refl refl refl w.has_item w in
      >>=-Ensures (Quiet n0) (Wellformed channels) (handle_get_persistent_command_requests n0) _
        (queries-Quiet n0)
        λ m q. tick_role-Wellformed m.role m (Quiet-Wellformed channels n0 m q w0)

  tick_role-Returns :
      (r : NodeState) (n : Node T)
      → r ≢ leader
      → Wellformed channels n
      → MessagesKnown channels n
      → Returns (Wellformed channels) (tick_role r n)
  unfolding tick_role tick_candidate
  tick_role-Returns leader n other w known = absurd (other refl)
  tick_role-Returns follower n other w known = tick_follower-Returns n w known
  tick_role-Returns candidate n other w known = tick_follower-Returns n w known

  -- A round of Tick of a node that does not lead, has the state that belongs to its role and an
  -- item in its log returns a node with the same channels of which this holds, too, where the
  -- senders of the requests that wait have channels, each success that waits says how far the
  -- logs match, the commit index lies in the log, and no query's range wraps.
  pub tick_once-Returns :
      (n : Node T)
      → Wellformed channels n
      → n.role ≢ leader
      → MessagesKnown channels n
      → get_commit_index n < length (get_log n)
      → All (λ (q : (ℕ × ℕ) × ℕ). q.0.0 + q.0.1 < 2 ^ 64) n.get_persistent_commands_reqs
      → Returns (Wellformed channels) (tick_once n)
  unfolding tick_once
  tick_once-Returns n w other known inside small =
      let n0 = record n { tick_number = u64 (suc n.tick_number) } in
      rw (queries_lem n0 inside small) (
        tick_role-Returns n.role _ other
          (Wellformed-same channels n _ refl refl refl refl refl refl w.has_item w)
          (record {
            append_entries_requests = known.append_entries_requests;
            request_vote_requests = known.request_vote_requests;
            append_entries_responses = known.append_entries_responses;
          }))

  pub tick-Wellformed :
      (n : Node T) (times : ℕ)
      → Wellformed channels n
      → Ensures (Wellformed channels) (tick n times)
  unfolding tick
  tick-Wellformed n zero w = w
  tick-Wellformed n (suc times) w =
      >>=-Ensures (Wellformed channels) (Wellformed channels) (tick_once n) _
        (tick_once-Wellformed n w) λ m w'. tick-Wellformed m times w'
