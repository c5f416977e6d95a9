-- ===== src/Consensus/Terms/Ticks.antt =====
-- hw2/src/consensus/node.cpp: terms, roles and votes over a whole tick.
use to_ftds.Base.{
  ℕ, suc, ◌^◌, ◌≤◌, ◌<◌, ◌≡◌, refl, inl, inr, true, arith, u64, if◌then◌else◌, Bool-cases, ok,
  Ensures, Ensures-map, >>=-Ensures, ◌>>=◌,
}
use to_ftds.Timeout.{ITimeout}
use to_ftds.Consensus.State.{NodeState, leader, follower, candidate}
use to_ftds.Consensus.Node.{Node, get_current_term}
use to_ftds.Consensus.Node.Roles.{
  is_leader, start_election, become_candidate, reset_election_timer, send_append_entries_to_all,
}
use to_ftds.Consensus.Node.Commit.{
  commit_if_possible, add_new_commands_to_log, handle_get_persistent_command_requests,
}
use to_ftds.Consensus.Node.Ticks.{
  handle_incoming_messages, check_election_timeout, tick_follower, tick_candidate, tick_leader,
  tick_role, tick_once,
}
use to_ftds.Consensus.Frame.{
  SendsOnly, send_append_entries_to_all-SendsOnly, send_request_vote_to_all-SendsOnly,
}
use to_ftds.Consensus.Quiet.{
  Quiet, Quiet-trans, commit_if_possible-Quiet, add_new_commands_to_log-Quiet, queries-Quiet,
}
use to_ftds.Consensus.Terms.{Advance, Advance-trans, Advance-same, Advance-later, SendsOnly-Advance}
use to_ftds.Consensus.Terms.Messages.{MessagesBelow, handle_incoming_messages-Grows, Grows}

module _ {T : Type 0} ⦃timer : ITimeout T⦄ where
  pub start_election-term :
      (n : Node T)
      → suc (get_current_term n) < 2 ^ 64
      → get_current_term (start_election n) ≡ suc (get_current_term n)
  unfolding start_election reset_election_timer
  start_election-term n small = omega arith

  become_candidate-Advance :
      (n : Node T) → suc (get_current_term n) < 2 ^ 64 → Advance n (become_candidate n)
  unfolding become_candidate
  become_candidate-Advance n small =
      let sends = send_request_vote_to_all-SendsOnly (start_election n) in
      Advance-later n _ (ground (arith, sends, start_election-term n small))

  check_election_timeout-Advance :
      (n : Node T) → suc (get_current_term n) < 2 ^ 64 → Advance n (check_election_timeout n)
  unfolding check_election_timeout
  check_election_timeout-Advance n small =
      elim (Bool-cases (timer.is_expired n.election_timeout).0) [
        | inl expired ↦ rw expired (
            Advance-trans n _ _
              (Advance-same n
                (record n { election_timeout = (timer.is_expired n.election_timeout).1 }) refl refl
                refl)
              (become_candidate-Advance _ small))
        | inr early ↦ rw early (Advance-same n _ refl refl refl)
      ]

module _ {T : Type 0} ⦃timer : ITimeout T⦄ where
  Quiet-Advance : (n m : Node T) → Quiet n m → Advance n m
  Quiet-Advance n m q = Advance-same n m q.term q.vote q.role

  pub Quiet-MessagesBelow :
      (bound : ℕ) (n m : Node T) → Quiet n m → MessagesBelow bound n → MessagesBelow bound m
  Quiet-MessagesBelow bound n m q below = record {
    append_entries_requests = rw q.append_entries_requests below.append_entries_requests;
    request_vote_requests = rw q.request_vote_requests below.request_vote_requests;
    append_entries_responses = rw q.append_entries_responses below.append_entries_responses;
    request_vote_responses = rw q.request_vote_responses below.request_vote_responses;
  }

  tick_follower-Advance :
      (bound : ℕ) (n : Node T)
      → suc bound < 2 ^ 64
      → MessagesBelow bound n
      → get_current_term n ≤ bound
      → Ensures (Advance n) (tick_follower n)
  unfolding tick_follower
  tick_follower-Advance bound n small below b =
      >>=-Ensures (Grows bound n) (Advance n) (handle_incoming_messages n) _
        (handle_incoming_messages-Grows bound n below b)
        λ m g. Advance-trans n m _ g.1 (check_election_timeout-Advance m (omega arith))

  tick_leader-Advance :
      (bound : ℕ) (n : Node T)
      → MessagesBelow bound n
      → get_current_term n ≤ bound
      → Ensures (Advance n) (tick_leader n)
  unfolding tick_leader
  tick_leader-Advance bound n below b =
      >>=-Ensures (Quiet n) (Advance n) (commit_if_possible n) _ (commit_if_possible-Quiet n)
        λ n1 q.
          >>=-Ensures (Grows bound n1) (Advance n) (handle_incoming_messages n1) _
            (handle_incoming_messages-Grows bound n1 (Quiet-MessagesBelow bound n n1 q below)
              (omega arith))
            λ n2 g. leads n2 (Advance-trans n n1 n2 (Quiet-Advance n n1 q) g.1)
    where
      leads :
          (m : Node T)
          → Advance n m
          → Ensures (Advance n) (
              if is_leader m.role
              then (send_append_entries_to_all true m >>= λ k. ok (add_new_commands_to_log k))
              else ok m)
      leads m a = elim (Bool-cases (is_leader m.role)) [
        | inl yes_leader ↦ rw yes_leader (
            >>=-Ensures (SendsOnly m) (Advance n) (send_append_entries_to_all true m) _
              (send_append_entries_to_all-SendsOnly true m)
              λ k s. Advance-trans n m _ a (
                Advance-trans m k _ (SendsOnly-Advance m k s)
                  (Quiet-Advance k _ (add_new_commands_to_log-Quiet k))))
        | inr other ↦ rw other a
      ]

  tick_role-Advance :
      (bound : ℕ) (m : Node T) (r : NodeState)
      → suc bound < 2 ^ 64
      → MessagesBelow bound m
      → get_current_term m ≤ bound
      → Ensures (Advance m) (tick_role r m)
  unfolding tick_role tick_candidate
  tick_role-Advance bound m leader small ms t = tick_leader-Advance bound m ms t
  tick_role-Advance bound m follower small ms t = tick_follower-Advance bound m small ms t
  tick_role-Advance bound m candidate small ms t = tick_follower-Advance bound m small ms t

  -- Where the terms that the node has seen are at most bound, and bound + 1 fits 64 bits, a round
  -- of Tick that returns does not lower the term, and while the term stays a leader goes on to
  -- lead and a vote stands unless the node has come to lead.
  pub tick_once-Advance :
      (bound : ℕ) (n : Node T)
      → suc bound < 2 ^ 64
      → MessagesBelow bound n
      → get_current_term n ≤ bound
      → Ensures (Advance n) (tick_once n)
  unfolding tick_once
  tick_once-Advance bound n small below b =
      let n0 = record n { tick_number = u64 (suc n.tick_number) } in
      let counted : Quiet n n0 = ground arith in
      >>=-Ensures (Quiet n0) (Advance n) (handle_get_persistent_command_requests n0) _
        (queries-Quiet n0)
        λ m q.
          let q' = Quiet-trans n n0 m counted q in
          Ensures-map (Advance m) (Advance n) (tick_role m.role m)
            (tick_role-Advance bound m m.role small (Quiet-MessagesBelow bound n m q' below)
              (omega arith))
            (λ k h. Advance-trans n m k (Quiet-Advance n m q') h)
