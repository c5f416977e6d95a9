-- ===== src/Cluster/Ballots/Rounds.antt =====
-- hw2/src/consensus/node.cpp: elections, and a whole round of `Tick`, by the votes of a cluster.
use to_ftds.Base.{
  ℕ, suc, ◌^◌, ◌≤◌, ◌<◌, ◌≡◌, refl, sym, inl, inr, true, Bool-cases, if◌then◌else◌, some, List, [],
  ok, ◌>>=◌, Ensures, Ensures-both, >>=-Ensures, contains, u64, arith,
}
use to_ftds.Timeout.{ITimeout}
use to_ftds.Consensus.State.{NodeState, leader, follower, candidate, CandidateState}
use to_ftds.Consensus.Node.{Node, get_current_term}
use to_ftds.Consensus.Node.Roles.{
  is_leader, start_election, become_candidate, reset_election_timer, send_append_entries_to_all,
  send_request_vote_to_all,
}
use to_ftds.Consensus.Node.Commit.{
  commit_if_possible, add_new_commands_to_log, handle_get_persistent_command_requests,
}
use to_ftds.Consensus.Node.Ticks.{
  handle_incoming_messages, check_election_timeout, tick_follower, tick_candidate, tick_leader,
  tick_role, tick_once,
}
use to_ftds.Consensus.Frame.{send_request_vote_to_all-SendsOnly}
use to_ftds.Consensus.Quiet.{
  Quiet, Quiet-trans, commit_if_possible-Quiet, add_new_commands_to_log-Quiet, queries-Quiet,
}
use to_ftds.Consensus.Terms.Messages.{MessagesBelow, handle_incoming_messages-Grows, Grows}
use to_ftds.Consensus.Terms.Ticks.{Quiet-MessagesBelow, start_election-term}
use to_ftds.Cluster.Ballots.{
  History, Fair, Letters, Agrees, Agrees-same, Voted, Letters-same, Collected,
}
use to_ftds.Cluster.Ballots.Sending.{send_request_vote_to_all-Letters}
use to_ftds.Cluster.Ballots.Requests.{Agrees-frame}
use to_ftds.Cluster.Ballots.Responses.{send_append_entries_to_all-Agrees}
use to_ftds.Cluster.Ballots.Ticks.{Unasked, handle_incoming_messages-Voted}

module _ {T : Type 0} ⦃timer : ITimeout T⦄ (ids : List ℕ) (i : ℕ) where
  start_election-Letters :
      (H : History) (n : Node T) → Letters ids H i n → Letters ids H i (start_election n)
  unfolding start_election reset_election_timer
  start_election-Letters H n l = Letters-same ids H i n _ refl refl refl refl refl l

  become_candidate-Agrees :
      (H : History) (n : Node T)
      → suc (get_current_term n) < 2 ^ 64
      → Agrees ids H i n
      → Agrees ids H i (become_candidate n)
  unfolding become_candidate
  become_candidate-Agrees H n small (b, l) =
      let sends = send_request_vote_to_all-SendsOnly (start_election n) in
      let later : get_current_term (become_candidate n) ≡ suc (get_current_term n) =
        ground (arith, sends, start_election-term n small) in
      let l' =
        send_request_vote_to_all-Letters ids H i (start_election n)
          (start_election-Letters H n l) in
      (
        record {
          below = λ t c h. omega (arith, b.below t c h, later);
          kept = λ c h. absurd (omega (arith, b.below _ c h, later));
          won = λ e. cc;
          votes = λ cs e. no_votes cs _ e;
        },
        Letters-same ids H i (send_request_vote_to_all (start_election n)) _ refl refl refl refl
            refl l',
      )
    where
      no_votes :
          (cs : CandidateState) (t : ℕ)
          → some (record { votes = [] }) ≡ some cs
          → Collected H i t cs.votes
      no_votes cs t e = let same : record { votes = [] } ≡ cs = cc in rw (sym same) (tt, tt)

  pub check_election_timeout-Agrees :
      (H : History) (n : Node T)
      → suc (get_current_term n) < 2 ^ 64
      → Agrees ids H i n
      → Agrees ids H i (check_election_timeout n)
  unfolding check_election_timeout
  check_election_timeout-Agrees H n small a =
      let n' = record n { election_timeout = (timer.is_expired n.election_timeout).1 } in
      let a' = Agrees-frame ids H i n n' refl refl refl refl refl refl refl refl refl a in
      elim (Bool-cases (timer.is_expired n.election_timeout).0) [
        | inl expired ↦ rw expired (become_candidate-Agrees H n' small a')
        | inr early ↦ rw early a'
      ]

  Voted-after :
      (H : History) (n : Node T) (f : Node T → Node T)
      → ((K : History) → Agrees ids K i n → Agrees ids K i (f n))
      → Voted ids H i n
      → Voted ids H i (f n)
  Voted-after H n f step (K, grows, fair, a) = (K, grows, fair, step K a)

-- What a round needs of a node: it agrees with the history, no term that it has seen is near the end of 64
-- bits, and no candidate asks it for its vote in a term that it leads.
pub record Prepared {T : Type 0} (ids : List ℕ) (H : History) (bound i : ℕ) (n : Node T)
    : Type 0 where
  pub agrees : Agrees ids H i n
  pub messages : MessagesBelow bound n
  pub term : get_current_term n ≤ bound
  pub unasked : Unasked n

pub Quiet-Prepared :
    {T : Type 0} ⦃timer : ITimeout T⦄ (ids : List ℕ) (H : History) (bound i : ℕ) (n m : Node T)
    → Quiet n m
    → Prepared ids H bound i n
    → Prepared ids H bound i m
Quiet-Prepared ids H bound i n m q p = record {
  agrees = Agrees-same ids H i n m q p.agrees;
  messages = Quiet-MessagesBelow bound n m q p.messages;
  term = omega (arith, q.term, p.term);
  unasked = rw (q.role, q.term, q.request_vote_requests) p.unasked;
}

module _ {T : Type 0} ⦃timer : ITimeout T⦄ (ids : List ℕ) (H : History) (bound i : ℕ)
    (known : contains i ids ≡ true) (fair : Fair ids H) (small : suc bound < 2 ^ 64) where
  tick_follower-Voted :
      (n : Node T) → Prepared ids H bound i n → Ensures (Voted ids H i) (tick_follower n)
  unfolding tick_follower
  tick_follower-Voted n p =
      >>=-Ensures (λ m. Voted ids H i m × Grows bound n m) (Voted ids H i)
        (handle_incoming_messages n) _
        (Ensures-both _ _ (handle_incoming_messages n)
          (handle_incoming_messages-Voted ids i known H n fair p.agrees p.unasked)
          (handle_incoming_messages-Grows bound n p.messages p.term))
        λ m (v, g).
          Voted-after ids i H m check_election_timeout
            (λ K a. check_election_timeout-Agrees ids i K m (omega (arith, g.0, small)) a) v

  lead-Voted :
      (n : Node T)
      → Voted ids H i n
      → Ensures (Voted ids H i) (
          if is_leader n.role
          then (send_append_entries_to_all true n >>= λ m. ok (add_new_commands_to_log m))
          else ok n)
  lead-Voted n (K, grows, fair', a) = elim (Bool-cases (is_leader n.role)) [
    | inr other ↦ rw (other, Ensures) (K, grows, fair', a)
    | inl leads ↦ rw leads (
        >>=-Ensures (Agrees ids K i) (Voted ids H i) (send_append_entries_to_all true n) _
          (send_append_entries_to_all-Agrees ids K i true n a)
          λ m a'. (K, grows, fair', Agrees-same ids K i m _ (add_new_commands_to_log-Quiet m) a'))
  ]

  tick_leader-Voted :
      (n : Node T) → Prepared ids H bound i n → Ensures (Voted ids H i) (tick_leader n)
  unfolding tick_leader
  tick_leader-Voted n p =
      >>=-Ensures (Quiet n) (Voted ids H i) (commit_if_possible n) _ (commit_if_possible-Quiet n)
        λ m q.
          let p' = Quiet-Prepared ids H bound i n m q p in
          >>=-Ensures (Voted ids H i) (Voted ids H i) (handle_incoming_messages m) _
            (handle_incoming_messages-Voted ids i known H m fair p'.agrees p'.unasked) lead-Voted

  tick_role-Voted :
      (r : NodeState) (n : Node T)
      → Prepared ids H bound i n
      → Ensures (Voted ids H i) (tick_role r n)
  unfolding tick_role tick_candidate
  tick_role-Voted leader n p = tick_leader-Voted n p
  tick_role-Voted follower n p = tick_follower-Voted n p
  tick_role-Voted candidate n p = tick_follower-Voted n p

  pub tick_once-Voted :
      (n : Node T) → Prepared ids H bound i n → Ensures (Voted ids H i) (tick_once n)
  unfolding tick_once
  tick_once-Voted n p =
      let n0 = record n { tick_number = u64 (suc n.tick_number) } in
      let counted : Quiet n n0 = ground arith in
      >>=-Ensures (Quiet n0) (Voted ids H i) (handle_get_persistent_command_requests n0) _
        (queries-Quiet n0)
        λ m q.
          tick_role-Voted m.role m
            (Quiet-Prepared ids H bound i n m (Quiet-trans n n0 m counted q) p)
