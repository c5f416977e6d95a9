-- ===== src/Cluster/Logs/Rounds.antt =====
-- hw2/src/consensus/node.cpp: a round of `Tick`, by the votes and the logs of a cluster.
use to_ftds.Base.{
  ℕ, suc, ◌^◌, ◌<◌, ◌≡◌, ◌∙◌, inl, inr, true, Bool-cases, if◌then◌else◌, List, ok, ◌>>=◌, Ensures,
  Ensures-both, >>=-Ensures, contains, u64, arith,
}
use to_ftds.Timeout.{ITimeout}
use to_ftds.Consensus.State.{NodeState, leader, follower, candidate}
use to_ftds.Consensus.Node.{Node, get_log}
use to_ftds.Consensus.Node.Roles.{is_leader, send_append_entries_to_all}
use to_ftds.Consensus.Node.Commit.{
  commit_if_possible, add_new_commands_to_log, handle_get_persistent_command_requests,
}
use to_ftds.Consensus.Node.Ticks.{
  handle_incoming_messages, tick_follower, tick_candidate, tick_leader, tick_role, tick_once,
}
use to_ftds.Consensus.Frame.{SendsOnly, send_append_entries_to_all-SendsOnly}
use to_ftds.Consensus.Quiet.{
  Quiet, Quiet-trans, commit_if_possible-Quiet, add_new_commands_to_log-Quiet, queries-Quiet,
  commit_if_possible-log, queries-log,
}
use to_ftds.Consensus.Terms.Messages.{handle_incoming_messages-Grows, Grows}
use to_ftds.Cluster.Ballots.{History, Fair, Agrees, Agrees-same}
use to_ftds.Cluster.Ballots.Responses.{send_append_entries_to_all-Agrees}
use to_ftds.Cluster.Ballots.Rounds.{Prepared, Quiet-Prepared, check_election_timeout-Agrees}
use to_ftds.Cluster.Logs.{Book, Grows-trans}
use to_ftds.Cluster.Logs.Nodes.{Filed, Keeps, Short, Holds, Keeps-same}
use to_ftds.Cluster.Logs.Sending.{is_leader-leader, send_append_entries_to_all-Holds}
use to_ftds.Cluster.Logs.Ticks.{AllEarly, Progress, handle_incoming_messages-Progress}
use to_ftds.Cluster.Logs.Growing.{add_new_commands_to_log-Continues, check_election_timeout-Keeps}

-- What a round needs of a node for its log.
pub record Equipped {T : Type 0} (ids : List ℕ) (H : History) (B : Book) (bound i : ℕ) (n : Node T)
    : Type 0 where
  pub prepared : Prepared ids H bound i n
  pub keeps : Keeps B i n
  pub short : Short n
  pub early : AllEarly n

module _ {T : Type 0} ⦃timer : ITimeout T⦄ (ids : List ℕ) (H : History) (B : Book) (bound i : ℕ)
    (known : contains i ids ≡ true) (fair : Fair ids H) (filed : Filed ids H B)
    (small : suc bound < 2 ^ 64) where
  abbrev Result : Node T → Type 1
  Result m = Progress ids H B i (λ C. Keeps C i m) m

  -- The log is as long as before, and all else that counts stays.
  Equipped-same :
      (n m : Node T)
      → Quiet n m
      → get_log m ≡ get_log n
      → Equipped ids H B bound i n
      → Equipped ids H B bound i m
  Equipped-same n m q log e = record {
    prepared = Quiet-Prepared ids H bound i n m q e.prepared;
    keeps =
        Keeps-same B i n m q.term q.role log q.leader_state q.candidate_state
          q.append_entries_requests q.sent e.keeps;
    short = rw log e.short;
    early = rw q.append_entries_requests e.early;
  }

  handled :
      (n : Node T)
      → Equipped ids H B bound i n
      → Ensures (λ m. Progress ids H B i (λ C. Holds C i m) m) (handle_incoming_messages n)
  handled n e =
      handle_incoming_messages-Progress ids i known H B n fair filed e.prepared.agrees
        e.prepared.unasked (e.keeps, e.short) e.early

  tick_follower-Result :
      (n : Node T) → Equipped ids H B bound i n → Ensures Result (tick_follower n)
  unfolding tick_follower
  tick_follower-Result n e =
      >>=-Ensures (λ m. Progress ids H B i (λ C. Holds C i m) m × Grows bound n m) Result
        (handle_incoming_messages n) _
        (Ensures-both _ _ (handle_incoming_messages n) (handled n e)
          (handle_incoming_messages-Grows bound n e.prepared.messages e.prepared.term))
        λ m ((K, C, grows, fair', a, g, filed', (k, short)), t). (
          K,
          C,
          grows,
          fair',
          check_election_timeout-Agrees ids i K m (omega (arith, t.0, small)) a,
          g,
          filed',
          check_election_timeout-Keeps C i m (omega (arith, t.0, small)) k,
        )

  lead-Result :
      (n : Node T)
      → Progress ids H B i (λ C. Holds C i n) n
      → Ensures Result (
          if is_leader n.role
          then (send_append_entries_to_all true n >>= λ m. ok (add_new_commands_to_log m))
          else ok n)
  lead-Result n (K, C, grows, fair', a, g, filed', (k, short)) =
      elim (Bool-cases (is_leader n.role)) [
        | inr other ↦ rw (other, Ensures) (K, C, grows, fair', a, g, filed', k)
        | inl leads ↦ rw leads (
            >>=-Ensures (λ m. Agrees ids K i m × (Holds C i m × SendsOnly n m)) Result
              (send_append_entries_to_all true n) _
              (Ensures-both _ _ (send_append_entries_to_all true n)
                (send_append_entries_to_all-Agrees ids K i true n a)
                (Ensures-both _ _ (send_append_entries_to_all true n)
                  (send_append_entries_to_all-Holds C i true n (k, short))
                  (send_append_entries_to_all-SendsOnly true n)))
              λ m (a', ((k', short'), only)).
                let role : m.role ≡ leader = only.role ∙ is_leader-leader n.role leads in
                let (D, g', filed'', k'') =
                  add_new_commands_to_log-Continues ids K C i m role (a'.0.won role) filed' k' in
                (
                  K,
                  D,
                  grows,
                  fair',
                  Agrees-same ids K i m _ (add_new_commands_to_log-Quiet m) a',
                  Grows-trans i B C D g g',
                  filed'',
                  k'',
                ))
      ]

  tick_leader-Result : (n : Node T) → Equipped ids H B bound i n → Ensures Result (tick_leader n)
  unfolding tick_leader
  tick_leader-Result n e =
      >>=-Ensures (λ m. Quiet n m × (get_log m ≡ get_log n)) Result (commit_if_possible n) _
        (Ensures-both _ _ (commit_if_possible n) (commit_if_possible-Quiet n)
          (commit_if_possible-log n))
        λ m (q, log).
          >>=-Ensures (λ k. Progress ids H B i (λ C. Holds C i k) k) Result
            (handle_incoming_messages m) _ (handled m (Equipped-same n m q log e)) lead-Result

  tick_role-Result :
      (r : NodeState) (n : Node T) → Equipped ids H B bound i n → Ensures Result (tick_role r n)
  unfolding tick_role tick_candidate
  tick_role-Result leader n e = tick_leader-Result n e
  tick_role-Result follower n e = tick_follower-Result n e
  tick_role-Result candidate n e = tick_follower-Result n e

  pub tick_once-Result :
      (n : Node T)
      → Equipped ids H B bound i n
      → Ensures (λ m. Progress ids H B i (λ C. Keeps C i m) m) (tick_once n)
  unfolding tick_once
  tick_once-Result n e =
      let n0 = record n { tick_number = u64 (suc n.tick_number) } in
      let counted : Quiet n n0 = ground arith in
      >>=-Ensures (λ m. Quiet n0 m × (get_log m ≡ get_log n0)) Result
        (handle_get_persistent_command_requests n0) _
        (Ensures-both _ _ (handle_get_persistent_command_requests n0) (queries-Quiet n0)
          (queries-log n0))
        λ m (q, log).
          tick_role-Result m.role m (Equipped-same n m (Quiet-trans n n0 m counted q) log e)
