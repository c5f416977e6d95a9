-- ===== src/Consensus/Clients.antt =====
-- hw2/src/consensus/node.cpp: the clients that wait for an item of the log, in `items_to_response_`.
use to_ftds.Base.{
  ℕ, zero, suc, ◌+◌, ◌-◌, ◌≤◌, ◌<◌, ◌≡◌, refl, ap, ◌∙◌, ◌⊎◌, inl, inr, List, [], ◌∷◌, ◌++◌, Option,
  none, some, arith, ltb, ◌==◌, Bool-cases, Returns, lookup, get_elem?, nat_key,
}
use to_ftds.Timeout.{ITimeout}
use to_ftds.Consensus.State.{LogItem, LeaderState}
use to_ftds.Consensus.Message.{AppendEntriesRequest}
use to_ftds.Consensus.Node.{Node, AddCommandResult, get_log, get_commit_index}
use to_ftds.Consensus.Node.Roles.{become_follower, reset_election_timer}
use to_ftds.Consensus.Node.Requests.{
  redirect_commands, accept_entries, check_prev, observe_term, answer_append_entries,
  handle_append_entries_request,
}
use to_ftds.Consensus.Node.Commit.{commit_if_possible}
use to_ftds.Consensus.Replication.{redirect_lem}
use to_ftds.Consensus.CommitRule.{acknowledged, CommitEffect, commit_if_possible-CommitEffect}

abbrev pub persisted : AddCommandResult
persisted = record { leader_id = none }

acknowledged-lookup :
    (items : List (ℕ × ℕ)) (i rounds j p : ℕ)
    → lookup j items ≡ some p
    → i ≤ j
    → j < i + rounds
    → lookup p (acknowledged items i rounds) ≡ some persisted
acknowledged-lookup items i zero j p e low high = absurd (omega arith)
acknowledged-lookup items i (suc rounds) j p e low high = elim (Bool-cases (i == j)) [
  | inl here ↦ ground arith
  | inr later ↦ ground (arith, acknowledged-lookup items (suc i) rounds j p e)
]

lookup-append :
    {V : Type 0} (k : ℕ) (xs ys : List (ℕ × V))
    → lookup k xs ≡ none
    → lookup k (xs ++ ys) ≡ lookup k ys
lookup-append k [] ys e = refl
lookup-append k ((j, v) ∷ xs) ys e = ground (arith, lookup-append k xs ys)

module _ {T : Type 0} ⦃timer : ITimeout T⦄ where
  redirect_commands-items :
      (n : Node T) (l : ℕ) → (redirect_commands n l).items_to_response ≡ n.items_to_response
  unfolding redirect_commands
  redirect_commands-items n l =
      ground (arith, redirect_lem (record n { incoming_commands = [] }) l n.incoming_commands)

  check_prev-items :
      (n : Node T) (req : AppendEntriesRequest) (found : Option LogItem)
      → (check_prev n req found).0.items_to_response ≡ n.items_to_response
  unfolding check_prev accept_entries
  check_prev-items n req none = refl
  check_prev-items n req (some prev) = ground arith

  observe_term-items :
      (n : Node T) (t : ℕ) → (observe_term n t).items_to_response ≡ n.items_to_response
  unfolding observe_term become_follower reset_election_timer
  observe_term-items n t = ground arith

  pub append_entries-items :
      (n : Node T) (req : AppendEntriesRequest)
      → (handle_append_entries_request n req).0.items_to_response ≡ n.items_to_response
  unfolding handle_append_entries_request answer_append_entries reset_election_timer
  append_entries-items n req =
      let m = record (observe_term n req.leader_term) {
        election_timeout = timer.reset (observe_term n req.leader_term).election_timeout;
      } in
      let k = redirect_commands m req.leader_id in
      ground (
        arith,
        check_prev-items k req (get_elem? (get_log k) req.prev_log_index),
        redirect_commands-items m req.leader_id,
        observe_term-items n req.leader_term,
      )

  -- A client that waits for index i still waits after any AppendEntriesRequest, also one that
  -- overwrites the item i; and when the node leads with that list of waiting clients, has not
  -- committed i nor answered the client, CommitIfPossible returns, and leaves i uncommitted or
  -- tells the client that its command is persisted.
  pub waiting_client-persisted :
      (n m : Node T) (req : AppendEntriesRequest) (ls : LeaderState) (i p : ℕ)
      → lookup i n.items_to_response ≡ some p
      → m.items_to_response ≡ (handle_append_entries_request n req).0.items_to_response
      → m.leader_state ≡ some ls
      → get_commit_index m < i
      → lookup p m.command_results ≡ none
      → Returns
          (λ c. (get_commit_index c < i) ⊎ (lookup p c.command_results ≡ some persisted))
          (commit_if_possible m)
  waiting_client-persisted n m req ls i p waits kept state ahead unanswered =
      let (c, ran, effect) = commit_if_possible-CommitEffect m ls state in
      (
        c,
        ran,
        elim (Bool-cases (ltb (get_commit_index c) i)) [
          | inl still ↦ inl (ground arith)
          | inr passed ↦ inr (answered c effect (ground arith))
        ],
      )
    where
      there : lookup i m.items_to_response ≡ some p
      there = ap (lookup i) (kept ∙ append_entries-items n req) ∙ waits

      answered :
          (c : Node T)
          → CommitEffect m ls c
          → i ≤ get_commit_index c
          → lookup p c.command_results ≡ some persisted
      answered c effect passed =
          ap (lookup p) effect.told
          ∙ lookup-append p m.command_results _ unanswered
          ∙ acknowledged-lookup m.items_to_response (suc (get_commit_index m))
              (get_commit_index c - get_commit_index m) i p there (omega arith) (omega arith)
