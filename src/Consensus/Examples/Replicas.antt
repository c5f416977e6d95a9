-- ===== src/Consensus/Examples/Replicas.antt =====
-- hw2/src/consensus: a leader whose log differs from a follower's in its last item.
use to_ftds.Base.{
  ℕ, zero, suc, ◌≤◌, ◌≡◌, refl, [], ◌∷◌, none, some, arith, Returns, false, fault, bad_access,
  for_each, ◌>>=◌, true, sym, ◌<◌, ◌⊎◌, lookup, nat_key,
}
use to_ftds.Timeout.{UniformTimer, uniform_timer}
use to_ftds.Consensus.State.{Log, leader, LeaderState}
use to_ftds.Consensus.Node.{Node, get_commit_index}
use to_ftds.Consensus.CatchUp.{AgreeAt, rounds, Exchange, CaughtUp}
use to_ftds.Consensus.CatchUp.Rounds.{follower_catches_up}
use to_ftds.Consensus.Examples.Nodes.{two_items, follower_node, progress, leader_node, overwrite}
use to_ftds.Consensus.Message.{AppendEntriesResponse}
use to_ftds.Consensus.Node.Roles.{send_append_entries_to_someone}
use to_ftds.Consensus.Node.Responses.{handle_append_entries_response}
use to_ftds.Consensus.Retreat.{refused_too_often}
use to_ftds.Consensus.Node.Commit.{commit_if_possible}
use to_ftds.Consensus.Clients.{persisted, append_entries-items, waiting_client-persisted}

abbrev newer_items : Log
newer_items =
    record { command = []; leader_term = 0 }
    ∷ record { command = 97 ∷ []; leader_term = 1 }
    ∷ record { command = 99 ∷ []; leader_term = 2 }
    ∷ []

abbrev ahead : LeaderState
ahead = record { next_index = (1, 3) ∷ []; match_index = (1, 0) ∷ [] }

abbrev newer_leader : Node UniformTimer
newer_leader = record follower_node {
  my_id = 3;
  role = leader;
  leader_state = some ahead;
  state = record {
    persistent_state = record { current_term = 2; voted_for = none; log = newer_items };
    volatile_state = record { commit_index = 0 };
  };
}

newer_leader-Exchange : Exchange 1 2 ahead newer_leader follower_node
newer_leader-Exchange = record {
  leads = refl;
  has_state = refl;
  next = refl;
  in_log = omega arith;
  fits = omega arith;
  known = omega arith;
  terms = omega arith;
}

two_items-newer_items : (k : ℕ) → AgreeAt two_items newer_items k
two_items-newer_items zero x y e e' same = refl
two_items-newer_items (suc zero) x y e e' same = refl
two_items-newer_items (suc (suc zero)) x y e e' same = absurd (ground arith)
two_items-newer_items (suc (suc (suc k))) x y e e' same = absurd (ground arith)

follower_catches_up_example :
    (k : ℕ) × (k ≤ 3)
    × Returns (λ r. CaughtUp 1 newer_items r.0 r.1) (rounds k 1 (newer_leader, follower_node))
follower_catches_up_example =
    follower_catches_up 1 2 ahead newer_leader follower_node newer_leader-Exchange
      two_items-newer_items refl

abbrev refusal : AppendEntriesResponse
refusal = record { current_term = 1; success = false; matched_until = none }

refused_too_often_example :
    (for_each
        (λ m r. handle_append_entries_response m r 2)
        leader_node
        (refusal ∷ refusal ∷ refusal ∷ [])
      >>= λ m. send_append_entries_to_someone true m 2)
    ≡ fault bad_access
refused_too_often_example =
    refused_too_often leader_node progress (refusal ∷ refusal ∷ refusal ∷ []) 2 true refl refl refl
      (omega arith) refl (omega arith) (ground arith)

-- Once the leader of term 1, with a client that waits for item 1.
abbrev former_leader : Node UniformTimer
former_leader = record follower_node { items_to_response = (1, 7) ∷ [] }

waiting_client-persisted_example :
    Returns
      (λ c. (get_commit_index c < 1) ⊎ (lookup 7 c.command_results ≡ some persisted))
      (commit_if_possible leader_node)
waiting_client-persisted_example =
    waiting_client-persisted former_leader leader_node overwrite progress 1 7 refl
      (sym (append_entries-items former_leader overwrite)) refl (omega arith) refl
