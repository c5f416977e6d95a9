-- ===== src/Consensus/Examples/Calls.antt =====
-- hw2/src/consensus/node.cpp: a node of three that is asked for its vote, and then for rounds of `Tick`.
use to_ftds.Base.{◌≡◌, refl, ◌∙◌, arith, [], ◌∷◌, ok, Returns}
use to_ftds.Timeout.{UniformTimer, uniform_timer}
use to_ftds.Consensus.Message.{request_vote_request}
use to_ftds.Consensus.Node.{Node, new_node, add_message}
use to_ftds.Consensus.Node.Ticks.{tick_once}
use to_ftds.Consensus.Wellformed.{Wellformed}
use to_ftds.Consensus.Wellformed.Ticks.{tick_once-Returns}
use to_ftds.Consensus.Wellformed.Steps.{hears, ticks, here, next, reachable-Wellformed}
use to_ftds.Consensus.Examples.Nodes.{started, follower_node, candidacy}
use to_ftds.Consensus.Examples.Single.{run, tick-run}

asked : Node UniformTimer
asked = add_message (new_node 1 (2 ∷ 3 ∷ []) started) 2 (request_vote_request (candidacy 2))

-- The node after a round.
after : (m : Node UniformTimer) × (run asked 1 ≡ ok m)
unfolding run asked new_node add_message
after = (_, refl)

reachable-Wellformed_example : Wellformed (1 ∷ 2 ∷ 3 ∷ []) after.0
unfolding asked
reachable-Wellformed_example = reachable-Wellformed 1 (2 ∷ 3 ∷ []) started after.0 (
    next (next here (hears _ 2 (request_vote_request (candidacy 2))))
      (ticks 1 (tick-run _ 1 ∙ after.1)))

abbrev waiting : Node UniformTimer
waiting = record follower_node { incoming_request_vote_requests = (2, candidacy 2) ∷ [] }

tick_once-Returns_example : Returns (Wellformed (1 ∷ 2 ∷ 3 ∷ [])) (tick_once waiting)
tick_once-Returns_example =
    tick_once-Returns (1 ∷ 2 ∷ 3 ∷ []) waiting
      (record { has_state = (refl, refl); has_item = omega arith; same_channels = refl }) (λ e. cc)
      (record {
        append_entries_requests = tt;
        request_vote_requests = (refl, tt);
        append_entries_responses = tt;
      })
      (omega arith) tt
