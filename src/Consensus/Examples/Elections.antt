-- ===== src/Consensus/Examples/Elections.antt =====
-- hw2/src/consensus: the theorems on terms, votes and leaders at concrete inputs.
use to_ftds.Base.{◌≡◌, refl, true, false, arith, Returns, Ensures, ◌++◌}
use to_ftds.Consensus.State.{leader}
use to_ftds.Timeout.{UniformTimer, uniform_timer, reset}
use to_ftds.Consensus.Node.{Node}
use to_ftds.Consensus.Node.Roles.{become_leader, become_follower, reset_election_timer}
use to_ftds.Consensus.Node.Requests.{handle_request_vote_request, answer_vote, observe_term}
use to_ftds.Consensus.Node.Ticks.{tick_once}
use to_ftds.Consensus.Frame.{SendsOnly}
use to_ftds.Consensus.Terms.{Advance, Advance-refl}
use to_ftds.Consensus.Terms.Ticks.{tick_once-Advance}
use to_ftds.Consensus.Leadership.{CanSend, crowned}
use to_ftds.Consensus.Voting.{VoteEffect, request_vote-Effect, one_vote, new_leader_votes_again}
use to_ftds.Consensus.Examples.Nodes.{follower_node, candidacy}
use to_ftds.Consensus.Heartbeats.{heartbeats, become_leader-Announces}

request_vote-Effect_example :
    VoteEffect follower_node
      (candidacy 2)
      (handle_request_vote_request follower_node (candidacy 2)).0
      (handle_request_vote_request follower_node (candidacy 2)).1
request_vote-Effect_example = request_vote-Effect follower_node (candidacy 2)

-- The node after its vote for node 2.
abbrev voted_node : Node UniformTimer
voted_node = (handle_request_vote_request follower_node (candidacy 2)).0

one_vote_example : (handle_request_vote_request voted_node (candidacy 3)).1.vote_granted ≡ false
unfolding handle_request_vote_request answer_vote observe_term become_follower reset_election_timer
    reset
one_vote_example =
    one_vote follower_node voted_node (candidacy 2) (candidacy 3) refl (Advance-refl voted_node)
      (λ e. cc) refl (omega arith)

become_leader-Announces_example :
    Returns
      (λ m.
        SendsOnly (crowned follower_node) m
        × CanSend m
        × (m.sent ≡ follower_node.sent ++ heartbeats follower_node follower_node.channels))
      (become_leader follower_node)
become_leader-Announces_example = become_leader-Announces follower_node (omega arith) (omega arith)

new_leader_votes_again_example :
    Returns
      (λ m.
        (m.role ≡ leader)
        × ((handle_request_vote_request m
              (record (candidacy 3) { candidate_term = 1 })).1.vote_granted
            ≡ true))
      (become_leader follower_node)
new_leader_votes_again_example =
    new_leader_votes_again follower_node (record (candidacy 3) { candidate_term = 1 }) (omega arith)
      refl refl

tick_once-Advance_example : Ensures (Advance follower_node) (tick_once follower_node)
tick_once-Advance_example =
    tick_once-Advance 1 follower_node (omega arith)
      (record {
        append_entries_requests = tt;
        request_vote_requests = tt;
        append_entries_responses = tt;
        request_vote_responses = tt;
      })
      (omega arith)
