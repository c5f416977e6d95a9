-- ===== src/Cluster/Examples.antt =====
-- hw2/src/worker/worker.cpp: a cluster of three, whose first node runs for leader and asks the second for its
-- vote.
use to_ftds.Base.{ℕ, ◌≡◌, refl, arith, List, [], ◌∷◌, some, ok, Returns, All}
use to_ftds.Timeout.{UniformTimer, uniform_timer}
use to_ftds.Consensus.Message.{Message, request_vote_request, RequestVoteRequest}
use to_ftds.Consensus.Node.{Node, new_node, add_message}
use to_ftds.Consensus.Node.Ticks.{tick_once}
use to_ftds.Consensus.Examples.Nodes.{started}
use to_ftds.Consensus.Examples.Single.{run, once}
use to_ftds.Consensus.Wellformed.{Wellformed}
use to_ftds.Communication.{AnnotatedMessage, send_message, encode, receive, decode, rv_req}
use to_ftds.Cluster.{Cluster, constructed, put, Steps, ticks, sends, arrives, here, next}
use to_ftds.Cluster.Sound.{cluster_ticks}

abbrev three : List ℕ
three = 1 ∷ 2 ∷ 3 ∷ []

abbrev initial : Cluster UniformTimer
initial = constructed three (λ _. started)

abbrev candidacy_of_1 : RequestVoteRequest
candidacy_of_1 = record {
  candidate_term = 1;
  candidate_id = 1;
  candidate_last_log_index = 0;
  candidate_last_log_term = 0;
}

-- Node 1 after a round.
running :
    (m : Node UniformTimer) × (run (new_node 1 three started) 1 ≡ ok m)
    × (m.my_id ≡ 1)
    × (m.sent
        ≡ (2, request_vote_request candidacy_of_1) ∷ (3, request_vote_request candidacy_of_1) ∷ [])
unfolding run new_node
running = (_, refl, refl, refl)

abbrev on_the_way : AnnotatedMessage
on_the_way = record {
  message = some (
      rv_req (record {
        candidate_term = 1;
        candidate_id = 1;
        candidate_last_log_index = 0;
        candidate_last_log_term = 0;
      }));
  sender_id = 1;
}

abbrev elected : Cluster UniformTimer
elected = record initial { nodes = put initial.nodes 1 running.0 }

abbrev sending : Cluster UniformTimer
sending = record {
  nodes =
      put elected.nodes 1
        (record (elected.nodes 1) { sent = (3, request_vote_request candidacy_of_1) ∷ [] });
  network = (2, on_the_way) ∷ [];
}

abbrev asked : Cluster UniformTimer
asked = record {
  nodes =
      put sending.nodes 2 (add_message (sending.nodes 2) 1 (request_vote_request candidacy_of_1));
  network = [];
}

coded : send_message (elected.nodes 1).my_id (request_vote_request candidacy_of_1) ≡ ok on_the_way
unfolding send_message encode
coded = rw running.2 refl

arrived :
    receive (record { leader_commit = 0; candidate_term = 0 }) on_the_way
    ≡ some (1, request_vote_request candidacy_of_1)
unfolding receive decode
arrived = refl

steps : Steps three initial asked
steps =
    next
      (next (next here (ticks initial 1 running.0 (once _ running.0 running.1))) (
        sends elected 1 2 (request_vote_request candidacy_of_1)
          ((3, request_vote_request candidacy_of_1) ∷ []) on_the_way refl running.3 coded))
      (arrives sending (record { leader_commit = 0; candidate_term = 0 }) [] [] 2 on_the_way 1
        (request_vote_request candidacy_of_1) refl arrived)

cluster_ticks_example :
    Returns (Wellformed three) (tick_once (asked.nodes 2))
    × All
        (λ (x : ℕ × Message).
          (a : AnnotatedMessage) × (send_message (asked.nodes 2).my_id x.1 ≡ ok a))
        (asked.nodes 2).sent
unfolding new_node add_message
cluster_ticks_example =
    cluster_ticks three (omega arith, (omega arith, (omega arith, tt)))
      ((omega arith, (omega arith, tt)), ((omega arith, tt), (tt, tt))) (λ _. started) asked steps 2
      refl (λ e. cc) (omega arith) tt
