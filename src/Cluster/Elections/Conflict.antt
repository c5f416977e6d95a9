-- ===== src/Cluster/Elections/Conflict.antt =====
-- hw2/src/consensus/node.cpp and hw2/src/worker/worker.cpp: a run in which the leader is asked for its vote in
-- its own term. It grants it, since `BecomeLeader` has forgotten its own, and the third node leads in the
-- same term.
use to_ftds.Base.{ℕ, ◌≡◌, refl, List, [], ◌∷◌, none, some, true, ok}
use to_ftds.Timeout.{ITimeout, UniformTimer, uniform_timer}
use to_ftds.Consensus.State.{leader, candidate}
use to_ftds.Consensus.Message.{
  Message, AppendEntriesRequest, RequestVoteRequest, append_entries_request, request_vote_request,
  request_vote_response,
}
use to_ftds.Consensus.Node.{Node, new_node, add_message, get_current_term}
use to_ftds.Consensus.Examples.Nodes.{started}
use to_ftds.Consensus.Examples.Single.{run, once}
use to_ftds.Communication.{
  AnnotatedMessage, send_message, encode, encode_items, receive, decode, decode_items, ae_req,
  rv_req, rv_resp,
}
use to_ftds.Cluster.{Cluster, constructed, Steps, here, next, ticks, sends, arrives}
use to_ftds.Cluster.Elections.Steps.{stays, goes, CalmSteps}
use to_ftds.Cluster.Elections.Sample.{
  three, timers, fresh, in_term_1, candidacy, vote, heartbeat, leading, vote_request, memory,
}
use to_ftds.Cluster.Elections.Examples.{after, c0, c8, until_leader}

abbrev rivalry : RequestVoteRequest
rivalry = record candidacy { candidate_id = 3 }

abbrev rival : Node UniformTimer
rival = record (in_term_1 3 3) {
  tick_number = 1;
  state = record {
    persistent_state = record {
      current_term = 1;
      voted_for = some 3;
      log = record { command = []; leader_term = 0 } ∷ [];
    };
    volatile_state = record { commit_index = 0 };
  };
  role = candidate;
  candidate_state = some (record { votes = [] });
  incoming_request_vote_requests = (3, rivalry) ∷ [];
  sent = (1, request_vote_request rivalry) ∷ (2, request_vote_request rivalry) ∷ [];
}

abbrev rest_of_rival : List (ℕ × Message)
rest_of_rival = (2, request_vote_request rivalry) ∷ []

abbrev asked_leader : Node UniformTimer
asked_leader = record leading { incoming_request_vote_requests = (3, rivalry) ∷ [] }

abbrev beats : List (ℕ × Message)
beats = (2, append_entries_request heartbeat) ∷ (3, append_entries_request heartbeat) ∷ []

abbrev disloyal : Node UniformTimer
disloyal = record leading {
  tick_number = 4;
  election_timeout = record started { expires_at = 109; reads = 8; draws = 2 };
  state = record {
    persistent_state = record {
      current_term = 1;
      voted_for = some 3;
      log = record { command = []; leader_term = 0 } ∷ [];
    };
    volatile_state = record { commit_index = 0 };
  };
  incoming_append_entries_requests = (1, heartbeat) ∷ [];
  incoming_append_entries_responses =
      (1, record { current_term = 1; success = true; matched_until = some 0 }) ∷ [];
  sent =
      (3, request_vote_request candidacy)
      ∷ (2, append_entries_request heartbeat)
      ∷ (3, append_entries_request heartbeat)
      ∷ (3, request_vote_response vote)
      ∷ beats;
}

abbrev favoured : Node UniformTimer
favoured = record rival { incoming_request_vote_responses = (1, vote) ∷ []; sent = rest_of_rival }

abbrev counting : Node UniformTimer
counting = record (in_term_1 3 5) {
  tick_number = 2;
  state = record {
    persistent_state = record {
      current_term = 1;
      voted_for = some 3;
      log = record { command = []; leader_term = 0 } ∷ [];
    };
    volatile_state = record { commit_index = 0 };
  };
  role = candidate;
  candidate_state = some (record { votes = 1 ∷ [] });
  incoming_request_vote_responses = (3, vote) ∷ [];
  sent = rest_of_rival;
}

abbrev own_heartbeat : AppendEntriesRequest
own_heartbeat = record heartbeat { leader_id = 3 }

abbrev second_leader : Node UniformTimer
second_leader = record (in_term_1 3 7) {
  tick_number = 3;
  state = record {
    persistent_state = record {
      current_term = 1;
      voted_for = none;
      log = record { command = []; leader_term = 0 } ∷ [];
    };
    volatile_state = record { commit_index = 0 };
  };
  role = leader;
  leader_state = some (record {
    next_index = (1, 1) ∷ (2, 1) ∷ (3, 1) ∷ [];
    match_index = (1, 0) ∷ (2, 0) ∷ (3, 0) ∷ [];
  });
  incoming_append_entries_requests = (3, own_heartbeat) ∷ [];
  sent =
      (2, request_vote_request rivalry)
      ∷ (1, append_entries_request own_heartbeat)
      ∷ (2, append_entries_request own_heartbeat)
      ∷ [];
}

rival_runs : run (fresh 3) 1 ≡ ok rival
unfolding run
rival_runs = refl

leader_votes : run asked_leader 1 ≡ ok disloyal
unfolding run
leader_votes = refl

rival_counts : run favoured 1 ≡ ok counting
unfolding run
rival_counts = refl

rival_leads : run counting 1 ≡ ok second_leader
unfolding run
rival_leads = refl

abbrev rival_request : AnnotatedMessage
rival_request = record {
  message = some (
      rv_req (record {
        candidate_term = 1;
        candidate_id = 3;
        candidate_last_log_index = 0;
        candidate_last_log_term = 0;
      }));
  sender_id = 3;
}

abbrev leader_vote : AnnotatedMessage
leader_vote = record {
  message = some (rv_resp (record { current_term = 1; vote_granted = true; candidate_term = 1 }));
  sender_id = 1;
}

abbrev beat : AnnotatedMessage
beat = record {
  message = some (
      ae_req (record {
        leader_term = 1;
        leader_id = 1;
        prev_log_index = 0;
        prev_log_term = 0;
        item = encode_items [];
        leader_commit = 0;
      }));
  sender_id = 1;
}

abbrev e9 : Cluster UniformTimer
e9 = after c8.nodes 3 rival []

abbrev e10 : Cluster UniformTimer
e10 = after e9.nodes 3 (record rival { sent = rest_of_rival }) ((1, rival_request) ∷ [])

abbrev e11 : Cluster UniformTimer
e11 = after e10.nodes 1 asked_leader []

abbrev e12 : Cluster UniformTimer
e12 = after e11.nodes 1 disloyal []

abbrev e13 : Cluster UniformTimer
e13 =
    after e12.nodes 1
      (record disloyal {
        sent =
            (2, append_entries_request heartbeat)
            ∷ (3, append_entries_request heartbeat)
            ∷ (3, request_vote_response vote)
            ∷ beats;
      })
      ((3, vote_request) ∷ [])

abbrev e14 : Cluster UniformTimer
e14 =
    after e13.nodes 1
      (record disloyal {
        sent = (3, append_entries_request heartbeat) ∷ (3, request_vote_response vote) ∷ beats;
      })
      ((3, vote_request) ∷ (2, beat) ∷ [])

abbrev e15 : Cluster UniformTimer
e15 =
    after e14.nodes 1 (record disloyal { sent = (3, request_vote_response vote) ∷ beats })
      ((3, vote_request) ∷ (2, beat) ∷ (3, beat) ∷ [])

abbrev e16 : Cluster UniformTimer
e16 =
    after e15.nodes 1 (record disloyal { sent = beats })
      ((3, vote_request) ∷ (2, beat) ∷ (3, beat) ∷ (3, leader_vote) ∷ [])

abbrev lagging : List (ℕ × AnnotatedMessage)
lagging = (3, vote_request) ∷ (2, beat) ∷ (3, beat) ∷ []

abbrev e17 : Cluster UniformTimer
e17 = after e16.nodes 3 favoured lagging

abbrev e18 : Cluster UniformTimer
e18 = after e17.nodes 3 counting lagging

abbrev e19 : Cluster UniformTimer
e19 = after e18.nodes 3 second_leader lagging

forget_calm :
    {T : Type 0} ⦃timer : ITimeout T⦄ (ids : List ℕ) (bound : ℕ) {c d : Cluster T}
    → CalmSteps ids bound c d
    → Steps ids c d
forget_calm ids bound stays = here
forget_calm ids bound (goes run calm step) = next (forget_calm ids bound run) step

uncalm : Steps three c0 e19
unfolding send_message receive encode decode encode_items decode_items add_message new_node
uncalm =
    next
      (next
        (next
          (next
            (next
              (next
                (next
                  (next
                    (next
                      (next
                        (next (forget_calm three 1 until_leader)
                          (ticks c8 3 rival (once (fresh 3) rival rival_runs)))
                        (sends e9 3 1 (request_vote_request rivalry) rest_of_rival rival_request
                          refl refl refl))
                      (arrives e10 memory [] [] 1 rival_request 3 (request_vote_request rivalry)
                        refl refl))
                    (ticks e11 1 disloyal (once asked_leader disloyal leader_votes)))
                  (sends e12 1 3 (request_vote_request candidacy)
                    ((2, append_entries_request heartbeat)
                      ∷ (3, append_entries_request heartbeat)
                      ∷ (3, request_vote_response vote)
                      ∷ beats)
                    vote_request refl refl refl))
                (sends e13 1 2 (append_entries_request heartbeat)
                  ((3, append_entries_request heartbeat) ∷ (3, request_vote_response vote) ∷ beats)
                  beat refl refl refl))
              (sends e14 1 3 (append_entries_request heartbeat)
                ((3, request_vote_response vote) ∷ beats) beat refl refl refl))
            (sends e15 1 3 (request_vote_response vote) (beats) leader_vote refl refl refl))
          (arrives e16 memory lagging [] 3 leader_vote 1 (request_vote_response vote) refl refl))
        (ticks e17 3 counting (once favoured counting rival_counts)))
      (ticks e18 3 second_leader (once counting second_leader rival_leads))

-- Two nodes lead in one term.
two_leaders :
    (d : Cluster UniformTimer) × Steps three (constructed three timers) d
    × ((d.nodes 1).role ≡ leader)
    × ((d.nodes 3).role ≡ leader)
    × (get_current_term (d.nodes 1) ≡ get_current_term (d.nodes 3))
two_leaders = (e19, uncalm, refl, refl, refl)
