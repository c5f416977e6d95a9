-- ===== src/Cluster/Elections/Sample.antt =====
-- hw2/src/worker/worker.cpp and hw2/src/consensus/node.cpp: the nodes of a cluster of three that elects its
-- first node.
use to_ftds.Base.{ℕ, ◌==◌, if◌then◌else◌, true, List, [], ◌∷◌, none, some}
use to_ftds.Timeout.{UniformTimer, uniform_timer}
use to_ftds.Consensus.State.{leader, follower, candidate}
use to_ftds.Consensus.Message.{
  append_entries_request, AppendEntriesRequest, request_vote_request, RequestVoteRequest,
  RequestVoteResponse, request_vote_response,
}
use to_ftds.Consensus.Node.{Node}
use to_ftds.Consensus.Examples.Nodes.{started}
use to_ftds.Communication.{AnnotatedMessage, Uninitialised, rv_req, rv_resp}

abbrev pub three : List ℕ
three = 1 ∷ 2 ∷ 3 ∷ []

-- The time of node 2 does not run out.
abbrev pub timers : ℕ → UniformTimer
timers i = if i == 2 then record started { expires_at = 109 } else started

abbrev pub fresh : ℕ → Node UniformTimer
fresh i = record {
  tick_number = 0;
  my_id = i;
  channels = three;
  total_nodes = 3;
  election_timeout = timers i;
  state = record {
    persistent_state = record {
      current_term = 0;
      voted_for = none;
      log = record { command = []; leader_term = 0 } ∷ [];
    };
    volatile_state = record { commit_index = 0 };
  };
  leader_state = none;
  candidate_state = none;
  role = follower;
  incoming_append_entries_requests = [];
  incoming_request_vote_requests = [];
  incoming_append_entries_responses = [];
  incoming_request_vote_responses = [];
  incoming_commands = [];
  get_persistent_commands_reqs = [];
  items_to_response = [];
  next_promise = 0;
  sent = [];
  command_results = [];
  read_results = [];
}

-- A node in term 1 after `reads` readings of the clock.
abbrev pub in_term_1 : ℕ → ℕ → Node UniformTimer
in_term_1 i reads = record (fresh i) {
  election_timeout = record started { expires_at = 109; reads = reads; draws = 1 };
  state = record {
    persistent_state = record {
      current_term = 1;
      voted_for = some 1;
      log = record { command = []; leader_term = 0 } ∷ [];
    };
    volatile_state = record { commit_index = 0 };
  };
}

abbrev pub candidacy : RequestVoteRequest
candidacy = record {
  candidate_term = 1;
  candidate_id = 1;
  candidate_last_log_index = 0;
  candidate_last_log_term = 0;
}

abbrev pub vote : RequestVoteResponse
vote = record { current_term = 1; vote_granted = true; candidate_term = 1 }

abbrev pub running : Node UniformTimer
running = record (in_term_1 1 3) {
  tick_number = 1;
  role = candidate;
  candidate_state = some (record { votes = [] });
  incoming_request_vote_requests = (1, candidacy) ∷ [];
  sent = (2, request_vote_request candidacy) ∷ (3, request_vote_request candidacy) ∷ [];
}

abbrev pub asking : Node UniformTimer
asking = record running { sent = (3, request_vote_request candidacy) ∷ [] }

abbrev pub asked : Node UniformTimer
asked = record (fresh 2) { incoming_request_vote_requests = (1, candidacy) ∷ [] }

abbrev pub granting : Node UniformTimer
granting = record (in_term_1 2 3) { tick_number = 1; sent = (1, request_vote_response vote) ∷ [] }

abbrev pub granted : Node UniformTimer
granted = record granting { sent = [] }

abbrev pub supported : Node UniformTimer
supported = record asking { incoming_request_vote_responses = (2, vote) ∷ [] }

abbrev pub voting : Node UniformTimer
voting = record (in_term_1 1 5) {
  tick_number = 2;
  role = candidate;
  candidate_state = some (record { votes = 2 ∷ [] });
  incoming_request_vote_responses = (1, vote) ∷ [];
  sent = (3, request_vote_request candidacy) ∷ [];
}

abbrev pub heartbeat : AppendEntriesRequest
heartbeat = record {
  leader_term = 1;
  leader_id = 1;
  prev_log_index = 0;
  prev_log_term = 0;
  entries = [];
  leader_commit = 0;
}

abbrev pub leading : Node UniformTimer
leading = record (in_term_1 1 7) {
  tick_number = 3;
  state = record {
    persistent_state = record {
      current_term = 1;
      voted_for = none;
      log = record { command = []; leader_term = 0 } ∷ [];
    };
    volatile_state = record { commit_index = 0 };
  };
  leader_state = some (record {
    next_index = (1, 1) ∷ (2, 1) ∷ (3, 1) ∷ [];
    match_index = (1, 0) ∷ (2, 0) ∷ (3, 0) ∷ [];
  });
  role = leader;
  incoming_append_entries_requests = (1, heartbeat) ∷ [];
  sent =
      (3, request_vote_request candidacy)
      ∷ (2, append_entries_request heartbeat)
      ∷ (3, append_entries_request heartbeat)
      ∷ [];
}

abbrev pub vote_request : AnnotatedMessage
vote_request = record {
  message = some (
      rv_req (record {
        candidate_term = 1;
        candidate_id = 1;
        candidate_last_log_index = 0;
        candidate_last_log_term = 0;
      }));
  sender_id = 1;
}

abbrev pub vote_response : AnnotatedMessage
vote_response = record {
  message = some (rv_resp (record { current_term = 1; vote_granted = true; candidate_term = 1 }));
  sender_id = 2;
}

abbrev pub memory : Uninitialised
memory = record { leader_commit = 0; candidate_term = 0 }
