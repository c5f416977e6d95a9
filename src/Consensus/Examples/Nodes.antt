-- ===== src/Consensus/Examples/Nodes.antt =====
-- hw2/src/consensus: the nodes, messages and clocks that the examples run on.
use to_ftds.Base.{ℕ, [], ◌∷◌, none, some}
use to_ftds.Timeout.{UniformTimer}
use to_ftds.Consensus.State.{Log, follower, leader, LeaderState}
use to_ftds.Consensus.Message.{AppendEntriesRequest, RequestVoteRequest}
use to_ftds.Consensus.Node.{Node}

-- The clock stands at 100 ms and each period is 9 ms, so the first test finds the time run out.
abbrev pub started : UniformTimer
started = record { clock = λ _. 100; uid_ms = λ _. 9; reads = 0; draws = 0; expires_at = 0 }

abbrev pub two_items : Log
two_items =
    record { command = []; leader_term = 0 }
    ∷ record { command = 97 ∷ []; leader_term = 1 }
    ∷ record { command = 98 ∷ []; leader_term = 1 }
    ∷ []

-- Node 1 of three, a follower in term 1 with two items behind the first.
abbrev pub follower_node : Node UniformTimer
follower_node = record {
  tick_number = 0;
  my_id = 1;
  channels = 1 ∷ 2 ∷ 3 ∷ [];
  total_nodes = 3;
  election_timeout = started;
  state = record {
    persistent_state = record { current_term = 1; voted_for = none; log = two_items };
    volatile_state = record { commit_index = 0 };
  };
  leader_state = none;
  candidate_state = none;
  role = follower;
  incoming_append_entries_requests = [];
  incoming_request_vote_requests = [];
  incoming_append_entries_responses = [];
  incoming_request_vote_responses = [];
  incoming_commands = [];
  get_persistent_commands_reqs = [];
  items_to_response = [];
  next_promise = 0;
  sent = [];
  command_results = [];
  read_results = [];
}

-- Replaces item 2 by one of term 2, and commits item 1.
abbrev pub overwrite : AppendEntriesRequest
overwrite = record {
  leader_term = 2;
  leader_id = 3;
  prev_log_index = 1;
  prev_log_term = 1;
  entries = record { command = 99 ∷ []; leader_term = 2 } ∷ [];
  leader_commit = 1;
}

abbrev pub candidacy : ℕ → RequestVoteRequest
candidacy id = record {
  candidate_term = 2;
  candidate_id = id;
  candidate_last_log_index = 2;
  candidate_last_log_term = 1;
}

-- Node 2 holds both items, node 3 none; a client waits for item 1 with promise 7.
abbrev pub progress : LeaderState
progress = record {
  next_index = (1, 3) ∷ (2, 3) ∷ (3, 1) ∷ [];
  match_index = (1, 2) ∷ (2, 1) ∷ (3, 0) ∷ [];
}

abbrev pub leader_node : Node UniformTimer
leader_node = record follower_node {
  role = leader;
  leader_state = some progress;
  items_to_response = (1, 7) ∷ [];
}

-- Items 1 and 2 are committed, and a query asks for up to ten from item 1 on.
abbrev pub queried_node : Node UniformTimer
queried_node = record follower_node {
  state = record follower_node.state { volatile_state = record { commit_index = 2 } };
  get_persistent_commands_reqs = ((1, 10), 4) ∷ [];
}
