-- ===== src/Cluster/LogMatching/Sample.antt =====
-- hw2/src/worker/worker.cpp and hw2/src/consensus/node.cpp: the nodes of a cluster of three whose leader sends a
-- command to the second node.
use to_ftds.Base.{ℕ, true, List, [], ◌∷◌, ◌++◌, none, some}
use to_ftds.Timeout.{UniformTimer, uniform_timer}
use to_ftds.Consensus.State.{Log, LogItem}
use to_ftds.Consensus.Message.{
  Message, AppendEntriesRequest, append_entries_request, append_entries_response,
  request_vote_request,
}
use to_ftds.Consensus.Node.{Node}
use to_ftds.Consensus.Examples.Nodes.{started}
use to_ftds.Communication.{AnnotatedMessage, encode_items, ae_req}
use to_ftds.Cluster.{Cluster, put}
use to_ftds.Cluster.Elections.Sample.{candidacy, granted, heartbeat, leading, vote_request}
use to_ftds.Cluster.Elections.Examples.{after, c8}

abbrev pub item : LogItem
item = record { command = 7 ∷ []; leader_term = 1 }

-- The leader has a command to add.
abbrev pub told : Node UniformTimer
told = (record leading { incoming_commands = (7 ∷ [], 0) ∷ []; next_promise = 1 })

abbrev pub sent_first : List (ℕ × Message)
sent_first =
    (3, request_vote_request candidacy)
    ∷ (2, append_entries_request heartbeat)
    ∷ (3, append_entries_request heartbeat)
    ∷ (2, append_entries_request heartbeat)
    ∷ (3, append_entries_request heartbeat)
    ∷ []

abbrev pub added : Node UniformTimer
added = record leading {
  tick_number = 4;
  election_timeout = record started { expires_at = 109; reads = 8; draws = 2 };
  state = record {
    persistent_state = record {
      current_term = 1;
      voted_for = none;
      log = record { command = []; leader_term = 0 } ∷ item ∷ [];
    };
    volatile_state = record { commit_index = 0 };
  };
  incoming_append_entries_requests = (1, heartbeat) ∷ [];
  incoming_append_entries_responses =
      (1, record { current_term = 1; success = true; matched_until = some 0 }) ∷ [];
  items_to_response = (1, 0) ∷ [];
  next_promise = 1;
  sent = sent_first;
}

abbrev pub copy : AppendEntriesRequest
copy = record heartbeat { entries = item ∷ [] }

abbrev pub copying : Node UniformTimer
copying = record added {
  tick_number = 5;
  election_timeout = record started { expires_at = 109; reads = 9; draws = 3 };
  incoming_append_entries_requests = (1, copy) ∷ [];
  sent = sent_first ++ (2, append_entries_request copy) ∷ (3, append_entries_request copy) ∷ [];
}

abbrev pub handed : Node UniformTimer
handed = record granted { incoming_append_entries_requests = (1, copy) ∷ [] }

abbrev pub copied : Node UniformTimer
copied = record granted {
  tick_number = 2;
  election_timeout = record started { expires_at = 109; reads = 6; draws = 2 };
  state = record {
    persistent_state = record {
      current_term = 1;
      voted_for = some 1;
      log = record { command = []; leader_term = 0 } ∷ item ∷ [];
    };
    volatile_state = record { commit_index = 0 };
  };
  sent =
      (
        1,
        append_entries_response
            (record { current_term = 1; success = true; matched_until = some 1 }),
      )
      ∷ [];
}

abbrev pub on_the_way : Log → AnnotatedMessage
on_the_way es = record {
  message = some (
      ae_req (record {
        leader_term = 1;
        leader_id = 1;
        prev_log_index = 0;
        prev_log_term = 0;
        item = encode_items es;
        leader_commit = 0;
      }));
  sender_id = 1;
}

abbrev pub beat : AnnotatedMessage
beat = on_the_way []

abbrev pub d9 : Cluster UniformTimer
d9 = record c8 { nodes = put c8.nodes 1 told }

abbrev pub d10 : Cluster UniformTimer
d10 = after d9.nodes 1 added []

abbrev pub d11 : Cluster UniformTimer
d11 = after d10.nodes 1 copying []

abbrev pub d12 : Cluster UniformTimer
d12 =
    after d11.nodes 1
      (record copying {
        sent =
            ((2, append_entries_request heartbeat)
              ∷ (3, append_entries_request heartbeat)
              ∷ (2, append_entries_request heartbeat)
              ∷ (3, append_entries_request heartbeat)
              ∷ (2, append_entries_request copy)
              ∷ (3, append_entries_request copy)
              ∷ []);
      })
      ((3, vote_request) ∷ [])

abbrev pub d13 : Cluster UniformTimer
d13 =
    after d12.nodes 1
      (record copying {
        sent =
            ((3, append_entries_request heartbeat)
              ∷ (2, append_entries_request heartbeat)
              ∷ (3, append_entries_request heartbeat)
              ∷ (2, append_entries_request copy)
              ∷ (3, append_entries_request copy)
              ∷ []);
      })
      ((3, vote_request) ∷ (2, beat) ∷ [])

abbrev pub d14 : Cluster UniformTimer
d14 =
    after d13.nodes 1
      (record copying {
        sent =
            ((2, append_entries_request heartbeat)
              ∷ (3, append_entries_request heartbeat)
              ∷ (2, append_entries_request copy)
              ∷ (3, append_entries_request copy)
              ∷ []);
      })
      ((3, vote_request) ∷ (2, beat) ∷ (3, beat) ∷ [])

abbrev pub d15 : Cluster UniformTimer
d15 =
    after d14.nodes 1
      (record copying {
        sent =
            ((3, append_entries_request heartbeat)
              ∷ (2, append_entries_request copy)
              ∷ (3, append_entries_request copy)
              ∷ []);
      })
      ((3, vote_request) ∷ (2, beat) ∷ (3, beat) ∷ (2, beat) ∷ [])

abbrev pub d16 : Cluster UniformTimer
d16 =
    after d15.nodes 1
      (record copying {
        sent = ((2, append_entries_request copy) ∷ (3, append_entries_request copy) ∷ []);
      })
      ((3, vote_request) ∷ (2, beat) ∷ (3, beat) ∷ (2, beat) ∷ (3, beat) ∷ [])

abbrev pub d17 : Cluster UniformTimer
d17 =
    after d16.nodes 1 (record copying { sent = ((3, append_entries_request copy) ∷ []) })
      ((3, vote_request)
        ∷ (2, beat)
        ∷ (3, beat)
        ∷ (2, beat)
        ∷ (3, beat)
        ∷ (2, on_the_way (item ∷ []))
        ∷ [])

abbrev pub others : List (ℕ × AnnotatedMessage)
others = (3, vote_request) ∷ (2, beat) ∷ (3, beat) ∷ (2, beat) ∷ (3, beat) ∷ []

abbrev pub d18 : Cluster UniformTimer
d18 = after d17.nodes 2 handed others

abbrev pub d19 : Cluster UniformTimer
d19 = after d18.nodes 2 copied others
