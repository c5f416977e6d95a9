-- ===== src/Consensus/Node.antt =====
-- hw2/src/consensus/node.h: the state of a node, its accessors, its queues and its channels.
--
-- A handler takes the node and returns it changed. What the node does to the outside is recorded in
-- it: `sent` are the messages handed to the channels of other nodes, oldest first,
-- `command_results` and `read_results` the promises that were set, with their values.
pub mod Roles
pub mod Requests
pub mod Responses
pub mod Commit
pub mod Ticks
use to_ftds.Base.{
  ℕ, suc, ◌+◌, ◌-◌, ◌==◌, if◌then◌else◌, Bool, true, false, List, [], ◌∷◌, ◌++◌, Option, none, some,
  length, get_elem?, insert, set_insert, nat_key,
}
use to_ftds.Consensus.State.{
  NodeState, follower, Command, LogItem, Log, PersistentState, VolatileState, State, CandidateState,
  LeaderState,
}
use to_ftds.Consensus.Message.{
  AppendEntriesRequest, AppendEntriesResponse, RequestVoteRequest, RequestVoteResponse, Message,
  append_entries_request, append_entries_response, request_vote_request, request_vote_response,
}

-- `none`: the command is persisted. Otherwise the node that may be the leader.
pub record AddCommandResult : Type 0 where
  pub leader_id : Option ℕ

abbrev pub command_persisted : AddCommandResult → Bool
command_persisted r = elim r.leader_id [ none ↦ true | some _ ↦ false ]

-- `T` is the type of the node's timer. A promise is a number; `next_promise` is the next fresh one.
pub record Node (T : Type 0) : Type 0 where
  pub tick_number : ℕ
  pub my_id : ℕ
  pub channels : List ℕ
  pub total_nodes : ℕ
  pub election_timeout : T
  pub state : State
  pub leader_state : Option LeaderState
  pub candidate_state : Option CandidateState
  pub role : NodeState
  pub incoming_append_entries_requests : List (ℕ × AppendEntriesRequest)
  pub incoming_request_vote_requests : List (ℕ × RequestVoteRequest)
  pub incoming_append_entries_responses : List (ℕ × AppendEntriesResponse)
  pub incoming_request_vote_responses : List (ℕ × RequestVoteResponse)
  pub incoming_commands : List (Command × ℕ)
  pub get_persistent_commands_reqs : List ((ℕ × ℕ) × ℕ)
  pub items_to_response : List (ℕ × ℕ)
  pub next_promise : ℕ
  pub sent : List (ℕ × Message)
  pub command_results : List (ℕ × AddCommandResult)
  pub read_results : List (ℕ × List Command)

-- `back()` of the log. The constructor puts an item there, and no operation empties the log.
abbrev pub last_term : Log → ℕ
last_term [] = 0
last_term (x ∷ []) = x.leader_term
last_term (x ∷ y ∷ xs) = last_term (y ∷ xs)

module _ {T : Type 0} where
  abbrev pub get_current_term : Node T → ℕ
  get_current_term n = n.state.persistent_state.current_term

  abbrev pub get_voted_for : Node T → Option ℕ
  get_voted_for n = n.state.persistent_state.voted_for

  abbrev pub get_log : Node T → Log
  get_log n = n.state.persistent_state.log

  abbrev pub get_commit_index : Node T → ℕ
  get_commit_index n = n.state.volatile_state.commit_index

  -- The accessors return references; these are the writes through them.
  abbrev pub set_current_term : Node T → ℕ → Node T
  set_current_term n t = record n {
    state = record n.state {
      persistent_state = record n.state.persistent_state { current_term = t };
    };
  }

  abbrev pub set_voted_for : Node T → Option ℕ → Node T
  set_voted_for n v = record n {
    state = record n.state { persistent_state = record n.state.persistent_state { voted_for = v } };
  }

  abbrev pub set_log : Node T → Log → Node T
  set_log n l = record n {
    state = record n.state { persistent_state = record n.state.persistent_state { log = l } };
  }

  abbrev pub set_commit_index : Node T → ℕ → Node T
  set_commit_index n c = record n {
    state = record n.state { volatile_state = record { commit_index = c } };
  }

  abbrev pub get_last_log_term : Node T → ℕ
  get_last_log_term n = last_term (get_log n)

  abbrev pub get_last_log_index : Node T → ℕ
  get_last_log_index n = length (get_log n) - 1

  -- `channels` are the ids of the other nodes. The node's own id gets the `TrivialMessageSender`.
  unfoldable pub new_node : ℕ → List ℕ → T → Node T
  new_node my_id channels timer = record {
    tick_number = 0;
    my_id = my_id;
    channels = set_insert my_id channels;
    total_nodes = length (set_insert my_id channels);
    election_timeout = timer;
    state = record {
      persistent_state = record {
        current_term = 0;
        voted_for = none;
        log = record { command = []; leader_term = 0 } ∷ [];
      };
      volatile_state = record { commit_index = 0 };
    };
    leader_state = none;
    candidate_state = none;
    role = follower;
    incoming_append_entries_requests = [];
    incoming_request_vote_requests = [];
    incoming_append_entries_responses = [];
    incoming_request_vote_responses = [];
    incoming_commands = [];
    get_persistent_commands_reqs = [];
    items_to_response = [];
    next_promise = 0;
    sent = [];
    command_results = [];
    read_results = [];
  }

  unfoldable pub add_message : Node T → ℕ → Message → Node T
  add_message n id (append_entries_request m) = record n {
    incoming_append_entries_requests = n.incoming_append_entries_requests ++ (id, m) ∷ [];
  }
  add_message n id (append_entries_response m) = record n {
    incoming_append_entries_responses = n.incoming_append_entries_responses ++ (id, m) ∷ [];
  }
  add_message n id (request_vote_request m) = record n {
    incoming_request_vote_requests = n.incoming_request_vote_requests ++ (id, m) ∷ [];
  }
  add_message n id (request_vote_response m) = record n {
    incoming_request_vote_responses = n.incoming_request_vote_responses ++ (id, m) ∷ [];
  }

  -- `channels_.at(who)->Send(my_id_, m)`: the node's own channel is a `TrivialMessageSender`, which
  -- adds the message to the node itself.
  unfoldable pub send : Node T → ℕ → Message → Node T
  unfolding add_message
  send n who m =
      if who == n.my_id
      then add_message n n.my_id m
      else record n { sent = n.sent ++ (who, m) ∷ [] }

  -- Returns the promise with the node.
  unfoldable pub add_command : Node T → Command → Node T × ℕ
  add_command n c = (
    record n {
      incoming_commands = n.incoming_commands ++ (c, n.next_promise) ∷ [];
      next_promise = suc n.next_promise;
    },
    n.next_promise,
  )

  unfoldable pub get_persistent_commands : Node T → ℕ → ℕ → Node T × ℕ
  get_persistent_commands n from max_count = (
    record n {
      get_persistent_commands_reqs =
          n.get_persistent_commands_reqs
          ++ ((if from == 0 then 1 else from, max_count), n.next_promise) ∷ [];
      next_promise = suc n.next_promise;
    },
    n.next_promise,
  )

  -- `promise.set_value(r)` of an `AddCommand`.
  abbrev pub set_command_result : Node T → ℕ → AddCommandResult → Node T
  set_command_result n p r = record n { command_results = n.command_results ++ (p, r) ∷ [] }
