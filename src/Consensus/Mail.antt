-- ===== src/Consensus/Mail.antt =====
-- hw2/src/consensus/node.cpp: the messages that wait for a node and those that it sends.
pub mod Handlers
pub mod Ticks
use to_ftds.Base.{
  ℕ, ◌≡◌, ◌≢◌, refl, sym, ap, ◌∙◌, inl, inr, Bool, true, false, if◌then◌else◌, ◌||◌, leb, ltb, ◌==◌,
  List, [], ◌∷◌, ◌++◌, Option, none, some, arith, Bool-cases, Option-cases, Outcome, ok, fault,
  Ensures, >>=-Ensures, Ensures-map, ◌>>=◌, need, All, for_each-Keeps, contains,
}
use to_ftds.Timeout.{ITimeout}
use to_ftds.Consensus.State.{LeaderState, LogItem}
use to_ftds.Consensus.Message.{
  Message, AppendEntriesRequest, AppendEntriesResponse, RequestVoteRequest, append_entries_request,
  append_entries_response, request_vote_request, request_vote_response,
}
use to_ftds.Consensus.Node.{Node, add_message, send, get_log, get_last_log_index, get_current_term}
use to_ftds.Consensus.Node.Roles.{
  is_leader, next_index_of, build_append_entries, send_entries, send_append_entries_to_someone,
  send_append_entries_to_all, send_each, send_request_vote_to_all,
}
use to_ftds.Consensus.Quiet.{Quiet}
use to_ftds.Consensus.Wellformed.Messages.{Known, Matched, MessagesKnown}
use to_ftds.Consensus.Frame.{send_append_entries_to_all-Keeps}

-- A success says how far the logs match.
abbrev pub Complete : Message → Type 0
Complete (append_entries_response resp) = Matched (0, resp)
Complete (append_entries_request req) = Unit
Complete (request_vote_request req) = Unit
Complete (request_vote_response resp) = Unit

-- The node has a channel to itself; what waits comes from known nodes, and what was sent is complete.
pub record Mail {T : Type 0} (channels : List ℕ) (n : Node T) : Type 0 where
  pub own : contains n.my_id channels ≡ true
  pub waiting : MessagesKnown channels n
  pub sent : All (λ (x : ℕ × Message). Complete x.1) n.sent

pub All-snoc :
    {A : Type 0} (P : A → Type 0) (xs : List A) (x : A) → All P xs → P x → All P (xs ++ x ∷ [])
All-snoc P [] x h p = (p, tt)
All-snoc P (y ∷ ys) x h p = (h.0, All-snoc P ys x h.1 p)

module _ {T : Type 0} (channels : List ℕ) where
  pub Mail-same :
      (n m : Node T)
      → m.my_id ≡ n.my_id
      → m.incoming_append_entries_requests ≡ n.incoming_append_entries_requests
      → m.incoming_request_vote_requests ≡ n.incoming_request_vote_requests
      → m.incoming_append_entries_responses ≡ n.incoming_append_entries_responses
      → m.sent ≡ n.sent
      → Mail channels n
      → Mail channels m
  Mail-same n m id a b c s mail = record {
    own = rw id mail.own;
    waiting = record {
      append_entries_requests = rw a mail.waiting.append_entries_requests;
      request_vote_requests = rw b mail.waiting.request_vote_requests;
      append_entries_responses = rw c mail.waiting.append_entries_responses;
    };
    sent = rw s mail.sent;
  }

  pub Quiet-Mail : (n m : Node T) → Quiet n m → Mail channels n → Mail channels m
  Quiet-Mail n m q mail =
      Mail-same n m q.my_id q.append_entries_requests q.request_vote_requests
        q.append_entries_responses q.sent mail

  pub add_message-Mail :
      (n : Node T) (id : ℕ) (msg : Message)
      → contains id channels ≡ true
      → Complete msg
      → Mail channels n
      → Mail channels (add_message n id msg)
  unfolding add_message
  add_message-Mail n id (append_entries_request m) known c mail = record {
    own = mail.own;
    waiting = record {
      append_entries_requests =
          All-snoc (Known channels) n.incoming_append_entries_requests (id, m)
            mail.waiting.append_entries_requests known;
      request_vote_requests = mail.waiting.request_vote_requests;
      append_entries_responses = mail.waiting.append_entries_responses;
    };
    sent = mail.sent;
  }
  add_message-Mail n id (append_entries_response m) known c mail = record {
    own = mail.own;
    waiting = record {
      append_entries_requests = mail.waiting.append_entries_requests;
      request_vote_requests = mail.waiting.request_vote_requests;
      append_entries_responses =
          All-snoc Matched n.incoming_append_entries_responses (id, m)
            mail.waiting.append_entries_responses c;
    };
    sent = mail.sent;
  }
  add_message-Mail n id (request_vote_request m) known c mail = record {
    own = mail.own;
    waiting = record {
      append_entries_requests = mail.waiting.append_entries_requests;
      request_vote_requests =
          All-snoc (Known channels) n.incoming_request_vote_requests (id, m)
            mail.waiting.request_vote_requests known;
      append_entries_responses = mail.waiting.append_entries_responses;
    };
    sent = mail.sent;
  }
  add_message-Mail n id (request_vote_response m) known c mail =
      Mail-same n _ refl refl refl refl refl mail

  pub send-Mail :
      (n : Node T) (who : ℕ) (msg : Message)
      → Complete msg
      → Mail channels n
      → Mail channels (send n who msg)
  unfolding send
  send-Mail n who msg c mail = elim (Bool-cases (who == n.my_id)) [
    | inl self ↦ rw self (add_message-Mail n n.my_id msg mail.own c mail)
    | inr other ↦ rw other (record {
      own = mail.own;
      waiting = record {
        append_entries_requests = mail.waiting.append_entries_requests;
        request_vote_requests = mail.waiting.request_vote_requests;
        append_entries_responses = mail.waiting.append_entries_responses;
      };
      sent = All-snoc (λ (x : ℕ × Message). Complete x.1) n.sent (who, msg) mail.sent c;
    })
  ]

  send_each-Mail :
      (n : Node T) (r : RequestVoteRequest) (ids : List ℕ)
      → Mail channels n
      → Mail channels (send_each n r ids)
  unfolding send_each
  send_each-Mail n r [] mail = mail
  send_each-Mail n r (id ∷ ids) mail =
      send_each-Mail (send n id (request_vote_request r)) r ids
        (send-Mail n id (request_vote_request r) tt mail)

  pub send_request_vote_to_all-Mail :
      (n : Node T) → Mail channels n → Mail channels (send_request_vote_to_all n)
  unfolding send_request_vote_to_all
  send_request_vote_to_all-Mail n mail = send_each-Mail n _ n.channels mail

  pub send_append_entries_to_all-Mail :
      (heartbeat : Bool) (n : Node T)
      → Mail channels n
      → Ensures (Mail channels) (send_append_entries_to_all heartbeat n)
  send_append_entries_to_all-Mail heartbeat n mail =
      send_append_entries_to_all-Keeps (Mail channels)
        (λ m who req k. send-Mail m who (append_entries_request req) tt k) heartbeat n mail
