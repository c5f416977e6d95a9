-- ===== src/Cluster/Ballots/Sending.antt =====
-- hw2/src/consensus/node.cpp: the messages about votes that a node sends and receives.
use to_ftds.Base.{
  ℕ, ◌≡◌, ◌≢◌, refl, inl, inr, Bool, Bool-cases, List, [], ◌∷◌, ◌==◌, Ensures, arith,
}
use to_ftds.Consensus.Message.{
  Message, RequestVoteRequest, append_entries_request, append_entries_response,
  request_vote_request, request_vote_response,
}
use to_ftds.Consensus.Node.{Node, add_message, send}
use to_ftds.Consensus.Node.Roles.{send_append_entries_to_all, send_each, send_request_vote_to_all}
use to_ftds.Consensus.Frame.{send_append_entries_to_all-Keeps}
use to_ftds.Consensus.Mail.{All-snoc}
use to_ftds.Cluster.Ballots.{History, Asked, Answered, Ready, Letters, Letters-same}

-- What may come to the node `i` from `who`.
abbrev pub Arrives : History → ℕ → ℕ → Message → Type 0
Arrives H i who (append_entries_request req) = Unit
Arrives H i who (append_entries_response resp) = Unit
Arrives H i who (request_vote_request req) = Asked i (who, req)
Arrives H i who (request_vote_response resp) = Answered H i (who, resp)

-- What the node may send to itself may come to it.
Ready-Arrives : (H : History) (i : ℕ) (msg : Message) → Ready H i i msg → Arrives H i i msg
Ready-Arrives H i (append_entries_request m) r = tt
Ready-Arrives H i (append_entries_response m) r = tt
Ready-Arrives H i (request_vote_request m) r = (r, inl refl)
Ready-Arrives H i (request_vote_response m) r = λ granted. (r granted).0

module _ (ids : List ℕ) (H : History) (i : ℕ) {T : Type 0} where
  pub add_message-Letters :
      (n : Node T) (who : ℕ) (msg : Message)
      → Arrives H i who msg
      → Letters ids H i n
      → Letters ids H i (add_message n who msg)
  unfolding add_message
  add_message-Letters n who (append_entries_request m) ok_msg l =
      Letters-same ids H i n _ refl refl refl refl refl l
  add_message-Letters n who (append_entries_response m) ok_msg l =
      Letters-same ids H i n _ refl refl refl refl refl l
  add_message-Letters n who (request_vote_request m) asked l = record {
    own = l.own;
    total = l.total;
    requests = All-snoc (Asked i) n.incoming_request_vote_requests (who, m) l.requests asked;
    responses = l.responses;
    sent = l.sent;
  }
  add_message-Letters n who (request_vote_response m) answered l = record {
    own = l.own;
    total = l.total;
    requests = l.requests;
    responses =
        All-snoc (Answered H i) n.incoming_request_vote_responses (who, m) l.responses answered;
    sent = l.sent;
  }

  pub send-Letters :
      (n : Node T) (who : ℕ) (msg : Message)
      → Ready H i who msg
      → Letters ids H i n
      → Letters ids H i (send n who msg)
  unfolding send
  send-Letters n who msg ready l = elim (Bool-cases (who == n.my_id)) [
    | inl self ↦
        let e : who ≡ i = ground (arith, l.own) in
        rw self
          (add_message-Letters n n.my_id msg (rw l.own (Ready-Arrives H i msg (rw e at ready))) l)
    | inr other ↦ rw other (record {
      own = l.own;
      total = l.total;
      requests = l.requests;
      responses = l.responses;
      sent =
          All-snoc (λ (x : ℕ × Message). (x.0 ≢ i) × Ready H i x.0 x.1) n.sent (who, msg) l.sent
            (λ e. ground (arith, l.own), ready);
    })
  ]

  send_each-Letters :
      (n : Node T) (r : RequestVoteRequest) (to : List ℕ)
      → r.candidate_id ≡ i
      → Letters ids H i n
      → Letters ids H i (send_each n r to)
  unfolding send_each
  send_each-Letters n r [] e l = l
  send_each-Letters n r (who ∷ to) e l =
      send_each-Letters (send n who (request_vote_request r)) r to e
        (send-Letters n who (request_vote_request r) e l)

  pub send_request_vote_to_all-Letters :
      (n : Node T) → Letters ids H i n → Letters ids H i (send_request_vote_to_all n)
  unfolding send_request_vote_to_all
  send_request_vote_to_all-Letters n l = send_each-Letters n _ n.channels l.own l

  pub send_append_entries_to_all-Letters :
      (heartbeat : Bool) (n : Node T)
      → Letters ids H i n
      → Ensures (Letters ids H i) (send_append_entries_to_all heartbeat n)
  send_append_entries_to_all-Letters heartbeat n l =
      send_append_entries_to_all-Keeps (Letters ids H i)
        (λ m who req. send-Letters m who (append_entries_request req) tt) heartbeat n l
