-- ===== src/Consensus/Frame.antt =====
-- What sending leaves alone: all of the node but its queues of messages and what it has sent.
use to_ftds.Base.{
  ℕ, ◌≡◌, refl, Bool, true, false, ◌||◌, List, [], ◌∷◌, Option, none, some, inl, inr, arith, leb,
  ◌==◌, if◌then◌else◌, Bool-cases, Outcome, ok, fault, Ensures, for_each-Ensures, for_each-Keeps,
  need, ◌>>=◌, contains, Fault,
}
use to_ftds.Consensus.State.{LeaderState}
use to_ftds.Consensus.Message.{
  Message, append_entries_request, append_entries_response, request_vote_request,
  request_vote_response, RequestVoteRequest, AppendEntriesRequest,
}
use to_ftds.Consensus.Node.{Node, add_message, send, get_last_log_index}
use to_ftds.Consensus.Node.Roles.{
  is_leader, next_index_of, build_append_entries, send_entries, send_append_entries_to_someone,
  send_append_entries_to_all, send_each, send_request_vote_to_all,
}

-- The two nodes differ at most in their queues of incoming messages and in what they have sent.
pub record SendsOnly {T : Type 0} (n m : Node T) : Type 0 where
  pub tick_number : m.tick_number ≡ n.tick_number
  pub election_timeout : m.election_timeout ≡ n.election_timeout
  pub state : m.state ≡ n.state
  pub role : m.role ≡ n.role
  pub leader_state : m.leader_state ≡ n.leader_state
  pub candidate_state : m.candidate_state ≡ n.candidate_state
  pub my_id : m.my_id ≡ n.my_id
  pub channels : m.channels ≡ n.channels
  pub total_nodes : m.total_nodes ≡ n.total_nodes
  pub incoming_commands : m.incoming_commands ≡ n.incoming_commands
  pub get_persistent_commands_reqs : m.get_persistent_commands_reqs ≡ n.get_persistent_commands_reqs
  pub items_to_response : m.items_to_response ≡ n.items_to_response
  pub next_promise : m.next_promise ≡ n.next_promise
  pub command_results : m.command_results ≡ n.command_results
  pub read_results : m.read_results ≡ n.read_results

module _ {T : Type 0} where
  pub SendsOnly-refl : (n : Node T) → SendsOnly n n
  SendsOnly-refl n = ground arith

  pub SendsOnly-trans : {a b c : Node T} → SendsOnly a b → SendsOnly b c → SendsOnly a c
  SendsOnly-trans p q = ground arith

  pub add_message-SendsOnly :
      (n : Node T) (id : ℕ) (msg : Message) → SendsOnly n (add_message n id msg)
  unfolding add_message
  add_message-SendsOnly n id (append_entries_request m) = ground arith
  add_message-SendsOnly n id (append_entries_response m) = ground arith
  add_message-SendsOnly n id (request_vote_request m) = ground arith
  add_message-SendsOnly n id (request_vote_response m) = ground arith

  pub send-SendsOnly : (n : Node T) (who : ℕ) (msg : Message) → SendsOnly n (send n who msg)
  unfolding send
  send-SendsOnly n who msg = elim (Bool-cases (who == n.my_id)) [
    | inl self ↦ rw self (add_message-SendsOnly n n.my_id msg)
    | inr other ↦ rw other (record {
      tick_number = refl;
      election_timeout = refl;
      state = refl;
      role = refl;
      leader_state = refl;
      candidate_state = refl;
      my_id = refl;
      channels = refl;
      total_nodes = refl;
      incoming_commands = refl;
      get_persistent_commands_reqs = refl;
      items_to_response = refl;
      next_promise = refl;
      command_results = refl;
      read_results = refl;
    })
  ]

  pub send_each-SendsOnly :
      (n : Node T) (r : RequestVoteRequest) (ids : List ℕ) → SendsOnly n (send_each n r ids)
  unfolding send_each
  send_each-SendsOnly n r [] = SendsOnly-refl n
  send_each-SendsOnly n r (id ∷ ids) =
      SendsOnly-trans (send-SendsOnly n id (request_vote_request r))
        (send_each-SendsOnly (send n id (request_vote_request r)) r ids)

  pub send_request_vote_to_all-SendsOnly : (n : Node T) → SendsOnly n (send_request_vote_to_all n)
  unfolding send_request_vote_to_all
  send_request_vote_to_all-SendsOnly n = send_each-SendsOnly n _ n.channels

  send_entries-SendsOnly :
      (heartbeat : Bool) (n : Node T) (id : ℕ) (ls : LeaderState)
      → Ensures (SendsOnly n) (send_entries heartbeat n id ls)
  unfolding send_entries
  send_entries-SendsOnly heartbeat n id ls =
      elim (Bool-cases (leb (next_index_of ls id) (get_last_log_index n) || heartbeat)) [
        | inl sends ↦ rw sends (sent (build_append_entries n ls id))
        | inr quiet ↦ rw quiet (SendsOnly-refl n)
      ]
    where
      sent :
          (r : Outcome AppendEntriesRequest)
          → Ensures (SendsOnly n) (r >>= λ q. ok (send n id (append_entries_request q)))
      sent (ok q) = send-SendsOnly n id (append_entries_request q)
      sent (fault e) = tt

  send_to_someone-SendsOnly :
      (heartbeat : Bool) (n : Node T) (id : ℕ)
      → Ensures (SendsOnly n) (send_append_entries_to_someone heartbeat n id)
  unfolding send_append_entries_to_someone
  send_to_someone-SendsOnly heartbeat n id =
      on_role (is_leader n.role) (contains id n.channels) n.leader_state
    where
      on_role :
          (lead known : Bool) (ls : Option LeaderState)
          → Ensures (SendsOnly n) (
              if lead
              then (if known
                  then (need ls >>= send_entries heartbeat n id)
                  else fault Fault.out_of_range)
              else ok n)
      on_role false known ls = SendsOnly-refl n
      on_role true false ls = tt
      on_role true true none = tt
      on_role true true (some ls) = send_entries-SendsOnly heartbeat n id ls

pub send_append_entries_to_all-SendsOnly :
    {T : Type 0} (heartbeat : Bool) (n : Node T)
    → Ensures (SendsOnly n) (send_append_entries_to_all heartbeat n)
unfolding send_append_entries_to_all
send_append_entries_to_all-SendsOnly heartbeat n =
    for_each-Ensures SendsOnly (send_append_entries_to_someone heartbeat) SendsOnly-refl
      (λ a b c. SendsOnly-trans) (send_to_someone-SendsOnly heartbeat) n n.channels

-- What each request to append keeps, all of them keep.
module _ {T : Type 0} (I : Node T → Type 0)
    (each : (n : Node T) (who : ℕ) (req : AppendEntriesRequest)
      → I n
      → I (send n who (append_entries_request req))) where
  send_entries-Keeps :
      (heartbeat : Bool) (n : Node T) (id : ℕ) (ls : LeaderState)
      → I n
      → Ensures I (send_entries heartbeat n id ls)
  unfolding send_entries
  send_entries-Keeps heartbeat n id ls h =
      elim (Bool-cases (leb (next_index_of ls id) (get_last_log_index n) || heartbeat)) [
        | inr quiet ↦ rw (quiet, Ensures) h
        | inl sends ↦ rw sends (built (build_append_entries n ls id))
      ]
    where
      built :
          (r : Outcome AppendEntriesRequest)
          → Ensures I (r >>= λ req. ok (send n id (append_entries_request req)))
      built (ok req) = each n id req h
      built (fault e) = tt

  send_to_someone-Keeps :
      (heartbeat : Bool) (n : Node T) (id : ℕ)
      → I n
      → Ensures I (send_append_entries_to_someone heartbeat n id)
  unfolding send_append_entries_to_someone
  send_to_someone-Keeps heartbeat n id h = elim (Bool-cases (is_leader n.role)) [
    | inr other ↦ rw (other, Ensures) h
    | inl leads ↦ rw leads (elim (Bool-cases (contains id n.channels)) [
      | inr unknown ↦ rw (unknown, Ensures) tt
      | inl known ↦ rw known (reads n.leader_state)
    ])
  ]
    where
      reads : (o : Option LeaderState) → Ensures I (need o >>= send_entries heartbeat n id)
      reads none = tt
      reads (some ls) = send_entries-Keeps heartbeat n id ls h

  pub send_append_entries_to_all-Keeps :
      (heartbeat : Bool) (n : Node T) → I n → Ensures I (send_append_entries_to_all heartbeat n)
  unfolding send_append_entries_to_all
  send_append_entries_to_all-Keeps heartbeat n h =
      for_each-Keeps I (send_append_entries_to_someone heartbeat)
        (λ m id k. send_to_someone-Keeps heartbeat m id k) n n.channels h
