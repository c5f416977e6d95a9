-- ===== src/Consensus/Heartbeats.antt =====
-- hw2/src/consensus/node.cpp: the requests with which `BecomeLeader` announces the new leader.
use to_ftds.Base.{
  ℕ, zero, suc, ◌+◌, ◌-◌, ◌^◌, ◌≤◌, ◌≡◌, refl, sym, ◌∙◌, ap, true, inl, inr, List, [], ◌∷◌, ◌++◌,
  append_assoc, append-nil, some, arith, leb, u64, ◌==◌, if◌then◌else◌, Bool-cases, ok, Returns,
  All, for_each, length, get_elem?, drop, contains,
}
use to_ftds.Consensus.State.{LeaderState, LogItem, Log, State}
use to_ftds.Consensus.Message.{Message, AppendEntriesRequest, append_entries_request}
use to_ftds.Consensus.Node.{
  Node, last_term, get_log, get_current_term, get_commit_index, get_last_log_index,
  get_last_log_term, send, add_message,
}
use to_ftds.Consensus.Node.Roles.{
  is_leader, next_index_of, build_append_entries, send_entries, send_append_entries_to_someone,
  send_append_entries_to_all, fresh_leader_state, become_leader,
}
use to_ftds.Consensus.Frame.{SendsOnly, SendsOnly-refl, SendsOnly-trans, send-SendsOnly}
use to_ftds.Consensus.Leadership.{
  CanSend, crowned, crowned-CanSend, SendsOnly-CanSend, All-Among, fresh_leader_state-next_index_of,
}

last_item :
    (log : Log)
    → 1 ≤ length log
    → (x : LogItem) × (get_elem? log (length log - 1) ≡ some x) × (x.leader_term ≡ last_term log)
last_item [] h = absurd (omega arith)
last_item (x ∷ []) h = (x, refl, refl)
last_item (x ∷ y ∷ log) h =
    let (z, at, term) = last_item (y ∷ log) (omega arith) in
    let later : length (x ∷ y ∷ log) - 1 ≡ suc (length (y ∷ log) - 1) = omega arith in
    (z, rw later at, term)

drop_all : (n : ℕ) (log : Log) → length log ≤ n → drop n log ≡ []
drop_all zero [] h = refl
drop_all zero (x ∷ log) h = absurd (omega arith)
drop_all (suc n) [] h = refl
drop_all (suc n) (x ∷ log) h = drop_all n log (omega arith)

module _ {T : Type 0} where
  -- A request without entries, at the end of the log.
  abbrev pub heartbeat : Node T → AppendEntriesRequest
  heartbeat n = record {
    leader_term = get_current_term n;
    leader_id = n.my_id;
    prev_log_index = get_last_log_index n;
    prev_log_term = get_last_log_term n;
    entries = [];
    leader_commit = get_commit_index n;
  }

  -- One for each of the channels but those to the node itself.
  abbrev pub heartbeats : Node T → List ℕ → List (ℕ × Message)
  heartbeats n [] = []
  heartbeats n (id ∷ ids) =
      if id == n.my_id
      then heartbeats n ids
      else (id, append_entries_request (heartbeat n)) ∷ heartbeats n ids

  build-heartbeat :
      (n : Node T) (ls : LeaderState) (id : ℕ)
      → 1 ≤ length (get_log n)
      → length (get_log n) ≤ 2 ^ 64
      → next_index_of ls id ≡ suc (get_last_log_index n)
      → build_append_entries n ls id ≡ ok (heartbeat n)
  unfolding build_append_entries
  build-heartbeat n ls id some_item fits next =
      let (x, at, term) = last_item (get_log n) some_item in
      let before : u64 (suc (get_last_log_index n) + 2 ^ 64 - 1) ≡ get_last_log_index n =
        omega arith in
      let past = drop_all (suc (get_last_log_index n)) (get_log n) (omega arith) in
      rw (next, before, at, past, term) refl

  to_someone-leads :
      (m : Node T) (id : ℕ) (ls : LeaderState)
      → is_leader m.role ≡ true
      → contains id m.channels ≡ true
      → m.leader_state ≡ some ls
      → send_append_entries_to_someone true m id ≡ send_entries true m id ls
  unfolding send_append_entries_to_someone
  to_someone-leads m id ls leads known has_state = ground arith

  announces :
      (n m : Node T) (id : ℕ)
      → 1 ≤ length (get_log n)
      → length (get_log n) ≤ 2 ^ 64
      → SendsOnly (crowned n) m
      → contains id n.channels ≡ true
      → send_append_entries_to_someone true m id
        ≡ ok (send m id (append_entries_request (heartbeat n)))
  unfolding send_entries
  announces n m id some_item fits s known =
      let next =
        fresh_leader_state-next_index_of (suc (get_last_log_index n))
          (record { next_index = []; match_index = [] }) n.channels id known in
      let same_log : get_log m ≡ get_log n = ap (λ (t : State). t.persistent_state.log) s.state in
      let same : heartbeat m ≡ heartbeat n = rw (s.state, s.my_id) refl in
      let built =
        build-heartbeat m
          (fresh_leader_state (suc (get_last_log_index n))
            (record { next_index = []; match_index = [] }) n.channels)
          id (rw same_log some_item) (rw same_log fits)
          (next ∙ ap (λ (l : Log). suc (length l - 1)) (sym same_log)) in
      to_someone-leads m id ls (rw s.role refl) (rw s.channels known) s.leader_state
      ∙ sends built
      ∙ ap (λ r. ok (send m id (append_entries_request r))) same
    where
      ls : LeaderState
      ls =
          fresh_leader_state (suc (get_last_log_index n))
            (record { next_index = []; match_index = [] }) n.channels

      sends :
          build_append_entries m ls id ≡ ok (heartbeat m)
          → send_entries true m id ls ≡ ok (send m id (append_entries_request (heartbeat m)))
      sends built = elim (Bool-cases (leb (next_index_of ls id) (get_last_log_index m))) [
        | inl more ↦ rw (more, built) refl
        | inr level ↦ rw (level, built) refl
      ]

  send-sent :
      (n m : Node T) (id : ℕ)
      → m.my_id ≡ n.my_id
      → (send m id (append_entries_request (heartbeat n))).sent ≡ m.sent ++ heartbeats n (id ∷ [])
  unfolding send add_message
  send-sent n m id e = elim (Bool-cases (id == n.my_id)) [
    | inl own ↦ rw (e, own, append-nil m.sent) refl
    | inr other ↦ rw (e, other) refl
  ]

  heartbeats-append :
      (n : Node T) (id : ℕ) (ids : List ℕ)
      → heartbeats n (id ∷ []) ++ heartbeats n ids ≡ heartbeats n (id ∷ ids)
  heartbeats-append n id ids = ground arith

  loop-heartbeats :
      (n m : Node T) (ids : List ℕ)
      → 1 ≤ length (get_log n)
      → length (get_log n) ≤ 2 ^ 64
      → SendsOnly (crowned n) m
      → All (λ id. contains id n.channels ≡ true) ids
      → Returns
          (λ k. SendsOnly (crowned n) k × (k.sent ≡ m.sent ++ heartbeats n ids))
          (for_each (send_append_entries_to_someone true) m ids)
  unfolding for_each
  loop-heartbeats n m [] some_item fits s known = (m, refl, (s, sym (append-nil m.sent)))
  loop-heartbeats n m (id ∷ ids) some_item fits s (here, later) =
      let m' = send m id (append_entries_request (heartbeat n)) in
      let (k, e, (s', sent)) =
        loop-heartbeats n m' ids some_item fits
          (SendsOnly-trans s (send-SendsOnly m id (append_entries_request (heartbeat n)))) later in
      rw (announces n m id some_item fits s here, e)
        (
          k,
          refl,
          (
            s',
            sent
                ∙ ap (λ z. z ++ heartbeats n ids) (send-sent n m id s.my_id)
                ∙ append_assoc m.sent (heartbeats n (id ∷ [])) (heartbeats n ids)
                ∙ ap (λ z. m.sent ++ z) (heartbeats-append n id ids),
          ),
        )

  -- BecomeLeader of a node whose log is not empty, and no longer than the indices reach, returns:
  -- every send reads the log in range, each channel to another node is sent one request without
  -- entries, in order and with the end of the node's log, its term and its commit index, no field
  -- but this and the queues of incoming messages changes after the leader's state is set up, and
  -- the node can go on to send.
  pub become_leader-Announces :
      (n : Node T)
      → 1 ≤ length (get_log n)
      → length (get_log n) ≤ 2 ^ 64
      → Returns
          (λ m. SendsOnly (crowned n) m × CanSend m × (m.sent ≡ n.sent ++ heartbeats n n.channels))
          (become_leader n)
  unfolding become_leader send_append_entries_to_all
  become_leader-Announces n some_item fits =
      let (m, e, (s, sent)) =
        loop-heartbeats n (crowned n) n.channels some_item fits (SendsOnly-refl (crowned n))
          (All-Among n.channels n.channels (λ id known. known)) in
      (m, e, (s, SendsOnly-CanSend (crowned n) m s (crowned-CanSend n some_item), sent))
