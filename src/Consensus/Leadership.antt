-- ===== src/Consensus/Leadership.antt =====
-- hw2/src/consensus/node.cpp: `BecomeLeader` and the requests it sends.
use to_ftds.Base.{
  ℕ, suc, ◌+◌, ◌-◌, ◌^◌, ◌≤◌, ◌≡◌, refl, ◌∙◌, Bool, true, ◌||◌, inl, inr, List, [], ◌∷◌, none, some,
  arith, leb, u64, if◌then◌else◌, Bool-cases, ok, Returns, All, for_each-Returns, length,
  get_elem?-lt, contains, lookup, insert, lookup-insert, nat_key,
}
use to_ftds.Consensus.State.{leader, LeaderState}
use to_ftds.Consensus.Message.{AppendEntriesRequest, append_entries_request}
use to_ftds.Consensus.Node.{Node, get_log, get_last_log_index, set_voted_for}
use to_ftds.Consensus.Node.Roles.{
  next_index_of, build_append_entries, send_entries, send_append_entries_to_someone,
  send_append_entries_to_all, fresh_leader_state, become_leader,
}
use to_ftds.Consensus.Frame.{SendsOnly, SendsOnly-refl, SendsOnly-trans, send-SendsOnly}

-- Both maps have an entry for each channel, and for no other node.
pub fresh_leader_state-next :
    (next : ℕ) (ls : LeaderState) (ids : List ℕ) (id : ℕ)
    → lookup id (fresh_leader_state next ls ids).next_index
      ≡ (if contains id ids then some next else lookup id ls.next_index)
unfolding fresh_leader_state
fresh_leader_state-next next ls [] id = refl
fresh_leader_state-next next ls (j ∷ ids) id = ground (
  arith,
  fresh_leader_state-next next
      (record { next_index = insert j next ls.next_index; match_index = insert j 0 ls.match_index })
      ids id,
  lookup-insert j id next ls.next_index,
)

pub fresh_leader_state-next_index_of :
    (next : ℕ) (ls : LeaderState) (ids : List ℕ) (id : ℕ)
    → contains id ids ≡ true
    → next_index_of (fresh_leader_state next ls ids) id ≡ next
fresh_leader_state-next_index_of next ls ids id known =
    ground (arith, fresh_leader_state-next next ls ids id)

-- The leader can send to every channel: each `next_index` lies from 1 to the end of the log.
pub record CanSend {T : Type 0} (n : Node T) : Type 0 where
  pub leads : n.role ≡ leader
  pub ls : LeaderState
  pub has_state : n.leader_state ≡ some ls
  pub in_log :
      (id : ℕ)
      → contains id n.channels ≡ true
      → (1 ≤ next_index_of ls id) × (next_index_of ls id ≤ length (get_log n))

pub All-Among :
    (ids all : List ℕ)
    → ((id : ℕ) → contains id ids ≡ true → contains id all ≡ true)
    → All (λ id. contains id all ≡ true) ids
All-Among [] all h = tt
All-Among (j ∷ ids) all h = (h j (ground arith), All-Among ids all (λ id k. h id (ground arith)))

module _ {T : Type 0} where
  build-Returns :
      (n : Node T) (ls : LeaderState) (id : ℕ)
      → 1 ≤ next_index_of ls id
      → next_index_of ls id ≤ length (get_log n)
      → (r : AppendEntriesRequest) × (build_append_entries n ls id ≡ ok r)
  unfolding build_append_entries
  build-Returns n ls id low high =
      let (prev, e) =
        get_elem?-lt (get_log n) (u64 (next_index_of ls id + 2 ^ 64 - 1)) (omega arith) in
      rw e (_, refl)

  send_entries-Returns :
      (heartbeat : Bool) (n : Node T) (ls : LeaderState) (id : ℕ)
      → 1 ≤ next_index_of ls id
      → next_index_of ls id ≤ length (get_log n)
      → Returns (SendsOnly n) (send_entries heartbeat n id ls)
  unfolding send_entries
  send_entries-Returns heartbeat n ls id low high =
      elim (Bool-cases (leb (next_index_of ls id) (get_last_log_index n) || heartbeat)) [
        | inl sends ↦
            let (r, e) = build-Returns n ls id low high in
            rw (sends, e) (_, refl, send-SendsOnly n id (append_entries_request r))
        | inr quiet ↦ rw quiet (n, refl, SendsOnly-refl n)
      ]

  send_to_someone-Returns :
      (heartbeat : Bool) (n : Node T) (id : ℕ)
      → CanSend n
      → contains id n.channels ≡ true
      → Returns (SendsOnly n) (send_append_entries_to_someone heartbeat n id)
  unfolding send_append_entries_to_someone
  send_to_someone-Returns heartbeat n id c known =
      simp (c.leads, known, c.has_state)
        (send_entries-Returns heartbeat n c.ls id (c.in_log id known).0 (c.in_log id known).1)

  pub SendsOnly-CanSend : (n m : Node T) → SendsOnly n m → CanSend n → CanSend m
  SendsOnly-CanSend n m s c = record {
    leads = s.role ∙ c.leads;
    ls = c.ls;
    has_state = s.leader_state ∙ c.has_state;
    in_log = rw (s.channels, s.state) c.in_log;
  }

  pub send_append_entries_to_all-Returns :
      (heartbeat : Bool) (n : Node T)
      → CanSend n
      → Returns (λ m. SendsOnly n m × CanSend m) (send_append_entries_to_all heartbeat n)
  unfolding send_append_entries_to_all
  send_append_entries_to_all-Returns heartbeat n c =
      for_each-Returns (λ m. SendsOnly n m × CanSend m) (λ id. contains id n.channels ≡ true)
        (send_append_entries_to_someone heartbeat)
        (λ m id h known.
          let (k, e, s) = send_to_someone-Returns heartbeat m id h.1 (rw h.0.channels known) in
          (k, e, (SendsOnly-trans h.0 s, SendsOnly-CanSend m k s h.1)))
        n n.channels (SendsOnly-refl n, c) (All-Among n.channels n.channels (λ id known. known))

  -- The node as `BecomeLeader` sets it up, before it sends.
  abbrev pub crowned : Node T → Node T
  crowned n = record (set_voted_for n none) {
    candidate_state = none;
    role = leader;
    leader_state = some (
        fresh_leader_state (suc (get_last_log_index n))
          (record { next_index = []; match_index = [] }) n.channels);
  }

  pub crowned-CanSend : (n : Node T) → 1 ≤ length (get_log n) → CanSend (crowned n)
  crowned-CanSend n some_item = record {
    leads = refl;
    ls = fresh_leader_state (suc (get_last_log_index n)) none_yet n.channels;
    has_state = refl;
    in_log = λ id known.
        let e =
          fresh_leader_state-next_index_of (suc (get_last_log_index n)) none_yet n.channels id
            known in
        (omega (arith, e), omega (arith, e));
  }
    where
      none_yet : LeaderState
      none_yet = record { next_index = []; match_index = [] }

  -- BecomeLeader of a node whose log is not empty returns: every send reads the log in range, no
  -- field but the queues of incoming messages and what was sent changes after the leader's state
  -- is set up, and the node can go on to send.
  pub become_leader-Returns :
      (n : Node T)
      → 1 ≤ length (get_log n)
      → Returns (λ m. SendsOnly (crowned n) m × CanSend m) (become_leader n)
  unfolding become_leader
  become_leader-Returns n some_item =
      send_append_entries_to_all-Returns true (crowned n) (crowned-CanSend n some_item)
