-- ===== src/Consensus/Wellformed.antt =====
-- hw2/src/consensus/node.cpp: what the handlers keep of a node: the state that belongs to its role, a log
-- with an item, and its channels.
pub mod Messages
pub mod Keeps
pub mod Ticks
pub mod Steps
use to_ftds.Base.{
  ℕ, suc, ◌+◌, ◌-◌, ◌≤◌, ◌≡◌, ◌≢◌, refl, sym, ap, ◌∙◌, inl, inr, Bool, true, false, ◌&&◌, ◌==◌,
  if◌then◌else◌, ltb, List, [], ◌∷◌, ◌++◌, Option, none, some, arith, length, length-append,
  length-take, get_elem?, take, Bool-cases, Option-cases, Outcome, ok, Ensures, Ensures-map,
  >>=-Ensures, need,
}
use to_ftds.Timeout.{ITimeout}
use to_ftds.Consensus.State.{
  State, Log, LogItem, NodeState, leader, follower, candidate, LeaderState, CandidateState, item_eq,
}
use to_ftds.Consensus.Message.{AppendEntriesRequest, RequestVoteRequest}
use to_ftds.Consensus.Node.{
  Node, get_log, get_commit_index, get_voted_for, get_current_term, set_current_term,
}
use to_ftds.Consensus.Node.Roles.{become_follower, reset_election_timer, is_leader}
use to_ftds.Consensus.Node.Requests.{
  put_entry, put_entries, observe_term, redirect_commands, check_prev, accept_entries,
  answer_append_entries, answer_vote, may_vote, is_up_to_date, handle_append_entries_request,
  handle_request_vote_request,
}
use to_ftds.Consensus.Frame.{SendsOnly}
use to_ftds.Consensus.Quiet.{Quiet}
use to_ftds.Consensus.Replication.{redirect_lem}

-- The state for the role is there and no other, and a candidate has voted for itself.
abbrev pub RoleState :
    NodeState → Option LeaderState → Option CandidateState → Option ℕ → ℕ → Type 0
RoleState leader ls cs vote my_id = (ls ≢ none) × (cs ≡ none)
RoleState candidate ls cs vote my_id = (ls ≡ none) × (cs ≢ none) × (vote ≡ some my_id)
RoleState follower ls cs vote my_id = (ls ≡ none) × (cs ≡ none)

abbrev pub RoleStateOf : {T : Type 0} → Node T → Type 0
RoleStateOf n = RoleState n.role n.leader_state n.candidate_state (get_voted_for n) n.my_id

pub record Wellformed {T : Type 0} (channels : List ℕ) (n : Node T) : Type 0 where
  pub has_state : RoleStateOf n
  pub has_item : 1 ≤ length (get_log n)
  pub same_channels : n.channels ≡ channels

module _ {T : Type 0} (channels : List ℕ) where
  pub Wellformed-same :
      (n m : Node T)
      → m.role ≡ n.role
      → m.leader_state ≡ n.leader_state
      → m.candidate_state ≡ n.candidate_state
      → get_voted_for m ≡ get_voted_for n
      → m.my_id ≡ n.my_id
      → m.channels ≡ n.channels
      → 1 ≤ length (get_log m)
      → Wellformed channels n
      → Wellformed channels m
  Wellformed-same n m role ls cs vote id chans some_item w = record {
    has_state = rw (role, ls, cs, vote, id) w.has_state;
    has_item = some_item;
    same_channels = chans ∙ w.same_channels;
  }

  pub SendsOnly-Wellformed :
      (n m : Node T) → SendsOnly n m → Wellformed channels n → Wellformed channels m
  SendsOnly-Wellformed n m s w =
      Wellformed-same n m s.role s.leader_state s.candidate_state
        (ap (λ (x : State). x.persistent_state.voted_for) s.state) s.my_id s.channels
        (rw s.state w.has_item) w

  pub Quiet-Wellformed : (n m : Node T) → Quiet n m → Wellformed channels n → Wellformed channels m
  Quiet-Wellformed n m q w =
      Wellformed-same n m q.role q.leader_state q.candidate_state q.vote q.my_id q.channels
        (omega (arith, q.grows, w.has_item)) w

put_entry-item : (log : Log) (i : ℕ) (e : LogItem) → 1 ≤ length log → 1 ≤ length (put_entry log i e)
unfolding put_entry
put_entry-item log i e some_item =
    ground (arith, length-append log (e ∷ []), length-append (take i log) (e ∷ []))

put_entries-item :
    (log : Log) (i : ℕ) (es : Log) → 1 ≤ length log → 1 ≤ length (put_entries log i es)
unfolding put_entries
put_entries-item log i [] some_item = some_item
put_entries-item log i (e ∷ es) some_item =
    put_entries-item (put_entry log i e) (suc i) es (put_entry-item log i e some_item)

module _ {T : Type 0} ⦃timer : ITimeout T⦄ (channels : List ℕ) where
  pub observe_term-Wellformed :
      (n : Node T) (t : ℕ) → Wellformed channels n → Wellformed channels (observe_term n t)
  unfolding observe_term become_follower reset_election_timer
  observe_term-Wellformed n t w = elim (Bool-cases (ltb (get_current_term n) t)) [
    | inl newer ↦ rw newer (record {
      has_state = (refl, refl);
      has_item = w.has_item;
      same_channels = w.same_channels;
    })
    | inr known ↦ rw known w
  ]

and-left : (a b : Bool) → (a && b) ≡ true → a ≡ true
and-left a b e = ground arith

-- A candidate goes on to vote for itself.
vote-RoleState :
    (role : NodeState) (ls : Option LeaderState) (cs : Option CandidateState) (vote : Option ℕ)
    (my_id v : ℕ)
    → RoleState role ls cs vote my_id
    → elim vote [ none ↦ true | some w ↦ w == v ] ≡ true
    → RoleState role ls cs (some v) my_id
vote-RoleState leader ls cs vote my_id v s free = s
vote-RoleState follower ls cs vote my_id v s free = s
vote-RoleState candidate ls cs vote my_id v (no_ls, some_cs, own) free =
    (no_ls, some_cs, ground (arith, free, own))

module _ {T : Type 0} (channels : List ℕ) where
  redirect_commands-Wellformed :
      (n : Node T) (l : ℕ) → Wellformed channels n → Wellformed channels (redirect_commands n l)
  unfolding redirect_commands
  redirect_commands-Wellformed n l w = elim (Bool-cases (is_leader n.role)) [
    | inl leads ↦ rw leads w
    | inr other ↦
        rw (other, redirect_lem (record n { incoming_commands = [] }) l n.incoming_commands)
          (Wellformed-same channels n _ refl refl refl refl refl refl w.has_item w)
  ]

  accept_entries-Wellformed :
      (n : Node T) (req : AppendEntriesRequest)
      → Wellformed channels n
      → Wellformed channels (accept_entries n req).0
  unfolding accept_entries
  accept_entries-Wellformed n req w =
      let some_item =
        put_entries-item (get_log n) (suc req.prev_log_index) req.entries w.has_item in
      elim (Bool-cases (ltb (get_commit_index n) req.leader_commit)) [
        | inl ahead ↦
            rw ahead (Wellformed-same channels n _ refl refl refl refl refl refl some_item w)
        | inr known ↦
            rw known (Wellformed-same channels n _ refl refl refl refl refl refl some_item w)
      ]

  check_prev-Wellformed :
      (n : Node T) (req : AppendEntriesRequest) (found : Option LogItem)
      → Wellformed channels n
      → Wellformed channels (check_prev n req found).0
  unfolding check_prev
  check_prev-Wellformed n req none w = w
  check_prev-Wellformed n req (some prev) w =
      elim (Bool-cases (prev.leader_term == req.prev_log_term)) [
        | inl agrees ↦ rw agrees (accept_entries-Wellformed n req w)
        | inr other ↦ rw other w
      ]

  answer_append_entries-Wellformed :
      (n : Node T) (req : AppendEntriesRequest)
      → Wellformed channels n
      → Wellformed channels (answer_append_entries n req).0
  unfolding answer_append_entries
  answer_append_entries-Wellformed n req w =
      elim (Bool-cases (ltb req.leader_term (get_current_term n))) [
        | inl stale ↦ rw stale w
        | inr current ↦ rw current (
            check_prev-Wellformed (redirect_commands n req.leader_id) req _
              (redirect_commands-Wellformed n req.leader_id w))
      ]

  answer_vote-Wellformed :
      (n : Node T) (req : RequestVoteRequest)
      → Wellformed channels n
      → Wellformed channels (answer_vote n req).0
  unfolding answer_vote
  answer_vote-Wellformed n req w = elim (Bool-cases (ltb req.candidate_term (get_current_term n))) [
    | inl stale ↦ rw stale w
    | inr current ↦ rw current (elim (Bool-cases (may_vote n req && is_up_to_date n req)) [
      | inl grants ↦ rw grants (record {
        has_state =
            vote-RoleState n.role n.leader_state n.candidate_state (get_voted_for n) n.my_id
              req.candidate_id w.has_state (and-left (may_vote n req) _ grants);
        has_item = w.has_item;
        same_channels = w.same_channels;
      })
      | inr refuses ↦ rw refuses w
    ])
  ]

module _ {T : Type 0} ⦃timer : ITimeout T⦄ (channels : List ℕ) where
  pub handle_append_entries_request-Wellformed :
      (n : Node T) (req : AppendEntriesRequest)
      → Wellformed channels n
      → Wellformed channels (handle_append_entries_request n req).0
  unfolding handle_append_entries_request reset_election_timer
  handle_append_entries_request-Wellformed n req w =
      let seen = observe_term-Wellformed channels n req.leader_term w in
      answer_append_entries-Wellformed channels
        (reset_election_timer (observe_term n req.leader_term)) req
        (Wellformed-same channels (observe_term n req.leader_term) _ refl refl refl refl refl refl
          seen.has_item seen)

  pub handle_request_vote_request-Wellformed :
      (n : Node T) (req : RequestVoteRequest)
      → Wellformed channels n
      → Wellformed channels (handle_request_vote_request n req).0
  unfolding handle_request_vote_request
  handle_request_vote_request-Wellformed n req w =
      answer_vote-Wellformed channels (observe_term n req.candidate_term) req
        (observe_term-Wellformed channels n req.candidate_term w)
