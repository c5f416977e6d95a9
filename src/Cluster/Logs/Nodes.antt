-- ===== src/Cluster/Logs/Nodes.antt =====
-- hw2/src/consensus/node.cpp: what a node keeps of the logs of a cluster.
use to_ftds.Base.{
  ℕ, ◌≤◌, ◌<◌, ◌^◌, ◌≡◌, ◌≢◌, refl, ap, inl, inr, Bool-cases, List, some, length, ◌==◌, All, arith,
}
use to_ftds.Consensus.State.{State, leader, LeaderState, CandidateState}
use to_ftds.Consensus.Message.{
  Message, AppendEntriesRequest, append_entries_request, append_entries_response,
  request_vote_request, request_vote_response,
}
use to_ftds.Consensus.Node.{Node, get_current_term, get_log, add_message, send}
use to_ftds.Consensus.Node.Roles.{next_index_of}
use to_ftds.Consensus.Mail.{All-snoc}
use to_ftds.Consensus.Frame.{SendsOnly}
use to_ftds.Cluster.Ballots.{History, Won}
use to_ftds.Cluster.Ballots.Requests.{StillLeads}
use to_ftds.Cluster.Logs.{Book, Matches, Taken}

-- The book of a cluster: who has led has won, a log is of a term that some node has led in, but for that of
-- the start, and the logs match each other.
pub record Filed (ids : List ℕ) (H : History) (B : Book) : Type 0 where
  pub won : (t j : ℕ) → B.led t j → Won ids H j t
  pub made : (t : ℕ) → t ≢ 0 → 1 ≤ length (B.logs t) → (j : ℕ) × B.led t j
  pub matches : (t : ℕ) → Matches B (B.logs t)

-- A request to append that is sent was taken from a log of the book.
abbrev pub Copied : Book → Message → Type 0
Copied B (append_entries_request req) = Taken B req
Copied B (append_entries_response resp) = Unit
Copied B (request_vote_request req) = Unit
Copied B (request_vote_response resp) = Unit

pub record Keeps {T : Type 0} (B : Book) (i : ℕ) (n : Node T) : Type 0 where
  pub led :
      (t : ℕ) → B.led t i → (t ≤ get_current_term n) × (t ≡ get_current_term n → n.role ≡ leader)
  pub leads :
      n.role ≡ leader → (B.logs (get_current_term n) ≡ get_log n) × B.led (get_current_term n) i
  pub log : Matches B (get_log n)
  pub next : (ls : LeaderState) → n.leader_state ≡ some ls → (id : ℕ) → next_index_of ls id < 2 ^ 64
  pub candidate : (cs : CandidateState) → n.candidate_state ≡ some cs → 1 ≤ get_current_term n
  pub waiting :
      All (λ (x : ℕ × AppendEntriesRequest). Taken B x.1) n.incoming_append_entries_requests
  pub sent : All (λ (x : ℕ × Message). Copied B x.1) n.sent

-- The log is not near the end of 32 bits.
abbrev pub Short : {T : Type 0} → Node T → Type 0
Short n = length (get_log n) ≤ 2 ^ 32

abbrev pub Holds : {T : Type 0} → Book → ℕ → Node T → Type 0
Holds B i n = Keeps B i n × Short n

module _ {T : Type 0} (B : Book) (i : ℕ) where
  -- The log and the messages stay, and the role and the term change as of a node that observes a term.
  pub Keeps-frame :
      (n m : Node T)
      → get_current_term n ≤ get_current_term m
      → (get_current_term m ≡ get_current_term n → n.role ≡ leader → m.role ≡ leader)
      → StillLeads n m
      → get_log m ≡ get_log n
      → ((ls : LeaderState) → m.leader_state ≡ some ls → n.leader_state ≡ some ls)
      → ((cs : CandidateState) → m.candidate_state ≡ some cs → 1 ≤ get_current_term m)
      → m.incoming_append_entries_requests ≡ n.incoming_append_entries_requests
      → m.sent ≡ n.sent
      → Keeps B i n
      → Keeps B i m
  Keeps-frame n m later lead still log ls cs q s k = record {
    led = λ t h.
        let (below, now) = k.led t h in
        (
          omega (arith, below, later),
          λ e. lead (omega (arith, below, later, e)) (now (omega (arith, below, later, e))),
        );
    leads = λ e. let (e', t) = still e in rw (t, log) (k.leads e');
    log = rw log k.log;
    next = λ l e. k.next l (ls l e);
    candidate = cs;
    waiting = rw q k.waiting;
    sent = rw s k.sent;
  }

  pub Keeps-same :
      (n m : Node T)
      → get_current_term m ≡ get_current_term n
      → m.role ≡ n.role
      → get_log m ≡ get_log n
      → m.leader_state ≡ n.leader_state
      → m.candidate_state ≡ n.candidate_state
      → m.incoming_append_entries_requests ≡ n.incoming_append_entries_requests
      → m.sent ≡ n.sent
      → Keeps B i n
      → Keeps B i m
  Keeps-same n m t r l ls cs q s k = record {
    led = rw (t, r) k.led;
    leads = rw (t, r, l) k.leads;
    log = rw l k.log;
    next = rw ls k.next;
    candidate = rw (cs, t) k.candidate;
    waiting = rw q k.waiting;
    sent = rw s k.sent;
  }

  pub add_message-Keeps :
      (n : Node T) (who : ℕ) (msg : Message)
      → Copied B msg
      → Keeps B i n
      → Keeps B i (add_message n who msg)
  unfolding add_message
  add_message-Keeps n who (append_entries_request m) c k = record {
    led = k.led;
    leads = k.leads;
    log = k.log;
    next = k.next;
    candidate = k.candidate;
    waiting =
        All-snoc (λ (x : ℕ × AppendEntriesRequest). Taken B x.1) n.incoming_append_entries_requests
          (who, m) k.waiting c;
    sent = k.sent;
  }
  add_message-Keeps n who (append_entries_response m) c k =
      Keeps-same n _ refl refl refl refl refl refl refl k
  add_message-Keeps n who (request_vote_request m) c k =
      Keeps-same n _ refl refl refl refl refl refl refl k
  add_message-Keeps n who (request_vote_response m) c k =
      Keeps-same n _ refl refl refl refl refl refl refl k

  pub send-Keeps :
      (n : Node T) (who : ℕ) (msg : Message)
      → Copied B msg
      → Keeps B i n
      → Keeps B i (send n who msg)
  unfolding send
  send-Keeps n who msg c k = elim (Bool-cases (who == n.my_id)) [
    | inl self ↦ rw self (add_message-Keeps n n.my_id msg c k)
    | inr other ↦ rw other (record {
      led = k.led;
      leads = k.leads;
      log = k.log;
      next = k.next;
      candidate = k.candidate;
      waiting = k.waiting;
      sent = All-snoc (λ (x : ℕ × Message). Copied B x.1) n.sent (who, msg) k.sent c;
    })
  ]

  pub SendsOnly-Short : (n m : Node T) → SendsOnly n m → Short n → Short m
  SendsOnly-Short n m s h =
      omega (arith, h, ap (λ (x : State). length x.persistent_state.log) s.state)
