-- ===== src/Cluster/Logs/Growing.antt =====
-- hw2/src/consensus/node.cpp: `AddNewCommandsToLog` and `BecomeCandidate`, by the logs of a cluster.
use to_ftds.Base.{
  ℕ, suc, ◌-◌, ◌≤◌, ◌<◌, ◌^◌, ◌≡◌, refl, sym, ap, ◌∙◌, inl, inr, Bool-cases, some, List, [], ◌∷◌,
  ◌++◌, append_assoc, append-nil, length, get_elem?, get_elem?-some_lt, take, ltb, All, ◌==◌, arith,
}
use to_ftds.Timeout.{ITimeout}
use to_ftds.Consensus.State.{Command, Log, LogItem, leader}
use to_ftds.Consensus.Message.{Message, RequestVoteRequest, request_vote_request}
use to_ftds.Consensus.Node.{Node, get_current_term, get_log, send, add_message}
use to_ftds.Consensus.Node.Roles.{
  start_election, become_candidate, reset_election_timer, send_each, send_request_vote_to_all,
}
use to_ftds.Consensus.Node.Commit.{add_command_to_log, add_to_log, add_new_commands_to_log}
use to_ftds.Consensus.Node.Ticks.{check_election_timeout}
use to_ftds.Consensus.Frame.{send_request_vote_to_all-SendsOnly}
use to_ftds.Consensus.Quiet.{add_new_commands_to_log-Quiet}
use to_ftds.Consensus.Terms.Ticks.{start_election-term}
use to_ftds.Consensus.Mail.{All-snoc}
use to_ftds.Cluster.Ballots.{History, Won, All-map}
use to_ftds.Cluster.Logs.{
  Book, Matches, Grows, Matches-mono, Taken-mono, get_elem?-append_lt, take-append_le,
}
use to_ftds.Cluster.Logs.Nodes.{Filed, Copied, Keeps, Keeps-same}
use to_ftds.Cluster.Logs.Leading.{
  with_log, with_log-here, with_log-Grows, with_log-Filed, Copied-mono,
}

abbrev OfTerm : ℕ → Log → Type 0
OfTerm t = All (λ (e : LogItem). e.leader_term ≡ t)

module _ {T : Type 0} where
  add_to_log-extended :
      (t : ℕ) (n : Node T) (cs : List (Command × ℕ))
      → get_current_term n ≡ t
      → (more : Log) × OfTerm t more × (get_log (add_to_log n cs) ≡ get_log n ++ more)
  unfolding add_to_log add_command_to_log
  add_to_log-extended t n [] e = ([], tt, sym (append-nil (get_log n)))
  add_to_log-extended t n ((c, p) ∷ cs) e =
      let item : LogItem = record { command = c; leader_term = get_current_term n } in
      let (more, of_term, log) = add_to_log-extended t (add_command_to_log n (c, p)) cs e in
      (item ∷ more, (e, of_term), log ∙ append_assoc (get_log n) (item ∷ []) more)

get_elem?-OfTerm :
    (t : ℕ) (xs more : Log) (k : ℕ) (e : LogItem)
    → OfTerm t more
    → length xs ≤ k
    → get_elem? (xs ++ more) k ≡ some e
    → e.leader_term ≡ t
get_elem?-OfTerm t [] [] k e all low h = cc
get_elem?-OfTerm t [] (x ∷ more) k e all low h =
    ground (arith, all, get_elem?-OfTerm t [] more (k - 1) e all.1)
get_elem?-OfTerm t (x ∷ xs) more k e all low h =
    ground (arith, get_elem?-OfTerm t xs more (k - 1) e all)

-- A log that goes on with items of its own term.
Matches-extended :
    (B : Book) (i t : ℕ) (log more : Log)
    → Grows i B (with_log B i t (log ++ more))
    → OfTerm t more
    → Matches B log
    → Matches (with_log B i t (log ++ more)) (log ++ more)
Matches-extended B i t log more g of_term matches k e h =
    let C = with_log B i t (log ++ more) in
    elim (Bool-cases (ltb k (length log))) [
      | inl old ↦
          let before = get_elem?-append_lt log more k (ground arith) in
          let (inside, same) = Matches-mono i B C g log matches k e (sym before ∙ h) in
          (inside, take-append_le (suc k) log more (ground arith) ∙ same)
      | inr new ↦
          let own : e.leader_term ≡ t = get_elem?-OfTerm t log more k e of_term (ground arith) h in
          let here : C.logs e.leader_term ≡ log ++ more =
            ap C.logs own ∙ with_log-here B i t (log ++ more) in
          (
            omega (arith, get_elem?-some_lt (log ++ more) k e h, ap length here),
            ap (take (suc k)) (sym here),
          )
    ]

-- A book that goes on from `B`, and the node that agrees with it.
abbrev pub Continues : {T : Type 0} → List ℕ → History → Book → ℕ → Node T → Type 1
Continues ids H B i n = (C : Book) × Grows i B C × Filed ids H C × Keeps C i n

module _ {T : Type 0} where
  pub add_new_commands_to_log-Continues :
      (ids : List ℕ) (H : History) (B : Book) (i : ℕ) (n : Node T)
      → n.role ≡ leader
      → Won ids H i (get_current_term n)
      → Filed ids H B
      → Keeps B i n
      → Continues ids H B i (add_new_commands_to_log n)
  unfolding add_new_commands_to_log
  add_new_commands_to_log-Continues ids H B i n leads won filed k =
      let m = add_new_commands_to_log n in
      let q = add_new_commands_to_log-Quiet n in
      let t = get_current_term n in
      let (more, of_term, grown) =
        add_to_log-extended t (record n { incoming_commands = [] }) n.incoming_commands refl in
      let log' = get_log n ++ more in
      let longer : log' ≡ B.logs t ++ more = ap (λ l. l ++ more) (sym (k.leads leads).0) in
      let C = with_log B i t log' in
      let g = with_log-Grows B i t log' more longer in
      let matches' = Matches-extended B i t (get_log n) more g of_term k.log in
      (
        C,
        g,
        with_log-Filed ids H B i t log' more longer filed won matches',
        record {
          led = λ u h. elim h [
            | inl old ↦ rw (q.term, q.role) (k.led u old)
            | inr new ↦ (omega (arith, new.0, q.term), λ e. q.role ∙ leads)
          ];
          leads =
              λ e. (ap C.logs q.term ∙ with_log-here B i t log' ∙ sym grown, inr (q.term, refl));
          log = rw grown matches';
          next = rw q.leader_state k.next;
          candidate = rw (q.candidate_state, q.term) k.candidate;
          waiting = rw q.append_entries_requests (
              All-map _ _ n.incoming_append_entries_requests (λ x h. Taken-mono i B C g x.1 h)
                k.waiting);
          sent = rw q.sent (All-map _ _ n.sent (λ x h. Copied-mono i B C g x.1 h) k.sent);
        },
      )

module _ {T : Type 0} (B : Book) where
  -- A request for a vote leaves the requests to append alone.
  send-Copied :
      (n : Node T) (who : ℕ) (r : RequestVoteRequest)
      → All (λ (x : ℕ × Message). Copied B x.1) n.sent
      → ((send n who (request_vote_request r)).incoming_append_entries_requests
          ≡ n.incoming_append_entries_requests)
        × All (λ (x : ℕ × Message). Copied B x.1) (send n who (request_vote_request r)).sent
  unfolding send add_message
  send-Copied n who r h = elim (Bool-cases (who == n.my_id)) [
    | inl self ↦ rw self (refl, h)
    | inr other ↦ rw other (
      refl,
      All-snoc (λ (x : ℕ × Message). Copied B x.1) n.sent (who, request_vote_request r) h tt,
    )
  ]

  send_each-Copied :
      (n : Node T) (r : RequestVoteRequest) (to : List ℕ)
      → All (λ (x : ℕ × Message). Copied B x.1) n.sent
      → ((send_each n r to).incoming_append_entries_requests ≡ n.incoming_append_entries_requests)
        × All (λ (x : ℕ × Message). Copied B x.1) (send_each n r to).sent
  unfolding send_each
  send_each-Copied n r [] h = (refl, h)
  send_each-Copied n r (who ∷ to) h =
      let (queue, sent) = send-Copied n who r h in
      let (queue', sent') = send_each-Copied (send n who (request_vote_request r)) r to sent in
      (queue' ∙ queue, sent')

  pub send_request_vote_to_all-Copied :
      (n : Node T)
      → All (λ (x : ℕ × Message). Copied B x.1) n.sent
      → ((send_request_vote_to_all n).incoming_append_entries_requests
          ≡ n.incoming_append_entries_requests)
        × All (λ (x : ℕ × Message). Copied B x.1) (send_request_vote_to_all n).sent
  unfolding send_request_vote_to_all
  send_request_vote_to_all-Copied n h = send_each-Copied n _ n.channels h

module _ {T : Type 0} ⦃timer : ITimeout T⦄ (B : Book) (i : ℕ) where
  start_election-same :
      (n : Node T)
      → ((start_election n).incoming_append_entries_requests ≡ n.incoming_append_entries_requests)
        × ((start_election n).sent ≡ n.sent)
        × (get_log (start_election n) ≡ get_log n)
  unfolding start_election reset_election_timer
  start_election-same n = (refl, refl, refl)

  become_candidate-Keeps :
      (n : Node T)
      → suc (get_current_term n) < 2 ^ 64
      → Keeps B i n
      → Keeps B i (become_candidate n)
  unfolding become_candidate
  become_candidate-Keeps n small k =
      let m = become_candidate n in
      let only = send_request_vote_to_all-SendsOnly (start_election n) in
      let (queue, sent, log) = start_election-same n in
      let (queue', sent') = send_request_vote_to_all-Copied B (start_election n) (rw sent k.sent) in
      let later : get_current_term m ≡ suc (get_current_term n) =
        ground (arith, only, start_election-term n small) in
      record {
        led = λ t h.
            let (below, now) = k.led t h in
            (omega (arith, below, later), λ e. absurd (omega (arith, below, later, e)));
        leads = λ e. cc;
        log = rw (only.state, log) k.log;
        next = λ ls e. cc;
        candidate = λ cs e. omega (arith, later);
        waiting = rw (queue', queue) k.waiting;
        sent = sent';
      }

  pub check_election_timeout-Keeps :
      (n : Node T)
      → suc (get_current_term n) < 2 ^ 64
      → Keeps B i n
      → Keeps B i (check_election_timeout n)
  unfolding check_election_timeout
  check_election_timeout-Keeps n small k =
      let n' = record n { election_timeout = (timer.is_expired n.election_timeout).1 } in
      let k' = Keeps-same B i n n' refl refl refl refl refl refl refl k in
      elim (Bool-cases (timer.is_expired n.election_timeout).0) [
        | inl expired ↦ rw expired (become_candidate-Keeps n' small k')
        | inr early ↦ rw early k'
      ]
