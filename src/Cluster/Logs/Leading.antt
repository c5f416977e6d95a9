-- ===== src/Cluster/Logs/Leading.antt =====
-- hw2/src/consensus/node.cpp: `BecomeLeader`, by the logs of a cluster: a term gets its log.
use to_ftds.Base.{
  ℕ, suc, ◌≤◌, ◌<◌, ◌^◌, ◌≡◌, ◌≢◌, ◌⊎◌, refl, sym, ap, inl, inr, true, Bool-cases, if◌then◌else◌,
  some, List, [], ◌∷◌, ◌++◌, append-nil, length, ◌==◌, nat_key, Ensures, Ensures-map, arith,
}
use to_ftds.Consensus.State.{Log, leader, LeaderState}
use to_ftds.Consensus.Message.{
  Message, append_entries_request, append_entries_response, request_vote_request,
  request_vote_response,
}
use to_ftds.Consensus.Node.{Node, get_current_term, get_log, get_last_log_index}
use to_ftds.Consensus.Node.Roles.{next_index_of, fresh_leader_state, become_leader}
use to_ftds.Consensus.Leadership.{crowned, fresh_leader_state-next}
use to_ftds.Cluster.Ballots.{History, Fair, Won, All-map}
use to_ftds.Cluster.Elections.{one_winner}
use to_ftds.Cluster.Logs.{Book, Matches, Grows, Matches-mono, Taken-mono}
use to_ftds.Cluster.Logs.Nodes.{Filed, Copied, Keeps, Short, Holds}
use to_ftds.Cluster.Logs.Sending.{send_append_entries_to_all-Holds}

-- The node agrees with a book that goes on from `B`.
abbrev pub Carries : {T : Type 0} → List ℕ → History → Book → ℕ → Node T → Type 1
Carries ids H B i n = (C : Book) × Grows i B C × Filed ids H C × Holds C i n

pub Copied-mono :
    (i : ℕ) (B C : Book) (g : Grows i B C) (msg : Message) → Copied B msg → Copied C msg
Copied-mono i B C g (append_entries_request req) h = Taken-mono i B C g req h
Copied-mono i B C g (append_entries_response resp) h = tt
Copied-mono i B C g (request_vote_request req) h = tt
Copied-mono i B C g (request_vote_response resp) h = tt

-- The book in which the node `i` leads in the term `t`, with its log.
abbrev pub with_log : Book → ℕ → ℕ → Log → Book
with_log B i t log = record {
  led = λ u j. B.led u j ⊎ ((u ≡ t) × (j ≡ i));
  logs = λ u. if u == t then log else B.logs u;
}

pub with_log-here : (B : Book) (i t : ℕ) (log : Log) → (with_log B i t log).logs t ≡ log
with_log-here B i t log = ground arith

-- A longer log for the term.
pub with_log-Grows :
    (B : Book) (i t : ℕ) (log more : Log) → log ≡ B.logs t ++ more → Grows i B (with_log B i t log)
with_log-Grows B i t log more longer = record {
  led = λ u j h. inl h;
  others = λ u j ne h. elim h [ inl old ↦ old | inr new ↦ absurd (ne new.1) ];
  prefix = λ u. elim (Bool-cases (u == t)) [
    | inl same ↦ let e : u ≡ t = ground arith in (more, rw (e, here) longer)
    | inr other ↦ ([], rw other (sym (append-nil (B.logs u))))
  ];
  own = λ u. elim (Bool-cases (u == t)) [
    | inl same ↦ inr (inr (ground arith, refl))
    | inr other ↦ inl (rw other refl)
  ];
}
  where
    here : (t == t) ≡ true
    here = ground arith

pub with_log-Filed :
    (ids : List ℕ) (H : History) (B : Book) (i t : ℕ) (log more : Log)
    → log ≡ B.logs t ++ more
    → Filed ids H B
    → Won ids H i t
    → Matches (with_log B i t log) log
    → Filed ids H (with_log B i t log)
with_log-Filed ids H B i t log more longer filed won own = record {
  won = λ u j h. elim h [ inl old ↦ filed.won u j old | inr new ↦ rw (new.0, new.1) won ];
  made = λ u positive some_item. elim (Bool-cases (u == t)) [
    | inl same ↦ (i, inr (ground arith, refl))
    | inr other ↦ let (j, led) = filed.made u positive (rw other at some_item) in (j, inl led)
  ];
  matches = λ u. elim (Bool-cases (u == t)) [
    | inl same ↦ rw same own
    | inr other ↦ rw other (
        Matches-mono i B (with_log B i t log) (with_log-Grows B i t log more longer) (B.logs u)
          (filed.matches u))
  ];
}

empty : (log : Log) → (1 ≤ length log → 1 ≤ 0) → log ≡ []
empty [] h = refl
empty (x ∷ log) h = absurd (omega (arith, h (omega arith)))

module _ {T : Type 0} (ids : List ℕ) (H : History) (B : Book) (i : ℕ) (fair : Fair ids H)
    (filed : Filed ids H B) where
  -- The term of a candidate that wins has no log.
  no_log :
      (n : Node T)
      → n.role ≢ leader
      → 1 ≤ get_current_term n
      → Won ids H i (get_current_term n)
      → Keeps B i n
      → B.logs (get_current_term n) ≡ []
  no_log n follows positive won k = empty (B.logs (get_current_term n)) (λ some_item.
      let (j, led) = filed.made (get_current_term n) (omega arith) some_item in
      let same : i ≡ j =
        one_winner ids H (get_current_term n) i j fair won (filed.won (get_current_term n) j led) in
      absurd (follows ((k.led (get_current_term n) (rw same led)).1 refl)))

  fresh-next :
      (n : Node T) (id : ℕ)
      → Short n
      → next_index_of
          (fresh_leader_state
            (suc (get_last_log_index n))
            (record { next_index = []; match_index = [] })
            n.channels)
          id
        < 2 ^ 64
  fresh-next n id short = ground (
    arith,
    short,
    fresh_leader_state-next (suc (get_last_log_index n))
        (record { next_index = []; match_index = [] }) n.channels id,
  )

  crowned-Holds :
      (n : Node T)
      → n.role ≢ leader
      → 1 ≤ get_current_term n
      → Won ids H i (get_current_term n)
      → Holds B i n
      → let C = with_log B i (get_current_term n) (get_log n) in
        Grows i B C × Filed ids H C × Holds C i (crowned n)
  crowned-Holds n follows positive won (k, short) =
      let t = get_current_term n in
      let C = with_log B i t (get_log n) in
      let longer : get_log n ≡ B.logs t ++ get_log n =
        ap (λ l. l ++ get_log n) (sym (no_log n follows positive won k)) in
      let g = with_log-Grows B i t (get_log n) (get_log n) longer in
      let log' = Matches-mono i B C g (get_log n) k.log in
      (
        g,
        with_log-Filed ids H B i t (get_log n) (get_log n) longer filed won log',
        (
          record {
            led = λ u h. elim h [
              | inl old ↦ ((k.led u old).0, λ e. refl)
              | inr new ↦ (omega (arith, new.0), λ e. refl)
            ];
            leads = λ e. (with_log-here B i t (get_log n), inr (refl, refl));
            log = log';
            next = λ ls e id. same_next _ ls id e (fresh-next n id short);
            candidate = λ cs e. cc;
            waiting =
                All-map _ _ n.incoming_append_entries_requests (λ x h. Taken-mono i B C g x.1 h)
                  k.waiting;
            sent = All-map _ _ n.sent (λ x h. Copied-mono i B C g x.1 h) k.sent;
          },
          short,
        ),
      )
    where
      same_next :
          (a b : LeaderState) (id : ℕ)
          → some a ≡ some b
          → next_index_of a id < 2 ^ 64
          → next_index_of b id < 2 ^ 64
      same_next a b id e h = let same : a ≡ b = cc in rw same at h

  pub become_leader-Carries :
      (n : Node T)
      → n.role ≢ leader
      → 1 ≤ get_current_term n
      → Won ids H i (get_current_term n)
      → Holds B i n
      → Ensures (Carries ids H B i) (become_leader n)
  unfolding become_leader
  become_leader-Carries n follows positive won h =
      let C = with_log B i (get_current_term n) (get_log n) in
      let (g, filed', h') = crowned-Holds n follows positive won h in
      Ensures-map (Holds C i) (Carries ids H B i) _
        (send_append_entries_to_all-Holds C i true (crowned n) h') (λ m k. (C, g, filed', k))
