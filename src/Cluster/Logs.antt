-- ===== src/Cluster/Logs.antt =====
-- hw2/src/consensus/node.cpp and hw2/src/worker/worker.cpp: the logs of a cluster. A book has, for each term,
-- the log that the leader of the term has, or had when it last led in it.
pub mod Merging
pub mod Nodes
pub mod Sending
pub mod Requests
pub mod Responses
pub mod Leading
pub mod Ticks
pub mod Growing
pub mod Rounds
pub mod Steps
use to_ftds.Base.{
  ℕ, zero, suc, ◌-◌, ◌+◌, ◌≤◌, ◌<◌, ◌^◌, ◌≡◌, ◌≢◌, ◌⊎◌, inl, inr, refl, sym, ap, ◌∙◌, List, [], ◌∷◌,
  ◌++◌, append_assoc, append-nil, none, some, length, length-append, get_elem?, get_elem?-some_lt,
  take, All, arith,
}
use to_ftds.Consensus.State.{Log, LogItem}
use to_ftds.Consensus.Message.{AppendEntriesRequest}

-- `led t i`: the node `i` has led in term `t`.
pub record Book : Type 1 where
  pub led : ℕ → ℕ → Type 0
  pub logs : ℕ → Log

-- Up to each of its items the log is the log of the item's term.
abbrev pub Matches : Book → Log → Type 0
Matches B log =
    (k : ℕ) (e : LogItem)
    → get_elem? log k ≡ some e
    → (k < length (B.logs e.leader_term)) × (take (suc k) log ≡ take (suc k) (B.logs e.leader_term))

-- The second book goes on from the first: logs have only grown, and only those of terms that the node `i`
-- has led in.
pub record Grows (i : ℕ) (B C : Book) : Type 0 where
  pub led : (t j : ℕ) → B.led t j → C.led t j
  pub others : (t j : ℕ) → j ≢ i → C.led t j → B.led t j
  pub prefix : (t : ℕ) → (more : Log) × (C.logs t ≡ B.logs t ++ more)
  pub own : (t : ℕ) → (C.logs t ≡ B.logs t) ⊎ C.led t i

pub Grows-refl : (i : ℕ) (B : Book) → Grows i B B
Grows-refl i B = record {
  led = λ t j h. h;
  others = λ t j ne h. h;
  prefix = λ t. ([], sym (append-nil (B.logs t)));
  own = λ t. inl refl;
}

pub Grows-trans : (i : ℕ) (B C D : Book) → Grows i B C → Grows i C D → Grows i B D
Grows-trans i B C D p q = record {
  led = λ t j h. q.led t j (p.led t j h);
  others = λ t j ne h. p.others t j ne (q.others t j ne h);
  prefix = λ t.
      let (xs, e) = p.prefix t in
      let (ys, f) = q.prefix t in
      (xs ++ ys, f ∙ ap (λ l. l ++ ys) e ∙ append_assoc (B.logs t) xs ys);
  own = λ t. elim (q.own t) [
    | inr led ↦ inr led
    | inl same ↦ elim (p.own t) [ inl same' ↦ inl (same ∙ same') | inr led ↦ inr (q.led t i led) ]
  ];
}

-- The request holds a part of the log of its term, with the term of the item in front of it.
abbrev pub Taken : Book → AppendEntriesRequest → Type 0
Taken B req =
    (pre : Log) × (rest : Log) × (b : LogItem) × (B.logs req.leader_term
      ≡ pre ++ (req.entries ++ rest))
    × (length pre ≡ suc req.prev_log_index)
    × (get_elem? pre req.prev_log_index ≡ some b)
    × (b.leader_term ≡ req.prev_log_term)

pub get_elem?-append_lt :
    {A : Type 0} (xs ys : List A) (k : ℕ) → k < length xs → get_elem? (xs ++ ys) k ≡ get_elem? xs k
get_elem?-append_lt [] ys k h = absurd (omega arith)
get_elem?-append_lt (x ∷ xs) ys k h = ground (arith, get_elem?-append_lt xs ys (k - 1))

pub take-append_le :
    {A : Type 0} (k : ℕ) (xs ys : List A) → k ≤ length xs → take k (xs ++ ys) ≡ take k xs
take-append_le zero xs ys h = refl
take-append_le (suc k) [] ys h = absurd (omega arith)
take-append_le (suc k) (x ∷ xs) ys h = ap (◌∷◌ x) (take-append_le k xs ys (omega arith))

-- What is in a log is in a longer one.
pub some-append :
    {A : Type 0} (xs ys : List A) (k : ℕ) (x : A)
    → get_elem? xs k ≡ some x
    → get_elem? (xs ++ ys) k ≡ some x
some-append xs ys k x h = get_elem?-append_lt xs ys k (get_elem?-some_lt xs k x h) ∙ h

pub Matches-prefix : (B : Book) (xs ys : Log) → Matches B (xs ++ ys) → Matches B xs
Matches-prefix B xs ys m k e h =
    let within = get_elem?-some_lt xs k e h in
    let (inside, same) = m k e (some-append xs ys k e h) in
    (inside, sym (take-append_le (suc k) xs ys (omega (arith, within))) ∙ same)

-- Two logs that have an item of one term at one place agree up to it.
pub Matches-agree :
    (B : Book) (xs ys : Log) (k : ℕ) (a b : LogItem)
    → Matches B xs
    → Matches B ys
    → get_elem? xs k ≡ some a
    → get_elem? ys k ≡ some b
    → a.leader_term ≡ b.leader_term
    → take (suc k) xs ≡ take (suc k) ys
Matches-agree B xs ys k a b mx my ha hb same =
    (mx k a ha).1 ∙ ap (λ t. take (suc k) (B.logs t)) same ∙ sym (my k b hb).1

-- The logs of the second book go on from those of the first.
abbrev pub Longer : Book → Book → Type 0
Longer B C = (t : ℕ) → (more : Log) × (C.logs t ≡ B.logs t ++ more)

pub Matches-Longer : (B C : Book) → Longer B C → (log : Log) → Matches B log → Matches C log
Matches-Longer B C longer log m k e h =
    let (inside, same) = m k e h in
    let (more, goes_on) = longer e.leader_term in
    (
      omega (arith, inside, ap length goes_on, length-append (B.logs e.leader_term) more),
      same
          ∙ sym (take-append_le (suc k) (B.logs e.leader_term) more (omega (arith, inside)))
          ∙ ap (take (suc k)) (sym goes_on),
    )

module _ (i : ℕ) (B C : Book) (g : Grows i B C) where
  pub Matches-mono : (log : Log) → Matches B log → Matches C log
  Matches-mono = Matches-Longer B C g.prefix

  pub Taken-mono : (req : AppendEntriesRequest) → Taken B req → Taken C req
  Taken-mono req (pre, rest, b, e, len, there, term) =
      let (more, longer) = g.prefix req.leader_term in
      (
        pre,
        rest ++ more,
        b,
        longer
            ∙ ap (λ l. l ++ more) e
            ∙ append_assoc pre (req.entries ++ rest) more
            ∙ ap (λ l. pre ++ l) (append_assoc req.entries rest more),
        len,
        there,
        term,
      )
