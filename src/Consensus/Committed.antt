-- ===== src/Consensus/Committed.antt =====
-- hw2/src/consensus/node.cpp: the committed items and an `AppendEntriesRequest`.
use to_ftds.Base.{
  ℕ, zero, suc, ◌+◌, min, ◌≤◌, ◌<◌, ◌≡◌, refl, ap, ◌∙◌, inl, inr, true, if◌then◌else◌, ltb,
  Bool-cases, Option-cases, ◌&&◌, [], ◌∷◌, ◌++◌, arith, length, length-append, length-take,
  get_elem?, get_elem?-some_lt, take, drop,
}
use to_ftds.Timeout.{ITimeout}
use to_ftds.Consensus.State.{Log, item_eq_refl}
use to_ftds.Consensus.Message.{AppendEntriesRequest}
use to_ftds.Consensus.Node.{Node, get_log, get_commit_index}
use to_ftds.Consensus.Node.Requests.{handle_append_entries_request}
use to_ftds.Consensus.Merge.{merge, length-merge}
use to_ftds.Consensus.Replication.{accepts, merged, append_entries-Effect}

merge_kept :
    (k : ℕ) (rest es : Log)
    → ((j : ℕ) → j < k → j < length es → get_elem? rest j ≡ get_elem? es j)
    → k ≤ length rest
    → take k (merge rest es) ≡ take k rest
merge_kept k rest [] h inside = refl
merge_kept zero [] (e ∷ es) h inside = refl
merge_kept (suc k) [] (e ∷ es) h inside = absurd (omega arith)
merge_kept zero (r ∷ rest) (e ∷ es) h inside = refl
merge_kept (suc k) (r ∷ rest) (e ∷ es) h inside =
    let first = h 0 (omega arith) (omega arith) in
    let same : r ≡ e = cc in
    rw (same, item_eq_refl e)
      (ap (◌∷◌ e)
        (merge_kept k rest es (λ j low short. h (suc j) (omega arith) (omega arith)) (omega arith)))

-- The items before `c` are kept where the entries agree with them.
splice_kept :
    (p c : ℕ) (log es : Log)
    → p ≤ length log
    → c ≤ length log
    → ((j : ℕ) → p + j < c → j < length es → get_elem? log (p + j) ≡ get_elem? es j)
    → take c (take p log ++ merge (drop p log) es) ≡ take c log
splice_kept zero c log es low inside h =
    merge_kept c log es
      (λ j low' short. let z : 0 + j ≡ j = omega arith in rw z at (h j (omega arith) short)) inside
splice_kept (suc p) c [] es low inside h = absurd (omega arith)
splice_kept (suc p) zero (x ∷ log) es low inside h = refl
splice_kept (suc p) (suc c) (x ∷ log) es low inside h = ap (◌∷◌ x) (
    splice_kept p c log es (omega arith) (omega arith) (λ j low' short.
      let z : suc p + j ≡ suc (p + j) = omega arith in rw z at (h j (omega arith) short)))

-- The entries that lie on committed items are these items.
abbrev pub AgreesWithCommitted : {T : Type 0} → Node T → AppendEntriesRequest → Type 0
AgreesWithCommitted n req =
    (j : ℕ)
    → suc req.prev_log_index + j < suc (get_commit_index n)
    → j < length req.entries
    → get_elem? (get_log n) (suc req.prev_log_index + j) ≡ get_elem? req.entries j

-- The first node's committed items stay, and the second's commit index lies in its log.
pub record KeepsCommitted {T : Type 0} (n : Node T) (req : AppendEntriesRequest) (m : Node T)
    : Type 0 where
  pub items :
      take (suc (get_commit_index n)) (get_log m) ≡ take (suc (get_commit_index n)) (get_log n)
  pub inside : get_commit_index m < length (get_log m)
  pub low : min (get_commit_index n) (req.prev_log_index + length req.entries) ≤ get_commit_index m

still_inside :
    (c : ℕ) (old new : Log) → c < length old → take (suc c) new ≡ take (suc c) old → c < length new
still_inside c old new inside e =
    omega (arith, ap (λ (l : Log). length l) e, length-take (suc c) new, length-take (suc c) old)

module _ {T : Type 0} where
  accepts_low :
      (n : Node T) (req : AppendEntriesRequest)
      → accepts n req ≡ true
      → req.prev_log_index < length (get_log n)
  accepts_low n req accepted = elim (Option-cases (get_elem? (get_log n) req.prev_log_index)) [
    | inl missing ↦ absurd (ground (arith, accepted, missing))
    | inr (prev, e) ↦ get_elem?-some_lt (get_log n) req.prev_log_index prev e
  ]

  merged_kept :
      (n : Node T) (req : AppendEntriesRequest)
      → get_commit_index n < length (get_log n)
      → AgreesWithCommitted n req
      → accepts n req ≡ true
      → take (suc (get_commit_index n)) (merged n req) ≡ take (suc (get_commit_index n)) (get_log n)
  merged_kept n req inside agrees accepted =
      splice_kept (suc req.prev_log_index) (suc (get_commit_index n)) (get_log n) req.entries
        (accepts_low n req accepted) (omega arith) agrees

  length-merged :
      (n : Node T) (req : AppendEntriesRequest)
      → req.prev_log_index < length (get_log n)
      → req.prev_log_index + length req.entries < length (merged n req)
  length-merged n req low = omega (
    arith,
    length-append (take (suc req.prev_log_index) (get_log n))
        (merge (drop (suc req.prev_log_index) (get_log n)) req.entries),
    length-take (suc req.prev_log_index) (get_log n),
    length-merge (drop (suc req.prev_log_index) (get_log n)) req.entries,
  )

  effect-KeepsCommitted :
      (n m : Node T) (req : AppendEntriesRequest)
      → get_commit_index n < length (get_log n)
      → AgreesWithCommitted n req
      → get_log m ≡ (if accepts n req then merged n req else get_log n)
      → get_commit_index m ≡ (
          if accepts n req && ltb (get_commit_index n) req.leader_commit
          then min req.leader_commit (req.prev_log_index + length req.entries)
          else get_commit_index n)
      → KeepsCommitted n req m
  effect-KeepsCommitted n m req inside agrees log commit = elim (Bool-cases (accepts n req)) [
    | inr refused ↦
        let log' = rw refused at log in
        let commit' = rw refused at commit in
        record {
          items = ap (λ l. take (suc (get_commit_index n)) l) log';
          inside = ground (arith, ap (λ (l : Log). length l) log', commit');
          low = omega (arith, commit');
        }
    | inl accepted ↦
        let log' = rw accepted at log in
        let commit' = rw accepted at commit in
        let kept = merged_kept n req inside agrees accepted in
        let last = length-merged n req (accepts_low n req accepted) in
        let held = still_inside (get_commit_index n) (get_log n) (merged n req) inside kept in
        let size = ap (λ (l : Log). length l) log' in
        record {
          items = ap (λ l. take (suc (get_commit_index n)) l) log' ∙ kept;
          inside = ground (arith, size, commit', last, held);
          low = ground (arith, commit');
        }
  ]

module _ {T : Type 0} ⦃timer : ITimeout T⦄ where
  -- After an AppendEntriesRequest to a node whose commit index lies in its log, where the entries
  -- that lie on committed items are these items: the committed items are still in their places,
  -- the commit index lies in the log, and it has not fallen below the lesser of the old one and
  -- the last index that the request speaks of.
  pub append_entries-KeepsCommitted :
      (n : Node T) (req : AppendEntriesRequest)
      → get_commit_index n < length (get_log n)
      → AgreesWithCommitted n req
      → KeepsCommitted n req (handle_append_entries_request n req).0
  append_entries-KeepsCommitted n req inside agrees =
      let e = append_entries-Effect n req in
      effect-KeepsCommitted n (handle_append_entries_request n req).0 req inside agrees e.log
        e.commit
