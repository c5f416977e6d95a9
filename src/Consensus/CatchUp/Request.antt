-- ===== src/Consensus/CatchUp/Request.antt =====
-- hw2/src/consensus/node.cpp: the request that a leader sends, and when a follower accepts it.
use to_ftds.Base.{
  ℕ, zero, suc, ◌+◌, ◌-◌, ◌^◌, ◌≤◌, ◌<◌, ◌≡◌, refl, ap, ◌∙◌, true, inl, inr, Option-cases, List, [],
  ◌∷◌, some, arith, u64, Returns, length, get_elem?, take, drop, get_elem?-lt, length-drop,
  length-take, take-append-drop, nat_key,
}
use to_ftds.Consensus.State.{LogItem, Log, LeaderState}
use to_ftds.Consensus.Message.{AppendEntriesRequest}
use to_ftds.Consensus.Node.{Node, get_current_term, get_log}
use to_ftds.Consensus.Node.Roles.{next_index_of, build_append_entries}
use to_ftds.Consensus.Merge.{merge, take-append_add, take-merge}
use to_ftds.Consensus.Replication.{accepts, merged}
use to_ftds.Consensus.CatchUp.{AgreeAt, Continues}

get_elem?-take {ℓ} :
    {A : Type ℓ} (k : ℕ) (xs : List A) (i : ℕ) → i < k → get_elem? (take k xs) i ≡ get_elem? xs i
get_elem?-take zero xs i h = absurd (omega arith)
get_elem?-take (suc k) [] i h = refl
get_elem?-take (suc k) (x ∷ xs) zero h = refl
get_elem?-take (suc k) (x ∷ xs) (suc i) h = get_elem?-take k xs i (omega arith)

same_prefix :
    (xs ys : Log) (i : ℕ) → take (suc i) xs ≡ take (suc i) ys → get_elem? xs i ≡ get_elem? ys i
same_prefix xs ys i h =
    rw (get_elem?-take (suc i) xs i (omega arith), get_elem?-take (suc i) ys i (omega arith)) at
      (ap (λ zs. get_elem? zs i) h)

module _ {T : Type 0} where
  pub build_append_entries-Continues :
      (l : Node T) (ls : LeaderState) (id i : ℕ)
      → next_index_of ls id ≡ suc i
      → i < length (get_log l)
      → length (get_log l) < 2 ^ 64
      → Returns (Continues l i) (build_append_entries l ls id)
  unfolding build_append_entries
  build_append_entries-Continues l ls id i next low fits =
      let (prev, e) = get_elem?-lt (get_log l) i low in
      rw (next, wrap, e)
        (
          _,
          refl,
          record {
            term = refl;
            index = refl;
            entries = refl;
            prev = prev;
            at_prev = e;
            prev_term = refl;
          },
        )
    where
      wrap : u64 (suc i + 2 ^ 64 - 1) ≡ i
      wrap = omega arith

  -- A follower whose log agrees up to `i` takes over the leader's log.
  pub merged-take :
      (l f : Node T) (i : ℕ) (req : AppendEntriesRequest)
      → Continues l i req
      → i < length (get_log l)
      → take (suc i) (get_log f) ≡ take (suc i) (get_log l)
      → take (length (get_log l)) (merged f req) ≡ get_log l
  merged-take l f i req c low same =
      rw (c.index, c.entries, same, ← total)
        (take-append_add pre (length rest) (merge (drop (suc i) (get_log f)) rest)
          ∙ rw (take-merge (drop (suc i) (get_log f)) rest) (take-append-drop (suc i) (get_log l)))
    where
      pre : Log
      pre = take (suc i) (get_log l)

      rest : Log
      rest = drop (suc i) (get_log l)

      total : length pre + length rest ≡ length (get_log l)
      total = omega (arith, length-take (suc i) (get_log l), length-drop (suc i) (get_log l))

  pub accepts_same :
      (l f : Node T) (i : ℕ) (req : AppendEntriesRequest)
      → Continues l i req
      → get_current_term f ≤ get_current_term l
      → take (suc i) (get_log f) ≡ take (suc i) (get_log l)
      → accepts f req ≡ true
  accepts_same l f i req c terms same =
      let here = same_prefix (get_log f) (get_log l) i same in
      ground (arith, here, c.term, c.index, c.at_prev, c.prev_term)

  pub accepts_agree :
      (l f : Node T) (i : ℕ) (req : AppendEntriesRequest)
      → Continues l i req
      → accepts f req ≡ true
      → AgreeAt (get_log f) (get_log l) i
      → take (suc i) (get_log f) ≡ take (suc i) (get_log l)
  accepts_agree l f i req c accepted agree =
      let (e, found, same) = at_prev in agree e c.prev found c.at_prev same
    where
      at_prev :
          (e : LogItem) × (get_elem? (get_log f) i ≡ some e) × (e.leader_term ≡ c.prev.leader_term)
      at_prev = elim (Option-cases (get_elem? (get_log f) i)) [
        | inl missing ↦ absurd (ground (arith, c.index))
        | inr (e, found) ↦ (e, found, ground (arith, c.index, c.prev_term))
      ]
