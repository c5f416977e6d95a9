-- ===== src/Integral/Queries.antt =====
-- hw1/src/leader/leader.cpp: the places of the queries, and the slices of their tasks.
use to_ftds.Base.{
  ℕ, suc, ◌+◌, ◌<◌, ◌≡◌, refl, ◌∙◌, List, [], ◌∷◌, ◌++◌, some, map, arith, All, length, get_elem?,
}
use to_ftds.Integral.{Double, QueryInfo, new_query, add_slices, add_queries, gather}
use to_ftds.Integral.Places.{From, From-snoc}
use to_ftds.Integral.Assignment.{waiting, gather-waiting}

abbrev pub InRange : {D : Type 0} → ℕ → QueryInfo D → Type 0
InRange i q =
    (q.id ≡ i)
    × All (λ t. t < length q.all_tasks) q.tasks_to_do
    × All (λ t. t < length q.all_tasks) q.tasks_in_progress

abbrev pub AllInRange : {D : Type 0} → ℕ → List (QueryInfo D) → Type 0
AllInRange = From InRange

-- The task is one of the queries from the place `i` on and has a slice.
abbrev pub HasSlice : {D : Type 0} → ℕ → List (QueryInfo D) → ℕ × ℕ → Type 0
HasSlice {D} i qs x =
    (k : ℕ) × (x.0 ≡ i + k)
    × (q : QueryInfo D) × (get_elem? qs k ≡ some q)
    × (x.1 < length q.all_tasks)

module _ {D : Type 0} where
  gather-AllInRange :
      (i : ℕ) (qs : List (QueryInfo D)) → AllInRange i qs → AllInRange i (gather qs).1
  unfolding gather
  gather-AllInRange i [] h = tt
  gather-AllInRange i (q ∷ qs) h = ground (arith, gather-AllInRange (suc i) qs)

  later :
      (i : ℕ) (q : QueryInfo D) (qs : List (QueryInfo D)) (xs : List (ℕ × ℕ))
      → All (HasSlice (suc i) qs) xs
      → All (HasSlice i (q ∷ qs)) xs
  later i q qs [] h = tt
  later i q qs (x ∷ xs) h =
      let ((k, at, p, found, low), rest) = h in
      ((suc k, omega arith, p, found, low), later i q qs xs rest)

  own :
      (i : ℕ) (q : QueryInfo D) (qs : List (QueryInfo D)) (ts : List ℕ)
      → q.id ≡ i
      → All (λ t. t < length q.all_tasks) ts
      → (xs : List (ℕ × ℕ)) → All (HasSlice i (q ∷ qs)) xs
      → All (HasSlice i (q ∷ qs)) (map (λ t. (q.id, t)) ts ++ xs)
  own i q qs [] e h xs rest = rest
  own i q qs (t ∷ ts) e h xs rest =
      ((0, e ∙ omega arith, q, refl, h.0), own i q qs ts e h.1 xs rest)

  waiting-HasSlice :
      (i : ℕ) (qs : List (QueryInfo D)) → AllInRange i qs → All (HasSlice i qs) (waiting qs)
  waiting-HasSlice i [] h = tt
  waiting-HasSlice i (q ∷ qs) h =
      own i q qs q.tasks_to_do h.0.0 h.0.1 (waiting qs)
        (later i q qs (waiting qs) (waiting-HasSlice (suc i) qs h.1))

module _ {D : Type 0} ⦃double : Double D⦄ where
  new_query-InRange : (id : ℕ) (a b : D) → InRange id (new_query id a b)
  unfolding new_query add_slices
  new_query-InRange id a b = (refl, ground arith, tt)

  add_queries-AllInRange :
      (qs : List (QueryInfo D)) (new_tasks : List (D × D))
      → AllInRange 0 qs
      → AllInRange 0 (add_queries qs new_tasks)
  unfolding add_queries
  add_queries-AllInRange qs [] h = h
  add_queries-AllInRange qs ((a, b) ∷ rest) h =
      let r = new_query-InRange (length qs) a b in
      add_queries-AllInRange (qs ++ new_query (length qs) a b ∷ []) rest
        (From-snoc InRange 0 (length qs) qs (new_query (length qs) a b) h (omega arith) r)

  -- Where each query's id is its place and each of its tasks, to do or in progress, has a slice,
  -- this holds also after new queries are added and after their tasks to do are gathered, and
  -- each task gathered is a task of a query that is there and has a slice of it.
  pub gather-InRange :
      (qs : List (QueryInfo D)) (new_tasks : List (D × D))
      → AllInRange 0 qs
      → let g = gather (add_queries qs new_tasks) in
        AllInRange 0 (add_queries qs new_tasks)
        × AllInRange 0 g.1
        × All (HasSlice 0 (add_queries qs new_tasks)) g.0
  gather-InRange qs new_tasks h =
      let all = add_queries-AllInRange qs new_tasks h in
      (
        all,
        gather-AllInRange 0 (add_queries qs new_tasks) all,
        rw (gather-waiting (add_queries qs new_tasks))
            (waiting-HasSlice 0 (add_queries qs new_tasks) all),
      )
