-- ===== src/Integral/Planning.antt =====
-- hw1/src/leader/leader.cpp: new queries and the block `reassign tasks`, and the tasks in progress.
use to_ftds.Base.{
  ℕ, zero, suc, ◌+◌, ◌<◌, ◌≡◌, ◌≢◌, refl, ap, ◌∙◌, inr, List, [], ◌∷◌, ◌++◌, map, arith, length,
  contains, Increasing, not-contains, ok, Returns, nat_key, ◌≤◌,
}
use to_ftds.Integral.{
  Double, WorkerInfo, QueryInfo, new_query, add_slices, add_queries, gather, reassign,
}
use to_ftds.Integral.Assignment.{count, assigned, waiting, Ordered, count-append, reassign-Returns}
use to_ftds.Integral.Places.{From, From-snoc}
use to_ftds.Integral.Invariant.{progress, SoundQuery, Sound, progress-snoc, once}

-- How often a task of the query `i` stands among those of the set `ts` of the query `j`.
count-own :
    (i j t : ℕ) (ts : List ℕ)
    → i ≡ j
    → Increasing ts
    → count (i, t) (map (λ task. (j, task)) ts) ≡ once (contains t ts)
count-own i j t [] e h = refl
count-own i j t (u ∷ ts) e h = ground (arith, count-own i j t ts e h.1, not-contains u ts h.0)

count-other : (i j t : ℕ) (ts : List ℕ) → i ≢ j → count (i, t) (map (λ task. (j, task)) ts) ≡ 0
count-other i j t [] h = refl
count-other i j t (u ∷ ts) h = ground (arith, count-other i j t ts h)

module _ {D : Type 0} where
  count-later :
      (i j t : ℕ) (qs : List (QueryInfo D))
      → From SoundQuery j qs
      → i < j
      → count (i, t) (waiting qs) ≡ 0
  count-later i j t [] h low = refl
  count-later i j t (q ∷ qs) h low =
      let own : List (ℕ × ℕ) = map (λ task. (q.id, task)) q.tasks_to_do in
      omega (
        arith,
        count-append (i, t) own (waiting qs),
        count-other i q.id t q.tasks_to_do (ground (arith, h.0.0.0.0)),
        count-later i (suc j) t qs h.1,
      )

  -- Of one query: the tasks to do have come to be in progress.
  progress-first :
      (i t : ℕ) (q : QueryInfo D) (qs : List (QueryInfo D))
      → SoundQuery i q
      → once (progress (gather (q ∷ qs)).1 (zero, t))
        ≡ once (contains t q.tasks_in_progress) + once (contains t q.tasks_to_do)
  unfolding gather
  progress-first i t q qs h = ground (arith, h.1)

  progress-rest :
      (k t : ℕ) (q : QueryInfo D) (qs : List (QueryInfo D))
      → progress (gather (q ∷ qs)).1 (suc k, t) ≡ progress (gather qs).1 (k, t)
  unfolding gather
  progress-rest k t q qs = ground arith

  gather_nil : (gather {D = D} []).1 ≡ []
  unfolding gather
  gather_nil = refl

  progress-gather :
      (i k j t : ℕ) (qs : List (QueryInfo D))
      → From SoundQuery i qs
      → i + k ≡ j
      → once (progress (gather qs).1 (k, t)) ≡ once (progress qs (k, t)) + count (j, t) (waiting qs)
  progress-gather i k j t [] h e = omega (arith, ap (λ qs. once (progress qs (k, t))) gather_nil)
  progress-gather i zero j t (q ∷ qs) h e =
      let own : List (ℕ × ℕ) = map (λ task. (q.id, task)) q.tasks_to_do in
      omega (
        arith,
        progress-first i t q qs h.0,
        count-append (j, t) own (waiting qs),
        count-own j q.id t q.tasks_to_do (omega (arith, h.0.0.0.0)) h.0.0.1,
        count-later j (suc i) t qs h.1,
      )
  progress-gather i (suc k) j t (q ∷ qs) h e =
      let own : List (ℕ × ℕ) = map (λ task. (q.id, task)) q.tasks_to_do in
      omega (
        arith,
        ap once (progress-rest k t q qs),
        count-append (j, t) own (waiting qs),
        count-other j q.id t q.tasks_to_do (omega (arith, h.0.0.0.0)),
        progress-gather (suc i) k j t qs h.1,
      )

  gather-Sound :
      (i : ℕ) (qs : List (QueryInfo D)) → From SoundQuery i qs → From SoundQuery i (gather qs).1
  unfolding gather
  gather-Sound i [] h = tt
  gather-Sound i (q ∷ qs) h = ground (arith, gather-Sound (suc i) qs h.1)

  -- The assignment of the tasks of removed workers and of those to do.
  pub reassign-Sound :
      (known : List (ℕ × WorkerInfo)) (qs : List (QueryInfo D)) (tasks : List (ℕ × ℕ))
      → From SoundQuery 0 qs
      → Ordered known
      → 1 ≤ length known
      → ((task : ℕ × ℕ) → assigned task known + count task tasks ≡ once (progress qs task))
      → Returns (λ r. Sound r.1 r.0) (reassign known qs tasks)
  reassign-Sound known qs tasks h order some_known account =
      let (r, ran, (all, sorted, swapped)) = reassign-Returns known qs tasks order some_known in
      (
        r,
        ran,
        record {
          in_order = rw swapped (gather-Sound 0 qs h);
          ordered = sorted;
          assigned_once = λ task. rw swapped (
              omega (
                arith,
                all task,
                account task,
                progress-gather 0 task.0 task.0 task.1 qs h (omega arith),
              ));
        },
      )

module _ {D : Type 0} where
  pub reassign_none :
      (qs : List (QueryInfo D)) (tasks : List (ℕ × ℕ)) → reassign [] qs tasks ≡ ok ([], qs)
  unfolding reassign
  reassign_none qs tasks = refl

module _ {D : Type 0} ⦃double : Double D⦄ where
  new_query-SoundQuery : (id : ℕ) (a b : D) → SoundQuery id (new_query id a b)
  unfolding new_query add_slices
  new_query-SoundQuery id a b = (((refl, ground arith, tt), ground arith, tt), inr refl)

  new_query-progress : (id : ℕ) (a b : D) → (new_query id a b).tasks_in_progress ≡ []
  unfolding new_query add_slices
  new_query-progress id a b = refl

  pub add_queries-Sound :
      (qs : List (QueryInfo D)) (new_tasks : List (D × D))
      → From SoundQuery 0 qs
      → From SoundQuery 0 (add_queries qs new_tasks)
        × ((task : ℕ × ℕ) → progress (add_queries qs new_tasks) task ≡ progress qs task)
  unfolding add_queries
  add_queries-Sound qs [] h = (h, λ task. refl)
  add_queries-Sound qs ((a, b) ∷ rest) h =
      let q = new_query (length qs) a b in
      let (sound, same) = add_queries-Sound (qs ++ q ∷ []) rest (
        From-snoc SoundQuery 0 (length qs) qs q h (omega arith)
          (new_query-SoundQuery (length qs) a b)) in
      (sound, λ task. same task ∙ progress-snoc qs q task (new_query-progress (length qs) a b))
