-- ===== src/Integral/Assignment.antt =====
-- hw1/src/leader/leader.cpp: where the tasks go that are to be assigned.
use to_ftds.Base.{
  ℕ, suc, ◌+◌, ◌≤◌, ◌<◌, ◌≡◌, refl, ap, inl, inr, ltb, ◌==◌, ◌&&◌, if◌then◌else◌, Bool-cases, List,
  [], ◌∷◌, ◌++◌, none, map, arith, All, length, Returns, lookup, insert, find_or, nat_key,
}
use to_ftds.Integral.{WorkerInfo, QueryInfo, emplace, loads, idle, give, assign, gather, reassign}

abbrev pub count : ℕ × ℕ → List (ℕ × ℕ) → ℕ
count (q, t) [] = 0
count (q, t) ((q', t') ∷ tasks) =
    let rest = count (q, t) tasks in if (q == q') && (t == t') then suc rest else rest

-- How often the task is assigned, over all workers.
abbrev pub assigned : ℕ × ℕ → List (ℕ × WorkerInfo) → ℕ
assigned task [] = 0
assigned task ((wid, info) ∷ known) = count task info.assigned_tasks + assigned task known

-- The tasks to do of all queries.
abbrev pub waiting : {D : Type 0} → List (QueryInfo D) → List (ℕ × ℕ)
waiting [] = []
waiting (q ∷ qs) = map (λ task. (q.id, task)) q.tasks_to_do ++ waiting qs

-- `std::map` keeps its keys in order.
abbrev pub Ordered : List (ℕ × WorkerInfo) → Type 0
Ordered [] = Unit
Ordered (w ∷ ws) = All (λ (v : ℕ × WorkerInfo). w.0 < v.0) ws × Ordered ws

pub count-append :
    (task : ℕ × ℕ) (xs ys : List (ℕ × ℕ)) → count task (xs ++ ys) ≡ count task xs + count task ys
count-append task [] ys = omega arith
count-append task (x ∷ xs) ys = ground (arith, count-append task xs ys)

pub lookup-below :
    (k : ℕ) (m : List (ℕ × WorkerInfo))
    → All (λ (v : ℕ × WorkerInfo). k < v.0) m
    → lookup k m ≡ none
lookup-below k [] h = refl
lookup-below k (w ∷ m) h = ground (arith, lookup-below k m h.1)

pub All-below :
    (k j : ℕ) (m : List (ℕ × WorkerInfo))
    → k < j
    → All (λ (v : ℕ × WorkerInfo). j < v.0) m
    → All (λ (v : ℕ × WorkerInfo). k < v.0) m
All-below k j [] h below = tt
All-below k j (w ∷ m) h below = (omega (arith, below.0), All-below k j m h below.1)

All-insert :
    (j k : ℕ) (info : WorkerInfo) (m : List (ℕ × WorkerInfo))
    → j < k
    → All (λ (v : ℕ × WorkerInfo). j < v.0) m
    → All (λ (v : ℕ × WorkerInfo). j < v.0) (insert k info m)
All-insert j k info [] h below = (h, tt)
All-insert j k info (w ∷ m) h below = ground (arith, All-insert j k info m h below.1)

pub insert-Ordered :
    (k : ℕ) (info : WorkerInfo) (m : List (ℕ × WorkerInfo)) → Ordered m → Ordered (insert k info m)
insert-Ordered k info [] h = (tt, tt)
insert-Ordered k info ((j, w) ∷ m) h = elim (Bool-cases (ltb k j)) [
  | inl first ↦ rw first ((ground arith, All-below k j m (ground arith) h.0), h)
  | inr later ↦ elim (Bool-cases (j == k)) [
    | inl same ↦ let e : j ≡ k = ground arith in rw (later, same) (rw e at h)
    | inr other ↦
        rw (later, other) (All-insert j k info m (ground arith) h.0, insert-Ordered k info m h.1)
  ]
]

pub assigned-insert :
    (task : ℕ × ℕ) (k : ℕ) (info : WorkerInfo) (m : List (ℕ × WorkerInfo))
    → Ordered m
    → assigned task (insert k info m) + count task (find_or k idle m).assigned_tasks
      ≡ assigned task m + count task info.assigned_tasks
assigned-insert task k info [] h = omega arith
assigned-insert task k info ((j, w) ∷ m) h =
    ground (arith, lookup-below k m, All-below k j m, assigned-insert task k info m h.1)

give-assigned :
    (task x : ℕ × ℕ) (wid : ℕ) (known : List (ℕ × WorkerInfo))
    → Ordered known
    → assigned task (give wid x known) ≡ assigned task known + count task (x ∷ [])
give-assigned task x wid known h =
    let info = find_or wid idle known in
    omega (
      arith,
      assigned-insert task wid (record info { assigned_tasks = info.assigned_tasks ++ x ∷ [] })
          known h,
      count-append task info.assigned_tasks (x ∷ []),
    )

emplace-length : (x : ℕ × ℕ) (ys : List (ℕ × ℕ)) → 1 ≤ length (emplace x ys)
emplace-length x [] = omega arith
emplace-length x (y ∷ ys) = ground arith

loads-length :
    (known : List (ℕ × WorkerInfo)) (workers : List (ℕ × ℕ))
    → 1 ≤ length workers
    → 1 ≤ length (loads known workers)
unfolding loads
loads-length [] workers h = h
loads-length ((id, info) ∷ known) workers h =
    loads-length known (emplace (length info.assigned_tasks, id) workers)
      (emplace-length (length info.assigned_tasks, id) workers)

assign-Returns :
    (known : List (ℕ × WorkerInfo)) (workers tasks : List (ℕ × ℕ))
    → Ordered known
    → 1 ≤ length workers
    → Returns
        (λ r.
          ((task : ℕ × ℕ) → assigned task r ≡ assigned task known + count task tasks) × Ordered r)
        (assign known workers tasks)
unfolding assign
assign-Returns known workers [] h some_worker = (known, refl, (λ task. omega arith, h))
assign-Returns known [] (x ∷ tasks) h some_worker = absurd (omega arith)
assign-Returns known ((sz, wid) ∷ workers) (x ∷ tasks) h some_worker =
    let (r, ran, (all, order)) =
      assign-Returns (give wid x known) (emplace (suc sz, wid) workers) tasks
        (insert-Ordered wid _ known h) (emplace-length (suc sz, wid) workers) in
    (
      r,
      ran,
      (
        λ task.
            omega
              (arith, all task, give-assigned task x wid known h, count-append task (x ∷ []) tasks),
        order,
      ),
    )

module _ {D : Type 0} where
  pub gather-waiting : (qs : List (QueryInfo D)) → (gather qs).0 ≡ waiting qs
  unfolding gather
  gather-waiting [] = refl
  gather-waiting (q ∷ qs) = ground (arith, gather-waiting qs)

  pub reassign-Returns :
      (known : List (ℕ × WorkerInfo)) (queries : List (QueryInfo D)) (new_tasks : List (ℕ × ℕ))
      → Ordered known
      → 1 ≤ length known
      → Returns
          (λ r.
            ((task : ℕ × ℕ)
              → assigned task r.0
                ≡ assigned task known + count task new_tasks + count task (waiting queries))
            × Ordered r.0
            × (r.1 ≡ (gather queries).1))
          (reassign known queries new_tasks)
  unfolding reassign loads
  reassign-Returns [] queries new_tasks h some_known = absurd (omega arith)
  reassign-Returns ((wid, info) ∷ ws) queries new_tasks h some_known =
      let known = (wid, info) ∷ ws in
      let (r, ran, (all, order)) =
        assign-Returns known (loads known []) (new_tasks ++ (gather queries).0) h
          (loads-length ws ((length info.assigned_tasks, wid) ∷ []) (omega arith)) in
      rw ran (
        _,
        refl,
        (
          λ task. omega (
            arith,
            all task,
            count-append task new_tasks (gather queries).0,
            ap (count task) (gather-waiting queries),
          ),
          order,
          refl,
        ),
      )

  -- With a known worker and the known workers in the order of their ids, reassigning returns, and
  -- every task is then assigned as often as before, once more for each time that it is among the
  -- new tasks and for each query in which it is to do.
  pub reassign-assigned :
      (known : List (ℕ × WorkerInfo)) (queries : List (QueryInfo D)) (new_tasks : List (ℕ × ℕ))
      → Ordered known
      → 1 ≤ length known
      → Returns
          (λ r.
            (task : ℕ × ℕ)
            → assigned task r.0
              ≡ assigned task known + count task new_tasks + count task (waiting queries))
          (reassign known queries new_tasks)
  reassign-assigned known queries new_tasks h some_known =
      let (r, ran, all) = reassign-Returns known queries new_tasks h some_known in (r, ran, all.0)
