-- ===== src/Integral/Round.antt =====
-- hw1/src/leader/leader.cpp: a round of `Leader::RunOverWorkers` in which no worker has answered yet.
use to_ftds.Base.{
  ℕ, zero, suc, ◌+◌, ◌≤◌, ◌<◌, ◌≡◌, ◌≢◌, refl, ◌∙◌, Bool-cases, Option-cases, inl, inr, true, false,
  ◌==◌, if◌then◌else◌, List, [], ◌∷◌, ◌++◌, append-nil, append_assoc, Option, none, some, take_all,
  arith, length, get_elem?, get_elem?-lt, range, lookup, insert, find_or, contains, contains-All,
  nat_key, Returns, ok, of_Ensures, for_each, ◌>>=◌, ap, need, Bool, Outcome, fault, runtime_error,
  subst, sym,
}
use to_ftds.Integral.{Double, WorkerInfo, QueryInfo, Task, Leader}
use to_ftds.Integral.Assignment.{assigned, count, Ordered, lookup-below, All-below}
use to_ftds.Integral.Places.{From-at}
use to_ftds.Integral.Invariant.{SoundQuery, Sound}
use to_ftds.Integral.Workers.{prepare}
use to_ftds.Integral.Workers.Removal.{prepare-Sound}
use to_ftds.Integral.Serving.{Network, worker_at, send_first, send_task, serve, run_once, worker_id}

insert-same :
    (wid : ℕ) (info : WorkerInfo) (known : List (ℕ × WorkerInfo))
    → Ordered known
    → lookup wid known ≡ some info
    → insert wid info known ≡ known
insert-same wid info [] h e = cc
insert-same wid info ((j, w) ∷ known) h e = elim (Bool-cases (j == wid)) [
  | inl same ↦ ground arith
  | inr other ↦
      ground (arith, insert-same wid info known h.1, lookup-below wid known, All-below wid j known)
]

worker_at-lookup :
    (i wid : ℕ) (known : List (ℕ × WorkerInfo))
    → worker_at known i ≡ some wid
    → (info : WorkerInfo) × (lookup wid known ≡ some info)
worker_at-lookup i wid [] e = cc
worker_at-lookup i wid ((k, info) ∷ known) e = elim (Bool-cases (k == wid)) [
  | inl same ↦ (info, ground arith)
  | inr other ↦ elim (Bool-cases (info.position_in_buffer == i)) [
    | inl here ↦ absurd (ground arith)
    | inr there ↦
        let (found, p) = worker_at-lookup i wid known (ground arith) in (found, ground arith)
  ]
]

first-assigned :
    (wid : ℕ) (info : WorkerInfo) (task : ℕ × ℕ) (tasks : List (ℕ × ℕ))
    (known : List (ℕ × WorkerInfo))
    → lookup wid known ≡ some info
    → info.assigned_tasks ≡ task ∷ tasks
    → 1 ≤ assigned task known
first-assigned wid info task tasks [] e first = cc
first-assigned wid info task tasks ((k, other) ∷ known) e first = elim (Bool-cases (k == wid)) [
  | inl same ↦
      let here : other.assigned_tasks ≡ task ∷ tasks = ground arith in
      let counted : 1 ≤ count task other.assigned_tasks = rw here (ground arith) in
      omega (arith, counted)
  | inr later ↦ omega (arith, first-assigned wid info task tasks known (ground arith) first)
]

module _ {D : Type 0} where
  first-slice :
      (queries : List (QueryInfo D)) (known : List (ℕ × WorkerInfo)) (wid qid tid : ℕ)
      (info : WorkerInfo) (tasks : List (ℕ × ℕ))
      → Sound queries known
      → lookup wid known ≡ some info
      → info.assigned_tasks ≡ (qid, tid) ∷ tasks
      → (q : QueryInfo D) × (get_elem? queries qid ≡ some q)
        × (task : Task D) × (get_elem? q.all_tasks tid ≡ some task)
  first-slice queries known wid qid tid info tasks s e first =
      let given = first-assigned wid info (qid, tid) tasks known e first in
      elim (Option-cases (get_elem? queries qid)) [
        | inl missing ↦ absurd (ground (arith, s.assigned_once (qid, tid)))
        | inr (q, at) ↦
            let sound = From-at SoundQuery 0 qid qid queries q s.in_order at (omega arith) in
            let doing : contains tid q.tasks_in_progress ≡ true =
              ground (arith, s.assigned_once (qid, tid)) in
            let low =
              contains-All (λ t. t < length q.all_tasks) tid q.tasks_in_progress sound.0.0.2
                doing in
            let (task, slice) = get_elem?-lt q.all_tasks tid low in (q, at, task, slice)
      ]

  -- What the round sends for the places, in their order: nothing for a free place, for a worker without
  -- a task or for one that takes nothing; otherwise, to the descriptor, the worker's first task.
  pub data Requests (net : Network D) (l : Leader D) : List ℕ → List (ℕ × List ℕ) → Type 0 where
    done : Requests net l [] []
    free :
        {i : ℕ} {places : List ℕ} {requests : List (ℕ × List ℕ)}
        → get_elem? l.worker_fds i ≡ some none
        → Requests net l places requests
        → Requests net l (i ∷ places) requests
    blocked :
        {i : ℕ} {places : List ℕ} {requests : List (ℕ × List ℕ)}
        → (net.events i).writable ≡ false
        → Requests net l places requests
        → Requests net l (i ∷ places) requests
    unused :
        {i : ℕ} {places : List ℕ} {requests : List (ℕ × List ℕ)} (wid : ℕ) (info : WorkerInfo)
        → worker_at l.known_workers i ≡ some wid
        → lookup wid l.known_workers ≡ some info
        → info.assigned_tasks ≡ []
        → Requests net l places requests
        → Requests net l (i ∷ places) requests
    asks :
        {i : ℕ} {places : List ℕ} {requests : List (ℕ × List ℕ)} (fd wid qid tid : ℕ)
        (info : WorkerInfo) (tasks : List (ℕ × ℕ)) (q : QueryInfo D) (task : Task D)
        → (net.events i).writable ≡ true
        → get_elem? l.worker_fds i ≡ some (some fd)
        → worker_at l.known_workers i ≡ some wid
        → lookup wid l.known_workers ≡ some info
        → info.assigned_tasks ≡ (qid, tid) ∷ tasks
        → get_elem? l.queries qid ≡ some q
        → get_elem? q.all_tasks tid ≡ some task
        → Requests net l places requests
        → Requests net l (i ∷ places) ((fd, net.write_task task.a task.b qid tid) ∷ requests)

  -- No place is hung up or has an answer, and a send takes the whole text of a task.
  pub record Silent (net : Network D) : Type 0 where
    pub polled : net.poll_failed ≡ false
    pub there : (i : ℕ) → (net.events i).hung_up ≡ false
    pub quiet : (i : ℕ) → (net.events i).readable ≡ false
    pub takes :
        (i : ℕ) (a b : D) (qid tid : ℕ)
        → (k : ℕ) × (net.written i ≡ some k) × (length (net.write_task a b qid tid) ≤ k)

  -- Each place in use is that of a worker, whose id is not the number of workers.
  abbrev pub Placed : Leader D → Type 0
  Placed l =
      (i fd : ℕ)
      → get_elem? l.worker_fds i ≡ some (some fd)
      → (wid : ℕ) × (worker_at l.known_workers i ≡ some wid) × (wid ≢ length l.known_workers)

  abbrev with_sent : Leader D → List (ℕ × List ℕ) → Leader D
  with_sent l sent = record l { sent = sent }

  -- One place adds its request, or nothing.
  abbrev Adds : Network D → Leader D → ℕ → List (ℕ × List ℕ) → Leader D → Type 0
  Adds net l i sent m =
      (new : List (ℕ × List ℕ)) × (m ≡ with_sent l (sent ++ new))
      × ((places : List ℕ) (requests : List (ℕ × List ℕ))
          → Requests net l places requests
          → Requests net l (i ∷ places) (new ++ requests))

  send_task-Adds :
      (net : Network D) (l : Leader D) (i fd wid : ℕ) (sent : List (ℕ × List ℕ))
      → Silent net
      → Sound l.queries l.known_workers
      → (net.events i).writable ≡ true
      → get_elem? l.worker_fds i ≡ some (some fd)
      → worker_at l.known_workers i ≡ some wid
      → Returns (Adds net l i sent) (send_task net (with_sent l sent) i wid fd)
  unfolding send_task send_first
  send_task-Adds net l i fd wid sent silent s writable used place =
      let (info, e) = worker_at-lookup i wid l.known_workers place in
      rw (send_task, find_or, e, insert-same wid info l.known_workers s.ordered e)
        (first info e info.assigned_tasks refl)
    where
      first :
          (info : WorkerInfo)
          → lookup wid l.known_workers ≡ some info
          → (tasks : List (ℕ × ℕ)) → info.assigned_tasks ≡ tasks
          → Returns (Adds net l i sent) (send_first net (with_sent l sent) i wid fd tasks)
      first info e [] none_given = (
        with_sent l sent,
        refl,
        (
          [],
          rw (append-nil sent) refl,
          λ places requests rest. unused wid info place e none_given rest,
        ),
      )
      first info e ((qid, tid) ∷ tasks) given =
          let (q, at, task, slice) =
            first-slice l.queries l.known_workers wid qid tid info tasks s e given in
          let (k, written, enough) = silent.takes i task.a task.b qid tid in
          rw (at, slice, written, take_all k (net.write_task task.a task.b qid tid) enough)
            (
              _,
              refl,
              (
                (fd, net.write_task task.a task.b qid tid) ∷ [],
                refl,
                λ places requests rest.
                    asks fd wid qid tid info tasks q task writable used place e given at slice rest,
              ),
            )

passes :
    {A : Type 0} (failed : Bool) (r : Outcome A)
    → failed ≡ false
    → (if failed then fault runtime_error else r) ≡ r
passes failed r e = rw e refl

module _ {D : Type 0} ⦃double : Double D⦄ where
  serve-Adds :
      (net : Network D) (l : Leader D) (i : ℕ) (sent : List (ℕ × List ℕ))
      → Silent net
      → Sound l.queries l.known_workers
      → Placed l
      → i < length l.worker_fds
      → Returns (Adds net l i sent) (serve net (length l.known_workers) (with_sent l sent) i)
  unfolding serve
  serve-Adds net l i sent silent s placed inside =
      let (slot, at) = get_elem?-lt l.worker_fds i inside in on_slot slot at
    where
      on_slot :
          (slot : Option ℕ)
          → get_elem? l.worker_fds i ≡ some slot
          → Returns (Adds net l i sent) (serve net (length l.known_workers) (with_sent l sent) i)
      on_slot none at = rw at (
        with_sent l sent,
        refl,
        ([], rw (append-nil sent) refl, λ places requests rest. free at rest),
      )
      on_slot (some fd) at =
          let (wid, place, apart) = placed i fd at in
          let other : (wid == length l.known_workers) ≡ false = ground arith in
          rw (at, need, ◌>>=◌, worker_id, place, other, silent.there i, silent.quiet i)
            (elim (Bool-cases (net.events i).writable) [
              | inl writable ↦
                  rw writable (send_task-Adds net l i fd wid sent silent s writable at place)
              | inr full ↦ rw full (
                with_sent l sent,
                refl,
                ([], rw (append-nil sent) refl, λ places requests rest. blocked full rest),
              )
            ])

  loop-Requests :
      (net : Network D) (l : Leader D) (i rounds : ℕ) (sent : List (ℕ × List ℕ))
      → Silent net
      → Sound l.queries l.known_workers
      → Placed l
      → i + rounds ≤ length l.worker_fds
      → Returns
          (λ m.
            (requests : List (ℕ × List ℕ)) × Requests net l (range i rounds) requests
            × (m ≡ with_sent l (sent ++ requests)))
          (for_each (serve net (length l.known_workers)) (with_sent l sent) (range i rounds))
  unfolding for_each
  loop-Requests net l i zero sent silent s placed fits =
      (with_sent l sent, refl, ([], done, rw (append-nil sent) refl))
  loop-Requests net l i (suc rounds) sent silent s placed fits =
      let (m, e, (new, same, adds)) = serve-Adds net l i sent silent s placed (omega arith) in
      let (n, e', (requests, run, same')) =
        loop-Requests net l (suc i) rounds (sent ++ new) silent s placed (omega arith) in
      rw (e, same, e')
        (
          n,
          refl,
          (
            new ++ requests,
            adds (range (suc i) rounds) requests run,
            same' ∙ ap (λ z. with_sent l z) (append_assoc sent new requests),
          ),
        )

  -- In a round whose poll succeeds, where no place is hung up or has an answer and a send takes
  -- the whole text of a task, from a leader whose tasks in progress are each assigned once, and
  -- which has a worker for each place in use after the new workers and tasks were taken up, none
  -- with the number of workers as its id: the round returns, having sent for each place in turn
  -- the slice of the first task of its worker, with the ids of query and task, where the place is
  -- in use and writable and the worker has a task, and nothing else; the rest of the leader stays
  -- as it was when new workers and tasks had been taken up.
  pub run_once-Requests :
      (net : Network D) (l m : Leader D)
      → Silent net
      → Sound l.queries l.known_workers
      → prepare net.connect l ≡ ok m
      → Placed m
      → Returns
          (λ n.
            (requests : List (ℕ × List ℕ)) × Requests net m (range 0 (length m.worker_fds)) requests
            × (n ≡ record m { sent = m.sent ++ requests }))
          (run_once net l)
  unfolding run_once
  run_once-Requests net l m silent s prepared placed =
      let sound =
        of_Ensures (λ n. Sound n.queries n.known_workers) _ m (prepare-Sound net.connect l s)
          prepared in
      rw prepared (
        subst (Returns _) (sym (passes net.poll_failed _ silent.polled))
          (loop-Requests net m 0 (length m.worker_fds) m.sent silent sound placed (omega arith)))
