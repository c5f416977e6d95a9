-- ===== src/Integral/Serving/Sound.antt =====
-- hw1/src/leader/leader.cpp: results and sent tasks, and the tasks in progress.
use to_ftds.Base.{
  ℕ, ◌<◌, ◌≡◌, refl, ap, inl, inr, true, ◌==◌, if◌then◌else◌, Bool-cases, Option-cases, List, [],
  ◌∷◌, some, arith, length, get_elem?, insert, find_or, contains, contains-set_erase,
  set_erase-Increasing, All-set_erase, Outcome, ok, fault, need, ◌>>=◌, >>=-Ensures, Ensures,
  nat_key,
}
use to_ftds.Integral.{Double, WorkerInfo, QueryInfo, Leader, idle}
use to_ftds.Integral.Assignment.{count, insert-Ordered, assigned-insert}
use to_ftds.Integral.Places.{From-at, From-set}
use to_ftds.Integral.Invariant.{progress, SoundQuery, Sound, progress-set}
use to_ftds.Integral.Workers.Sound.{insert-Sound}
use to_ftds.Integral.Serving.{
  Network, worker_id, hang_up, drop_task, send_task, finish, take_result, read_reply, serve,
  send_first,
}

-- A worker answers the task that it was sent, which is its first, or one that is finished.
abbrev pub HonestReply :
    {D : Type 0} → List (QueryInfo D) → List (ℕ × WorkerInfo) → ℕ → ℕ × ℕ → Type 0
HonestReply qs known wid task =
    progress qs task ≡ true → get_elem? (find_or wid idle known).assigned_tasks 0 ≡ some task

abbrev pub Honest : {D : Type 0} → Network D → Leader D → ℕ → Type 0
Honest net l i =
    (text : List ℕ)
    → net.received i ≡ some text
    → HonestReply l.queries l.known_workers (worker_id l i)
        ((net.read_result text).1, (net.read_result text).2)

first_of :
    (task : ℕ × ℕ) (tasks : List (ℕ × ℕ))
    → get_elem? tasks 0 ≡ some task
    → (rest : List (ℕ × ℕ)) × (tasks ≡ task ∷ rest)
first_of task [] e = cc
first_of task (x ∷ rest) e = (rest, cc)

pub drop_task_first :
    (known : List (ℕ × WorkerInfo)) (wid : ℕ) (task : ℕ × ℕ) (tasks : List (ℕ × ℕ))
    → (find_or wid idle known).assigned_tasks ≡ task ∷ tasks
    → drop_task known wid
      ≡ ok (insert wid (record (find_or wid idle known) { assigned_tasks = tasks }) known)
unfolding drop_task
drop_task_first known wid task tasks e = ground arith

any : {A : Type 0} (o : Outcome A) → Ensures (λ _. Unit {0}) o
any (ok a) = tt
any (fault f) = tt

module _ {D : Type 0} ⦃double : Double D⦄ where
  finish-Sound :
      (i t : ℕ) (q : QueryInfo D) (result : D) → SoundQuery i q → SoundQuery i (finish q t result)
  finish-Sound i t q result (((id, todo, doing), up, up'), apart) = (
    (
      (id, todo, All-set_erase (λ u. u < length q.all_tasks) t q.tasks_in_progress doing),
      up,
      set_erase-Increasing t q.tasks_in_progress up',
    ),
    ground (arith, apart),
  )

  take_result-Sound :
      (l : Leader D) (wid : ℕ) (result : D) (qid tid : ℕ)
      → Sound l.queries l.known_workers
      → HonestReply l.queries l.known_workers wid (qid, tid)
      → Ensures (λ m. Sound m.queries m.known_workers) (take_result l wid result qid tid)
  unfolding take_result
  take_result-Sound l wid result qid tid s honest = elim (Option-cases (get_elem? l.queries qid)) [
    | inl missing ↦ rw (missing, Ensures) tt
    | inr (q, e) ↦
        rw (e, Ensures)
          (elim (Bool-cases (contains tid q.tasks_in_progress)) [
            | inl doing ↦
                let (tasks, first) =
                  first_of (qid, tid) (find_or wid idle l.known_workers).assigned_tasks
                    (honest (ground arith)) in
                let dropped = drop_task_first l.known_workers wid (qid, tid) tasks first in
                let info = record (find_or wid idle l.known_workers) { assigned_tasks = tasks } in
                rw (doing, dropped, Ensures)
                  (record {
                    in_order =
                        From-set SoundQuery 0 qid qid l.queries (finish q tid result) s.in_order
                          (omega arith)
                          (finish-Sound qid tid q result
                            (From-at SoundQuery 0 qid qid l.queries q s.in_order e (omega arith)));
                    ordered = insert-Ordered wid info l.known_workers s.ordered;
                    assigned_once = λ task. ground (
                      arith,
                      s.assigned_once task,
                      assigned-insert task wid info l.known_workers s.ordered,
                      ap (count task) first,
                      progress-set l.queries qid task.1 task.0 q (finish q tid result) e,
                      contains-set_erase tid task.1 q.tasks_in_progress,
                    );
                  })
            | inr other ↦ rw (other, Ensures) s
          ])
  ]

  read_reply-Sound :
      (net : Network D) (l : Leader D) (i wid fd : ℕ)
      → Sound l.queries l.known_workers
      → ((text : List ℕ)
          → net.received i ≡ some text
          → HonestReply l.queries l.known_workers wid
              ((net.read_result text).1, (net.read_result text).2))
      → Ensures (λ m. Sound m.queries m.known_workers) (read_reply net l i wid fd)
  unfolding read_reply
  read_reply-Sound net l i wid fd s honest = elim (Option-cases (net.received i)) [
    | inl nothing ↦ rw (nothing, Ensures) s
    | inr (text, e) ↦
        let (result, qid, tid) = net.read_result text in
        rw (e, Ensures) (take_result-Sound l wid result qid tid s (honest text e))
  ]

  send_first-Sound :
      (net : Network D) (l : Leader D) (i wid fd : ℕ) (tasks : List (ℕ × ℕ))
      → Sound l.queries l.known_workers
      → Ensures (λ m. Sound m.queries m.known_workers) (send_first net l i wid fd tasks)
  unfolding send_first
  send_first-Sound net l i wid fd [] s = s
  send_first-Sound net l i wid fd ((qid, tid) ∷ tasks) s =
      >>=-Ensures (λ _. Unit {0}) _ (need (get_elem? l.queries qid)) _ (any _)
        λ q _.
          >>=-Ensures (λ _. Unit {0}) _ (need (get_elem? q.all_tasks tid)) _ (any _)
            λ task _. elim (Option-cases (net.written i)) [
              | inl failed ↦ rw (failed, Ensures) s
              | inr (k, sent) ↦ rw (sent, Ensures) s
            ]

  send_task-Sound :
      (net : Network D) (l : Leader D) (i wid fd : ℕ)
      → Sound l.queries l.known_workers
      → Ensures (λ m. Sound m.queries m.known_workers) (send_task net l i wid fd)
  unfolding send_task
  send_task-Sound net l i wid fd s =
      let info = find_or wid idle l.known_workers in
      send_first-Sound net (record l { known_workers = insert wid info l.known_workers }) i wid fd
        info.assigned_tasks (insert-Sound wid info l.queries l.known_workers s refl)

  -- With the reply read, where there is one.
  serve_fd-Sound :
      (net : Network D) (l : Leader D) (i wid fd : ℕ)
      → Sound l.queries l.known_workers
      → ((text : List ℕ)
          → net.received i ≡ some text
          → HonestReply l.queries l.known_workers wid
              ((net.read_result text).1, (net.read_result text).2))
      → Ensures
          (λ m. Sound m.queries m.known_workers)
          ((if (net.events i).readable then read_reply net l i wid fd else ok l) >>= λ m.
            if (net.events i).writable then send_task net m i wid fd else ok m)
  serve_fd-Sound net l i wid fd s honest =
      >>=-Ensures (λ m. Sound m.queries m.known_workers) _
        (if (net.events i).readable then read_reply net l i wid fd else ok l) _
        (elim (Bool-cases (net.events i).readable) [
          | inl readable ↦ rw (readable, Ensures) (read_reply-Sound net l i wid fd s honest)
          | inr silent ↦ rw (silent, Ensures) s
        ])
        λ m sound. elim (Bool-cases (net.events i).writable) [
          | inl writable ↦ rw (writable, Ensures) (send_task-Sound net m i wid fd sound)
          | inr blocked ↦ rw (blocked, Ensures) sound
        ]

  pub serve-Sound :
      (net : Network D) (workers_size : ℕ) (l : Leader D) (i : ℕ)
      → Sound l.queries l.known_workers
      → Honest net l i
      → Ensures (λ m. Sound m.queries m.known_workers) (serve net workers_size l i)
  unfolding serve
  serve-Sound net workers_size l i s honest =
      >>=-Ensures (λ _. Unit {0}) _ (need (get_elem? l.worker_fds i)) _ (any _)
        λ slot _. elim (Option-cases slot) [
          | inl free ↦ rw (free, Ensures) s
          | inr (fd, used) ↦
              rw (used, Ensures)
                (elim (Bool-cases (worker_id l i == workers_size)) [
                  | inl clash ↦ rw (clash, Ensures) tt
                  | inr apart ↦
                      rw (apart, Ensures)
                        (elim (Bool-cases (net.events i).hung_up) [
                          | inl gone ↦
                              rw (gone, Ensures)
                                (serve_fd-Sound net (hang_up l (worker_id l i) fd) i (worker_id l i)
                                  fd s honest)
                          | inr there ↦
                              rw (there, Ensures)
                                (serve_fd-Sound net l i (worker_id l i) fd s honest)
                        ])
                ])
        ]
