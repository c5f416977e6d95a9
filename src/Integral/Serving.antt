-- ===== src/Integral/Serving.antt =====
-- hw1/src/leader/leader.cpp: `Leader::RunOverWorkers` from `poll` on. It reads results and sends tasks.
pub mod Sound
use to_ftds.Base.{
  ℕ, zero, suc, ◌==◌, if◌then◌else◌, Bool, true, false, List, [], ◌∷◌, ◌++◌, Option, none, some,
  length, get_elem?, set, range, insert, find_or, contains, set_erase, Outcome, ok, fault,
  bad_access, runtime_error, need, ◌>>=◌, for_each, nat_key, take,
}
use to_ftds.Integral.{Double, WorkerInfo, QueryInfo, Leader, Task, idle}
use to_ftds.Integral.Workers.{Connection, prepare}

-- `revents`: `POLLERR | POLLHUP`, `POLLIN`, `POLLOUT`.
pub record Events : Type 0 where
  pub hung_up : Bool
  pub readable : Bool
  pub writable : Bool

-- The system during one round, by the place in `worker_fds_`; `received` is `none` where `recv` gives 0
-- or -1, and `written` where `send` gives -1. The streams read a result with its query and task, and write a task.
pub record Network (D : Type 0) : Type 0 where
  pub connect : ℕ → Connection
  pub poll_failed : Bool
  pub events : ℕ → Events
  pub received : ℕ → Option (List ℕ)
  pub written : ℕ → Option ℕ
  pub read_result : List ℕ → D × ℕ × ℕ
  pub write_task : D → D → ℕ → ℕ → List ℕ

-- The search for the worker at a place.
abbrev pub worker_at : List (ℕ × WorkerInfo) → ℕ → Option ℕ
worker_at [] i = none
worker_at ((wid, info) ∷ known) i =
    if info.position_in_buffer == i then some wid else worker_at known i

-- `known_workers_[wid].assigned_tasks.erase(begin())`, undefined where there is none.
unfoldable pub drop_task : List (ℕ × WorkerInfo) → ℕ → Outcome (List (ℕ × WorkerInfo))
drop_task known wid =
    let info = find_or wid idle known in
    elim info.assigned_tasks [
      | [] ↦ fault bad_access
      | task ∷ tasks ↦ ok (insert wid (record info { assigned_tasks = tasks }) known)
    ]

module _ {D : Type 0} where
  -- `wid`, which is the number of places where no worker has the place.
  abbrev pub worker_id : Leader D → ℕ → ℕ
  worker_id l i = elim (worker_at l.known_workers i) [ none ↦ length l.worker_fds | some wid ↦ wid ]

  abbrev pub hang_up : Leader D → ℕ → ℕ → Leader D
  hang_up l wid fd = record l {
    wid_to_delete = l.wid_to_delete ++ wid ∷ [];
    closed = l.closed ++ fd ∷ [];
  }

  -- The first task of the worker is sent, and stays assigned.
  unfoldable pub send_first : Network D → Leader D → ℕ → ℕ → ℕ → List (ℕ × ℕ) → Outcome (Leader D)
  send_first net l i wid fd [] = ok l
  send_first net l i wid fd ((qid, tid) ∷ tasks) = need (get_elem? l.queries qid) >>= λ q.
      need (get_elem? q.all_tasks tid) >>= λ (task : Task D). elim (net.written i) [
        | none ↦ ok (hang_up l wid fd)
        | some k ↦
            ok (record l {
              sent = l.sent ++ (fd, take k (net.write_task task.a task.b qid tid)) ∷ [];
            })
      ]

  -- `known_workers_[wid]` makes an entry where there is none.
  unfoldable pub send_task : Network D → Leader D → ℕ → ℕ → ℕ → Outcome (Leader D)
  unfolding send_first
  send_task net l i wid fd =
      let info = find_or wid idle l.known_workers in
      send_first net (record l { known_workers = insert wid info l.known_workers }) i wid fd
        info.assigned_tasks

module _ {D : Type 0} ⦃double : Double D⦄ where
  abbrev pub finish : QueryInfo D → ℕ → D → QueryInfo D
  finish q tid result = record q {
    result = double.plus q.result result;
    tasks_in_progress = set_erase tid q.tasks_in_progress;
  }

  unfoldable pub take_result : Leader D → ℕ → D → ℕ → ℕ → Outcome (Leader D)
  unfolding drop_task
  take_result l wid result qid tid = need (get_elem? l.queries qid) >>= λ q.
      if contains tid q.tasks_in_progress
      then (drop_task l.known_workers wid >>= λ known.
          ok
            (record l { known_workers = known; queries = set l.queries qid (finish q tid result) }))
      else ok l

  unfoldable pub read_reply : Network D → Leader D → ℕ → ℕ → ℕ → Outcome (Leader D)
  unfolding take_result
  read_reply net l i wid fd = elim (net.received i) [
    | none ↦ ok (hang_up l wid fd)
    | some text ↦ let (result, qid, tid) = net.read_result text in take_result l wid result qid tid
  ]

  -- The body of the loop over `worker_fds_`. `ENSURE` compares the id with `workers.size()`, which is
  -- the number of workers known when the tasks were assigned.
  unfoldable pub serve : Network D → ℕ → Leader D → ℕ → Outcome (Leader D)
  unfolding read_reply send_task
  serve net workers_size l i = need (get_elem? l.worker_fds i) >>= λ slot. elim slot [
    | none ↦ ok l
    | some fd ↦
        let wid = worker_id l i in
        let l' = if (net.events i).hung_up then hang_up l wid fd else l in
        if wid == workers_size
        then fault runtime_error
        else ((if (net.events i).readable then read_reply net l' i wid fd else ok l') >>= λ m.
            if (net.events i).writable then send_task net m i wid fd else ok m)
  ]

  -- One round of `RunOverWorkers`.
  unfoldable pub run_once : Network D → Leader D → Outcome (Leader D)
  unfolding serve
  run_once net l = prepare net.connect l >>= λ m.
      if net.poll_failed
      then fault runtime_error
      else for_each (serve net (length m.known_workers)) m (range 0 (length m.worker_fds))

  -- `RunOverWorkers`, with the system of each round.
  pub run_over_workers : List (Network D) → Leader D → Outcome (Leader D)
  unfolding run_once
  run_over_workers [] l = ok l
  run_over_workers (net ∷ nets) l =
      let rest = run_once net l >>= run_over_workers nets in if l.is_stopped then ok l else rest
