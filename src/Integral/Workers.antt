-- ===== src/Integral/Workers.antt =====
-- hw1/src/leader/leader.cpp: `Leader::RunOverWorkers` up to `poll`. It takes up the heartbeats, connects
-- to new workers, removes those that hung up, and assigns tasks.
pub mod Sound
pub mod Removal
pub mod Closing
use to_ftds.Base.{
  ℕ, suc, ◌+◌, ◌==◌, if◌then◌else◌, List, [], ◌∷◌, ◌++◌, Option, none, some, length, get_elem?, set,
  drop, lookup, insert, erase, set_insert, set_erase, Outcome, ok, fault, out_of_range,
  runtime_error, need, ◌>>=◌, for_each, nat_key,
}
use to_ftds.Integral.{
  Double, HeartbeatMessage, WorkerInfo, QueryInfo, Leader, add_queries, reassign,
}

-- What `socket` and `connect` give for a new worker.
pub data Connection : Type 0 where
  no_socket : Connection
  connected : ℕ → Connection
  in_progress : ℕ → Connection
  refused : ℕ → Connection

abbrev pub skip_used : List (Option ℕ) → ℕ
skip_used [] = 0
skip_used (none ∷ fds) = 0
skip_used (some fd ∷ fds) = suc (skip_used fds)

-- The inner `while`: the first place from `i` on that is not in use.
abbrev pub next_unused : List (Option ℕ) → ℕ → ℕ
next_unused fds i = i + skip_used (drop i fds)

-- `workers_to_remove`, sorted and without repetition.
unfoldable pub to_remove : List (ℕ × WorkerInfo) → List ℕ → List ℕ
to_remove known [] = []
to_remove known (wid ∷ wids) = elim (lookup wid known) [
  | none ↦ to_remove known wids
  | some info ↦ set_insert wid (to_remove known wids)
]

module _ {D : Type 0} where
  abbrev pub connected_worker : Leader D → ℕ → ℕ → HeartbeatMessage → ℕ → Leader D
  connected_worker l unused_id wid hb fd = record l {
    worker_fds = set l.worker_fds unused_id (some fd);
    known_workers =
        insert wid
          (record {
            last_heartbeat = hb;
            id = wid;
            position_in_buffer = unused_id;
            assigned_tasks = [];
          })
          l.known_workers;
  }

  unfoldable pub connect_worker :
      Connection → Leader D → ℕ → ℕ → HeartbeatMessage → Outcome (ℕ × Leader D)
  connect_worker no_socket l unused_id wid hb = fault runtime_error
  connect_worker (connected fd) l unused_id wid hb =
      ok (suc unused_id, connected_worker l unused_id wid hb fd)
  connect_worker (in_progress fd) l unused_id wid hb =
      ok (suc unused_id, connected_worker l unused_id wid hb fd)
  connect_worker (refused fd) l unused_id wid hb = fault runtime_error

  -- The body of the loop over the heartbeats, with `unused_id`.
  unfoldable pub add_worker :
      (ℕ → Connection) → ℕ × Leader D → ℕ × HeartbeatMessage → Outcome (ℕ × Leader D)
  unfolding connect_worker
  add_worker connect (unused_id, l) (wid, hb) = elim (lookup wid l.known_workers) [
    | some info ↦ ok (
      unused_id,
      record l { known_workers = insert wid (record info { last_heartbeat = hb }) l.known_workers },
    )
    | none ↦
        let next = next_unused l.worker_fds unused_id in
        if next == length l.worker_fds
        then ok (next, l)
        else connect_worker (connect wid) l next wid hb
  ]

  abbrev pub close : Leader D → Option ℕ → Leader D
  close l none = l
  close l (some fd) = record l { closed = l.closed ++ fd ∷ [] }

  -- `known_workers_.at` and `worker_fds_[]`, with the tasks of those removed.
  pub remove_worker : Leader D × List (ℕ × ℕ) → ℕ → Outcome (Leader D × List (ℕ × ℕ))
  remove_worker (l, new_tasks) wid = elim (lookup wid l.known_workers) [
    | none ↦ fault out_of_range
    | some info ↦ need (get_elem? l.worker_fds info.position_in_buffer) >>= λ fd. ok (
      record (close l fd) {
        worker_fds = set l.worker_fds info.position_in_buffer none;
        known_workers = erase wid l.known_workers;
      },
      new_tasks ++ info.assigned_tasks,
    )
  ]

  abbrev pub put_back : QueryInfo D → ℕ → QueryInfo D
  put_back q task_id = record q {
    tasks_in_progress = set_erase task_id q.tasks_in_progress;
    tasks_to_do = set_insert task_id q.tasks_to_do;
  }

  pub return_task : List (QueryInfo D) → ℕ × ℕ → Outcome (List (QueryInfo D))
  return_task queries (query_id, task_id) =
      need (get_elem? queries query_id) >>= λ q. ok (set queries query_id (put_back q task_id))

  -- The tasks go back only if there is no worker.
  pub return_tasks :
      List (ℕ × WorkerInfo) → List (QueryInfo D) → List (ℕ × ℕ) → Outcome (List (QueryInfo D))
  unfolding return_task
  return_tasks [] queries new_tasks = for_each return_task queries new_tasks
  return_tasks (w ∷ ws) queries new_tasks = ok queries

  -- The removal and the assignment.
  unfoldable pub reassign_tasks : Leader D → Outcome (Leader D)
  unfolding remove_worker return_tasks
  reassign_tasks l =
      for_each remove_worker (record l { wid_to_delete = [] }, [])
        (to_remove l.known_workers l.wid_to_delete)
      >>= λ removed. return_tasks removed.0.known_workers removed.0.queries removed.1 >>= λ queries.
          reassign removed.0.known_workers queries removed.1 >>= λ assigned.
          ok (record removed.0 { known_workers = assigned.0; queries = assigned.1 })

module _ {D : Type 0} ⦃double : Double D⦄ where
  -- The swaps under the locks and the new queries.
  unfoldable pub take_updates : Leader D → Leader D
  take_updates l = record l {
    hb_updates = [];
    new_tasks = [];
    queries = add_queries l.queries l.new_tasks;
  }

  unfoldable pub prepare : (ℕ → Connection) → Leader D → Outcome (Leader D)
  unfolding take_updates add_worker reassign_tasks
  prepare connect l = for_each (add_worker connect) (0, take_updates l) l.hb_updates >>= λ added.
      reassign_tasks added.1
