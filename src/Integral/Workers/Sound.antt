-- ===== src/Integral/Workers/Sound.antt =====
-- hw1/src/leader/leader.cpp: heartbeats, new workers and removed workers, and the tasks in progress.
use to_ftds.Base.{
  ℕ, ◌+◌, ◌<◌, ◌≡◌, refl, ap, ◌∙◌, inl, inr, true, ◌==◌, Bool-cases, Option-cases, List, [], ◌∷◌,
  none, some, arith, All, length, lookup, insert, erase, find_or, Ensures, nat_key,
}
use to_ftds.Integral.{HeartbeatMessage, WorkerInfo, QueryInfo, Leader, idle}
use to_ftds.Integral.Assignment.{count, assigned, Ordered, insert-Ordered, assigned-insert}
use to_ftds.Integral.Invariant.{Sound}
use to_ftds.Integral.Workers.{
  Connection, no_socket, connected, in_progress, refused, next_unused, connect_worker, add_worker,
}

-- The tasks of all known workers stay with an insertion that does not change those of the worker.
pub assigned_kept :
    (wid : ℕ) (info : WorkerInfo) (known : List (ℕ × WorkerInfo)) (task : ℕ × ℕ)
    → Ordered known
    → info.assigned_tasks ≡ (find_or wid idle known).assigned_tasks
    → assigned task (insert wid info known) ≡ assigned task known
assigned_kept wid info known task h e =
    omega (arith, assigned-insert task wid info known h, ap (count task) e)

-- So does the invariant.
pub insert-Sound :
    {D : Type 0} (wid : ℕ) (info : WorkerInfo) (qs : List (QueryInfo D))
    (known : List (ℕ × WorkerInfo))
    → Sound qs known
    → info.assigned_tasks ≡ (find_or wid idle known).assigned_tasks
    → Sound qs (insert wid info known)
insert-Sound wid info qs known s e = record {
  in_order = s.in_order;
  ordered = insert-Ordered wid info known s.ordered;
  assigned_once = λ task. assigned_kept wid info known task s.ordered e ∙ s.assigned_once task;
}

erase_absent :
    (k : ℕ) (m : List (ℕ × WorkerInfo)) → All (λ (v : ℕ × WorkerInfo). k < v.0) m → erase k m ≡ m
erase_absent k [] h = refl
erase_absent k (w ∷ m) h = ground (arith, erase_absent k m h.1)

All-erase :
    (j k : ℕ) (m : List (ℕ × WorkerInfo))
    → All (λ (v : ℕ × WorkerInfo). j < v.0) m
    → All (λ (v : ℕ × WorkerInfo). j < v.0) (erase k m)
All-erase j k [] h = tt
All-erase j k (w ∷ m) h = elim (Bool-cases (w.0 == k)) [
  | inl here ↦ rw here (All-erase j k m h.1)
  | inr other ↦ rw other (h.0, All-erase j k m h.1)
]

pub erase-Ordered : (k : ℕ) (m : List (ℕ × WorkerInfo)) → Ordered m → Ordered (erase k m)
erase-Ordered k [] h = tt
erase-Ordered k (w ∷ m) h = elim (Bool-cases (w.0 == k)) [
  | inl here ↦ rw here (erase-Ordered k m h.1)
  | inr other ↦ rw other (All-erase w.0 k m h.0, erase-Ordered k m h.1)
]

key_eq : (j k : ℕ) → (j == k) ≡ true → j ≡ k
key_eq j k e = ground arith

pub assigned-erase :
    (task : ℕ × ℕ) (k : ℕ) (info : WorkerInfo) (m : List (ℕ × WorkerInfo))
    → Ordered m
    → lookup k m ≡ some info
    → assigned task (erase k m) + count task info.assigned_tasks ≡ assigned task m
assigned-erase task k info [] h e = cc
assigned-erase task k info ((j, w) ∷ m) h e = elim (Bool-cases (j == k)) [
  | inl here ↦
      let low : All (λ (v : ℕ × WorkerInfo). k < v.0) m = rw (key_eq j k here) at h.0 in
      let same : w.assigned_tasks ≡ info.assigned_tasks = ground arith in
      rw (here, erase_absent k m low) (omega (arith, ap (count task) same))
  | inr other ↦ ground (arith, assigned-erase task k info m h.1)
]

module _ {D : Type 0} where
  connect_worker-Sound :
      (c : Connection) (l : Leader D) (unused_id wid : ℕ) (hb : HeartbeatMessage)
      → lookup wid l.known_workers ≡ none
      → Sound l.queries l.known_workers
      → Ensures
          (λ r. Sound r.1.queries r.1.known_workers × (r.1.queries ≡ l.queries))
          (connect_worker c l unused_id wid hb)
  unfolding connect_worker
  connect_worker-Sound no_socket l unused_id wid hb fresh s = tt
  connect_worker-Sound (connected fd) l unused_id wid hb fresh s =
      (insert-Sound wid _ l.queries l.known_workers s (ground arith), refl)
  connect_worker-Sound (in_progress fd) l unused_id wid hb fresh s =
      (insert-Sound wid _ l.queries l.known_workers s (ground arith), refl)
  connect_worker-Sound (refused fd) l unused_id wid hb fresh s = tt

  pub add_worker-Sound :
      (connect : ℕ → Connection) (p : ℕ × Leader D) (hb : ℕ × HeartbeatMessage)
      → Sound p.1.queries p.1.known_workers
      → Ensures
          (λ r. Sound r.1.queries r.1.known_workers × (r.1.queries ≡ p.1.queries))
          (add_worker connect p hb)
  unfolding add_worker
  add_worker-Sound connect (unused_id, l) (wid, hb) s =
      elim (Option-cases (lookup wid l.known_workers)) [
        | inl fresh ↦
            let next = next_unused l.worker_fds unused_id in
            rw (fresh, Ensures)
              (elim (Bool-cases (next == length l.worker_fds)) [
                | inl full ↦ rw (full, Ensures) (s, refl)
                | inr free ↦
                    rw (free, Ensures) (connect_worker-Sound (connect wid) l next wid hb fresh s)
              ])
        | inr (info, e) ↦
            rw (e, Ensures) (insert-Sound wid _ l.queries l.known_workers s (ground arith), refl)
      ]
