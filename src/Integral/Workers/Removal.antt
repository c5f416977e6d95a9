-- ===== src/Integral/Workers/Removal.antt =====
-- hw1/src/leader/leader.cpp: what becomes of the tasks of the workers that are removed.
use to_ftds.Base.{
  ℕ, zero, suc, ◌+◌, ◌<◌, ◌≡◌, refl, ap, sym, ◌∙◌, inl, inr, true, false, Option-cases, List, [],
  ◌∷◌, Option, none, some, arith, length, get_elem?, set, lookup, contains, contains-set_erase,
  set_erase-Increasing, set_insert-Increasing, All-set_erase, All-set_insert_of, Outcome, ok, fault,
  need, ◌>>=◌, Ensures, for_each, nat_key, >>=-Ensures, contains-All, no_contains-nil,
  for_each-Keeps, Returns-Ensures, >>=_assoc, Ensures-map,
}
use to_ftds.Integral.{Double, WorkerInfo, QueryInfo, Leader, reassign}
use to_ftds.Integral.Assignment.{count, assigned, Ordered, count-append}
use to_ftds.Integral.Places.{From, From-at, From-set}
use to_ftds.Integral.Invariant.{progress, once, RangedQuery, SoundQuery, Sound, progress-set}
use to_ftds.Integral.Planning.{reassign-Sound, add_queries-Sound, reassign_none}
use to_ftds.Integral.Workers.{
  Connection, add_worker, to_remove, close, remove_worker, put_back, return_task, return_tasks,
  reassign_tasks, take_updates, prepare,
}
use to_ftds.Integral.Workers.Sound.{erase-Ordered, assigned-erase, add_worker-Sound}

-- While workers are removed, their tasks are kept.
record Kept {D : Type 0} (l : Leader D) (p : Leader D × List (ℕ × ℕ)) : Type 0 where
  ordered : Ordered p.0.known_workers
  account :
      (task : ℕ × ℕ)
      → assigned task p.0.known_workers + count task p.1 ≡ assigned task l.known_workers
  queries : p.0.queries ≡ l.queries

module _ {D : Type 0} where
  close-queries : (l : Leader D) (fd : Option ℕ) → (close l fd).queries ≡ l.queries
  close-queries l none = refl
  close-queries l (some fd) = refl

  remove_worker-Kept :
      (l : Leader D) (p : Leader D × List (ℕ × ℕ)) (wid : ℕ)
      → Kept l p
      → Ensures (Kept l) (remove_worker p wid)
  unfolding remove_worker
  remove_worker-Kept l (m, tasks) wid k = elim (Option-cases (lookup wid m.known_workers)) [
    | inl missing ↦ rw (missing, Ensures) tt
    | inr (info, e) ↦
        rw (e, Ensures)
          (>>=-Ensures (λ _. Unit {0}) (Kept l)
            (need (get_elem? m.worker_fds info.position_in_buffer)) _ (trivial _)
            (λ fd _. record {
              ordered = erase-Ordered wid m.known_workers (k.ordered);
              account = λ task. omega (
                arith,
                k.account task,
                count-append task tasks info.assigned_tasks,
                assigned-erase task wid info m.known_workers k.ordered e,
              );
              queries = close-queries m fd ∙ k.queries;
            }))
  ]
    where
      trivial : (o : Outcome (Option ℕ)) → Ensures (λ _. Unit {0}) o
      trivial (ok a) = tt
      trivial (fault f) = tt

  put_back-Ranged :
      (i t : ℕ) (q : QueryInfo D)
      → RangedQuery i q
      → contains t q.tasks_in_progress ≡ true
      → RangedQuery i (put_back q t)
  put_back-Ranged i t q ((id, todo, doing), up, up') there =
      let low : t < length q.all_tasks =
        contains-All (λ u. u < length q.all_tasks) t q.tasks_in_progress doing there in
      (
        (
          id,
          All-set_insert_of (λ u. u < length q.all_tasks) t q.tasks_to_do low todo,
          All-set_erase (λ u. u < length q.all_tasks) t q.tasks_in_progress doing,
        ),
        set_insert-Increasing t q.tasks_to_do up,
        set_erase-Increasing t q.tasks_in_progress up',
      )

  return_tasks-Ranged :
      (qs : List (QueryInfo D)) (tasks : List (ℕ × ℕ))
      → From RangedQuery 0 qs
      → ((task : ℕ × ℕ) → count task tasks ≡ once (progress qs task))
      → Ensures
          (λ r. From RangedQuery 0 r × ((task : ℕ × ℕ) → progress r task ≡ false))
          (for_each return_task qs tasks)
  unfolding for_each return_task
  return_tasks-Ranged qs [] h account = (h, λ task. ground (arith, account task))
  return_tasks-Ranged qs ((q, t) ∷ tasks) h account = elim (Option-cases (get_elem? qs q)) [
    | inl missing ↦ rw (missing, Ensures) tt
    | inr (info, e) ↦
        rw (e, Ensures)
          (return_tasks-Ranged (set qs q (put_back info t)) tasks
            (From-set RangedQuery 0 q q qs (put_back info t) h (omega arith) (
              put_back-Ranged q t info (From-at RangedQuery 0 q q qs info h e (omega arith))
                (ground (arith, account (q, t)))))
            (λ task. ground (
              arith,
              account task,
              progress-set qs q task.1 task.0 info (put_back info t) e,
              contains-set_erase t task.1 info.tasks_in_progress,
            )))
  ]

  idle-Sound :
      (i : ℕ) (qs : List (QueryInfo D))
      → From RangedQuery i qs
      → ((task : ℕ × ℕ) → progress qs task ≡ false)
      → From SoundQuery i qs
  idle-Sound i [] h free = tt
  idle-Sound i (q ∷ qs) h free = (
    (h.0, inr (no_contains-nil q.tasks_in_progress (λ t. free (zero, t)))),
    idle-Sound (suc i) qs h.1 (λ task. free (suc task.0, task.1)),
  )

  ranged : (i : ℕ) (qs : List (QueryInfo D)) → From SoundQuery i qs → From RangedQuery i qs
  ranged i [] h = tt
  ranged i (q ∷ qs) h = (h.0.0, ranged (suc i) qs h.1)

  -- With the tasks of the removed workers the rest of the block restores the invariant.
  place_tasks-Sound :
      (qs : List (QueryInfo D)) (known : List (ℕ × WorkerInfo)) (tasks : List (ℕ × ℕ))
      → From SoundQuery 0 qs
      → Ordered known
      → ((task : ℕ × ℕ) → assigned task known + count task tasks ≡ once (progress qs task))
      → Ensures
          (λ r. Sound r.1 r.0)
          (return_tasks known qs tasks >>= λ queries. reassign known queries tasks)
  unfolding return_tasks
  place_tasks-Sound qs [] tasks s order account =
      >>=-Ensures (λ r. From RangedQuery 0 r × ((task : ℕ × ℕ) → progress r task ≡ false)) _
        (for_each return_task qs tasks) (λ queries. reassign [] queries tasks)
        (return_tasks-Ranged qs tasks (ranged 0 qs s) (λ task. omega (arith, account task)))
        (λ r h. rw (reassign_none r tasks) (record {
          in_order = idle-Sound 0 r h.0 h.1;
          ordered = tt;
          assigned_once = λ task. rw (h.1 task) refl;
        }))
  place_tasks-Sound qs (w ∷ ws) tasks s order account =
      Returns-Ensures _ _ (reassign-Sound (w ∷ ws) qs tasks s order (omega arith) account)

  pub reassign_tasks-Sound :
      (l : Leader D)
      → Sound l.queries l.known_workers
      → Ensures (λ m. Sound m.queries m.known_workers) (reassign_tasks l)
  unfolding reassign_tasks
  reassign_tasks-Sound l s =
      >>=-Ensures (Kept l) _
        (for_each remove_worker (record l { wid_to_delete = [] }, [])
          (to_remove l.known_workers l.wid_to_delete))
        _
        (for_each-Keeps (Kept l) remove_worker (remove_worker-Kept l)
          (record l { wid_to_delete = [] }, []) (to_remove l.known_workers l.wid_to_delete)
          (record { ordered = s.ordered; account = λ task. omega arith; queries = refl }))
        (λ p k.
          rw
            (>>=_assoc (return_tasks p.0.known_workers p.0.queries p.1)
              (λ queries. reassign p.0.known_workers queries p.1)
              (λ r. ok (record p.0 { known_workers = r.0; queries = r.1 })))
            (>>=-Ensures (λ r. Sound r.1 r.0) _
              (return_tasks p.0.known_workers p.0.queries p.1 >>= λ queries.
                reassign p.0.known_workers queries p.1)
              _
              (place_tasks-Sound p.0.queries p.0.known_workers p.1 (rw k.queries s.in_order)
                k.ordered
                (λ task.
                  k.account task
                  ∙ s.assigned_once task
                  ∙ ap (λ qs. once (progress qs task)) (sym k.queries)))
              (λ r sound. sound)))

module _ {D : Type 0} ⦃double : Double D⦄ where
  pub prepare-Sound :
      (connect : ℕ → Connection) (l : Leader D)
      → Sound l.queries l.known_workers
      → Ensures (λ m. Sound m.queries m.known_workers) (prepare connect l)
  unfolding prepare take_updates
  prepare-Sound connect l s =
      let (sound, same) = add_queries-Sound l.queries l.new_tasks s.in_order in
      >>=-Ensures (λ (r : ℕ × Leader D). Sound r.1.queries r.1.known_workers) _
        (for_each (add_worker connect) (0, take_updates l) l.hb_updates) _
        (for_each-Keeps (λ (r : ℕ × Leader D). Sound r.1.queries r.1.known_workers)
          (add_worker connect)
          (λ r hb sound'.
            Ensures-map
              (λ (m : ℕ × Leader D).
                Sound m.1.queries m.1.known_workers × (m.1.queries ≡ r.1.queries))
              _ (add_worker connect r hb) (add_worker-Sound connect r hb sound') (λ m h. h.0))
          (0, take_updates l) l.hb_updates
          (record {
            in_order = sound;
            ordered = s.ordered;
            assigned_once = λ task. s.assigned_once task ∙ ap once (sym (same task));
          }))
        (λ r sound'. reassign_tasks-Sound r.1 sound')
