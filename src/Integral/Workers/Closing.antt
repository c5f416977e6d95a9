-- ===== src/Integral/Workers/Closing.antt =====
-- hw1/src/leader/leader.cpp: the descriptor of a worker that hung up.
use to_ftds.Base.{
  ℕ, ◌≡◌, refl, List, [], ◌∷◌, ◌++◌, append_assoc, some, none, arith, get_elem?, set, lookup, erase,
  ok, Returns, nat_key, lookup-erase,
}
use to_ftds.Integral.{WorkerInfo, Leader}
use to_ftds.Integral.Serving.{hang_up}
use to_ftds.Integral.Workers.{remove_worker}

module _ {D : Type 0} where
  remove_known :
      (l : Leader D) (tasks : List (ℕ × ℕ)) (wid fd : ℕ) (info : WorkerInfo)
      → lookup wid l.known_workers ≡ some info
      → get_elem? l.worker_fds info.position_in_buffer ≡ some (some fd)
      → remove_worker (l, tasks) wid
        ≡ ok (
          record l {
            closed = l.closed ++ fd ∷ [];
            worker_fds = set l.worker_fds info.position_in_buffer none;
            known_workers = erase wid l.known_workers;
          },
          tasks ++ info.assigned_tasks,
        )
  unfolding remove_worker
  remove_known l tasks wid fd info known slot = ground arith

  -- The descriptor of a known worker that hung up is closed when it hangs up and once more when
  -- the worker is removed; it is removed, and its tasks are kept to be assigned.
  pub remove_worker-closes_again :
      (l : Leader D) (tasks : List (ℕ × ℕ)) (wid fd : ℕ) (info : WorkerInfo)
      → lookup wid l.known_workers ≡ some info
      → get_elem? l.worker_fds info.position_in_buffer ≡ some (some fd)
      → Returns
          (λ r.
            (r.0.closed ≡ l.closed ++ fd ∷ fd ∷ [])
            × (lookup wid r.0.known_workers ≡ none)
            × (r.1 ≡ tasks ++ info.assigned_tasks))
          (remove_worker (hang_up l wid fd, tasks) wid)
  remove_worker-closes_again l tasks wid fd info known slot = (
    _,
    remove_known (hang_up l wid fd) tasks wid fd info known slot,
    (
      append_assoc l.closed (fd ∷ []) (fd ∷ []),
      ground (arith, lookup-erase wid wid l.known_workers),
      refl,
    ),
  )
