-- ===== src/Integral/Launch.antt =====
-- hw1/src/leader/leader_launch.cpp and hw1/src/worker/worker_launch.cpp: the two programs. A flag that is not
-- set is 0. The leader's loop reads two numbers at a time; the list of these ends where no more have come yet.
use to_ftds.Base.{
  ℕ, ◌≡◌, ◌≢◌, refl, ◌∙◌, ◌==◌, ◌||◌, if◌then◌else◌, Bool, true, false, List, [], ◌∷◌, ◌++◌,
  append_assoc, append-nil, map, Option, some, Outcome, ok, ◌>>=◌, Returns, arith,
}
use to_ftds.Integral.{Double, Leader, new_leader, get_result}
use to_ftds.Integral.Worker.{Worker, new_worker, stop}

-- `refused`: the exit code is 1. `running`: the leader, and what was printed.
pub data LeaderRun (D : Type 0) : Type 0 where
  refused : LeaderRun D
  running : Leader D → List D → LeaderRun D

module _ {D : Type 0} ⦃double : Double D⦄ where
  -- The loop of the leader's `main`.
  pub ask_all : Leader D → List D → List (D × D) → LeaderRun D
  ask_all l printed [] = running l printed
  ask_all l printed ((a, b) ∷ rest) =
      let (l', result) = get_result l a b in ask_all l' (printed ++ result ∷ []) rest

  -- With what `socket` and `setsockopt` give.
  unfoldable pub leader_main : ℕ → Option ℕ → Bool → List (D × D) → Outcome (LeaderRun D)
  leader_main discovery_port socket broadcast intervals =
      if discovery_port == 0
      then ok refused
      else (new_leader 10 socket broadcast >>= λ l. ok (ask_all l [] intervals))

-- `exited`: the exit code, and the worker that was constructed.
pub data WorkerRun : Type 0 where
  worker_refused : WorkerRun
  exited : Worker → WorkerRun

-- With what the calls of the constructor give, and what the threads make of the worker until a number is
-- read.
pub worker_main :
    ℕ
    → ℕ
    → Option ℕ
    → Bool
    → Bool
    → Option ℕ
    → Bool
    → Bool
    → (Worker → Outcome Worker)
    → Outcome WorkerRun
worker_main discovery_port worker_port discovery reused bound workload bound_too listening runs =
    if (discovery_port == 0) || (worker_port == 0)
    then ok worker_refused
    else (new_worker worker_port discovery reused bound workload bound_too listening >>= λ w.
        runs w >>= λ w'. ok (exited (stop w')))

module _ {D : Type 0} ⦃double : Double D⦄ where
  ask_all-asks :
      (l : Leader D) (printed : List D) (intervals : List (D × D))
      → ask_all l printed intervals
        ≡ running
            (record l { new_tasks = l.new_tasks ++ intervals })
            (printed ++ map (λ _. double.of_int 0) intervals)
  unfolding ask_all get_result
  ask_all-asks l printed [] = rw (append-nil printed, append-nil l.new_tasks) refl
  ask_all-asks l printed ((a, b) ∷ rest) =
      ask_all-asks (record l { new_tasks = l.new_tasks ++ (a, b) ∷ [] })
        (printed ++ double.of_int 0 ∷ []) rest
      ∙ rw
          (
            append_assoc l.new_tasks ((a, b) ∷ []) rest,
            append_assoc printed (double.of_int 0 ∷ []) (map (λ _. double.of_int 0) rest),
          )
          refl

  -- With a port that is not 0 and a socket that opens, the leader's main has, after any intervals
  -- read, handed all of them to the leader in order and printed 0 for each.
  pub leader_main-zeros :
      (discovery_port socket : ℕ) (intervals : List (D × D))
      → discovery_port ≢ 0
      → Returns
          (λ r.
            (l : Leader D) × (l.new_tasks ≡ intervals)
            × (r ≡ running l (map (λ _. double.of_int 0) intervals)))
          (leader_main discovery_port (some socket) true intervals)
  unfolding leader_main new_leader
  leader_main-zeros discovery_port socket intervals set =
      let nonzero : (discovery_port == 0) ≡ false = ground arith in
      rw nonzero (_, refl, (_, refl, ask_all-asks _ [] intervals))
