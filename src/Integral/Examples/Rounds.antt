-- ===== src/Integral/Examples/Rounds.antt =====
-- hw1/src/leader/leader.cpp: a leader of two places, asked once, with a worker on port 8001 that answers
-- its first task.
use to_ftds.Base.{
  ℕ, ◌≡◌, refl, [], ◌∷◌, none, some, true, false, Outcome, ok, lookup, nat_key, Returns, for_each,
  fault, zero, suc, range, ◌++◌, length, arith, List,
}
use to_ftds.Integral.{
  Leader, new_leader, get_result, receive_discovery, add_queries, add_slices, new_query, loads,
  assign, gather, reassign,
}
use to_ftds.Integral.Invariant.{Sound}
use to_ftds.Integral.Workers.{
  connected, connect_worker, add_worker, to_remove, remove_worker, reassign_tasks, take_updates,
  prepare,
}
use to_ftds.Integral.Workers.Closing.{remove_worker-closes_again}
use to_ftds.Integral.Serving.{
  Network, hang_up, drop_task, send_first, send_task, take_result, read_reply, serve, run_once,
}
use to_ftds.Integral.Serving.Sound.{Honest}
use to_ftds.Integral.Steps.{ask, discover, plan, look, here, next, reachable-Sound}
use to_ftds.Integral.Examples.Tasks.{naturals, busy}
use to_ftds.Integral.Round.{Silent, Placed, Requests, run_once-Requests}

abbrev empty_leader : Leader ℕ
empty_leader = record {
  worker_fds = none ∷ none ∷ [];
  known_workers = [];
  queries = [];
  wid_to_delete = [];
  is_stopped = false;
  hb_updates = [];
  new_tasks = [];
  closed = [];
  sent = [];
}

-- A leader with the worker and no task, whose descriptor is 5.
abbrev with_worker : Leader ℕ
with_worker = record empty_leader {
  worker_fds = some 5 ∷ none ∷ [];
  known_workers = (8001, record busy { assigned_tasks = (0, 0) ∷ [] }) ∷ [];
}

remove_worker-closes_again_example :
    Returns
      (λ r.
        (r.0.closed ≡ 5 ∷ 5 ∷ []) × (lookup 8001 r.0.known_workers ≡ none) × (r.1 ≡ (0, 0) ∷ []))
      (remove_worker (hang_up with_worker 8001 5, []) 8001)
remove_worker-closes_again_example =
    remove_worker-closes_again with_worker [] 8001 5 (record busy { assigned_tasks = (0, 0) ∷ [] })
      refl refl

-- The reply says that task 0 of query 0 is finished.
abbrev answering : Network ℕ
answering = record {
  connect = λ wid. connected 5;
  poll_failed = false;
  events = λ i. record { hung_up = false; readable = true; writable = true };
  received = λ i. some (49 ∷ []);
  written = λ i. some 1;
  read_result = λ text. (1, 0, 0);
  write_task = λ a b qid tid. 50 ∷ [];
}

-- Asked, found by the worker, and with the tasks assigned.
abbrev asked : Leader ℕ
asked = record empty_leader { new_tasks = (0, 10) ∷ [] }

abbrev found : Leader ℕ
found = record asked { hb_updates = (8001, record { sequence_number = 0; timestamp = 7 }) ∷ [] }

-- What the leader is after a call that returns.
abbrev state_after : Outcome (Leader ℕ) → Leader ℕ
state_after (ok l) = l
state_after (fault f) = empty_leader

planned : Leader ℕ
unfolding prepare take_updates add_worker connect_worker reassign_tasks to_remove for_each
    add_queries new_query add_slices reassign gather loads assign
planned = state_after (prepare answering.connect found)

planned_lem : prepare answering.connect found ≡ ok planned
unfolding planned
planned_lem = refl

answered : Leader ℕ
unfolding planned serve read_reply take_result drop_task send_task send_first
answered = state_after (serve answering 1 planned 0)

answered_lem : serve answering 1 planned 0 ≡ ok answered
unfolding answered
answered_lem = refl

planned-Honest : Honest answering planned 0
unfolding planned
planned-Honest text e doing = refl

reachable-Sound_example : Sound answered.queries answered.known_workers
unfolding new_leader get_result receive_discovery
reachable-Sound_example = reachable-Sound 2 (some 3) true empty_leader answered refl (
    next
      (next
        (next (next here (ask empty_leader 0 10))
          (discover (λ text. ok 8001) 7 (56 ∷ 48 ∷ 48 ∷ 49 ∷ []) refl))
        (plan answering.connect planned_lem))
      (look answering 1 0 planned-Honest answered_lem))

-- Workers that have not answered yet.
abbrev silent : Network ℕ
silent = record answering {
  connect = λ wid. connected wid;
  events = λ i. record { hung_up = false; readable = false; writable = true };
  received = λ i. none;
  written = λ i. some 4;
  write_task = λ a b qid tid. a ∷ b ∷ qid ∷ tid ∷ [];
}

-- Two workers were found.
abbrev found_two : Leader ℕ
found_two = record asked {
  hb_updates =
      (8001, record { sequence_number = 0; timestamp = 7 })
      ∷ (8002, record { sequence_number = 0; timestamp = 7 })
      ∷ [];
}

planned_two : Leader ℕ
unfolding prepare take_updates add_worker connect_worker reassign_tasks to_remove for_each
    add_queries new_query add_slices reassign gather loads assign
planned_two = state_after (prepare silent.connect found_two)

planned_two_lem : prepare silent.connect found_two ≡ ok planned_two
unfolding planned_two
planned_two_lem = refl

silent-Silent : Silent silent
silent-Silent = record {
  polled = refl;
  there = λ i. refl;
  quiet = λ i. refl;
  takes = λ i a b qid tid. (4, refl, omega arith);
}

planned_two-Placed : Placed planned_two
unfolding planned_two
planned_two-Placed zero fd e = (8001, refl, omega arith)
planned_two-Placed (suc zero) fd e = (8002, refl, omega arith)
planned_two-Placed (suc (suc i)) fd e = cc

run_once-Requests_example :
    Returns
      (λ n.
        (requests : List (ℕ × List ℕ)) × Requests silent planned_two
          (range 0 (length planned_two.worker_fds))
          requests
        × (n ≡ record planned_two { sent = planned_two.sent ++ requests }))
      (run_once silent found_two)
run_once-Requests_example =
    run_once-Requests silent found_two planned_two silent-Silent
      (record { in_order = tt; ordered = tt; assigned_once = λ task. refl }) planned_two_lem
      planned_two-Placed
