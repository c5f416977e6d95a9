-- ===== src/Integral/Examples/Tasks.antt =====
-- hw1/src/leader/leader.cpp: tasks of two workers.
use to_ftds.Base.{ℕ, ◌+◌, ◌≡◌, List, [], ◌∷◌, arith, Returns, ◌-◌, ◌*◌, ltb, some, true}
use to_ftds.Integral.{WorkerInfo, QueryInfo, reassign, Double, Leader}
use to_ftds.Integral.Assignment.{assigned, count, waiting, reassign-assigned}
use to_ftds.Integral.Launch.{leader_main, running, leader_main-zeros}

abbrev pub busy : WorkerInfo
busy = record {
  last_heartbeat = record { sequence_number = 0; timestamp = 0 };
  id = 8001;
  position_in_buffer = 0;
  assigned_tasks = (0, 0) ∷ (0, 1) ∷ [];
}

abbrev workers : List (ℕ × WorkerInfo)
workers =
    (8001, busy)
    ∷ (8002, record busy { id = 8002; position_in_buffer = 1; assigned_tasks = [] })
    ∷ []

-- The second query; its slices play no part.
abbrev query : QueryInfo ℕ
query = record {
  id = 1;
  result = 0;
  all_tasks = [];
  tasks_in_progress = [];
  tasks_to_do = 0 ∷ 1 ∷ 2 ∷ [];
}

reassign-assigned_example :
    Returns
      (λ r.
        (task : ℕ × ℕ)
        → assigned task r.0
          ≡ assigned task workers + count task ((0, 2) ∷ []) + count task (waiting (query ∷ [])))
      (reassign workers (query ∷ []) ((0, 2) ∷ []))
reassign-assigned_example =
    reassign-assigned workers (query ∷ []) ((0, 2) ∷ []) ((omega arith, tt), (tt, tt)) (omega arith)

-- Numbers in place of `double`, without a division.
instance abbrev pub naturals : Double ℕ
naturals = record {
  of_int = λ n. n;
  plus = λ m n. m + n;
  minus = λ m n. m - n;
  times = λ m n. m * n;
  over = λ m n. m;
  less = λ m n. ltb m n;
}

leader_main-zeros_example :
    Returns
      (λ r. (l : Leader ℕ) × (l.new_tasks ≡ (0, 10) ∷ (5, 6) ∷ []) × (r ≡ running l (0 ∷ 0 ∷ [])))
      (leader_main {D = ℕ} 7000 (some 3) true ((0, 10) ∷ (5, 6) ∷ []))
leader_main-zeros_example = leader_main-zeros {D = ℕ} 7000 3 ((0, 10) ∷ (5, 6) ∷ []) (omega arith)
