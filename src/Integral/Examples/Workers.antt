-- ===== src/Integral/Examples/Workers.antt =====
-- hw1/src/worker/worker.cpp and hw1/src/common/integral.cpp: the theorems at concrete inputs.
use to_ftds.Base.{
  ℕ, zero, suc, ◌+◌, ◌*◌, ◌≡◌, refl, arith, true, false, List, [], ◌∷◌, ◌++◌, map, Option, none,
  some, All, Returns, ok, length, nat_key,
}
use to_ftds.Integral.{Leader, QueryInfo, idle, new_query, receive_discovery, leader_message}
use to_ftds.Integral.Workers.{refused}
use to_ftds.Integral.Evaluation.{evaluate_integral, add_values, scale}
use to_ftds.Integral.Evaluation.Linear.{whole, linear, evaluate_integral-linear}
use to_ftds.Integral.Evaluation.Slices.{total, evaluate_all, new_query-integral}
use to_ftds.Integral.Serving.{Network, send_task, read_reply}
use to_ftds.Integral.Worker.{
  Worker, Streams, text, would_block, peer_closed, datagram, reply_to, session, accept_all,
  on_receive, wait_for_discovery, integrand,
}
use to_ftds.Integral.Worker.Sending.{on, Writes}
use to_ftds.Integral.Worker.Answers.{
  Dialogue, connection_of, replies_on, ends, waits, answers, Served, accept_all-Served,
}
use to_ftds.Integral.Exchange.{Counted, send-session-read}
use to_ftds.Integral.Discovery.{Updated, discovered}

evaluate_integral-linear_example :
    (v : ℕ) × (evaluate_integral 10 0 6 3 (linear 2 5) ≡ ok (some v))
    × (2 * v ≡ (linear 2 5 0 + linear 2 5 6) * 6)
evaluate_integral-linear_example =
    evaluate_integral-linear 2 5 0 1 3 10 (omega arith) (omega arith) (omega arith)

new_query-integral_example :
    (vs : List ℕ) × (evaluate_all 2 5 3 10 (new_query 0 1 61).all_tasks ≡ map (λ v. ok (some v)) vs)
    × (2 * total vs ≡ (linear 2 5 1 + linear 2 5 61) * 60)
new_query-integral_example =
    new_query-integral 0 2 5 1 1 3 10 (omega arith) (omega arith) (omega arith)

-- A text is a list of numbers, each in one byte.
abbrev numbers : List ℕ → ℕ × ℕ × ℕ × ℕ
numbers (a ∷ b ∷ qid ∷ tid ∷ []) = (a, b, qid, tid)
numbers bytes = (0, 0, 0, 0)

abbrev result_of : List ℕ → ℕ × ℕ × ℕ
result_of (result ∷ qid ∷ tid ∷ []) = (result, qid, tid)
result_of bytes = (0, 0, 0)

abbrev streams : Streams ℕ
streams = record { read_task = numbers; write_result = λ result qid tid. result ∷ qid ∷ tid ∷ [] }

abbrev fresh : Worker
fresh = record {
  workload_port = 8001;
  current_fd = none;
  is_stopped = false;
  closed = [];
  sent = [];
  answers = [];
}

-- The reply is sent in two parts.
abbrev sends : List (Option ℕ)
sends = some 2 ∷ some 1 ∷ some 1 ∷ []

abbrev dialogue : Dialogue
dialogue = record {
  fd = 4;
  received = would_block ∷ text (0 ∷ 200 ∷ 0 ∷ 3 ∷ []) sends ∷ peer_closed ∷ [];
  replies = 41000 ∷ 0 ∷ 3 ∷ [];
}

task_evaluated : evaluate_integral {D = ℕ} 101 0 200 100 integrand ≡ ok (some 41000)
unfolding evaluate_integral add_values scale
task_evaluated = refl

task_answered : reply_to streams 101 (0 ∷ 200 ∷ 0 ∷ 3 ∷ []) ≡ ok (some (41000 ∷ 0 ∷ 3 ∷ []))
unfolding reply_to
task_answered = rw task_evaluated refl

all_written : All Writes sends
all_written = (omega arith, (omega arith, (omega arith, tt)))

accept_all-Served_example :
    Returns
      (λ done.
        ((g : ℕ) → on g done.0.sent ≡ on g [] ++ replies_on g (dialogue ∷ []))
        × (done.0.closed ≡ 4 ∷ []))
      (accept_all streams 101 fresh (connection_of dialogue ∷ []))
accept_all-Served_example =
    accept_all-Served streams 101 (dialogue ∷ [])
      (
        waits (
            answers (0 ∷ 200 ∷ 0 ∷ 3 ∷ []) (41000 ∷ 0 ∷ 3 ∷ []) sends task_answered all_written
              (omega arith) ends),
        tt,
      )
      fresh

-- A query with one task, which is given to the worker.
abbrev query : QueryInfo ℕ
query = record {
  id = 0;
  result = 7;
  all_tasks = record { a = 0; b = 200 } ∷ record { a = 200; b = 400 } ∷ [];
  tasks_in_progress = 0 ∷ 1 ∷ [];
  tasks_to_do = [];
}

abbrev asking : Leader ℕ
asking = record {
  worker_fds = some 5 ∷ [];
  known_workers = (8001, record idle { id = 8001; assigned_tasks = (0, 0) ∷ (0, 1) ∷ [] }) ∷ [];
  queries = query ∷ [];
  wid_to_delete = [];
  is_stopped = false;
  hb_updates = [];
  new_tasks = [];
  closed = [];
  sent = [];
}

abbrev network : Network ℕ
network = record {
  connect = λ wid. refused 0;
  poll_failed = false;
  events = λ i. record { hung_up = false; readable = true; writable = true };
  received = λ i. some (41000 ∷ 0 ∷ 0 ∷ []);
  written = λ i. some 4;
  read_result = result_of;
  write_task = λ a b qid tid. a ∷ b ∷ qid ∷ tid ∷ [];
}

send-session-read_example :
    (m : Leader ℕ) × (send_task network asking 0 8001 5 ≡ ok m)
    × (m.sent ≡ (5, 0 ∷ 200 ∷ 0 ∷ 0 ∷ []) ∷ [])
    × Returns
        (Served streams 101 fresh 4 (41000 ∷ 0 ∷ 0 ∷ []))
        (session streams 101 fresh 4 (text (0 ∷ 200 ∷ 0 ∷ 0 ∷ []) sends ∷ peer_closed ∷ []))
    × (n : Leader ℕ) × (read_reply network m 0 8001 5 ≡ ok n)
    × Counted asking query 8001 0 0 ((0, 1) ∷ []) 41000 n
    × ((wid fd : ℕ) → read_reply network n 0 wid fd ≡ ok n)
send-session-read_example =
    send-session-read streams 101 network network asking fresh 0 8001 5 4 0 0 4 ((0, 1) ∷ []) query
      (record { a = 0; b = 200 }) 41000 sends refl refl refl refl refl (omega arith) (omega arith)
      refl task_evaluated all_written (omega arith) refl refl

abbrev near : Worker
near = record fresh { workload_port = 3 }

-- A port is written in unary.
abbrev unary : ℕ → List ℕ
unary zero = []
unary (suc n) = 49 ∷ unary n

discovered_example :
    All
      (λ w.
        wait_for_discovery unary true w (datagram leader_message ∷ [])
        ≡ ok (record w { answers = w.answers ++ unary w.workload_port ∷ [] }))
      (near ∷ [])
    × Returns (Updated unary (λ bytes. ok (length bytes)) 50 asking (near ∷ [])) (
        on_receive
          (receive_discovery (λ bytes. ok (length bytes)) 50)
          asking
          (datagram (unary 3) ∷ []))
discovered_example =
    discovered unary (λ bytes. ok (length bytes)) 50 (near ∷ [])
      ((refl, refl, refl, omega arith), tt) asking
