-- ===== src/Integral/Worker.antt =====
-- hw1/src/worker/worker.h and worker.cpp: a worker, which answers discovery and evaluates integrals for
-- the leader; and hw1/src/socket/socket.cpp. The results of the system's calls are arguments.
pub mod Sending
pub mod Answers
use to_ftds.Base.{
  ℕ, ◌+◌, ◌*◌, if◌then◌else◌, Bool, true, false, List, [], ◌∷◌, ◌++◌, Option, none, some, take,
  drop, Outcome, ok, fault, runtime_error, ◌>>=◌,
}
use to_ftds.Integral.{Double}
use to_ftds.Integral.Evaluation.{evaluate_integral}

-- A descriptor of -1 is `none`. The last three fields are what the worker has done to the outside: the
-- descriptors it has closed, the texts it has sent on them, and its answers to discovery.
pub record Worker : Type 0 where
  pub workload_port : ℕ
  pub current_fd : Option ℕ
  pub is_stopped : Bool
  pub closed : List ℕ
  pub sent : List (ℕ × List ℕ)
  pub answers : List (List ℕ)

-- What `recvfrom` gives. A list of these is what it gives until it would block.
pub data Datagram : Type 0 where
  broken : Datagram
  datagram : List ℕ → Datagram

-- What `recv` gives. A text comes with what `send` gives in turn while it is answered.
pub data Received : Type 0 where
  would_block recv_failed peer_closed : Received
  text : List ℕ → List (Option ℕ) → Received

-- What `accept` gives. A connection comes with what `recv` gives on it.
pub data Accepted : Type 0 where
  no_connection accept_failed : Accepted
  connection : ℕ → List Received → Accepted

module _ {S : Type 0} where
  -- `OnReceiveAsync`, with a buffer of 100 bytes.
  unfoldable pub on_receive : (S → List ℕ → Outcome S) → S → List Datagram → Outcome S
  on_receive handler s [] = ok s
  on_receive handler s (broken ∷ rest) = fault runtime_error
  on_receive handler s (datagram bytes ∷ rest) =
      handler s (take 100 bytes) >>= λ s'. on_receive handler s' rest

-- The constructor: the results of `socket`, `setsockopt` and `bind` for discovery, and of `socket`,
-- `bind` and `listen` for the workload.
pub new_worker : ℕ → Option ℕ → Bool → Bool → Option ℕ → Bool → Bool → Outcome Worker
new_worker port (some discovery) true true (some workload) true true = ok (record {
  workload_port = port;
  current_fd = none;
  is_stopped = false;
  closed = [];
  sent = [];
  answers = [];
})
new_worker port discovery reused bound workload bound_too listening = fault runtime_error

pub stop : Worker → Worker
stop w = if w.is_stopped then w else record w { is_stopped = true }

-- The handler of a datagram in `WaitForDiscovery`, where `sendto` succeeds or not.
unfoldable pub answer_discovery : (ℕ → List ℕ) → Bool → Worker → List ℕ → Outcome Worker
answer_discovery to_string sent w bytes =
    if sent
    then ok (record w { answers = w.answers ++ to_string w.workload_port ∷ [] })
    else fault runtime_error

-- A round of `WaitForDiscovery`.
unfoldable pub wait_for_discovery : (ℕ → List ℕ) → Bool → Worker → List Datagram → Outcome Worker
unfolding on_receive answer_discovery
wait_for_discovery to_string sent w datagrams =
    if w.is_stopped then ok w else on_receive (answer_discovery to_string sent) w datagrams

-- The loop over `send`: what is not yet written is left where the calls of `send` end.
pub send_all : List (Option ℕ) → Worker → ℕ → List ℕ → Outcome (Worker × List ℕ)
send_all results w fd [] = ok (w, [])
send_all [] w fd (x ∷ xs) = ok (w, x ∷ xs)
send_all (none ∷ results) w fd (x ∷ xs) = fault runtime_error
send_all (some n ∷ results) w fd (x ∷ xs) =
    send_all results (record w { sent = w.sent ++ (fd, take n (x ∷ xs)) ∷ [] }) fd (drop n (x ∷ xs))

-- `std::stringstream`: a task with its query and its id, and a result with them.
pub record Streams (D : Type 0) : Type 0 where
  pub read_task : List ℕ → D × D × ℕ × ℕ
  pub write_result : D → ℕ → ℕ → List ℕ

module _ {D : Type 0} ⦃double : Double D⦄ where
  abbrev pub integrand : D → D
  integrand x = double.plus (double.times (double.of_int 2) x) (double.of_int 5)

  abbrev write_reply : Streams D → ℕ → ℕ → Option D → Option (List ℕ)
  write_reply streams qid tid none = none
  write_reply streams qid tid (some result) = some (streams.write_result result qid tid)

  -- The text of a reply, with the fuel of `evaluate_integral`.
  unfoldable pub reply_to : Streams D → ℕ → List ℕ → Outcome (Option (List ℕ))
  reply_to streams fuel bytes =
      let (a, b, qid, tid) = streams.read_task bytes in
      evaluate_integral fuel a b 100 integrand >>= λ result. ok (write_reply streams qid tid result)

  -- The loop over `recv`, with a buffer of 1024 bytes: `true` where the connection has ended.
  pub session : Streams D → ℕ → Worker → ℕ → List Received → Outcome (Worker × Bool)
  unfolding reply_to send_all
  session streams fuel w fd [] = ok (w, false)
  session streams fuel w fd (would_block ∷ rest) = session streams fuel w fd rest
  session streams fuel w fd (recv_failed ∷ rest) = fault runtime_error
  session streams fuel w fd (peer_closed ∷ rest) =
      ok (record w { current_fd = none; closed = w.closed ++ fd ∷ [] }, true)
  session streams fuel w fd (text bytes results ∷ rest) =
      reply_to streams fuel (take 1024 bytes) >>= λ reply. elim reply [
        | none ↦ ok (w, false)
        | some answer ↦ send_all results w fd answer >>= λ sent. elim sent.1 [
          | [] ↦ session streams fuel sent.0 fd rest
          | x ∷ xs ↦ ok (sent.0, false)
        ]
      ]

  -- The loop over `accept`: `true` where it is left by `break`.
  pub accept_all : Streams D → ℕ → Worker → List Accepted → Outcome (Worker × Bool)
  unfolding session
  accept_all streams fuel w [] = ok (w, false)
  accept_all streams fuel w (no_connection ∷ rest) = ok (record w { current_fd = none }, true)
  accept_all streams fuel w (accept_failed ∷ rest) = fault runtime_error
  accept_all streams fuel w (connection fd received ∷ rest) =
      session streams fuel (record w { current_fd = some fd }) fd received >>= λ done. elim done.1 [
        | true ↦ accept_all streams fuel done.0 rest
        | false ↦ ok (done.0, false)
      ]

  -- `AcceptIncomingConnection`, with what `accept` gives in each round.
  pub accept_incoming : Streams D → ℕ → Worker → List (List Accepted) → Outcome Worker
  unfolding accept_all
  accept_incoming streams fuel w [] = ok w
  accept_incoming streams fuel w (round ∷ rounds) = elim w.is_stopped [
    | true ↦ ok w
    | false ↦ accept_all streams fuel w round >>= λ done. elim done.1 [
      | true ↦ accept_incoming streams fuel done.0 rounds
      | false ↦ ok done.0
    ]
  ]
