-- ===== src/Integral.antt =====
-- hw1/src/leader/leader.h and leader.cpp: the state of the leader, and how `Leader::RunOverWorkers`
-- splits queries into tasks and gives them to workers. The arithmetic of `double` is a parameter.
pub mod Workers
pub mod Serving
pub mod Assignment
pub mod Queries
pub mod Places
pub mod Invariant
pub mod Planning
pub mod Steps
pub mod Round
pub mod Launch
pub mod Evaluation
pub mod Worker
pub mod Exchange
pub mod Discovery
mod Examples
use to_ftds.Base.{
  ℕ, zero, suc, ltb, ◌==◌, if◌then◌else◌, Bool, true, false, ◌&&◌, ◌||◌, List, [], ◌∷◌, ◌++◌, map,
  length, Outcome, ok, fault, bad_access, ◌>>=◌, insert, find_or, set_insert, nat_key, Option, none,
  some, runtime_error, invalid_argument, bytes_eq,
}

pub record Double (D : Type 0) : Type 0 where
  pub of_int : ℕ → D
  pub plus : D → D → D
  pub minus : D → D → D
  pub times : D → D → D
  pub over : D → D → D
  pub less : D → D → Bool

pub record Task (D : Type 0) : Type 0 where
  pub a : D
  pub b : D

pub record HeartbeatMessage : Type 0 where
  pub sequence_number : ℕ
  pub timestamp : ℕ

-- A task is a query and the place of a slice in it.
pub record WorkerInfo : Type 0 where
  pub last_heartbeat : HeartbeatMessage
  pub id : ℕ
  pub position_in_buffer : ℕ
  pub assigned_tasks : List (ℕ × ℕ)

pub record QueryInfo (D : Type 0) : Type 0 where
  pub id : ℕ
  pub result : D
  pub all_tasks : List (Task D)
  pub tasks_in_progress : List ℕ
  pub tasks_to_do : List ℕ

module _ {D : Type 0} ⦃double : Double D⦄ where
  abbrev pub slice : D → D → ℕ → Task D
  slice a b i =
      let step = double.over (double.minus b a) (double.of_int 10) in
      record {
        a = double.plus a (double.times step (double.of_int i));
        b = double.plus a (double.times step (double.of_int (suc i)));
      }

  -- The loop over the slices, from `i` on.
  pub add_slices : D → D → ℕ → ℕ → QueryInfo D → QueryInfo D
  add_slices a b i zero info = info
  add_slices a b i (suc rounds) info = add_slices a b (suc i) rounds (record info {
    all_tasks = info.all_tasks ++ slice a b i ∷ [];
    tasks_to_do = set_insert i info.tasks_to_do;
  })

  pub new_query : ℕ → D → D → QueryInfo D
  unfolding add_slices
  new_query id a b = add_slices a b 0 10 (record {
    id = id;
    result = double.of_int 0;
    all_tasks = [];
    tasks_in_progress = [];
    tasks_to_do = [];
  })

  pub add_queries : List (QueryInfo D) → List (D × D) → List (QueryInfo D)
  add_queries queries [] = queries
  add_queries queries ((a, b) ∷ rest) =
      add_queries (queries ++ new_query (length queries) a b ∷ []) rest

-- `std::set<std::pair<uint32_t, WorkerId>>`: the number of tasks first.
abbrev pub before : ℕ × ℕ → ℕ × ℕ → Bool
before (m, i) (n, j) = ltb m n || ((m == n) && ltb i j)

abbrev pub emplace : ℕ × ℕ → List (ℕ × ℕ) → List (ℕ × ℕ)
emplace x [] = x ∷ []
emplace x (y ∷ ys) =
    if before x y then x ∷ y ∷ ys else (if before y x then y ∷ emplace x ys else y ∷ ys)

pub loads : List (ℕ × WorkerInfo) → List (ℕ × ℕ) → List (ℕ × ℕ)
loads [] workers = workers
loads ((id, info) ∷ known) workers = loads known (emplace (length info.assigned_tasks, id) workers)

-- A new entry of `known_workers_`.
abbrev pub idle : WorkerInfo
idle = record {
  last_heartbeat = record { sequence_number = 0; timestamp = 0 };
  id = 0;
  position_in_buffer = 0;
  assigned_tasks = [];
}

-- `known_workers_[wid].assigned_tasks.emplace_back(query_id, task_id)`
abbrev pub give : ℕ → ℕ × ℕ → List (ℕ × WorkerInfo) → List (ℕ × WorkerInfo)
give wid task known =
    let info = find_or wid idle known in
    insert wid (record info { assigned_tasks = info.assigned_tasks ++ task ∷ [] }) known

-- `*workers.begin()` of an empty set is undefined behaviour.
pub assign : List (ℕ × WorkerInfo) → List (ℕ × ℕ) → List (ℕ × ℕ) → Outcome (List (ℕ × WorkerInfo))
assign known workers [] = ok known
assign known [] (task ∷ tasks) = fault bad_access
assign known ((sz, wid) ∷ workers) (task ∷ tasks) =
    assign (give wid task known) (emplace (suc sz, wid) workers) tasks

module _ {D : Type 0} where
  -- The tasks to do of all queries, and the queries with the two sets swapped.
  pub gather : List (QueryInfo D) → List (ℕ × ℕ) × List (QueryInfo D)
  gather [] = ([], [])
  gather (q ∷ qs) =
      let rest = gather qs in
      elim q.tasks_to_do [
        | [] ↦ (rest.0, q ∷ rest.1)
        | t ∷ ts ↦ (
          map (λ task. (q.id, task)) q.tasks_to_do ++ rest.0,
          record q { tasks_to_do = q.tasks_in_progress; tasks_in_progress = q.tasks_to_do }
              ∷ rest.1,
        )
      ]

  -- The block `reassign tasks`.
  pub reassign :
      List (ℕ × WorkerInfo)
      → List (QueryInfo D)
      → List (ℕ × ℕ)
      → Outcome (List (ℕ × WorkerInfo) × List (QueryInfo D))
  reassign [] queries new_tasks = ok ([], queries)
  reassign (w ∷ ws) queries new_tasks =
      let g = gather queries in
      assign (w ∷ ws) (loads (w ∷ ws) []) (new_tasks ++ g.0) >>= λ known. ok (known, g.1)

-- `Leader`
abbrev pub leader_message : List ℕ
leader_message = 76 ∷ 101 ∷ 97 ∷ 100 ∷ 101 ∷ 114 ∷ []

-- The leader. A descriptor of -1 is `none`. The last two fields are what it has done to the outside:
-- the descriptors it has closed, and the texts it has sent on them.
pub record Leader (D : Type 0) : Type 0 where
  pub worker_fds : List (Option ℕ)
  pub known_workers : List (ℕ × WorkerInfo)
  pub queries : List (QueryInfo D)
  pub wid_to_delete : List ℕ
  pub is_stopped : Bool
  pub hb_updates : List (ℕ × HeartbeatMessage)
  pub new_tasks : List (D × D)
  pub closed : List ℕ
  pub sent : List (ℕ × List ℕ)

abbrev no_fds : ℕ → List (Option ℕ)
no_fds zero = []
no_fds (suc n) = none ∷ no_fds n

module _ {D : Type 0} where
  -- The constructor: the results of `socket` and of `setsockopt`.
  pub new_leader : ℕ → Option ℕ → Bool → Outcome (Leader D)
  new_leader max_workers none broadcast = fault runtime_error
  new_leader max_workers (some discovery_socket) false = fault runtime_error
  new_leader max_workers (some discovery_socket) true = ok (record {
    worker_fds = no_fds max_workers;
    known_workers = [];
    queries = [];
    wid_to_delete = [];
    is_stopped = false;
    hb_updates = [];
    new_tasks = [];
    closed = [];
    sent = [];
  })

  pub stop : Leader D → Leader D
  stop l = if l.is_stopped then l else record l { is_stopped = true }

  -- The caller gets 0 at once.
  pub get_result : ⦃double : Double D⦄ → Leader D → D → D → Leader D × D
  get_result ⦃double⦄ l a b = (record l { new_tasks = l.new_tasks ++ (a, b) ∷ [] }, double.of_int 0)

  -- The handler of a datagram in `ReceiveDiscoveryMessage`, at the time `now`: `stoi` is `std::stoi`,
  -- with the exception that it throws or its number, which is a key of 64 bits.
  pub receive_discovery : (List ℕ → Outcome ℕ) → ℕ → Leader D → List ℕ → Outcome (Leader D)
  receive_discovery stoi now l text =
      if bytes_eq text leader_message
      then ok l
      else (stoi text >>= λ port. ok (record l {
        hb_updates = insert port (record { sequence_number = 0; timestamp = now }) l.hb_updates;
      }))
