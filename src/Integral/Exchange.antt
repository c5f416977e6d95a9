-- ===== src/Integral/Exchange.antt =====
-- hw1/src/leader/leader.cpp and hw1/src/worker/worker.cpp: a task on its way to a worker, and its result
-- on the way back.
use to_ftds.Base.{
  ℕ, ◌≤◌, ◌≡◌, refl, ap, ◌∙◌, subst, arith, true, List, [], ◌∷◌, ◌++◌, append-nil, Option, some,
  take, take_all, length, All, Returns, ok, get_elem?, set, insert, find_or, lookup-insert,
  contains, nat_key, same_refl, false, not, ◌&&◌, ◌==◌, ◌≢◌, contains-set_erase, get_elem?-set,
  get_elem?-some_lt,
}
use to_ftds.Integral.{Double, Task, Leader, QueryInfo, WorkerInfo, idle}
use to_ftds.Integral.Evaluation.{evaluate_integral}
use to_ftds.Integral.Serving.{Network, send_task, send_first, read_reply, take_result, finish}
use to_ftds.Integral.Serving.Sound.{drop_task_first}
use to_ftds.Integral.Worker.{Worker, peer_closed, text, Streams, reply_to, session, integrand}
use to_ftds.Integral.Worker.Sending.{Writes}
use to_ftds.Integral.Worker.Answers.{Served, ends, answers, session-Served}

found :
    (wid : ℕ) (info : WorkerInfo) (known : List (ℕ × WorkerInfo))
    → find_or wid idle (insert wid info known) ≡ info
found wid info known = ground (arith, lookup-insert wid wid info known, same_refl wid)

module _ {D : Type 0} where
  -- The leader after a task was sent.
  abbrev after_send : Leader D → ℕ → ℕ → List ℕ → Leader D
  after_send l wid fd bytes = record l {
    known_workers = insert wid (find_or wid idle l.known_workers) l.known_workers;
    sent = l.sent ++ (fd, bytes) ∷ [];
  }

  send_task_lem :
      (net : Network D) (l : Leader D) (i wid fd qid tid k : ℕ) (tasks : List (ℕ × ℕ))
      (q : QueryInfo D) (task : Task D)
      → (find_or wid idle l.known_workers).assigned_tasks ≡ (qid, tid) ∷ tasks
      → get_elem? l.queries qid ≡ some q
      → get_elem? q.all_tasks tid ≡ some task
      → net.written i ≡ some k
      → length (net.write_task task.a task.b qid tid) ≤ k
      → send_task net l i wid fd ≡ ok (after_send l wid fd (net.write_task task.a task.b qid tid))
  unfolding send_task send_first
  send_task_lem net l i wid fd qid tid k tasks q task first at slice written enough =
      rw (first, at, slice, written, take_all k (net.write_task task.a task.b qid tid) enough) refl

module _ {D : Type 0} ⦃double : Double D⦄ where
  -- The leader after a result was read.
  abbrev after_read : Leader D → ℕ → ℕ → List (ℕ × ℕ) → ℕ → QueryInfo D → D → Leader D
  after_read l wid qid tasks tid q v = record l {
    known_workers =
        insert wid (record (find_or wid idle l.known_workers) { assigned_tasks = tasks })
          l.known_workers;
    queries = set l.queries qid (finish q tid v);
  }

  read_reply_lem :
      (net : Network D) (l : Leader D) (i wid fd qid tid : ℕ) (tasks : List (ℕ × ℕ))
      (q : QueryInfo D) (v : D) (reply : List ℕ)
      → (find_or wid idle l.known_workers).assigned_tasks ≡ (qid, tid) ∷ tasks
      → get_elem? l.queries qid ≡ some q
      → contains tid q.tasks_in_progress ≡ true
      → net.received i ≡ some reply
      → net.read_result reply ≡ (v, qid, tid)
      → read_reply net l i wid fd ≡ ok (after_read l wid qid tasks tid q v)
  unfolding read_reply take_result
  read_reply_lem net l i wid fd qid tid tasks q v reply first at doing received read =
      rw
        (
          read_reply,
          received,
          read,
          take_result,
          at,
          doing,
          drop_task_first l.known_workers wid (qid, tid) tasks first,
        )
        refl

  read_again_lem :
      (net : Network D) (l : Leader D) (i wid fd qid tid : ℕ) (q : QueryInfo D) (v : D)
      (reply : List ℕ)
      → get_elem? l.queries qid ≡ some q
      → contains tid q.tasks_in_progress ≡ false
      → net.received i ≡ some reply
      → net.read_result reply ≡ (v, qid, tid)
      → read_reply net l i wid fd ≡ ok l
  unfolding read_reply take_result
  read_again_lem net l i wid fd qid tid q v reply at done received read =
      rw (read_reply, received, read, take_result, at, done) refl

  -- In `n` the leader `l` has counted the result `v` of a slice of the query `q`, once.
  pub record Counted (l : Leader D) (q : QueryInfo D) (wid qid tid : ℕ) (tasks : List (ℕ × ℕ))
      (v : D) (n : Leader D) : Type 0 where
    pub query : QueryInfo D
    pub at : get_elem? n.queries qid ≡ some query
    pub summed : query.result ≡ double.plus q.result v
    pub doing :
        (t : ℕ)
        → contains t query.tasks_in_progress ≡ (contains t q.tasks_in_progress && not (tid == t))
    pub slices : query.all_tasks ≡ q.all_tasks
    pub todo : query.tasks_to_do ≡ q.tasks_to_do
    pub queries : (j : ℕ) → j ≢ qid → get_elem? n.queries j ≡ get_elem? l.queries j
    pub dropped : (find_or wid idle n.known_workers).assigned_tasks ≡ tasks
    pub workers :
        (w : ℕ) → w ≢ wid → find_or w idle n.known_workers ≡ find_or w idle l.known_workers

  after_read-Counted :
      (l : Leader D) (q : QueryInfo D) (wid fd qid tid : ℕ) (tasks : List (ℕ × ℕ)) (v : D)
      (bytes : List ℕ)
      → get_elem? l.queries qid ≡ some q
      → Counted l q wid qid tid tasks v
          (after_read (after_send l wid fd bytes) wid qid tasks tid q v)
  after_read-Counted l q wid fd qid tid tasks v bytes at = record {
    query = finish q tid v;
    at = ground (
      arith,
      get_elem?-set l.queries qid qid (finish q tid v),
      get_elem?-some_lt l.queries qid q at,
    );
    summed = refl;
    doing = λ t. contains-set_erase tid t q.tasks_in_progress;
    slices = refl;
    todo = refl;
    queries = λ j other. ground (arith, get_elem?-set l.queries qid j (finish q tid v));
    dropped = ap (λ z. z.assigned_tasks) (found wid _ _);
    workers = λ w other. ground (
      arith,
      lookup-insert wid w (find_or wid idle l.known_workers) l.known_workers,
      lookup-insert wid w
          (record (find_or wid idle (after_send l wid fd bytes).known_workers) {
            assigned_tasks = tasks;
          })
          (after_send l wid fd bytes).known_workers,
    );
  }

  reply_to_lem :
      (streams : Streams D) (fuel : ℕ) (bytes : List ℕ) (a b v : D) (qid tid : ℕ)
      → length bytes ≤ 1024
      → streams.read_task bytes ≡ (a, b, qid, tid)
      → evaluate_integral fuel a b 100 integrand ≡ ok (some v)
      → reply_to streams fuel (take 1024 bytes) ≡ ok (some (streams.write_result v qid tid))
  unfolding reply_to
  reply_to_lem streams fuel bytes a b v qid tid short read evaluated =
      rw (take_all 1024 bytes short, read, evaluated) refl

  -- For the first task of a worker, which has a slice and is in progress: with a send that takes
  -- the whole text, of 1024 bytes at most, streams that read back what they wrote, an evaluation
  -- that ends and a worker's send that writes until the reply is sent, the leader sends the task,
  -- the worker that receives it by one call sends the result with the ids of query and task and
  -- closes the connection when the leader does, and the leader that receives the reply adds the
  -- result to the query and takes the task out of those in progress and of those of the worker,
  -- while the other tasks in progress, the slices, the tasks to do, the other queries and the
  -- other workers stay; and the same reply changes nothing when it is received again, from any
  -- worker.
  pub send-session-read :
      (streams : Streams D) (fuel : ℕ) (net net' : Network D) (l : Leader D) (w : Worker)
      (i wid fd fd' qid tid k : ℕ) (tasks : List (ℕ × ℕ)) (q : QueryInfo D) (task : Task D) (v : D)
      (results : List (Option ℕ))
      → (find_or wid idle l.known_workers).assigned_tasks ≡ (qid, tid) ∷ tasks
      → get_elem? l.queries qid ≡ some q
      → get_elem? q.all_tasks tid ≡ some task
      → contains tid q.tasks_in_progress ≡ true
      → net.written i ≡ some k
      → length (net.write_task task.a task.b qid tid) ≤ k
      → length (net.write_task task.a task.b qid tid) ≤ 1024
      → streams.read_task (net.write_task task.a task.b qid tid) ≡ (task.a, task.b, qid, tid)
      → evaluate_integral fuel task.a task.b 100 integrand ≡ ok (some v)
      → All Writes results
      → length (streams.write_result v qid tid) ≤ length results
      → net'.received i ≡ some (streams.write_result v qid tid)
      → net'.read_result (streams.write_result v qid tid) ≡ (v, qid, tid)
      → let bytes = net.write_task task.a task.b qid tid in
        let reply = streams.write_result v qid tid in
        (m : Leader D) × (send_task net l i wid fd ≡ ok m)
        × (m.sent ≡ l.sent ++ (fd, bytes) ∷ [])
        × Returns
            (Served streams fuel w fd' reply)
            (session streams fuel w fd' (text bytes results ∷ peer_closed ∷ []))
        × (n : Leader D) × (read_reply net' m i wid fd ≡ ok n)
        × Counted l q wid qid tid tasks v n
        × ((wid' fd'' : ℕ) → read_reply net' n i wid' fd'' ≡ ok n)
  send-session-read streams fuel net net' l w i wid fd fd' qid tid k tasks q task v results first at
        slice doing written enough short read evaluated writes long received read' =
      let bytes = net.write_task task.a task.b qid tid in
      let reply = streams.write_result v qid tid in
      let m = after_send l wid fd bytes in
      let counted = after_read-Counted l q wid fd qid tid tasks v bytes at in
      let kept = found wid (find_or wid idle l.known_workers) l.known_workers in
      let served =
        session-Served streams fuel
          (answers bytes reply results
            (reply_to_lem streams fuel bytes task.a task.b v qid tid short read evaluated) writes
            long ends)
          w fd' in
      (
        m,
        send_task_lem net l i wid fd qid tid k tasks q task first at slice written enough,
        refl,
        subst
            (λ z.
              Returns (Served streams fuel w fd' z)
                (session streams fuel w fd' (text bytes results ∷ peer_closed ∷ [])))
            (append-nil reply) served,
        after_read m wid qid tasks tid q v,
        read_reply_lem net' m i wid fd qid tid tasks q v reply
            (ap (λ z. z.assigned_tasks) kept ∙ first) at doing received read',
        counted,
        λ wid' fd''.
            read_again_lem net' (after_read m wid qid tasks tid q v) i wid' fd'' qid tid
              counted.query v reply counted.at (ground (arith, counted.doing tid)) received read',
      )
