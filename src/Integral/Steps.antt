-- ===== src/Integral/Steps.antt =====
-- hw1/src/leader/leader.cpp: what the threads of the leader do to its state, as steps.
use to_ftds.Base.{
  ℕ, ◌≡◌, refl, Bool, true, false, List, Option, none, some, ok, >>=-Ensures, Ensures, Ensures-self,
  of_Ensures, Bool-cases, bytes_eq, inl, inr, Outcome,
}
use to_ftds.Integral.{
  Double, Leader, leader_message, new_leader, stop, get_result, receive_discovery,
}
use to_ftds.Integral.Invariant.{Sound}
use to_ftds.Integral.Workers.{Connection, prepare}
use to_ftds.Integral.Workers.Removal.{prepare-Sound}
use to_ftds.Integral.Serving.{Network, serve}
use to_ftds.Integral.Serving.Sound.{Honest, serve-Sound}

new_leader-Sound :
    (D : Type 0) (max_workers : ℕ) (discovery_socket : Option ℕ) (broadcast : Bool)
    → Ensures
        (λ (m : Leader D). Sound m.queries m.known_workers)
        (new_leader max_workers discovery_socket broadcast)
unfolding new_leader
new_leader-Sound D max_workers none broadcast = tt
new_leader-Sound D max_workers (some fd) false = tt
new_leader-Sound D max_workers (some fd) true = record {
  in_order = tt;
  ordered = tt;
  assigned_once = λ task. refl;
}

module _ {D : Type 0} ⦃double : Double D⦄ where
  -- A call of `GetResult`, a datagram, `Stop`, the part of a round up to `poll`, and the work on one
  -- place of `worker_fds_`, with a reply that is honest. The lock that a thread takes makes the
  -- first two whole.
  pub data Step : Leader D → Leader D → Type 0 where
    ask : (l : Leader D) (a b : D) → Step l (get_result l a b).0
    discover :
        {l m : Leader D} (stoi : List ℕ → Outcome ℕ) (now : ℕ) (text : List ℕ)
        → receive_discovery stoi now l text ≡ ok m
        → Step l m
    halt : (l : Leader D) → Step l (stop l)
    plan : {l m : Leader D} (connect : ℕ → Connection) → prepare connect l ≡ ok m → Step l m
    look :
        {l m : Leader D} (net : Network D) (workers_size i : ℕ)
        → Honest net l i
        → serve net workers_size l i ≡ ok m
        → Step l m

  pub data Steps (l : Leader D) : Leader D → Type 0 where
    here : Steps l l
    next : {m n : Leader D} → Steps l m → Step m n → Steps l n

  discover-Sound :
      (stoi : List ℕ → Outcome ℕ) (now : ℕ) (l : Leader D) (text : List ℕ)
      → Sound l.queries l.known_workers
      → Ensures (λ m. Sound m.queries m.known_workers) (receive_discovery stoi now l text)
  unfolding receive_discovery
  discover-Sound stoi now l text s = elim (Bool-cases (bytes_eq text leader_message)) [
    | inl own ↦ rw (own, Ensures) s
    | inr other ↦
        rw (other, Ensures)
          (>>=-Ensures (λ port. stoi text ≡ ok port) (λ m. Sound m.queries m.known_workers)
            (stoi text) _ (Ensures-self (stoi text)) (λ port e. s))
  ]

  stop-Sound :
      (l : Leader D)
      → Sound l.queries l.known_workers
      → Sound (stop l).queries (stop l).known_workers
  unfolding stop
  stop-Sound l s = elim (Bool-cases l.is_stopped) [
    | inl stopped ↦ rw stopped s
    | inr running ↦ rw running s
  ]

  Step-Sound :
      {l m : Leader D}
      → Step l m
      → Sound l.queries l.known_workers
      → Sound m.queries m.known_workers
  unfolding get_result
  Step-Sound (ask l a b) s = s
  Step-Sound (discover {l} {m} stoi now text e) s =
      of_Ensures (λ n. Sound n.queries n.known_workers) _ m (discover-Sound stoi now l text s) e
  Step-Sound (halt l) s = stop-Sound l s
  Step-Sound (plan {l} {m} connect e) s =
      of_Ensures (λ n. Sound n.queries n.known_workers) _ m (prepare-Sound connect l s) e
  Step-Sound (look {l} {m} net workers_size i honest e) s =
      of_Ensures (λ n. Sound n.queries n.known_workers) _ m
        (serve-Sound net workers_size l i s honest) e

  Steps-Sound :
      {l m : Leader D}
      → Sound l.queries l.known_workers
      → Steps l m
      → Sound m.queries m.known_workers
  Steps-Sound s here = s
  Steps-Sound s (next r st) = Step-Sound st (Steps-Sound s r)

  -- From a constructed leader on, by any sequence of calls of GetResult, datagrams, Stop, first
  -- halves of a round and looks at one place of worker_fds_, where a worker answers only its
  -- first task or one that is not in progress: each query has its place as its id, its tasks are
  -- in range and not partly to do and partly in progress, the workers are in order, and each task
  -- in progress is assigned to exactly one worker, once, and no other task to any.
  pub reachable-Sound :
      (max_workers : ℕ) (discovery_socket : Option ℕ) (broadcast : Bool) (l m : Leader D)
      → new_leader max_workers discovery_socket broadcast ≡ ok l
      → Steps l m
      → Sound m.queries m.known_workers
  reachable-Sound max_workers discovery_socket broadcast l m e steps =
      Steps-Sound
        (of_Ensures (λ n. Sound n.queries n.known_workers) _ l
          (new_leader-Sound D max_workers discovery_socket broadcast) e)
        steps
