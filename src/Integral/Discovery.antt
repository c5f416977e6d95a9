-- ===== src/Integral/Discovery.antt =====
-- hw1/src/worker/worker.cpp and hw1/src/leader/leader.cpp: how workers answer the leader's datagram, and
-- how the leader takes up the answers.
use to_ftds.Base.{
  ℕ, ◌≤◌, ◌≡◌, refl, if◌then◌else◌, true, false, List, [], ◌∷◌, ◌++◌, map, some, take_all, length,
  All, Returns, ok, arith, lookup, insert, lookup-insert, contains, nat_key, bytes_eq, ◌>>=◌,
  Outcome,
}
use to_ftds.Integral.{Leader, HeartbeatMessage, leader_message, receive_discovery}
use to_ftds.Integral.Worker.{Worker, datagram, on_receive, wait_for_discovery, answer_discovery}

abbrev pub heartbeat : ℕ → HeartbeatMessage
heartbeat now = record { sequence_number = 0; timestamp = now }

module _ (to_string : ℕ → List ℕ) (stoi : List ℕ → Outcome ℕ) where
  -- The worker runs, and its port can be read back from a short text that is not the leader's.
  abbrev pub Discoverable : Worker → Type 0
  Discoverable w =
      (w.is_stopped ≡ false)
      × (stoi (to_string w.workload_port) ≡ ok w.workload_port)
      × (bytes_eq (to_string w.workload_port) leader_message ≡ false)
      × (length (to_string w.workload_port) ≤ 100)

  answer_lem :
      (w : Worker) (bytes : List ℕ)
      → w.is_stopped ≡ false
      → wait_for_discovery to_string true w (datagram bytes ∷ [])
        ≡ ok (record w { answers = w.answers ++ to_string w.workload_port ∷ [] })
  unfolding wait_for_discovery on_receive answer_discovery
  answer_lem w bytes running = rw running refl

  module _ {D : Type 0} (now : ℕ) where
    abbrev pub Updated : Leader D → List Worker → Leader D → Type 0
    Updated l ws m =
        (port : ℕ)
        → lookup port m.hb_updates ≡ (
            if contains port (map (λ w. w.workload_port) ws)
            then some (heartbeat now)
            else lookup port l.hb_updates)

    receive-Updated :
        (ws : List Worker)
        → All Discoverable ws
        → (l : Leader D)
        → Returns (Updated l ws) (
            on_receive
              (receive_discovery stoi now)
              l
              (map (λ w. datagram (to_string w.workload_port)) ws))
    unfolding on_receive receive_discovery
    receive-Updated [] hs l = (l, refl, λ port. refl)
    receive-Updated (w ∷ ws) ((running, read, other, short), hs) l =
        let l' = record l { hb_updates = insert w.workload_port (heartbeat now) l.hb_updates } in
        let (m, e, updated) = receive-Updated ws hs l' in
        rw (take_all 100 (to_string w.workload_port) short, other, read, ◌>>=◌, e)
          (
            m,
            refl,
            λ port. ground (
              arith,
              updated port,
              lookup-insert w.workload_port port (heartbeat now) l.hb_updates,
            ),
          )

    -- Workers that run, and whose ports can be read back from their texts, which are short and
    -- not the leader's own message: each answers the leader's datagram once with its port, and a
    -- leader that receives these answers knows a heartbeat of the current time for exactly these
    -- ports besides those that it knew.
    pub discovered :
        (ws : List Worker)
        → All Discoverable ws
        → (l : Leader D)
        → All
            (λ w.
              wait_for_discovery to_string true w (datagram leader_message ∷ [])
              ≡ ok (record w { answers = w.answers ++ to_string w.workload_port ∷ [] }))
            ws
          × Returns (Updated l ws) (
              on_receive
                (receive_discovery stoi now)
                l
                (map (λ w. datagram (to_string w.workload_port)) ws))
    discovered ws hs l = (each ws hs, receive-Updated ws hs l)
      where
        each :
            (ws : List Worker)
            → All Discoverable ws
            → All
                (λ w.
                  wait_for_discovery to_string true w (datagram leader_message ∷ [])
                  ≡ ok (record w { answers = w.answers ++ to_string w.workload_port ∷ [] }))
                ws
        each [] hs = tt
        each (w ∷ ws) hs = (answer_lem w leader_message hs.0.0, each ws hs.1)
