-- ===== src/Integral/Worker/Sending.antt =====
-- hw1/src/worker/worker.cpp: the loop over `send`.
use to_ftds.Base.{
  ℕ, zero, suc, ◌≤◌, ◌==◌, ◌≡◌, refl, arith, if◌then◌else◌, List, [], ◌∷◌, ◌++◌, append_assoc,
  append-nil, Option, none, some, take, drop, length, length-drop, take-append-drop, All, Returns,
}
use to_ftds.Integral.Worker.{Worker, send_all}

-- The bytes sent on a descriptor.
abbrev pub on : ℕ → List (ℕ × List ℕ) → List ℕ
on fd [] = []
on fd ((g, bytes) ∷ sent) = if fd == g then bytes ++ on fd sent else on fd sent

-- `send` has written some bytes.
abbrev pub Writes : Option ℕ → Type 0
Writes none = ⊥
Writes (some n) = 1 ≤ n

pub on-snoc :
    (fd g : ℕ) (bytes : List ℕ) (sent : List (ℕ × List ℕ))
    → on g (sent ++ (fd, bytes) ∷ []) ≡ on g sent ++ (if g == fd then bytes else [])
on-snoc fd g bytes [] = ground (arith, append-nil bytes)
on-snoc fd g bytes ((f, other) ∷ sent) =
    ground (
      arith,
      on-snoc fd g bytes sent,
      append_assoc other (on g sent) (if g == fd then bytes else []),
    )

join_sent :
    (fd g n : ℕ) (bytes : List ℕ) (sent : List (ℕ × List ℕ)) (later : List ℕ)
    → later ≡ on g (sent ++ (fd, take n bytes) ∷ []) ++ (if g == fd then drop n bytes else [])
    → later ≡ on g sent ++ (if g == fd then bytes else [])
join_sent fd g n bytes sent later e = ground (
  arith,
  on-snoc fd g (take n bytes) sent,
  append_assoc (on g sent) (take n bytes) (drop n bytes),
  take-append-drop n bytes,
  append-nil (on g sent),
)

-- What a call that sends `bytes` on `fd` leaves of the worker.
abbrev pub Sent : Worker → ℕ → List ℕ → Worker → Type 0
Sent w fd bytes w' =
    ((g : ℕ) → on g w'.sent ≡ on g w.sent ++ (if g == fd then bytes else []))
    × (w'.closed ≡ w.closed)
    × (w'.current_fd ≡ w.current_fd)
    × (w'.is_stopped ≡ w.is_stopped)

pub send_all-Sent :
    (results : List (Option ℕ)) (w : Worker) (fd : ℕ) (bytes : List ℕ)
    → All Writes results
    → length bytes ≤ length results
    → Returns (λ r. Sent w fd bytes r.0 × (r.1 ≡ [])) (send_all results w fd bytes)
unfolding send_all
send_all-Sent results w fd [] writes enough =
    ((w, []), refl, ((λ g. ground (arith, append-nil (on g w.sent)), refl, refl, refl), refl))
send_all-Sent [] w fd (x ∷ xs) writes enough = absurd (omega arith)
send_all-Sent (none ∷ results) w fd (x ∷ xs) writes enough = absurd writes.0
send_all-Sent (some zero ∷ results) w fd (x ∷ xs) writes enough = absurd (omega arith)
send_all-Sent (some (suc n) ∷ results) w fd (x ∷ xs) writes enough =
    let w' = record w { sent = w.sent ++ (fd, x ∷ take n xs) ∷ [] } in
    let (r, e, ((s, c, f, t), done)) =
      send_all-Sent results w' fd (drop n xs) writes.1 (omega (arith, length-drop n xs)) in
    (r, e, ((λ g. join_sent fd g (suc n) (x ∷ xs) w.sent (on g r.0.sent) (s g), c, f, t), done))
