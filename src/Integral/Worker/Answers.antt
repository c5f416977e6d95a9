-- ===== src/Integral/Worker/Answers.antt =====
-- hw1/src/worker/worker.cpp: `Worker::AcceptIncomingConnection` over whole connections.
use to_ftds.Base.{
  ℕ, ◌≤◌, ◌==◌, ◌≡◌, refl, ap, ◌∙◌, arith, if◌then◌else◌, Bool, true, false, List, [], ◌∷◌, ◌++◌,
  map, append_assoc, append-nil, Option, none, some, take, length, All, Returns, ok, ◌>>=◌,
}
use to_ftds.Integral.{Double}
use to_ftds.Integral.Worker.{
  Worker, Received, would_block, peer_closed, text, Accepted, connection, Streams, reply_to,
  session, accept_all,
}
use to_ftds.Integral.Worker.Sending.{on, Writes, send_all-Sent}

-- A connection with its descriptor, what `recv` gives on it, and the bytes of the replies.
pub record Dialogue : Type 0 where
  pub fd : ℕ
  pub received : List Received
  pub replies : List ℕ

abbrev pub connection_of : Dialogue → Accepted
connection_of d = connection d.fd d.received

-- The replies on a descriptor over several connections.
abbrev pub replies_on : ℕ → List Dialogue → List ℕ
replies_on g [] = []
replies_on g (d ∷ ds) = (if g == d.fd then d.replies else []) ++ replies_on g ds

joined :
    (own : Bool) (before between reply bytes after : List ℕ)
    → between ≡ before ++ (if own then reply else [])
    → after ≡ between ++ (if own then bytes else [])
    → after ≡ before ++ (if own then reply ++ bytes else [])
joined true before between reply bytes after e f =
    f ∙ ap (λ z. z ++ bytes) e ∙ append_assoc before reply bytes
joined false before between reply bytes after e f = f ∙ append-nil between ∙ e

module _ {D : Type 0} ⦃double : Double D⦄ (streams : Streams D) (fuel : ℕ) where
  -- Texts that are tasks whose evaluation ends, each of them received by one call, with `send` writing until
  -- their replies are sent, waits, and the end of the connection; and the bytes of all replies.
  pub data Converses : List Received → List ℕ → Type 0 where
    ends : Converses (peer_closed ∷ []) []
    waits :
        {received : List Received} {bytes : List ℕ}
        → Converses received bytes
        → Converses (would_block ∷ received) bytes
    answers :
        {received : List Received} {bytes : List ℕ} (task reply : List ℕ)
        (results : List (Option ℕ))
        → reply_to streams fuel (take 1024 task) ≡ ok (some reply)
        → All Writes results
        → length reply ≤ length results
        → Converses received bytes
        → Converses (text task results ∷ received) (reply ++ bytes)

  -- What a connection leaves of the worker.
  abbrev pub Served : Worker → ℕ → List ℕ → Worker × Bool → Type 0
  Served w fd bytes done =
      ((g : ℕ) → on g done.0.sent ≡ on g w.sent ++ (if g == fd then bytes else []))
      × (done.0.closed ≡ w.closed ++ fd ∷ [])
      × (done.0.current_fd ≡ none)
      × (done.0.is_stopped ≡ w.is_stopped)
      × (done.1 ≡ true)

  pub session-Served :
      {received : List Received} {bytes : List ℕ}
      → Converses received bytes
      → (w : Worker) (fd : ℕ) → Returns (Served w fd bytes) (session streams fuel w fd received)
  unfolding session
  session-Served ends w fd = (
    (record w { current_fd = none; closed = w.closed ++ fd ∷ [] }, true),
    refl,
    ((λ g. ground (arith, append-nil (on g w.sent))), refl, refl, refl, refl),
  )
  session-Served (waits c) w fd = session-Served c w fd
  session-Served (answers {bytes = bytes} task reply results evaluated writes enough c) w fd =
      let ((v, left), e, ((s, closed, current, stopped), done)) =
        send_all-Sent results w fd reply writes enough in
      let (r, e', (s', closed', current', stopped', ended)) = session-Served c v fd in
      rw (evaluated, e, ◌>>=◌, done, e')
        (
          r,
          refl,
          (
            (λ g.
                joined (g == fd) (on g w.sent) (on g v.sent) reply bytes (on g r.0.sent) (s g)
                  (s' g)),
            rw closed' (ap (λ z. z ++ fd ∷ []) closed),
            current',
            stopped' ∙ stopped,
            ended,
          ),
        )

  -- On connections that bring tasks whose evaluation ends, each received by one call, and waits,
  -- where send writes until each reply is sent, and that end: AcceptIncomingConnection gets
  -- through all of them, sends on each descriptor the replies in the order of the tasks and
  -- nothing else, and closes each connection once, in order.
  pub accept_all-Served :
      (ds : List Dialogue)
      → All (λ d. Converses d.received d.replies) ds
      → (w : Worker)
      → Returns
          (λ done.
            ((g : ℕ) → on g done.0.sent ≡ on g w.sent ++ replies_on g ds)
            × (done.0.closed ≡ w.closed ++ map (λ d. d.fd) ds))
          (accept_all streams fuel w (map connection_of ds))
  unfolding accept_all
  accept_all-Served [] cs w = (
    (w, false),
    refl,
    ((λ g. ground (arith, append-nil (on g w.sent))), ground (arith, append-nil w.closed)),
  )
  accept_all-Served (d ∷ ds) cs w =
      let ((v, t), e, (s, closed, current, stopped, ended)) =
        session-Served cs.0 (record w { current_fd = some d.fd }) d.fd in
      let (r, e', (s', closed')) = accept_all-Served ds cs.1 v in
      rw (e, ◌>>=◌, ended, e')
        (
          r,
          refl,
          (
            (λ g. ground (
              arith,
              s g,
              s' g,
              append_assoc (on g w.sent) (if g == d.fd then d.replies else []) (replies_on g ds),
            )),
            closed'
                ∙ ap (λ z. z ++ map (λ d. d.fd) ds) closed
                ∙ append_assoc w.closed (d.fd ∷ []) (map (λ d. d.fd) ds),
          ),
        )
