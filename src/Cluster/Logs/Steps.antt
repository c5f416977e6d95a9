-- ===== src/Cluster/Logs/Steps.antt =====
-- hw2/src/worker/worker.cpp and hw2/src/consensus/node.cpp: the logs over the steps of a cluster.
use to_ftds.Base.{
  ℕ, suc, ◌^◌, ◌<◌, ◌≡◌, ◌≢◌, refl, sym, ap, ◌∙◌, inl, inr, true, List, [], ◌++◌, append_assoc,
  append-nil, some, ok, All, ◌==◌, Bool-cases, of_Ensures, Returns-Ensures, contains, contains-All,
  arith,
}
use to_ftds.Timeout.{ITimeout}
use to_ftds.Consensus.Message.{
  Message, append_entries_request, append_entries_response, request_vote_request,
  request_vote_response,
}
use to_ftds.Consensus.Node.{Node, add_command, get_persistent_commands, get_current_term, get_log}
use to_ftds.Consensus.Node.Ticks.{tick_once}
use to_ftds.Consensus.Mail.{All-snoc}
use to_ftds.Communication.{AnnotatedMessage, Uninitialised, send_message, receive}
use to_ftds.Communication.Transfer.{Fits, arrived, transfer}
use to_ftds.Cluster.{Cluster, put, Step, ticks, takes, shows, sends, arrives, lost}
use to_ftds.Cluster.Sound.{All-split}
use to_ftds.Cluster.Ballots.{History, Fair, All-map}
use to_ftds.Cluster.Elections.{one_winner}
use to_ftds.Cluster.Elections.Steps.{
  Calm, StepsThrough, stays, goes, Elected, Later, put-Elected, Step-Later,
}
use to_ftds.Cluster.Logs.{Book, Grows, Longer, Matches-mono, Taken-mono}
use to_ftds.Cluster.Logs.Nodes.{Filed, Copied, Keeps, Short, Keeps-same, add_message-Keeps}
use to_ftds.Cluster.Logs.Leading.{Copied-mono}
use to_ftds.Cluster.Logs.Ticks.{Filed-mono, AllEarly, Progress}
use to_ftds.Cluster.Logs.Rounds.{tick_once-Result}

-- The cluster is calm, no log and no request to append that waits reaches the end of 32 bits, and the
-- numbers of the messages that are sent fit `int32`.
abbrev pub Roomy : {T : Type 0} → List ℕ → ℕ → Cluster T → Type 0
Roomy ids bound c =
    Calm ids bound c
    × ((i : ℕ)
        → contains i ids ≡ true
        → Short (c.nodes i)
          × AllEarly (c.nodes i)
          × All (λ (x : ℕ × Message). Fits x.1) (c.nodes i).sent)

-- A request to append on its way was taken from a log of the book.
abbrev pub Fetched : Book → ℕ × AnnotatedMessage → Type 0
Fetched B (who, a) =
    (u : Uninitialised) (from : ℕ) (msg : Message) → receive u a ≡ some (from, msg) → Copied B msg

pub record Shelved {T : Type 0} (ids : List ℕ) (H : History) (B : Book) (c : Cluster T)
    : Type 0 where
  pub filed : Filed ids H B
  pub nodes : (i : ℕ) → contains i ids ≡ true → Keeps B i (c.nodes i)
  pub network : All (Fetched B) c.network

-- The nodes and the messages agree with a later history and a longer book.
abbrev pub Onward : {T : Type 0} → List ℕ → Book → Cluster T → Type 1
Onward ids B c = (K : History) × (C : Book) × Longer B C × Elected ids K c × Shelved ids K C c

-- What another node has led in and written leaves a node's log as it is.
Keeps-others :
    {T : Type 0} (ids : List ℕ) (K : History) (B C : Book) (i j : ℕ) (n : Node T)
    → j ≢ i
    → Fair ids K
    → Grows i B C
    → Filed ids K C
    → Keeps B j n
    → Keeps C j n
Keeps-others ids K B C i j n ne fair g filed k = record {
  led = λ t h. k.led t (g.others t j ne h);
  leads = λ e.
      let (own, led) = k.leads e in
      let t = get_current_term n in
      elim (g.own t) [
        | inl same ↦ (same ∙ own, g.led t j led)
        | inr other ↦
            absurd (
              ne
                (one_winner ids K t j i fair (filed.won t j (g.led t j led)) (filed.won t i other)))
      ];
  log = Matches-mono i B C g (get_log n) k.log;
  next = k.next;
  candidate = k.candidate;
  waiting =
      All-map _ _ n.incoming_append_entries_requests (λ x h. Taken-mono i B C g x.1 h) k.waiting;
  sent = All-map _ _ n.sent (λ x h. Copied-mono i B C g x.1 h) k.sent;
}

put-Keeps :
    {T : Type 0} (ids : List ℕ) (B : Book) (nodes : ℕ → Node T) (i : ℕ) (n : Node T)
    → ((j : ℕ) → j ≢ i → contains j ids ≡ true → Keeps B j (nodes j))
    → (contains i ids ≡ true → Keeps B i n)
    → (j : ℕ) → contains j ids ≡ true
    → Keeps B j (put nodes i n j)
put-Keeps ids B nodes i n all new j known = elim (Bool-cases (j == i)) [
  | inl same ↦
      let e : j ≡ i = ground arith in
      let here : (i == i) ≡ true = ground arith in rw (e, here) (new (rw e at known))
  | inr other ↦ rw other (all j (λ e. ground arith) known)
]

arrived-Copied :
    (B : Book) (u : Uninitialised) (msg : Message) → Copied B msg → Copied B (arrived u msg)
arrived-Copied B u (append_entries_request m) h = h
arrived-Copied B u (append_entries_response m) h = tt
arrived-Copied B u (request_vote_request m) h = tt
arrived-Copied B u (request_vote_response m) h = tt

send_message-Fetched :
    (B : Book) (i who : ℕ) (msg : Message) (a : AnnotatedMessage)
    → i < 2 ^ 31
    → Fits msg
    → Copied B msg
    → send_message i msg ≡ ok a
    → Fetched B (who, a)
send_message-Fetched B i who msg a small fits copied coded u from msg' read =
    let sent : receive u a ≡ some (i, arrived u msg) =
      of_Ensures (λ b. receive u b ≡ some (i, arrived u msg)) (send_message i msg) a
        (Returns-Ensures (λ b. receive u b ≡ some (i, arrived u msg)) (send_message i msg)
          (transfer u i msg small fits))
        coded in
    same (i, arrived u msg) (from, msg') (sym sent ∙ read) (arrived-Copied B u msg copied)
  where
    same : (x y : ℕ × Message) → some x ≡ some y → Copied B x.1 → Copied B y.1
    same x y e h = let f : x ≡ y = cc in rw f at h

Fetched-mono :
    (i : ℕ) (B C : Book) → Grows i B C → (x : ℕ × AnnotatedMessage) → Fetched B x → Fetched C x
Fetched-mono i B C g (who, a) h = λ u from msg read. Copied-mono i B C g msg (h u from msg read)

module _ {T : Type 0} (ids : List ℕ) (B : Book) where
  -- The book stays: the elections go on by themselves.
  onward :
      (H : History) (d : Cluster T)
      → Filed ids H B
      → ((i : ℕ) → contains i ids ≡ true → Keeps B i (d.nodes i))
      → All (Fetched B) d.network
      → Later ids H d
      → Onward ids B d
  onward H d filed nodes network (K, more, elected) = (
    K,
    B,
    λ t. ([], sym (append-nil (B.logs t))),
    elected,
    record { filed = Filed-mono ids H K B more filed; nodes = nodes; network = network },
  )

  ticked :
      (H : History) (c : Cluster T) (i : ℕ) (n : Node T)
      → Elected ids H c
      → Shelved ids H B c
      → Progress ids H B i (λ C. Keeps C i n) n
      → Onward ids B (record c { nodes = put c.nodes i n })
  ticked H c i n s shelf (K, C, grows, fair, a, g, filed, k) = (
    K,
    C,
    g.prefix,
    put-Elected ids H K c i n s grows fair a,
    record {
      filed = filed;
      nodes =
          put-Keeps ids C c.nodes i n
            (λ j ne known.
              Keeps-others ids K B C i j (c.nodes j) ne fair g filed (shelf.nodes j known))
            (λ known. k);
      network = All-map _ _ c.network (Fetched-mono i B C g) shelf.network;
    },
  )

module _ {T : Type 0} ⦃timer : ITimeout T⦄ (ids : List ℕ) (small : All (λ i. i < 2 ^ 31) ids)
    (bound : ℕ) (fits : suc bound < 2 ^ 64) where
  Step-Onward :
      (H : History) (B : Book) {c d : Cluster T}
      → Step ids c d
      → Roomy ids bound c
      → Elected ids H c
      → Shelved ids H B c
      → Onward ids B d
  unfolding add_command get_persistent_commands
  Step-Onward H B (ticks c i n e) (calm, room) s shelf = elim (Bool-cases (contains i ids)) [
    | inl known ↦
        let (messages, term, unasked) = calm i known in
        let (short, early, fit) = room i known in
        ticked ids B H c i n s shelf (
          of_Ensures (λ m. Progress ids H B i (λ C. Keeps C i m) m) (tick_once (c.nodes i)) n
            (tick_once-Result ids H B bound i known s.fair shelf.filed fits (c.nodes i) (record {
              prepared = record {
                agrees = s.nodes i known;
                messages = messages;
                term = term;
                unasked = unasked;
              };
              keeps = shelf.nodes i known;
              short = short;
              early = early;
            }))
            e)
    | inr unknown ↦
        onward ids B H (record c { nodes = put c.nodes i n }) shelf.filed
          (put-Keeps ids B c.nodes i n (λ j ne known. shelf.nodes j known) (λ known. cc))
          shelf.network (Step-Later ids small bound fits H (ticks c i n e) calm s)
  ]
  Step-Onward H B (takes c i command) (calm, room) s shelf =
      onward ids B H _ shelf.filed
        (put-Keeps ids B c.nodes i _ (λ j ne known. shelf.nodes j known)
          (λ known.
            Keeps-same B i (c.nodes i) _ refl refl refl refl refl refl refl (shelf.nodes i known)))
        shelf.network (Step-Later ids small bound fits H (takes c i command) calm s)
  Step-Onward H B (shows c i from max_count) (calm, room) s shelf =
      onward ids B H _ shelf.filed
        (put-Keeps ids B c.nodes i _ (λ j ne known. shelf.nodes j known)
          (λ known.
            Keeps-same B i (c.nodes i) _ refl refl refl refl refl refl refl (shelf.nodes i known)))
        shelf.network (Step-Later ids small bound fits H (shows c i from max_count) calm s)
  Step-Onward H B (sends c i who msg rest a known queue coded) (calm, room) s shelf =
      let k = shelf.nodes i known in
      let (short, early, fit) = room i known in
      let (fits_first, _) = rw queue at fit in
      let (copied, others) = rw queue at k.sent in
      let own = (s.nodes i known).1.own in
      onward ids B H _ shelf.filed
        (put-Keeps ids B c.nodes i _ (λ j ne there. shelf.nodes j there)
          (λ there. record {
            led = k.led;
            leads = k.leads;
            log = k.log;
            next = k.next;
            candidate = k.candidate;
            waiting = k.waiting;
            sent = others;
          }))
        (All-snoc (Fetched B) c.network (who, a) shelf.network
          (send_message-Fetched B i who msg a (contains-All (λ k. k < 2 ^ 31) i ids small known)
            fits_first copied (rw own at coded)))
        (Step-Later ids small bound fits H (sends c i who msg rest a known queue coded) calm s)
  Step-Onward H B (arrives c u before after who a from msg way read) (calm, room) s shelf =
      let (fetched, others) =
        All-split (Fetched B) before after (who, a) (rw way at shelf.network) in
      onward ids B H _ shelf.filed
        (put-Keeps ids B c.nodes who _ (λ j ne there. shelf.nodes j there)
          (λ there.
            add_message-Keeps B who (c.nodes who) from msg (fetched u from msg read)
              (shelf.nodes who there)))
        others
        (Step-Later ids small bound fits H (arrives c u before after who a from msg way read) calm
          s)
  Step-Onward H B (lost c before after x way) (calm, room) s shelf =
      onward ids B H _ shelf.filed shelf.nodes
        (All-split (Fetched B) before after x (rw way at shelf.network)).1
        (Step-Later ids small bound fits H (lost c before after x way) calm s)

  pub steps-Onward :
      (H : History) (B : Book) {c d : Cluster T}
      → StepsThrough ids (Roomy ids bound) c d
      → Elected ids H c
      → Shelved ids H B c
      → Onward ids B d
  steps-Onward H B stays s shelf = (H, B, λ t. ([], sym (append-nil (B.logs t))), s, shelf)
  steps-Onward H B (goes run room step) s shelf =
      let (K, C, longer, s', shelf') = steps-Onward H B run s shelf in
      let (L, D, longer', s'', shelf'') = Step-Onward K C step room s' shelf' in
      (
        L,
        D,
        λ t.
            let (xs, e) = longer t in
            let (ys, f) = longer' t in
            (xs ++ ys, f ∙ ap (λ l. l ++ ys) e ∙ append_assoc (B.logs t) xs ys),
        s'',
        shelf'',
      )
