-- ===== src/Cluster/Elections/Steps.antt =====
-- hw2/src/worker/worker.cpp and hw2/src/consensus/node.cpp: the votes over the steps of a cluster.
use to_ftds.Base.{
  ℕ, suc, ◌^◌, ◌≤◌, ◌<◌, ◌≡◌, ◌≢◌, refl, inl, inr, true, List, All, ◌==◌, Bool-cases, of_Ensures,
  contains, contains-All, arith,
}
use to_ftds.Timeout.{ITimeout}
use to_ftds.Consensus.Node.{Node, add_command, get_persistent_commands, get_current_term}
use to_ftds.Consensus.Node.Ticks.{tick_once}
use to_ftds.Consensus.Frame.{add_message-SendsOnly}
use to_ftds.Consensus.Terms.Messages.{MessagesBelow}
use to_ftds.Consensus.Mail.{All-snoc}
use to_ftds.Communication.{to_int32, from_int32}
use to_ftds.Cluster.{Cluster, put, Step, ticks, takes, shows, sends, arrives, lost}
use to_ftds.Cluster.Sound.{All-split}
use to_ftds.Cluster.Ballots.{
  History, Fair, Agrees, Agrees-others, Voted, All-map, Ballot-same, SendsOnly-Ballot, Extends,
}
use to_ftds.Cluster.Ballots.Sending.{add_message-Letters}
use to_ftds.Cluster.Ballots.Requests.{Agrees-frame}
use to_ftds.Cluster.Ballots.Ticks.{Unasked}
use to_ftds.Cluster.Ballots.Rounds.{tick_once-Voted}
use to_ftds.Cluster.Elections.Transfer.{Backed, Backed-mono, send_message-Backed, receive-Arrives}

-- No term that a node has seen is near the end of 64 bits, and no candidate asks a leader for its vote in
-- the term that it leads.
abbrev pub Calm : {T : Type 0} → List ℕ → ℕ → Cluster T → Type 0
Calm ids bound c =
    (i : ℕ)
    → contains i ids ≡ true
    → MessagesBelow bound (c.nodes i) × (get_current_term (c.nodes i) ≤ bound) × Unasked (c.nodes i)

module _ {T : Type 0} ⦃timer : ITimeout T⦄ (ids : List ℕ) (P : Cluster T → Type 0) where
  -- Steps of which each begins in a cluster where `P` holds.
  pub data StepsThrough (c : Cluster T) : Cluster T → Type 0 where
    stays : StepsThrough c c
    goes : {d e : Cluster T} → StepsThrough c d → P d → Step ids d e → StepsThrough c e

abbrev pub CalmSteps :
    {T : Type 0} → ⦃timer : ITimeout T⦄ → List ℕ → ℕ → Cluster T → Cluster T → Type 0
CalmSteps ids bound = StepsThrough ids (Calm ids bound)

-- The nodes and the messages on the way agree with the history.
pub record Elected {T : Type 0} (ids : List ℕ) (H : History) (c : Cluster T) : Type 0 where
  pub fair : Fair ids H
  pub nodes : (i : ℕ) → contains i ids ≡ true → Agrees ids H i (c.nodes i)
  pub network : All (Backed H) c.network

abbrev pub Later : {T : Type 0} → List ℕ → History → Cluster T → Type 1
Later ids H c = (K : History) × ((v t i : ℕ) → H v t i → K v t i) × Elected ids K c

module _ {T : Type 0} (ids : List ℕ) where
  put-Agrees :
      (H : History) (nodes : ℕ → Node T) (i : ℕ) (n : Node T)
      → ((j : ℕ) → j ≢ i → contains j ids ≡ true → Agrees ids H j (nodes j))
      → (contains i ids ≡ true → Agrees ids H i n)
      → (j : ℕ) → contains j ids ≡ true
      → Agrees ids H j (put nodes i n j)
  put-Agrees H nodes i n all new j known = elim (Bool-cases (j == i)) [
    | inl same ↦
        let e : j ≡ i = ground arith in
        let here : (i == i) ≡ true = ground arith in rw (e, here) (new (rw e at known))
    | inr other ↦ rw other (all j (λ e. ground arith) known)
  ]

module _ {T : Type 0} (ids : List ℕ) (H : History) where
  -- The history stays where the state of one node changes and it agrees with it.
  moved :
      (c : Cluster T) (i : ℕ) (n : Node T)
      → Elected ids H c
      → (Agrees ids H i (c.nodes i) → Agrees ids H i n)
      → Later ids H (record c { nodes = put c.nodes i n })
  moved c i n s step = (
    H,
    λ v t j h. h,
    record {
      fair = s.fair;
      nodes =
          put-Agrees ids H c.nodes i n (λ j ne known. s.nodes j known)
            (λ known. step (s.nodes i known));
      network = s.network;
    },
  )

  pub put-Elected :
      (K : History) (c : Cluster T) (i : ℕ) (n : Node T)
      → Elected ids H c
      → Extends i H K
      → Fair ids K
      → Agrees ids K i n
      → Elected ids K (record c { nodes = put c.nodes i n })
  put-Elected K c i n s grows fair a = record {
    fair = fair;
    nodes =
        put-Agrees ids K c.nodes i n
          (λ j ne there. Agrees-others ids H K i j (c.nodes j) ne grows (s.nodes j there))
          (λ there. a);
    network = All-map _ _ c.network (Backed-mono H K grows.keeps) s.network;
  }

  ticked :
      (c : Cluster T) (i : ℕ) (n : Node T)
      → Elected ids H c
      → Voted ids H i n
      → Later ids H (record c { nodes = put c.nodes i n })
  ticked c i n s (K, grows, fair, a) = (K, grows.keeps, put-Elected K c i n s grows fair a)

small_again : (x : ℕ) → x < 2 ^ 31 → from_int32 (to_int32 x) ≡ x
small_again x h = ground arith

module _ {T : Type 0} ⦃timer : ITimeout T⦄ (ids : List ℕ) (small : All (λ i. i < 2 ^ 31) ids)
    (bound : ℕ) (fits : suc bound < 2 ^ 64) where
  pub Step-Later :
      (H : History) {c d : Cluster T}
      → Step ids c d
      → Calm ids bound c
      → Elected ids H c
      → Later ids H d
  unfolding add_command get_persistent_commands
  Step-Later H (ticks c i n e) calm s = elim (Bool-cases (contains i ids)) [
    | inl known ↦
        let (messages, term, unasked) = calm i known in
        ticked ids H c i n s (
          of_Ensures (Voted ids H i) (tick_once (c.nodes i)) n
            (tick_once-Voted ids H bound i known s.fair fits (c.nodes i) (record {
              agrees = s.nodes i known;
              messages = messages;
              term = term;
              unasked = unasked;
            }))
            e)
    | inr unknown ↦ (
      H,
      λ v t j h. h,
      record {
        fair = s.fair;
        nodes = put-Agrees ids H c.nodes i n (λ j ne known. s.nodes j known) (λ known. cc);
        network = s.network;
      },
    )
  ]
  Step-Later H (takes c i command) calm s =
      moved ids H c i _ s
        (Agrees-frame ids H i (c.nodes i) _ refl refl refl refl refl refl refl refl refl)
  Step-Later H (shows c i from max_count) calm s =
      moved ids H c i _ s
        (Agrees-frame ids H i (c.nodes i) _ refl refl refl refl refl refl refl refl refl)
  Step-Later H (sends c i who msg rest a known queue coded) calm s =
      let (b, l) = s.nodes i known in
      let ((other, ready), others) = rw queue at l.sent in
      (
        H,
        λ v t j h. h,
        record {
          fair = s.fair;
          nodes =
              put-Agrees ids H c.nodes i _ (λ j ne there. s.nodes j there)
                (λ there. (
                  Ballot-same ids H i (c.nodes i) _ refl refl refl refl b,
                  record {
                    own = l.own;
                    total = l.total;
                    requests = l.requests;
                    responses = l.responses;
                    sent = others;
                  },
                ));
          network =
              All-snoc (Backed H) c.network (who, a) s.network
                (send_message-Backed H i who msg a
                  (small_again i (contains-All (λ k. k < 2 ^ 31) i ids small known)) other ready
                  (rw l.own at coded));
        },
      )
  Step-Later H (arrives c u before after who a from msg way read) calm s =
      let (backed, others) = All-split (Backed H) before after (who, a) (rw way at s.network) in
      (
        H,
        λ v t j h. h,
        record {
          fair = s.fair;
          nodes =
              put-Agrees ids H c.nodes who _ (λ j ne there. s.nodes j there)
                (λ there.
                  let (b, l) = s.nodes who there in
                  (
                    SendsOnly-Ballot ids H who (c.nodes who) _
                        (add_message-SendsOnly (c.nodes who) from msg) b,
                    add_message-Letters ids H who (c.nodes who) from msg
                        (receive-Arrives H u who a from msg backed read) l,
                  ));
          network = others;
        },
      )
  Step-Later H (lost c before after x way) calm s = (
    H,
    λ v t j h. h,
    record {
      fair = s.fair;
      nodes = s.nodes;
      network = (All-split (Backed H) before after x (rw way at s.network)).1;
    },
  )

  pub CalmSteps-Later :
      (H : History) {c d : Cluster T} → CalmSteps ids bound c d → Elected ids H c → Later ids H d
  CalmSteps-Later H stays s = (H, λ v t j h. h, s)
  CalmSteps-Later H (goes run calm step) s =
      let (K, more, s') = CalmSteps-Later H run s in
      let (L, more', s'') = Step-Later K step calm s' in
      (L, λ v t j h. more' v t j (more v t j h), s'')
