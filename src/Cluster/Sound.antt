-- ===== src/Cluster/Sound.antt =====
-- hw2/src/worker/worker.cpp and hw2/src/consensus/node.cpp: the nodes of a cluster stay well-formed, and what
-- they send each other does not end a round of `Tick`.
use to_ftds.Base.{
  ℕ, ◌^◌, ◌<◌, ◌≡◌, ◌≢◌, refl, ap, ◌∙◌, subst, inl, inr, ◌==◌, ◌+◌, true, Bool-cases, List, [], ◌∷◌,
  ◌++◌, arith, ok, Returns, of_Ensures, All, length, contains, contains-All, Increasing,
  set_insert-member,
}
use to_ftds.Timeout.{ITimeout}
use to_ftds.Consensus.State.{leader}
use to_ftds.Consensus.Message.{Message}
use to_ftds.Consensus.Node.{
  Node, new_node, add_command, get_persistent_commands, get_log, get_commit_index,
}
use to_ftds.Consensus.Node.Ticks.{tick_once}
use to_ftds.Consensus.Wellformed.{Wellformed, Wellformed-same}
use to_ftds.Consensus.Wellformed.Ticks.{tick_once-Wellformed, tick_once-Returns}
use to_ftds.Consensus.Wellformed.Steps.{add_message-Wellformed, new_node-Wellformed}
use to_ftds.Consensus.Mail.{Complete, Mail, Mail-same, add_message-Mail, All-snoc}
use to_ftds.Consensus.Mail.Ticks.{tick_once-Mail}
use to_ftds.Communication.{to_int32, from_int32, AnnotatedMessage, send_message}
use to_ftds.Cluster.{
  Cluster, put, constructed, Step, ticks, takes, shows, sends, arrives, lost, Steps, here, next,
}
use to_ftds.Cluster.Arrival.{send_message-sender, send_message-Complete, receive-Complete}

pub All-split :
    {A : Type 0} (P : A → Type 0) (before after : List A) (x : A)
    → All P (before ++ x ∷ after)
    → P x × All P (before ++ after)
All-split P [] after x h = h
All-split P (y ∷ before) after x (p, h) =
    let (q, rest) = All-split P before after x h in (q, (p, rest))

-- The sender, as the receiver reads it, is a node of the cluster.
abbrev FromNode : List ℕ → ℕ × AnnotatedMessage → Type 0
FromNode ids x = contains (from_int32 x.1.sender_id) ids ≡ true

abbrev Both : {T : Type 0} → List ℕ → Node T → Type 0
Both ids n = Wellformed ids n × Mail ids n

pub record Sound {T : Type 0} (ids : List ℕ) (c : Cluster T) : Type 0 where
  pub nodes : (i : ℕ) → contains i ids ≡ true → Both ids (c.nodes i)
  pub senders : All (FromNode ids) c.network

int32_same : (x : ℕ) → x < 2 ^ 31 → from_int32 (to_int32 x) ≡ x
int32_same x h = ground arith

each_coded :
    (from : ℕ) (sent : List (ℕ × Message))
    → All (λ (x : ℕ × Message). Complete x.1) sent
    → All (λ (x : ℕ × Message). (a : AnnotatedMessage) × (send_message from x.1 ≡ ok a)) sent
each_coded from [] h = tt
each_coded from (x ∷ sent) h = (send_message-Complete from x.1 h.0, each_coded from sent h.1)

module _ {T : Type 0} (ids : List ℕ) where
  put-Both :
      (nodes : ℕ → Node T) (i : ℕ) (n : Node T)
      → ((j : ℕ) → contains j ids ≡ true → Both ids (nodes j))
      → (contains i ids ≡ true → Both ids n)
      → (j : ℕ) → contains j ids ≡ true
      → Both ids (put nodes i n j)
  put-Both nodes i n all new j known = elim (Bool-cases (j == i)) [
    | inl same ↦ let e : j ≡ i = ground arith in rw same (new (rw e at known))
    | inr other ↦ rw other (all j known)
  ]

module _ {T : Type 0} ⦃timer : ITimeout T⦄ (ids : List ℕ) (small : All (λ i. i < 2 ^ 31) ids) where
  Step-Sound : {c d : Cluster T} → Step ids c d → Sound ids c → Sound ids d
  unfolding add_command get_persistent_commands
  Step-Sound (ticks c i n e) s = record {
    nodes = put-Both ids c.nodes i n s.nodes (λ known.
        let (w, mail) = s.nodes i known in
        (
          of_Ensures (Wellformed ids) (tick_once (c.nodes i)) n
              (tick_once-Wellformed ids (c.nodes i) w) e,
          of_Ensures (Mail ids) (tick_once (c.nodes i)) n (tick_once-Mail ids (c.nodes i) mail) e,
        ));
    senders = s.senders;
  }
  Step-Sound (takes c i command) s = record {
    nodes = put-Both ids c.nodes i _ s.nodes (λ known.
        let (w, mail) = s.nodes i known in
        (
          Wellformed-same ids (c.nodes i) _ refl refl refl refl refl refl w.has_item w,
          Mail-same ids (c.nodes i) _ refl refl refl refl refl mail,
        ));
    senders = s.senders;
  }
  Step-Sound (shows c i from max_count) s = record {
    nodes = put-Both ids c.nodes i _ s.nodes (λ known.
        let (w, mail) = s.nodes i known in
        (
          Wellformed-same ids (c.nodes i) _ refl refl refl refl refl refl w.has_item w,
          Mail-same ids (c.nodes i) _ refl refl refl refl refl mail,
        ));
    senders = s.senders;
  }
  Step-Sound (sends c i who msg rest a known queue coded) s =
      let (w, mail) = s.nodes i known in
      let id = (c.nodes i).my_id in
      let sender : from_int32 a.sender_id ≡ id =
        ap from_int32 (send_message-sender id msg a coded)
        ∙ int32_same id (contains-All (λ k. k < 2 ^ 31) id ids small mail.own) in
      record {
        nodes = put-Both ids c.nodes i _ s.nodes (λ known'. (
          Wellformed-same ids (c.nodes i) _ refl refl refl refl refl refl w.has_item w,
          record {
            own = mail.own;
            waiting = record {
              append_entries_requests = mail.waiting.append_entries_requests;
              request_vote_requests = mail.waiting.request_vote_requests;
              append_entries_responses = mail.waiting.append_entries_responses;
            };
            sent = (rw queue at mail.sent).1;
          },
        ));
        senders = All-snoc (FromNode ids) c.network (who, a) s.senders (rw sender mail.own);
      }
  Step-Sound (arrives c u before after who a from msg way read) s =
      let (sender, complete) = receive-Complete u a from msg read in
      let (from_node, others) =
        All-split (FromNode ids) before after (who, a) (rw way at s.senders) in
      record {
        nodes = put-Both ids c.nodes who _ s.nodes (λ known.
            let (w, mail) = s.nodes who known in
            (
              add_message-Wellformed ids (c.nodes who) from msg w,
              add_message-Mail ids (c.nodes who) from msg (rw sender from_node) complete mail,
            ));
        senders = others;
      }
  Step-Sound (lost c before after x way) s = record {
    nodes = s.nodes;
    senders = (All-split (FromNode ids) before after x (rw way at s.senders)).1;
  }

  Steps-Sound : {c d : Cluster T} → Steps ids c d → Sound ids c → Sound ids d
  Steps-Sound here s = s
  Steps-Sound (next steps step) s = Step-Sound step (Steps-Sound steps s)

  constructed-Sound : (timers : ℕ → T) → Increasing ids → Sound ids (constructed ids timers)
  unfolding new_node
  constructed-Sound timers ordered = record {
    nodes = λ i known.
        let same = set_insert-member i ids ordered known in
        (
          subst (λ channels. Wellformed channels (new_node i ids (timers i))) same
              (new_node-Wellformed i ids (timers i)),
          record {
            own = known;
            waiting = record {
              append_entries_requests = tt;
              request_vote_requests = tt;
              append_entries_responses = tt;
            };
            sent = tt;
          },
        );
    senders = tt;
  }

  -- In a cluster of nodes whose ids are in order and fit int32, from their construction on, by
  -- any sequence of rounds of Tick that return, commands, queries, and messages that are sent,
  -- arrive in any order or are lost: a round of Tick of a node that does not lead returns, and
  -- leaves the state that belongs to its role and an item in its log, where its commit index lies
  -- in its log and no waiting query's range wraps, and every message that it has handed to a
  -- channel can be sent on its way without an exception.
  pub cluster_ticks :
      Increasing ids
      → (timers : ℕ → T) (c : Cluster T) → Steps ids (constructed ids timers) c
      → (i : ℕ) → contains i ids ≡ true
      → (c.nodes i).role ≢ leader
      → get_commit_index (c.nodes i) < length (get_log (c.nodes i))
      → All (λ (q : (ℕ × ℕ) × ℕ). q.0.0 + q.0.1 < 2 ^ 64) (c.nodes i).get_persistent_commands_reqs
      → Returns (Wellformed ids) (tick_once (c.nodes i))
        × All
            (λ (x : ℕ × Message).
              (a : AnnotatedMessage) × (send_message (c.nodes i).my_id x.1 ≡ ok a))
            (c.nodes i).sent
  cluster_ticks ordered timers c steps i known other inside short =
      let s = Steps-Sound steps (constructed-Sound timers ordered) in
      let (w, mail) = s.nodes i known in
      (
        tick_once-Returns ids (c.nodes i) w other mail.waiting inside short,
        each_coded (c.nodes i).my_id (c.nodes i).sent mail.sent,
      )
