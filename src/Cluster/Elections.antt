-- ===== src/Cluster/Elections.antt =====
-- hw2/src/worker/worker.cpp and hw2/src/consensus/node.cpp: the elections of a cluster.
pub mod Transfer
pub mod Steps
pub mod Sample
pub mod Examples
mod Conflict
use to_ftds.Base.{
  ℕ, suc, ◌^◌, ◌≤◌, ◌<◌, ◌≡◌, ◌≢◌, refl, sym, ◌∙◌, inl, inr, true, List, [], ◌∷◌, ◌++◌, some, ok,
  All, ◌==◌, Bool-cases, if◌then◌else◌, of_Ensures, length, contains, contains-All, Increasing,
  set_insert-member, arith, ap,
}
use to_ftds.Timeout.{ITimeout}
use to_ftds.Consensus.State.{leader}
use to_ftds.Consensus.Node.{Node, new_node, add_command, get_persistent_commands, get_current_term}
use to_ftds.Consensus.Node.Ticks.{tick_once}
use to_ftds.Consensus.Frame.{SendsOnly, add_message-SendsOnly}
use to_ftds.Consensus.Quorum.{Among, quorums_meet, Increasing-Distinct}
use to_ftds.Consensus.Terms.Messages.{MessagesBelow}
use to_ftds.Consensus.Mail.{All-snoc}
use to_ftds.Communication.{AnnotatedMessage, to_int32, from_int32}
use to_ftds.Cluster.{Cluster, put, constructed, Step, ticks, takes, shows, sends, arrives, lost}
use to_ftds.Cluster.Sound.{All-split}
use to_ftds.Cluster.Ballots.{
  History, Fair, Extends, Collected, Won, Won-mono, Ballot, Letters, Agrees, Agrees-others, Voted,
  All-map, Letters-same, Ballot-same, SendsOnly-Ballot,
}
use to_ftds.Cluster.Ballots.Sending.{add_message-Letters}
use to_ftds.Cluster.Ballots.Requests.{Agrees-frame}
use to_ftds.Cluster.Ballots.Ticks.{Unasked}
use to_ftds.Cluster.Ballots.Rounds.{Prepared, tick_once-Voted}
use to_ftds.Cluster.Elections.Transfer.{Backed, Backed-mono, send_message-Backed, receive-Arrives}
use to_ftds.Cluster.Elections.Steps.{CalmSteps, Elected, CalmSteps-Later}

-- No vote.
abbrev pub no_votes : History
no_votes = λ v t c. 1 ≤ 0

pub constructed-Elected :
    {T : Type 0} (ids : List ℕ) (timers : ℕ → T)
    → Increasing ids
    → Elected ids no_votes (constructed ids timers)
unfolding new_node
constructed-Elected ids timers ordered = record {
  fair = record {
    voters = λ v t c h. absurd (omega (arith, h));
    one = λ v t c d h k. omega (arith, h);
  };
  nodes = λ i known. (
    record {
      below = λ t c h. omega (arith, h);
      kept = λ c h. absurd (omega (arith, h));
      won = λ e. cc;
      votes = λ cs e. cc;
    },
    record {
      own = refl;
      total = ap length (set_insert-member i ids ordered known);
      requests = tt;
      responses = tt;
      sent = tt;
    },
  );
  network = tt;
}

-- Two quorums of a term are of the same candidate.
pub one_winner :
    (ids : List ℕ) (H : History) (t i j : ℕ) → Fair ids H → Won ids H i t → Won ids H j t → i ≡ j
one_winner ids H t i j fair (xs, (sx, hx), qx) (ys, (sy, hy), qy) =
    let (v, vx, vy) =
      quorums_meet ids xs ys (Increasing-Distinct xs sx) (Increasing-Distinct ys sy) (among i xs hx)
        (among j ys hy) qx qy in
    fair.one v t i j (contains-All (λ k. H k t i) v xs hx vx)
      (contains-All (λ k. H k t j) v ys hy vy)
  where
    among : (c : ℕ) (votes : List ℕ) → All (λ v. H v t c) votes → Among votes ids
    among c votes h k there = fair.voters k t c (contains-All (λ k. H k t c) k votes h there)

module _ {T : Type 0} ⦃timer : ITimeout T⦄ where
  -- In a cluster of nodes whose ids are in order and fit int32, from their construction on, by
  -- any sequence of rounds of Tick that return, commands, queries, and messages that are sent,
  -- arrive in any order or are lost, each of which begins in a state where no node has or waits
  -- to handle a term above bound, whose successor fits 64 bits, and where no vote request waits
  -- for a leader in the term that it leads: a node that leads and a node that leads in the same
  -- term, then or later, are the same node.
  pub one_leader :
      (ids : List ℕ) (bound : ℕ) (timers : ℕ → T) {c d : Cluster T} (i j : ℕ)
      → Increasing ids
      → All (λ k. k < 2 ^ 31) ids
      → suc bound < 2 ^ 64
      → CalmSteps ids bound (constructed ids timers) c
      → CalmSteps ids bound c d
      → contains i ids ≡ true
      → contains j ids ≡ true
      → (c.nodes i).role ≡ leader
      → (d.nodes j).role ≡ leader
      → get_current_term (c.nodes i) ≡ get_current_term (d.nodes j)
      → i ≡ j
  one_leader ids bound timers {c} {d} i j ordered small fits before between known_i known_j leads_i
        leads_j same =
      let (H, m, s) =
        CalmSteps-Later ids small bound fits no_votes before
          (constructed-Elected ids timers ordered) in
      let (K, more, s') = CalmSteps-Later ids small bound fits H between s in
      let first : Won ids K i (get_current_term (c.nodes i)) =
        Won-mono ids H K more i (get_current_term (c.nodes i))
          ((s.nodes i known_i).0.won leads_i) in
      one_winner ids K (get_current_term (d.nodes j)) i j s'.fair (rw same at first)
        ((s'.nodes j known_j).0.won leads_j)
