-- ===== src/Cluster/LogMatching.antt =====
-- hw2/src/worker/worker.cpp and hw2/src/consensus/node.cpp: the logs of the nodes of a cluster agree.
mod Sample
mod Room
mod Examples
use to_ftds.Base.{
  ℕ, zero, suc, ◌+◌, ◌-◌, ◌^◌, ◌≤◌, ◌<◌, ◌≡◌, ◌≢◌, refl, sym, ap, ◌∙◌, inl, inr, true, List, [],
  ◌∷◌, some, All, ◌==◌, Bool-cases, if◌then◌else◌, length, get_elem?, take, contains, Increasing,
  arith,
}
use to_ftds.Timeout.{ITimeout}
use to_ftds.Consensus.State.{LogItem, Log}
use to_ftds.Consensus.Node.{Node, new_node, get_log}
use to_ftds.Cluster.{Cluster, constructed}
use to_ftds.Cluster.Elections.{no_votes, constructed-Elected}
use to_ftds.Cluster.Elections.Steps.{StepsThrough}
use to_ftds.Cluster.Logs.{Book, Matches, Matches-Longer, Matches-agree}
use to_ftds.Cluster.Logs.Nodes.{Filed, Keeps}
use to_ftds.Cluster.Logs.Steps.{Roomy, Shelved, steps-Onward}

-- The item that the constructor puts into the log.
abbrev first_item : LogItem
first_item = record { command = []; leader_term = 0 }

-- No one has led, and the log of the start is that of term 0.
abbrev first_book : Book
first_book = record { led = λ t i. 1 ≤ 0; logs = λ t. if t == 0 then first_item ∷ [] else [] }

first-Matches : Matches first_book (first_item ∷ [])
first-Matches zero e h = same first_item e h (omega arith, refl)
  where
    same :
        (a b : LogItem)
        → some a ≡ some b
        → (0 < length (first_book.logs a.leader_term))
          × (take 1 (first_item ∷ []) ≡ take 1 (first_book.logs a.leader_term))
        → (0 < length (first_book.logs b.leader_term))
          × (take 1 (first_item ∷ []) ≡ take 1 (first_book.logs b.leader_term))
    same a b e h = let f : a ≡ b = cc in rw f at h
first-Matches (suc k) e h = cc

constructed-Shelved :
    {T : Type 0} (ids : List ℕ) (timers : ℕ → T)
    → Shelved ids no_votes first_book (constructed ids timers)
unfolding new_node
constructed-Shelved ids timers = record {
  filed = record {
    won = λ t j h. absurd (omega (arith, h));
    made = λ t positive some_item. absurd (ground arith);
    matches = λ t. elim (Bool-cases (t == 0)) [
      | inl start ↦ rw start first-Matches
      | inr other ↦ rw other (λ k e h. cc)
    ];
  };
  nodes = λ i known. record {
    led = λ t h. absurd (omega (arith, h));
    leads = λ e. cc;
    log = first-Matches;
    next = λ ls e. cc;
    candidate = λ cs e. cc;
    waiting = tt;
    sent = tt;
  };
  network = tt;
}

-- In a cluster of nodes whose ids are in order and fit int32, from their construction on, by any
-- sequence of rounds of Tick that return, commands, queries, and messages that are sent, arrive
-- in any order or are lost, each of which begins in a state where no node has or waits to handle
-- a term above bound, whose successor fits 64 bits, where no vote request waits for a leader in
-- the term that it leads, where no log and no append request that waits reaches beyond 2^32
-- items, and where the numbers of the messages handed to the channels fit int32: where the log of
-- one node and, then or later, the log of a node have items of one term at the same index, the
-- two logs agree up to this index.
pub log_matching :
    {T : Type 0} ⦃timer : ITimeout T⦄ (ids : List ℕ) (bound : ℕ) (timers : ℕ → T) {c d : Cluster T}
    (i j k : ℕ) (a b : LogItem)
    → Increasing ids
    → All (λ k. k < 2 ^ 31) ids
    → suc bound < 2 ^ 64
    → StepsThrough ids (Roomy ids bound) (constructed ids timers) c
    → StepsThrough ids (Roomy ids bound) c d
    → contains i ids ≡ true
    → contains j ids ≡ true
    → get_elem? (get_log (c.nodes i)) k ≡ some a
    → get_elem? (get_log (d.nodes j)) k ≡ some b
    → a.leader_term ≡ b.leader_term
    → take (suc k) (get_log (c.nodes i)) ≡ take (suc k) (get_log (d.nodes j))
log_matching ids bound timers {c} {d} i j k a b ordered small fits before between known_i known_j
      here there same =
    let (H, B, longer, s, shelf) =
      steps-Onward ids small bound fits no_votes first_book before
        (constructed-Elected ids timers ordered) (constructed-Shelved ids timers) in
    let (K, C, longer', s', shelf') = steps-Onward ids small bound fits H B between s shelf in
    Matches-agree C (get_log (c.nodes i)) (get_log (d.nodes j)) k a b
      (Matches-Longer B C longer' (get_log (c.nodes i)) (shelf.nodes i known_i).log)
      (shelf'.nodes j known_j).log here there same
