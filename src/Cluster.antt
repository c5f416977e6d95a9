-- ===== src/Cluster.antt =====
-- Several processes of hw2/src/worker/worker.cpp: their nodes, and the messages on the way between them.
pub mod Arrival
pub mod Ballots
pub mod Elections
pub mod Logs
pub mod LogMatching
pub mod Sound
mod Examples
use to_ftds.Base.{ℕ, ◌≡◌, ◌==◌, if◌then◌else◌, true, List, [], ◌∷◌, ◌++◌, some, ok, contains}
use to_ftds.Timeout.{ITimeout}
use to_ftds.Consensus.State.{Command}
use to_ftds.Consensus.Message.{Message}
use to_ftds.Consensus.Node.{Node, new_node, add_message, add_command, get_persistent_commands}
use to_ftds.Consensus.Node.Ticks.{tick_once}
use to_ftds.Communication.{AnnotatedMessage, send_message, Uninitialised, receive}

-- The nodes by their ids, and the messages on the way with the ids of their receivers.
pub record Cluster (T : Type 0) : Type 0 where
  pub nodes : ℕ → Node T
  pub network : List (ℕ × AnnotatedMessage)

abbrev pub put : {T : Type 0} → (ℕ → Node T) → ℕ → Node T → ℕ → Node T
put nodes i n j = if j == i then n else nodes j

-- All nodes as they are constructed.
abbrev pub constructed : {T : Type 0} → List ℕ → (ℕ → T) → Cluster T
constructed ids timers = record { nodes = λ i. new_node i ids (timers i); network = [] }

module _ {T : Type 0} ⦃timer : ITimeout T⦄ (ids : List ℕ) where
  -- A round of `Tick`, a command and a query of a node; a message that is handed to a channel goes on its way;
  -- one on its way arrives, in any order, or is lost.
  pub data Step : Cluster T → Cluster T → Type 0 where
    ticks :
        (c : Cluster T) (i : ℕ) (n : Node T)
        → tick_once (c.nodes i) ≡ ok n
        → Step c (record c { nodes = put c.nodes i n })
    takes :
        (c : Cluster T) (i : ℕ) (command : Command)
        → Step c (record c { nodes = put c.nodes i (add_command (c.nodes i) command).0 })
    shows :
        (c : Cluster T) (i from max_count : ℕ)
        → Step c (record c {
          nodes = put c.nodes i (get_persistent_commands (c.nodes i) from max_count).0;
        })
    sends :
        (c : Cluster T) (i who : ℕ) (msg : Message) (rest : List (ℕ × Message))
        (a : AnnotatedMessage)
        → contains i ids ≡ true
        → (c.nodes i).sent ≡ (who, msg) ∷ rest
        → send_message (c.nodes i).my_id msg ≡ ok a
        → Step c (record {
          nodes = put c.nodes i (record (c.nodes i) { sent = rest });
          network = c.network ++ (who, a) ∷ [];
        })
    arrives :
        (c : Cluster T) (u : Uninitialised) (before after : List (ℕ × AnnotatedMessage)) (who : ℕ)
        (a : AnnotatedMessage) (from : ℕ) (msg : Message)
        → c.network ≡ before ++ (who, a) ∷ after
        → receive u a ≡ some (from, msg)
        → Step c (record {
          nodes = put c.nodes who (add_message (c.nodes who) from msg);
          network = before ++ after;
        })
    lost :
        (c : Cluster T) (before after : List (ℕ × AnnotatedMessage)) (x : ℕ × AnnotatedMessage)
        → c.network ≡ before ++ x ∷ after
        → Step c (record c { network = before ++ after })

  pub data Steps (c : Cluster T) : Cluster T → Type 0 where
    here : Steps c c
    next : {d e : Cluster T} → Steps c d → Step d e → Steps c e
