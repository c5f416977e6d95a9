-- ===== src/Consensus/State.antt =====
-- hw2/src/consensus/state.h and common.h: what a node stores. A `Term`, a `NodeId` and a
-- `LogItemId` are `uint64_t`, and a command is a byte string.
use to_ftds.Base.{ℕ, ◌≡◌, Bool, true, ◌&&◌, List, ◌==◌, bytes_eq, bytes_eq_iff, Option, arith}

pub data NodeState : Type 0 where
  leader follower candidate : NodeState

abbrev pub Command : Type 0
Command = List ℕ

pub record LogItem : Type 0 where
  pub command : Command
  pub leader_term : ℕ

-- The comparison `==` that `operator<=>` defaults to.
abbrev pub item_eq : LogItem → LogItem → Bool
item_eq a b = bytes_eq a.command b.command && (a.leader_term == b.leader_term)

pub item_eq-eq : (a b : LogItem) → item_eq a b ≡ true → a ≡ b
item_eq-eq a b h = ground (arith, bytes_eq_iff a.command b.command)

pub item_eq_refl : (a : LogItem) → item_eq a a ≡ true
item_eq_refl a = ground (arith, bytes_eq_iff a.command a.command)

abbrev pub Log : Type 0
Log = List LogItem

pub record PersistentState : Type 0 where
  pub current_term : ℕ
  pub voted_for : Option ℕ
  pub log : Log

pub record VolatileState : Type 0 where
  pub commit_index : ℕ

pub record State : Type 0 where
  pub persistent_state : PersistentState
  pub volatile_state : VolatileState

pub record CandidateState : Type 0 where
  pub votes : List ℕ

-- Both maps from a node to an index, in the order of the nodes.
pub record LeaderState : Type 0 where
  pub next_index : List (ℕ × ℕ)
  pub match_index : List (ℕ × ℕ)
