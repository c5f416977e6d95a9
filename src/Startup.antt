-- ===== src/Startup.antt =====
-- `main` of hw2/src/worker/worker.cpp, up to the node: the test of the ports and the other nodes'
-- channels. A port is a `uint16_t`; a channel is the port that it sends to. The loop over the ports
-- runs on fuel.
pub mod Nodes
pub mod Console
pub mod Servers
mod Examples
use to_ftds.Base.{
  ℕ, zero, suc, ◌+◌, ◌-◌, ◌%◌, ◌^◌, leb, ◌==◌, if◌then◌else◌, Bool, ◌&&◌, ◌||◌, not, List, [],
  Option, none, some, map, insert, nat_key,
}
use to_ftds.Consensus.Node.{Node, new_node}

-- `refused`: the exit code is 1. `running`: the fuel has run out in the loop.
pub data Start (T : Type 0) : Type 0 where
  refused : Start T
  running : Start T
  started : Node T → Start T

abbrev pub nodes_count : ℕ → ℕ → ℕ
nodes_count min_port max_port = max_port - min_port + 1

-- The three tests. Where the second holds, `max_port - min_port` does not fall below 0.
abbrev pub ports_valid : ℕ → ℕ → ℕ → Bool
ports_valid port min_port max_port =
    not ((port == 0) || (max_port == 0) || (min_port == 0))
    && (leb min_port port && leb port max_port)
    && ((nodes_count min_port max_port == 1)
        || (nodes_count min_port max_port == 3)
        || (nodes_count min_port max_port == 5))

abbrev pub add_channel : ℕ → ℕ → List (ℕ × ℕ) → List (ℕ × ℕ)
add_channel port other_port channels =
    if port == other_port then channels else insert other_port (other_port + 10) channels

-- `++other_port` wraps at 2^16.
pub add_channels : ℕ → ℕ → ℕ → ℕ → List (ℕ × ℕ) → Option (List (ℕ × ℕ))
add_channels zero port other_port max_port channels = none
add_channels (suc fuel) port other_port max_port channels =
    let rest =
      add_channels fuel port (suc other_port % 2 ^ 16) max_port
        (add_channel port other_port channels) in
    if leb other_port max_port then rest else some channels

pub start : {T : Type 0} → ℕ → ℕ → ℕ → ℕ → T → Start T
start fuel port min_port max_port timer =
    if ports_valid port min_port max_port
    then elim (add_channels fuel port min_port max_port []) [
      | none ↦ running
      | some channels ↦ started (new_node port (map (λ c. c.0) channels) timer)
    ]
    else refused
