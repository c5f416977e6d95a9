-- ===== src/Startup/Nodes.antt =====
-- `main` of hw2/src/worker/worker.cpp: the nodes that a node knows after the start.
use to_ftds.Base.{
  ℕ, zero, suc, ◌+◌, ◌-◌, ◌%◌, ◌^◌, ◌≤◌, ◌<◌, ◌≡◌, refl, ap, ◌∙◌, inl, inr, true, leb, ◌==◌,
  if◌then◌else◌, Bool-cases, List, [], ◌∷◌, ◌++◌, append_assoc, append-nil, none, some, map, arith,
  All, length, insert, set_insert, nat_key, range,
}
use to_ftds.Consensus.Node.{Node, new_node}
use to_ftds.Startup.{running, started, nodes_count, ports_valid, add_channel, add_channels, start}

-- The channels of the ports from `i` on that are not the node's own.
abbrev pub targets : ℕ → ℕ → ℕ → List (ℕ × ℕ)
targets port i zero = []
targets port i (suc n) =
    if port == i then targets port (suc i) n else (i, i + 10) ∷ targets port (suc i) n

abbrev AllBelow : ℕ → List (ℕ × ℕ) → Type 0
AllBelow i = All (λ (c : ℕ × ℕ). c.0 < i)

insert_last : (k v : ℕ) (m : List (ℕ × ℕ)) → AllBelow k m → insert k v m ≡ m ++ (k, v) ∷ []
insert_last k v [] h = refl
insert_last k v ((j, w) ∷ m) h = ground (arith, insert_last k v m h.1)

AllBelow-suc : (i : ℕ) (m : List (ℕ × ℕ)) → AllBelow i m → AllBelow (suc i) m
AllBelow-suc i [] h = tt
AllBelow-suc i (c ∷ m) h = (omega (arith, h.0), AllBelow-suc i m h.1)

AllBelow-snoc : (i v : ℕ) (m : List (ℕ × ℕ)) → AllBelow i m → AllBelow (suc i) (m ++ (i, v) ∷ [])
AllBelow-snoc i v [] h = (omega arith, tt)
AllBelow-snoc i v (c ∷ m) h = (omega (arith, h.0), AllBelow-snoc i v m h.1)

-- The loop ends where the last port is not the largest `uint16_t`.
pub add_channels_lem :
    (fuel port i n max_port : ℕ) (channels : List (ℕ × ℕ))
    → suc max_port ≡ i + n
    → suc max_port < 2 ^ 16
    → n < fuel
    → AllBelow i channels
    → add_channels fuel port i max_port channels ≡ some (channels ++ targets port i n)
unfolding add_channels
add_channels_lem zero port i n max_port channels e fits few below = absurd (omega arith)
add_channels_lem (suc fuel) port i zero max_port channels e fits few below =
    ground (arith, append-nil channels)
add_channels_lem (suc fuel) port i (suc n) max_port channels e fits few below =
    elim (Bool-cases (port == i)) [
      | inl own ↦
          rw (within, wrap, own)
            (add_channels_lem fuel port (suc i) n max_port channels (omega arith) fits (omega arith)
              (AllBelow-suc i channels below))
      | inr other ↦
          rw (within, wrap, other, insert_last i (i + 10) channels below)
            (add_channels_lem fuel port (suc i) n max_port (channels ++ (i, i + 10) ∷ [])
                (omega arith) fits (omega arith) (AllBelow-snoc i (i + 10) channels below)
              ∙ ap some (append_assoc channels ((i, i + 10) ∷ []) (targets port (suc i) n)))
    ]
  where
    within : leb i max_port ≡ true
    within = ground arith

    wrap : suc i % 2 ^ 16 ≡ suc i
    wrap = omega arith

-- `other_port` never passes the largest `uint16_t`.
add_channels_runs :
    (fuel port i : ℕ) (channels : List (ℕ × ℕ))
    → i < 2 ^ 16
    → add_channels fuel port i (2 ^ 16 - 1) channels ≡ none
unfolding add_channels
add_channels_runs zero port i channels h = refl
add_channels_runs (suc fuel) port i channels h = ground (
  arith,
  add_channels_runs fuel port (suc i % 2 ^ 16) (add_channel port i channels) (omega arith),
)

abbrev ids : List (ℕ × ℕ) → List ℕ
ids = map (λ c. c.0)

targets_above : (port i n : ℕ) → port < i → ids (targets port i n) ≡ range i n
targets_above port i zero h = refl
targets_above port i (suc n) h = ground (arith, targets_above port (suc i) n)

set_insert_below : (k i n : ℕ) → k < i → set_insert k (range i n) ≡ k ∷ range i n
set_insert_below k i zero h = refl
set_insert_below k i (suc n) h = ground arith

set_insert-targets :
    (port i n : ℕ) → i ≤ port → port < i + n → set_insert port (ids (targets port i n)) ≡ range i n
set_insert-targets port i zero low high = absurd (omega arith)
set_insert-targets port i (suc n) low high = elim (Bool-cases (port == i)) [
  | inl own ↦ ground (arith, targets_above port (suc i) n, set_insert_below port (suc i) n)
  | inr other ↦ ground (arith, set_insert-targets port (suc i) n)
]

length-range : (i n : ℕ) → length (range i n) ≡ n
length-range i zero = refl
length-range i (suc n) = ap suc (length-range (suc i) n)

ports_valid-within :
    (port min_port max_port : ℕ)
    → ports_valid port min_port max_port ≡ true
    → (min_port ≤ port) × (port ≤ max_port)
ports_valid-within port min_port max_port valid = ground arith

module _ {T : Type 0} where
  -- With valid ports below the largest uint16_t, and fuel for more rounds than there are nodes,
  -- main comes to a node of the id port whose channels are, in order, all ports from min_port to
  -- max_port, its own one included, and which counts as many nodes.
  pub start-knows_all :
      (fuel port min_port max_port : ℕ) (timer : T)
      → suc max_port < 2 ^ 16
      → nodes_count min_port max_port < fuel
      → ports_valid port min_port max_port ≡ true
      → (n : Node T) × (start fuel port min_port max_port timer ≡ started n)
        × (n.my_id ≡ port)
        × (n.channels ≡ range min_port (nodes_count min_port max_port))
        × (n.total_nodes ≡ nodes_count min_port max_port)
  unfolding start new_node
  start-knows_all fuel port min_port max_port timer fits few valid =
      let (low, high) = ports_valid-within port min_port max_port valid in
      let ran =
        add_channels_lem fuel port min_port (nodes_count min_port max_port) max_port []
          (omega arith) fits few tt in
      let same =
        set_insert-targets port min_port (nodes_count min_port max_port) low (omega arith) in
      rw (valid, ran) (_, refl, refl, same, ap length same ∙ length-range min_port _)

  -- With valid ports and the largest uint16_t for max_port, main stays in the loop over the
  -- ports, whatever the fuel.
  pub start-runs :
      (fuel port min_port : ℕ) (timer : T)
      → ports_valid port min_port (2 ^ 16 - 1) ≡ true
      → start fuel port min_port (2 ^ 16 - 1) timer ≡ running
  unfolding start
  start-runs fuel port min_port timer valid =
      let (low, high) = ports_valid-within port min_port (2 ^ 16 - 1) valid in
      rw (valid, add_channels_runs fuel port min_port [] (omega arith)) refl
