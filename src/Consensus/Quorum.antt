-- ===== src/Consensus/Quorum.antt =====
-- hw2/src/consensus/node.cpp: sets of voters, and the test `votes.size() * 2 >= total_nodes_ + 1`.
use to_ftds.Base.{
  ℕ, suc, ◌+◌, ◌≤◌, ◌≡◌, ◌≢◌, refl, inl, inr, true, false, ◌||◌, List, [], ◌∷◌, ◌++◌, Option, none,
  some, arith, ◌==◌, if◌then◌else◌, length, length-append, contains, ◌*◌, leb→le, Option-cases,
  Increasing, not-contains,
}
use to_ftds.Consensus.Node.Responses.{is_quorum}

-- No node twice.
abbrev pub Distinct : List ℕ → Type 0
Distinct [] = Unit
Distinct (x ∷ xs) = (contains x xs ≡ false) × Distinct xs

-- Every node of the first list is in the second.
abbrev pub Among : List ℕ → List ℕ → Type 0
Among xs ys = (k : ℕ) → contains k xs ≡ true → contains k ys ≡ true

remove : ℕ → List ℕ → List ℕ
remove k [] = []
remove k (x ∷ xs) = if x == k then xs else x ∷ remove k xs

length-remove :
    (k : ℕ) (xs : List ℕ) → contains k xs ≡ true → suc (length (remove k xs)) ≡ length xs
unfolding remove
length-remove k [] h = ground arith
length-remove k (x ∷ xs) h = ground (arith, length-remove k xs)

contains-remove :
    (k j : ℕ) (xs : List ℕ) → k ≢ j → contains j xs ≡ true → contains j (remove k xs) ≡ true
unfolding remove
contains-remove k j [] ne h = ground arith
contains-remove k j (x ∷ xs) ne h = ground (arith, contains-remove k j xs)

length-Among : (xs ys : List ℕ) → Distinct xs → Among xs ys → length xs ≤ length ys
length-Among [] ys d h = omega arith
length-Among (x ∷ xs) ys d h =
    omega (arith, length-remove x ys (h x (ground arith)), length-Among xs (remove x ys) d.1 rest)
  where
    apart : (k : ℕ) → contains k xs ≡ true → x ≢ k
    apart k m e = cc (rw e at d.0)

    rest : Among xs (remove x ys)
    rest k m = contains-remove x k ys (apart k m) (h k (ground arith))

contains-append :
    (k : ℕ) (xs ys : List ℕ) → contains k (xs ++ ys) ≡ (contains k xs || contains k ys)
contains-append k [] ys = refl
contains-append k (x ∷ xs) ys = ground (arith, contains-append k xs ys)

-- The first node of `xs` that is in `ys`.
common : List ℕ → List ℕ → Option ℕ
common [] ys = none
common (x ∷ xs) ys = if contains x ys then some x else common xs ys

common_sound :
    (xs ys : List ℕ) (k : ℕ)
    → common xs ys ≡ some k
    → (contains k xs ≡ true) × (contains k ys ≡ true)
unfolding common
common_sound [] ys k h = cc
common_sound (x ∷ xs) ys k h = ground (arith, common_sound xs ys k)

Distinct-append :
    (xs ys : List ℕ) → Distinct xs → Distinct ys → common xs ys ≡ none → Distinct (xs ++ ys)
unfolding common
Distinct-append [] ys dx dy h = dy
Distinct-append (x ∷ xs) ys dx dy h =
    (ground (arith, contains-append x xs ys), Distinct-append xs ys dx.1 dy (ground arith))

-- Two sets of voters without repetition among the nodes, each with a quorum of the number of
-- nodes by the test of HandleRequestVoteResponse, have a node in common.
pub quorums_meet :
    (nodes xs ys : List ℕ)
    → Distinct xs
    → Distinct ys
    → Among xs nodes
    → Among ys nodes
    → is_quorum (length nodes) (length xs) ≡ true
    → is_quorum (length nodes) (length ys) ≡ true
    → (k : ℕ) × (contains k xs ≡ true) × (contains k ys ≡ true)
quorums_meet nodes xs ys dx dy ax ay qx qy = elim (Option-cases (common xs ys)) [
  | inl apart ↦ absurd (
      omega (
        arith,
        length-Among (xs ++ ys) nodes (Distinct-append xs ys dx dy apart) both,
        length-append xs ys,
        leb→le (length nodes + 1) (length xs * 2) qx,
        leb→le (length nodes + 1) (length ys * 2) qy,
      ))
  | inr (k, e) ↦ let (hx, hy) = common_sound xs ys k e in (k, hx, hy)
]
  where
    both : Among (xs ++ ys) nodes
    both k h = ground (arith, contains-append k xs ys, ax k, ay k)

-- The set of votes stays without repetition.
pub Increasing-Distinct : (xs : List ℕ) → Increasing xs → Distinct xs
Increasing-Distinct [] h = tt
Increasing-Distinct (x ∷ xs) h = (not-contains x xs h.0, Increasing-Distinct xs h.1)
