-- ===== src/Consensus/CommitRule.antt =====
-- `CommitIfPossible`: which items a leader commits, and which clients it answers.
use to_ftds.Base.{
  ℕ, zero, suc, ◌+◌, ◌-◌, ◌≤◌, ◌<◌, ◌≡◌, refl, ◌∙◌, ◌⊎◌, inl, inr, Bool, true, false, ◌&&◌, List,
  [], ◌∷◌, ◌++◌, append_assoc, append-nil, Option, none, some, arith, ltb, leb, if◌then◌else◌,
  Bool-cases, Option-cases, ok, lookup, erase, lookup-erase, nat_key, subst, Returns, ◌*◌, length,
}
use mathlib.Core.List.{filter}
use native.Mathlib.Decide.{dec_lt, dec_le}
use to_ftds.Consensus.State.{LeaderState}
use to_ftds.Consensus.Node.{
  Node, AddCommandResult, get_log, get_commit_index, get_last_log_index, set_command_result,
}
use to_ftds.Consensus.Node.Responses.{is_quorum}
use to_ftds.Consensus.Node.Commit.{
  replicas, find_commit, scan_matches, respond, respond_from, commit_until, commit_if_possible,
}

-- More than half of the nodes are known to hold item `i`: their entries are not below it.
abbrev pub is_replicated : List (ℕ × ℕ) → ℕ → ℕ → Bool
is_replicated matches total i =
    ltb total (2 * length (filter (λ (e : ℕ × ℕ). dec_le i (e.1)) matches))

replicas_lem :
    (matches : List (ℕ × ℕ)) (i : ℕ)
    → replicas matches i ≡ length (filter (λ (e : ℕ × ℕ). dec_le i (e.1)) matches)
unfolding replicas
replicas_lem [] i = refl
replicas_lem ((k, v) ∷ matches) i = elim (dec_le i v) [
  | yes holds ↦ ground (arith, replicas_lem matches i)
  | no lacks ↦ ground (arith, replicas_lem matches i)
]

is_replicated_lem :
    (matches : List (ℕ × ℕ)) (total i : ℕ)
    → is_quorum total (replicas matches i) ≡ is_replicated matches total i
is_replicated_lem matches total i = ground (arith, replicas_lem matches i)

abbrev None : List (ℕ × ℕ) → ℕ → ℕ → ℕ → Type 0
None matches total i rounds =
    (j : ℕ) → i ≤ j → j < i + rounds → is_replicated matches total j ≡ false

-- `id` is the last of the items scanned that a quorum holds.
abbrev Last : List (ℕ × ℕ) → ℕ → ℕ → ℕ → ℕ → Type 0
Last matches total i rounds id =
    (i ≤ id)
    × (id < i + rounds)
    × (is_replicated matches total id ≡ true)
    × ((j : ℕ) → id < j → j < i + rounds → is_replicated matches total j ≡ false)

find_commit_cases :
    (matches : List (ℕ × ℕ)) (total i rounds : ℕ) (found : Option ℕ)
    → ((find_commit matches total i rounds found ≡ found) × None matches total i rounds)
      ⊎ ((id : ℕ) × (find_commit matches total i rounds found ≡ some id)
          × Last matches total i rounds id)
unfolding find_commit
find_commit_cases matches total i zero found = inl (refl, λ j low high. absurd (omega arith))
find_commit_cases matches total i (suc rounds) found =
    elim (Bool-cases (is_replicated matches total i)) [
      | inl held ↦
          rw (is_replicated_lem matches total i, held)
            (elim (find_commit_cases matches total (suc i) rounds (some i)) [
              | inl (e, later) ↦
                  inr (
                    i,
                    e,
                    (omega arith, omega arith, held, λ j low high. later j low (omega arith)),
                  )
              | inr (id, e, l) ↦
                  inr
                    (id, e, (omega arith, omega arith, l.2, λ j low high. l.3 j low (omega arith)))
            ])
      | inr missing ↦
          rw (is_replicated_lem matches total i, missing)
            (elim (find_commit_cases matches total (suc i) rounds found) [
              | inl (e, later) ↦ inl (
                e,
                λ j low high. elim (dec_lt i j) [
                  | yes above ↦ later j above (omega arith)
                  | no here ↦
                      subst (λ k. is_replicated matches total k ≡ false) (omega arith) missing
                ],
              )
              | inr (id, e, l) ↦
                  inr
                    (id, e, (omega arith, omega arith, l.2, λ j low high. l.3 j low (omega arith)))
            ])
    ]

-- The answers to the clients whose commands are committed, from item `i` on.
abbrev pub acknowledged : List (ℕ × ℕ) → ℕ → ℕ → List (ℕ × AddCommandResult)
acknowledged items i zero = []
acknowledged items i (suc rounds) = elim (lookup i items) [
  | none ↦ acknowledged items (suc i) rounds
  | some p ↦ (p, record { leader_id = none }) ∷ acknowledged items (suc i) rounds
]

acknowledged-none :
    (items : List (ℕ × ℕ)) (i rounds : ℕ)
    → lookup i items ≡ none
    → acknowledged items i (suc rounds) ≡ acknowledged items (suc i) rounds
acknowledged-none items i rounds e = ground arith

acknowledged-some :
    (items : List (ℕ × ℕ)) (i rounds p : ℕ)
    → lookup i items ≡ some p
    → acknowledged items i (suc rounds)
      ≡ (p, record { leader_id = none }) ∷ acknowledged items (suc i) rounds
acknowledged-some items i rounds p e = ground arith

acknowledged-erase :
    (items : List (ℕ × ℕ)) (k i rounds : ℕ)
    → k < i
    → acknowledged (erase k items) i rounds ≡ acknowledged items i rounds
acknowledged-erase items k i zero h = refl
acknowledged-erase items k i (suc rounds) h =
    ground (arith, lookup-erase k i items, acknowledged-erase items k (suc i) rounds)

module _ {T : Type 0} where
  respond-none : (n : Node T) (i : ℕ) → lookup i n.items_to_response ≡ none → respond n i ≡ n
  unfolding respond
  respond-none n i e = ground arith

  respond-some :
      (n : Node T) (i p : ℕ)
      → lookup i n.items_to_response ≡ some p
      → respond n i
        ≡ set_command_result
            (record n { items_to_response = erase i n.items_to_response })
            p
            (record { leader_id = none })
  unfolding respond
  respond-some n i p e = ground arith

  respond_step :
      (n : Node T) (i rounds : ℕ)
      → (respond n i).command_results ++ acknowledged (respond n i).items_to_response (suc i) rounds
        ≡ n.command_results ++ acknowledged n.items_to_response i (suc rounds)
  respond_step n i rounds = elim (Option-cases (lookup i n.items_to_response)) [
    | inl nobody ↦
        rw (respond-none n i nobody, acknowledged-none n.items_to_response i rounds nobody)
    | inr (p, e) ↦ rw (
      respond-some n i p e,
      acknowledged-some n.items_to_response i rounds p e,
      append_assoc n.command_results ((p, record { leader_id = none }) ∷ [])
          (acknowledged (erase i n.items_to_response) (suc i) rounds),
      acknowledged-erase n.items_to_response i (suc i) rounds (omega arith),
    )
  ]

  respond-results :
      (n : Node T) (i rounds : ℕ)
      → (respond_from n i rounds).command_results
        ≡ n.command_results ++ acknowledged n.items_to_response i rounds
  unfolding respond_from
  respond-results n i zero = rw (append-nil n.command_results)
  respond-results n i (suc rounds) =
      respond-results (respond n i) (suc i) rounds ∙ respond_step n i rounds

  respond-items :
      (n : Node T) (i rounds j : ℕ)
      → lookup j (respond_from n i rounds).items_to_response
        ≡ (if leb i j && ltb j (i + rounds) then none else lookup j n.items_to_response)
  unfolding respond_from respond
  respond-items n i zero j = ground arith
  respond-items n i (suc rounds) j =
      ground
        (arith, respond-items (respond n i) (suc i) rounds j, lookup-erase i j n.items_to_response)

  respond-log : (n : Node T) (i rounds : ℕ) → get_log (respond_from n i rounds) ≡ get_log n
  unfolding respond_from respond
  respond-log n i zero = refl
  respond-log n i (suc rounds) = ground (arith, respond-log (respond n i) (suc i) rounds)

-- What the call does to a leader with the state `ls`.
pub record CommitEffect {T : Type 0} (n : Node T) (ls : LeaderState) (m : Node T) : Type 0 where
  pub log : get_log m ≡ get_log n
  pub grows : get_commit_index n ≤ get_commit_index m
  pub inside : get_commit_index n ≤ get_last_log_index n → get_commit_index m ≤ get_last_log_index n
  pub held :
      get_commit_index n < get_commit_index m
      → is_replicated ls.match_index n.total_nodes (get_commit_index m) ≡ true
  pub last :
      (j : ℕ)
      → get_commit_index m < j
      → j ≤ get_last_log_index n
      → is_replicated ls.match_index n.total_nodes j ≡ false
  pub told :
      m.command_results
      ≡ n.command_results
        ++ acknowledged n.items_to_response
            (suc (get_commit_index n))
            (get_commit_index m - get_commit_index n)
  pub waiting :
      (j : ℕ)
      → lookup j m.items_to_response ≡ (
          if ltb (get_commit_index n) j && leb j (get_commit_index m)
          then none
          else lookup j n.items_to_response)

module _ {T : Type 0} where
  unchanged-CommitEffect :
      (n : Node T) (ls : LeaderState)
      → ((j : ℕ)
          → get_commit_index n < j
          → j ≤ get_last_log_index n
          → is_replicated ls.match_index n.total_nodes j ≡ false)
      → CommitEffect n ls n
  unchanged-CommitEffect n ls h = record {
    log = refl;
    grows = omega arith;
    inside = λ b. b;
    held = λ b. absurd (omega arith);
    last = h;
    told = nothing_told;
    waiting = λ j. ground arith;
  }
    where
      nothing_told :
          n.command_results
          ≡ n.command_results
            ++ acknowledged n.items_to_response
                (suc (get_commit_index n))
                (get_commit_index n - get_commit_index n)
      nothing_told =
          let no_rounds : get_commit_index n - get_commit_index n ≡ 0 = omega arith in
          rw (no_rounds, append-nil n.command_results)

  commit_until-CommitEffect :
      (n : Node T) (ls : LeaderState) (id : ℕ)
      → get_commit_index n < id
      → id ≤ get_last_log_index n
      → is_replicated ls.match_index n.total_nodes id ≡ true
      → ((j : ℕ)
          → id < j
          → j ≤ get_last_log_index n
          → is_replicated ls.match_index n.total_nodes j ≡ false)
      → CommitEffect n ls (commit_until n id)
  unfolding commit_until
  commit_until-CommitEffect n ls id above below q h = record {
    log = respond-log n (suc (get_commit_index n)) (id - get_commit_index n);
    grows = omega arith;
    inside = λ b. below;
    held = λ b. q;
    last = h;
    told = respond-results n (suc (get_commit_index n)) (id - get_commit_index n);
    waiting =
        λ j. ground (arith, respond-items n (suc (get_commit_index n)) (id - get_commit_index n) j);
  }

  scan_matches_cases :
      (n : Node T) (ls : LeaderState) (rounds : ℕ)
      → n.leader_state ≡ some ls
      → scan_matches n rounds
        ≡ ok (find_commit ls.match_index n.total_nodes (suc (get_commit_index n)) rounds none)
  unfolding scan_matches find_commit
  scan_matches_cases n ls zero e = refl
  scan_matches_cases n ls (suc rounds) e = ground arith

  -- CommitIfPossible of a node with a leader's state returns: the log stays, the commit index
  -- does not fall and stays in a log that it was in, a new commit index is held by a quorum, no
  -- item behind it in the log is, and exactly the clients that wait for the items passed are
  -- answered, in order, and no longer wait.
  pub commit_if_possible-CommitEffect :
      (n : Node T) (ls : LeaderState)
      → n.leader_state ≡ some ls
      → Returns (CommitEffect n ls) (commit_if_possible n)
  unfolding commit_if_possible
  commit_if_possible-CommitEffect n ls e =
      let rounds = get_last_log_index n - get_commit_index n in
      rw (scan_matches_cases n ls rounds e)
        (elim (find_commit_cases ls.match_index n.total_nodes (suc (get_commit_index n)) rounds
          none) [
            | inl (nothing, missing) ↦
                rw nothing
                  (n, refl, unchanged-CommitEffect n ls (λ j low high. missing j low (omega arith)))
            | inr (id, found, l) ↦ rw found (
              commit_until n id,
              refl,
              commit_until-CommitEffect n ls id (omega arith) (omega arith) l.2
                  (λ j low high. l.3 j low (omega arith)),
            )
          ])
