-- ===== src/Integral/Invariant.antt =====
-- hw1/src/leader/leader.cpp: between two steps every task in progress is assigned to one worker, once.
use to_ftds.Base.{
  ℕ, suc, ◌≡◌, refl, ◌⊎◌, Bool, false, ◌==◌, if◌then◌else◌, List, [], ◌∷◌, ◌++◌, none, some, arith,
  get_elem?, set, get_elem?-set, get_elem?-some_lt, zero, contains, Increasing, nat_key,
}
use to_ftds.Integral.{WorkerInfo, QueryInfo}
use to_ftds.Integral.Assignment.{assigned, Ordered}
use to_ftds.Integral.Queries.{InRange}
use to_ftds.Integral.Places.{From}

-- As a number of times.
abbrev pub once : Bool → ℕ
once b = if b then 1 else 0

module _ {D : Type 0} where
  abbrev pub progress : List (QueryInfo D) → ℕ × ℕ → Bool
  progress qs (q, t) = elim (get_elem? qs q) [
    | none ↦ false
    | some info ↦ contains t info.tasks_in_progress
  ]

  -- The ids and tasks are in range, and the two sets are sets.
  abbrev pub RangedQuery : ℕ → QueryInfo D → Type 0
  RangedQuery i q = InRange i q × Increasing q.tasks_to_do × Increasing q.tasks_in_progress

  -- Tasks are not partly to do and partly in progress.
  abbrev pub SoundQuery : ℕ → QueryInfo D → Type 0
  SoundQuery i q = RangedQuery i q × ((q.tasks_to_do ≡ []) ⊎ (q.tasks_in_progress ≡ []))

  pub record Sound (queries : List (QueryInfo D)) (known : List (ℕ × WorkerInfo)) : Type 0 where
    pub in_order : From SoundQuery 0 queries
    pub ordered : Ordered known
    pub assigned_once : (task : ℕ × ℕ) → assigned task known ≡ once (progress queries task)

  pub progress-set :
      (qs : List (QueryInfo D)) (q t j : ℕ) (old new : QueryInfo D)
      → get_elem? qs q ≡ some old
      → progress (set qs q new) (j, t)
        ≡ (if j == q then contains t new.tasks_in_progress else progress qs (j, t))
  progress-set qs q t j old new e =
      ground (arith, get_elem?-set qs q j new, get_elem?-some_lt qs q old e)

  pub progress-snoc :
      (qs : List (QueryInfo D)) (q : QueryInfo D) (task : ℕ × ℕ)
      → q.tasks_in_progress ≡ []
      → progress (qs ++ q ∷ []) task ≡ progress qs task
  progress-snoc [] q (zero, t) e = rw e refl
  progress-snoc [] q (suc k, t) e = refl
  progress-snoc (p ∷ qs) q (zero, t) e = refl
  progress-snoc (p ∷ qs) q (suc k, t) e = progress-snoc qs q (k, t) e
