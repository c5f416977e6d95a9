-- ===== src/Integral/Evaluation/Slices.antt =====
-- hw1/src/common/integral.cpp and hw1/src/leader/leader.cpp: the integrals of the slices of a query.
use to_ftds.Base.{
  ℕ, zero, suc, ◌+◌, ◌-◌, ◌*◌, ◌≤◌, ◌<◌, ◌≡◌, refl, ap, ◌∙◌, arith, List, [], ◌∷◌, ◌++◌,
  append_assoc, append-nil, set_insert, sym, map, Option, some, Outcome, ok,
}
use to_ftds.Integral.{Task, QueryInfo, slice, add_slices, new_query}
use to_ftds.Integral.Evaluation.{evaluate_integral}
use to_ftds.Integral.Evaluation.Linear.{whole, linear, even_step, evaluate_integral-linear}

abbrev pub total : List ℕ → ℕ
total [] = 0
total (v ∷ vs) = v + total vs

-- The slices from the `i`-th on, `n` of them, each `len` long.
abbrev slices : ℕ → ℕ → ℕ → ℕ → List (Task ℕ)
slices a len i zero = []
slices a len i (suc n) = record { a = a + len * i; b = a + len * suc i } ∷ slices a len (suc i) n

slice_lem :
    (a len i : ℕ) → slice a (a + 10 * len) i ≡ record { a = a + len * i; b = a + len * suc i }
slice_lem a len i = rw (even_step a 10 len (omega arith)) refl

add_slices-slices :
    (a len i n : ℕ) (info : QueryInfo ℕ)
    → (add_slices a (a + 10 * len) i n info).all_tasks ≡ info.all_tasks ++ slices a len i n
unfolding add_slices
add_slices-slices a len i zero info = sym (append-nil info.all_tasks)
add_slices-slices a len i (suc n) info =
    add_slices-slices a len (suc i) n (record info {
      all_tasks = info.all_tasks ++ slice a (a + 10 * len) i ∷ [];
      tasks_to_do = set_insert i info.tasks_to_do;
    })
    ∙ rw (slice_lem a len i) (
        append_assoc info.all_tasks (record { a = a + len * i; b = a + len * suc i } ∷ [])
          (slices a len (suc i) n))

abbrev pub evaluate_all : ℕ → ℕ → ℕ → ℕ → List (Task ℕ) → List (Outcome (Option ℕ))
evaluate_all k c points fuel =
    map (λ task. evaluate_integral fuel task.a task.b points (linear k c))

-- The areas under a line side by side are one area.
side_by_side :
    (k c x y len v rest : ℕ)
    → 2 * v ≡ (k * x + c + (k * (x + len) + c)) * len
    → 2 * rest ≡ (k * (x + len) + c + (k * (x + len + y) + c)) * y
    → 2 * (v + rest) ≡ (k * x + c + (k * (x + len + y) + c)) * (len + y)
side_by_side k c x y len v rest e f = grind arith

evaluate_slice :
    (k c a h points fuel i : ℕ)
    → 1 ≤ h
    → 1 ≤ points
    → points < fuel
    → let len = points * (2 * h) in
      (v : ℕ) × (evaluate_integral fuel (a + len * i) (a + len * suc i) points (linear k c)
        ≡ ok (some v))
      × (2 * v ≡ (k * (a + len * i) + c + (k * (a + len * i + len) + c)) * len)
evaluate_slice k c a h points fuel i low some_point few =
    let len = points * (2 * h) in
    let (v, e, twice) =
      evaluate_integral-linear k c (a + len * i) h points fuel low some_point few in
    let to : a + len * i + len ≡ a + len * suc i = grind arith in
    let wide : a + len * i + len - (a + len * i) ≡ len = omega arith in
    (v, rw to at e, rw wide at twice)

evaluate_slices :
    (k c a h points fuel i n : ℕ)
    → 1 ≤ h
    → 1 ≤ points
    → points < fuel
    → let len = points * (2 * h) in
      (vs : List ℕ) × (evaluate_all k c points fuel (slices a len i n) ≡ map (λ v. ok (some v)) vs)
      × (2 * total vs ≡ (k * (a + len * i) + c + (k * (a + len * i + len * n) + c)) * (len * n))
evaluate_slices k c a h points fuel i zero low some_point few = ([], refl, grind arith)
evaluate_slices k c a h points fuel i (suc n) low some_point few =
    let len = points * (2 * h) in
    let (v, e, twice) = evaluate_slice k c a h points fuel i low some_point few in
    let (vs, es, rest) = evaluate_slices k c a h points fuel (suc i) n low some_point few in
    let start : a + len * suc i ≡ a + len * i + len = grind arith in
    let both = side_by_side k c (a + len * i) (len * n) len v (total vs) twice (rw start at rest) in
    let wide : len + len * n ≡ len * suc n = grind arith in
    let end : a + len * i + len + len * n ≡ a + len * i + len * suc n = grind arith in
    (v ∷ vs, rw (e, es) refl, rw end at (rw wide at both))

-- Over whole numbers, where the ten slices of a query have such a length, evaluating each of its
-- tasks for a linear function, with a point and fuel for more rounds than points, returns a
-- result, and the results add up to the exact integral over the whole interval of the query.
pub new_query-integral :
    (id k c a h points fuel : ℕ)
    → 1 ≤ h
    → 1 ≤ points
    → points < fuel
    → let b = a + 10 * (points * (2 * h)) in
      (vs : List ℕ) × (evaluate_all k c points fuel (new_query id a b).all_tasks
        ≡ map (λ v. ok (some v)) vs)
      × (2 * total vs ≡ (linear k c a + linear k c b) * (b - a))
unfolding new_query
new_query-integral id k c a h points fuel low some_point few =
    let len = points * (2 * h) in
    let (vs, es, twice) = evaluate_slices k c a h points fuel 0 10 low some_point few in
    let first : a + len * 0 ≡ a = omega arith in
    let end : a + len * 10 ≡ a + 10 * len = omega arith in
    let wide : len * 10 ≡ a + 10 * len - a = omega arith in
    let info : QueryInfo ℕ = record {
      id = id;
      result = 0;
      all_tasks = [];
      tasks_in_progress = [];
      tasks_to_do = [];
    } in
    (
      vs,
      ap (evaluate_all k c points fuel) (add_slices-slices a len 0 10 info) ∙ es,
      rw wide at (rw end at (rw first at twice)),
    )
