-- ===== src/Integral/Evaluation/Linear.antt =====
-- hw1/src/common/integral.cpp: the integral of a linear function, as in
-- hw1/src/common/ut/integral_test.cpp, over numbers where the divisions leave no rest.
use Prim.Native.Nat.{◌/◌}
use native.Mathlib.Nat.{add-mul-div_left, zero-div}
use to_ftds.Base.{
  ℕ, zero, suc, ◌+◌, ◌-◌, ◌*◌, ◌≤◌, ◌<◌, ◌≡◌, refl, ◌∙◌, arith, ltb, true, some, ok, lt→ltb,
}
use to_ftds.Integral.{Double}
use to_ftds.Integral.Evaluation.{scale, evaluate_integral, sum_from, place, Ends, add_values_lem}

instance abbrev pub whole : Double ℕ
whole = record {
  of_int = λ n. n;
  plus = λ m n. m + n;
  minus = λ m n. m - n;
  times = λ m n. m * n;
  over = λ m n. m / n;
  less = λ m n. ltb m n;
}

abbrev pub linear : ℕ → ℕ → ℕ → ℕ
linear k c x = k * x + c

sum_linear :
    (k c h x n result : ℕ)
    → sum_from (linear k c) (2 * h) x n result + k * h * n
      ≡ result + n * (k * x + c) + k * h * n * n
sum_linear k c h x zero result = omega arith
sum_linear k c h x (suc n) result =
    grind (arith, sum_linear k c h (x + 2 * h) n (result + (k * x + c)))

place_lem : (step x n : ℕ) → place step x n ≡ x + n * step
place_lem step x zero = omega arith
place_lem step x (suc n) = grind (arith, place_lem step (x + step) n)

pub even_step : (a points m : ℕ) → 1 ≤ points → (a + points * m - a) / points ≡ m
even_step a points m some_point =
    let e : a + points * m - a ≡ 0 + points * m = omega arith in
    rw e (add-mul-div_left 0 m {y = points} some_point ∙ rw (zero-div points) (omega arith))

width : (a h points : ℕ) → a + points * (2 * h) - a ≡ points * (2 * h)
width a h points = omega arith

half_step : (h : ℕ) → 2 * h / 2 ≡ h
half_step h = omega arith

-- The places of the loop lie in the middle of the steps.
linear-Ends : (a h points : ℕ) → 1 ≤ h → Ends (a + points * (2 * h)) (2 * h) (a + h) points
linear-Ends a h points low = (inside, rw (place_lem (2 * h) (a + h) points) (ground arith))
  where
    reach : (i : ℕ) → i < points → a + h + i * (2 * h) < a + points * (2 * h)
    reach i before = grind arith

    inside : (i : ℕ) → i < points → ltb (place (2 * h) (a + h) i) (a + points * (2 * h)) ≡ true
    inside i before = rw (place_lem (2 * h) (a + h) i) (lt→ltb _ _ (reach i before))

-- What the midpoints sum to is the integral.
twice_area :
    (k c h a n sum : ℕ)
    → sum + k * h * n ≡ 0 + n * (k * (a + h) + c) + k * h * n * n
    → 2 * (sum * (2 * h)) ≡ (k * a + c + (k * (a + n * (2 * h)) + c)) * (n * (2 * h))
twice_area k c h a n sum e =
    let total : sum ≡ n * (k * a + c) + k * h * n * n = grind arith in rw total (grind arith)

-- Over whole numbers, for a linear function and an interval that is twice the number of points
-- times a positive length, with a point and fuel for more rounds than points, EvaluateIntegral
-- returns the exact integral: twice the result is the sum of the values at both ends times the
-- width.
pub evaluate_integral-linear :
    (k c a h points fuel : ℕ)
    → 1 ≤ h
    → 1 ≤ points
    → points < fuel
    → let b = a + points * (2 * h) in
      (v : ℕ) × (evaluate_integral fuel a b points (linear k c) ≡ ok (some v))
      × (2 * v ≡ (linear k c a + linear k c b) * (b - a))
unfolding evaluate_integral scale
evaluate_integral-linear k c a h points fuel low some_point few = (
  sum_from (linear k c) (2 * h) (a + h) points 0 * (2 * h),
  rw
      (
        even_step a points (2 * h) some_point,
        half_step h,
        starts,
        add_values_lem fuel points (a + points * (2 * h)) (2 * h) (linear k c) (a + h) 0 few
            (linear-Ends a h points low),
      )
      refl,
  rw (width a h points) (
      twice_area k c h a points (sum_from (linear k c) (2 * h) (a + h) points 0)
        (sum_linear k c h (a + h) points 0)),
)
  where
    starts : ltb a (a + points * (2 * h)) ≡ true
    starts = lt→ltb _ _ (grind arith)
