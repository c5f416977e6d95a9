-- ===== src/Integral/Evaluation.antt =====
-- hw1/src/common/integral.cpp: `EvaluateIntegral`. Its loop ends where the sum `x` passes `b`, so it runs
-- on fuel.
pub mod Linear
pub mod Slices
use to_ftds.Base.{
  ℕ, zero, suc, ◌+◌, ◌≤◌, ◌<◌, ◌≡◌, refl, ap, ◌∙◌, arith, if◌then◌else◌, Bool, true, false, Option,
  none, some, Outcome, ok, fault, runtime_error, List, [], ◌∷◌,
}
use to_ftds.Integral.{Double}

module _ {D : Type 0} ⦃double : Double D⦄ where
  -- `none`: the fuel has run out.
  unfoldable pub add_values : ℕ → D → D → (D → D) → D → D → Option D
  add_values zero b step function x result = none
  add_values (suc fuel) b step function x result =
      let rest =
        add_values fuel b step function (double.plus x step) (double.plus result (function x)) in
      if double.less x b then rest else some result

  unfoldable pub scale : D → Option D → Option D
  scale step none = none
  scale step (some result) = some (double.times result step)

  unfoldable pub evaluate_integral : ℕ → D → D → ℕ → (D → D) → Outcome (Option D)
  unfolding add_values scale
  evaluate_integral fuel a b points function =
      let step = double.over (double.minus b a) (double.of_int points) in
      if double.less a b
      then ok (
          scale step (
            add_values fuel b step function (double.plus a (double.over step (double.of_int 2)))
              (double.of_int 0)))
      else fault runtime_error

  -- The values of the function at `n` places, a step apart, added to `result`.
  abbrev pub sum_from : (D → D) → D → D → ℕ → D → D
  sum_from function step x zero result = result
  sum_from function step x (suc n) result =
      sum_from function step (double.plus x step) n (double.plus result (function x))

  -- The place after `n` steps.
  abbrev pub place : D → D → ℕ → D
  place step x zero = x
  place step x (suc n) = place step (double.plus x step) n

  -- Before the `n`-th place the loop goes on, and there it ends.
  abbrev pub Ends : D → D → D → ℕ → Type 0
  Ends b step x n =
      ((i : ℕ) → i < n → double.less (place step x i) b ≡ true)
      × (double.less (place step x n) b ≡ false)

  pub add_values_lem :
      (fuel n : ℕ) (b step : D) (function : D → D) (x result : D)
      → n < fuel
      → Ends b step x n
      → add_values fuel b step function x result ≡ some (sum_from function step x n result)
  unfolding add_values
  add_values_lem zero n b step function x result few ends = absurd (omega arith)
  add_values_lem (suc fuel) zero b step function x result few ends = rw ends.1 refl
  add_values_lem (suc fuel) (suc n) b step function x result few ends =
      rw (ends.0 zero (omega arith)) (
        add_values_lem fuel n b step function (double.plus x step) (double.plus result (function x))
          (omega arith) (λ i low. ends.0 (suc i) (omega arith), ends.1))
