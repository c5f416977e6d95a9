-- ===== src/Base/Sets.antt =====
-- A `std::set` of numbers as an increasing list.
use mathlib.Core.Path.{◌≡◌, refl}
use mathlib.Core.Logic.{inl, inr}
use mathlib.Core.Bool.{false, not, true, ◌&&◌}
use mathlib.Core.List.{List, [], ◌∷◌}
use Prim.Native.Nat.{ℕ, ◌<◌}
use native.Mathlib.Omega.{arith}
use to_ftds.Base.Tests.{ltb, ltb→lt, ◌==◌, if◌then◌else◌, Bool-cases}
use to_ftds.Base.Faults.{All}
use to_ftds.Base.Maps.{set_insert, contains}
use to_ftds.mathlib.Core.Bool.{}

abbrev pub Increasing : List ℕ → Type 0
Increasing [] = Unit
Increasing (x ∷ xs) = All (λ y. x < y) xs × Increasing xs

All-below : (k x : ℕ) (xs : List ℕ) → k < x → All (λ y. x < y) xs → All (λ y. k < y) xs
All-below k x [] h a = tt
All-below k x (y ∷ ys) h a = (omega arith, All-below k x ys h a.1)

All-set_insert :
    (k x : ℕ) (xs : List ℕ) → x < k → All (λ y. x < y) xs → All (λ y. x < y) (set_insert k xs)
All-set_insert k x [] h a = (h, tt)
All-set_insert k x (y ∷ ys) h a = elim (Bool-cases (ltb k y)) [
  | inl before ↦ rw before (h, a)
  | inr after ↦ rw after (elim (Bool-cases (y == k)) [
    | inl there ↦ rw there a
    | inr apart ↦ rw apart (a.0, All-set_insert k x ys h a.1)
  ])
]

pub set_insert-Increasing : (k : ℕ) (xs : List ℕ) → Increasing xs → Increasing (set_insert k xs)
set_insert-Increasing k [] h = (tt, tt)
set_insert-Increasing k (x ∷ xs) h = elim (Bool-cases (ltb k x)) [
  | inl before ↦ let low = ltb→lt k x before in rw before ((low, All-below k x xs low h.0), h)
  | inr after ↦ rw after (elim (Bool-cases (x == k)) [
    | inl there ↦ rw there h
    | inr apart ↦
        rw apart (All-set_insert k x xs (ground arith) h.0, set_insert-Increasing k xs h.1)
  ])
]

pub not-contains : (x : ℕ) (xs : List ℕ) → All (λ y. x < y) xs → contains x xs ≡ false
not-contains x [] a = refl
not-contains x (y ∷ ys) a = ground (arith, not-contains x ys a.1)

-- `s.erase(k)`
abbrev pub set_erase : ℕ → List ℕ → List ℕ
set_erase k [] = []
set_erase k (j ∷ s) = if j == k then set_erase k s else j ∷ set_erase k s

pub contains-set_erase :
    (k j : ℕ) (s : List ℕ) → contains j (set_erase k s) ≡ (contains j s && not (k == j))
contains-set_erase k j [] = refl
contains-set_erase k j (i ∷ s) = ground (arith, contains-set_erase k j s)

module _ (P : ℕ → Type 0) where
  pub All-set_erase : (k : ℕ) (s : List ℕ) → All P s → All P (set_erase k s)
  All-set_erase k [] h = tt
  All-set_erase k (j ∷ s) h = elim (Bool-cases (j == k)) [
    | inl here ↦ rw here (All-set_erase k s h.1)
    | inr other ↦ rw other (h.0, All-set_erase k s h.1)
  ]

  pub All-set_insert_of : (k : ℕ) (s : List ℕ) → P k → All P s → All P (set_insert k s)
  All-set_insert_of k [] p h = (p, tt)
  All-set_insert_of k (j ∷ s) p h = elim (Bool-cases (ltb k j)) [
    | inl before ↦ rw before (p, h)
    | inr after ↦ rw after (elim (Bool-cases (j == k)) [
      | inl there ↦ rw there h
      | inr apart ↦ rw apart (h.0, All-set_insert_of k s p h.1)
    ])
  ]

pub set_erase-Increasing : (k : ℕ) (s : List ℕ) → Increasing s → Increasing (set_erase k s)
set_erase-Increasing k [] h = tt
set_erase-Increasing k (j ∷ s) h = elim (Bool-cases (j == k)) [
  | inl here ↦ rw here (set_erase-Increasing k s h.1)
  | inr other ↦ rw other (All-set_erase (λ y. j < y) k s h.0, set_erase-Increasing k s h.1)
]

pub contains-All : (P : ℕ → Type 0) (k : ℕ) (s : List ℕ) → All P s → contains k s ≡ true → P k
contains-All P k [] h e = cc
contains-All P k (j ∷ s) h e = elim (Bool-cases (j == k)) [
  | inl here ↦ let same : j ≡ k = ground arith in rw same at h.0
  | inr other ↦ contains-All P k s h.1 (ground arith)
]

pub no_contains-nil : (s : List ℕ) → ((k : ℕ) → contains k s ≡ false) → s ≡ []
no_contains-nil [] h = refl
no_contains-nil (j ∷ s) h = absurd (ground (arith, h j))

pub set_insert-member :
    (k : ℕ) (s : List ℕ) → Increasing s → contains k s ≡ true → set_insert k s ≡ s
set_insert-member k [] h e = cc
set_insert-member k (j ∷ s) h e =
    ground (arith, set_insert-member k s h.1, not-contains k s, All-below k j s, h.0)
