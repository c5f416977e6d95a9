-- ===== src/Base/Maps.antt =====
-- `std::map` and `std::set` as lists in the order of their keys, over an interface of keys.
use Prim.Native.Nat.{ℕ}
use mathlib.Core.Path.{◌≡◌, refl}
use mathlib.Core.Logic.{◌↔◌}
use mathlib.Core.Bool.{Bool, true, false, ◌||◌}
use mathlib.Core.Option.{Option, none, some}
use mathlib.Core.List.{List, [], ◌∷◌}
use native.Mathlib.Omega.{arith}
use to_ftds.Base.Tests.{ltb, ◌==◌, ==_iff, bytes_eq, bytes_lt, bytes_eq_iff, if◌then◌else◌}

-- What `std::map` asks of a key.
pub record Key (K : Type 0) : Type 0 where
  pub less : K → K → Bool
  pub same : K → K → Bool
  pub same_iff : (a b : K) → (same a b ≡ true) ↔ (a ≡ b)

instance abbrev pub nat_key : Key ℕ
nat_key = record { less = ltb; same = ◌==◌; same_iff = ==_iff }

instance abbrev pub bytes_key : Key (List ℕ)
bytes_key = record { less = bytes_lt; same = bytes_eq; same_iff = bytes_eq_iff }

pub same_refl : {K : Type 0} ⦃key : Key K⦄ (k : K) → key.same k k ≡ true
same_refl ⦃key⦄ k = (key.same_iff k k).1 refl

module _ {K : Type 0} ⦃key : Key K⦄ {V : Type 0} where
  -- `m.find(k)`
  abbrev pub lookup : K → List (K × V) → Option V
  lookup k [] = none
  lookup k ((j, v) ∷ m) = if key.same j k then some v else lookup k m

  -- `m[k] = v`
  abbrev pub insert : K → V → List (K × V) → List (K × V)
  insert k v [] = (k, v) ∷ []
  insert k v ((j, w) ∷ m) =
      if key.less k j
      then (k, v) ∷ (j, w) ∷ m
      else (if key.same j k then (k, v) ∷ m else (j, w) ∷ insert k v m)

  -- `m.erase(k)`
  abbrev pub erase : K → List (K × V) → List (K × V)
  erase k [] = []
  erase k ((j, v) ∷ m) = if key.same j k then erase k m else (j, v) ∷ erase k m

  -- `m[k]`, whose value is `d` where the key is new.
  abbrev pub find_or : K → V → List (K × V) → V
  find_or k d m = elim (lookup k m) [ none ↦ d | some v ↦ v ]

  pub lookup-insert :
      (k j : K) (v : V) (m : List (K × V))
      → lookup j (insert k v m) ≡ (if key.same k j then some v else lookup j m)
  lookup-insert k j v [] = refl
  lookup-insert k j v ((i, w) ∷ m) =
      ground (arith, key.same_iff k j, key.same_iff i k, key.same_iff i j, lookup-insert k j v m)

  pub lookup-erase :
      (k j : K) (m : List (K × V))
      → lookup j (erase k m) ≡ (if key.same k j then none else lookup j m)
  lookup-erase k j [] = ground arith
  lookup-erase k j ((i, w) ∷ m) =
      ground (arith, key.same_iff k j, key.same_iff i k, key.same_iff i j, lookup-erase k j m)

-- `s.insert(k)` and `s.contains(k)` of a `std::set`.
abbrev pub set_insert : ℕ → List ℕ → List ℕ
set_insert k [] = k ∷ []
set_insert k (j ∷ s) = if ltb k j then k ∷ j ∷ s else (if j == k then j ∷ s else j ∷ set_insert k s)

abbrev pub contains : ℕ → List ℕ → Bool
contains k [] = false
contains k (j ∷ s) = (j == k) || contains k s

pub contains-set_insert :
    (k j : ℕ) (s : List ℕ) → contains j (set_insert k s) ≡ ((k == j) || contains j s)
contains-set_insert k j [] = refl
contains-set_insert k j (i ∷ s) = ground (arith, contains-set_insert k j s)
