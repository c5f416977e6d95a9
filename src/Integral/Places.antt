-- ===== src/Integral/Places.antt =====
-- hw1/src/leader/leader.h: what holds of each query of `queries_`, with its place in the vector.
use to_ftds.Base.{ℕ, zero, suc, ◌+◌, ◌≡◌, List, [], ◌∷◌, ◌++◌, some, arith, length, get_elem?, set}

module _ {A : Type 0} where
  -- From the place `i` on.
  abbrev pub From : (ℕ → A → Type 0) → ℕ → List A → Type 0
  From P i [] = Unit
  From P i (q ∷ qs) = P i q × From P (suc i) qs

module _ {A : Type 0} (P : ℕ → A → Type 0) where
  here : (i j : ℕ) (q : A) → i ≡ j → P i q → P j q
  here i j q e p = rw e at p

  pub From-at :
      (i k j : ℕ) (qs : List A) (q : A) → From P i qs → get_elem? qs k ≡ some q → i + k ≡ j → P j q
  From-at i k j [] q h e s = cc
  From-at i zero j (p ∷ qs) q h e s =
      let same : p ≡ q = cc in rw same at (here i j p (omega arith) h.0)
  From-at i (suc k) j (p ∷ qs) q h e s = From-at (suc i) k j qs q h.1 e (omega arith)

  pub From-set :
      (i k j : ℕ) (qs : List A) (q : A) → From P i qs → i + k ≡ j → P j q → From P i (set qs k q)
  From-set i k j [] q h s p = tt
  From-set i zero j (r ∷ qs) q h s p = (here j i q (omega arith) p, h.1)
  From-set i (suc k) j (r ∷ qs) q h s p = (h.0, From-set (suc i) k j qs q h.1 (omega arith) p)

  pub From-snoc :
      (i j : ℕ) (qs : List A) (q : A)
      → From P i qs
      → i + length qs ≡ j
      → P j q
      → From P i (qs ++ q ∷ [])
  From-snoc i j [] q h s p = (here j i q (omega arith) p, tt)
  From-snoc i j (r ∷ qs) q h s p = (h.0, From-snoc (suc i) j qs q h.1 (omega arith) p)
