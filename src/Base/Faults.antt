-- ===== src/Base/Faults.antt =====
-- What a call of the program may come to: a value, or a fault that ends the run.
use mathlib.Core.Path.{◌≡◌, refl}
use mathlib.Core.Option.{Option, none, some}
use mathlib.Core.List.{List, [], ◌∷◌}

-- `out_of_range` is the exception of `std::map::at`; `bad_access` is undefined behaviour, such as
-- an index past the end of a vector or `*` of an empty optional; `bad_optional` is the exception of
-- `value()` of an empty optional; `runtime_error` is what `ENSURE` and `HANDLE_C_ERROR` throw;
-- `invalid_argument` is the exception of `std::stoi`.
pub data Fault : Type 0 where
  out_of_range bad_access bad_optional runtime_error invalid_argument : Fault

pub data Outcome {ℓ} (A : Type ℓ) : Type ℓ where
  ok : A → Outcome A
  fault : Fault → Outcome A

infixl 5 ◌>>=◌
abbrev pub ◌>>=◌ {ℓ κ} : {A : Type ℓ} {B : Type κ} → Outcome A → (A → Outcome B) → Outcome B
ok a >>= f = f a
fault e >>= f = fault e

-- A read that the program makes with no check.
abbrev pub need {ℓ} : {A : Type ℓ} → Option A → Outcome A
need none = fault bad_access
need (some a) = ok a

module _ {ℓ κ} {S : Type ℓ} {X : Type κ} where
  -- `for (x : xs) body(x)` over a state.
  unfoldable pub for_each : (S → X → Outcome S) → S → List X → Outcome S
  for_each body s [] = ok s
  for_each body s (x ∷ xs) = body s x >>= λ s'. for_each body s' xs

-- What holds of the result, where there is one.
abbrev pub Ensures {ℓ κ} : {A : Type ℓ} → (A → Type κ) → Outcome A → Type κ
Ensures P (ok a) = P a
Ensures P (fault e) = Unit

-- There is a result, and `P` holds of it.
abbrev pub Returns {ℓ κ} : {A : Type ℓ} → (A → Type κ) → Outcome A → Type (ℓ ⊔ κ)
Returns {A} P r = (a : A) × (r ≡ ok a) × P a

module _ {ℓ} {A : Type ℓ} where
  abbrev pub All {κ} : (A → Type κ) → List A → Type κ
  All P [] = Unit
  All P (x ∷ xs) = P x × All P xs

pub Ensures-self {ℓ} : {A : Type ℓ} (m : Outcome A) → Ensures (λ a. m ≡ ok a) m
Ensures-self (ok a) = refl
Ensures-self (fault e) = tt

pub of_Ensures {ℓ κ} :
    {A : Type ℓ} (P : A → Type κ) (m : Outcome A) (a : A) → Ensures P m → m ≡ ok a → P a
of_Ensures P (ok b) a h e = let same : b ≡ a = cc in rw same at h
of_Ensures P (fault f) a h e = cc

pub Returns-Ensures {ℓ κ} :
    {A : Type ℓ} (P : A → Type κ) (m : Outcome A) → Returns P m → Ensures P m
Returns-Ensures P (ok a) (b, e, p) = let same : b ≡ a = cc in rw same at p
Returns-Ensures P (fault f) r = tt

pub >>=_assoc {ℓ κ μ} :
    {A : Type ℓ} {B : Type κ} {C : Type μ} (m : Outcome A) (f : A → Outcome B) (g : B → Outcome C)
    → (m >>= λ a. f a >>= g) ≡ ((m >>= f) >>= g)
>>=_assoc (ok a) f g = refl
>>=_assoc (fault e) f g = refl

-- The rule for a bind.
pub >>=-Ensures {ℓ κ μ ν} :
    {A : Type ℓ} {B : Type κ} (P : A → Type μ) (Q : B → Type ν) (m : Outcome A) (f : A → Outcome B)
    → Ensures P m
    → ((a : A) → P a → Ensures Q (f a))
    → Ensures Q (m >>= f)
>>=-Ensures P Q (ok a) f h k = k a h
>>=-Ensures P Q (fault e) f h k = tt

pub >>=-Returns {ℓ κ μ ν} :
    {A : Type ℓ} {B : Type κ} (P : A → Type μ) (Q : B → Type ν) (m : Outcome A) (f : A → Outcome B)
    → Returns P m
    → ((a : A) → P a → Returns Q (f a))
    → Returns Q (m >>= f)
>>=-Returns P Q m f (a, e, p) k = rw e (k a p)

pub Ensures-map {ℓ μ ν} :
    {A : Type ℓ} (P : A → Type μ) (Q : A → Type ν) (m : Outcome A)
    → Ensures P m
    → ((a : A) → P a → Q a)
    → Ensures Q m
Ensures-map P Q (ok a) h k = k a h
Ensures-map P Q (fault e) h k = tt

module _ {ℓ κ} {S : Type ℓ} {X : Type κ} where
  -- What holds before a loop and is kept by each round, for items with `P`, holds after it, and the
  -- rounds' relation holds from the first state to the last.
  pub for_each-All {μ ν} :
      (I : S → Type μ) (P : X → Type ν) (R : S → S → Type 0) (body : S → X → Outcome S)
      → ((s : S) → R s s)
      → ((a b c : S) → R a b → R b c → R a c)
      → ((s : S) (x : X) → I s → P x → Ensures (λ s'. I s' × R s s') (body s x))
      → (s : S) (xs : List X) → I s
      → All P xs
      → Ensures (λ s'. I s' × R s s') (for_each body s xs)
  unfolding for_each
  for_each-All I P R body rfl trans each s [] i ps = (i, rfl s)
  for_each-All I P R body rfl trans each s (x ∷ xs) i ps =
      >>=-Ensures (λ s'. I s' × R s s') _ (body s x) (λ s'. for_each body s' xs) (each s x i ps.0)
        (λ s' h.
          Ensures-map (λ s''. I s'' × R s' s'') _ (for_each body s' xs)
            (for_each-All I P R body rfl trans each s' xs h.0 ps.1)
            (λ s'' k. (k.0, trans s s' s'' h.1 k.1)))

  pub for_each-Keeps {μ} :
      (I : S → Type μ) (body : S → X → Outcome S)
      → ((s : S) (x : X) → I s → Ensures I (body s x))
      → (s : S) (xs : List X) → I s
      → Ensures I (for_each body s xs)
  unfolding for_each
  for_each-Keeps I body each s [] i = i
  for_each-Keeps I body each s (x ∷ xs) i =
      >>=-Ensures I I (body s x) (λ s'. for_each body s' xs) (each s x i)
        (λ s' i'. for_each-Keeps I body each s' xs i')

  -- The same where each round needs something of its element.
  pub for_each-Keeps_given {μ ν} :
      (I : S → Type μ) (P : X → Type ν) (body : S → X → Outcome S)
      → ((s : S) (x : X) → I s → P x → Ensures I (body s x))
      → (s : S) (xs : List X) → I s
      → All P xs
      → Ensures I (for_each body s xs)
  unfolding for_each
  for_each-Keeps_given I P body each s [] i ps = i
  for_each-Keeps_given I P body each s (x ∷ xs) i ps =
      >>=-Ensures I I (body s x) (λ s'. for_each body s' xs) (each s x i ps.0)
        (λ s' i'. for_each-Keeps_given I P body each s' xs i' ps.1)

  pub for_each-Ensures :
      (R : S → S → Type 0) (body : S → X → Outcome S)
      → ((s : S) → R s s)
      → ((a b c : S) → R a b → R b c → R a c)
      → ((s : S) (x : X) → Ensures (R s) (body s x))
      → (s : S) (xs : List X) → Ensures (R s) (for_each body s xs)
  unfolding for_each
  for_each-Ensures R body rfl trans each s [] = rfl s
  for_each-Ensures R body rfl trans each s (x ∷ xs) =
      >>=-Ensures (R s) (R s) (body s x) (λ s'. for_each body s' xs) (each s x)
        (λ s' h.
          Ensures-map (R s') (R s) (for_each body s' xs)
            (for_each-Ensures R body rfl trans each s' xs) (λ s'' k. trans s s' s'' h k))

  -- With an invariant that each round keeps while it returns, the loop returns.
  pub for_each-Returns {μ ν} :
      (I : S → Type μ) (P : X → Type ν) (body : S → X → Outcome S)
      → ((s : S) (x : X) → I s → P x → Returns I (body s x))
      → (s : S) (xs : List X) → I s
      → All P xs
      → Returns I (for_each body s xs)
  unfolding for_each
  for_each-Returns I P body each s [] i ps = (s, refl, i)
  for_each-Returns I P body each s (x ∷ xs) i ps =
      let (s', e, i') = each s x i ps.0 in rw e (for_each-Returns I P body each s' xs i' ps.1)

pub Ensures-both {ℓ μ ν} :
    {A : Type ℓ} (P : A → Type μ) (Q : A → Type ν) (m : Outcome A)
    → Ensures P m
    → Ensures Q m
    → Ensures (λ a. P a × Q a) m
Ensures-both P Q (ok a) p q = (p, q)
Ensures-both P Q (fault e) p q = tt
