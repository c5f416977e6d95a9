-- ===== src/Consensus/Merge.antt =====
-- The loop of `HandleAppendEntriesRequest` over `req.entries`, against a recursive description.
use native.Mathlib.Nat.{zero-add, suc-add}
use to_ftds.Base.{
  ℕ, suc, ◌+◌, ◌≤◌, ◌≡◌, refl, ap, ◌∙◌, ◌⊎◌, inl, inr, true, false, List, [], ◌∷◌, ◌++◌,
  append_assoc, append-nil, arith, if◌then◌else◌, Bool-cases, length, get_elem?, take, drop,
  length-append, length-take, take-append-drop,
}
use to_ftds.Consensus.State.{LogItem, Log, item_eq, item_eq-eq, item_eq_refl}
use to_ftds.Consensus.Node.Requests.{put_entry, put_entries}

-- What the part of a log behind `prev_log_index` becomes: an item that is there already stays, and
-- at the first that differs the new entries take over.
abbrev pub merge : Log → Log → Log
merge rest [] = rest
merge [] (e ∷ es) = e ∷ es
merge (r ∷ rest) (e ∷ es) = if item_eq r e then r ∷ merge rest es else e ∷ es

merge-nil : (es : Log) → merge [] es ≡ es
merge-nil [] = refl
merge-nil (e ∷ es) = refl

get_elem?-append : (pre rest : Log) → get_elem? (pre ++ rest) (length pre) ≡ get_elem? rest 0
get_elem?-append [] rest = refl
get_elem?-append (x ∷ pre) rest = get_elem?-append pre rest

pub take-append {ℓ} : {A : Type ℓ} (pre rest : List A) → take (length pre) (pre ++ rest) ≡ pre
take-append [] rest = refl
take-append (x ∷ pre) rest = ap (◌∷◌ x) (take-append pre rest)

pub take-append_add {ℓ} :
    {A : Type ℓ} (pre : List A) (k : ℕ) (rest : List A)
    → take (length pre + k) (pre ++ rest) ≡ pre ++ take k rest
take-append_add [] k rest = rw (zero-add k)
take-append_add (x ∷ pre) k rest =
    rw (suc-add (length pre) k) (ap (◌∷◌ x) (take-append_add pre k rest))

length-snoc : (pre : Log) (e : LogItem) → length (pre ++ e ∷ []) ≡ suc (length pre)
length-snoc pre e = omega (arith, length-append pre (e ∷ []))

put_entry_end : (pre : Log) (e : LogItem) → put_entry (pre ++ []) (length pre) e ≡ pre ++ e ∷ []
unfolding put_entry
put_entry_end pre e = ground (arith, get_elem?-append pre [], append-nil pre)

put_entry_kept :
    (pre rest : Log) (r e : LogItem)
    → item_eq r e ≡ true
    → put_entry (pre ++ r ∷ rest) (length pre) e ≡ (pre ++ r ∷ []) ++ rest
unfolding put_entry
put_entry_kept pre rest r e h =
    ground (arith, get_elem?-append pre (r ∷ rest), append_assoc pre (r ∷ []) rest)

put_entry_replaced :
    (pre rest : Log) (r e : LogItem)
    → item_eq r e ≡ false
    → put_entry (pre ++ r ∷ rest) (length pre) e ≡ (pre ++ e ∷ []) ++ []
unfolding put_entry
put_entry_replaced pre rest r e h =
    ground (
      arith,
      get_elem?-append pre (r ∷ rest),
      take-append pre (r ∷ rest),
      append-nil (pre ++ e ∷ []),
    )

put_entries-merge :
    (pre rest es : Log) → put_entries (pre ++ rest) (length pre) es ≡ pre ++ merge rest es
unfolding put_entries
put_entries-merge pre rest [] = refl
put_entries-merge pre [] (e ∷ es) =
    rw (put_entry_end pre e, ← append-nil (pre ++ e ∷ []), ← length-snoc pre e)
      (put_entries-merge (pre ++ e ∷ []) [] es ∙ rw (merge-nil es) (append_assoc pre (e ∷ []) es))
put_entries-merge pre (r ∷ rest) (e ∷ es) = elim (Bool-cases (item_eq r e)) [
  | inl same ↦
      rw (put_entry_kept pre rest r e same, ← length-snoc pre r, same)
        (put_entries-merge (pre ++ r ∷ []) rest es ∙ append_assoc pre (r ∷ []) (merge rest es))
  | inr other ↦
      rw (put_entry_replaced pre rest r e other, ← length-snoc pre e, other)
        (put_entries-merge (pre ++ e ∷ []) [] es ∙ rw (merge-nil es) (append_assoc pre (e ∷ []) es))
]

-- The loop leaves the items before `i` alone and merges the entries into the rest.
pub put_entries_lem :
    (log : Log) (i : ℕ) (es : Log)
    → i ≤ length log
    → put_entries log i es ≡ take i log ++ merge (drop i log) es
put_entries_lem log i es h =
    rw (len) at (rw (take-append-drop i log) at (put_entries-merge (take i log) (drop i log) es))
  where
    len : length (take i log) ≡ i
    len = omega (arith, length-take i log)

pub take-merge : (rest es : Log) → take (length es) (merge rest es) ≡ es
take-merge rest [] = refl
take-merge [] (e ∷ es) = ap (◌∷◌ e) (take_all es)
  where
    take_all : (xs : Log) → take (length xs) xs ≡ xs
    take_all xs = rw (append-nil xs) at (take-append xs [])
take-merge (r ∷ rest) (e ∷ es) = elim (Bool-cases (item_eq r e)) [
  | inl same ↦ rw (same, item_eq-eq r e same) (ap (◌∷◌ e) (take-merge rest es))
  | inr other ↦ rw other (ap (◌∷◌ e) (rw (append-nil es) at (take-append es [])))
]

pub length-merge : (rest es : Log) → length es ≤ length (merge rest es)
length-merge rest [] = omega arith
length-merge [] (e ∷ es) = omega arith
length-merge (r ∷ rest) (e ∷ es) = ground (arith, length-merge rest es)

merge_self : (xs : Log) → merge xs xs ≡ xs
merge_self [] = refl
merge_self (x ∷ xs) = rw (item_eq_refl x) (ap (◌∷◌ x) (merge_self xs))

pub merge_twice : (rest es : Log) → merge (merge rest es) es ≡ merge rest es
merge_twice rest [] = refl
merge_twice [] (e ∷ es) = merge_self (e ∷ es)
merge_twice (r ∷ rest) (e ∷ es) = elim (Bool-cases (item_eq r e)) [
  | inl same ↦ rw (same, same) (ap (◌∷◌ r) (merge_twice rest es))
  | inr other ↦ rw other (merge_self (e ∷ es))
]

-- Nothing is dropped but for a conflict.
pub merge_cases : (rest es : Log) → (merge rest es ≡ rest) ⊎ (merge rest es ≡ es)
merge_cases rest [] = inl refl
merge_cases [] (e ∷ es) = inr refl
merge_cases (r ∷ rest) (e ∷ es) = ground (arith, item_eq-eq r e, merge_cases rest es)

take_past :
    (pre rest es : Log) (i : ℕ)
    → length pre ≡ i
    → take (i + length es) (pre ++ merge rest es) ≡ pre ++ es
take_past pre rest es i e =
    rw (← e)
      (take-append_add pre (length es) (merge rest es) ∙ ap (λ l. pre ++ l) (take-merge rest es))

merge_past :
    (pre rest es : Log) (i : ℕ)
    → length pre ≡ i
    → put_entries (pre ++ merge rest es) i es ≡ pre ++ merge rest es
merge_past pre rest es i e =
    rw (← e) (put_entries-merge pre (merge rest es) es ∙ ap (λ l. pre ++ l) (merge_twice rest es))

-- After the loop over the entries of an AppendEntriesRequest that starts within the log, the log
-- up to the last entry is the old log up to the first followed by the entries.
pub take-put_entries :
    (log : Log) (i : ℕ) (es : Log)
    → i ≤ length log
    → take (i + length es) (put_entries log i es) ≡ take i log ++ es
take-put_entries log i es h =
    rw (put_entries_lem log i es h)
      (take_past (take i log) (drop i log) es i (omega (arith, length-take i log)))

-- Running the loop over the entries twice, starting within the log, leaves the same log as
-- running it once.
pub put_entries_twice :
    (log : Log) (i : ℕ) (es : Log)
    → i ≤ length log
    → put_entries (put_entries log i es) i es ≡ put_entries log i es
put_entries_twice log i es h =
    rw (put_entries_lem log i es h)
      (merge_past (take i log) (drop i log) es i (omega (arith, length-take i log)))

pub length-put_entries :
    (log : Log) (i : ℕ) (es : Log) → i ≤ length log → i + length es ≤ length (put_entries log i es)
length-put_entries log i es h = rw (put_entries_lem log i es h) (
    omega (
      arith,
      length-append (take i log) (merge (drop i log) es),
      length-take i log,
      length-merge (drop i log) es,
    ))
