-- ===== src/Cluster/Logs/Merging.antt =====
-- hw2/src/consensus/node.cpp: the loop over the entries of a request, by the logs of a cluster.
use to_ftds.Base.{
  suc, ◌+◌, ◌≡◌, ◌⊎◌, inl, inr, refl, sym, ap, ◌∙◌, List, [], ◌∷◌, ◌++◌, append_assoc, some, length,
  length-append, get_elem?, get_elem?-some_lt, take, drop, take-append-drop,
}
use to_ftds.Consensus.State.{Log, LogItem, item_eq_refl}
use to_ftds.Consensus.Message.{AppendEntriesRequest}
use to_ftds.Consensus.Node.Requests.{put_entries}
use to_ftds.Consensus.Merge.{merge, merge_cases, put_entries_lem, take-append}
use to_ftds.Cluster.Logs.{Book, Matches, Taken, Matches-prefix, Matches-agree, some-append}

merge_own : (es rest : Log) → merge (es ++ rest) es ≡ es ++ rest
merge_own [] [] = refl
merge_own [] (r ∷ rest) = refl
merge_own (e ∷ es) rest = rw (item_eq_refl e) (ap (◌∷◌ e) (merge_own es rest))

drop-append : {A : Type 0} (xs ys : List A) → drop (length xs) (xs ++ ys) ≡ ys
drop-append [] ys = refl
drop-append (x ∷ xs) ys = drop-append xs ys

-- What the loop makes of a log.
pub record Merged (B : Book) (log : Log) (req : AppendEntriesRequest) (new : Log) : Type 0 where
  pub matches : Matches B new
  pub bounded : (new ≡ log) ⊎ (length new ≡ suc req.prev_log_index + length req.entries)
  pub own : log ≡ B.logs req.leader_term → new ≡ log

-- The item in front of the entries is there.
pub put_entries-Merged :
    (B : Book) (log : Log) (req : AppendEntriesRequest) (p : LogItem)
    → Matches B log
    → Matches B (B.logs req.leader_term)
    → Taken B req
    → get_elem? log req.prev_log_index ≡ some p
    → p.leader_term ≡ req.prev_log_term
    → Merged B log req (put_entries log (suc req.prev_log_index) req.entries)
put_entries-Merged B log req p matches matches_own (pre, rest, b, e, len, there, term) found
      agrees =
    rw whole (record {
      matches = elim (merge_cases tail req.entries) [
        | inl same ↦ rw (same, same_log) matches
        | inr new ↦ rw new (Matches-prefix B (pre ++ req.entries) rest (rw joined at matches_own))
      ];
      bounded = elim (merge_cases tail req.entries) [
        | inl same ↦ inl (ap (λ l. pre ++ l) same ∙ same_log)
        | inr new ↦ inr (
            ap (λ l. length (pre ++ l)) new
            ∙ length-append pre req.entries
            ∙ ap (λ n. n + length req.entries) len)
      ];
      own = λ own_log.
          let rest_own : tail ≡ req.entries ++ rest =
            ap (drop (suc req.prev_log_index)) (own_log ∙ e)
            ∙ ap (λ n. drop n (pre ++ (req.entries ++ rest))) (sym len)
            ∙ drop-append pre (req.entries ++ rest) in
          ap (λ l. pre ++ merge l req.entries) rest_own
          ∙ ap (λ l. pre ++ l) (merge_own req.entries rest)
          ∙ sym (own_log ∙ e);
    })
  where
    tail : Log
    tail = drop (suc req.prev_log_index) log

    joined : B.logs req.leader_term ≡ (pre ++ req.entries) ++ rest
    joined = e ∙ sym (append_assoc pre req.entries rest)

    in_own : get_elem? (B.logs req.leader_term) req.prev_log_index ≡ some b
    in_own =
        ap (λ l. get_elem? l req.prev_log_index) e
        ∙ some-append pre (req.entries ++ rest) req.prev_log_index b there

    front : take (suc req.prev_log_index) log ≡ pre
    front =
        Matches-agree B log (B.logs req.leader_term) req.prev_log_index p b matches matches_own
          found in_own (agrees ∙ sym term)
        ∙ ap (take (suc req.prev_log_index)) e
        ∙ ap (λ n. take n (pre ++ (req.entries ++ rest))) (sym len)
        ∙ take-append pre (req.entries ++ rest)

    same_log : pre ++ tail ≡ log
    same_log = ap (λ l. l ++ tail) (sym front) ∙ take-append-drop (suc req.prev_log_index) log

    whole : put_entries log (suc req.prev_log_index) req.entries ≡ pre ++ merge tail req.entries
    whole =
        put_entries_lem log (suc req.prev_log_index) req.entries
          (get_elem?-some_lt log req.prev_log_index p found)
        ∙ ap (λ l. l ++ merge tail req.entries) front
