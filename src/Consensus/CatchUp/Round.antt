-- ===== src/Consensus/CatchUp/Round.antt =====
-- hw2/src/consensus/node.cpp: one `AppendEntriesRequest` and its answer.
use to_ftds.Base.{
  ℕ, suc, ◌-◌, max, ◌≤◌, ◌<◌, ◌≡◌, refl, ap, ◌∙◌, ◌⊎◌, true, false, inl, inr, none, some, arith,
  u64, if◌then◌else◌, Bool-cases, Outcome, ok, need, ◌>>=◌, Returns, length, take, length-drop,
  find_or, nat_key,
}
use to_ftds.Timeout.{ITimeout}
use to_ftds.Consensus.State.{LeaderState}
use to_ftds.Consensus.Message.{AppendEntriesRequest}
use to_ftds.Consensus.Node.{Node, get_current_term, get_log}
use to_ftds.Consensus.Node.Roles.{next_index_of, build_append_entries}
use to_ftds.Consensus.Node.Requests.{observe_term, handle_append_entries_request}
use to_ftds.Consensus.Node.Responses.{
  record_match, step_back, note_append_entries, handle_append_entries_response,
}
use to_ftds.Consensus.Replication.{accepts, append_entries-Effect}
use to_ftds.Consensus.CatchUp.{AgreeAt, Continues, round, Exchange, CaughtUp}
use to_ftds.Consensus.CatchUp.Request.{
  build_append_entries-Continues, merged-take, accepts_same, accepts_agree,
}
use to_ftds.Consensus.Retreat.{find_or-insert}

module _ {T : Type 0} ⦃timer : ITimeout T⦄ where
  same_term : (l : Node T) → observe_term l (get_current_term l) ≡ l
  unfolding observe_term
  same_term l = ground arith

  answer :
      (l f : Node T) (i : ℕ) (req : AppendEntriesRequest)
      → Continues l i req
      → i < length (get_log l)
      → get_current_term f ≤ get_current_term l
      → (handle_append_entries_request f req).1 ≡ record {
        current_term = get_current_term l;
        success = accepts f req;
        matched_until = if accepts f req then some (length (get_log l) - 1) else none;
      }
  answer l f i req c low terms =
      let effect = append_entries-Effect f req in
      ground (
        arith,
        effect.told_term,
        effect.told_success,
        effect.told_matched,
        c.term,
        c.index,
        ap length c.entries,
        length-drop (suc i) (get_log l),
      )

  record_match-CaughtUp :
      (id i : ℕ) (ls : LeaderState) (l f : Node T)
      → Exchange id i ls l f
      → (next_index_of (record_match ls id (length (get_log l) - 1)) id ≡ length (get_log l))
        × (find_or id 0 (record_match ls id (length (get_log l) - 1)).match_index
            ≡ length (get_log l) - 1)
  unfolding record_match
  record_match-CaughtUp id i ls l f x = (
    rw (find_or-insert id 0 (max (next_index_of ls id) (u64 (suc m))) ls.next_index)
        (omega (arith, x.in_log, x.next, x.fits, matched)),
    rw (find_or-insert id 0 m ls.match_index) matched,
  )
    where
      m : ℕ
      m = max (find_or id 0 ls.match_index) (length (get_log l) - 1)

      matched : m ≡ length (get_log l) - 1
      matched = omega (arith, x.known)

  note_accepted :
      (id i : ℕ) (ls : LeaderState) (l f : Node T) (req : AppendEntriesRequest)
      → Exchange id i ls l f
      → Continues l i req
      → accepts f req ≡ true
      → handle_append_entries_response l (handle_append_entries_request f req).1 id
        ≡ ok (record l { leader_state = some (record_match ls id (length (get_log l) - 1)) })
  unfolding handle_append_entries_response note_append_entries
  note_accepted id i ls l f req x c accepted =
      rw (answer l f i req c x.in_log x.terms, same_term l, x.leads, x.has_state, accepted) refl

  note_refused :
      (id i : ℕ) (ls : LeaderState) (l f : Node T) (req : AppendEntriesRequest)
      → Exchange id i ls l f
      → Continues l i req
      → accepts f req ≡ false
      → handle_append_entries_response l (handle_append_entries_request f req).1 id
        ≡ ok (record l { leader_state = some (step_back ls id) })
  unfolding handle_append_entries_response note_append_entries
  note_refused id i ls l f req x c refused =
      rw (answer l f i req c x.in_log x.terms, same_term l, x.leads, x.has_state, refused) refl

  round_runs :
      (id : ℕ) (ls : LeaderState) (l f l' : Node T) (req : AppendEntriesRequest)
      → l.leader_state ≡ some ls
      → build_append_entries l ls id ≡ ok req
      → handle_append_entries_response l (handle_append_entries_request f req).1 id ≡ ok l'
      → round id (l, f) ≡ ok (l', (handle_append_entries_request f req).0)
  round_runs id ls l f l' req e built handled =
      ap (λ o. need o >>= λ s. build_append_entries l s id >>= answered) e
      ∙ ap (λ r. r >>= answered) built
      ∙ ap (λ r. r >>= λ m. ok (m, (handle_append_entries_request f req).0)) handled
    where
      answered : AppendEntriesRequest → Outcome (Node T × Node T)
      answered sent =
          (let r = handle_append_entries_request f sent in
            handle_append_entries_response l r.1 id >>= λ m. ok (m, r.0))

  -- The follower has taken the log over, or the leader will send one more item.
  pub round-step :
      (id i : ℕ) (ls : LeaderState) (l f : Node T)
      → Exchange id i ls l f
      → AgreeAt (get_log f) (get_log l) i
      → Returns
          (λ r.
            CaughtUp id (get_log l) r.0 r.1
            ⊎ ((r.0 ≡ record l { leader_state = some (step_back ls id) })
                × (get_log r.1 ≡ get_log f)
                × (get_current_term r.1 ≡ get_current_term l)
                × ¬ (take (suc i) (get_log f) ≡ take (suc i) (get_log l))))
          (round id (l, f))
  round-step id i ls l f x agree =
      let (req, built, c) = build_append_entries-Continues l ls id i x.next x.in_log x.fits in
      let effect = append_entries-Effect f req in
      elim (Bool-cases (accepts f req)) [
        | inl accepted ↦
            let same = accepts_agree l f i req c accepted agree in
            let (next, matched) = record_match-CaughtUp id i ls l f x in
            rw
              (round_runs id ls l f _ req x.has_state built
                (note_accepted id i ls l f req x c accepted))
              (
                _,
                refl,
                inl (record {
                  leader_log = refl;
                  follower_log = rw (effect.log, accepted) (merged-take l f i req c x.in_log same);
                  ls = record_match ls id (length (get_log l) - 1);
                  has_state = refl;
                  next = next;
                  matched = matched;
                }),
              )
        | inr refused ↦
            rw
              (round_runs id ls l f _ req x.has_state built
                (note_refused id i ls l f req x c refused))
              (
                _,
                refl,
                inr (
                  refl,
                  ground (arith, effect.log),
                  ground (arith, effect.term, c.term, x.terms),
                  λ same. ground (arith, accepts_same l f i req c x.terms same),
                ),
              )
      ]
