-- ===== src/Consensus/Retreat.antt =====
-- hw2/src/consensus/node.cpp: what refusals do to the `next_index` of a follower.
use to_ftds.Base.{
  ℕ, suc, ◌+◌, ◌-◌, ◌^◌, ◌≤◌, ◌<◌, ◌≡◌, refl, Bool, true, false, some, arith, u64, ok,
  lookup-insert, fault, bad_access, ◌>>=◌, for_each, All, List, [], ◌∷◌, length, get_elem?-ge,
  contains, find_or, insert, nat_key,
}
use to_ftds.Timeout.{ITimeout}
use to_ftds.Consensus.State.{leader, LeaderState}
use to_ftds.Consensus.Message.{AppendEntriesResponse}
use to_ftds.Consensus.Node.{Node, get_current_term, get_log}
use to_ftds.Consensus.Node.Roles.{
  next_index_of, build_append_entries, send_entries, send_append_entries_to_someone,
}
use to_ftds.Consensus.Node.Requests.{observe_term}
use to_ftds.Consensus.Node.Responses.{
  step_back, note_append_entries, handle_append_entries_response,
}

pub find_or-insert : (k d v : ℕ) (m : List (ℕ × ℕ)) → find_or k d (insert k v m) ≡ v
find_or-insert k d v m = ground (arith, lookup-insert k k v m)

pub step_back-next :
    (id k : ℕ) (ls : LeaderState)
    → next_index_of ls id ≡ suc k
    → suc k < 2 ^ 64
    → next_index_of (step_back ls id) id ≡ k
unfolding step_back
step_back-next id k ls e fits =
    rw (find_or-insert id 0 (u64 (next_index_of ls id + 2 ^ 64 - 1)) ls.next_index, e) (omega arith)

module _ {T : Type 0} where
  send_entries-zero :
      (heartbeat : Bool) (n : Node T) (id : ℕ) (ls : LeaderState)
      → length (get_log n) < 2 ^ 64
      → next_index_of ls id ≡ 0
      → send_entries heartbeat n id ls ≡ fault bad_access
  unfolding send_entries build_append_entries
  send_entries-zero heartbeat n id ls fits e =
      rw (e, get_elem?-ge (get_log n) (u64 (2 ^ 64 - 1)) (omega arith)) (ground arith)

module _ {T : Type 0} ⦃timer : ITimeout T⦄ where
  observe_old : (n : Node T) (t : ℕ) → t ≤ get_current_term n → observe_term n t ≡ n
  unfolding observe_term
  observe_old n t h = ground arith

  refusal :
      (n : Node T) (ls : LeaderState) (resp : AppendEntriesResponse) (id : ℕ)
      → n.role ≡ leader
      → n.leader_state ≡ some ls
      → resp.success ≡ false
      → resp.current_term ≤ get_current_term n
      → handle_append_entries_response n resp id
        ≡ ok (record n { leader_state = some (step_back ls id) })
  unfolding handle_append_entries_response note_append_entries
  refusal n ls resp id leads state refused old =
      rw (observe_old n resp.current_term old, leads, state, refused) refl

  -- A leader of fewer than 2^64 items that handles as many refusals of a follower, of no later
  -- term, as its next_index counts, faults at the next send to it: it reads the log in front of
  -- its first item.
  pub refused_too_often :
      (n : Node T) (ls : LeaderState) (resps : List AppendEntriesResponse) (id : ℕ)
      (heartbeat : Bool)
      → n.role ≡ leader
      → n.leader_state ≡ some ls
      → contains id n.channels ≡ true
      → length (get_log n) < 2 ^ 64
      → next_index_of ls id ≡ length resps
      → length resps < 2 ^ 64
      → All
          (λ (r : AppendEntriesResponse).
            (r.success ≡ false) × (r.current_term ≤ get_current_term n))
          resps
      → (for_each (λ m r. handle_append_entries_response m r id) n resps >>= λ m.
          send_append_entries_to_someone heartbeat m id)
        ≡ fault bad_access
  unfolding for_each send_append_entries_to_someone
  refused_too_often n ls [] id heartbeat leads state known fits next few refused =
      rw (leads, known, state) (send_entries-zero heartbeat _ id ls fits next)
  refused_too_often n ls (r ∷ rs) id heartbeat leads state known fits next few refused =
      rw (refusal n ls r id leads state refused.0.0 refused.0.1) (
        refused_too_often (record n { leader_state = some (step_back ls id) }) (step_back ls id) rs
          id heartbeat leads refl known fits (step_back-next id (length rs) ls next few)
          (omega arith) refused.1)
