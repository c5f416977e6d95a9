-- ===== src/Cluster/Logs/Sending.antt =====
-- hw2/src/consensus/node.cpp: `SendAppendEntriesToAll`, by the logs of a cluster.
use to_ftds.Base.{
  ℕ, zero, suc, ◌+◌, ◌-◌, ◌<◌, ◌^◌, ◌≡◌, refl, sym, ap, ◌∙◌, inl, inr, Bool, true, ◌||◌, Bool-cases,
  Option, Option-cases, none, some, List, [], ◌∷◌, ◌++◌, append-nil, length-take, get_elem?,
  get_elem?-some_lt, take, drop, take-append-drop, leb, u64, Outcome, ok, fault, need, ◌>>=◌,
  Ensures, for_each-Keeps, contains, arith,
}
use to_ftds.Consensus.State.{NodeState, leader, LeaderState}
use to_ftds.Consensus.Message.{AppendEntriesRequest, append_entries_request}
use to_ftds.Consensus.Node.{Node, get_current_term, get_log, get_last_log_index, send}
use to_ftds.Consensus.Node.Roles.{
  is_leader, next_index_of, build_append_entries, send_entries, send_append_entries_to_someone,
  send_append_entries_to_all,
}
use to_ftds.Consensus.Frame.{send-SendsOnly}
use to_ftds.Cluster.Logs.{Book, Taken}
use to_ftds.Cluster.Logs.Nodes.{Short, Holds, send-Keeps, SendsOnly-Short}

pub is_leader-leader : (r : NodeState) → is_leader r ≡ true → r ≡ leader
is_leader-leader leader e = refl
is_leader-leader NodeState.follower e = cc
is_leader-leader NodeState.candidate e = cc

get_elem?-take :
    {A : Type 0} (n : ℕ) (xs : List A) (k : ℕ) → k < n → get_elem? (take n xs) k ≡ get_elem? xs k
get_elem?-take zero xs k h = absurd (omega arith)
get_elem?-take (suc n) [] k h = refl
get_elem?-take (suc n) (x ∷ xs) zero h = refl
get_elem?-take (suc n) (x ∷ xs) (suc k) h = get_elem?-take n xs k (omega arith)

module _ {T : Type 0} (B : Book) (i : ℕ) where
  build-Taken :
      (n : Node T) (ls : LeaderState) (id : ℕ)
      → B.logs (get_current_term n) ≡ get_log n
      → next_index_of ls id < 2 ^ 64
      → Short n
      → Ensures (Taken B) (build_append_entries n ls id)
  unfolding build_append_entries
  build-Taken n ls id own small short =
      elim (Option-cases (get_elem? (get_log n) (u64 (next_index_of ls id + 2 ^ 64 - 1)))) [
        | inl nothing ↦ rw (nothing, Ensures) tt
        | inr (p, found) ↦
            let next = next_index_of ls id in
            let within = get_elem?-some_lt (get_log n) (u64 (next + 2 ^ 64 - 1)) p found in
            let before : suc (u64 (next + 2 ^ 64 - 1)) ≡ next =
              omega (arith, within, short, small) in
            rw found (
              take next (get_log n),
              [],
              p,
              own
                  ∙ sym (take-append-drop next (get_log n))
                  ∙ ap (λ l. take next (get_log n) ++ l) (sym (append-nil (drop next (get_log n)))),
              omega (arith, length-take next (get_log n), within, before),
              get_elem?-take next (get_log n) (u64 (next + 2 ^ 64 - 1)) (omega (arith, before))
                  ∙ found,
              refl,
            )
      ]

  send-Holds :
      (n : Node T) (who : ℕ) (req : AppendEntriesRequest)
      → Taken B req
      → Holds B i n
      → Holds B i (send n who (append_entries_request req))
  send-Holds n who req t (k, short) = (
    send-Keeps B i n who (append_entries_request req) t k,
    SendsOnly-Short B i n _ (send-SendsOnly n who (append_entries_request req)) short,
  )

  send_entries-Holds :
      (heartbeat : Bool) (n : Node T) (id : ℕ) (ls : LeaderState)
      → n.role ≡ leader
      → n.leader_state ≡ some ls
      → Holds B i n
      → Ensures (Holds B i) (send_entries heartbeat n id ls)
  unfolding send_entries
  send_entries-Holds heartbeat n id ls leads has (k, short) =
      elim (Bool-cases (leb (next_index_of ls id) (get_last_log_index n) || heartbeat)) [
        | inr quiet ↦ rw (quiet, Ensures) (k, short)
        | inl sends ↦ rw sends (
            built (build_append_entries n ls id)
              (build-Taken n ls id (k.leads leads).0 (k.next ls has id) short))
      ]
    where
      built :
          (r : Outcome AppendEntriesRequest)
          → Ensures (Taken B) r
          → Ensures (Holds B i) (r >>= λ req. ok (send n id (append_entries_request req)))
      built (ok req) t = send-Holds n id req t (k, short)
      built (fault e) t = tt

  send_to_someone-Holds :
      (heartbeat : Bool) (n : Node T) (id : ℕ)
      → Holds B i n
      → Ensures (Holds B i) (send_append_entries_to_someone heartbeat n id)
  unfolding send_append_entries_to_someone
  send_to_someone-Holds heartbeat n id h = elim (Bool-cases (is_leader n.role)) [
    | inr other ↦ rw (other, Ensures) h
    | inl leads ↦ rw leads (elim (Bool-cases (contains id n.channels)) [
      | inr unknown ↦ rw (unknown, Ensures) tt
      | inl known ↦ rw known (reads leads n.leader_state refl)
    ])
  ]
    where
      reads :
          is_leader n.role ≡ true
          → (o : Option LeaderState) → n.leader_state ≡ o
          → Ensures (Holds B i) (need o >>= send_entries heartbeat n id)
      reads leads none e = tt
      reads leads (some ls) e =
          send_entries-Holds heartbeat n id ls (is_leader-leader n.role leads) e h

  pub send_append_entries_to_all-Holds :
      (heartbeat : Bool) (n : Node T)
      → Holds B i n
      → Ensures (Holds B i) (send_append_entries_to_all heartbeat n)
  unfolding send_append_entries_to_all
  send_append_entries_to_all-Holds heartbeat n h =
      for_each-Keeps (Holds B i) (send_append_entries_to_someone heartbeat)
        (λ m id k. send_to_someone-Holds heartbeat m id k) n n.channels h
