-- ===== src/Communication/Transfer.antt =====
-- hw2/src/worker/worker.cpp: what of a message reaches the other node.
use to_ftds.Base.{
  ℕ, ◌^◌, ◌<◌, ◌≡◌, refl, ap, if◌then◌else◌, true, [], ◌∷◌, none, some, inl, inr, Bool-cases, arith,
  All, ok, ◌>>=◌, Returns,
}
use to_ftds.Consensus.State.{LogItem, Log}
use to_ftds.Consensus.Message.{
  AppendEntriesRequest, Message, append_entries_request, append_entries_response,
  request_vote_request, request_vote_response,
}
use to_ftds.Communication.{
  to_int32, from_int32, encode_items, encode, send_message, Uninitialised, decode_items, decode,
  receive,
}

-- A number that an `int32` holds.
abbrev pub IsSmall : ℕ → Type 0
IsSmall x = x < 2 ^ 31

abbrev pub AllSmall : Log → Type 0
AllSmall = All (λ (e : LogItem). IsSmall e.leader_term)

-- All numbers of the message are small; an answer has `matched_until` exactly if it is a success.
abbrev pub Fits : Message → Type 0
Fits (append_entries_request m) =
    IsSmall m.leader_term
    × IsSmall m.leader_id
    × IsSmall m.prev_log_index
    × IsSmall m.prev_log_term
    × AllSmall m.entries
Fits (append_entries_response m) =
    IsSmall m.current_term
    × (if m.success
        then ((k : ℕ) × (m.matched_until ≡ some k) × IsSmall k)
        else (m.matched_until ≡ none))
Fits (request_vote_request m) =
    IsSmall m.candidate_term
    × IsSmall m.candidate_id
    × IsSmall m.candidate_last_log_index
    × IsSmall m.candidate_last_log_term
Fits (request_vote_response m) = IsSmall m.current_term × IsSmall m.candidate_term

-- The message as it arrives: the receiver's memory stands in for two of its members.
abbrev pub arrived : Uninitialised → Message → Message
arrived u (append_entries_request m) =
    append_entries_request (record m { leader_commit = u.leader_commit })
arrived u (append_entries_response m) = append_entries_response m
arrived u (request_vote_request m) = request_vote_request m
arrived u (request_vote_response m) =
    request_vote_response
      (record m { candidate_term = if m.vote_granted then m.candidate_term else u.candidate_term })

int32_twice : (x : ℕ) → IsSmall x → from_int32 (to_int32 x) ≡ x
int32_twice x h = ground arith

items_twice : (es : Log) → AllSmall es → decode_items (encode_items es) ≡ es
unfolding encode_items decode_items
items_twice [] h = refl
items_twice (e ∷ es) h = ground (arith, h, items_twice es h.1)

transfer_message :
    (u : Uninitialised) (m : Message)
    → Fits m
    → Returns (λ p. decode u p ≡ some (arrived u m)) (encode m)
unfolding encode decode
transfer_message u (append_entries_request m) f = (
  _,
  refl,
  ground (
    arith,
    int32_twice m.leader_term f.0,
    int32_twice m.leader_id f.1,
    int32_twice m.prev_log_index f.2,
    int32_twice m.prev_log_term f.3,
    items_twice m.entries f.4,
  ),
)
transfer_message u (append_entries_response m) f = elim (Bool-cases m.success) [
  | inl success ↦
      let (k, e, small) = matched success in
      rw (success, e) (_, refl, ground (arith, int32_twice m.current_term f.0, int32_twice k small))
  | inr failure ↦ rw failure (_, refl, ground (arith, int32_twice m.current_term f.0))
]
  where
    matched : m.success ≡ true → (k : ℕ) × (m.matched_until ≡ some k) × IsSmall k
    matched e = rw e at f.1
transfer_message u (request_vote_request m) f = (
  _,
  refl,
  ground (
    arith,
    int32_twice m.candidate_term f.0,
    int32_twice m.candidate_id f.1,
    int32_twice m.candidate_last_log_index f.2,
    int32_twice m.candidate_last_log_term f.3,
  ),
)
transfer_message u (request_vote_response m) f =
    (_, refl, ground (arith, int32_twice m.current_term f.0, int32_twice m.candidate_term f.1))

-- A message whose numbers fit int32 arrives as it was sent, with its sender, but for the commit
-- index of an append request and the term of a refused vote, which are what the receiver's memory
-- held.
pub transfer :
    (u : Uninitialised) (from : ℕ) (m : Message)
    → IsSmall from
    → Fits m
    → Returns (λ a. receive u a ≡ some (from, arrived u m)) (send_message from m)
unfolding send_message receive
transfer u from m small f =
    let (p, e, d) = transfer_message u m f in
    rw e (_, refl, rw (receive, d) (ap (λ x. some (x, arrived u m)) (int32_twice from small)))

-- What the receiver gets of an append request does not depend on the commit index that the leader
-- sends.
pub leader_commit_lost :
    (u : Uninitialised) (from c : ℕ) (m : AppendEntriesRequest)
    → (send_message from (append_entries_request (record m { leader_commit = c })) >>= λ a.
        ok (receive u a))
      ≡ (send_message from (append_entries_request m) >>= λ a. ok (receive u a))
unfolding send_message receive encode decode
leader_commit_lost u from c m = refl
