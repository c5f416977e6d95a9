-- ===== src/Cluster/Arrival.antt =====
-- hw2/src/worker/worker.cpp: the sender and the completeness of a message that arrives.
use to_ftds.Base.{
  ℕ, ◌≡◌, refl, inl, inr, Bool-cases, Option-cases, some, arith, Outcome, ok, fault, ◌>>=◌,
}
use to_ftds.Consensus.Message.{
  Message, append_entries_request, append_entries_response, request_vote_request,
  request_vote_response,
}
use to_ftds.Consensus.Mail.{Complete}
use to_ftds.Communication.{
  to_int32, from_int32, ProtoMessage, ae_req, ae_resp, rv_req, rv_resp, not_set, AnnotatedMessage,
  encode, send_message, Uninitialised, decode, receive,
}

pub send_message-sender :
    (from : ℕ) (msg : Message) (a : AnnotatedMessage)
    → send_message from msg ≡ ok a
    → a.sender_id ≡ to_int32 from
unfolding send_message
send_message-sender from msg a e = coded (encode msg) e
  where
    coded :
        (r : Outcome ProtoMessage)
        → (r >>= λ p. ok (record { message = some p; sender_id = to_int32 from })) ≡ ok a
        → a.sender_id ≡ to_int32 from
    coded (ok p) e = cc
    coded (fault f) e = cc

-- A complete message can be coded.
pub send_message-Complete :
    (from : ℕ) (msg : Message)
    → Complete msg
    → (a : AnnotatedMessage) × (send_message from msg ≡ ok a)
unfolding send_message encode
send_message-Complete from (append_entries_request m) c = (_, refl)
send_message-Complete from (request_vote_request m) c = (_, refl)
send_message-Complete from (request_vote_response m) c = (_, refl)
send_message-Complete from (append_entries_response m) c = elim (Bool-cases m.success) [
  | inr refused ↦ rw refused (_, refl)
  | inl accepted ↦ elim (Option-cases m.matched_until) [
    | inl nothing ↦ absurd (c accepted nothing)
    | inr (matched, e) ↦ rw (accepted, e) (_, refl)
  ]
]

of_some : {A : Type 0} (P : A → Type 0) (x y : A) → P x → some x ≡ some y → P y
of_some P x y p e = let same : x ≡ y = cc in rw same at p

decode-Complete :
    (u : Uninitialised) (p : ProtoMessage) (msg : Message) → decode u p ≡ some msg → Complete msg
unfolding decode
decode-Complete u (ae_req m) msg e = of_some Complete _ msg tt e
decode-Complete u (ae_resp m) msg e = of_some Complete _ msg (λ accepted nothing. ground arith) e
decode-Complete u (rv_req m) msg e = of_some Complete _ msg tt e
decode-Complete u (rv_resp m) msg e = of_some Complete _ msg tt e
decode-Complete u not_set msg e = cc

-- What arrives is complete, and its sender is the one that it names.
pub receive-Complete :
    (u : Uninitialised) (a : AnnotatedMessage) (from : ℕ) (msg : Message)
    → receive u a ≡ some (from, msg)
    → (from ≡ from_int32 a.sender_id) × Complete msg
unfolding receive
receive-Complete u a from msg e = elim (Option-cases a.message) [
  | inl nothing ↦ (let f = rw (receive, nothing) at e in cc)
  | inr (p, some_message) ↦ elim (Option-cases (decode u p)) [
    | inl unset ↦ (let f = rw unset at (rw (receive, some_message) at e) in cc)
    | inr (m, decoded) ↦
        of_some (λ (z : ℕ × Message). (z.0 ≡ from_int32 a.sender_id) × Complete z.1)
          (from_int32 a.sender_id, m) (from, msg) (refl, decode-Complete u p m decoded)
          (rw decoded at (rw (receive, some_message) at e))
  ]
]
