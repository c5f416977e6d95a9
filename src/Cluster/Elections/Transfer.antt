-- ===== src/Cluster/Elections/Transfer.antt =====
-- hw2/src/worker/worker.cpp: the messages about votes on their way.
use to_ftds.Base.{
  ℕ, ◌^◌, ◌<◌, ◌≡◌, ◌≢◌, refl, ap, inl, inr, true, Bool-cases, some, Option-cases, Outcome, ok,
  fault, ◌>>=◌, arith,
}
use to_ftds.Consensus.Message.{
  Message, append_entries_request, append_entries_response, request_vote_request,
  request_vote_response,
}
use to_ftds.Communication.{
  to_int32, from_int32, ProtoMessage, ae_req, ae_resp, rv_req, rv_resp, not_set, AnnotatedMessage,
  encode, send_message, Uninitialised, decode, receive,
}
use to_ftds.Cluster.Ballots.{History, Canonical, Ready}
use to_ftds.Cluster.Ballots.Sending.{Arrives}

-- A request names its sender as the candidate; the vote of a response was granted.
abbrev Carried : History → ℕ → ℕ → ProtoMessage → Type 0
Carried H sender who (ae_req m) = Unit
Carried H sender who (ae_resp m) = Unit
Carried H sender who (rv_req m) = (m.candidate_id ≡ sender) × (m.candidate_term < 2 ^ 32)
Carried H sender who (rv_resp m) =
    m.vote_granted ≡ true → H (from_int32 sender) (from_int32 m.candidate_term) who
Carried H sender who not_set = Unit

abbrev pub Backed : History → ℕ × AnnotatedMessage → Type 0
Backed H (who, a) = (p : ProtoMessage) → a.message ≡ some p → Carried H a.sender_id who p

Carried-mono :
    (H K : History)
    → ((v t c : ℕ) → H v t c → K v t c)
    → (sender who : ℕ) (p : ProtoMessage) → Carried H sender who p
    → Carried K sender who p
Carried-mono H K keeps sender who (ae_req m) h = tt
Carried-mono H K keeps sender who (ae_resp m) h = tt
Carried-mono H K keeps sender who (rv_req m) h = h
Carried-mono H K keeps sender who (rv_resp m) h = λ granted. keeps _ _ who (h granted)
Carried-mono H K keeps sender who not_set h = tt

pub Backed-mono :
    (H K : History)
    → ((v t c : ℕ) → H v t c → K v t c)
    → (x : ℕ × AnnotatedMessage) → Backed H x
    → Backed K x
Backed-mono H K keeps (who, a) h = λ p e. Carried-mono H K keeps a.sender_id who p (h p e)

of_ok :
    {A B : Type 0} (P : B → Type 0) (f : A → B) (r : Outcome A) (b : B)
    → ((a : A) → r ≡ ok a → P (f a))
    → (r >>= λ a. ok (f a)) ≡ ok b
    → P b
of_ok P f (ok a) b h e = let same : f a ≡ b = cc in rw same at (h a refl)
of_ok P f (fault x) b h e = cc

of_some : {A : Type 0} (P : A → Type 0) (x y : A) → P x → some x ≡ some y → P y
of_some P x y p e = let same : x ≡ y = cc in rw same at p

of_same_ok : {A : Type 0} (P : A → Type 0) (x y : A) → P x → ok x ≡ ok y → P y
of_same_ok P x y p e = let same : x ≡ y = cc in rw same at p

encode-Carried :
    (H : History) (i who : ℕ) (msg : Message) (p : ProtoMessage)
    → from_int32 (to_int32 i) ≡ i
    → who ≢ i
    → Ready H i who msg
    → encode msg ≡ ok p
    → Carried H (to_int32 i) who p
unfolding encode
encode-Carried H i who (append_entries_request m) p small other r e =
    of_same_ok (Carried H (to_int32 i) who) _ p tt e
encode-Carried H i who (append_entries_response m) p small other r e = elim (Bool-cases m.success) [
  | inr failed ↦ of_same_ok (Carried H (to_int32 i) who) _ p tt (rw failed at e)
  | inl success ↦ elim (Option-cases m.matched_until) [
    | inl nothing ↦ (let f = rw (success, nothing) at e in cc)
    | inr (k, matched) ↦ of_same_ok (Carried H (to_int32 i) who) _ p tt (rw (success, matched) at e)
  ]
]
encode-Carried H i who (request_vote_request m) p small other r e =
    of_same_ok (Carried H (to_int32 i) who) _ p (ap to_int32 r, omega arith) e
encode-Carried H i who (request_vote_response m) p small other r e =
    of_same_ok (Carried H (to_int32 i) who) _ p
      (λ granted.
        let (vote, fits) = r granted in
        rw small (elim fits [ inl self ↦ absurd (other self) | inr canonical ↦ rw canonical vote ]))
      e

pub send_message-Backed :
    (H : History) (i who : ℕ) (msg : Message) (a : AnnotatedMessage)
    → from_int32 (to_int32 i) ≡ i
    → who ≢ i
    → Ready H i who msg
    → send_message i msg ≡ ok a
    → Backed H (who, a)
unfolding send_message
send_message-Backed H i who msg a small other r e =
    of_ok (λ a. Backed H (who, a)) _ (encode msg) a
      (λ p coded q same.
        of_some (Carried H (to_int32 i) who) p q (encode-Carried H i who msg p small other r coded)
          same)
      e

again : (x : ℕ) → x < 2 ^ 32 → Canonical (from_int32 x)
again x h = ground arith

decode-Arrives :
    (H : History) (sender who : ℕ) (u : Uninitialised) (p : ProtoMessage) (msg : Message)
    → Carried H sender who p
    → decode u p ≡ some msg
    → Arrives H who (from_int32 sender) msg
unfolding decode
decode-Arrives H sender who u (ae_req m) msg c e =
    of_some (Arrives H who (from_int32 sender)) _ msg tt e
decode-Arrives H sender who u (ae_resp m) msg c e =
    of_some (Arrives H who (from_int32 sender)) _ msg tt e
decode-Arrives H sender who u (rv_req m) msg c e =
    of_some (Arrives H who (from_int32 sender)) _ msg
      (ap from_int32 c.0, inr (again m.candidate_term c.1)) e
decode-Arrives H sender who u (rv_resp m) msg c e =
    of_some (Arrives H who (from_int32 sender)) _ msg (λ granted. rw granted (c granted)) e
decode-Arrives H sender who u not_set msg c e = cc

pub receive-Arrives :
    (H : History) (u : Uninitialised) (who : ℕ) (a : AnnotatedMessage) (from : ℕ) (msg : Message)
    → Backed H (who, a)
    → receive u a ≡ some (from, msg)
    → Arrives H who from msg
unfolding receive
receive-Arrives H u who a from msg b e = elim (Option-cases a.message) [
  | inl nothing ↦ (let f = rw (receive, nothing) at e in cc)
  | inr (p, there) ↦ elim (Option-cases (decode u p)) [
    | inl unset ↦ (let f = rw unset at (rw (receive, there) at e) in cc)
    | inr (m, decoded) ↦
        of_some (λ (z : ℕ × Message). Arrives H who z.0 z.1) (from_int32 a.sender_id, m) (from, msg)
          (decode-Arrives H a.sender_id who u p m (b p there) decoded)
          (rw decoded at (rw (receive, there) at e))
  ]
]
