-- ===== src/Communication.antt =====
-- The classes `CommunicationImpl` and `OtherNodesMessageSender` of hw2/src/worker/worker.cpp over
-- hw2/src/worker/communication.proto: a message on its way from one node to another. gRPC and the
-- coding of the proto types to bytes are left out: what is sent is what is received. A proto `int32`
-- is its 32 bits, as a number.
pub mod Transfer
mod Examples
use to_ftds.Base.{
  ℕ, ◌+◌, ◌-◌, ◌%◌, ◌^◌, ltb, if◌then◌else◌, Bool, true, false, List, [], ◌∷◌, Option, none, some,
  Outcome, ok, fault, bad_optional, ◌>>=◌,
}
use to_ftds.Consensus.State.{LogItem, Log}
use to_ftds.Consensus.Message.{
  AppendEntriesRequest, AppendEntriesResponse, RequestVoteRequest, RequestVoteResponse, Message,
  append_entries_request, append_entries_response, request_vote_request, request_vote_response,
}

-- `uint64_t` to `int32`, and `int32` to `uint64_t`, with the sign.
abbrev pub to_int32 : ℕ → ℕ
to_int32 x = x % 2 ^ 32

abbrev pub from_int32 : ℕ → ℕ
from_int32 x = if ltb x (2 ^ 31) then x else x + 2 ^ 64 - 2 ^ 32

pub record Item : Type 0 where
  pub command : List ℕ
  pub leader_term : ℕ

pub record AeReq : Type 0 where
  pub leader_term : ℕ
  pub leader_id : ℕ
  pub prev_log_index : ℕ
  pub prev_log_term : ℕ
  pub item : List Item
  pub leader_commit : ℕ

pub record AeResp : Type 0 where
  pub current_term : ℕ
  pub success : Bool
  pub matched_until : ℕ

pub record RvReq : Type 0 where
  pub candidate_term : ℕ
  pub candidate_id : ℕ
  pub candidate_last_log_index : ℕ
  pub candidate_last_log_term : ℕ

pub record RvResp : Type 0 where
  pub current_term : ℕ
  pub vote_granted : Bool
  pub candidate_term : ℕ

-- The `oneof` of `message Message`.
pub data ProtoMessage : Type 0 where
  ae_req : AeReq → ProtoMessage
  ae_resp : AeResp → ProtoMessage
  rv_req : RvReq → ProtoMessage
  rv_resp : RvResp → ProtoMessage
  not_set : ProtoMessage

pub record AnnotatedMessage : Type 0 where
  pub message : Option ProtoMessage
  pub sender_id : ℕ

unfoldable pub encode_items : Log → List Item
encode_items [] = []
encode_items (e ∷ es) =
    record { command = e.command; leader_term = to_int32 e.leader_term } ∷ encode_items es

-- A field that is not set is 0. `matched_until.value()` throws on an empty optional.
unfoldable pub encode : Message → Outcome ProtoMessage
unfolding encode_items
encode (append_entries_request arg) = ok (
    ae_req (record {
      leader_term = to_int32 arg.leader_term;
      leader_id = to_int32 arg.leader_id;
      prev_log_index = to_int32 arg.prev_log_index;
      prev_log_term = to_int32 arg.prev_log_term;
      item = encode_items arg.entries;
      leader_commit = to_int32 arg.leader_commit;
    }))
encode (request_vote_request arg) = ok (
    rv_req (record {
      candidate_term = to_int32 arg.candidate_term;
      candidate_id = to_int32 arg.candidate_id;
      candidate_last_log_index = to_int32 arg.candidate_last_log_index;
      candidate_last_log_term = to_int32 arg.candidate_last_log_term;
    }))
encode (append_entries_response arg) =
    if arg.success
    then elim arg.matched_until [
      | none ↦ fault bad_optional
      | some matched ↦ ok (
          ae_resp (record {
            current_term = to_int32 arg.current_term;
            success = true;
            matched_until = to_int32 matched;
          }))
    ]
    else ok (
        ae_resp
          (record { current_term = to_int32 arg.current_term; success = false; matched_until = 0 }))
encode (request_vote_response arg) = ok (
    rv_resp (record {
      current_term = to_int32 arg.current_term;
      vote_granted = arg.vote_granted;
      candidate_term = to_int32 arg.candidate_term;
    }))

-- `OtherNodesMessageSender::Send`, up to the call of the other node.
unfoldable pub send_message : ℕ → Message → Outcome AnnotatedMessage
send_message from message =
    encode message >>= λ p. ok (record { message = some p; sender_id = to_int32 from })

-- The members that the receiver leaves uninitialised.
pub record Uninitialised : Type 0 where
  pub leader_commit : ℕ
  pub candidate_term : ℕ

-- The cast to `uint32_t` keeps the bits.
unfoldable pub decode_items : List Item → Log
decode_items [] = []
decode_items (i ∷ is) =
    record { command = i.command; leader_term = i.leader_term } ∷ decode_items is

-- `none`: the message is empty. `leader_commit` is never read.
unfoldable pub decode : Uninitialised → ProtoMessage → Option Message
unfolding decode_items
decode u (ae_req req) = some (
    append_entries_request (record {
      leader_term = from_int32 req.leader_term;
      leader_id = from_int32 req.leader_id;
      prev_log_index = from_int32 req.prev_log_index;
      prev_log_term = from_int32 req.prev_log_term;
      entries = decode_items req.item;
      leader_commit = u.leader_commit;
    }))
decode u (ae_resp resp) = some (
    append_entries_response (record {
      current_term = from_int32 resp.current_term;
      success = resp.success;
      matched_until = if resp.success then some (from_int32 resp.matched_until) else none;
    }))
decode u (rv_req req) = some (
    request_vote_request (record {
      candidate_term = from_int32 req.candidate_term;
      candidate_id = from_int32 req.candidate_id;
      candidate_last_log_index = from_int32 req.candidate_last_log_index;
      candidate_last_log_term = from_int32 req.candidate_last_log_term;
    }))
decode u (rv_resp resp) = some (
    request_vote_response (record {
      current_term = from_int32 resp.current_term;
      vote_granted = resp.vote_granted;
      candidate_term =
          if resp.vote_granted then from_int32 resp.candidate_term else u.candidate_term;
    }))
decode u not_set = none

-- `SendAnnotatedMessage`: what is handed to the sender, or `none` where the call is cancelled.
unfoldable pub receive : Uninitialised → AnnotatedMessage → Option (ℕ × Message)
receive u m = elim m.message [
  | none ↦ none
  | some p ↦ elim (decode u p) [
    | none ↦ none
    | some message ↦ some (from_int32 m.sender_id, message)
  ]
]
