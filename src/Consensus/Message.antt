-- ===== src/Consensus/Message.antt =====
-- hw2/src/consensus/message.h: what nodes send to one another.
use to_ftds.Base.{ℕ, Bool, Option}
use to_ftds.Consensus.State.{Log}

pub record AppendEntriesRequest : Type 0 where
  pub leader_term : ℕ
  pub leader_id : ℕ
  pub prev_log_index : ℕ
  pub prev_log_term : ℕ
  pub entries : Log
  pub leader_commit : ℕ

pub record AppendEntriesResponse : Type 0 where
  pub current_term : ℕ
  pub success : Bool
  pub matched_until : Option ℕ

pub record RequestVoteRequest : Type 0 where
  pub candidate_term : ℕ
  pub candidate_id : ℕ
  pub candidate_last_log_index : ℕ
  pub candidate_last_log_term : ℕ

pub record RequestVoteResponse : Type 0 where
  pub current_term : ℕ
  pub vote_granted : Bool
  pub candidate_term : ℕ

pub data Message : Type 0 where
  append_entries_request : AppendEntriesRequest → Message
  append_entries_response : AppendEntriesResponse → Message
  request_vote_request : RequestVoteRequest → Message
  request_vote_response : RequestVoteResponse → Message
