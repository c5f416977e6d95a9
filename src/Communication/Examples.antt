-- ===== src/Communication/Examples.antt =====
-- hw2/src/worker/worker.cpp: messages of a node of the id 2 on their way.
use to_ftds.Base.{◌≡◌, some, [], ◌∷◌, arith, ok, ◌>>=◌, Returns}
use to_ftds.Consensus.Message.{AppendEntriesRequest, append_entries_request}
use to_ftds.Communication.{Uninitialised, send_message, receive}
use to_ftds.Communication.Transfer.{transfer, leader_commit_lost, arrived}

abbrev garbage : Uninitialised
garbage = record { leader_commit = 77; candidate_term = 78 }

abbrev request : AppendEntriesRequest
request = record {
  leader_term = 4;
  leader_id = 2;
  prev_log_index = 1;
  prev_log_term = 3;
  entries = record { command = 97 ∷ []; leader_term = 4 } ∷ [];
  leader_commit = 1;
}

transfer_example :
    Returns
      (λ a. receive garbage a ≡ some (2, arrived garbage (append_entries_request request)))
      (send_message 2 (append_entries_request request))
transfer_example =
    transfer garbage 2 (append_entries_request request) (omega arith)
      (omega arith, omega arith, omega arith, omega arith, ground arith)

leader_commit_lost_example :
    (send_message 2 (append_entries_request (record request { leader_commit = 9 })) >>= λ a.
    ok (receive garbage a))
    ≡ (send_message 2 (append_entries_request request) >>= λ a. ok (receive garbage a))
leader_commit_lost_example = leader_commit_lost garbage 2 9 request
