-- ===== src/Cluster/LogMatching/Examples.antt =====
-- hw2/src/worker/worker.cpp and hw2/src/consensus/node.cpp: the leader of the cluster of three takes a command
-- and sends it to the second node.
use to_ftds.Base.{◌≡◌, refl, arith, [], ◌∷◌, ok, take}
use to_ftds.Timeout.{uniform_timer}
use to_ftds.Consensus.Message.{append_entries_request, request_vote_request, request_vote_response}
use to_ftds.Consensus.Node.{new_node, add_message, add_command, get_log}
use to_ftds.Consensus.Examples.Single.{run, once}
use to_ftds.Communication.{send_message, encode, encode_items, receive, decode, decode_items}
use to_ftds.Cluster.{ticks, takes, sends, arrives}
use to_ftds.Cluster.Elections.Sample.{
  three, timers, fresh, candidacy, vote, running, asked, granting, supported, voting, heartbeat,
  leading, vote_request, vote_response, memory,
}
use to_ftds.Cluster.Elections.Examples.{
  first_round, second_votes, second_round, third_round, c0, c1, c2, c3, c4, c5, c6, c7, c8,
}
use to_ftds.Cluster.Elections.Steps.{StepsThrough, stays, goes}
use to_ftds.Cluster.Logs.Steps.{Roomy}
use to_ftds.Cluster.LogMatching.{log_matching}
use to_ftds.Cluster.LogMatching.Room.{
  Fine-Roomy, candidacy-Fits, heartbeat-Fits, copy-Fits, fresh-Fine, running-Fine, asking-Fine,
  asked-Fine, granting-Fine, granted-Fine, supported-Fine, voting-Fine, leading-Fine, told-Fine,
  added-Fine, copying-Fine, handed-Fine,
}
use to_ftds.Cluster.LogMatching.Sample.{
  item, told, added, copy, copying, handed, copied, on_the_way, beat, d9, d10, d11, d12, d13, d14,
  d15, d16, d17, others, d18, d19,
}

fourth_round : run told 1 ≡ ok added
unfolding run
fourth_round = refl

fifth_round : run added 1 ≡ ok copying
unfolding run
fifth_round = refl

second_copies : run handed 1 ≡ ok copied
unfolding run
second_copies = refl

-- Until the leader has the command in its log.
until_added : StepsThrough three (Roomy three 1) c0 d11
unfolding send_message receive encode decode encode_items decode_items add_message add_command
    new_node
until_added =
    goes
      (goes
        (goes
          (goes
            (goes
              (goes
                (goes
                  (goes
                    (goes
                      (goes
                        (goes stays (Fine-Roomy c0 (fresh-Fine 1) (fresh-Fine 2) (fresh-Fine 3))
                          (ticks c0 1 running (once (fresh 1) running first_round)))
                        (Fine-Roomy c1 running-Fine (fresh-Fine 2) (fresh-Fine 3))
                        (sends c1 1 2 (request_vote_request candidacy)
                          ((3, request_vote_request candidacy) ∷ []) vote_request refl refl refl))
                      (Fine-Roomy c2 asking-Fine (fresh-Fine 2) (fresh-Fine 3))
                      (arrives c2 memory [] [] 2 vote_request 1 (request_vote_request candidacy)
                        refl refl))
                    (Fine-Roomy c3 asking-Fine asked-Fine (fresh-Fine 3))
                    (ticks c3 2 granting (once asked granting second_votes)))
                  (Fine-Roomy c4 asking-Fine granting-Fine (fresh-Fine 3))
                  (sends c4 2 1 (request_vote_response vote) [] vote_response refl refl refl))
                (Fine-Roomy c5 asking-Fine granted-Fine (fresh-Fine 3))
                (arrives c5 memory [] [] 1 vote_response 2 (request_vote_response vote) refl refl))
              (Fine-Roomy c6 supported-Fine granted-Fine (fresh-Fine 3))
              (ticks c6 1 voting (once supported voting second_round)))
            (Fine-Roomy c7 voting-Fine granted-Fine (fresh-Fine 3))
            (ticks c7 1 leading (once voting leading third_round)))
          (Fine-Roomy c8 leading-Fine granted-Fine (fresh-Fine 3)) (takes c8 1 (7 ∷ [])))
        (Fine-Roomy d9 told-Fine granted-Fine (fresh-Fine 3))
        (ticks d9 1 added (once told added fourth_round)))
      (Fine-Roomy d10 added-Fine granted-Fine (fresh-Fine 3))
      (ticks d10 1 copying (once added copying fifth_round))

-- Until the second node has it.
until_copied : StepsThrough three (Roomy three 1) d11 d19
unfolding send_message receive encode decode encode_items decode_items add_message new_node
until_copied =
    goes
      (goes
        (goes
          (goes
            (goes
              (goes
                (goes
                  (goes stays
                    (Fine-Roomy d11
                      (copying-Fine _ (
                        candidacy-Fits,
                        (
                          heartbeat-Fits,
                          (
                            heartbeat-Fits,
                            (heartbeat-Fits, (heartbeat-Fits, (copy-Fits, (copy-Fits, tt)))),
                          ),
                        ),
                      ))
                      granted-Fine (fresh-Fine 3))
                    (sends d11 1 3 (request_vote_request candidacy)
                      ((2, append_entries_request heartbeat)
                        ∷ (3, append_entries_request heartbeat)
                        ∷ (2, append_entries_request heartbeat)
                        ∷ (3, append_entries_request heartbeat)
                        ∷ (2, append_entries_request copy)
                        ∷ (3, append_entries_request copy)
                        ∷ [])
                      (vote_request) refl refl refl))
                  (Fine-Roomy d12
                    (copying-Fine _ (
                      heartbeat-Fits,
                      (
                        heartbeat-Fits,
                        (heartbeat-Fits, (heartbeat-Fits, (copy-Fits, (copy-Fits, tt)))),
                      ),
                    ))
                    granted-Fine (fresh-Fine 3))
                  (sends d12 1 2 (append_entries_request heartbeat)
                    ((3, append_entries_request heartbeat)
                      ∷ (2, append_entries_request heartbeat)
                      ∷ (3, append_entries_request heartbeat)
                      ∷ (2, append_entries_request copy)
                      ∷ (3, append_entries_request copy)
                      ∷ [])
                    (beat) refl refl refl))
                (Fine-Roomy d13
                  (copying-Fine _ (
                    heartbeat-Fits,
                    (heartbeat-Fits, (heartbeat-Fits, (copy-Fits, (copy-Fits, tt)))),
                  ))
                  granted-Fine (fresh-Fine 3))
                (sends d13 1 3 (append_entries_request heartbeat)
                  ((2, append_entries_request heartbeat)
                    ∷ (3, append_entries_request heartbeat)
                    ∷ (2, append_entries_request copy)
                    ∷ (3, append_entries_request copy)
                    ∷ [])
                  (beat) refl refl refl))
              (Fine-Roomy d14
                (copying-Fine _ (heartbeat-Fits, (heartbeat-Fits, (copy-Fits, (copy-Fits, tt)))))
                granted-Fine (fresh-Fine 3))
              (sends d14 1 2 (append_entries_request heartbeat)
                ((3, append_entries_request heartbeat)
                  ∷ (2, append_entries_request copy)
                  ∷ (3, append_entries_request copy)
                  ∷ [])
                (beat) refl refl refl))
            (Fine-Roomy d15 (copying-Fine _ (heartbeat-Fits, (copy-Fits, (copy-Fits, tt))))
              granted-Fine (fresh-Fine 3))
            (sends d15 1 3 (append_entries_request heartbeat)
              ((2, append_entries_request copy) ∷ (3, append_entries_request copy) ∷ []) (beat) refl
              refl refl))
          (Fine-Roomy d16 (copying-Fine _ (copy-Fits, (copy-Fits, tt))) granted-Fine (fresh-Fine 3))
          (sends d16 1 2 (append_entries_request copy) ((3, append_entries_request copy) ∷ [])
            (on_the_way (item ∷ [])) refl refl refl))
        (Fine-Roomy d17 (copying-Fine _ (copy-Fits, tt)) granted-Fine (fresh-Fine 3))
        (arrives d17 memory others [] 2 (on_the_way (item ∷ [])) 1 (append_entries_request copy)
          refl refl))
      (Fine-Roomy d18 (copying-Fine _ (copy-Fits, tt)) handed-Fine (fresh-Fine 3))
      (ticks d18 2 copied (once handed copied second_copies))

log_matching_example : take 2 (get_log copying) ≡ take 2 (get_log copied)
log_matching_example =
    log_matching three 1 timers 1 2 1 item item
      ((omega arith, (omega arith, tt)), ((omega arith, tt), (tt, tt)))
      (omega arith, (omega arith, (omega arith, tt))) (omega arith) until_added until_copied refl
      refl refl refl refl
