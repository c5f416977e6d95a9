-- ===== src/Cluster/Elections/Examples.antt =====
-- hw2/src/worker/worker.cpp and hw2/src/consensus/node.cpp: a cluster of three elects its first node.
use to_ftds.Base.{
  subst, ℕ, ◌≤◌, ◌≡◌, ◌≢◌, ◌==◌, refl, inl, inr, arith, Bool-cases, List, [], ◌∷◌, ok,
}
use to_ftds.Timeout.{UniformTimer, uniform_timer}
use to_ftds.Consensus.State.{leader}
use to_ftds.Consensus.Message.{Message, request_vote_request, request_vote_response}
use to_ftds.Consensus.Node.{Node, new_node, add_message, add_command, get_current_term}
use to_ftds.Consensus.Terms.Messages.{MessagesBelow}
use to_ftds.Consensus.Examples.Single.{run, once}
use to_ftds.Communication.{AnnotatedMessage, send_message, encode, receive, decode}
use to_ftds.Cluster.{Cluster, constructed, put, ticks, takes, sends, arrives}
use to_ftds.Cluster.Ballots.Ticks.{Unasked}
use to_ftds.Cluster.Elections.{one_leader}
use to_ftds.Cluster.Elections.Sample.{
  vote_request, vote_response, memory, three, timers, fresh, candidacy, vote, running, asking,
  asked, granting, granted, supported, voting, leading,
}
use to_ftds.Cluster.Elections.Steps.{Calm, CalmSteps, stays, goes}

pub first_round : run (fresh 1) 1 ≡ ok running
unfolding run
first_round = refl

pub second_votes : run asked 1 ≡ ok granting
unfolding run
second_votes = refl

pub second_round : run supported 1 ≡ ok voting
unfolding run
second_round = refl

pub third_round : run voting 1 ≡ ok leading
unfolding run
third_round = refl

abbrev pub Good : Node UniformTimer → Type 0
Good n = MessagesBelow 1 n × (get_current_term n ≤ 1) × Unasked n

pub Good-Calm :
    (c : Cluster UniformTimer)
    → Good (c.nodes 1)
    → Good (c.nodes 2)
    → Good (c.nodes 3)
    → Calm three 1 c
Good-Calm c a b d i known = elim (Bool-cases (1 == i)) [
  | inl first ↦ let e : 1 ≡ i = ground arith in subst (λ k. Good (c.nodes k)) e a
  | inr other ↦ elim (Bool-cases (2 == i)) [
    | inl second ↦ let e : 2 ≡ i = ground arith in subst (λ k. Good (c.nodes k)) e b
    | inr another ↦ let e : 3 ≡ i = ground arith in subst (λ k. Good (c.nodes k)) e d
  ]
]

-- What waits is empty, or of term 1.
Good-below :
    (n : Node UniformTimer) → get_current_term n ≤ 1 → MessagesBelow 1 n → n.role ≢ leader → Good n
Good-below n term messages follows = (messages, term, λ e. absurd (follows e))

pub fresh-Good : (i : ℕ) → Good (fresh i)
fresh-Good i =
    Good-below (fresh i) (omega arith)
      (record {
        append_entries_requests = tt;
        request_vote_requests = tt;
        append_entries_responses = tt;
        request_vote_responses = tt;
      })
      (λ e. cc)

pub running-Good : Good running
running-Good =
    Good-below running (omega arith)
      (record {
        append_entries_requests = tt;
        request_vote_requests = (omega arith, tt);
        append_entries_responses = tt;
        request_vote_responses = tt;
      })
      (λ e. cc)

-- What was sent does not matter.
pub Good-sent :
    (n : Node UniformTimer) (rest : List (ℕ × Message)) → Good n → Good (record n { sent = rest })
Good-sent n rest (messages, term, unasked) = (
  record {
    append_entries_requests = messages.append_entries_requests;
    request_vote_requests = messages.request_vote_requests;
    append_entries_responses = messages.append_entries_responses;
    request_vote_responses = messages.request_vote_responses;
  },
  term,
  unasked,
)

pub asking-Good : Good asking
asking-Good = Good-sent running _ running-Good

pub asked-Good : Good asked
asked-Good =
    Good-below asked (omega arith)
      (record {
        append_entries_requests = tt;
        request_vote_requests = (omega arith, tt);
        append_entries_responses = tt;
        request_vote_responses = tt;
      })
      (λ e. cc)

pub granting-Good : Good granting
granting-Good =
    Good-below granting (omega arith)
      (record {
        append_entries_requests = tt;
        request_vote_requests = tt;
        append_entries_responses = tt;
        request_vote_responses = tt;
      })
      (λ e. cc)

pub granted-Good : Good granted
granted-Good = Good-sent granting _ granting-Good

pub supported-Good : Good supported
supported-Good =
    Good-below supported (omega arith)
      (record {
        append_entries_requests = tt;
        request_vote_requests = (omega arith, tt);
        append_entries_responses = tt;
        request_vote_responses = (omega arith, tt);
      })
      (λ e. cc)

pub voting-Good : Good voting
voting-Good =
    Good-below voting (omega arith)
      (record {
        append_entries_requests = tt;
        request_vote_requests = tt;
        append_entries_responses = tt;
        request_vote_responses = (omega arith, tt);
      })
      (λ e. cc)

pub leading-Good : Good leading
leading-Good = (
  record {
    append_entries_requests = (omega arith, tt);
    request_vote_requests = tt;
    append_entries_responses = tt;
    request_vote_responses = tt;
  },
  omega arith,
  λ e. tt,
)

abbrev pub after :
    (ℕ → Node UniformTimer)
    → ℕ
    → Node UniformTimer
    → List (ℕ × AnnotatedMessage)
    → Cluster UniformTimer
after nodes i n network = record { nodes = put nodes i n; network = network }

abbrev pub c0 : Cluster UniformTimer
c0 = constructed three timers

abbrev pub c1 : Cluster UniformTimer
c1 = after c0.nodes 1 running []

abbrev pub c2 : Cluster UniformTimer
c2 = after c1.nodes 1 asking ((2, vote_request) ∷ [])

abbrev pub c3 : Cluster UniformTimer
c3 = after c2.nodes 2 asked []

abbrev pub c4 : Cluster UniformTimer
c4 = after c3.nodes 2 granting []

abbrev pub c5 : Cluster UniformTimer
c5 = after c4.nodes 2 granted ((1, vote_response) ∷ [])

abbrev pub c6 : Cluster UniformTimer
c6 = after c5.nodes 1 supported []

abbrev pub c7 : Cluster UniformTimer
c7 = after c6.nodes 1 voting []

abbrev pub c8 : Cluster UniformTimer
c8 = after c7.nodes 1 leading []

abbrev pub c9 : Cluster UniformTimer
c9 = record c8 { nodes = put c8.nodes 2 (add_command (c8.nodes 2) (7 ∷ [])).0 }

-- The vote of node 2 is asked for and arrives.
until_vote : CalmSteps three 1 c0 c6
unfolding send_message receive encode decode add_message new_node
until_vote =
    goes
      (goes
        (goes
          (goes
            (goes
              (goes stays (Good-Calm c0 (fresh-Good 1) (fresh-Good 2) (fresh-Good 3))
                (ticks c0 1 running (once (fresh 1) running first_round)))
              (Good-Calm c1 running-Good (fresh-Good 2) (fresh-Good 3))
              (sends c1 1 2 (request_vote_request candidacy)
                ((3, request_vote_request candidacy) ∷ []) vote_request refl refl refl))
            (Good-Calm c2 asking-Good (fresh-Good 2) (fresh-Good 3))
            (arrives c2 memory [] [] 2 vote_request 1 (request_vote_request candidacy) refl refl))
          (Good-Calm c3 asking-Good asked-Good (fresh-Good 3))
          (ticks c3 2 granting (once asked granting second_votes)))
        (Good-Calm c4 asking-Good granting-Good (fresh-Good 3))
        (sends c4 2 1 (request_vote_response vote) [] vote_response refl refl refl))
      (Good-Calm c5 asking-Good granted-Good (fresh-Good 3))
      (arrives c5 memory [] [] 1 vote_response 2 (request_vote_response vote) refl refl)

pub until_leader : CalmSteps three 1 c0 c8
unfolding new_node
until_leader =
    goes
      (goes until_vote (Good-Calm c6 supported-Good granted-Good (fresh-Good 3))
        (ticks c6 1 voting (once supported voting second_round)))
      (Good-Calm c7 voting-Good granted-Good (fresh-Good 3))
      (ticks c7 1 leading (once voting leading third_round))

one_leader_example : ◌≡◌ {A = ℕ} 1 1
unfolding new_node add_command
one_leader_example =
    one_leader three 1 timers 1 1
      (((omega arith, (omega arith, tt)), ((omega arith, tt), (tt, tt))))
      (omega arith, (omega arith, (omega arith, tt))) (omega arith) until_leader
      (goes stays (Good-Calm c8 leading-Good granted-Good (fresh-Good 3)) (takes c8 2 (7 ∷ [])))
      refl refl refl refl refl
