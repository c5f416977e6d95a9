-- ===== src/Cluster/LogMatching/Room.antt =====
-- hw2/src/consensus/node.cpp: the nodes of the sample are calm, and their numbers small.
use to_ftds.Base.{ℕ, ◌≡◌, ◌≢◌, ◌==◌, subst, inl, inr, arith, true, Bool-cases, List, All, contains}
use to_ftds.Timeout.{UniformTimer, uniform_timer}
use to_ftds.Consensus.State.{leader}
use to_ftds.Consensus.Message.{Message, append_entries_request, request_vote_request}
use to_ftds.Consensus.Node.{Node}
use to_ftds.Communication.Transfer.{Fits}
use to_ftds.Cluster.{Cluster}
use to_ftds.Cluster.Elections.Sample.{
  three, fresh, candidacy, running, asking, asked, granting, granted, supported, voting, heartbeat,
  leading,
}
use to_ftds.Cluster.Elections.Examples.{
  Good, Good-Calm, fresh-Good, running-Good, asking-Good, asked-Good, granting-Good, granted-Good,
  supported-Good, voting-Good, leading-Good,
}
use to_ftds.Cluster.Logs.Nodes.{Short}
use to_ftds.Cluster.Logs.Ticks.{AllEarly}
use to_ftds.Cluster.Logs.Steps.{Roomy}
use to_ftds.Cluster.LogMatching.Sample.{told, added, copy, copying, handed}

abbrev pub Fine : Node UniformTimer → Type 0
Fine n = Good n × (Short n × AllEarly n × All (λ (x : ℕ × Message). Fits x.1) n.sent)

pub Fine-Roomy :
    (c : Cluster UniformTimer)
    → Fine (c.nodes 1)
    → Fine (c.nodes 2)
    → Fine (c.nodes 3)
    → Roomy three 1 c
Fine-Roomy c (ga, a) (gb, b) (gd, d) = (Good-Calm c ga gb gd, λ i known. room i known)
  where
    Room : Node UniformTimer → Type 0
    Room n = Short n × AllEarly n × All (λ (x : ℕ × Message). Fits x.1) n.sent

    room : (i : ℕ) → contains i three ≡ true → Room (c.nodes i)
    room i known = elim (Bool-cases (1 == i)) [
      | inl first ↦ let e : 1 ≡ i = ground arith in subst (λ k. Room (c.nodes k)) e a
      | inr other ↦ elim (Bool-cases (2 == i)) [
        | inl second ↦ let e : 2 ≡ i = ground arith in subst (λ k. Room (c.nodes k)) e b
        | inr another ↦ let e : 3 ≡ i = ground arith in subst (λ k. Room (c.nodes k)) e d
      ]
    ]

pub candidacy-Fits : Fits (request_vote_request candidacy)
candidacy-Fits = (omega arith, omega arith, omega arith, omega arith)

pub heartbeat-Fits : Fits (append_entries_request heartbeat)
heartbeat-Fits = (omega arith, omega arith, omega arith, omega arith, tt)

pub copy-Fits : Fits (append_entries_request copy)
copy-Fits = (omega arith, omega arith, omega arith, omega arith, (omega arith, tt))

added-Good : Good added
added-Good = (
  record {
    append_entries_requests = (omega arith, tt);
    request_vote_requests = tt;
    append_entries_responses = (omega arith, tt);
    request_vote_responses = tt;
  },
  omega arith,
  λ e. tt,
)

copying-Good : (rest : List (ℕ × Message)) → Good (record copying { sent = rest })
copying-Good rest = (
  record {
    append_entries_requests = (omega arith, tt);
    request_vote_requests = tt;
    append_entries_responses = (omega arith, tt);
    request_vote_responses = tt;
  },
  omega arith,
  λ e. tt,
)

told-Good : Good told
told-Good = (
  record {
    append_entries_requests = (omega arith, tt);
    request_vote_requests = tt;
    append_entries_responses = tt;
    request_vote_responses = tt;
  },
  omega arith,
  λ e. tt,
)

handed-Good : Good handed
handed-Good = (
  record {
    append_entries_requests = (omega arith, tt);
    request_vote_requests = tt;
    append_entries_responses = tt;
    request_vote_responses = tt;
  },
  omega arith,
  λ e. absurd (follows e),
)
  where
    follows : handed.role ≢ leader
    follows e = cc

pub fresh-Fine : (i : ℕ) → Fine (fresh i)
fresh-Fine i = (fresh-Good i, (omega arith, tt, tt))

pub running-Fine : Fine running
running-Fine = (running-Good, (omega arith, tt, (candidacy-Fits, (candidacy-Fits, tt))))

pub asking-Fine : Fine asking
asking-Fine = (asking-Good, (omega arith, tt, (candidacy-Fits, tt)))

pub asked-Fine : Fine asked
asked-Fine = (asked-Good, (omega arith, tt, tt))

pub granting-Fine : Fine granting
granting-Fine = (granting-Good, (omega arith, tt, ((omega arith, omega arith), tt)))

pub granted-Fine : Fine granted
granted-Fine = (granted-Good, (omega arith, tt, tt))

pub supported-Fine : Fine supported
supported-Fine = (supported-Good, (omega arith, tt, (candidacy-Fits, tt)))

pub voting-Fine : Fine voting
voting-Fine = (voting-Good, (omega arith, tt, (candidacy-Fits, tt)))

pub leading-Fine : Fine leading
leading-Fine = (
  leading-Good,
  (omega arith, (omega arith, tt), (candidacy-Fits, (heartbeat-Fits, (heartbeat-Fits, tt)))),
)

pub told-Fine : Fine told
told-Fine = (
  told-Good,
  (omega arith, (omega arith, tt), (candidacy-Fits, (heartbeat-Fits, (heartbeat-Fits, tt)))),
)

pub added-Fine : Fine added
added-Fine = (
  added-Good,
  (
    omega arith,
    (omega arith, tt),
    (candidacy-Fits, (heartbeat-Fits, (heartbeat-Fits, (heartbeat-Fits, (heartbeat-Fits, tt))))),
  ),
)

pub copying-Fine :
    (rest : List (ℕ × Message))
    → All (λ (x : ℕ × Message). Fits x.1) rest
    → Fine (record copying { sent = rest })
copying-Fine rest fits = (copying-Good rest, (omega arith, (omega arith, tt), fits))

pub handed-Fine : Fine handed
handed-Fine = (handed-Good, (omega arith, (omega arith, tt), tt))
