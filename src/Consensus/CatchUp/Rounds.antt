-- ===== src/Consensus/CatchUp/Rounds.antt =====
-- hw2/src/consensus/node.cpp: a sequence of append requests and answers.
use to_ftds.Base.{ℕ, zero, suc, ◌≤◌, ◌≡◌, refl, inl, inr, some, arith, Returns, take, nat_key}
use to_ftds.Timeout.{ITimeout}
use to_ftds.Consensus.State.{LeaderState}
use to_ftds.Consensus.Node.{Node, get_current_term, get_log}
use to_ftds.Consensus.Node.Responses.{step_back}
use to_ftds.Consensus.CatchUp.{AgreeAt, rounds, Exchange, CaughtUp}
use to_ftds.Consensus.CatchUp.Round.{round-step}
use to_ftds.Consensus.Retreat.{step_back-next}

module _ {T : Type 0} ⦃timer : ITimeout T⦄ where
  stepped_back :
      (id i : ℕ) (ls : LeaderState) (l f l' f' : Node T)
      → Exchange id (suc i) ls l f
      → l' ≡ record l { leader_state = some (step_back ls id) }
      → get_current_term f' ≡ get_current_term l
      → Exchange id i (step_back ls id) l' f'
  unfolding step_back
  stepped_back id i ls l f l' f' x e t = rw e (record {
    leads = x.leads;
    has_state = refl;
    next = step_back-next id (suc i) ls x.next (omega (arith, x.in_log, x.fits));
    in_log = omega (arith, x.in_log);
    fits = x.fits;
    known = x.known;
    terms = omega arith;
  })

  -- Where the logs of a leader and of a follower of no later term agree up to every index at
  -- which both have an item of one term, and have the same first item, and the leader sends from
  -- item i on next: after at most i + 1 requests, each handled by the follower and its answer by
  -- the leader, the follower's log up to the length of the leader's is the leader's, and the
  -- leader knows it. The index i lies in the leader's log, which has fewer than 2^64 items and a
  -- match_index within it.
  pub follower_catches_up :
      (id i : ℕ) (ls : LeaderState) (l f : Node T)
      → Exchange id i ls l f
      → ((k : ℕ) → AgreeAt (get_log f) (get_log l) k)
      → take 1 (get_log f) ≡ take 1 (get_log l)
      → (k : ℕ) × (k ≤ suc i) × Returns (λ r. CaughtUp id (get_log l) r.0 r.1) (rounds k id (l, f))
  follower_catches_up id zero ls l f x agree first =
      let (r, ran, outcome) = round-step id 0 ls l f x (agree 0) in
      elim outcome [
        | inl done ↦ (1, omega arith, rw ran (r, refl, done))
        | inr (_, _, _, differs) ↦ absurd (differs first)
      ]
  follower_catches_up id (suc i) ls l f x agree first =
      let (r, ran, outcome) = round-step id (suc i) ls l f x (agree (suc i)) in
      elim outcome [
        | inl done ↦ (1, omega arith, rw ran (r, refl, done))
        | inr (left, log, term, _) ↦
            let (k, few, (last, rest, done)) =
              follower_catches_up id i (step_back ls id) r.0 r.1
                (stepped_back id i ls l f r.0 r.1 x left term) (rw (left, log) agree)
                (rw (left, log) first) in
            (suc k, omega arith, rw ran (last, rest, rw left at done))
      ]
