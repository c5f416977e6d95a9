-- ===== src/Cluster/Logs/Ticks.antt =====
-- hw2/src/consensus/node.cpp: `HandleIncomingMessages`, by the votes and the logs of a cluster.
use to_ftds.Base.{
  true, ℕ, ◌≡◌, List, All, Ensures, Ensures-map, Ensures-both, >>=-Ensures, for_each,
  for_each-Keeps, for_each-Keeps_given, contains,
}
use to_ftds.Timeout.{ITimeout}
use to_ftds.Consensus.Message.{AppendEntriesRequest}
use to_ftds.Consensus.Node.{Node}
use to_ftds.Consensus.Node.Ticks.{
  receive_append_entries_request, receive_request_vote_request, receive_append_entries_response,
  receive_request_vote_response, take_messages, handle_incoming_messages,
}
use to_ftds.Cluster.Ballots.{
  History, Fair, Extends, Won-mono, Answered, Answered-mono, Agrees, All-map,
}
use to_ftds.Cluster.Ballots.Requests.{StillLeads}
use to_ftds.Cluster.Ballots.Grants.{Polled}
use to_ftds.Cluster.Ballots.Responses.{
  receive_append_entries_response-Agrees, receive_request_vote_response-Agrees,
}
use to_ftds.Cluster.Ballots.Ticks.{Unasked, append_requests-Agrees, vote_requests-Polled, All-both}
use to_ftds.Cluster.Logs.{Book, Taken, Grows, Grows-refl, Grows-trans}
use to_ftds.Cluster.Logs.Nodes.{Filed, Holds}
use to_ftds.Cluster.Logs.Requests.{
  EndsEarly, receive_append_entries_request-Holds, receive_request_vote_request-Holds,
}
use to_ftds.Cluster.Logs.Leading.{Carries}
use to_ftds.Cluster.Logs.Responses.{
  receive_append_entries_response-Holds, receive_request_vote_response-Carries,
}

pub Filed-mono :
    (ids : List ℕ) (H K : History) (B : Book)
    → ((v t c : ℕ) → H v t c → K v t c)
    → Filed ids H B
    → Filed ids K B
Filed-mono ids H K B keeps f = record {
  won = λ t j h. Won-mono ids H K keeps j t (f.won t j h);
  made = f.made;
  matches = f.matches;
}

-- Every request to append that waits ends early.
abbrev pub AllEarly : {T : Type 0} → Node T → Type 0
AllEarly n =
    All (λ (x : ℕ × AppendEntriesRequest). EndsEarly x.1) n.incoming_append_entries_requests

-- A history and a book that go on from the first ones, and `Q` of that book.
abbrev pub Progress : {T : Type 0} → List ℕ → History → Book → ℕ → (Book → Type 0) → Node T → Type 1
Progress ids H B i Q n =
    (K : History) × (C : Book) × Extends i H K
    × Fair ids K
    × Agrees ids K i n
    × Grows i B C
    × Filed ids K C
    × Q C

module _ {T : Type 0} ⦃timer : ITimeout T⦄ (ids : List ℕ) (i : ℕ)
    (known : contains i ids ≡ true) where
  vote_responses :
      (K : History) (B : Book) (n m : Node T)
      → Fair ids K
      → Filed ids K B
      → Agrees ids K i m
      → Holds B i m
      → All (Answered K i) n.incoming_request_vote_responses
      → Ensures
          (λ k. Agrees ids K i k × Carries ids K B i k)
          (for_each receive_request_vote_response m n.incoming_request_vote_responses)
  vote_responses K B n m fair filed a h answered =
      let I = λ (k : Node T). Agrees ids K i k × Carries ids K B i k in
      for_each-Keeps_given I (Answered K i) receive_request_vote_response
        (λ k x (a', (C, g, filed', h')) p.
          Ensures-both (Agrees ids K i) (Carries ids K B i) (receive_request_vote_response k x)
            (receive_request_vote_response-Agrees ids K i k x a' p)
            (Ensures-map (Carries ids K C i) (Carries ids K B i) _
              (receive_request_vote_response-Carries ids K C i k x fair filed' a' p h')
              (λ k' (D, g', filed'', h''). (D, Grows-trans i B C D g g', filed'', h''))))
        m n.incoming_request_vote_responses (a, (B, Grows-refl i B, filed, h)) answered

  pub handle_incoming_messages-Progress :
      (H : History) (B : Book) (n : Node T)
      → Fair ids H
      → Filed ids H B
      → Agrees ids H i n
      → Unasked n
      → Holds B i n
      → AllEarly n
      → Ensures (λ m. Progress ids H B i (λ C. Holds C i m) m) (handle_incoming_messages n)
  unfolding handle_incoming_messages
  handle_incoming_messages-Progress H B n fair filed (b, l) unasked (k, short) early =
      let R = λ (m : Node T). Progress ids H B i (λ C. Holds C i m) m in
      let h0 : Holds B i (take_messages n) = (
        record {
          led = k.led;
          leads = k.leads;
          log = k.log;
          next = k.next;
          candidate = k.candidate;
          waiting = tt;
          sent = k.sent;
        },
        short,
      ) in
      >>=-Ensures (λ m. (Agrees ids H i m × StillLeads n m) × Holds B i m) R
        (for_each receive_append_entries_request (take_messages n)
          n.incoming_append_entries_requests)
        _
        (Ensures-both (λ m. Agrees ids H i m × StillLeads n m) (Holds B i)
          (for_each receive_append_entries_request (take_messages n)
            n.incoming_append_entries_requests)
          (append_requests-Agrees ids i known H n (b, l))
          (for_each-Keeps_given (Holds B i)
            (λ (x : ℕ × AppendEntriesRequest). Taken B x.1 × EndsEarly x.1)
            receive_append_entries_request
            (λ m x h p. receive_append_entries_request-Holds B i m x filed.matches h p.0 p.1)
            (take_messages n) n.incoming_append_entries_requests h0
            (All-both _ _ n.incoming_append_entries_requests k.waiting early)))
        λ n1 ((a1, s1), h1).
          >>=-Ensures (λ m. Polled ids H i n m × Holds B i m) R
            (for_each receive_request_vote_request n1 n.incoming_request_vote_requests) _
            (Ensures-both (Polled ids H i n) (Holds B i)
              (for_each receive_request_vote_request n1 n.incoming_request_vote_requests)
              (vote_requests-Polled ids i known H n n1 fair (b, l) unasked a1 s1)
              (for_each-Keeps (Holds B i) receive_request_vote_request
                (λ m x h. receive_request_vote_request-Holds B i m x h) n1
                n.incoming_request_vote_requests h1))
            λ n2 ((K, grows, fair', a2, s2), h2).
              >>=-Ensures (λ m. Agrees ids K i m × Holds B i m) R
                (for_each receive_append_entries_response n2 n.incoming_append_entries_responses) _
                (Ensures-both (Agrees ids K i) (Holds B i)
                  (for_each receive_append_entries_response n2 n.incoming_append_entries_responses)
                  (for_each-Keeps (Agrees ids K i) receive_append_entries_response
                    (λ m x a. receive_append_entries_response-Agrees ids K i m x a) n2
                    n.incoming_append_entries_responses a2)
                  (for_each-Keeps (Holds B i) receive_append_entries_response
                    (λ m x h. receive_append_entries_response-Holds B i m x h) n2
                    n.incoming_append_entries_responses h2))
                λ n3 (a3, h3).
                  Ensures-map (λ m. Agrees ids K i m × Carries ids K B i m) R _
                    (vote_responses K B n n3 fair' (Filed-mono ids H K B grows.keeps filed) a3 h3 (
                      All-map _ _ n.incoming_request_vote_responses
                        (Answered-mono ids H K grows.keeps i) l.responses))
                    (λ m (a, (C, g, filed', h)). (K, C, grows, fair', a, g, filed', h))
