-- ===== src/Consensus/Wellformed/Steps.antt =====
-- hw2/src/consensus/node.cpp: the calls of a node, as steps, from its construction on.
use to_ftds.Base.{ℕ, ◌≡◌, refl, arith, List, set_insert, ok, of_Ensures}
use to_ftds.Timeout.{ITimeout}
use to_ftds.Consensus.State.{Command}
use to_ftds.Consensus.Message.{
  Message, append_entries_request, append_entries_response, request_vote_request,
  request_vote_response,
}
use to_ftds.Consensus.Node.{Node, new_node, add_message, add_command, get_persistent_commands}
use to_ftds.Consensus.Node.Ticks.{tick}
use to_ftds.Consensus.Wellformed.{Wellformed, Wellformed-same}
use to_ftds.Consensus.Wellformed.Ticks.{tick-Wellformed}

module _ {T : Type 0} ⦃timer : ITimeout T⦄ where
  -- A message of any node, a command, a query, and a number of rounds of `Tick` that return.
  pub data Call : Node T → Node T → Type 0 where
    hears : (n : Node T) (id : ℕ) (msg : Message) → Call n (add_message n id msg)
    takes : (n : Node T) (c : Command) → Call n (add_command n c).0
    shows : (n : Node T) (from max_count : ℕ) → Call n (get_persistent_commands n from max_count).0
    ticks : {n m : Node T} (times : ℕ) → tick n times ≡ ok m → Call n m

  pub data Calls (n : Node T) : Node T → Type 0 where
    here : Calls n n
    next : {l m : Node T} → Calls n l → Call l m → Calls n m

  module _ (channels : List ℕ) where
    pub add_message-Wellformed :
        (n : Node T) (id : ℕ) (msg : Message)
        → Wellformed channels n
        → Wellformed channels (add_message n id msg)
    unfolding add_message
    add_message-Wellformed n id (append_entries_request m) w =
        Wellformed-same channels n _ refl refl refl refl refl refl w.has_item w
    add_message-Wellformed n id (append_entries_response m) w =
        Wellformed-same channels n _ refl refl refl refl refl refl w.has_item w
    add_message-Wellformed n id (request_vote_request m) w =
        Wellformed-same channels n _ refl refl refl refl refl refl w.has_item w
    add_message-Wellformed n id (request_vote_response m) w =
        Wellformed-same channels n _ refl refl refl refl refl refl w.has_item w

    Call-Wellformed : {n m : Node T} → Call n m → Wellformed channels n → Wellformed channels m
    unfolding add_command get_persistent_commands
    Call-Wellformed (hears n id msg) w = add_message-Wellformed n id msg w
    Call-Wellformed (takes n c) w =
        Wellformed-same channels n _ refl refl refl refl refl refl w.has_item w
    Call-Wellformed (shows n from max_count) w =
        Wellformed-same channels n _ refl refl refl refl refl refl w.has_item w
    Call-Wellformed (ticks {n = n} {m = m} times e) w =
        of_Ensures (Wellformed channels) (tick n times) m (tick-Wellformed channels n times w) e

    Calls-Wellformed : {n m : Node T} → Calls n m → Wellformed channels n → Wellformed channels m
    Calls-Wellformed here w = w
    Calls-Wellformed (next calls call) w = Call-Wellformed call (Calls-Wellformed calls w)

  pub new_node-Wellformed :
      (my_id : ℕ) (channels : List ℕ) (t : T)
      → Wellformed (set_insert my_id channels) (new_node my_id channels t)
  unfolding new_node
  new_node-Wellformed my_id channels t = record {
    has_state = (refl, refl);
    has_item = omega arith;
    same_channels = refl;
  }

  -- From its construction on, by any sequence of messages of any node, commands, queries, and
  -- rounds of Tick that return: a leader has a leader's state and no candidate's, a candidate has
  -- a candidate's state and no leader's and has voted for itself, a follower has neither, the log
  -- has an item, and the channels are those of the construction with the node's own.
  pub reachable-Wellformed :
      (my_id : ℕ) (channels : List ℕ) (t : T) (n : Node T)
      → Calls (new_node my_id channels t) n
      → Wellformed (set_insert my_id channels) n
  reachable-Wellformed my_id channels t n calls =
      Calls-Wellformed (set_insert my_id channels) calls (new_node-Wellformed my_id channels t)
