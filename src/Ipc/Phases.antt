-- ===== src/Ipc/Phases.antt =====
-- Where a transaction may stand, whatever the order of the steps.
use tinia.Prelude.{
  ℕ, zero, suc, ◌≡◌, refl, ap, Bool, true, false, Option, none, some, List, [], ◌∷◌, ◌++◌, arith,
}
use tinia.Prelude.Int.{pos, negsuc}
use tinia.Ipc.{
  MessageState, client_to_server, server_to_client, is_ready, Producer, Callbacks, ClientAt,
  sending, receiving, polling, returned, ServerAt, listening, taking, replying, finishing, Session,
  so_far, client_fails, iterate, stop, server_fails, server_stops,
}

-- The first parts of a message.
abbrev pub bytes_in : Option (Bool × List ℕ) → List ℕ
bytes_in none = []
bytes_in (some (more, bytes)) = bytes

abbrev pub parts : Producer → ℕ → List (List ℕ)
parts f zero = []
parts f (suc n) = parts f n ++ bytes_in (f n) ∷ []

-- Each of the first parts says that there are more.
abbrev pub AllMore : Producer → ℕ → Type 0
AllMore f zero = Unit
AllMore f (suc n) = AllMore f n × ((bytes : List ℕ) × (f n ≡ some (true, bytes)))

-- The parts of the whole message, up to the first that says that it is the last.
abbrev pub IsMessage : Producer → List (List ℕ) → Type 0
IsMessage f got =
    (n : ℕ) × AllMore f n
    × ((bytes : List ℕ) × (f n ≡ some (false, bytes)))
    × (got ≡ parts f (suc n))

module _ (c : Callbacks) where
  -- The server has had the query, and the client the reply to it.
  abbrev pub IsDelivered : Session → Type 0
  IsDelivered s =
      IsMessage c.produce_query s.query_got × IsMessage (c.produce_reply s.query_got) s.reply_got

  abbrev pub is_moving : MessageState → Bool
  is_moving client_to_server = true
  is_moving server_to_client = true
  is_moving other = false

  -- A client that has come back with no error, or waits for a notification.
  abbrev pub succeeded : ClientAt → Bool
  succeeded (returned (pos n)) = true
  succeeded polling = true
  succeeded other = false

  -- No part is under way. The server is in the wait of its main loop if the state is READY.
  pub record IsQuiet (s : Session) : Type 0 where
    pub still : is_moving s.header.state ≡ false
    pub listens : is_ready s.header.state ≡ true → s.server ≡ listening
    pub delivered : succeeded s.client ≡ true → IsDelivered s

  abbrev pub server_for : ℕ → ServerAt
  server_for zero = listening
  server_for (suc k) = taking (suc k)

  abbrev pub client_after : ℕ → Bool → ClientAt
  client_after k true = sending (suc k)
  client_after k false = receiving 0 false

  abbrev pub server_after : ℕ → Bool → ServerAt
  server_after k true = replying (suc k)
  server_after k false = finishing

  -- Part `k` of the query lies in the buffer.
  pub record IsQuerySent (s : Session) (k : ℕ) (more : Bool) : Type 0 where
    pub state : s.header.state ≡ client_to_server
    pub part : s.header.part ≡ k
    pub flag : s.header.more ≡ more
    pub signalled : s.header.server_event_predicate ≡ true
    pub waits : s.header.client_event_predicate ≡ false
    pub client : s.client ≡ client_after k more
    pub server : s.server ≡ server_for k
    pub before : AllMore c.produce_query k
    pub here : c.produce_query k ≡ some (more, s.header.bytes)
    pub got : so_far k s.query_got ≡ parts c.produce_query k

  -- The server has had part `k`, which is not the last.
  pub record IsQueryTaken (s : Session) (k : ℕ) : Type 0 where
    pub state : s.header.state ≡ client_to_server
    pub waits : s.header.server_event_predicate ≡ false
    pub signalled : s.header.client_event_predicate ≡ true
    pub client : s.client ≡ sending (suc k)
    pub server : s.server ≡ taking (suc k)
    pub before : AllMore c.produce_query (suc k)
    pub got : s.query_got ≡ parts c.produce_query (suc k)

  -- The query is delivered, and part `k` of the reply lies in the buffer.
  pub record IsReplySent (s : Session) (k : ℕ) (more do_wait : Bool) : Type 0 where
    pub state : s.header.state ≡ server_to_client
    pub part : s.header.part ≡ k
    pub flag : s.header.more ≡ more
    pub waits : more ≡ true → s.header.server_event_predicate ≡ false
    pub signalled : s.header.client_event_predicate ≡ true
    pub client : s.client ≡ receiving k do_wait
    pub server : s.server ≡ server_after k more
    pub query : IsMessage c.produce_query s.query_got
    pub before : AllMore (c.produce_reply s.query_got) k
    pub here : c.produce_reply s.query_got k ≡ some (more, s.header.bytes)
    pub got : so_far k s.reply_got ≡ parts (c.produce_reply s.query_got) k

  -- The client has had part `k` of the reply, which is not the last.
  pub record IsReplyTaken (s : Session) (k : ℕ) (do_wait : Bool) : Type 0 where
    pub state : s.header.state ≡ server_to_client
    pub waits : s.header.client_event_predicate ≡ false
    pub signalled : s.header.server_event_predicate ≡ true
    pub client : s.client ≡ receiving (suc k) do_wait
    pub server : s.server ≡ replying (suc k)
    pub query : IsMessage c.produce_query s.query_got
    pub before : AllMore (c.produce_reply s.query_got) (suc k)
    pub got : s.reply_got ≡ parts (c.produce_reply s.query_got) (suc k)

  pub data Phase (s : Session) : Type 0 where
    quiet : IsQuiet s → Phase s
    query_sent : (k : ℕ) (more : Bool) → IsQuerySent s k more → Phase s
    query_taken : (k : ℕ) → IsQueryTaken s k → Phase s
    reply_sent : (k : ℕ) (more do_wait : Bool) → IsReplySent s k more do_wait → Phase s
    reply_taken : (k : ℕ) (do_wait : Bool) → IsReplyTaken s k do_wait → Phase s

  -- The ways into the quiet phase.
  pub client_fails-Phase : (n : ℕ) (s : Session) → Phase (client_fails (negsuc n) s)
  unfolding client_fails
  client_fails-Phase n s =
      quiet (record { still = refl; listens = λ q. grind arith; delivered = λ q. grind arith })

  pub iterate-Phase :
      (s : Session) → (succeeded s.client ≡ true → IsDelivered s) → Phase (iterate s)
  unfolding iterate
  iterate-Phase s d = quiet (record { still = refl; listens = λ q. refl; delivered = d })

  pub stop-Phase : (s : Session) → (succeeded s.client ≡ true → IsDelivered s) → Phase (stop s)
  unfolding stop
  stop-Phase s d = quiet (record { still = refl; listens = λ q. grind arith; delivered = d })

  pub server_fails-Phase :
      (s : Session) → (succeeded s.client ≡ true → IsDelivered s) → Phase (server_fails s)
  unfolding server_fails
  server_fails-Phase s d = iterate-Phase _ d

  pub server_stops-Phase :
      (s : Session) → (succeeded s.client ≡ true → IsDelivered s) → Phase (server_stops s)
  unfolding server_stops
  server_stops-Phase s d = stop-Phase _ d

  -- A client in the middle of a transaction has not come back.
  pub not-succeeded :
      (a : ClientAt) (s : Session)
      → s.client ≡ a
      → succeeded a ≡ false
      → succeeded s.client ≡ true
      → IsDelivered s
  not-succeeded a s q f t = grind (arith, ap succeeded q)
