-- ===== src/Ipc.antt =====
-- The messages between a client and a server over shared memory: src/ipc/ipc_msg_client.c and
-- ipc_msg_server.c, one transaction after the other. Whoever holds the operation lock runs until it
-- waits for the other; each such stretch is one step.
pub mod Phases
pub mod Delivery
pub mod Steps
pub mod Wakes
pub mod Progress
pub mod Buffered
use tinia.Prelude.{
  ℕ, suc, Bool, true, false, ◌||◌, Option, none, some, List, [], ◌∷◌, ◌++◌, ◌==◌, ltb,
  if◌then◌else◌,
}
use tinia.Prelude.Int.{ℤ, pos, negsuc}

pub data MessageState : Type 0 where
  ready : MessageState
  client_to_server : MessageState
  server_to_client : MessageState
  done : MessageState
  error : MessageState

abbrev pub is_client_to_server : MessageState → Bool
is_client_to_server client_to_server = true
is_client_to_server other = false

abbrev pub is_server_to_client : MessageState → Bool
is_server_to_client server_to_client = true
is_server_to_client other = false

abbrev pub is_ready : MessageState → Bool
is_ready ready = true
is_ready other = false

-- The shared header, with the message part that the buffer holds.
pub record Header : Type 0 where
  pub state : MessageState
  pub part : ℕ
  pub more : Bool
  pub bytes : List ℕ
  pub server_event_predicate : Bool
  pub client_event_predicate : Bool

-- What a client's consumer returns: 0, 1 or -1.
pub data Verdict : Type 0 where
  accepts : Verdict
  long_polls : Verdict
  refuses : Verdict

-- What a handler returns: it fails, or it sets a callback, or it leaves it NULL.
pub data Handled : Type 0 where
  sets_callback : Handled
  leaves_null : Handled
  fails : Handled

-- A producer's parts, by their numbers, each with `more`. A consumer is asked with the parts that it
-- has had.
abbrev pub Producer : Type 0
Producer = ℕ → Option (Bool × List ℕ)

pub record Callbacks : Type 0 where
  pub produce_query : Producer
  pub input_handler : List ℕ → Handled
  pub consume_query : List (List ℕ) → List ℕ → Bool → Bool
  pub output_handler : List (List ℕ) → Handled
  pub produce_reply : List (List ℕ) → Producer
  pub consume_reply : List (List ℕ) → List ℕ → Bool → Verdict
  pub longpoll_timeout : ℕ

-- Where the client is: outside, waiting for the server to be ready, waiting to send a part, waiting
-- for a part of the reply (and whether it is to long-poll), waiting for a notification (it has let go of
-- the transaction lock), or back with a result.
pub data ClientAt : Type 0 where
  idle : ClientAt
  entering : ClientAt
  sending : ℕ → ClientAt
  receiving : ℕ → Bool → ClientAt
  polling : ClientAt
  returned : ℤ → ClientAt

-- Where the server is: in the main loop's wait, waiting for a part of the query, waiting to send a
-- part of the reply, waiting for the client to finish, or out of the main loop.
pub data ServerAt : Type 0 where
  listening : ServerAt
  taking : ℕ → ServerAt
  replying : ℕ → ServerAt
  finishing : ServerAt
  stopped : ServerAt

-- With the parts that the consumers have had.
pub record Session : Type 0 where
  pub header : Header
  pub client : ClientAt
  pub server : ServerAt
  pub query_got : List (List ℕ)
  pub reply_got : List (List ℕ)

-- What a consumer has had before a part: it starts anew with part 0.
abbrev pub so_far : ℕ → List (List ℕ) → List (List ℕ)
so_far part got = if part == 0 then [] else got

-- if( longpoll_timeout < 1 ) { ret = 0; break; }, or the wait for a notification.
abbrev pub after_reply : ℕ → ClientAt
after_reply longpoll_timeout = if ltb longpoll_timeout 1 then returned (pos 0) else polling

-- state = ERROR, signal the server, return.
unfoldable pub client_fails : ℤ → Session → Session
client_fails ret s = record s {
  header = record s.header { state = error; server_event_predicate = true };
  client = returned ret;
}

-- Out of the main loop's iteration with 0 or -1, and into the next one.
unfoldable pub iterate : Session → Session
iterate s = record s {
  header = record s.header { state = ready; server_event_predicate = false };
  server = listening;
}

-- Out of it with -2.
unfoldable pub stop : Session → Session
stop s = record s { header = record s.header { state = done }; server = stopped }

-- state = ERROR, signal the client, return -1.
unfoldable pub server_fails : Session → Session
server_fails s =
    iterate (record s { header = record s.header { state = error; client_event_predicate = true } })

unfoldable pub server_stops : Session → Session
server_stops s =
    stop (record s { header = record s.header { state = error; client_event_predicate = true } })

module _ (c : Callbacks) where
  -- ipc_msg_client_send from its test of the state, for one part, up to the next wait: for the next
  -- part, or in ipc_msg_client_recv for the reply.
  unfoldable pub client_send : ℕ → Session → Session
  client_send part s =
      if is_client_to_server s.header.state
      then elim (c.produce_query part) [
        | none ↦ client_fails (negsuc 0) s
        | some (more, bytes) ↦ record s {
          header = record s.header {
            part = part;
            more = more;
            bytes = bytes;
            server_event_predicate = true;
            client_event_predicate = false;
          };
          client = if more then sending (suc part) else receiving 0 false;
        }
      ]
      else client_fails (negsuc 0) s

  -- ipc_msg_client_recv once the consumer has had the part.
  unfoldable pub client_took : ℕ → Bool → Session → Session
  client_took part do_wait s =
      if s.header.more
      then record s {
        header = record s.header { server_event_predicate = true; client_event_predicate = false };
        client = receiving (suc part) do_wait;
      }
      else record s {
        header = record s.header { state = done; server_event_predicate = true };
        client = if do_wait then after_reply c.longpoll_timeout else returned (pos 0);
      }

  unfoldable pub client_recv : ℕ → Bool → Session → Session
  client_recv part do_wait s =
      if is_server_to_client s.header.state
      then if s.header.part == part
        then (let got = so_far part s.reply_got in
            let taken = record s { reply_got = got ++ s.header.bytes ∷ [] } in
            elim (c.consume_reply got s.header.bytes s.header.more) [
              | accepts ↦ client_took part do_wait taken
              | long_polls ↦ client_took part true taken
              | refuses ↦ client_fails (negsuc 0) s
            ])
        else client_fails (negsuc 0) s
      else client_fails (negsuc 0) s

  -- ipc_msg_server_send from its test of the state, for one part, up to the next wait.
  unfoldable pub server_send : ℕ → Session → Session
  server_send part s =
      if is_server_to_client s.header.state
      then elim (c.produce_reply s.query_got part) [
        | none ↦ server_fails s
        | some (more, bytes) ↦ record s {
          header = record s.header {
            part = part;
            more = more;
            bytes = bytes;
            client_event_predicate = true;
            server_event_predicate = if more then false else s.header.server_event_predicate;
          };
          server = if more then replying (suc part) else finishing;
        }
      ]
      else server_fails s

  -- The start of ipc_msg_server_send.
  unfoldable pub server_reply : Session → Session
  server_reply s = elim (c.output_handler s.query_got) [
    | fails ↦ server_fails s
    | leaves_null ↦ server_stops s
    | sets_callback ↦ server_send 0 s
  ]

  -- ipc_msg_server_recv from the call of the consumer.
  unfoldable pub server_consume : ℕ → Session → Session
  server_consume part s =
      let got = so_far part s.query_got in
      let taken = record s { query_got = got ++ s.header.bytes ∷ [] } in
      if c.consume_query got s.header.bytes s.header.more
      then if s.header.more
        then record taken {
          header = record s.header {
            client_event_predicate = true;
            server_event_predicate = false;
          };
          server = taking (suc part);
        }
        else server_reply (record taken { header = record s.header { state = server_to_client } })
      else server_fails s

  -- ipc_msg_server_recv from its test of the state, for one part.
  unfoldable pub server_recv : ℕ → Session → Session
  server_recv part s =
      if is_client_to_server s.header.state
      then if s.header.part == part
        then if part == 0
          then elim (c.input_handler s.header.bytes) [
            | fails ↦ server_fails s
            | leaves_null ↦ server_stops s
            | sets_callback ↦ server_consume part s
          ]
          else server_consume part s
        else server_fails s
      else server_fails s

  -- A wait of the client returns 0; and it returns an error, which the code turns into `ret`.
  unfoldable pub client_wakes : Session → Session
  client_wakes s = elim s.client [
    | entering ↦
        if is_ready s.header.state
        then client_send 0 (record s { header = record s.header { state = client_to_server } })
        else s
    | sending part ↦ if s.header.client_event_predicate then client_send part s else s
    | receiving part do_wait ↦
        if s.header.client_event_predicate then client_recv part do_wait s else s
    | polling ↦ record s { client = entering }
    | _ ↦ s
  ]

  -- The same of the server.
  unfoldable pub server_wakes : Session → Session
  server_wakes s = elim s.server [
    | listening ↦
        if s.header.server_event_predicate
        then if is_client_to_server s.header.state then server_recv 0 s else iterate s
        else s
    | taking part ↦ if s.header.server_event_predicate then server_recv part s else s
    | replying part ↦ if s.header.server_event_predicate then server_send part s else s
    | finishing ↦ if is_server_to_client s.header.state then s else iterate s
    | stopped ↦ s
  ]

unfoldable pub client_wait_fails : ℤ → Session → Session
client_wait_fails ret s = elim s.client [
  | entering ↦ record s { client = returned ret }
  | polling ↦ record s { client = returned ret }
  | sending part ↦ client_fails ret s
  | receiving part do_wait ↦ client_fails ret s
  | _ ↦ s
]

unfoldable pub server_times_out : Session → Session
server_times_out s = elim s.server [ listening ↦ s | stopped ↦ s | _ ↦ iterate s ]

unfoldable pub server_wait_fails : Session → Session
server_wait_fails s = elim s.server [ stopped ↦ s | _ ↦ stop s ]

-- A client takes the transaction lock: a new one, or one that waited for a notification.
unfoldable pub client_enters : Session → Session
client_enters s = elim s.client [
  | idle ↦ record s { client = entering }
  | polling ↦ record s { client = entering }
  | returned ret ↦ record s { client = entering }
  | _ ↦ s
]

-- What may happen next: the system wakes one of the two, or one's wait ends otherwise.
pub data Event : Type 0 where
  enters : Event
  wakes_client : Event
  client_timeout : Event
  client_wait_error : Event
  wakes_server : Event
  server_timeout : Event
  server_wait_error : Event

unfoldable pub step : Callbacks → Event → Session → Session
step c enters s = client_enters s
step c wakes_client s = client_wakes c s
step c client_timeout s = client_wait_fails (negsuc 0) s
step c client_wait_error s = client_wait_fails (negsuc 1) s
step c wakes_server s = server_wakes c s
step c server_timeout s = server_times_out s
step c server_wait_error s = server_wait_fails s

unfoldable pub run : Callbacks → List Event → Session → Session
run c [] s = s
run c (e ∷ es) s = run c es (step c e s)

-- The server in its main loop, before any client.
abbrev pub start : Session
start = record {
  header = record {
    state = ready;
    part = 0;
    more = false;
    bytes = [];
    server_event_predicate = false;
    client_event_predicate = false;
  };
  client = idle;
  server = listening;
  query_got = [];
  reply_got = [];
}
