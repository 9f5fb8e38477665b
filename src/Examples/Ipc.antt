-- ===== src/Examples/Ipc.antt =====
-- A query of three bytes through a shared buffer of two, answered with one byte.
use tinia.Prelude.{ℕ, suc, length, ◌≤◌, ◌≡◌, refl, false, some, List, [], ◌∷◌, arith}
use tinia.Prelude.Int.{pos}
use tinia.Ipc.{
  Callbacks, sets_callback, Event, enters, wakes_client, wakes_server, client_timeout, step, run,
  start, returned, client_enters, client_wakes, server_wakes, client_send, client_recv, client_took,
  server_send, server_reply, server_consume, server_recv, client_fails, client_wait_fails, iterate,
}
use tinia.Ipc.Phases.{IsMessage, parts}
use tinia.Ipc.Wakes.{run-IsDelivered}
use tinia.Ipc.Progress.{IsWilling, HasParts, exchange, run-returned}
use tinia.Ipc.Buffered.{
  buffered_query, joined, message_consumer, buffered_consumer, IsBuffered, buffered-IsWilling,
  run-buffered, buffered_producer, query_rest, first_bytes, later_bytes,
}

abbrev three : List ℕ
three = 7 ∷ 8 ∷ 9 ∷ []

abbrev echo : Callbacks
echo = record {
  produce_query = buffered_query 2 three;
  input_handler = λ bytes. sets_callback;
  consume_query = message_consumer 4;
  output_handler = λ got. sets_callback;
  produce_reply = λ got k. some (false, 1 ∷ []);
  consume_reply = buffered_consumer 1;
  longpoll_timeout = 0;
}

echo-IsBuffered : IsBuffered echo three 2 4 1
echo-IsBuffered = record {
  produces = refl;
  takes = refl;
  input = λ bytes. refl;
  output = λ got. refl;
  reads = refl;
}

echo-reply :
    (got : List (List ℕ))
    → joined got ≡ three
    → (m : ℕ) × HasParts (echo.produce_reply got) m
      × (length (joined (parts (echo.produce_reply got) (suc m))) ≤ 1)
unfolding joined
echo-reply got q = (0, (tt, (1 ∷ [], refl)), omega arith)

echo-IsWilling : IsWilling echo
echo-IsWilling =
    buffered-IsWilling echo three 2 4 1 echo-IsBuffered (omega arith) (omega arith) echo-reply

one_part : (got : List (List ℕ)) → HasParts (echo.produce_reply got) 0
one_part got = (tt, (1 ∷ [], refl))

two_parts : HasParts (echo.produce_query) 1
unfolding buffered_producer query_rest first_bytes later_bytes
two_parts = ((tt, (7 ∷ 8 ∷ [], refl)), (9 ∷ [], refl))

run-buffered_example :
    (n m : ℕ) × ((run echo (enters ∷ wakes_client ∷ exchange n m) start).client ≡ returned (pos 0))
    × (joined (run echo (enters ∷ wakes_client ∷ exchange n m) start).query_got ≡ three)
run-buffered_example =
    run-buffered echo three 2 4 1 echo-IsBuffered (omega arith) (omega arith) echo-reply

run-returned_example :
    (run echo (wakes_client ∷ exchange 1 0) (step echo enters start)).client ≡ returned (pos 0)
unfolding step client_enters
run-returned_example =
    run-returned echo 1 0 (step echo enters start) echo-IsWilling two_parts
      (one_part (parts echo.produce_query 2)) refl refl refl

-- A transaction that times out, and one that goes through, with wake-ups at no signal between.
abbrev rough : List Event
rough =
    enters ∷ wakes_client ∷ client_timeout ∷ wakes_server ∷ enters ∷ wakes_client ∷ wakes_client
    ∷ wakes_server ∷ wakes_server ∷ wakes_client ∷ wakes_server ∷ wakes_client ∷ []

rough-run : (run echo rough start).client ≡ returned (pos 0)
unfolding run step client_wakes server_wakes client_enters client_wait_fails client_send
    message_consumer buffered_consumer joined buffered_producer query_rest client_fails iterate
    server_recv server_consume later_bytes server_reply server_send client_recv client_took
    first_bytes
rough-run = refl

run-IsDelivered_example :
    IsMessage (buffered_query 2 three) (run echo rough start).query_got
    × IsMessage
        (echo.produce_reply (run echo rough start).query_got)
        (run echo rough start).reply_got
run-IsDelivered_example = run-IsDelivered echo rough (grind (arith, rough-run))
