-- ===== src/Ipc/Wakes.antt =====
-- What a wake-up does in each phase, and the theorem on all steps.
use tinia.Prelude.{
  ℕ, zero, suc, ◌≡◌, refl, ◌∙◌, subst, true, false, List, [], ◌∷◌, arith, inl, inr, Bool-cases,
}
use tinia.Ipc.{
  MessageState, ready, client_to_server, server_to_client, done, error, is_client_to_server,
  is_server_to_client, is_ready, Callbacks, ClientAt, idle, entering, sending, receiving, polling,
  returned, ServerAt, listening, taking, replying, finishing, stopped, Session, so_far,
  server_fails, client_send, client_recv, server_send, server_recv, client_wakes, server_wakes,
}
use tinia.Ipc.Phases.{
  IsMessage, is_moving, succeeded, IsQuiet, Phase, quiet, query_sent, query_taken, reply_sent,
  reply_taken, client_fails-Phase, iterate-Phase, server_fails-Phase,
}
use tinia.Ipc.{
  Event, enters, wakes_client, client_timeout, client_wait_error, wakes_server, server_timeout,
  server_wait_error, step, run, start,
}
use tinia.Ipc.Delivery.{client_send-Phase, server_send-Phase, server_recv-Phase}
use tinia.Ipc.Steps.{
  client_recv-Phase, client_wait_fails-at, client_enters-at, server_times_out-at,
  server_wait_fails-at, phase-IsDelivered, elsewhere,
}

so_far-suc : (k : ℕ) (got : List (List ℕ)) → so_far (suc k) got ≡ got
so_far-suc k got = ground arith

module _ (c : Callbacks) where
  -- While no part is under way, both tests of the state fail.
  still-tests :
      (m : MessageState)
      → is_moving c m ≡ false
      → (is_client_to_server m ≡ false) × (is_server_to_client m ≡ false)
  still-tests ready q = (refl, refl)
  still-tests client_to_server q = grind arith
  still-tests server_to_client q = grind arith
  still-tests done q = (refl, refl)
  still-tests error q = (refl, refl)

  failed-Phase : (s : Session) → IsQuiet c s → Phase c (server_fails s)
  failed-Phase s v = server_fails-Phase c s v.delivered

  quiet-server_wakes-at :
      (s : Session) (a : ServerAt) → s.server ≡ a → IsQuiet c s → Phase c (server_wakes c s)
  unfolding server_wakes server_recv server_send
  quiet-server_wakes-at s listening q v = elim (Bool-cases s.header.server_event_predicate) [
    | inl awake ↦
        subst (Phase c) (grind (arith, q, awake, (still-tests s.header.state v.still).0))
          (iterate-Phase c s v.delivered)
    | inr asleep ↦ subst (Phase c) (grind (arith, q, asleep)) (quiet v)
  ]
  quiet-server_wakes-at s (taking k) q v = elim (Bool-cases s.header.server_event_predicate) [
    | inl awake ↦
        subst (Phase c) (grind (arith, q, awake, (still-tests s.header.state v.still).0))
          (failed-Phase s v)
    | inr asleep ↦ subst (Phase c) (grind (arith, q, asleep)) (quiet v)
  ]
  quiet-server_wakes-at s (replying k) q v = elim (Bool-cases s.header.server_event_predicate) [
    | inl awake ↦
        subst (Phase c) (grind (arith, q, awake, (still-tests s.header.state v.still).1))
          (failed-Phase s v)
    | inr asleep ↦ subst (Phase c) (grind (arith, q, asleep)) (quiet v)
  ]
  quiet-server_wakes-at s finishing q v =
      subst (Phase c) (grind (arith, q, (still-tests s.header.state v.still).1))
        (iterate-Phase c s v.delivered)
  quiet-server_wakes-at s stopped q v = subst (Phase c) (grind (arith, q)) (quiet v)

  server_wakes-Phase : (s : Session) → Phase c s → Phase c (server_wakes c s)
  unfolding server_wakes
  server_wakes-Phase s (quiet v) = quiet-server_wakes-at s s.server refl v
  server_wakes-Phase s (query_sent zero more v) =
      subst (Phase c) (grind (arith, v.server, v.signalled, v.state))
        (server_recv-Phase c s 0 more v)
  server_wakes-Phase s (query_sent (suc k) more v) =
      subst (Phase c) (grind (arith, v.server, v.signalled, v.state))
        (server_recv-Phase c s (suc k) more v)
  server_wakes-Phase s (query_taken k v) =
      subst (Phase c) (grind (arith, v.server, v.waits)) (query_taken k v)
  server_wakes-Phase s (reply_sent k true w v) =
      subst (Phase c) (grind (arith, v.server, v.waits refl)) (reply_sent k true w v)
  server_wakes-Phase s (reply_sent k false w v) =
      subst (Phase c) (grind (arith, v.server, v.state)) (reply_sent k false w v)
  server_wakes-Phase s (reply_taken k w v) = elim (Bool-cases s.header.server_event_predicate) [
    | inl awake ↦ subst (Phase c) (grind (arith, v.server, awake)) (
        server_send-Phase c (suc k) w s v.state v.client v.query v.before
          (so_far-suc k s.reply_got ∙ v.got))
    | inr asleep ↦ subst (Phase c) (grind (arith, v.server, asleep)) (reply_taken k w v)
  ]

  entered-Phase :
      (s : Session)
      → IsQuiet c s
      → is_ready s.header.state ≡ true
      → Phase c
          (client_send c 0 (record s { header = record s.header { state = client_to_server } }))
  entered-Phase s v r =
      client_send-Phase c 0 (record s { header = record s.header { state = client_to_server } })
        refl (v.listens r) tt refl

  quiet-client_wakes-at :
      (s : Session) (a : ClientAt) → s.client ≡ a → IsQuiet c s → Phase c (client_wakes c s)
  unfolding client_wakes client_send client_recv
  quiet-client_wakes-at s idle q v = subst (Phase c) (grind (arith, q)) (quiet v)
  quiet-client_wakes-at s entering q v = elim (Bool-cases (is_ready s.header.state)) [
    | inl free ↦ subst (Phase c) (grind (arith, q, free)) (entered-Phase s v free)
    | inr busy ↦ subst (Phase c) (grind (arith, q, busy)) (quiet v)
  ]
  quiet-client_wakes-at s (sending k) q v = elim (Bool-cases s.header.client_event_predicate) [
    | inl awake ↦
        subst (Phase c) (grind (arith, q, awake, (still-tests s.header.state v.still).0))
          (client_fails-Phase c 0 s)
    | inr asleep ↦ subst (Phase c) (grind (arith, q, asleep)) (quiet v)
  ]
  quiet-client_wakes-at s (receiving k w) q v = elim (Bool-cases s.header.client_event_predicate) [
    | inl awake ↦
        subst (Phase c) (grind (arith, q, awake, (still-tests s.header.state v.still).1))
          (client_fails-Phase c 0 s)
    | inr asleep ↦ subst (Phase c) (grind (arith, q, asleep)) (quiet v)
  ]
  quiet-client_wakes-at s polling q v =
      subst (Phase c) (grind (arith, q)) (elsewhere c s entering v refl)
  quiet-client_wakes-at s (returned r) q v = subst (Phase c) (grind (arith, q)) (quiet v)

  client_wakes-Phase : (s : Session) → Phase c s → Phase c (client_wakes c s)
  unfolding client_wakes
  client_wakes-Phase s (quiet v) = quiet-client_wakes-at s s.client refl v
  client_wakes-Phase s (query_sent k true v) =
      subst (Phase c) (grind (arith, v.client, v.waits)) (query_sent k true v)
  client_wakes-Phase s (query_sent k false v) =
      subst (Phase c) (grind (arith, v.client, v.waits)) (query_sent k false v)
  client_wakes-Phase s (query_taken k v) = elim (Bool-cases s.header.client_event_predicate) [
    | inl awake ↦
        subst (Phase c) (grind (arith, v.client, awake)) (
          client_send-Phase c (suc k) s v.state v.server v.before
            (so_far-suc k s.query_got ∙ v.got))
    | inr asleep ↦ subst (Phase c) (grind (arith, v.client, asleep)) (query_taken k v)
  ]
  client_wakes-Phase s (reply_sent k more w v) = elim (Bool-cases s.header.client_event_predicate) [
    | inl awake ↦
        subst (Phase c) (grind (arith, v.client, awake)) (client_recv-Phase c s k more w v)
    | inr asleep ↦ subst (Phase c) (grind (arith, v.client, asleep)) (reply_sent k more w v)
  ]
  client_wakes-Phase s (reply_taken k w v) =
      subst (Phase c) (grind (arith, v.client, v.waits)) (reply_taken k w v)

  step-Phase : (e : Event) (s : Session) → Phase c s → Phase c (step c e s)
  unfolding step
  step-Phase enters s v = client_enters-at c s s.client refl v
  step-Phase wakes_client s v = client_wakes-Phase s v
  step-Phase client_timeout s v = client_wait_fails-at c 0 s s.client refl v
  step-Phase client_wait_error s v = client_wait_fails-at c 1 s s.client refl v
  step-Phase wakes_server s v = server_wakes-Phase s v
  step-Phase server_timeout s v = server_times_out-at c s s.server refl v
  step-Phase server_wait_error s v = server_wait_fails-at c s s.server refl v

  run-Phase : (es : List Event) (s : Session) → Phase c s → Phase c (run c es s)
  unfolding run
  run-Phase [] s v = v
  run-Phase (e ∷ es) s v = run-Phase es (step c e s) (step-Phase e s v)

  start-Phase : Phase c start
  start-Phase = quiet (record { still = refl; listens = λ q. refl; delivered = λ q. grind arith })

  -- Whatever the order of the steps, with wake-ups at no signal, waits that time out or fail, callbacks
  -- that fail and earlier transactions that broke off: where the client is back with no error, or waits
  -- for a notification after its transaction, the server's consumer has had exactly the parts of the
  -- query, in order and up to the last, and the client's consumer exactly those of the reply to it.
  pub run-IsDelivered :
      (es : List Event)
      → succeeded c (run c es start).client ≡ true
      → IsMessage c.produce_query (run c es start).query_got
        × IsMessage (c.produce_reply (run c es start).query_got) (run c es start).reply_got
  run-IsDelivered es q = phase-IsDelivered c (run c es start) (run-Phase es start start-Phase) q
