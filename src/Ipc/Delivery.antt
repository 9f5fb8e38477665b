-- ===== src/Ipc/Delivery.antt =====
-- The server's side of a transaction, and the client's sending, keep to the phases.
use tinia.Prelude.{
  ℕ, zero, suc, ◌≡◌, ◌⊎◌, refl, sym, ap, ◌∙◌, subst, Bool, true, false, some, List, [], ◌∷◌, ◌++◌,
  arith, if◌then◌else◌, inl, inr, Option-cases, Bool-cases,
}
use tinia.Ipc.{
  client_to_server, server_to_client, Verdict, accepts, long_polls, refuses, Handled, sets_callback,
  leaves_null, fails, Producer, Callbacks, sending, receiving, taking, replying, finishing, Session,
  so_far, client_send, server_send, server_reply, server_consume, server_recv,
}
use tinia.Ipc.Phases.{
  bytes_in, parts, AllMore, IsMessage, IsDelivered, succeeded, server_for, client_after,
  server_after, IsQuerySent, IsQueryTaken, IsReplySent, IsReplyTaken, Phase, query_sent,
  query_taken, reply_sent, reply_taken, client_fails-Phase, server_fails-Phase, server_stops-Phase,
  not-succeeded,
}

Handled-cases : (h : Handled) → (h ≡ sets_callback) ⊎ ((h ≡ leaves_null) ⊎ (h ≡ fails))
Handled-cases sets_callback = inl refl
Handled-cases leaves_null = inr (inl refl)
Handled-cases fails = inr (inr refl)

pub Verdict-cases : (v : Verdict) → (v ≡ refuses) ⊎ ((v ≡ accepts) ⊎ (v ≡ long_polls))
Verdict-cases refuses = inl refl
Verdict-cases accepts = inr (inl refl)
Verdict-cases long_polls = inr (inr refl)

pub parts-snoc :
    (f : Producer) (k : ℕ) (more : Bool) (bytes : List ℕ) (got : List (List ℕ))
    → f k ≡ some (more, bytes)
    → got ≡ parts f k
    → got ++ bytes ∷ [] ≡ parts f (suc k)
parts-snoc f k more bytes got here q =
    ap (λ g. g ++ bytes ∷ []) q ∙ ap (λ o. parts f k ++ bytes_in o ∷ []) (sym here)

module _ (c : Callbacks) where
  query_sent-Phase : (s : Session) (k : ℕ) (more : Bool) → IsQuerySent c s k more → Phase c s
  query_sent-Phase s k more v = query_sent k more v

  query_taken-Phase : (s : Session) (k : ℕ) → IsQueryTaken c s k → Phase c s
  query_taken-Phase s k v = query_taken k v

  reply_sent-Phase :
      (s : Session) (k : ℕ) (more do_wait : Bool) → IsReplySent c s k more do_wait → Phase c s
  reply_sent-Phase s k more do_wait v = reply_sent k more do_wait v

  pub reply_taken-Phase :
      (s : Session) (k : ℕ) (do_wait : Bool) → IsReplyTaken c s k do_wait → Phase c s
  reply_taken-Phase s k do_wait v = reply_taken k do_wait v

  client_after-eq :
      (k : ℕ) (more : Bool)
      → (if more then sending (suc k) else receiving 0 false) ≡ client_after c k more
  client_after-eq k true = refl
  client_after-eq k false = refl

  server_after-eq :
      (k : ℕ) (more : Bool) → (if more then replying (suc k) else finishing) ≡ server_after c k more
  server_after-eq k true = refl
  server_after-eq k false = refl

  pub client_send-IsQuerySent :
      (k : ℕ) (s : Session) (more : Bool) (bytes : List ℕ)
      → s.header.state ≡ client_to_server
      → s.server ≡ server_for c k
      → AllMore c.produce_query k
      → so_far k s.query_got ≡ parts c.produce_query k
      → c.produce_query k ≡ some (more, bytes)
      → IsQuerySent c (client_send c k s) k more
  unfolding client_send
  client_send-IsQuerySent k s more bytes q here before got found =
      let s2 : Session = record s {
        header = record s.header {
          part = k;
          more = more;
          bytes = bytes;
          server_event_predicate = true;
          client_event_predicate = false;
        };
        client = if more then sending (suc k) else receiving 0 false;
      } in
      subst (λ t. IsQuerySent c t k more) {x = s2} (grind (arith, q, found))
        (record {
          state = q;
          part = refl;
          flag = refl;
          signalled = refl;
          waits = refl;
          client = client_after-eq k more;
          server = here;
          before = before;
          here = found;
          got = got;
        })

  pub client_send-Phase :
      (k : ℕ) (s : Session)
      → s.header.state ≡ client_to_server
      → s.server ≡ server_for c k
      → AllMore c.produce_query k
      → so_far k s.query_got ≡ parts c.produce_query k
      → Phase c (client_send c k s)
  unfolding client_send
  client_send-Phase k s q here before got = elim (Option-cases (c.produce_query k)) [
    | inl out ↦ subst (Phase c) (grind (arith, q, out)) (client_fails-Phase c 0 s)
    | inr ((more, bytes), found) ↦
        query_sent-Phase (client_send c k s) k more
          (client_send-IsQuerySent k s more bytes q here before got found)
  ]

  pub server_send-IsReplySent :
      (k : ℕ) (w : Bool) (s : Session) (more : Bool) (bytes : List ℕ)
      → s.header.state ≡ server_to_client
      → s.client ≡ receiving k w
      → IsMessage c.produce_query s.query_got
      → AllMore (c.produce_reply s.query_got) k
      → so_far k s.reply_got ≡ parts (c.produce_reply s.query_got) k
      → c.produce_reply s.query_got k ≡ some (more, bytes)
      → IsReplySent c (server_send c k s) k more w
  unfolding server_send
  server_send-IsReplySent k w s more bytes q here query before got found =
      let s2 : Session = record s {
        header = record s.header {
          part = k;
          more = more;
          bytes = bytes;
          client_event_predicate = true;
          server_event_predicate = if more then false else s.header.server_event_predicate;
        };
        server = if more then replying (suc k) else finishing;
      } in
      subst (λ t. IsReplySent c t k more w) {x = s2} (grind (arith, q, found))
        (record {
          state = q;
          part = refl;
          flag = refl;
          waits = λ m. ap (λ b. if b then false else s.header.server_event_predicate) m;
          signalled = refl;
          client = here;
          server = server_after-eq k more;
          query = query;
          before = before;
          here = found;
          got = got;
        })

  pub server_send-Phase :
      (k : ℕ) (w : Bool) (s : Session)
      → s.header.state ≡ server_to_client
      → s.client ≡ receiving k w
      → IsMessage c.produce_query s.query_got
      → AllMore (c.produce_reply s.query_got) k
      → so_far k s.reply_got ≡ parts (c.produce_reply s.query_got) k
      → Phase c (server_send c k s)
  unfolding server_send
  server_send-Phase k w s q here query before got =
      elim (Option-cases (c.produce_reply s.query_got k)) [
        | inl out ↦
            subst (Phase c) (grind (arith, q, out))
              (server_fails-Phase c s (not-succeeded c (receiving k w) s here refl))
        | inr ((more, bytes), found) ↦
            reply_sent-Phase (server_send c k s) k more w
              (server_send-IsReplySent k w s more bytes q here query before got found)
      ]

  server_reply-Phase :
      (s : Session)
      → s.header.state ≡ server_to_client
      → s.client ≡ receiving 0 false
      → IsMessage c.produce_query s.query_got
      → Phase c (server_reply c s)
  unfolding server_reply
  server_reply-Phase s q here query = elim (Handled-cases (c.output_handler s.query_got)) [
    | inl sets ↦
        subst (Phase c) (grind (arith, sets)) (server_send-Phase 0 false s q here query tt refl)
    | inr (inl nothing) ↦
        subst (Phase c) (grind (arith, nothing))
          (server_stops-Phase c s (not-succeeded c (receiving 0 false) s here refl))
    | inr (inr failed) ↦
        subst (Phase c) (grind (arith, failed))
          (server_fails-Phase c s (not-succeeded c (receiving 0 false) s here refl))
  ]

  client_after-open : (k : ℕ) (more : Bool) → succeeded c (client_after c k more) ≡ false
  client_after-open k true = refl
  client_after-open k false = refl

  pub sent-open :
      (s : Session) (k : ℕ) (more : Bool)
      → IsQuerySent c s k more
      → succeeded c s.client ≡ true
      → IsDelivered c s
  sent-open s k more v =
      not-succeeded c (client_after c k more) s v.client (client_after-open k more)

  -- The session that the consumer's success leaves, before a reply is begun.
  abbrev pub consumed : ℕ → Session → Session
  consumed k s = record s {
    query_got = so_far k s.query_got ++ s.header.bytes ∷ [];
    header = record s.header { state = server_to_client };
  }

  pub server_consume-IsQueryTaken :
      (s : Session) (k : ℕ)
      → IsQuerySent c s k true
      → c.consume_query (so_far k s.query_got) s.header.bytes s.header.more ≡ true
      → IsQueryTaken c (server_consume c k s) k
  unfolding server_consume
  server_consume-IsQueryTaken s k v good =
      let s2 : Session = record s {
        query_got = so_far k s.query_got ++ s.header.bytes ∷ [];
        header = record s.header { client_event_predicate = true; server_event_predicate = false };
        server = taking (suc k);
      } in
      subst (λ t. IsQueryTaken c t k) {x = s2} (grind (arith, v.flag, good))
        (record {
          state = v.state;
          waits = refl;
          signalled = refl;
          client = v.client;
          server = refl;
          before = (v.before, (s.header.bytes, v.here));
          got =
              parts-snoc c.produce_query k true s.header.bytes (so_far k s.query_got) v.here v.got;
        })

  pub server_consume-last :
      (s : Session) (k : ℕ)
      → IsQuerySent c s k false
      → c.consume_query (so_far k s.query_got) s.header.bytes s.header.more ≡ true
      → server_reply c (consumed k s) ≡ server_consume c k s
  unfolding server_consume
  server_consume-last s k v good = grind (arith, v.flag, good)

  pub consumed-IsMessage :
      (s : Session) (k : ℕ)
      → IsQuerySent c s k false
      → IsMessage c.produce_query (consumed k s).query_got
  consumed-IsMessage s k v = (
    k,
    v.before,
    (s.header.bytes, v.here),
    parts-snoc c.produce_query k false s.header.bytes (so_far k s.query_got) v.here v.got,
  )

  server_consume-Phase :
      (s : Session) (k : ℕ) (more : Bool) → IsQuerySent c s k more → Phase c (server_consume c k s)
  unfolding server_consume
  server_consume-Phase s k more v =
      elim (Bool-cases (c.consume_query (so_far k s.query_got) s.header.bytes s.header.more)) [
        | inr bad ↦
            subst (Phase c) (grind (arith, bad)) (server_fails-Phase c s (sent-open s k more v))
        | inl good ↦ consumed-Phase k more v good
      ]
    where
      consumed-Phase :
          (k : ℕ) (more : Bool)
          → IsQuerySent c s k more
          → c.consume_query (so_far k s.query_got) s.header.bytes s.header.more ≡ true
          → Phase c (server_consume c k s)
      consumed-Phase k true v good =
          query_taken-Phase (server_consume c k s) k (server_consume-IsQueryTaken s k v good)
      consumed-Phase k false v good =
          subst (Phase c) (server_consume-last s k v good)
            (server_reply-Phase (consumed k s) refl v.client (consumed-IsMessage s k v))

  pub server_recv-Phase :
      (s : Session) (k : ℕ) (more : Bool) → IsQuerySent c s k more → Phase c (server_recv c k s)
  unfolding server_recv
  server_recv-Phase s zero more v = elim (Handled-cases (c.input_handler s.header.bytes)) [
    | inl sets ↦
        subst (Phase c) (grind (arith, v.state, v.part, sets)) (server_consume-Phase s 0 more v)
    | inr (inl nothing) ↦
        subst (Phase c) (grind (arith, v.state, v.part, nothing))
          (server_stops-Phase c s (sent-open s 0 more v))
    | inr (inr failed) ↦
        subst (Phase c) (grind (arith, v.state, v.part, failed))
          (server_fails-Phase c s (sent-open s 0 more v))
  ]
  server_recv-Phase s (suc k) more v =
      subst (Phase c) (grind (arith, v.state, v.part)) (server_consume-Phase s (suc k) more v)
