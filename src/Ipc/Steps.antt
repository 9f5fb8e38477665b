-- ===== src/Ipc/Steps.antt =====
-- Every step of a client and a server keeps to the phases, so that a client that comes back without
-- an error has had its query delivered and the whole reply.
use tinia.Prelude.{
  ℕ, suc, ◌≡◌, refl, ap, subst, Bool, true, false, [], ◌∷◌, ◌++◌, arith, if◌then◌else◌, inl, inr,
}
use tinia.Prelude.Int.{pos, negsuc}
use tinia.Ipc.{
  done, Callbacks, ClientAt, idle, entering, sending, receiving, polling, after_reply, returned,
  ServerAt, listening, taking, replying, finishing, stopped, Session, so_far, client_took,
  client_recv, client_wait_fails, server_times_out, server_wait_fails, client_enters,
}
use tinia.Ipc.Phases.{
  IsDelivered, succeeded, IsQuiet, client_after, IsReplySent, IsReplyTaken, Phase, quiet,
  query_sent, query_taken, reply_sent, reply_taken, client_fails-Phase, iterate-Phase, stop-Phase,
  not-succeeded,
}
use tinia.Ipc.Delivery.{reply_taken-Phase, parts-snoc, Verdict-cases, sent-open}

module _ (c : Callbacks) where
  quiet-Phase : (s : Session) → IsQuiet c s → Phase c s
  quiet-Phase s v = quiet v

  -- The consumer has had part `k` of the reply.
  abbrev pub read_reply : ℕ → Session → Session
  read_reply k s = record s { reply_got = so_far k s.reply_got ++ s.header.bytes ∷ [] }

  pub client_took-IsReplyTaken :
      (s : Session) (k : ℕ) (w w2 : Bool)
      → IsReplySent c s k true w
      → IsReplyTaken c (client_took c k w2 (read_reply k s)) k w2
  unfolding client_took
  client_took-IsReplyTaken s k w w2 v =
      let s3 : Session = record s {
        reply_got = so_far k s.reply_got ++ s.header.bytes ∷ [];
        header = record s.header { server_event_predicate = true; client_event_predicate = false };
        client = receiving (suc k) w2;
      } in
      subst (λ t. IsReplyTaken c t k w2) {x = s3} (grind (arith, v.flag))
        (record {
          state = v.state;
          waits = refl;
          signalled = refl;
          client = refl;
          server = v.server;
          query = v.query;
          before = (v.before, (s.header.bytes, v.here));
          got =
              parts-snoc (c.produce_reply s.query_got) k true s.header.bytes (so_far k s.reply_got)
                v.here v.got;
        })

  client_took-Phase :
      (s : Session) (k : ℕ) (more w w2 : Bool)
      → IsReplySent c s k more w
      → Phase c (client_took c k w2 (read_reply k s))
  unfolding client_took
  client_took-Phase s k true w w2 v =
      reply_taken-Phase c (client_took c k w2 (read_reply k s)) k w2
        (client_took-IsReplyTaken s k w w2 v)
  client_took-Phase s k false w w2 v =
      let s3 : Session = record s {
        reply_got = so_far k s.reply_got ++ s.header.bytes ∷ [];
        header = record s.header { state = done; server_event_predicate = true };
        client = if w2 then after_reply c.longpoll_timeout else returned (pos 0);
      } in
      subst (Phase c) (grind (arith, v.flag)) (
        quiet-Phase s3 (record {
          still = refl;
          listens = λ r. grind arith;
          delivered = λ r. (
            v.query,
            (
              k,
              v.before,
              (s.header.bytes, v.here),
              parts-snoc (c.produce_reply s.query_got) k false s.header.bytes (so_far k s.reply_got)
                  v.here v.got,
            ),
          );
        }))

  pub client_recv-Phase :
      (s : Session) (k : ℕ) (more w : Bool)
      → IsReplySent c s k more w
      → Phase c (client_recv c k w s)
  unfolding client_recv
  client_recv-Phase s k more w v =
      elim (Verdict-cases (c.consume_reply (so_far k s.reply_got) s.header.bytes s.header.more)) [
        | inl refused ↦
            subst (Phase c) (grind (arith, v.state, v.part, refused)) (client_fails-Phase c 0 s)
        | inr (inl accepted) ↦
            subst (Phase c) (grind (arith, v.state, v.part, accepted))
              (client_took-Phase s k more w w v)
        | inr (inr poll) ↦
            subst (Phase c) (grind (arith, v.state, v.part, poll))
              (client_took-Phase s k more w true v)
      ]

  abbrev is_open : ClientAt → Bool
  is_open (sending k) = true
  is_open (receiving k w) = true
  is_open other = false

  open-after : (k : ℕ) (more : Bool) → is_open (client_after c k more) ≡ true
  open-after k true = refl
  open-after k false = refl

  -- A client that is in no transaction.
  pub closed-IsQuiet : (s : Session) → Phase c s → is_open s.client ≡ false → IsQuiet c s
  closed-IsQuiet s (quiet v) q = v
  closed-IsQuiet s (query_sent k more v) q = grind (arith, v.client, open-after k more)
  closed-IsQuiet s (query_taken k v) q = grind (arith, v.client)
  closed-IsQuiet s (reply_sent k more w v) q = grind (arith, v.client)
  closed-IsQuiet s (reply_taken k w v) q = grind (arith, v.client)

  pub phase-IsDelivered : (s : Session) → Phase c s → succeeded c s.client ≡ true → IsDelivered c s
  phase-IsDelivered s (quiet v) q = v.delivered q
  phase-IsDelivered s (query_sent k more v) q = sent-open c s k more v q
  phase-IsDelivered s (query_taken k v) q = not-succeeded c (sending (suc k)) s v.client refl q
  phase-IsDelivered s (reply_sent k more w v) q = not-succeeded c (receiving k w) s v.client refl q
  phase-IsDelivered s (reply_taken k w v) q =
      not-succeeded c (receiving (suc k) w) s v.client refl q

  -- A client outside a transaction moves about.
  pub elsewhere :
      (s : Session) (a : ClientAt)
      → IsQuiet c s
      → succeeded c a ≡ false
      → Phase c (record s { client = a })
  elsewhere s a v f =
      quiet-Phase (record s { client = a })
        (record { still = v.still; listens = v.listens; delivered = λ q. grind arith })

  pub client_wait_fails-at :
      (n : ℕ) (s : Session) (a : ClientAt)
      → s.client ≡ a
      → Phase c s
      → Phase c (client_wait_fails (negsuc n) s)
  unfolding client_wait_fails
  client_wait_fails-at n s idle q v = subst (Phase c) (grind (arith, q)) v
  client_wait_fails-at n s entering q v =
      subst (Phase c) (grind (arith, q))
        (elsewhere s (returned (negsuc n)) (closed-IsQuiet s v (ap is_open q)) refl)
  client_wait_fails-at n s polling q v =
      subst (Phase c) (grind (arith, q))
        (elsewhere s (returned (negsuc n)) (closed-IsQuiet s v (ap is_open q)) refl)
  client_wait_fails-at n s (sending k) q v =
      subst (Phase c) (grind (arith, q)) (client_fails-Phase c n s)
  client_wait_fails-at n s (receiving k w) q v =
      subst (Phase c) (grind (arith, q)) (client_fails-Phase c n s)
  client_wait_fails-at n s (returned r) q v = subst (Phase c) (grind (arith, q)) v

  pub client_enters-at :
      (s : Session) (a : ClientAt) → s.client ≡ a → Phase c s → Phase c (client_enters s)
  unfolding client_enters
  client_enters-at s idle q v =
      subst (Phase c) (grind (arith, q))
        (elsewhere s entering (closed-IsQuiet s v (ap is_open q)) refl)
  client_enters-at s entering q v = subst (Phase c) (grind (arith, q)) v
  client_enters-at s (sending k) q v = subst (Phase c) (grind (arith, q)) v
  client_enters-at s (receiving k w) q v = subst (Phase c) (grind (arith, q)) v
  client_enters-at s polling q v =
      subst (Phase c) (grind (arith, q))
        (elsewhere s entering (closed-IsQuiet s v (ap is_open q)) refl)
  client_enters-at s (returned r) q v =
      subst (Phase c) (grind (arith, q))
        (elsewhere s entering (closed-IsQuiet s v (ap is_open q)) refl)

  pub server_times_out-at :
      (s : Session) (a : ServerAt) → s.server ≡ a → Phase c s → Phase c (server_times_out s)
  unfolding server_times_out
  server_times_out-at s listening q v = subst (Phase c) (grind (arith, q)) v
  server_times_out-at s (taking k) q v =
      subst (Phase c) (grind (arith, q)) (iterate-Phase c s (phase-IsDelivered s v))
  server_times_out-at s (replying k) q v =
      subst (Phase c) (grind (arith, q)) (iterate-Phase c s (phase-IsDelivered s v))
  server_times_out-at s finishing q v =
      subst (Phase c) (grind (arith, q)) (iterate-Phase c s (phase-IsDelivered s v))
  server_times_out-at s stopped q v = subst (Phase c) (grind (arith, q)) v

  pub server_wait_fails-at :
      (s : Session) (a : ServerAt) → s.server ≡ a → Phase c s → Phase c (server_wait_fails s)
  unfolding server_wait_fails
  server_wait_fails-at s listening q v =
      subst (Phase c) (grind (arith, q)) (stop-Phase c s (phase-IsDelivered s v))
  server_wait_fails-at s (taking k) q v =
      subst (Phase c) (grind (arith, q)) (stop-Phase c s (phase-IsDelivered s v))
  server_wait_fails-at s (replying k) q v =
      subst (Phase c) (grind (arith, q)) (stop-Phase c s (phase-IsDelivered s v))
  server_wait_fails-at s finishing q v =
      subst (Phase c) (grind (arith, q)) (stop-Phase c s (phase-IsDelivered s v))
  server_wait_fails-at s stopped q v = subst (Phase c) (grind (arith, q)) v
