-- ===== src/Ipc/Progress.antt =====
-- A transaction goes through if the two sides are woken in turn and no callback fails.
use tinia.Prelude.{
  ℕ, zero, suc, ◌+◌, ◌≤◌, ◌<◌, ◌≡◌, ◌⊎◌, inl, inr, refl, sym, ap, ◌∙◌, subst, Bool, true, false,
  some, List, [], ◌∷◌, arith, Option-cases,
}
use tinia.Prelude.Int.{pos}
use tinia.Ipc.{
  ready, client_to_server, accepts, sets_callback, Producer, Callbacks, entering, returned,
  listening, Session, so_far, client_send, client_took, client_recv, server_send, server_reply,
  server_consume, server_recv, client_wakes, server_wakes, server_fails, iterate, Event,
  wakes_client, wakes_server, step, run,
}
use tinia.Ipc.Phases.{
  parts, AllMore, IsQuerySent, IsMessage, IsQueryTaken, IsReplySent, IsReplyTaken,
}
use tinia.Ipc.Delivery.{
  client_send-IsQuerySent, server_send-IsReplySent, server_consume-IsQueryTaken,
  server_consume-last, consumed, consumed-IsMessage, parts-snoc,
}
use tinia.Ipc.Steps.{client_took-IsReplyTaken, read_reply}

-- On the parts of the query and of the reply to it, no callback fails, and no consumer asks for
-- long-polling.
pub record IsWilling (c : Callbacks) : Type 0 where
  pub input :
      (more : Bool) (bytes : List ℕ)
      → c.produce_query 0 ≡ some (more, bytes)
      → c.input_handler bytes ≡ sets_callback
  pub takes :
      (k : ℕ) (more : Bool) (bytes : List ℕ)
      → AllMore c.produce_query k
      → c.produce_query k ≡ some (more, bytes)
      → c.consume_query (parts c.produce_query k) bytes more ≡ true
  pub output :
      (got : List (List ℕ)) → IsMessage c.produce_query got → c.output_handler got ≡ sets_callback
  pub reads :
      (got : List (List ℕ))
      → IsMessage c.produce_query got
      → (k : ℕ) (more : Bool) (bytes : List ℕ) → AllMore (c.produce_reply got) k
      → c.produce_reply got k ≡ some (more, bytes)
      → c.consume_reply (parts (c.produce_reply got) k) bytes more ≡ accepts

-- A message with `n` parts before its last.
abbrev pub HasParts : Producer → ℕ → Type 0
HasParts f n = AllMore f n × ((bytes : List ℕ) × (f n ≡ some (false, bytes)))

-- The server, then the client, and so on, as often as there are parts of the reply behind the first.
abbrev pub turns : ℕ → List Event
turns zero = []
turns (suc n) = wakes_server ∷ wakes_client ∷ turns n

-- The same for the query's parts, and then the reply's.
abbrev pub exchange : ℕ → ℕ → List Event
exchange zero m = turns (suc m)
exchange (suc n) m = wakes_server ∷ wakes_client ∷ exchange n m

pub le-cases : (a b : ℕ) → a ≤ b → (a ≡ b) ⊎ (a < b)
le-cases a b l = ground arith

-- A part says that there are more if parts are left.
abbrev more_if : ℕ → Bool
more_if zero = false
more_if (suc r) = true

-- Every part before the last says that there are more.
pub AllMore-at :
    (f : Producer) (n k : ℕ) → AllMore f n → k < n → (bytes : List ℕ) × (f k ≡ some (true, bytes))
AllMore-at f zero k a l = grind arith
AllMore-at f (suc n) k (a, b) l = elim (le-cases k n (omega arith)) [
  | inl same ↦ subst (λ t. (bytes : List ℕ) × (f t ≡ some (true, bytes))) (sym same) b
  | inr below ↦ AllMore-at f n k a below
]

part-at :
    (f : Producer) (n k r : ℕ)
    → HasParts f n
    → k + r ≡ n
    → (bytes : List ℕ) × (f k ≡ some (more_if r, bytes))
part-at f n k zero v q =
    subst (λ j. (bytes : List ℕ) × (f j ≡ some (false, bytes))) (omega arith) v.1
part-at f n k (suc r) v q = AllMore-at f n k v.0 (omega arith)

so_far-suc : (k : ℕ) (got : List (List ℕ)) → so_far (suc k) got ≡ got
so_far-suc k got = ground arith

module _ (c : Callbacks) (willing : IsWilling c) where
  took :
      (s : Session) (k : ℕ) (more : Bool)
      → IsQuerySent c s k more
      → c.consume_query (so_far k s.query_got) s.header.bytes s.header.more ≡ true
  took s k more v = rw (v.got, v.flag) (willing.takes k more s.header.bytes v.before v.here)

  reads_on :
      (s : Session) (k : ℕ) (more w : Bool)
      → IsReplySent c s k more w
      → c.consume_reply (so_far k s.reply_got) s.header.bytes s.header.more ≡ accepts
  reads_on s k more w v =
      rw (v.got, v.flag) (willing.reads s.query_got v.query k more s.header.bytes v.before v.here)

  wakes-consume :
      (s : Session) (k : ℕ) (more : Bool)
      → IsQuerySent c s k more
      → server_consume c k s ≡ server_wakes c s
  unfolding server_wakes server_recv
  wakes-consume s zero more v =
      grind
        (arith, v.server, v.signalled, v.state, v.part, willing.input more s.header.bytes v.here)
  wakes-consume s (suc k) more v = grind (arith, v.server, v.signalled, v.state, v.part)

  wakes-taken : (s : Session) (k : ℕ) → IsQuerySent c s k true → IsQueryTaken c (server_wakes c s) k
  wakes-taken s k v =
      subst (λ t. IsQueryTaken c t k) (wakes-consume s k true v)
        (server_consume-IsQueryTaken c s k v (took s k true v))

  wakes-sent :
      (s : Session) (k : ℕ) (more : Bool) (bytes : List ℕ)
      → IsQueryTaken c s k
      → c.produce_query (suc k) ≡ some (more, bytes)
      → IsQuerySent c (client_wakes c s) (suc k) more
  unfolding client_wakes
  wakes-sent s k more bytes v found =
      subst (λ t. IsQuerySent c t (suc k) more) (grind (arith, v.client, v.signalled))
        (client_send-IsQuerySent c (suc k) s more bytes v.state v.server v.before
          (so_far-suc k s.query_got ∙ v.got) found)

  replied :
      (s : Session) → IsMessage c.produce_query s.query_got → server_send c 0 s ≡ server_reply c s
  unfolding server_reply
  replied s had = grind (arith, willing.output s.query_got had)

  server_send-query_got : (k : ℕ) (s : Session) → (server_send c k s).query_got ≡ s.query_got
  unfolding server_send server_fails iterate
  server_send-query_got k s = elim (Option-cases (c.produce_reply s.query_got k)) [
    | inl out ↦ grind (arith, out)
    | inr (p, found) ↦ grind (arith, found)
  ]

  wakes-reply :
      (s : Session) (k : ℕ) (more : Bool) (bytes : List ℕ)
      → IsQuerySent c s k false
      → c.produce_reply (consumed c k s).query_got 0 ≡ some (more, bytes)
      → IsReplySent c (server_wakes c s) 0 more false
  wakes-reply s k more bytes v found =
      subst (λ t. IsReplySent c t 0 more false)
        (replied (consumed c k s) (consumed-IsMessage c s k v)
          ∙ server_consume-last c s k v (took s k false v)
          ∙ wakes-consume s k false v)
        (server_send-IsReplySent c 0 false (consumed c k s) more bytes refl v.client
          (consumed-IsMessage c s k v) tt refl found)

  wakes-read :
      (s : Session) (k : ℕ) (more w : Bool)
      → IsReplySent c s k more w
      → client_took c k w (read_reply c k s) ≡ client_wakes c s
  unfolding client_wakes client_recv
  wakes-read s k more w v =
      grind (arith, v.client, v.signalled, v.state, v.part, reads_on s k more w v)

  wakes-read-more :
      (s : Session) (k : ℕ) (w : Bool)
      → IsReplySent c s k true w
      → IsReplyTaken c (client_wakes c s) k w
  wakes-read-more s k w v =
      subst (λ t. IsReplyTaken c t k w) (wakes-read s k true w v)
        (client_took-IsReplyTaken c s k w w v)

  wakes-read-last :
      (s : Session) (k : ℕ)
      → IsReplySent c s k false false
      → (client_wakes c s).client ≡ returned (pos 0)
  unfolding client_took
  wakes-read-last s k v =
      ap (λ t. t.client) (sym (wakes-read s k false false v)) ∙ grind (arith, v.flag)

  wakes-next :
      (s : Session) (k : ℕ) (more w : Bool) (bytes : List ℕ)
      → IsReplyTaken c s k w
      → c.produce_reply s.query_got (suc k) ≡ some (more, bytes)
      → IsReplySent c (server_wakes c s) (suc k) more w
  unfolding server_wakes
  wakes-next s k more w bytes v found =
      subst (λ t. IsReplySent c t (suc k) more w) (grind (arith, v.server, v.signalled))
        (server_send-IsReplySent c (suc k) w s more bytes v.state v.client v.query v.before
          (so_far-suc k s.reply_got ∙ v.got) found)

  wakes-reply-got :
      (s : Session) (k : ℕ)
      → IsQuerySent c s k false
      → (server_wakes c s).query_got ≡ (consumed c k s).query_got
  wakes-reply-got s k v =
      ap (λ t. t.query_got)
        (sym (
          replied (consumed c k s) (consumed-IsMessage c s k v)
          ∙ server_consume-last c s k v (took s k false v)
          ∙ wakes-consume s k false v))
      ∙ server_send-query_got 0 (consumed c k s)

  wakes-read-got :
      (s : Session) (k : ℕ)
      → IsReplySent c s k true false
      → (client_wakes c s).query_got ≡ s.query_got
  unfolding client_took
  wakes-read-got s k v =
      ap (λ t. t.query_got) (sym (wakes-read s k true false v)) ∙ grind (arith, v.flag)

  wakes-next-got :
      (s : Session) (k : ℕ) → IsReplyTaken c s k false → (server_wakes c s).query_got ≡ s.query_got
  unfolding server_wakes
  wakes-next-got s k v =
      ap (λ t. t.query_got) (sent-eq (server_send c (suc k) s) refl)
      ∙ server_send-query_got (suc k) s
    where
      sent-eq : (t : Session) → t ≡ server_send c (suc k) s → server_wakes c s ≡ t
      sent-eq t r = grind (arith, v.server, v.signalled, r)

  module _ (n m : ℕ) (query : HasParts c.produce_query n)
      (reply : HasParts (c.produce_reply (parts c.produce_query (suc n))) m) where
    -- Behind the query, the reply depends on what the server got.
    got-all :
        (s : Session) (k : ℕ)
        → k ≡ n
        → IsQuerySent c s k false
        → (consumed c k s).query_got ≡ parts c.produce_query (suc n)
    got-all s k q v =
        parts-snoc c.produce_query k false s.header.bytes (so_far k s.query_got) v.here v.got
        ∙ ap (λ j. parts c.produce_query (suc j)) q

    reply-run :
        (r k : ℕ) (s : Session)
        → k + r ≡ m
        → s.query_got ≡ parts c.produce_query (suc n)
        → IsReplySent c s k (more_if r) false
        → (run c (turns r) (client_wakes c s)).client ≡ returned (pos 0)
    unfolding run step
    reply-run zero k s q got v = wakes-read-last s k v
    reply-run (suc r) k s q got v =
        let s2 = client_wakes c s in
        let v2 = wakes-read-more s k false v in
        let got2 = wakes-read-got s k v ∙ got in
        let (bytes, next) =
          part-at (c.produce_reply (parts c.produce_query (suc n))) m (suc k) r reply
            (omega arith) in
        reply-run r (suc k) (server_wakes c s2) (omega arith) (wakes-next-got s2 k v2 ∙ got2) (
          wakes-next s2 k (more_if r) false bytes v2
            (ap (λ g. c.produce_reply g (suc k)) got2 ∙ next))

    query-run :
        (r k : ℕ) (s : Session)
        → k + r ≡ n
        → IsQuerySent c s k (more_if r)
        → (run c (exchange r m) s).client ≡ returned (pos 0)
    unfolding run step
    query-run zero k s q v =
        let got = got-all s k (omega arith) v in
        let (bytes, first) =
          part-at (c.produce_reply (parts c.produce_query (suc n))) m 0 m reply (omega arith) in
        reply-run m 0 (server_wakes c s) (omega arith) (wakes-reply-got s k v ∙ got)
          (wakes-reply s k (more_if m) bytes v (ap (λ g. c.produce_reply g 0) got ∙ first))
    query-run (suc r) k s q v =
        let (bytes, next) = part-at c.produce_query n (suc k) r query (omega arith) in
        query-run r (suc k) (client_wakes c (server_wakes c s)) (omega arith)
          (wakes-sent (server_wakes c s) k (more_if r) bytes (wakes-taken s k v) next)

    entered :
        (s : Session)
        → s.header.state ≡ ready
        → s.server ≡ listening
        → s.client ≡ entering
        → IsQuerySent c (client_wakes c s) 0 (more_if n)
    unfolding client_wakes
    entered s free here inside =
        let s2 : Session = record s { header = record s.header { state = client_to_server } } in
        let (bytes, first) = part-at c.produce_query n 0 n query (omega arith) in
        subst (λ t. IsQuerySent c t 0 (more_if n)) {x = client_send c 0 s2}
          (grind (arith, free, inside))
          (client_send-IsQuerySent c 0 s2 (more_if n) bytes refl here tt refl first)

-- A client that has entered, while the server is ready in its main loop, is back with 0 once the two
-- sides have been woken in turn for each part of the query and of the reply, if the query and the
-- reply to it each have a last part, and on these parts no callback fails or asks for long-polling.
pub run-returned :
    (c : Callbacks) (n m : ℕ) (s : Session)
    → IsWilling c
    → HasParts c.produce_query n
    → HasParts (c.produce_reply (parts c.produce_query (suc n))) m
    → s.header.state ≡ ready
    → s.server ≡ listening
    → s.client ≡ entering
    → (run c (wakes_client ∷ exchange n m) s).client ≡ returned (pos 0)
unfolding run step
run-returned c n m s willing query reply free here inside =
    query-run c willing n m query reply n 0 (client_wakes c s) (omega arith)
      (entered c willing n m query reply s free here inside)
