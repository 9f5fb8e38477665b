-- ===== src/Ipc/Buffered.antt =====
-- Messages that lie in one buffer: sendrecv_buffered_producer and sendrecv_buffered_consumer of
-- ipc_msg_client.c, in a transaction.
use tinia.Prelude.{
  ℕ, zero, suc, ◌+◌, ◌≤◌, ◌<◌, ◌≡◌, refl, sym, ap, ◌∙◌, subst, Bool, true, false, Option, some,
  List, [], ◌∷◌, ◌++◌, ltb, length, arith, if◌then◌else◌, inl, inr, Bool-cases,
}
use tinia.Prelude.Int.{pos}
use mathlib.Core.List.{append_assoc, append-nil}
use tinia.Ipc.{
  Callbacks, Producer, Verdict, sets_callback, accepts, refuses, enters, wakes_client, step, run,
  start, client_enters, returned,
}
use tinia.Prelude.{length-append}
use tinia.Ipc.Phases.{bytes_in, parts, AllMore, IsMessage}
use tinia.Ipc.Wakes.{run-IsDelivered}
use tinia.Ipc.Progress.{IsWilling, HasParts, AllMore-at, le-cases, exchange, run-returned}

unfoldable pub first_bytes : ℕ → List ℕ → List ℕ
first_bytes zero xs = []
first_bytes (suc n) [] = []
first_bytes (suc n) (x ∷ xs) = x ∷ first_bytes n xs

unfoldable pub later_bytes : ℕ → List ℕ → List ℕ
later_bytes zero xs = xs
later_bytes (suc n) [] = []
later_bytes (suc n) (x ∷ xs) = later_bytes n xs

unfoldable pub joined : List (List ℕ) → List ℕ
joined [] = []
joined (part ∷ got) = part ++ joined got

-- sendrecv_buffered_producer: the part, with `more`, and what of the query is left behind it. `rest` is
-- the query from ctx->query_sent on.
unfoldable pub buffered_producer : ℕ → List ℕ → (Bool × List ℕ) × List ℕ
buffered_producer buffer_size rest =
    if ltb buffer_size (length rest)
    then ((true, first_bytes buffer_size rest), later_bytes buffer_size rest)
    else ((false, rest), [])

-- What is left of the query behind its first parts.
unfoldable pub query_rest : ℕ → List ℕ → ℕ → List ℕ
query_rest buffer_size query zero = query
query_rest buffer_size query (suc k) =
    (buffered_producer buffer_size (query_rest buffer_size query k)).1

abbrev pub buffered_query : ℕ → List ℕ → Producer
buffered_query buffer_size query k =
    some (buffered_producer buffer_size (query_rest buffer_size query k)).0

-- sendrecv_buffered_consumer: a reply that is too long for the caller's buffer is refused.
unfoldable pub buffered_consumer : ℕ → List (List ℕ) → List ℕ → Bool → Verdict
buffered_consumer reply_buffer_size got bytes more =
    if ltb reply_buffer_size (length (joined got) + length bytes) then refuses else accepts

joined-append :
    (got : List (List ℕ)) (part : List ℕ) → joined (got ++ part ∷ []) ≡ joined got ++ part
unfolding joined
joined-append [] part = append-nil part
joined-append (p ∷ got) part =
    ap (λ t. p ++ t) (joined-append got part) ∙ sym (append_assoc p (joined got) part)

first-later : (n : ℕ) (xs : List ℕ) → first_bytes n xs ++ later_bytes n xs ≡ xs
unfolding first_bytes later_bytes
first-later zero xs = refl
first-later (suc n) [] = refl
first-later (suc n) (x ∷ xs) = ap (λ t. x ∷ t) (first-later n xs)

length-later_bytes :
    (n : ℕ) (xs : List ℕ) → n ≤ length xs → length (later_bytes n xs) + n ≡ length xs
unfolding later_bytes
length-later_bytes zero xs l = omega arith
length-later_bytes (suc n) [] l = omega arith
length-later_bytes (suc n) (x ∷ xs) l = omega (arith, length-later_bytes n xs)

module _ (size : ℕ) where
  buffered_producer-whole :
      (rest : List ℕ) → (buffered_producer size rest).0.1 ++ (buffered_producer size rest).1 ≡ rest
  unfolding buffered_producer
  buffered_producer-whole rest = elim (Bool-cases (ltb size (length rest))) [
    | inl long ↦ grind (arith, long, first-later size rest)
    | inr short ↦ grind (arith, short, append-nil rest)
  ]

  -- No byte is lost or moved between the parts and the rest.
  parts-query_rest :
      (query : List ℕ) (k : ℕ)
      → joined (parts (buffered_query size query) k) ++ query_rest size query k ≡ query
  unfolding query_rest joined
  parts-query_rest query zero = refl
  parts-query_rest query (suc k) =
      let rest = query_rest size query k in
      let got = parts (buffered_query size query) k in
      ap (λ t. t ++ (buffered_producer size rest).1)
        (joined-append got (buffered_producer size rest).0.1)
      ∙ append_assoc (joined got) (buffered_producer size rest).0.1 (buffered_producer size rest).1
      ∙ ap (λ t. joined got ++ t) (buffered_producer-whole rest)
      ∙ parts-query_rest query k

  last-rest :
      (rest : List ℕ)
      → (buffered_producer size rest).0.0 ≡ false
      → (buffered_producer size rest).1 ≡ []
  unfolding buffered_producer
  last-rest rest q = elim (Bool-cases (ltb size (length rest))) [
    | inl long ↦ grind (arith, long)
    | inr short ↦ grind (arith, short)
  ]

  joined-IsMessage :
      (query : List ℕ) (got : List (List ℕ))
      → IsMessage (buffered_query size query) got
      → joined got ≡ query
  unfolding query_rest
  joined-IsMessage query got (n, all, (bytes, last), q) =
      let none_left = last-rest (query_rest size query n) (grind (arith, last)) in
      ap joined q
      ∙ sym (append-nil (joined (parts (buffered_query size query) (suc n))))
      ∙ ap (λ t. joined (parts (buffered_query size query) (suc n)) ++ t) (sym none_left)
      ∙ parts-query_rest query (suc n)

  -- The producer comes to its last part, since each part before it takes `size` bytes.
  query-ends :
      (query : List ℕ) (fuel k : ℕ)
      → 0 < size
      → AllMore (buffered_query size query) k
      → length (query_rest size query k) < fuel
      → (n : ℕ) × HasParts (buffered_query size query) n
  unfolding query_rest buffered_producer
  query-ends query zero k l all short = grind arith
  query-ends query (suc fuel) k l all short =
      let rest = query_rest size query k in
      elim (Bool-cases (ltb size (length rest))) [
        | inr last ↦ (k, (all, (rest, grind (arith, last))))
        | inl long ↦
            query-ends query fuel (suc k) l (all, (first_bytes size rest, grind (arith, long)))
              (grind (arith, long, length-later_bytes size rest))
      ]

-- IPCController::message_consumer (src/trell/IPCController.cpp), where handle does not throw: the query
-- must be shorter than the buffer.
unfoldable pub message_consumer : ℕ → List (List ℕ) → List ℕ → Bool → Bool
message_consumer buffer_size got bytes more = ltb (length (joined got) + length bytes) buffer_size

-- What a part adds to the length.
length-joined-parts :
    (f : Producer) (k : ℕ)
    → length (joined (parts f (suc k))) ≡ length (joined (parts f k)) + length (bytes_in (f k))
length-joined-parts f k =
    ap (λ (b : List ℕ). length b) (joined-append (parts f k) (bytes_in (f k)))
    ∙ length-append (joined (parts f k)) (bytes_in (f k))

length-parts :
    (f : Producer) (k m : ℕ) → k ≤ m → length (joined (parts f k)) ≤ length (joined (parts f m))
length-parts f k zero l =
    let same : k ≡ 0 = omega (arith, l) in
    subst (λ j. length (joined (parts f k)) ≤ length (joined (parts f j))) same (omega arith)
length-parts f k (suc m) l = elim (le-cases k (suc m) l) [
  | inl same ↦
      subst (λ j. length (joined (parts f k)) ≤ length (joined (parts f j))) same (omega arith)
  | inr below ↦ omega (arith, length-parts f k m (omega (arith, below)), length-joined-parts f m)
]

-- A part that is reached does not lie behind the last.
reached_le : (f : Producer) (m k : ℕ) → HasParts f m → AllMore f k → k ≤ m
reached_le f m k ends all = elim (Bool-cases (ltb m k)) [
  | inl y ↦ let (bytes, more) = AllMore-at f k m all (ground arith) in grind (arith, more, ends.1)
  | inr n ↦ ground arith
]

-- A part that is reached ends no later than the message.
part_le :
    (f : Producer) (m k : ℕ) (more : Bool) (bytes : List ℕ)
    → HasParts f m
    → AllMore f k
    → f k ≡ some (more, bytes)
    → length (joined (parts f k)) + length bytes ≤ length (joined (parts f (suc m)))
part_le f m k more bytes ends all here =
    let below = reached_le f m k ends all in
    omega (
      arith,
      length-parts f (suc k) (suc m) (omega (arith, below)),
      length-joined-parts f k,
      ap (λ o. length (bytes_in o)) here,
    )

-- The same of a query that lies in one buffer.
query_part_le :
    (size : ℕ) (query : List ℕ) (k : ℕ) (more : Bool) (bytes : List ℕ)
    → buffered_query size query k ≡ some (more, bytes)
    → length (joined (parts (buffered_query size query) k)) + length bytes ≤ length query
query_part_le size query k more bytes here =
    let f = buffered_query size query in
    omega (
      arith,
      length-append (joined (parts f (suc k))) (query_rest size query (suc k)),
      ap (λ (xs : List ℕ). length xs) (parts-query_rest size query (suc k)),
      length-joined-parts f k,
      ap (λ (o : Option (Bool × List ℕ)). length (bytes_in o)) here,
    )

-- Callbacks of the program: a query and a reply that lie in buffers, of which the query's part come from
-- the one and the reply's go to the other, and a server that reads the query into a buffer of its own.
pub record IsBuffered (c : Callbacks) (query : List ℕ) (size server_size reply_size : ℕ)
    : Type 0 where
  pub produces : c.produce_query ≡ buffered_query size query
  pub takes : c.consume_query ≡ message_consumer server_size
  pub input : (bytes : List ℕ) → c.input_handler bytes ≡ sets_callback
  pub output : (got : List (List ℕ)) → c.output_handler got ≡ sets_callback
  pub reads : c.consume_reply ≡ buffered_consumer reply_size

pub buffered-IsWilling :
    (c : Callbacks) (query : List ℕ) (size server_size reply_size : ℕ)
    → IsBuffered c query size server_size reply_size
    → 0 < size
    → length query < server_size
    → ((got : List (List ℕ))
        → joined got ≡ query
        → (m : ℕ) × HasParts (c.produce_reply got) m
          × (length (joined (parts (c.produce_reply got) (suc m))) ≤ reply_size))
    → IsWilling c
unfolding message_consumer buffered_consumer
buffered-IsWilling c query size server_size reply_size b l room reply = record {
  input = λ more bytes here. b.input bytes;
  takes = λ k more bytes all here.
      let fits =
        subst (λ f. length (joined (parts f k)) + length bytes ≤ length query) (sym b.produces)
          (query_part_le size query k more bytes
            (subst (λ f. f k ≡ some (more, bytes)) b.produces here)) in
      rw b.takes (ground (arith, fits, room));
  output = λ got had. b.output got;
  reads = λ got had k more bytes all here.
      let whole = joined-IsMessage size query got (subst (λ f. IsMessage f got) b.produces had) in
      let (m, ends, short) = reply got whole in
      let fits = part_le (c.produce_reply got) m k more bytes ends all here in
      rw b.reads (ground (arith, fits, short));
}

-- A query that lies in one buffer is sent in parts of the shared buffer's size, which is not 0, and the
-- transaction ends: there are numbers of parts after which the client, woken in turn with the server,
-- is back with 0, and what the server's consumer has had, joined, is the query. The callbacks are those
-- of the program; the query is shorter than the server's buffer, and the reply to it has a last part
-- and fits in the client's buffer.
pub run-buffered :
    (c : Callbacks) (query : List ℕ) (size server_size reply_size : ℕ)
    → IsBuffered c query size server_size reply_size
    → 0 < size
    → length query < server_size
    → ((got : List (List ℕ))
        → joined got ≡ query
        → (m : ℕ) × HasParts (c.produce_reply got) m
          × (length (joined (parts (c.produce_reply got) (suc m))) ≤ reply_size))
    → (n m : ℕ) × ((run c (enters ∷ wakes_client ∷ exchange n m) start).client ≡ returned (pos 0))
      × (joined (run c (enters ∷ wakes_client ∷ exchange n m) start).query_got ≡ query)
unfolding run step client_enters query_rest
run-buffered c query size server_size reply_size b l room reply =
    let willing = buffered-IsWilling c query size server_size reply_size b l room reply in
    let (n, ends) = query-ends size query (suc (length query)) 0 l tt (omega arith) in
    let query_ends = subst (λ f. HasParts f n) (sym b.produces) ends in
    let sent = joined-IsMessage size query (parts c.produce_query (suc n)) (
      subst (λ f. IsMessage f (parts c.produce_query (suc n))) b.produces
        (n, query_ends.0, query_ends.1, refl)) in
    let (m, reply_ends, short) = reply (parts c.produce_query (suc n)) sent in
    let es = enters ∷ wakes_client ∷ exchange n m in
    let back =
      run-returned c n m (step c enters start) willing query_ends reply_ends refl refl refl in
    let (had, replied) = run-IsDelivered c es (grind (arith, back)) in
    (
      n,
      m,
      back,
      joined-IsMessage size query (run c es start).query_got
          (subst (λ f. IsMessage f (run c es start).query_got) b.produces had),
    )
