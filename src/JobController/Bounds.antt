-- ===== src/JobController/Bounds.antt =====
-- What the answer to a snapshot query writes, against the size of the buffer
-- (src/trell/IPCJobController.cpp).
use tinia.Prelude.{
  ℕ, zero, suc, ◌+◌, ◌*◌, ◌%◌, ◌<◌, ◌≤◌, ◌≡◌, refl, ◌⊎◌, inl, inr, ◌≢◌, String, Option, List, [],
  ◌∷◌, length, arith,
}
use tinia.Master.{message_image}
use tinia.Model.Types.{Platform}
use tinia.Model.Errors.{Result-cases}
use tinia.Model.Exposed.{ExposedModel}
use tinia.JobController.{
  msg_size, Query, get_snapshot, get_scripts, JobController, SnapshotQuery, rgb, rgb_jpg_version,
  Outcome, replied, Write, JobCallbacks, image_size, size_mod,
}
use tinia.JobController.Snapshot.{
  payload, required, stride, read_flag, Loop, reached, failed, raised, grab_all, after_loop, fill,
  on_snapshot,
}

-- Every write ends before `limit`.
abbrev pub Within : ℕ → List Write → Type 0
Within limit [] = Unit
Within limit (w ∷ ws) = (w.offset + w.size ≤ limit) × Within limit ws

-- The reply is no longer than the buffer, and nothing is written behind its end.
abbrev pub IsFitting : ℕ → Outcome → List Write → Type 0
IsFitting buf_size (replied t n) ws = (n ≤ buf_size) × Within buf_size ws
IsFitting buf_size _ ws = Within buf_size ws

-- The queries for which the code requires as much room as it uses, in a size_t.
abbrev pub total : List ℕ → ℕ
total [] = 0
total (n ∷ ns) = n + total ns

abbrev pub IsMeasured : Query → ℕ → List ℕ → Type 0
IsMeasured (get_snapshot q) buf_size scripts =
    (stride q ≤ required q) × (required q * length q.keys < size_mod)
IsMeasured get_scripts buf_size scripts = msg_size + total scripts ≤ buf_size
IsMeasured _ buf_size scripts = Unit

-- What a key takes of the buffer is what is required for it, and the rest is for the other keys.
times_suc : (r n : ℕ) → r * suc n ≡ r + r * n
times_suc r n = omega arith

times_mono : (n r s : ℕ) → r ≤ s → r * n ≤ s * n
times_mono zero r s h = omega arith
times_mono (suc n) r s h = omega (arith, h, times_mono n r s h, times_suc r n, times_suc s n)

-- Where the loop over the keys of an RGB image gets, if it gets to the end.
grab_all-reached :
    (p : Platform) (c : JobCallbacks p) (q : SnapshotQuery) (a b : Option p.bool_type.Carrier)
    (m : ExposedModel) (ks : List String) (buf last : ℕ)
    → (grab_all p c q a b m ks buf).0 ≡ reached last
    → last ≡ buf + stride q * length ks
unfolding grab_all
grab_all-reached p c q a b m [] buf last h = ground arith
grab_all-reached p c q a b m (k ∷ ks) buf last h =
    grind (
      arith,
      grab_all-reached p c q a b m ks (buf + stride q) last,
      times_suc (stride q) (length ks),
    )

-- An image of one byte per colour whose bytes do not fill words leaves the loop past the end of what it
-- may send.
abbrev pub IsPacked : SnapshotQuery → Type 0
IsPacked q = (q.pixel_format ≡ rgb) ⊎ (q.pixel_format ≡ rgb_jpg_version)

past_payload :
    (q : SnapshotQuery) → IsPacked q → (3 * q.width * q.height) % 4 ≢ 0 → payload q + 1 ≤ stride q
unfolding payload stride
past_payload q packed ragged = grind (arith, packed, ragged)

times_suc_left : (r n : ℕ) → (r + 1) * n ≡ r * n + n
times_suc_left r n = omega arith

after_loop-image :
    (p : Platform) (c : JobCallbacks p) (q : SnapshotQuery) (data_size n : ℕ) (l : Loop)
    → after_loop p c q data_size l ≡ replied message_image n
    → (last : ℕ) × (l ≡ reached last) × (last ≤ image_size + data_size)
unfolding after_loop
after_loop-image p c q data_size n failed same = ground arith
after_loop-image p c q data_size n (raised x) same = ground arith
after_loop-image p c q data_size n (reached last) same = (last, refl, ground arith)

fill-ragged :
    (p : Platform) (c : JobCallbacks p) (q : SnapshotQuery) (buf_size n : ℕ) (m : ExposedModel)
    → IsPacked q
    → (3 * q.width * q.height) % 4 ≢ 0
    → 0 < length q.keys
    → (fill p c q buf_size m).0 ≢ replied message_image n
unfolding fill after_loop
fill-ragged p c q buf_size n m packed ragged some_key same =
    let more = past_payload q packed ragged in
    let longer = times_mono (length q.keys) (payload q + 1) (stride q) more in
    elim (Result-cases (read_flag p c q "ap_16_bit_depth" m)) [
      | inl (x, f) ↦ ground arith
      | inr (depth16, f) ↦ elim (Result-cases (read_flag p c q "ap_dump" m)) [
        | inl (x, g) ↦ ground arith
        | inr (dump_images, g) ↦
            let looped = grab_all p c q depth16 dump_images m q.keys image_size in
            let end : after_loop p c q (payload q * length q.keys % size_mod) looped.0
                ≡ replied message_image n =
              grind (arith, f, g, same) in
            let (last, at, short) = after_loop-image p c q _ n looped.0 end in
            omega (
              arith,
              grab_all-reached p c q depth16 dump_images m q.keys image_size last at,
              short,
              longer,
              some_key,
              times_suc_left (payload q) (length q.keys),
            )
      ]
    ]

-- A snapshot query for at least one key, in a format of one byte per colour and no depth, is never answered
-- with an image if the bytes of the image are not a multiple of four.
pub on_snapshot-ragged :
    (p : Platform) (c : JobCallbacks p) (q : SnapshotQuery) (buf_size n : ℕ) (m : ExposedModel)
    → IsPacked q
    → (3 * q.width * q.height) % 4 ≢ 0
    → 0 < length q.keys
    → (on_snapshot p c q buf_size m).0 ≢ replied message_image n
unfolding on_snapshot
on_snapshot-ragged p c q buf_size n m packed ragged some_key =
    grind (arith, fill-ragged p c q buf_size n m packed ragged some_key)
