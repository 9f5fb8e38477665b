-- ===== src/JobController/Snapshot.antt =====
-- The answer to TRELL_MESSAGE_GET_SNAPSHOT in IPCJobController::handle (src/trell/IPCJobController.cpp).
use Prim.Native.Nat.{◌/◌}
use tinia.Prelude.{
  ℕ, ◌+◌, ◌*◌, ◌%◌, String, Bool, true, false, not, ◌&&◌, Option, none, some, List, [], ◌∷◌, ltb,
  leb, length, if◌then◌else◌,
}
use tinia.Master.{message_error, message_image}
use tinia.Model.Types.{Platform}
use tinia.Model.Errors.{Error, Result, ok, err}
use tinia.Model.Exposed.{ExposedModel}
use tinia.Model.Exposed.Query.{has_element, get_element_value, get_viewer}
use tinia.JobController.{
  SnapshotQuery, rgb_custom_depth, undefined_format, Outcome, replied, thrown, overflowed, Write,
  JobCallbacks, msg_size, image_size, size_mod, int_mod,
}

-- 4*((3*w*h+3)/4)
abbrev pub packed : ℕ → ℕ → ℕ
packed w h = 4 * ((3 * w * h + 3) / 4)

-- sizeof(float)*16*2
abbrev pub matrices : ℕ
matrices = 128

-- data_size for one key. Both depth_width and depth_height are q->depth_h.
unfoldable pub payload : SnapshotQuery → ℕ
payload q = elim q.pixel_format [
  | rgb_custom_depth ↦ packed q.width q.height + packed q.depth_h q.depth_h + matrices
  | undefined_format ↦ 0
  | _ ↦ 3 * q.width * q.height
]

-- buf_size_required for one key
unfoldable pub required : SnapshotQuery → ℕ
required q = elim q.pixel_format [
  | rgb_custom_depth ↦ packed q.width q.height + 4 * q.width * q.height + matrices
  | undefined_format ↦ 0
  | _ ↦ 3 * q.width * q.height
]

-- How far `buf` moves for one key.
unfoldable pub stride : SnapshotQuery → ℕ
stride q = elim q.pixel_format [
  | rgb_custom_depth ↦ packed q.width q.height + packed q.depth_h q.depth_h + matrices
  | undefined_format ↦ 0
  | _ ↦ packed q.width q.height
]

-- Whether the products that the code makes of w, h and the depth sizes fit in an int.
unfoldable pub is_int : SnapshotQuery → Bool
is_int q = elim q.pixel_format [
  | rgb_custom_depth ↦
      ltb (4 * q.width) int_mod
      && ltb (4 * q.width * q.height + packed q.width q.height) int_mod
      && ltb (3 * q.width * q.height + 3) int_mod
      && ltb (3 * q.depth_h) int_mod
      && ltb (3 * q.depth_h * q.depth_h + 3) int_mod
  | undefined_format ↦ true
  | _ ↦ ltb (3 * q.width) int_mod && ltb (3 * q.width * q.height + 3) int_mod
]

-- How the loop over the keys ends.
pub data Loop : Type 0 where
  reached : ℕ → Loop
  failed : Loop
  raised : Error → Loop

module _ (p : Platform) (c : JobCallbacks p) (q : SnapshotQuery) where
  -- A flag of the model, if it has the element.
  unfoldable pub read_flag : String → ExposedModel → Result (Option p.bool_type.Carrier)
  unfolding has_element get_element_value
  read_flag k m =
      if has_element k m
      then (elim (get_element_value p p.bool_type k m).0 [ err x ↦ err x | ok v ↦ ok (some v) ])
      else ok none

  module _ (depth16 dump_images : Option p.bool_type.Carrier) (m : ExposedModel) where
    -- The loop over the keys from `buf` on, and what it writes.
    unfoldable pub grab_all : List String → ℕ → Loop × List Write
    unfolding stride get_viewer
    grab_all [] buf = (reached buf, [])
    grab_all (k ∷ ks) buf =
        let grabbed = c.grab q depth16 dump_images k in
        let pixels : Write = record { offset = buf; size = grabbed.1 } in
        elim grabbed.0 [
          | false ↦ (failed, pixels ∷ [])
          | true ↦
              let rest = grab_all ks (buf + stride q) in
              elim q.pixel_format [
                | rgb_custom_depth ↦ elim (get_viewer p k m).0 [
                  | err x ↦ (raised x, pixels ∷ [])
                  | ok viewer ↦
                      let floats : Write = record {
                        offset = buf + packed q.width q.height + packed q.depth_h q.depth_h;
                        size = matrices;
                      } in
                      (rest.0, pixels ∷ floats ∷ rest.1)
                ]
                | _ ↦ (rest.0, pixels ∷ rest.1)
              ]
        ]

  -- The end of the case, from where the loop got.
  unfoldable pub after_loop : ℕ → Loop → Outcome
  after_loop data_size failed = replied message_error msg_size
  after_loop data_size (raised x) = thrown x
  after_loop data_size (reached buf) =
      if ltb (image_size + data_size) buf
      then replied message_error msg_size
      else replied message_image (image_size + data_size)

  -- The case from the test of the buffer's size on.
  unfoldable pub fill : ℕ → ExposedModel → Outcome × List Write
  unfolding payload required read_flag grab_all after_loop
  fill buf_size m =
      let data_size = (payload q * length q.keys) % size_mod in
      let buf_size_required = (required q * length q.keys) % size_mod in
      if leb buf_size (buf_size_required + image_size)
      then (replied message_error msg_size, [])
      else (elim (read_flag "ap_16_bit_depth" m) [
        | err x ↦ (thrown x, [])
        | ok depth16 ↦ elim (read_flag "ap_dump" m) [
          | err x ↦ (thrown x, [])
          | ok dump_images ↦
              let looped = grab_all depth16 dump_images m q.keys image_size in
              (after_loop data_size looped.0, looped.1)
        ]
      ])

  -- The whole case, for a buffer of that size.
  unfoldable pub on_snapshot : ℕ → ExposedModel → Outcome × List Write
  unfolding is_int fill
  on_snapshot buf_size m = if not (is_int q) then (overflowed, []) else (elim q.pixel_format [
    | undefined_format ↦ (replied message_error msg_size, [])
    | _ ↦ fill buf_size m
  ])
