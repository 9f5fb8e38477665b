-- ===== src/JobController.antt =====
-- IPCJobController (src/trell/IPCJobController.cpp): how a job answers the messages that reach it, with
-- the message structs of include/tinia/trell/trell.h. The modules below have the answer to a snapshot
-- query, the other answers, and the bounds of what is written.
pub mod Snapshot
pub mod Handle
pub mod Bounds
use tinia.Prelude.{ℕ, String, Bool, Option, List}
use tinia.Master.{MessageType}
use tinia.Model.Types.{Platform, CppType}
use tinia.Model.Errors.{Error}

-- TrellPixelFormat, where `undefined_format` is every number but the other three.
pub data PixelFormat : Type 0 where
  rgb rgb_custom_depth rgb_jpg_version undefined_format : PixelFormat

-- tinia_msg_get_snapshot_t. `keys` is what boost::split makes of viewer_key_list at its commas.
pub record SnapshotQuery : Type 0 where
  pub pixel_format : PixelFormat
  pub width : ℕ
  pub height : ℕ
  pub depth_w : ℕ
  pub depth_h : ℕ
  pub session_id : String
  pub keys : List String

-- A message that the controller is sent.
pub data Query : Type 0 where
  die : Query
  get_policy_update : (revision : ℕ) → Query
  get_snapshot : SnapshotQuery → Query
  get_renderlist : (session_id key timestamp : String) → Query
  -- The payload is the number of bytes behind the struct.
  update_state : (session_id : String) (payload : ℕ) → Query
  get_scripts other_query : Query

-- How a call ends: with a reply of that type and size, with an exception, or with an int that
-- overflows, whose behaviour C++ leaves open.
pub data Outcome : Type 0 where
  replied : MessageType → ℕ → Outcome
  thrown : Error → Outcome
  overflowed : Outcome

-- A write into the message's buffer: where it starts, and its length.
pub record Write : Type 0 where
  pub offset : ℕ
  pub size : ℕ

-- What the virtual functions of the job's class answer. A grab is onGetSnapshot for a key, with
-- depth16 and dump_images when the model has them: whether it succeeds, and how many bytes it writes
-- from `buf` on.
pub record JobCallbacks (p : Platform) : Type 0 where
  pub grab :
      SnapshotQuery
      → Option (Platform.bool_type p).Carrier
      → Option (Platform.bool_type p).Carrier
      → String
      → Bool × ℕ
  -- XMLHandler::getExposedModelUpdate of a revision, into a buffer of that size: what it returns, and
  -- how many bytes it writes from the buffer's beginning on
  pub get_exposed_model_update : ℕ → ℕ → ℕ × ℕ
  -- onGetRenderlist: the size of the result, if it succeeds, and how many bytes it writes
  pub on_get_renderlist : ℕ → String → String → String → Option ℕ × ℕ
  -- XMLHandler::updateState: whether it succeeds, and how many calls of the controller's listener
  -- functions it and the end of the lock bring about
  pub update : ℕ → Bool × ℕ

-- The members that the answers change; a notification is a call of ipc_msg_server_notify.
pub record JobController : Type 0 where
  pub update_ongoing : Bool
  pub failed : Bool
  pub notifications : ℕ
  -- m_scripts: the bytes in each
  pub scripts : List ℕ

-- sizeof(tinia_msg_t), which is that of tinia_msg_xml_t and tinia_msg_script_t too
abbrev pub msg_size : ℕ
msg_size = 4

-- sizeof(tinia_msg_image_t)
abbrev pub image_size : ℕ
image_size = 24

-- What a size_t and an int hold.
abbrev pub size_mod : ℕ
size_mod = 18446744073709551616

abbrev pub int_mod : ℕ
int_mod = 2147483648
