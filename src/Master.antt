-- ===== src/Master.antt =====
-- The master process: src/trell_master/Master.cpp and Master.hpp, with the message types of
-- include/tinia/trell/trell.h. This file has the state, and what the process asks of the system;
-- the member functions are in the modules below.
pub mod Dump
pub mod Jobs
pub mod Children
pub mod Table
pub mod Calls
pub mod Watch
pub mod Parse
pub mod Handle
pub mod Snarf
use Prim.Native.String.{◌++◌ as append_text}
use tinia.Prelude.{ℕ, String, Bool, Option, none, some, List, [], ◌∷◌, ◌++◌, ◌==◌, ◌||◌}
use tinia.Prelude.Int.{ℤ}
use tinia.Prelude.Map.{Map}

-- TrellJobState
pub data JobState : Type 0 where
  not_started running finished failed terminated_successfully terminated_unsuccessfully : JobState

-- TrellMessageType
pub data MessageType : Type 0 where
  message_error message_ok message_xml message_script message_heartbeat message_die
        message_get_policy_update message_update_state message_get_snapshot message_image
        message_get_renderlist message_get_scripts :
      MessageType

abbrev pub message_number : MessageType → ℕ
message_number message_error = 0
message_number message_ok = 1
message_number message_xml = 2
message_number message_script = 3
message_number message_heartbeat = 4
message_number message_die = 5
message_number message_get_policy_update = 6
message_number message_update_state = 7
message_number message_get_snapshot = 8
message_number message_image = 9
message_number message_get_renderlist = 10
message_number message_get_scripts = 11

pub record Job : Type 0 where
  pub id : String
  pub pid : ℤ
  pub executable : String
  pub state : JobState
  pub last_ping : ℕ
  pub args : List String
  pub rendering_devices : List String

pub data Signal : Type 0 where
  no_signal sigkill : Signal

-- The place of a state in the enumeration.
abbrev pub state_number : JobState → ℕ
state_number not_started = 0
state_number running = 1
state_number finished = 2
state_number failed = 3
state_number terminated_successfully = 4
state_number terminated_unsuccessfully = 5

-- a == b
abbrev pub same_state : JobState → JobState → Bool
same_state a b = state_number a == state_number b

-- The test of wipeJob and periodic.
abbrev pub is_terminated : JobState → Bool
is_terminated s = same_state s terminated_successfully || same_state s terminated_unsuccessfully

-- What the process has asked of the system.
pub data Action : Type 0 where
  -- kill(pid, signal)
  kill : ℤ → Signal → Action
  -- a message of no payload to a message box
  send : String → MessageType → Action
  -- the text written to /tmp/trell_master_state
  dump : String → Action
  -- waitpid(pid, NULL, WNOHANG)
  wait : ℤ → Action
  shm_unlink sem_unlink : String → Action
  -- execvpe(path, argv, envp) in the child
  exec : String → List String → List String → Action

pub record Master : Type 0 where
  pub for_real : Bool
  pub application_root : String
  -- std::unordered_map: the order of its entries means nothing.
  pub jobs : Map Job
  pub actions : List Action

-- What the system answers during one call, and the text that streams make of numbers.
pub record Host : Type 0 where
  -- getTime
  pub now : ℕ
  pub master_id : String
  pub environ : List String
  -- fork() in the parent: -1 or the child's id
  pub fork : ℤ
  -- kill(pid, signal) == 0
  pub kill_succeeds : ℤ → Signal → Bool
  -- The reply of a message box; `none` when the exchange fails or the reply has another size.
  pub reply_of : String → Option MessageType
  -- stream << pid, stream << time
  pub show_int : ℤ → String
  pub show_time : ℕ → String
  -- atoi(text), and the bytes in a text
  pub read_int : String → ℤ
  pub size : String → ℕ
  -- The three numbers in /proc/loadavg, as a stream prints them.
  pub load_1m : String
  pub load_5m : String
  pub load_15m : String
  -- What Applications and RenderingDevices answer: the time of the list of applications after
  -- refresh, and their texts.
  pub applications_timestamp : ℤ
  pub applications_xml : String
  pub rendering_devices_xml : String

unfoldable pub act : Action → Master → Master
act a m = record m { actions = m.actions ++ a ∷ [] }

-- The texts one after another.
abbrev pub concat : List String → String
concat [] = ""
concat (s ∷ ss) = append_text s (concat ss)
