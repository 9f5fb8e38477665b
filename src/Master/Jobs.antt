-- ===== src/Master/Jobs.antt =====
-- The member functions of Master that act on one job: setJobState, wipeJob, killJob,
-- cleanJobRemains and addJob.
use Prim.Native.String.{[] as empty_text, ◌∷◌ as char_then, ◌++◌ as append_text}
use Prim.Native.Char.{code}
use tinia.Prelude.{
  ℕ, String, Bool, true, false, not, ◌&&◌, ◌||◌, none, some, List, [], ◌∷◌, ◌++◌, if◌then◌else◌,
  str_eq, leb, ◌==◌, keep,
}
use tinia.Prelude.Int.{pos, negsuc}
use tinia.Prelude.Map.{find, insert, erase}
use tinia.Master.{
  JobState, not_started, terminated_unsuccessfully, same_state, is_terminated, Action, MessageType,
  message_error, message_ok, message_die, message_number, Job, sigkill, kill, send, wait,
  shm_unlink, sem_unlink, exec, Master, Host, act, concat,
}
use tinia.Master.Dump.{dump_master_state}

-- isalnum( c ) || c == '_', in the C locale, with `c` its code
unfoldable pub is_legal_char : ℕ → Bool
is_legal_char c =
    ((leb b'0' c && leb c b'9') || (leb b'A' c && leb c b'Z') || (leb b'a' c && leb c b'z'))
    || c == b'_'

unfoldable pub is_legal : String → Bool
unfolding is_legal_char
is_legal empty_text = true
is_legal (char_then c s) = let rest = is_legal s in if is_legal_char (code c) then rest else false

-- The variables of an environment that a job takes over.
unfoldable pub starts_with : String → String → Bool
starts_with empty_text s = true
starts_with (char_then c p) empty_text = false
starts_with (char_then c p) (char_then d s) =
    let rest = starts_with p s in if code c == code d then rest else false

unfoldable pub passes_on : String → Bool
unfolding starts_with
passes_on variable = not (starts_with "TINIA_" variable) || starts_with "TINIA_APP_ROOT=" variable

unfoldable pub join_devices : String → List String → String
join_devices devices [] = devices
join_devices devices (d ∷ ds) =
    join_devices (concat ((if str_eq devices "" then "" else append_text devices ";") ∷ d ∷ [])) ds

-- The environment of a job's process.
unfoldable pub job_environment : Host → Job → List String
unfolding join_devices passes_on
job_environment host job =
    (append_text "TINIA_JOB_ID=" job.id ∷ append_text "TINIA_MASTER_ID=" host.master_id ∷ [])
    ++ (elim job.rendering_devices [
      | [] ↦ []
      | _ ∷ _ ↦ append_text "TINIA_RENDERING_DEVICES=" (join_devices "" job.rendering_devices) ∷ []
    ])
    ++ keep passes_on host.environ

-- execvpe, the step that the child of a fork takes.
unfoldable pub exec_job : Host → Job → Action
unfolding job_environment
exec_job host job = exec job.executable (job.executable ∷ job.args) (job_environment host job)

-- IPCController::sendSmallMessage
unfoldable pub send_small_message : Host → String → MessageType → Master → Master × MessageType
unfolding act
send_small_message host box query m =
    (act (send box query) m, elim (host.reply_of box) [ none ↦ message_error | some reply ↦ reply ])

module _ (host : Host) where
  unfoldable pub set_job_state : String → JobState → Bool → Master → Master × Bool
  unfolding find insert dump_master_state
  set_job_state id state heartbeat m = elim (find id m.jobs) [
    | none ↦ (m, false)
    | some job ↦
        let job' = record job {
          state = state;
          last_ping = if heartbeat then host.now else job.last_ping;
        } in
        let m' = record m { jobs = insert id job' m.jobs } in
        (if same_state job.state state then m' else dump_master_state host m', true)
  ]

  unfoldable pub wipe_job : String → Master → Master × Bool
  unfolding find erase act dump_master_state
  wipe_job id m = elim (find id m.jobs) [
    | none ↦ (m, false)
    | some job ↦
        if not (is_terminated job.state)
        then (m, false)
        else let waited = act (wait job.pid) m in
          (dump_master_state host (record waited { jobs = erase id m.jobs }), true)
  ]

  -- killJob without force
  unfoldable pub ask_to_die : String → Master → Master × Bool
  unfolding send_small_message
  ask_to_die id m =
      if str_eq id ""
      then (m, false)
      else let (m', reply) = send_small_message host id message_die m in
        (m', message_number reply == message_number message_ok)

  -- killJob: with force on an unknown job, it calls itself without and drops what that answers.
  unfoldable pub kill_job : String → Bool → Master → Master × Bool
  unfolding find act ask_to_die
  kill_job id force m =
      if str_eq id ""
      then (m, false)
      else if force
      then elim (find id m.jobs) [
        | none ↦ ((ask_to_die id m).0, true)
        | some job ↦ (act (kill job.pid sigkill) m, host.kill_succeeds job.pid sigkill)
      ]
      else ask_to_die id m

  unfoldable pub new_job : Master → String → String → List String → List String → Job
  new_job m id exe args rendering_devices = record {
    id = id;
    pid = pos 42;
    executable = concat (m.application_root ∷ "/" ∷ exe ∷ []);
    state = not_started;
    last_ping = host.now;
    args = args;
    rendering_devices = rendering_devices;
  }

  -- What fork leaves in the parent's record of the job. The child becomes the job's program.
  unfoldable pub forked : Job → Master → Master
  unfolding insert act exec_job
  forked job m = elim host.fork [
    | negsuc n ↦
        let job' = record job { pid = negsuc 0; state = terminated_unsuccessfully } in
        record m { jobs = insert job.id job' m.jobs }
    | pos pid ↦
        let started = act (exec_job host job) m in
        record started { jobs = insert job.id (record job { pid = pos pid }) m.jobs }
  ]

  unfoldable pub add_job : String → String → List String → List String → Master → Master × Bool
  unfolding is_legal find insert new_job forked dump_master_state
  add_job id exe args rendering_devices m =
      if str_eq id "" || str_eq exe ""
      then (m, false)
      else if not (is_legal id)
      then (m, false)
      else if not (is_legal exe)
      then (m, false)
      else elim (find id m.jobs) [
        | some old ↦ (m, false)
        | none ↦
            let job = new_job m id exe args rendering_devices in
            let m' = record m { jobs = insert id job m.jobs } in
            (dump_master_state host (if m.for_real then forked job m' else m'), true)
      ]

unfoldable pub clean_job_remains : String → Master → Master
unfolding act
clean_job_remains id m =
    let of = λ (suffix : String). concat ("/" ∷ id ∷ suffix ∷ []) in
    act (sem_unlink (of "_notify")) (
      act (sem_unlink (of "_reply")) (
        act (sem_unlink (of "_query"))
          (act (sem_unlink (of "_lock")) (act (shm_unlink (of "_shmem")) m))))
