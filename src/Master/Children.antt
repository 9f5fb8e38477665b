-- ===== src/Master/Children.antt =====
-- What Master does on its own: Master::periodic looks whether the jobs' processes are there, and
-- Master::often reaps the children that died.
use tinia.Prelude.{
  String, Bool, false, ◌&&◌, Option, none, some, List, [], ◌∷◌, if◌then◌else◌, ◌==◌,
}
use tinia.Prelude.Int.{ℤ, pos_part, neg_part}
use tinia.Prelude.Map.{Map, find}
use tinia.Master.{
  terminated_successfully, terminated_unsuccessfully, same_state, is_terminated, Job, kill,
  no_signal, Master, Host, act,
}
use tinia.Master.Dump.{dump_master_state}
use tinia.Master.Jobs.{set_job_state, clean_job_remains}

-- a == b on pid_t
abbrev pub same_pid : ℤ → ℤ → Bool
same_pid a b = pos_part a == pos_part b && neg_part a == neg_part b

-- The first job of the table with a process id.
unfoldable pub find_pid : ℤ → Map Job → Option Job
find_pid pid [] = none
find_pid pid ((k, job) ∷ jobs) =
    let rest = find_pid pid jobs in if same_pid job.pid pid then some job else rest

unfoldable pub keys : Map Job → List String
keys [] = []
keys ((k, job) ∷ jobs) = k ∷ keys jobs

module _ (host : Host) where
  -- One round of the loop of Master::periodic, at the entry of a key.
  unfoldable pub check_job : String → Master → Master
  unfolding find act set_job_state
  check_job k m = elim (find k m.jobs) [
    | none ↦ m
    | some job ↦
        if is_terminated job.state
        then m
        else let probed = act (kill job.pid no_signal) m in
          if host.kill_succeeds job.pid no_signal
          then probed
          else (set_job_state host job.id terminated_unsuccessfully false probed).0
  ]

  unfoldable pub check_jobs : List String → Master → Master
  unfolding check_job
  check_jobs [] m = m
  check_jobs (k ∷ ks) m = check_jobs ks (check_job k m)

  unfoldable pub periodic : Master → Master
  unfolding dump_master_state check_jobs keys
  periodic m = check_jobs (keys m.jobs) (dump_master_state host m)

  -- One dead child in Master::often.
  unfoldable pub reap : ℤ → Master → Master
  unfolding find_pid set_job_state clean_job_remains
  reap pid m = elim (find_pid pid m.jobs) [
    | none ↦ m
    | some job ↦
        if same_state job.state terminated_successfully
        then m
        else clean_job_remains job.id
            (set_job_state host job.id terminated_unsuccessfully false m).0
  ]

  -- Master::often after a SIGCHLD, with the process ids that waitpid finds one after another.
  unfoldable pub often : List ℤ → Master → Master
  unfolding reap
  often [] m = m
  often (pid ∷ pids) m = often pids (reap pid m)
