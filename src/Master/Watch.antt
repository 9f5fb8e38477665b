-- ===== src/Master/Watch.antt =====
-- What the timer and dead children do to every job of the table: Master::periodic and Master::often,
-- job by job.
use tinia.Prelude.{
  String, ◌≡◌, refl, sym, ap, ◌∙◌, inl, inr, Bool, true, false, not, ◌&&◌, Option, none, some, List,
  [], ◌∷◌, if◌then◌else◌, str_eq, eq_iff, arith, Option-cases, Bool-cases,
}
use tinia.Prelude.Int.{ℤ}
use tinia.Prelude.Map.{Map, find, IsSorted, find-insert, find-Above}
use tinia.Master.{
  terminated_unsuccessfully, terminated_successfully, same_state, Job, Master, Host, act,
  is_terminated, no_signal,
}
use tinia.Master.Dump.{dump_master_state}
use tinia.Master.Children.{check_job, check_jobs, periodic, find_pid, reap, often, keys, same_pid}
use tinia.Master.Table.{
  IsValid, dump-jobs, clean-jobs, set_job_state-jobs, check_job-IsValid, reap-IsValid,
}

-- A job after a look at its process.
abbrev pub checked : Host → Option Job → Option Job
checked host none = none
checked host (some job) =
    if is_terminated job.state
    then some job
    else if host.kill_succeeds job.pid no_signal
    then some job
    else some (record job { state = terminated_unsuccessfully })

checked_twice : (host : Host) (o : Option Job) → checked host (checked host o) ≡ checked host o
checked_twice host none = refl
checked_twice host (some job) = ground arith

listed : String → List String → Bool
listed j [] = false
listed j (k ∷ ks) = let rest = listed j ks in if str_eq k j then true else rest

listed-keys : (j : String) (jobs : Map Job) → listed j (keys jobs) ≡ false → find j jobs ≡ none
unfolding listed keys find
listed-keys j [] out = refl
listed-keys j ((k, a) ∷ jobs) out = ground (arith, listed-keys j jobs)

IsSorted-tail : (k : String) (a : Job) (jobs : Map Job) → IsSorted ((k, a) ∷ jobs) → IsSorted jobs
IsSorted-tail k a [] s = tt
IsSorted-tail k a ((j, b) ∷ jobs) s = s.1

module _ (host : Host) where
  find-check_job :
      (k j : String) (m : Master)
      → IsValid m.jobs
      → find j (check_job host k m).jobs
        ≡ (if str_eq k j then checked host (find j m.jobs) else find j m.jobs)
  unfolding check_job act
  find-check_job k j m v = elim (Option-cases (find k m.jobs)) [
    | inl missing ↦ ground (arith, eq_iff k j)
    | inr (job, found) ↦
        grind (arith, v.named k job found, set_job_state-jobs, find-insert, eq_iff k j)
  ]

  find-check_jobs :
      (ks : List String) (j : String) (m : Master)
      → IsValid m.jobs
      → find j (check_jobs host ks m).jobs
        ≡ (if listed j ks then checked host (find j m.jobs) else find j m.jobs)
  unfolding check_jobs listed
  find-check_jobs [] j m v = refl
  find-check_jobs (k ∷ ks) j m v = ground (
    arith,
    find-check_jobs ks j (check_job host k m) (check_job-IsValid host k m v),
    find-check_job k j m v,
    checked_twice host (find j m.jobs),
  )

  -- Master::periodic leaves every job that it knows as terminated, and every job whose process can
  -- be signalled, as it is. It marks all others as terminated unsuccessfully, and no job comes or goes.
  pub find-periodic :
      (j : String) (m : Master)
      → IsValid m.jobs
      → find j (periodic host m).jobs ≡ checked host (find j m.jobs)
  unfolding periodic
  find-periodic j m v =
      find-check_jobs (keys m.jobs) j (dump_master_state host m) (rw (dump-jobs host m) v)
      ∙ ground (arith, dump-jobs host m, listed-keys j m.jobs)

-- No two jobs have the same process.
abbrev pub IsDistinct : Map Job → Type 0
IsDistinct jobs =
    (j k : String) (a b : Job)
    → find j jobs ≡ some a
    → find k jobs ≡ some b
    → same_pid a.pid b.pid ≡ true
    → j ≡ k

-- A job after its process was found dead.
abbrev pub reaped : ℤ → Option Job → Option Job
reaped pid none = none
reaped pid (some job) =
    if same_pid job.pid pid && not (same_state job.state terminated_successfully)
    then some (record job { state = terminated_unsuccessfully })
    else some job

find_pid-find :
    (pid : ℤ) (job : Job) (jobs : Map Job)
    → IsSorted jobs
    → find_pid pid jobs ≡ some job
    → (same_pid job.pid pid ≡ true) × ((k : String) × (find k jobs ≡ some job))
unfolding find_pid find
find_pid-find pid job [] s q = ground arith
find_pid-find pid job ((k, a) ∷ jobs) s q = elim (Bool-cases (same_pid a.pid pid)) [
  | inl y ↦ (ground arith, (k, ground (arith, eq_iff k k)))
  | inr n ↦
      let (p, (j, found)) = find_pid-find pid job jobs (IsSorted-tail k a jobs s) (ground arith) in
      (p, (j, ground (arith, eq_iff k j, find-Above k jobs s)))
]

find_pid-none :
    (pid : ℤ) (j : String) (job : Job) (jobs : Map Job)
    → find_pid pid jobs ≡ none
    → find j jobs ≡ some job
    → same_pid job.pid pid ≡ false
unfolding find_pid find
find_pid-none pid j job [] none_left found = ground arith
find_pid-none pid j job ((k, a) ∷ jobs) none_left found =
    ground (arith, find_pid-none pid j job jobs)

same_process :
    (pid : ℤ) (o : Option Job) (b : Job)
    → reaped pid o ≡ some b
    → (a : Job) × (o ≡ some a) × (b.pid ≡ a.pid)
same_process pid none b q = ground arith
same_process pid (some a) b q = (a, refl, ground arith)

abbrev pub all_reaped : List ℤ → Option Job → Option Job
all_reaped [] o = o
all_reaped (pid ∷ pids) o = all_reaped pids (reaped pid o)

module _ (host : Host) where
  -- One dead child: the job with that process is marked, unless it had ended well.
  find-reap :
      (pid : ℤ) (j : String) (m : Master)
      → IsValid m.jobs
      → IsDistinct m.jobs
      → find j (reap host pid m).jobs ≡ reaped pid (find j m.jobs)
  unfolding reap
  find-reap pid j m v d = elim (Option-cases (find_pid pid m.jobs)) [
    | inl nobody ↦ elim (Option-cases (find j m.jobs)) [
      | inl missing ↦ ground arith
      | inr (job, found) ↦ ground (arith, find_pid-none pid j job m.jobs nobody found)
    ]
    | inr (job, first) ↦
        let (p, (k, found)) = find_pid-find pid job m.jobs v.sorted first in
        elim (Option-cases (find j m.jobs)) [
          | inl missing ↦
              grind (
                arith,
                v.named k job found,
                clean-jobs,
                set_job_state-jobs,
                find-insert,
                eq_iff k j,
              )
          | inr (a, there) ↦ grind (
            arith,
            v.named k job found,
            clean-jobs,
            set_job_state-jobs,
            find-insert,
            eq_iff k j,
            d j k a job there found,
          )
        ]
  ]

  reap-IsDistinct :
      (pid : ℤ) (m : Master)
      → IsValid m.jobs
      → IsDistinct m.jobs
      → IsDistinct (reap host pid m).jobs
  reap-IsDistinct pid m v d j k a b p q same =
      let (a₀, here, pa) = same_process pid (find j m.jobs) a (sym (find-reap pid j m v d) ∙ p) in
      let (b₀, there, pb) = same_process pid (find k m.jobs) b (sym (find-reap pid k m v d) ∙ q) in
      d j k a₀ b₀ here there (rw (← pa, ← pb) same)

  -- Master::often, when the jobs have different processes: each job whose process is among the dead
  -- children and that had not ended well is marked as terminated unsuccessfully. The other jobs are
  -- as before, and no job comes or goes.
  pub find-often :
      (pids : List ℤ) (j : String) (m : Master)
      → IsValid m.jobs
      → IsDistinct m.jobs
      → find j (often host pids m).jobs ≡ all_reaped pids (find j m.jobs)
  unfolding often
  find-often [] j m v d = refl
  find-often (pid ∷ pids) j m v d =
      find-often pids j (reap host pid m) (reap-IsValid host pid m v) (reap-IsDistinct pid m v d)
      ∙ ap (all_reaped pids) (find-reap pid j m v d)
