-- ===== src/Master/Calls.antt =====
-- What the calls on one job answer and leave in the table: wipeJob, addJob, killJob, periodic and
-- often.
use tinia.Prelude.{
  ℕ, ◌≤◌, ap, String, ◌≡◌, refl, ◌≢◌, ◌⊎◌, inl, inr, Bool, true, false, not, ◌&&◌, none, some, List,
  [], ◌∷◌, ◌++◌, if◌then◌else◌, str_eq, eq_iff, arith, Option-cases, Bool-cases,
}
use tinia.Prelude.Int.{pos, negsuc, sign-cases}
use tinia.Prelude.Map.{find, insert, erase, find-insert}
use Prim.Native.String.{[] as empty_text, ◌∷◌ as char_then}
use Prim.Native.Char.{code}
use tinia.Master.{
  JobState, not_started, running, finished, failed, terminated_successfully, wait, dump,
  terminated_unsuccessfully, Job, Master, Host, act, is_terminated, kill, sigkill, concat,
}
use tinia.Master.Dump.{dump_master_state, encode_master_state}
use tinia.Master.Jobs.{is_legal, is_legal_char, wipe_job, kill_job, forked, new_job, add_job}

-- What addJob asks of its arguments.
abbrev pub accepts : String → String → Bool
accepts id exe = not (str_eq id "") && (not (str_eq exe "") && (is_legal id && is_legal exe))

-- A job that starts, by what fork answers when processes are started for real.
abbrev pub Starts : Host → Bool → Job → Job → Type 0
Starts host real job job' =
    (job'.id ≡ job.id)
    × (job'.executable ≡ job.executable)
    × (job'.args ≡ job.args)
    × (job'.rendering_devices ≡ job.rendering_devices)
    × (job'.last_ping ≡ job.last_ping)
    × (real ≡ false → job' ≡ job)
    × (real ≡ true → (n : ℕ) → host.fork ≡ pos n → (job'.pid ≡ pos n) × (job'.state ≡ job.state))
    × (real ≡ true
        → (n : ℕ) → host.fork ≡ negsuc n
        → (job'.pid ≡ negsuc 0) × (job'.state ≡ terminated_unsuccessfully))

abbrev pub IsEnded : JobState → Type 0
IsEnded s = (s ≡ terminated_successfully) ⊎ (s ≡ terminated_unsuccessfully)

is_terminated-IsEnded : (s : JobState) → is_terminated s ≡ true → IsEnded s
is_terminated-IsEnded terminated_successfully h = inl refl
is_terminated-IsEnded terminated_unsuccessfully h = inr refl
is_terminated-IsEnded not_started h = ground arith
is_terminated-IsEnded running h = ground arith
is_terminated-IsEnded finished h = ground arith
is_terminated-IsEnded failed h = ground arith

IsEnded-is_terminated : (s : JobState) → IsEnded s → is_terminated s ≡ true
IsEnded-is_terminated s (inl q) = ap is_terminated q
IsEnded-is_terminated s (inr q) = ap is_terminated q

-- A letter, a digit or an underscore, by its code.
abbrev pub IsLegalChar : ℕ → Type 0
IsLegalChar c =
    ((48 ≤ c) × (c ≤ 57)) ⊎ (((65 ≤ c) × (c ≤ 90)) ⊎ (((97 ≤ c) × (c ≤ 122)) ⊎ (c ≡ 95)))

abbrev pub IsLegal : String → Type 0
IsLegal empty_text = Unit
IsLegal (char_then c s) = IsLegalChar (code c) × IsLegal s

is_legal_char-IsLegalChar :
    (c : ℕ) → (is_legal_char c ≡ true → IsLegalChar c) × (IsLegalChar c → is_legal_char c ≡ true)
unfolding is_legal_char
is_legal_char-IsLegalChar c = (λ h. ground arith, λ h. ground arith)

is_legal-IsLegal : (s : String) → (is_legal s ≡ true → IsLegal s) × (IsLegal s → is_legal s ≡ true)
unfolding is_legal
is_legal-IsLegal empty_text = (λ h. tt, λ h. refl)
is_legal-IsLegal (char_then c s) = (
  λ h. ground (arith, is_legal_char-IsLegalChar (code c), is_legal-IsLegal s),
  λ h. ground (arith, is_legal_char-IsLegalChar (code c), is_legal-IsLegal s),
)

module _ (host : Host) (id : String) (m : Master) where
  -- wipeJob answers true exactly if the job is there and is terminated, successfully or not. Then the
  -- job is gone and the others are as before, its process is waited for, and the table without it is
  -- dumped; otherwise the master is as before.
  pub wipe_job-cases :
      ((job : Job) × (find id m.jobs ≡ some job)
        × IsEnded job.state
        × ((wipe_job host id m).1 ≡ true)
        × ((wipe_job host id m).0.jobs ≡ erase id m.jobs)
        × ((wipe_job host id m).0.actions
            ≡ (m.actions ++ wait job.pid ∷ [])
              ++ dump (encode_master_state host (erase id m.jobs)) ∷ []))
      ⊎ ((((job : Job) → find id m.jobs ≡ some job → IsEnded job.state → ⊥))
          × (wipe_job host id m ≡ (m, false)))
  unfolding wipe_job act dump_master_state
  wipe_job-cases = elim (Option-cases (find id m.jobs)) [
    | inl missing ↦ inr (λ job q y. ground arith, ground arith)
    | inr (job, found) ↦ elim (Bool-cases (is_terminated job.state)) [
      | inl y ↦
          inl (
            job,
            found,
            is_terminated-IsEnded job.state y,
            ground arith,
            ground arith,
            ground arith,
          )
      | inr n ↦ inr (λ j q y. ground (arith, IsEnded-is_terminated j.state y), ground arith)
    ]
  ]

  -- addJob once it has refused nothing.
  started :
      (job : Job)
      → let m' = record m { jobs = insert job.id job m.jobs } in
        (job' : Job) × Starts host m.for_real job job'
        × ((j : String)
            → find j (dump_master_state host (if m.for_real then forked host job m' else m')).jobs
              ≡ (if str_eq job.id j then some job' else find j m.jobs))
  unfolding dump_master_state act forked
  started job = elim (Bool-cases m.for_real) [
    | inr dry ↦ (
      job,
      (refl, refl, refl, refl, refl, (λ _. refl), (λ r. ground arith), λ r. ground arith),
      λ j. grind (arith, find-insert),
    )
    | inl real ↦ elim (sign-cases host.fork) [
      | inl (n, q) ↦ (
        record job { pid = pos n },
        (
          refl,
          refl,
          refl,
          refl,
          refl,
          (λ r. ground arith),
          (λ r k h. ground arith),
          λ r k h. ground arith,
        ),
        λ j. grind (arith, find-insert),
      )
      | inr (n, q) ↦ (
        record job { pid = negsuc 0; state = terminated_unsuccessfully },
        (
          refl,
          refl,
          refl,
          refl,
          refl,
          (λ r. ground arith),
          (λ r k h. ground arith),
          λ r k h. ground arith,
        ),
        λ j. grind (arith, find-insert),
      )
    ]
  ]

  -- addJob answers true exactly if the id and the program are legal names that are not empty, and
  -- there is no such job. Then the job is in the table as it was given, with the process that fork
  -- made (terminated if fork failed), and the other jobs are as before; otherwise the master is as
  -- before.
  pub add_job-cases :
      (exe : String) (args devices : List String)
      → let (m', answer) = add_job host id exe args devices m in
        ((accepts id exe ≡ true)
          × (find id m.jobs ≡ none)
          × (answer ≡ true)
          × ((job : Job) × Starts host m.for_real (new_job host m id exe args devices) job
              × ((j : String)
                  → find j m'.jobs ≡ (if str_eq id j then some job else find j m.jobs))))
        ⊎ (((accepts id exe ≡ false) ⊎ ((old : Job) × (find id m.jobs ≡ some old)))
            × (add_job host id exe args devices m ≡ (m, false)))
  unfolding add_job new_job
  add_job-cases exe args devices = elim (Bool-cases (accepts id exe)) [
    | inr n ↦ inr (inl n, ground arith)
    | inl y ↦ elim (Option-cases (find id m.jobs)) [
      | inr (old, found) ↦ inr (inr (old, found), ground arith)
      | inl missing ↦
          let (job, made, at) = started (new_job host m id exe args devices) in
          inl (y, missing, ground arith, (job, made, λ j. ground (arith, at j)))
    ]
  ]

-- What addJob asks of the id and the program: legal names that are not empty.
abbrev pub IsAllowed : String → String → Type 0
IsAllowed id exe = (id ≢ "") × (exe ≢ "") × IsLegal id × IsLegal exe

accepts-IsAllowed :
    (id exe : String)
    → (accepts id exe ≡ true → IsAllowed id exe) × (IsAllowed id exe → accepts id exe ≡ true)
accepts-IsAllowed id exe = (
  (λ h. ground (arith, is_legal-IsLegal id, is_legal-IsLegal exe, eq_iff id "", eq_iff exe "")),
  (λ h. ground (arith, is_legal-IsLegal id, is_legal-IsLegal exe, eq_iff id "", eq_iff exe "")),
)

-- addJob answers true exactly if the id and the program are not empty and consist of letters, digits
-- and underscores, and there is no such job. Then the other jobs are as before, and the job has the id,
-- the arguments and the devices that were given, the program's path below the application root, the
-- present time as its last heartbeat, and, if processes are started for real, the process that fork
-- made and the state "not started", or -1 and "terminated unsuccessfully" if fork failed. Otherwise the
-- master is as before.
pub add_job_outcome :
    (host : Host) (id exe : String) (args devices : List String) (m : Master)
    → let (m', answer) = add_job host id exe args devices m in
      (IsAllowed id exe
        × (find id m.jobs ≡ none)
        × (answer ≡ true)
        × ((job : Job) × ((j : String)
              → find j m'.jobs ≡ (if str_eq id j then some job else find j m.jobs))
            × (job.id ≡ id)
            × (job.executable ≡ concat (m.application_root ∷ "/" ∷ exe ∷ []))
            × (job.args ≡ args)
            × (job.rendering_devices ≡ devices)
            × (job.last_ping ≡ host.now)
            × (m.for_real ≡ true
                → (n : ℕ) → host.fork ≡ pos n
                → (job.pid ≡ pos n) × (job.state ≡ not_started))
            × (m.for_real ≡ true
                → (n : ℕ) → host.fork ≡ negsuc n
                → (job.pid ≡ negsuc 0) × (job.state ≡ terminated_unsuccessfully))))
      ⊎ (((IsAllowed id exe → ⊥) ⊎ ((old : Job) × (find id m.jobs ≡ some old)))
          × (answer ≡ false)
          × (m' ≡ m))
unfolding new_job
add_job_outcome host id exe args devices m = elim (add_job-cases host id m exe args devices) [
  | inr (inl bad, q) ↦
      inr (inl (λ h. ground (arith, (accepts-IsAllowed id exe).1 h)), ground arith, ground arith)
  | inr (inr there, q) ↦ inr (inr there, ground arith, ground arith)
  | inl (y, missing, answered, (job, (named, path, given, devs, ping, dry, forks, fails), at)) ↦
      inl (
        (accepts-IsAllowed id exe).0 y,
        missing,
        answered,
        (job, at, named, path, given, devs, ping, forks, fails),
      )
]

-- A job whose process could not be forked has the process id -1. A forced killJob on it sends SIGKILL
-- to -1, which is every process that the master may signal.
pub kill_job-add_job :
    (host host' : Host) (id exe : String) (args devices : List String) (m : Master) (n : ℕ)
    → accepts id exe ≡ true
    → find id m.jobs ≡ none
    → m.for_real ≡ true
    → host.fork ≡ negsuc n
    → let m' = (add_job host id exe args devices m).0 in
      (kill_job host' id true m').0.actions ≡ m'.actions ++ kill (negsuc 0) sigkill ∷ []
unfolding kill_job act
kill_job-add_job host host' id exe args devices m n y missing real no_process =
    elim (add_job-cases host id m exe args devices) [
      | inr (inl n, _) ↦ ground arith
      | inr (inr (old, found), _) ↦ ground arith
      | inl (_, _, _, (job, (_, _, _, _, _, _, _, broken), at)) ↦
          ground (arith, at id, eq_iff id id, broken real n no_process)
    ]
