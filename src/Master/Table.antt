-- ===== src/Master/Table.antt =====
-- The table of jobs that every call of the master keeps: the keys ascend and are the jobs' own
-- ids, which are legal names.
use tinia.Prelude.{
  String, ◌≡◌, refl, inl, inr, Bool, true, false, none, some, List, [], ◌∷◌, if◌then◌else◌, eq_iff,
  arith, Option-cases,
}
use tinia.Prelude.Int.{ℤ, pos, negsuc, sign-cases}
use tinia.Prelude.Map.{
  Map, find, insert, erase, IsSorted, find-insert, find-erase, insert-IsSorted, erase-IsSorted,
}
use tinia.Master.{
  JobState, terminated_unsuccessfully, kill, no_signal, Job, Master, Host, act, is_terminated,
}
use tinia.Master.Dump.{dump_master_state}
use tinia.Master.Jobs.{
  is_legal, set_job_state, wipe_job, ask_to_die, send_small_message, kill_job, forked, new_job,
  add_job, clean_job_remains,
}
use tinia.Master.Children.{check_job, check_jobs, periodic, reap, often, keys}

pub dump-jobs : (host : Host) (m : Master) → (dump_master_state host m).jobs ≡ m.jobs
unfolding dump_master_state act
dump-jobs host m = refl

pub clean-jobs : (id : String) (m : Master) → (clean_job_remains id m).jobs ≡ m.jobs
unfolding clean_job_remains act
clean-jobs id m = refl

pub record IsValid (jobs : Map Job) : Type 0 where
  pub sorted : IsSorted jobs
  pub named : (k : String) (job : Job) → find k jobs ≡ some job → job.id ≡ k
  pub legal : (k : String) (job : Job) → find k jobs ≡ some job → is_legal k ≡ true

insert-IsValid :
    (job : Job) (jobs : Map Job)
    → is_legal job.id ≡ true
    → IsValid jobs
    → IsValid (insert job.id job jobs)
insert-IsValid job jobs l v = record {
  sorted = insert-IsSorted job.id job jobs v.sorted;
  named = λ k j q. ground (arith, find-insert job.id k job jobs, eq_iff job.id k, v.named k j);
  legal = λ k j q. ground (arith, find-insert job.id k job jobs, eq_iff job.id k, v.legal k j);
}

-- A job that replaces the one of its key.
replace-IsValid :
    (k : String) (job job' : Job) (jobs : Map Job)
    → find k jobs ≡ some job
    → job'.id ≡ job.id
    → IsValid jobs
    → IsValid (insert k job' jobs)
replace-IsValid k job job' jobs found same v = record {
  sorted = insert-IsSorted k job' jobs v.sorted;
  named = λ j i q.
      ground (arith, find-insert k j job' jobs, eq_iff k j, v.named k job found, v.named j i);
  legal = λ j i q.
      ground (arith, find-insert k j job' jobs, eq_iff k j, v.legal k job found, v.legal j i);
}

erase-IsValid : (k : String) (jobs : Map Job) → IsValid jobs → IsValid (erase k jobs)
erase-IsValid k jobs v = record {
  sorted = erase-IsSorted k jobs v.sorted;
  named = λ j i q. ground (arith, find-erase k j jobs, v.named j i);
  legal = λ j i q. ground (arith, find-erase k j jobs, v.legal j i);
}

if-IsValid :
    (b : Bool) (m m' : Master)
    → IsValid m.jobs
    → IsValid m'.jobs
    → IsValid (if b then m else m').jobs
if-IsValid true m m' v v' = v
if-IsValid false m m' v v' = v'

module _ (host : Host) where
  -- setJobState leaves the table as it is, or gives one job a new state and time.
  pub set_job_state-jobs :
      (id : String) (st : JobState) (b : Bool) (m : Master) (job : Job)
      → find id m.jobs ≡ some job
      → (set_job_state host id st b m).0.jobs
        ≡ insert id
            (record job { state = st; last_ping = if b then host.now else job.last_ping })
            m.jobs
  unfolding set_job_state dump_master_state act
  set_job_state-jobs id st b m job found = ground arith

  pub set_job_state-none :
      (id : String) (st : JobState) (b : Bool) (m : Master)
      → find id m.jobs ≡ none
      → set_job_state host id st b m ≡ (m, false)
  unfolding set_job_state
  set_job_state-none id st b m missing = ground arith

  set_job_state-IsValid :
      (id : String) (st : JobState) (b : Bool) (m : Master)
      → IsValid m.jobs
      → IsValid (set_job_state host id st b m).0.jobs
  set_job_state-IsValid id st b m v = elim (Option-cases (find id m.jobs)) [
    | inl missing ↦ rw (set_job_state-none id st b m missing) v
    | inr (job, found) ↦
        rw (set_job_state-jobs id st b m job found) (replace-IsValid id job _ m.jobs found refl v)
  ]

  wipe_job-IsValid :
      (id : String) (m : Master) → IsValid m.jobs → IsValid (wipe_job host id m).0.jobs
  unfolding wipe_job act dump_master_state
  wipe_job-IsValid id m v = grind (arith, erase-IsValid)

  pub kill_job-jobs :
      (id : String) (force : Bool) (m : Master) → (kill_job host id force m).0.jobs ≡ m.jobs
  unfolding kill_job act ask_to_die send_small_message
  kill_job-jobs id force m = ground arith

  forked-IsValid :
      (job : Job) (m : Master)
      → is_legal job.id ≡ true
      → IsValid m.jobs
      → IsValid (forked host job m).jobs
  unfolding forked act
  forked-IsValid job m l v = elim (sign-cases host.fork) [
    | inl (n, q) ↦ rw q (insert-IsValid (record job { pid = pos n }) m.jobs l v)
    | inr (n, q) ↦ rw q (
        insert-IsValid (record job { pid = negsuc 0; state = terminated_unsuccessfully }) m.jobs l
          v)
  ]

  -- addJob once it has refused nothing.
  added :
      (job : Job) (m : Master)
      → is_legal job.id ≡ true
      → IsValid m.jobs
      → let m' = record m { jobs = insert job.id job m.jobs } in
        IsValid (dump_master_state host (if m.for_real then forked host job m' else m')).jobs
  unfolding act dump_master_state
  added job m l v =
      let v' = insert-IsValid job m.jobs l v in
      let m' = record m { jobs = insert job.id job m.jobs } in
      if-IsValid m.for_real (forked host job m') m' (forked-IsValid job m' l v') v'

  add_job-IsValid :
      (id exe : String) (args devices : List String) (m : Master)
      → IsValid m.jobs
      → IsValid (add_job host id exe args devices m).0.jobs
  unfolding add_job new_job
  add_job-IsValid id exe args devices m v = elim (Option-cases (find id m.jobs)) [
    | inr (job, found) ↦ ground arith
    | inl missing ↦ grind (arith, added (new_job host m id exe args devices) m)
  ]

  pub check_job-IsValid :
      (k : String) (m : Master) → IsValid m.jobs → IsValid (check_job host k m).jobs
  unfolding check_job act
  check_job-IsValid k m v = elim (Option-cases (find k m.jobs)) [
    | inl missing ↦ ground arith
    | inr (job, found) ↦
        let probed = act (kill job.pid no_signal) m in
        let m' = (set_job_state host job.id terminated_unsuccessfully false probed).0 in
        let v' = set_job_state-IsValid job.id terminated_unsuccessfully false probed v in
        rw (check_job, found)
          (if-IsValid (is_terminated job.state) m _ v
            (if-IsValid (host.kill_succeeds job.pid no_signal) probed m' v v'))
  ]

  check_jobs-IsValid :
      (ks : List String) (m : Master) → IsValid m.jobs → IsValid (check_jobs host ks m).jobs
  unfolding check_jobs
  check_jobs-IsValid [] m v = v
  check_jobs-IsValid (k ∷ ks) m v =
      check_jobs-IsValid ks (check_job host k m) (check_job-IsValid k m v)

  periodic-IsValid : (m : Master) → IsValid m.jobs → IsValid (periodic host m).jobs
  unfolding periodic
  periodic-IsValid m v =
      check_jobs-IsValid (keys m.jobs) (dump_master_state host m) (rw (dump-jobs host m) v)

  pub reap-IsValid : (pid : ℤ) (m : Master) → IsValid m.jobs → IsValid (reap host pid m).jobs
  unfolding reap
  reap-IsValid pid m v = grind (arith, set_job_state-IsValid, clean-jobs)

  often-IsValid : (pids : List ℤ) (m : Master) → IsValid m.jobs → IsValid (often host pids m).jobs
  unfolding often
  often-IsValid [] m v = v
  often-IsValid (pid ∷ pids) m v = often-IsValid pids (reap host pid m) (reap-IsValid pid m v)

-- What makes the master act: a heartbeat of a job, the requests of a client, the timer, and dead
-- children.
pub data Event : Type 0 where
  heartbeat : String → JobState → Event
  wipe : String → Event
  kill_request : String → Bool → Event
  add : String → String → List String → List String → Event
  timer : Event
  children : List ℤ → Event

unfoldable pub step : Host → Event → Master → Master
step host (heartbeat id st) m = (set_job_state host id st true m).0
step host (wipe id) m = (wipe_job host id m).0
step host (kill_request id force) m = (kill_job host id force m).0
step host (add id exe args devices) m = (add_job host id exe args devices m).0
step host timer m = periodic host m
step host (children pids) m = often host pids m

-- The system's answers may be others at every event.
unfoldable pub steps : List (Host × Event) → Master → Master
unfolding step
steps [] m = m
steps ((host, e) ∷ es) m = steps es (step host e m)

pub step-IsValid :
    (host : Host) (e : Event) (m : Master) → IsValid m.jobs → IsValid (step host e m).jobs
unfolding step
step-IsValid host (heartbeat id st) m v = set_job_state-IsValid host id st true m v
step-IsValid host (wipe id) m v = wipe_job-IsValid host id m v
step-IsValid host (kill_request id force) m v = rw (kill_job-jobs host id force m) v
step-IsValid host (add id exe args devices) m v = add_job-IsValid host id exe args devices m v
step-IsValid host timer m v = periodic-IsValid host m v
step-IsValid host (children pids) m v = often-IsValid host pids m v

-- Whatever events the master meets, and whatever the system answers it, its table stays valid: the
-- keys ascend, each is the id of its job, and each is a legal name.
pub steps-IsValid :
    (es : List (Host × Event)) (m : Master) → IsValid m.jobs → IsValid (steps es m).jobs
unfolding steps
steps-IsValid [] m v = v
steps-IsValid ((host, e) ∷ es) m v = steps-IsValid es (step host e m) (step-IsValid host e m v)
