-- ===== src/Master/Snarf/Recovery.antt =====
-- What a new master recovers of the table that the former one dumped.
use mathlib.Core.List.{append-nil, append_assoc}
use tinia.Prelude.{
  String, ◌≡◌, refl, sym, ap, ◌∙◌, ◌≢◌, inl, inr, true, false, not, Option, none, some, List, [],
  ◌∷◌, ◌++◌, keep, arith, str_eq, eq_iff, Option-cases, Bool-cases,
}
use tinia.Prelude.Int.{ℤ}
use tinia.Prelude.Map.{Map, find, find-insert}
use tinia.Master.{
  JobState, not_started, running, finished, failed, terminated_successfully,
  terminated_unsuccessfully, Job, Master, Host,
}
use tinia.Master.Dump.{encode_state, encode_master_state}
use tinia.Master.Snarf.Document.{
  Markup, closes, print, nodes_of, text_nodes, arg_markup, behind_args, jobs_markup, table_markup,
  encode_master_state-print,
}
use tinia.Master.Parse.{XmlNode, start, end}
use tinia.Master.Snarf.{
  snarf_unknown, Snarfing, empty_job, no_fields, snarf_nodes, snarf_start, snarf_text, snarf_end,
  node_of, read_state, record_job, snarf_master_state,
}

abbrev pub leaf_nodes : String → String → List XmlNode → List XmlNode
leaf_nodes name s rest = start name false ∷ text_nodes s (end ∷ rest)

abbrev pub arg_nodes : List String → List XmlNode → List XmlNode
arg_nodes [] rest = rest
arg_nodes (a ∷ args) rest = leaf_nodes "arg" a (arg_nodes args rest)

-- The nodes of what encodeMasterState writes for a job, and for a table.
abbrev pub job_nodes : Host → Job → List XmlNode → List XmlNode
job_nodes host job rest =
    start "jobInfo" false
    ∷ leaf_nodes "job" job.id (
        leaf_nodes "pid" (host.show_int job.pid) (
          leaf_nodes "application" job.executable (
            arg_nodes job.args (
              leaf_nodes "state" (encode_state job.state)
                (start "allowed" false ∷ end ∷ end ∷ rest)))))

abbrev pub jobs_nodes : Host → Map Job → List XmlNode → List XmlNode
jobs_nodes host [] rest = rest
jobs_nodes host ((k, job) ∷ jobs) rest = job_nodes host job (jobs_nodes host jobs rest)

abbrev pub table_nodes : Host → Map Job → List XmlNode
table_nodes host jobs =
    start "reply" false ∷ start "jobList" false ∷ jobs_nodes host jobs (end ∷ end ∷ [])

-- What is left of a job: not its devices, the time of its last heartbeat, or its empty arguments.
abbrev pub recovered : Job → Job
recovered job = record job {
  last_ping = 0;
  rendering_devices = [];
  args = keep (λ a. not (str_eq a "")) job.args;
}

pub str_eq-full : (s : String) → s ≢ "" → str_eq s "" ≡ false
str_eq-full s named = ground (arith, eq_iff s "")

-- The variables once a job has been read.
abbrev after_job : Job → Snarfing → Snarfing
after_job job s =
    let s' = record s {
      job = recovered job;
      fields = record { job = true; pid = true; application = true; state = true };
    } in
    record s' { jobs = record_job s' }

module _ (host : Host) where
  -- A process id is read as it was written.
  abbrev pub ReadsPids : Type 0
  ReadsPids = (pid : ℤ) → (host.show_int pid ≢ "") × (host.read_int (host.show_int pid) ≡ pid)

  snarf_nodes-arg_nodes :
      (args : List String) (rest : List XmlNode) (s : Snarfing)
      → snarf_nodes host (arg_nodes args rest) s
        ≡ snarf_nodes host rest (record s {
          job = record s.job { args = s.job.args ++ keep (λ a. not (str_eq a "")) args };
        })
  unfolding snarf_nodes snarf_start snarf_text snarf_end node_of
  snarf_nodes-arg_nodes [] rest s = λ i.
      snarf_nodes host rest
        (record s { job = record s.job { args = sym (append-nil s.job.args) i } })
  snarf_nodes-arg_nodes (a ∷ args) rest s = elim (Bool-cases (str_eq a "")) [
    | inl y ↦ rw (y, keep) (snarf_nodes-arg_nodes args rest s)
    | inr n ↦ rw n (
        snarf_nodes-arg_nodes args rest
          (record s { job = record s.job { args = s.job.args ++ a ∷ [] } })
        ∙ λ i. snarf_nodes host rest (record s {
          job = record s.job {
            args = append_assoc s.job.args (a ∷ []) (keep (λ b. not (str_eq b "")) args) i;
          };
        }))
  ]

  snarf_nodes-state :
      (st : JobState) (rest : List XmlNode) (s : Snarfing)
      → snarf_nodes host (leaf_nodes "state" (encode_state st) rest) s
        ≡ snarf_nodes host rest (record s {
          job = record s.job { state = st };
          fields = record s.fields { state = true };
        })
  unfolding snarf_nodes snarf_start snarf_text snarf_end node_of encode_state read_state
  snarf_nodes-state not_started rest s = refl
  snarf_nodes-state running rest s = refl
  snarf_nodes-state finished rest s = refl
  snarf_nodes-state failed rest s = refl
  snarf_nodes-state terminated_successfully rest s = refl
  snarf_nodes-state terminated_unsuccessfully rest s = refl

  snarf_nodes-job_nodes :
      (job : Job) (rest : List XmlNode) (s : Snarfing)
      → ReadsPids
      → job.id ≢ ""
      → job.executable ≢ ""
      → snarf_nodes host (job_nodes host job rest) s ≡ snarf_nodes host rest (after_job job s)
  unfolding snarf_nodes snarf_start snarf_text snarf_end node_of
  snarf_nodes-job_nodes job rest s reads id exe =
      let (shown, back) = reads job.pid in
      rw
        (
          str_eq-full job.id id,
          str_eq-full (host.show_int job.pid) shown,
          str_eq-full job.executable exe,
        )
        (snarf_nodes-arg_nodes job.args _ _ ∙ snarf_nodes-state job.state _ _ ∙ λ i.
          snarf_nodes host rest (after_job (record job { pid = back i }) s))

-- Every job stands at its id, and its id and its program are not empty.
abbrev pub IsWhole : Map Job → Type 0
IsWhole [] = Unit
IsWhole ((k, job) ∷ jobs) = (job.id ≡ k) × (job.id ≢ "") × (job.executable ≢ "") × IsWhole jobs

abbrev after_jobs : Map Job → Snarfing → Snarfing
after_jobs [] s = s
after_jobs ((k, job) ∷ jobs) s = after_jobs jobs (after_job job s)

-- What a table holds at a key after another was read on top of it.
abbrev pub kept : Option Job → Option Job → Option Job
kept (some old) o = some old
kept none none = none
kept none (some job) = some (recovered job)

snarf_nodes-jobs_nodes :
    (host : Host) (jobs : Map Job) (rest : List XmlNode) (s : Snarfing)
    → ReadsPids host
    → IsWhole jobs
    → snarf_nodes host (jobs_nodes host jobs rest) s ≡ snarf_nodes host rest (after_jobs jobs s)
snarf_nodes-jobs_nodes host [] rest s reads whole = refl
snarf_nodes-jobs_nodes host ((k, job) ∷ jobs) rest s reads (_, id, exe, whole) =
    snarf_nodes-job_nodes host job (jobs_nodes host jobs rest) s reads id exe
    ∙ snarf_nodes-jobs_nodes host jobs rest (after_job job s) reads whole

stack-after_jobs : (jobs : Map Job) (s : Snarfing) → (after_jobs jobs s).stack ≡ s.stack
stack-after_jobs [] s = refl
stack-after_jobs ((k, job) ∷ jobs) s = stack-after_jobs jobs (after_job job s)

find-after_jobs :
    (jobs : Map Job) (s : Snarfing) (k : String)
    → IsWhole jobs
    → find k (after_jobs jobs s).jobs ≡ kept (find k s.jobs) (find k jobs)
unfolding find record_job
find-after_jobs [] s k whole = ground arith
find-after_jobs ((j, job) ∷ jobs) s k (at, id, exe, whole) =
    find-after_jobs jobs (after_job job s) k whole ∙ elim (Option-cases (find job.id s.jobs)) [
      | inl new ↦ ground (arith, find-insert job.id k (recovered job) s.jobs, eq_iff j k)
      | inr (old, there) ↦ ground (arith, eq_iff j k)
    ]

jobs-end :
    (host : Host) (s : Snarfing)
    → s.stack ≡ snarf_unknown ∷ snarf_unknown ∷ []
    → (snarf_nodes host (end ∷ end ∷ []) s).jobs ≡ s.jobs
unfolding snarf_nodes snarf_end
jobs-end host s q = ground arith

nodes_of-arg_markup :
    (args : List String) (rest : List Markup)
    → nodes_of (arg_markup args rest) ≡ arg_nodes args (nodes_of rest)
nodes_of-arg_markup [] rest = refl
nodes_of-arg_markup (a ∷ args) rest = ap (leaf_nodes "arg" a) (nodes_of-arg_markup args rest)

nodes_of-jobs_markup :
    (host : Host) (jobs : Map Job) (rest : List Markup)
    → nodes_of (jobs_markup host jobs rest) ≡ jobs_nodes host jobs (nodes_of rest)
unfolding encode_state
nodes_of-jobs_markup host [] rest = refl
nodes_of-jobs_markup host ((k, job) ∷ jobs) rest =
    ap
      (λ (nodes : List XmlNode).
        start "jobInfo" false
        ∷ leaf_nodes "job" job.id (
            leaf_nodes "pid" (host.show_int job.pid)
              (leaf_nodes "application" job.executable nodes)))
      (nodes_of-arg_markup job.args (behind_args host job (jobs_markup host jobs rest)))
    ∙ ap (job_nodes host job) (nodes_of-jobs_markup host jobs rest)

nodes_of-table_markup :
    (host : Host) (jobs : Map Job) → nodes_of (table_markup host jobs) ≡ table_nodes host jobs
nodes_of-table_markup host jobs =
    ap (λ (nodes : List XmlNode). start "reply" false ∷ start "jobList" false ∷ nodes)
      (nodes_of-jobs_markup host jobs (closes "" "jobList" "\n" ∷ closes "" "reply" "" ∷ []))

-- A master that starts with the file of the former one has each of its jobs again, with its id,
-- process, program and state, but without its devices, the time of its last heartbeat, and its empty
-- arguments. What encodeMasterState writes is the document `table_markup`; the hypotheses are that
-- libxml's reader reports of this document its tags and texts, and that process ids are read as they
-- were written.
pub find-snarf_master_state :
    (host : Host) (read : String → List XmlNode) (jobs : Map Job) (m : Master) (k : String)
    → read (print (table_markup host jobs)) ≡ nodes_of (table_markup host jobs)
    → ReadsPids host
    → IsWhole jobs
    → m.jobs ≡ []
    → find k (snarf_master_state host (read (encode_master_state host jobs)) m).jobs
      ≡ kept none (find k jobs)
unfolding snarf_master_state snarf_nodes snarf_start node_of
find-snarf_master_state host read jobs m k reads pids whole empty =
    let s : Snarfing = record {
      stack = snarf_unknown ∷ snarf_unknown ∷ [];
      job = empty_job;
      fields = no_fields;
      jobs = m.jobs;
    } in
    let run = snarf_nodes-jobs_nodes host jobs (end ∷ end ∷ []) s pids whole in
    let all = jobs-end host (after_jobs jobs s) (stack-after_jobs jobs s) in
    let nodes : read (encode_master_state host jobs) ≡ table_nodes host jobs =
      ap read (encode_master_state-print host jobs) ∙ reads ∙ nodes_of-table_markup host jobs in
    rw nodes (
      ap (λ (t : Snarfing). find k t.jobs) run
      ∙ ap (find k) all
      ∙ find-after_jobs jobs s k whole
      ∙ ap (λ (t : Map Job). kept (find k t) (find k jobs)) empty
      ∙ unfold find in refl)
