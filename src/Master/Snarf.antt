-- ===== src/Master/Snarf.antt =====
-- Master::snarfMasterState: the table of jobs from the file that a former master left, by the nodes
-- that libxml's reader reports of it.
pub mod Document
pub mod Recovery
use tinia.Prelude.{
  ℕ, String, Bool, true, false, ◌&&◌, Option, none, some, List, [], ◌∷◌, ◌++◌, if◌then◌else◌,
  str_eq,
}
use tinia.Prelude.Int.{ℤ, pos}
use tinia.Prelude.Map.{Map, find, insert}
use tinia.Master.{
  JobState, not_started, running, finished, failed, terminated_successfully,
  terminated_unsuccessfully, Job, Master, Host,
}
use tinia.Master.Parse.{XmlNode, start, text, end}

-- snarf::NodeType
pub data SnarfNode : Type 0 where
  snarf_unknown snarf_jobinfo snarf_job snarf_pid snarf_application snarf_arg snarf_state :
      SnarfNode

-- The bits of the variable `fields`.
pub record Fields : Type 0 where
  pub job : Bool
  pub pid : Bool
  pub application : Bool
  pub state : Bool

-- The variables of the loop, and m_jobs.
pub record Snarfing : Type 0 where
  pub stack : List SnarfNode
  pub job : Job
  pub fields : Fields
  pub jobs : Map Job

-- Job(), all zero
abbrev pub empty_job : Job
empty_job = record {
  id = "";
  pid = pos 0;
  executable = "";
  state = not_started;
  last_ping = 0;
  args = [];
  rendering_devices = [];
}

abbrev pub no_fields : Fields
no_fields = record { job = false; pid = false; application = false; state = false }

unfoldable pub node_of : String → SnarfNode
node_of name =
    if str_eq name "jobInfo"
    then snarf_jobinfo
    else if str_eq name "job"
    then snarf_job
    else if str_eq name "pid"
    then snarf_pid
    else if str_eq name "application"
    then snarf_application
    else if str_eq name "arg"
    then snarf_arg
    else if str_eq name "state"
    then snarf_state
    else snarf_unknown

unfoldable pub snarf_start : String → Snarfing → Snarfing
unfolding node_of
snarf_start name s =
    let s' =
      if str_eq name "jobInfo" then record s { job = empty_job; fields = no_fields } else s in
    record s' { stack = node_of name ∷ s.stack }

unfoldable pub read_state : String → Option JobState
read_state s =
    if str_eq s "NOT_STARTED"
    then some not_started
    else if str_eq s "RUNNING"
    then some running
    else if str_eq s "FINISHED"
    then some finished
    else if str_eq s "FAILED"
    then some failed
    else if str_eq s "TERMINATED_SUCCESSFULLY"
    then some terminated_successfully
    else if str_eq s "TERMINATED_UNSUCCESSFULLY"
    then some terminated_unsuccessfully
    else none

-- stack.back(); the reader reports texts and ends inside elements only.
abbrev pub top : List SnarfNode → SnarfNode
top [] = snarf_unknown
top (n ∷ stack) = n

abbrev pub popped : List SnarfNode → List SnarfNode
popped [] = []
popped (n ∷ stack) = stack

unfoldable pub snarf_text : Host → SnarfNode → String → Snarfing → Snarfing
unfolding read_state
snarf_text host snarf_job t s = record s {
  job = record s.job { id = t };
  fields = record s.fields { job = true };
}
snarf_text host snarf_pid t s = record s {
  job = record s.job { pid = host.read_int t };
  fields = record s.fields { pid = true };
}
snarf_text host snarf_application t s = record s {
  job = record s.job { executable = t };
  fields = record s.fields { application = true };
}
snarf_text host snarf_arg t s = record s { job = record s.job { args = s.job.args ++ t ∷ [] } }
snarf_text host snarf_state t s = elim (read_state t) [
  | none ↦ s
  | some state ↦ record s {
    job = record s.job { state = state };
    fields = record s.fields { state = true };
  }
]
snarf_text host _ t s = s

-- The end of a jobInfo, if every field was there.
unfoldable pub record_job : Snarfing → Map Job
unfolding find insert
record_job s =
    if s.fields.job && (s.fields.pid && (s.fields.application && s.fields.state))
    then elim (find s.job.id s.jobs) [ some old ↦ s.jobs | none ↦ insert s.job.id s.job s.jobs ]
    else s.jobs

unfoldable pub snarf_end : Snarfing → Snarfing
unfolding record_job
snarf_end s = record s {
  jobs = elim (top s.stack) [ snarf_jobinfo ↦ record_job s | _ ↦ s.jobs ];
  stack = popped s.stack;
}

unfoldable pub snarf_nodes : Host → List XmlNode → Snarfing → Snarfing
unfolding snarf_start snarf_text snarf_end
snarf_nodes host [] s = s
snarf_nodes host (start name is_empty_element ∷ nodes) s =
    snarf_nodes host nodes (snarf_start name s)
snarf_nodes host (text t ∷ nodes) s = snarf_nodes host nodes (snarf_text host (top s.stack) t s)
snarf_nodes host (end ∷ nodes) s = snarf_nodes host nodes (snarf_end s)

unfoldable pub snarf_master_state : Host → List XmlNode → Master → Master
unfolding snarf_nodes
snarf_master_state host nodes m = record m {
  jobs =
      (snarf_nodes host nodes
        (record { stack = []; job = empty_job; fields = no_fields; jobs = m.jobs })).jobs;
}
