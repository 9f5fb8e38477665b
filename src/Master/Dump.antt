-- ===== src/Master/Dump.antt =====
-- Master::encodeMasterState and dumpMasterState: the table of jobs as text, to a client and to disc.
use tinia.Prelude.{String, List, [], ◌∷◌}
use tinia.Prelude.Map.{Map}
use tinia.Master.{
  JobState, not_started, running, finished, failed, terminated_successfully,
  terminated_unsuccessfully, Job, dump, Master, Host, act, concat,
}

abbrev pub ret_header : String
ret_header = concat (
    "<?xml version=\"1.0\"?>" ∷ "<reply "
    ∷ " xmlns:xsi=\"http://www.w3.org/2001/XMLSchema-instance\" "
    ∷ " xmlns=\"http://cloudviz.sintef.no/trell/1.0\"" ∷ ">" ∷ [])

abbrev pub ret_footer : String
ret_footer = "</reply>"

unfoldable pub encode_state : JobState → String
encode_state not_started = "NOT_STARTED"
encode_state running = "RUNNING"
encode_state finished = "FINISHED"
encode_state failed = "FAILED"
encode_state terminated_successfully = "TERMINATED_SUCCESSFULLY"
encode_state terminated_unsuccessfully = "TERMINATED_UNSUCCESSFULLY"

unfoldable pub encode_args : List String → String
encode_args [] = ""
encode_args (a ∷ args) = concat ("    <arg>" ∷ a ∷ "</arg>\n" ∷ encode_args args ∷ [])

module _ (host : Host) where
  unfoldable pub encode_job : Job → String
  unfolding encode_state encode_args
  encode_job job = concat (
      "  <jobInfo>\n"
      ∷ "    <job>"
      ∷ job.id
      ∷ "</job>\n"
      ∷ "    <pid>"
      ∷ host.show_int job.pid
      ∷ "</pid>\n"
      ∷ "    <application>"
      ∷ job.executable
      ∷ "</application>\n"
      ∷ encode_args job.args
      ∷ "    <state updated=\""
      ∷ host.show_time job.last_ping
      ∷ "\">"
      ∷ encode_state job.state
      ∷ "</state>\n"
      ∷ "    <allowed>"
      ∷ "</allowed>\n"
      ∷ "  </jobInfo>"
      ∷ [])

  unfoldable pub encode_jobs : Map Job → String
  unfolding encode_job
  encode_jobs [] = ""
  encode_jobs ((k, job) ∷ jobs) = concat (encode_job job ∷ encode_jobs jobs ∷ [])

  unfoldable pub encode_master_state : Map Job → String
  unfolding encode_jobs
  encode_master_state jobs =
      concat (ret_header ∷ "<jobList>\n" ∷ encode_jobs jobs ∷ "</jobList>\n" ∷ ret_footer ∷ [])

  unfoldable pub dump_master_state : Master → Master
  unfolding act encode_master_state
  dump_master_state m = act (dump (encode_master_state m.jobs)) m
