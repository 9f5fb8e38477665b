-- ===== src/Examples/Master.antt =====
-- The theorems on the master, at concrete calls.
use Prim.Native.String.{[] as empty_text, ◌∷◌ as char_then}
use tinia.Prelude.{
  ◌<◌, ℕ, suc, ◌≡◌, refl, sym, ◌∙◌, ◌≢◌, ◌⊎◌, String, true, false, none, some, [], ◌∷◌, ◌++◌, arith,
  if◌then◌else◌, str_eq, eq_iff,
}
use tinia.Prelude.Int.{pos, negsuc}
use tinia.Prelude.Map.{Map, find, erase}
use tinia.Master.Dump.{encode_master_state}
use tinia.Master.Snarf.Recovery.{leaf_nodes}
use tinia.Master.{
  running, Job, not_started, terminated_unsuccessfully, wait, dump, concat, Master, Host, kill,
  sigkill, message_ok,
}
use tinia.Master.Jobs.{is_legal, set_job_state, wipe_job, kill_job, add_job}
use tinia.Master.Children.{periodic, often}
use tinia.Master.Table.{IsValid, heartbeat, wipe, add, timer, children, steps, steps-IsValid}
use tinia.Master.Calls.{
  accepts, wipe_job-cases, add_job_outcome, kill_job-add_job, IsEnded, IsAllowed,
}
use tinia.Master.Parse.{start, end}
use tinia.Master.Handle.{xml_message, handle, reply_size}
use tinia.Master.Handle.Replies.{reply_size-handle, handle-IsValid}
use tinia.Master.Watch.{checked, find-periodic, IsDistinct, all_reaped, find-often}

abbrev pub length_of : String → ℕ
length_of empty_text = 0
length_of (char_then c s) = suc (length_of s)

-- A system on which a fork fails, no process can be signalled, and everybody answers.
abbrev pub broken : Host
broken = record {
  now = 100;
  master_id = "m";
  environ = "TINIA_APP_ROOT=/apps" ∷ "HOME=/" ∷ [];
  fork = negsuc 0;
  kill_succeeds = λ pid signal. false;
  reply_of = λ box. some message_ok;
  show_int = λ pid. "1";
  show_time = λ t. "100";
  read_int = λ s. pos 0;
  size = length_of;
  load_1m = "0.1";
  load_5m = "0.2";
  load_15m = "0.3";
  applications_timestamp = pos 5;
  applications_xml = "<applications/>";
  rendering_devices_xml = "<devices/>";
}

abbrev pub working : Host
working = record broken { fork = pos 12; kill_succeeds = λ pid signal. true }

abbrev pub fresh : Master
fresh = record { for_real = true; application_root = "/apps"; jobs = []; actions = [] }

fresh-IsValid : IsValid fresh.jobs
unfolding find
fresh-IsValid = record { sorted = tt; named = λ k job q. cc q; legal = λ k job q. cc q }

-- A job that runs as process 12.
abbrev busy : Master
busy =
    steps ((working, add "viewer1" "viewer" [] []) ∷ (working, heartbeat "viewer1" running) ∷ [])
      fresh

busy-IsValid : IsValid busy.jobs
busy-IsValid = steps-IsValid _ fresh fresh-IsValid

steps-IsValid_example :
    IsValid
      (steps
        ((broken, timer) ∷ (broken, children (pos 12 ∷ [])) ∷ (broken, wipe "viewer1") ∷ [])
        busy).jobs
steps-IsValid_example = steps-IsValid _ busy busy-IsValid

find-periodic_example :
    find "viewer1" (periodic broken busy).jobs ≡ checked broken (find "viewer1" busy.jobs)
find-periodic_example = find-periodic broken "viewer1" busy busy-IsValid

only_one :
    (j k : String) (a : Job) (jobs : Map Job)
    → jobs ≡ (j, a) ∷ []
    → (b : Job) → find k jobs ≡ some b
    → k ≡ j
unfolding find
only_one j k a jobs one b q = ground (arith, eq_iff j k)

busy-jobs : (job : Job) × (busy.jobs ≡ ("viewer1", job) ∷ [])
unfolding steps set_job_state add_job
busy-jobs = (_, refl)

busy-IsDistinct : IsDistinct busy.jobs
busy-IsDistinct j k a b p q same =
    let (job, one) = busy-jobs in
    only_one "viewer1" j job busy.jobs one a p ∙ sym (only_one "viewer1" k job busy.jobs one b q)

find-often_example :
    find "viewer1" (often working (pos 12 ∷ pos 13 ∷ []) busy).jobs
    ≡ all_reaped (pos 12 ∷ pos 13 ∷ []) (find "viewer1" busy.jobs)
find-often_example =
    find-often working (pos 12 ∷ pos 13 ∷ []) "viewer1" busy busy-IsValid busy-IsDistinct

viewer-accepted : accepts "viewer1" "viewer" ≡ true
unfolding is_legal
viewer-accepted = refl

nothing-found : find "viewer1" fresh.jobs ≡ none
unfolding find
nothing-found = refl

kill_job-add_job_example :
    let m' = (add_job broken "viewer1" "viewer" [] [] fresh).0 in
    (kill_job working "viewer1" true m').0.actions ≡ m'.actions ++ kill (negsuc 0) sigkill ∷ []
kill_job-add_job_example =
    kill_job-add_job broken working "viewer1" "viewer" [] [] fresh 0 viewer-accepted nothing-found
      refl refl

named : ◌≢◌ {A = String} "viewer1" ""
named p = ground (arith, eq_iff "viewer1" "")

reply_size-handle_example :
    reply_size working
      (handle working (pos 0) false 300 (xml_message (start "ping" true ∷ [])) busy).1
    < 300
reply_size-handle_example =
    reply_size-handle working (pos 0) false 300 (xml_message (start "ping" true ∷ [])) busy
      (omega arith)

handle-IsValid_example :
    IsValid
      (handle working
        (pos 0)
        false
        300
        (xml_message (start "wipeJob" false ∷ leaf_nodes "job" "viewer1" (end ∷ [])))
        busy).0.jobs
handle-IsValid_example = handle-IsValid working (pos 0) false 300 _ busy busy-IsValid

wipe_job-cases_example :
    ((job : Job) × (find "viewer1" busy.jobs ≡ some job)
      × IsEnded job.state
      × ((wipe_job broken "viewer1" busy).1 ≡ true)
      × ((wipe_job broken "viewer1" busy).0.jobs ≡ erase "viewer1" busy.jobs)
      × ((wipe_job broken "viewer1" busy).0.actions
          ≡ (busy.actions ++ wait job.pid ∷ [])
            ++ dump (encode_master_state broken (erase "viewer1" busy.jobs)) ∷ []))
    ⊎ (((job : Job) → find "viewer1" busy.jobs ≡ some job → IsEnded job.state → ⊥)
        × (wipe_job broken "viewer1" busy ≡ (busy, false)))
wipe_job-cases_example = wipe_job-cases broken "viewer1" busy

add_job_outcome_example :
    let (m', answer) = add_job working "viewer2" "viewer" ("-v" ∷ []) ("gpu" ∷ []) busy in
    (IsAllowed "viewer2" "viewer"
      × (find "viewer2" busy.jobs ≡ none)
      × (answer ≡ true)
      × ((job : Job) × ((j : String)
            → find j m'.jobs ≡ (if str_eq "viewer2" j then some job else find j busy.jobs))
          × (job.id ≡ "viewer2")
          × (job.executable ≡ concat (busy.application_root ∷ "/" ∷ "viewer" ∷ []))
          × (job.args ≡ "-v" ∷ [])
          × (job.rendering_devices ≡ "gpu" ∷ [])
          × (job.last_ping ≡ working.now)
          × (busy.for_real ≡ true
              → (n : ℕ) → working.fork ≡ pos n
              → (job.pid ≡ pos n) × (job.state ≡ not_started))
          × (busy.for_real ≡ true
              → (n : ℕ) → working.fork ≡ negsuc n
              → (job.pid ≡ negsuc 0) × (job.state ≡ terminated_unsuccessfully))))
    ⊎ (((IsAllowed "viewer2" "viewer" → ⊥) ⊎ ((old : Job) × (find "viewer2" busy.jobs ≡ some old)))
        × (answer ≡ false)
        × (m' ≡ busy))
add_job_outcome_example = add_job_outcome working "viewer2" "viewer" ("-v" ∷ []) ("gpu" ∷ []) busy
