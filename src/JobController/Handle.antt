-- ===== src/JobController/Handle.antt =====
-- IPCJobController::handle, onUpdateState, onGetScripts and the functions that listen to the model
-- (src/trell/IPCJobController.cpp), with fail and notify of IPCController.cpp.
use tinia.Prelude.{
  ℕ, zero, suc, ◌+◌, ◌%◌, Bool, true, false, Option, none, some, List, [], ◌∷◌, ltb, if◌then◌else◌,
}
use tinia.Master.{message_error, message_ok, message_xml, message_script}
use tinia.Model.Types.{Platform}
use tinia.Model.Exposed.{ExposedModel}
use tinia.JobController.{
  Query, die, get_policy_update, get_snapshot, get_renderlist, update_state, get_scripts,
  other_query, Outcome, replied, Write, JobCallbacks, JobController, msg_size, size_mod,
}
use tinia.JobController.Snapshot.{on_snapshot}

unfoldable pub fail : JobController → JobController
fail j = record j { failed = true }

unfoldable pub notify : JobController → JobController
notify j = record j { notifications = suc j.notifications }

-- stateElementModified, stateSchemaElementAdded, stateSchemaElementRemoved and
-- stateSchemaElementModified
unfoldable pub on_event : JobController → JobController
unfolding notify
on_event j = if j.update_ongoing then j else notify j

unfoldable pub on_events : ℕ → JobController → JobController
unfolding on_event
on_events zero j = j
on_events (suc n) j = on_events n (on_event j)

-- buf_size - sizeof(tinia_msg_t), in a size_t
abbrev pub room : ℕ → ℕ
room buf_size = (buf_size + 18446744073709551612) % size_mod

-- IPCController::onGetScripts, for a buffer of `size` bytes that starts at `buffer`, with the scripts
-- before these taking up `result_size` bytes: what it returns, and what it writes. Every copy may take
-- the whole size, and not what is left of it.
unfoldable pub on_get_scripts : (size buffer result_size : ℕ) → List ℕ → Option ℕ × List Write
on_get_scripts size buffer result_size [] = (some result_size, [])
on_get_scripts size buffer result_size (script ∷ scripts) =
    let copied : Write = record {
      offset = buffer + result_size;
      size = if ltb size script then size else script;
    } in
    let rest = on_get_scripts size buffer (result_size + script) scripts in
    if ltb size (result_size + script) then (none, copied ∷ []) else (rest.0, copied ∷ rest.1)

module _ (p : Platform) (c : JobCallbacks p) where
  -- The events of the update come before the lock ends.
  unfoldable pub on_update_state : ℕ → JobController → Bool × JobController
  unfolding on_events notify
  on_update_state size j =
      let updated = c.update size in
      (
        updated.0,
        notify (record (on_events updated.1 (record j { update_ongoing = true })) {
          update_ongoing = false;
        }),
      )

  -- The whole function: what it answers, what is written behind the reply's struct, and the controller afterwards.
  unfoldable pub handle :
      Query → ℕ → ExposedModel → JobController → Outcome × List Write × JobController
  unfolding fail on_snapshot on_update_state on_get_scripts
  handle die buf_size m j = (replied message_ok msg_size, [], fail j)
  handle (get_policy_update revision) buf_size m j =
      let update = c.get_exposed_model_update revision (room buf_size) in
      let written : Write = record { offset = msg_size; size = update.1 } in
      if ltb 0 update.0
      then (replied message_xml (update.0 + msg_size), written ∷ [], j)
      else (replied message_ok msg_size, written ∷ [], j)
  handle (get_snapshot q) buf_size m j =
      let answer = on_snapshot p c q buf_size m in (answer.0, answer.1, j)
  handle (get_renderlist session key timestamp) buf_size m j =
      let list = c.on_get_renderlist (room buf_size) session key timestamp in
      let written : Write = record { offset = msg_size; size = list.1 } in
      (
        elim list.0 [
          | none ↦ replied message_error msg_size
          | some size ↦ replied message_xml (size + msg_size)
        ],
        written ∷ [],
        j,
      )
  handle (update_state session size) buf_size m j =
      let updated = on_update_state size j in
      (
        if updated.0 then replied message_ok msg_size else replied message_error msg_size,
        [],
        updated.1,
      )
  handle get_scripts buf_size m j =
      let answer = on_get_scripts (room buf_size) msg_size 0 j.scripts in
      (
        elim answer.0 [
          | none ↦ replied message_error msg_size
          | some size ↦ replied message_script (msg_size + size)
        ],
        answer.1,
        j,
      )
  handle other_query buf_size m j = (replied message_error msg_size, [], j)
