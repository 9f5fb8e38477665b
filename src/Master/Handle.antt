-- ===== src/Master/Handle.antt =====
-- Master::handle: a message to the master and its reply.
pub mod Replies
use tinia.Prelude.{
  ℕ, ◌+◌, String, Bool, true, false, not, ◌||◌, Option, none, some, List, [], ◌∷◌, if◌then◌else◌,
  str_eq, leb,
}
use tinia.Prelude.Int.{ℤ, ltb_ℤ}
use tinia.Master.{JobState, MessageType, Master, Host, concat}
use tinia.Master.Dump.{ret_header, ret_footer, encode_master_state}
use tinia.Master.Jobs.{set_job_state, wipe_job, kill_job, add_job}
use tinia.Master.Parse.{
  XmlNode, ParsedXml, action_none, action_ping, action_get_server_load, action_wipe_job,
  action_kill_job, action_add_job, action_get_job_list, action_list_rendering_devices,
  action_list_applications, parse_xml,
}

abbrev pub ret_pong : String
ret_pong = concat (ret_header ∷ "<pong/>" ∷ ret_footer ∷ [])

abbrev pub ret_success : String
ret_success = concat (ret_header ∷ "<result>SUCCESS</result>" ∷ ret_footer ∷ [])

abbrev pub ret_failure : String
ret_failure = concat (ret_header ∷ "<result>FAILURE</result>" ∷ ret_footer ∷ [])

-- A message as it lies in the buffer: its XML is read by libxml; a heartbeat has a job and a state.
pub data Message : Type 0 where
  xml_message : List XmlNode → Message
  heartbeat_message : String → JobState → Message
  other_message : MessageType → Message

pub data Reply : Type 0 where
  xml_reply : String → Reply
  ok_reply error_reply : Reply

-- sizeof( tinia_msg_t ) and sizeof( tinia_msg_xml_t ): one enum
abbrev pub message_size : ℕ
message_size = 4

abbrev pub result_text : Bool → String
result_text b = if b then ret_success else ret_failure

module _ (host : Host) where
  unfoldable pub get_load : String
  get_load = concat (
      ret_header ∷ "<serverLoad>" ∷ "<avg interval=\"1m\">" ∷ host.load_1m ∷ "</avg>"
      ∷ "<avg interval=\"5m\">" ∷ host.load_5m ∷ "</avg>" ∷ "<avg interval=\"15m\">" ∷ host.load_15m
      ∷ "</avg>" ∷ "</serverLoad>" ∷ ret_footer ∷ [])

  -- The switch on the action of a request, with the text that it leaves in retval.
  unfoldable pub answer : ParsedXml → Master → Master × String
  unfolding get_load wipe_job kill_job add_job encode_master_state
  answer d m = elim d.action [
    | action_none ↦ (m, "")
    | action_ping ↦ (m, ret_pong)
    | action_get_server_load ↦ (m, get_load)
    | action_wipe_job ↦ let (m', done) = wipe_job host d.job m in (m', result_text done)
    | action_kill_job ↦ let (m', done) = kill_job host d.job d.force m in (m', result_text done)
    | action_add_job ↦
        let (m', done) = add_job host d.job d.application d.args d.rendering_devices m in
        (m', result_text done)
    | action_get_job_list ↦ (m, encode_master_state host m.jobs)
    | action_list_rendering_devices ↦
        (m, concat (ret_header ∷ host.rendering_devices_xml ∷ ret_footer ∷ []))
    | action_list_applications ↦ (
      m,
      if not (ltb_ℤ d.timestamp host.applications_timestamp)
          then ret_success
          else concat (ret_header ∷ host.applications_xml ∷ ret_footer ∷ []),
    )
  ]

  -- The reply to a request, in a buffer of buf_size bytes.
  unfoldable pub reply_to : ℕ → String → Reply
  reply_to buf_size retval =
      if not (str_eq retval "")
      then (if leb buf_size (message_size + host.size retval)
          then error_reply
          else xml_reply retval)
      else error_reply

  unfoldable pub handle : ℤ → Bool → ℕ → Message → Master → Master × Reply
  unfolding answer reply_to parse_xml set_job_state
  handle unset_timestamp unset_force buf_size (xml_message nodes) m =
      let (m', retval) = answer (parse_xml host unset_timestamp unset_force nodes) m in
      (m', reply_to buf_size retval)
  handle unset_timestamp unset_force buf_size (heartbeat_message job state) m =
      ((set_job_state host job state true m).0, ok_reply)
  handle unset_timestamp unset_force buf_size (other_message type) m = (m, error_reply)

  -- size_t, the returned size of the reply
  unfoldable pub reply_size : Reply → ℕ
  reply_size (xml_reply retval) = message_size + host.size retval
  reply_size ok_reply = message_size
  reply_size error_reply = message_size
