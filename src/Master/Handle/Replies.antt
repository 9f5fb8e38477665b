-- ===== src/Master/Handle/Replies.antt =====
-- What a message does to the master, and the size of the reply.
use tinia.Prelude.{
  ℕ, ◌<◌, ◌≡◌, refl, ◌⊎◌, inl, inr, String, Bool, false, not, keep, str_eq, List, [], ◌∷◌, arith,
}
use tinia.Prelude.Int.{ℤ}
use tinia.Master.{Master, Host}
use tinia.Master.Snarf.Recovery.{leaf_nodes, arg_nodes}
use tinia.Master.Table.{IsValid, Event, heartbeat, wipe, kill_request, add, step, step-IsValid}
use tinia.Master.Parse.{
  XmlNode, start, end, ParsedXml, action_none, action_ping, action_get_server_load, action_wipe_job,
  action_kill_job, action_add_job, action_get_job_list, action_list_rendering_devices,
  action_list_applications, parse_xml,
}
use tinia.Master.Handle.{
  Message, xml_message, heartbeat_message, other_message, message_size, answer, reply_to, handle,
  reply_size,
}

module _ (host : Host) where
  -- The reply is shorter than the buffer, if the buffer holds more than a bare message.
  pub reply_size-handle :
      (t : ℤ) (f : Bool) (buf_size : ℕ) (msg : Message) (m : Master)
      → message_size < buf_size
      → reply_size host (handle host t f buf_size msg m).1 < buf_size
  unfolding handle reply_size reply_to
  reply_size-handle t f buf_size (xml_message nodes) m room = ground arith
  reply_size-handle t f buf_size (heartbeat_message job st) m room = room
  reply_size-handle t f buf_size (other_message type) m room = room

  answer-Handled :
      (d : ParsedXml) (m : Master)
      → (((answer host d m).0 ≡ m) ⊎ ((e : Event) × ((answer host d m).0 ≡ step host e m)))
  unfolding answer step
  answer-Handled d m =
      elim d.action
        as (λ a.
          (((answer host (record d { action = a }) m).0 ≡ m)
            ⊎ ((e : Event) × ((answer host (record d { action = a }) m).0 ≡ step host e m)))) [
              | action_none ↦ inl refl
              | action_ping ↦ inl refl
              | action_get_server_load ↦ inl refl
              | action_wipe_job ↦ inr (wipe d.job, refl)
              | action_kill_job ↦ inr (kill_request d.job d.force, refl)
              | action_add_job ↦ inr (add d.job d.application d.args d.rendering_devices, refl)
              | action_get_job_list ↦ inl refl
              | action_list_rendering_devices ↦ inl refl
              | action_list_applications ↦ inl refl
            ]

  -- Every message to the master, whatever XML it has, keeps the table valid.
  pub handle-IsValid :
      (t : ℤ) (f : Bool) (buf_size : ℕ) (msg : Message) (m : Master)
      → IsValid m.jobs
      → IsValid (handle host t f buf_size msg m).0.jobs
  unfolding handle step
  handle-IsValid t f buf_size (xml_message nodes) m v =
      elim (answer-Handled (parse_xml host t f nodes) m) [
        | inl same ↦ rw same v
        | inr (e, q) ↦ rw q (step-IsValid host e m v)
      ]
  handle-IsValid t f buf_size (heartbeat_message job st) m v =
      step-IsValid host (heartbeat job st) m v
  handle-IsValid t f buf_size (other_message type) m v = v

abbrev device_nodes : List String → List XmlNode → List XmlNode
device_nodes [] rest = rest
device_nodes (d ∷ devices) rest = leaf_nodes "renderingDeviceId" d (device_nodes devices rest)

-- The texts that an element has a node for.
abbrev full : List String → List String
full texts = keep (λ s. not (str_eq s "")) texts

abbrev pub add_nodes : String → String → List String → List String → List XmlNode
add_nodes id exe devices args =
    start "addJob" false
    ∷ leaf_nodes "job" id
        (leaf_nodes "application" exe (device_nodes devices (arg_nodes args (end ∷ []))))
