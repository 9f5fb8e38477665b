-- ===== src/Master/Parse.antt =====
-- Master::parseXML: a client's request, from the nodes that libxml's reader reports.
use tinia.Prelude.{String, Bool, ◌||◌, List, [], ◌∷◌, ◌++◌, if◌then◌else◌, str_eq}
use tinia.Prelude.Int.{ℤ}
use tinia.Master.{Host}

-- What the reader reports, node after node: the start of an element (its local name, and whether it
-- is written <a/>), a text, the end of an element.
pub data XmlNode : Type 0 where
  start : String → Bool → XmlNode
  text : String → XmlNode
  end : XmlNode

-- The anonymous enumeration in ParsedXML.
pub data RequestAction : Type 0 where
  action_none action_ping action_get_server_load action_wipe_job action_kill_job action_add_job
        action_get_job_list action_list_rendering_devices action_list_applications :
      RequestAction

pub record ParsedXml : Type 0 where
  pub action : RequestAction
  pub job : String
  pub application : String
  pub timestamp : ℤ
  pub rendering_devices : List String
  pub args : List String
  pub force : Bool
  pub session : String

-- parse::NodeType
pub data NodeType : Type 0 where
  node_unknown node_ping node_get_server_load node_get_job_list node_kill_job node_wipe_job
        node_add_job node_grant_access node_list_rendering_devices node_list_applications node_job
        node_application node_rendering_device_id node_arg node_timestamp node_force node_session :
      NodeType

abbrev act_on : NodeType → RequestAction → ParsedXml → NodeType × ParsedXml
act_on n action data_of = (n, record data_of { action = action })

-- The start of an element: what is put on the stack, and the action.
unfoldable pub open_element : String → ParsedXml → NodeType × ParsedXml
open_element name d =
    if str_eq name "ping"
    then act_on node_ping action_ping d
    else if str_eq name "getServerLoad"
    then act_on node_get_server_load action_get_server_load d
    else if str_eq name "getJobList"
    then act_on node_get_job_list action_get_job_list d
    else if str_eq name "killJob"
    then act_on node_kill_job action_kill_job d
    else if str_eq name "addJob"
    then act_on node_add_job action_add_job d
    else if str_eq name "wipeJob"
    then act_on node_wipe_job action_wipe_job d
    else if str_eq name "listRenderingDevices"
    then act_on node_list_rendering_devices action_list_rendering_devices d
    else if str_eq name "listApplications"
    then act_on node_list_applications action_list_applications d
    else if str_eq name "timestamp"
    then (node_timestamp, d)
    else if str_eq name "grantAccess"
    then act_on node_grant_access action_none d
    else if str_eq name "revokeAccess"
    then act_on node_grant_access action_none d
    else if str_eq name "job"
    then (node_job, d)
    else if str_eq name "application"
    then (node_application, d)
    else if str_eq name "arg"
    then (node_arg, d)
    else if str_eq name "renderingDeviceId"
    then (node_rendering_device_id, d)
    else if str_eq name "force"
    then (node_force, d)
    else if str_eq name "session"
    then (node_session, d)
    else (node_unknown, d)

-- A text inside an element.
unfoldable pub element_text : Host → NodeType → String → ParsedXml → ParsedXml
element_text host node_job s d = record d { job = s }
element_text host node_application s d = record d { application = s }
element_text host node_timestamp s d = record d { timestamp = host.read_int s }
element_text host node_arg s d = record d { args = d.args ++ s ∷ [] }
element_text host node_rendering_device_id s d = record d {
  rendering_devices = d.rendering_devices ++ s ∷ [];
}
element_text host node_force s d = record d { force = str_eq s "1" || str_eq s "true" }
element_text host node_session s d = record d { session = s }
element_text host _ s d = d

-- stack.back() and stack.pop_back(); the reader reports texts and ends inside elements only.
abbrev back : List NodeType → NodeType
back [] = node_unknown
back (n ∷ stack) = n

abbrev pop_back : List NodeType → List NodeType
pop_back [] = []
pop_back (n ∷ stack) = stack

unfoldable pub parse_nodes : Host → List NodeType → List XmlNode → ParsedXml → ParsedXml
unfolding open_element element_text
parse_nodes host stack [] d = d
parse_nodes host stack (start name is_empty_element ∷ nodes) d =
    let (n, d') = open_element name d in
    parse_nodes host (if is_empty_element then stack else n ∷ stack) nodes d'
parse_nodes host stack (text s ∷ nodes) d =
    parse_nodes host stack nodes (element_text host (back stack) s d)
parse_nodes host stack (end ∷ nodes) d = parse_nodes host (pop_back stack) nodes d

-- The members that handle does not set keep what was there: an unset time and an unset flag.
unfoldable pub new_parsed_xml : ℤ → Bool → ParsedXml
new_parsed_xml unset_timestamp unset_force = record {
  action = action_none;
  job = "";
  application = "";
  timestamp = unset_timestamp;
  rendering_devices = [];
  args = [];
  force = unset_force;
  session = "";
}

unfoldable pub parse_xml : Host → ℤ → Bool → List XmlNode → ParsedXml
unfolding parse_nodes new_parsed_xml
parse_xml host unset_timestamp unset_force nodes =
    parse_nodes host [] nodes (new_parsed_xml unset_timestamp unset_force)
