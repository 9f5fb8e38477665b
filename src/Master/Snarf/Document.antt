-- ===== src/Master/Snarf/Document.antt =====
-- What encodeMasterState writes, as a document: its tags and texts, and the nodes that libxml's reader
-- reports of them. White space between elements, the declaration and attributes have no node, and an
-- empty text has none.
use Prim.Native.String.{◌++◌ as append_text}
use package.text.Mathlib.TextLemmas.{nil-append, append_assoc}
use tinia.Prelude.{String, false, ◌≡◌, ap, ◌∙◌, List, [], ◌∷◌, if◌then◌else◌, str_eq}
use tinia.Prelude.Map.{Map}
use tinia.Master.{Job, Host, concat}
use tinia.Master.Dump.{
  encode_state, encode_args, encode_job, encode_jobs, encode_master_state, ret_header,
}
use tinia.Master.Parse.{XmlNode, start, text, end}

-- A start tag with a value for one attribute is `stamped`. `before` and `after` are white space, or the
-- declaration.
pub data Markup : Type 0 where
  opens : (before name attributes after : String) → Markup
  stamped : (before name attribute value : String) → Markup
  texts : String → Markup
  closes : (before name after : String) → Markup

unfoldable pub print : List Markup → String
print [] = ""
print (opens before name attributes after ∷ rest) =
    append_text (concat (before ∷ "<" ∷ name ∷ attributes ∷ ">" ∷ after ∷ [])) (print rest)
print (stamped before name attribute value ∷ rest) =
    append_text (concat (before ∷ "<" ∷ name ∷ " " ∷ attribute ∷ "=\"" ∷ []))
      (append_text value (append_text "\">" (print rest)))
print (texts s ∷ rest) = append_text s (print rest)
print (closes before name after ∷ rest) =
    append_text (concat (before ∷ "</" ∷ name ∷ ">" ∷ after ∷ [])) (print rest)

-- A text of an element: none if it is empty.
abbrev pub text_nodes : String → List XmlNode → List XmlNode
text_nodes s rest = if str_eq s "" then rest else text s ∷ rest

abbrev pub nodes_of : List Markup → List XmlNode
nodes_of [] = []
nodes_of (opens before name attributes after ∷ rest) = start name false ∷ nodes_of rest
nodes_of (stamped before name attribute value ∷ rest) = start name false ∷ nodes_of rest
nodes_of (texts s ∷ rest) = text_nodes s (nodes_of rest)
nodes_of (closes before name after ∷ rest) = end ∷ nodes_of rest

-- An element on a line of its own.
abbrev line : String → String → List Markup → List Markup
line name s rest = opens "    " name "" "" ∷ texts s ∷ closes "" name "\n" ∷ rest

abbrev pub arg_markup : List String → List Markup → List Markup
arg_markup [] rest = rest
arg_markup (a ∷ args) rest = line "arg" a (arg_markup args rest)

module _ (host : Host) where
  abbrev pub behind_args : Job → List Markup → List Markup
  behind_args job rest =
      stamped "    " "state" "updated" (host.show_time job.last_ping)
      ∷ texts (encode_state job.state)
      ∷ closes "" "state" "\n"
      ∷ opens "    " "allowed" "" ""
      ∷ closes "" "allowed" "\n"
      ∷ closes "  " "jobInfo" ""
      ∷ rest

  abbrev pub job_markup : Job → List Markup → List Markup
  job_markup job rest =
      opens "  " "jobInfo" "" "\n"
      ∷ line "job" job.id (
          line "pid" (host.show_int job.pid)
            (line "application" job.executable (arg_markup job.args (behind_args job rest))))

  abbrev pub jobs_markup : Map Job → List Markup → List Markup
  jobs_markup [] rest = rest
  jobs_markup ((k, job) ∷ jobs) rest = job_markup job (jobs_markup jobs rest)

  abbrev pub table_markup : Map Job → List Markup
  table_markup jobs =
      opens "<?xml version=\"1.0\"?>" "reply"
        "  xmlns:xsi=\"http://www.w3.org/2001/XMLSchema-instance\"  xmlns=\"http://cloudviz.sintef.no/trell/1.0\""
        ""
      ∷ opens "" "jobList" "" "\n"
      ∷ jobs_markup jobs (closes "" "jobList" "\n" ∷ closes "" "reply" "" ∷ [])

abbrev concat_on : List String → String → String
concat_on [] t = t
concat_on (s ∷ ss) t = append_text s (concat_on ss t)

concat-append : (ss : List String) (t : String) → append_text (concat ss) t ≡ concat_on ss t
concat-append [] t = nil-append t
concat-append (s ∷ ss) t = append_assoc s (concat ss) t ∙ ap (append_text s) (concat-append ss t)

args-print :
    (args : List String) (rest : List Markup)
    → append_text (encode_args args) (print rest) ≡ print (arg_markup args rest)
unfolding encode_args print
args-print [] rest = nil-append (print rest)
args-print (a ∷ args) rest =
    concat-append ("    <arg>" ∷ a ∷ "</arg>\n" ∷ encode_args args ∷ []) (print rest)
    ∙ ap (λ t. append_text "    <arg>" (append_text a (append_text "</arg>\n" t)))
        (args-print args rest)

-- The pieces of encode_job up to the arguments.
abbrev before_args : Host → Job → String → String
before_args host job t =
    concat_on
      ("  <jobInfo>\n"
        ∷ "    <job>"
        ∷ job.id
        ∷ "</job>\n"
        ∷ "    <pid>"
        ∷ host.show_int job.pid
        ∷ "</pid>\n"
        ∷ "    <application>"
        ∷ job.executable
        ∷ "</application>\n"
        ∷ [])
      t

job-print :
    (host : Host) (job : Job) (rest : List Markup)
    → append_text (encode_job host job) (print rest) ≡ print (job_markup host job rest)
unfolding encode_job print
job-print host job rest =
    concat-append
      ("  <jobInfo>\n"
        ∷ "    <job>"
        ∷ job.id
        ∷ "</job>\n"
        ∷ "    <pid>"
        ∷ host.show_int job.pid
        ∷ "</pid>\n"
        ∷ "    <application>"
        ∷ job.executable
        ∷ "</application>\n"
        ∷ encode_args job.args
        ∷ "    <state updated=\""
        ∷ host.show_time job.last_ping
        ∷ "\">"
        ∷ encode_state job.state
        ∷ "</state>\n"
        ∷ "    <allowed>"
        ∷ "</allowed>\n"
        ∷ "  </jobInfo>"
        ∷ [])
      (print rest)
    ∙ ap (before_args host job) (args-print job.args (behind_args host job rest))

jobs-print :
    (host : Host) (jobs : Map Job) (rest : List Markup)
    → append_text (encode_jobs host jobs) (print rest) ≡ print (jobs_markup host jobs rest)
unfolding encode_jobs
jobs-print host [] rest = nil-append (print rest)
jobs-print host ((k, job) ∷ jobs) rest =
    concat-append (encode_job host job ∷ encode_jobs host jobs ∷ []) (print rest)
    ∙ ap (append_text (encode_job host job)) (jobs-print host jobs rest)
    ∙ job-print host job (jobs_markup host jobs rest)

-- encodeMasterState writes the document, character for character.
pub encode_master_state-print :
    (host : Host) (jobs : Map Job) → encode_master_state host jobs ≡ print (table_markup host jobs)
unfolding encode_master_state print
encode_master_state-print host jobs =
    ap (λ t. append_text ret_header (append_text "<jobList>\n" t))
      (jobs-print host jobs (closes "" "jobList" "\n" ∷ closes "" "reply" "" ∷ []))
