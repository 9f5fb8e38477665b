-- ===== src/Examples/Recovery.antt =====
-- A table of jobs that a new master recovers.
use Prim.Native.String.{[] as empty_text, ◌∷◌ as char_then, ◌++◌ as append_text}
use Prim.Native.Char.{code}
use tinia.Prelude.{
  Bool, true, false, leb, List, zero, ap, ◌==◌, ℕ, suc, ◌≡◌, refl, String, none, [], ◌∷◌, arith,
  if◌then◌else◌, eq_iff,
}
use tinia.Prelude.Int.{ℤ, pos, negsuc}
use tinia.Prelude.Map.{Map, find}
use tinia.Master.{running, Job, Host}
use tinia.Master.Dump.{encode_state, encode_master_state}
use tinia.Master.Parse.{XmlNode, start, text, end}
use tinia.Master.Snarf.Document.{print, nodes_of, table_markup}
use tinia.Master.Snarf.{snarf_master_state}
use tinia.Master.Snarf.Recovery.{ReadsPids, IsWhole, kept, find-snarf_master_state}
use tinia.Examples.Master.{working, fresh, length_of}

-- Process ids written in unary, behind their sign.
abbrev ones : ℕ → String
ones zero = ""
ones (suc n) = char_then "1" (ones n)

abbrev show_unary : ℤ → String
show_unary (pos n) = char_then "+" (ones n)
show_unary (negsuc n) = char_then "-" (ones n)

abbrev read_unary : String → ℤ
read_unary empty_text = pos 0
read_unary (char_then c s) = if code c == b'-' then negsuc (length_of s) else pos (length_of s)

length_of-ones : (n : ℕ) → length_of (ones n) ≡ n
length_of-ones zero = refl
length_of-ones (suc n) = ap suc (length_of-ones n)

abbrev counting : Host
counting = record working { show_int = show_unary; read_int = read_unary }

counting-ReadsPids : ReadsPids counting
counting-ReadsPids (pos n) = (λ q. omega (arith, ap length_of q), ap pos (length_of-ones n))
counting-ReadsPids (negsuc n) = (λ q. omega (arith, ap length_of q), ap negsuc (length_of-ones n))

abbrev running_job : Job
running_job = record {
  id = "viewer1";
  pid = pos 2;
  executable = "/apps/viewer";
  state = running;
  last_ping = 100;
  args = "-v" ∷ "" ∷ [];
  rendering_devices = "gpu" ∷ [];
}

abbrev two_jobs : Map Job
two_jobs = ("viewer1", running_job) ∷ ("viewer2", record running_job { id = "viewer2" }) ∷ []

two_jobs-IsWhole : IsWhole two_jobs
two_jobs-IsWhole = (
  refl,
  (λ q. ground (arith, eq_iff "viewer1" "")),
  (λ q. ground (arith, eq_iff "/apps/viewer" "")),
  (
    refl,
    (λ q. ground (arith, eq_iff "viewer2" "")),
    (λ q. ground (arith, eq_iff "/apps/viewer" "")),
    tt,
  ),
)

-- A reader of markup without entities, character by character: between tags, with the text so far, or
-- inside a tag, with what it has of it. White space alone is no text.
abbrev is_blank : String → Bool
is_blank empty_text = true
is_blank (char_then c s) = let rest = is_blank s in if leb (code c) 32 then rest else false

abbrev name_in : String → String
name_in empty_text = empty_text
name_in (char_then c s) =
    let rest = name_in s in if code c == b' ' then empty_text else char_then c rest

abbrev tag_node : String → List XmlNode → List XmlNode
tag_node empty_text rest = rest
tag_node (char_then c s) rest =
    if code c == b'/'
    then end ∷ rest
    else if code c == b'?'
    then rest
    else start (name_in (char_then c s)) false ∷ rest

abbrev text_node : String → List XmlNode → List XmlNode
text_node s rest = if is_blank s then rest else text s ∷ rest

abbrev read_markup : Bool → String → String → List XmlNode
read_markup in_tag so_far empty_text = []
read_markup in_tag so_far (char_then c s) =
    if in_tag
    then (if code c == b'>'
        then tag_node so_far (read_markup false "" s)
        else read_markup true (append_text so_far (char_then c empty_text)) s)
    else if code c == b'<'
    then text_node so_far (read_markup true "" s)
    else read_markup false (append_text so_far (char_then c empty_text)) s

read_two_jobs :
    read_markup false "" (print (table_markup counting two_jobs))
    ≡ nodes_of (table_markup counting two_jobs)
unfolding print encode_state
read_two_jobs = refl

find-snarf_master_state_example :
    find "viewer2"
      (snarf_master_state counting
        (read_markup false "" (encode_master_state counting two_jobs))
        fresh).jobs
    ≡ kept none (find "viewer2" two_jobs)
find-snarf_master_state_example =
    find-snarf_master_state counting (read_markup false "") two_jobs fresh "viewer2" read_two_jobs
      counting-ReadsPids two_jobs-IsWhole refl
