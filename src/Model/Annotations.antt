-- ===== src/Model/Annotations.antt =====
-- The loop of addAnnotation over texts "language:annotation" (include/tinia/model/ExposedModel.hpp).
use Prim.Native.String.{[] as empty_text, ◌∷◌ as char_then}
use Prim.Native.Char.{code}
use tinia.Prelude.{String, Option, none, some, List, [], ◌∷◌, ◌==◌, if◌then◌else◌}
use tinia.Prelude.Map.{Map, insert}
use tinia.Model.Errors.{Result, ok, err, invalid_argument}

-- What stands before the first colon of a text, and what stands behind it.
unfoldable pub split_annotation : String → Option (String × String)
split_annotation empty_text = none
split_annotation (char_then c s) =
    let rest = split_annotation s in
    if code c == b':'
    then some (empty_text, s)
    else elim rest [ none ↦ none | some found ↦ some (char_then c found.0, found.1) ]

-- The loop of addAnnotation over the texts, with the map that it has so far.
unfoldable pub annotation_map : Map String → List String → Result (Map String)
unfolding split_annotation
annotation_map so_far [] = ok so_far
annotation_map so_far (s ∷ texts) = elim (split_annotation s) [
  | none ↦ err invalid_argument
  | some found ↦ annotation_map (insert found.0 found.1 so_far) texts
]
