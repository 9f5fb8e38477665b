-- ===== src/Model/Exposed/Keyed.antt =====
-- Every call keeps the elements in the order of their keys, each key once.
use tinia.Prelude.{inl, inr, String, List, [], arith, Option-cases}
use tinia.Prelude.Map.{find, insert, IsSorted, find-insert_self, insert-IsSorted, erase-IsSorted}
use tinia.Model.Types.{CppType, Platform}
use tinia.Model.Errors.{Result, Result-cases}
use tinia.Model.ElementData.{
  ElementData, set_revision_number, set_min_constraint, set_max_constraint, set_annotation,
}
use tinia.Model.Factory.{Matrix, Viewer, create_element, create_viewer_element}
use tinia.Model.Trees.{StringTree}
use tinia.Model.Annotations.{annotation_map}
use tinia.Model.Exposed.{ExposedModel}
use tinia.Model.Exposed.Add.{
  add_made, add_matrix_element, add_constrained_element, add_element_with_restriction,
  add_annotation, add_annotations, remove_element, check_bounds,
}
use tinia.Model.Exposed.Update.{
  update_element, update_viewer, update_element_from_string, update_element_from_ptree, write_tree,
  update_matrix_value, update_restrictions, update_constraints,
}
use tinia.Model.Exposed.Effects.{update_element_cases, finish_update_effect}

abbrev pub Keyed : ExposedModel → Type 0
Keyed m = IsSorted m.state_hash

module _ (p : Platform) (m : ExposedModel) (s : Keyed m) where
  pub update_element-Keyed :
      (t : CppType) (k : String) (v : t.Carrier) → Keyed (update_element p t k v m).1
  update_element-Keyed t k v = elim (update_element_cases p t k v m) [
    | inl (x, q) ↦ ground arith
    | inr (e, e', _, _, _, _, _, q) ↦
        let m' = record m { state_hash = insert k e' m.state_hash } in
        let r = finish_update_effect k e.string_value e' m' in grind (arith, insert-IsSorted)
  ]

  pub add_made-Keyed :
      (k : String) (made : Result ElementData) (a : String) → Keyed (add_made k made a m).1
  unfolding add_made
  add_made-Keyed k made a = elim (Option-cases (find k m.state_hash)) [
    | inl new ↦ elim (Result-cases made) [
      | inl (x, q) ↦ ground arith
      | inr (e, q) ↦ grind (arith, insert-IsSorted)
    ]
    | inr (e, old) ↦ ground arith
  ]

  pub update_element_from_string-Keyed :
      (k value : String) → Keyed (update_element_from_string p k value m).1
  unfolding update_element_from_string
  update_element_from_string-Keyed k value = grind (arith, insert-IsSorted)

  pub update_element_from_ptree-Keyed :
      (k : String) (value : StringTree) → Keyed (update_element_from_ptree p k value m).1
  unfolding update_element_from_ptree write_tree
  update_element_from_ptree-Keyed k value = grind (arith, insert-IsSorted)

  pub add_matrix_element-Keyed : (k : String) (v : Matrix p) → Keyed (add_matrix_element p k v m).1
  unfolding add_matrix_element
  add_matrix_element-Keyed k v = elim (Option-cases (find k m.state_hash)) [
    | inl new ↦ grind (arith, insert-IsSorted)
    | inr (e, old) ↦ ground arith
  ]

  pub add_constrained_element-Keyed :
      (t : CppType) (k : String) (v low high : t.Carrier) (a : String)
      → Keyed (add_constrained_element p t k v low high a m).1
  unfolding add_constrained_element
  add_constrained_element-Keyed t k v low high a = elim (Result-cases (check_bounds t v low high)) [
    | inl (x, q) ↦ ground arith
    | inr (_, q) ↦ elim (Option-cases (find k m.state_hash)) [
      | inl new ↦ elim (Result-cases (create_element p t v)) [
        | inl (x, r) ↦ ground arith
        | inr (e, r) ↦
            let e₁ = set_revision_number e m.revision_number in
            let e₂ = set_max_constraint (set_min_constraint e₁ (t.stream low)) (t.stream high) in
            let h₁ = insert k e₁ m.state_hash in
            let h₂ = insert k e₂ h₁ in
            let e₃ = set_annotation e₂ (insert "en" a []) in
            ground (
              arith,
              find-insert_self k e₂ h₁,
              insert-IsSorted k e₁ m.state_hash s,
              insert-IsSorted k e₂ h₁,
              insert-IsSorted k e₃ h₂,
            )
      ]
      | inr (e, old) ↦ ground arith
    ]
  ]

  pub add_element_with_restriction-Keyed :
      (t : CppType) (k : String) (v : t.Carrier) (allowed : List t.Carrier)
      → Keyed (add_element_with_restriction p t k v allowed m).1
  unfolding add_element_with_restriction
  add_element_with_restriction-Keyed t k v allowed = elim (Option-cases (find k m.state_hash)) [
    | inl new ↦ grind (arith, insert-IsSorted)
    | inr (e, old) ↦ ground arith
  ]

  pub update_viewer-Keyed : (k : String) (v : Viewer p) → Keyed (update_viewer p k v m).1
  unfolding update_viewer
  update_viewer-Keyed k v = elim (Option-cases (find k m.state_hash)) [
    | inl new ↦ ground arith
    | inr (e, old) ↦ elim (Result-cases (create_viewer_element p v)) [
      | inl (x, q) ↦ ground arith
      | inr (e', q) ↦ grind (arith, insert-IsSorted)
    ]
  ]

  pub update_matrix_value-Keyed :
      (k : String) (v : Matrix p) → Keyed (update_matrix_value p k v m).1
  unfolding update_matrix_value
  update_matrix_value-Keyed k v = grind (arith, insert-IsSorted)

  pub add_annotation-Keyed : (k text : String) → Keyed (add_annotation k text m).1
  unfolding add_annotation
  add_annotation-Keyed k text = grind (arith, insert-IsSorted)

  pub add_annotations-Keyed :
      (k : String) (texts : List String) → Keyed (add_annotations k texts m).1
  unfolding add_annotations
  add_annotations-Keyed k texts = elim (Result-cases (annotation_map [] texts)) [
    | inl (x, q) ↦ ground arith
    | inr (annotations, q) ↦ grind (arith, insert-IsSorted)
  ]

  pub update_restrictions-Keyed :
      (k v : String) (allowed : List String) → Keyed (update_restrictions p k v allowed m).1
  unfolding update_restrictions
  update_restrictions-Keyed k v allowed = elim (Option-cases (find k m.state_hash)) [
    | inl missing ↦ ground arith
    | inr (e, old) ↦ grind (arith, insert-IsSorted)
  ]

  pub update_constraints-Keyed :
      (t : CppType) (k : String) (v low high : t.Carrier)
      → Keyed (update_constraints p t k v low high m).1
  unfolding update_constraints
  update_constraints-Keyed t k v low high = elim (Option-cases (find k m.state_hash)) [
    | inl missing ↦ ground arith
    | inr (e, old) ↦ grind (arith, insert-IsSorted)
  ]

  pub remove_element-Keyed : (k : String) → Keyed (remove_element k m).1
  unfolding remove_element
  remove_element-Keyed k = elim (Option-cases (find k m.state_hash)) [
    | inl missing ↦ ground arith
    | inr (e, old) ↦ ground (arith, erase-IsSorted k m.state_hash s)
  ]
