-- ===== src/Model/Exposed/Marked.antt =====
-- What such a call writes carries a revision number that no earlier state used.
use mathlib.Core.Path.{subst}
use tinia.Prelude.{
  ℕ, ◌+◌, ◌≤◌, ◌<◌, ◌≡◌, refl, sym, ◌∙◌, ◌⊎◌, inl, inr, String, Option, none, some, List, [], ◌∷◌,
  length, not, arith, str_eq,
}
use tinia.Prelude.Map.{find, insert, find-insert}
use tinia.Model.Types.{CppType, Platform}
use tinia.Model.Errors.{Result}
use tinia.Model.ElementData.{ElementData, set_revision_number}
use tinia.Model.Factory.{Matrix, Viewer, create_element, create_viewer_element}
use tinia.Model.Trees.{StringTree}
use tinia.Model.Exposed.{ExposedModel, u32_mod}
use tinia.Model.Exposed.Add.{
  add_made, add_element, add_viewer, add_matrix_element, add_constrained_element,
  add_element_with_restriction,
}
use tinia.Model.Exposed.Update.{
  update_element, update_viewer, update_element_from_string, update_element_from_ptree, write_tree,
  update_matrix_value,
}
use tinia.Model.Exposed.Effects.{
  update_element_cases, finish_update_effect, update_element_from_string_cases, fire_if_effect,
  bumped, set_string_value-eq,
}
use tinia.Model.Exposed.Requests.{
  Request, add, add_a_viewer, add_matrix, add_constrained, add_restricted, update, update_a_viewer,
  update_text, update_tree, update_matrix, serve, run,
}

-- An element whose revision number lies in a range.
abbrev pub Fresh : ℕ → ℕ → Option ElementData → Type 0
Fresh r s none = ⊥
Fresh r s (some e) = (r ≤ e.pre_change_revision_number) × (e.pre_change_revision_number < s)

Fresh-mono :
    (r s r' s' : ℕ) (o : Option ElementData) → r ≤ r' → s' ≤ s → Fresh r' s' o → Fresh r s o
Fresh-mono r s r' s' none h k f = f
Fresh-mono r s r' s' (some e) h k f = omega arith

-- At key `j`: what `m'` holds is what `m` held, or is marked by a revision number not used by `m`.
abbrev pub Since : String → ExposedModel → ExposedModel → Type 0
Since j m m' =
    (m.revision_number ≤ m'.revision_number)
    × ((find j m'.state_hash ≡ find j m.state_hash)
        ⊎ Fresh m.revision_number m'.revision_number (find j m'.state_hash))

-- And that by one call, which uses one revision number at most.
abbrev pub Marked : String → ExposedModel → ExposedModel → Type 0
Marked j m m' = Since j m m' × (m'.revision_number ≤ m.revision_number + 1)

module _ (p : Platform) (j : String) (m : ExposedModel)
    (room : m.revision_number + 1 < u32_mod) where
  update_element-Marked :
      (t : CppType) (k : String) (v : t.Carrier) → Marked j m (update_element p t k v m).1
  unfolding set_revision_number
  update_element-Marked t k v = elim (update_element_cases p t k v m) [
    | inl (x, q) ↦ ground arith
    | inr (e, e', _, _, _, _, _, q) ↦
        let r =
          finish_update_effect k e.string_value e'
            (record m { state_hash = insert k e' m.state_hash }) in
        ground (
          arith,
          find-insert k j (set_revision_number e' m.revision_number) (insert k e' m.state_hash),
          find-insert k j e' m.state_hash,
        )
  ]

  update_matrix_value-Marked :
      (k : String) (v : Matrix p) → Marked j m (update_matrix_value p k v m).1
  unfolding update_matrix_value
  update_matrix_value-Marked k v = grind (arith, find-insert)

  add_made-Marked :
      (k : String) (made : Result ElementData) (a : String) → Marked j m (add_made k made a m).1
  unfolding add_made
  add_made-Marked k made a = grind (arith, find-insert)

  add_matrix_element-Marked :
      (k : String) (v : Matrix p) → Marked j m (add_matrix_element p k v m).1
  unfolding add_matrix_element
  add_matrix_element-Marked k v = grind (arith, find-insert)

  add_constrained_element-Marked :
      (t : CppType) (k : String) (v low high : t.Carrier) (a : String)
      → Marked j m (add_constrained_element p t k v low high a m).1
  unfolding add_constrained_element
  add_constrained_element-Marked t k v low high a = grind (arith, find-insert)

  add_element_with_restriction-Marked :
      (t : CppType) (k : String) (v : t.Carrier) (allowed : List t.Carrier)
      → Marked j m (add_element_with_restriction p t k v allowed m).1
  unfolding add_element_with_restriction
  add_element_with_restriction-Marked t k v allowed = grind (arith, find-insert)

  update_viewer-Marked : (k : String) (v : Viewer p) → Marked j m (update_viewer p k v m).1
  unfolding update_viewer
  update_viewer-Marked k v = grind (arith, find-insert)

  update_element_from_string-Marked :
      (k value : String) → Marked j m (update_element_from_string p k value m).1
  unfolding set_revision_number
  update_element_from_string-Marked k value = elim (update_element_from_string_cases p k value m) [
    | inl (_, r) ↦ ground arith
    | inr (e, _, inl (x, _, r)) ↦
        ground (arith, find-insert k j (set_revision_number e m.revision_number) m.state_hash)
    | inr (e, _, inr (e', f, r)) ↦
        let v = set_string_value-eq (set_revision_number e m.revision_number) p value f in
        let h =
          fire_if_effect (not (str_eq e.string_value e'.string_value)) k e'
            (record (bumped k e m) { state_hash = insert k e' (bumped k e m).state_hash }) in
        ground (
          arith,
          find-insert k j (set_revision_number e m.revision_number) m.state_hash,
          find-insert k j e' (bumped k e m).state_hash,
        )
  ]

  update_element_from_ptree-Marked :
      (k : String) (value : StringTree) → Marked j m (update_element_from_ptree p k value m).1
  unfolding update_element_from_ptree write_tree set_revision_number
  update_element_from_ptree-Marked k value = grind (arith, find-insert)

module _ (p : Platform) where
  pub serve-Marked :
      (j : String) (r : Request p) (m : ExposedModel)
      → m.revision_number + 1 < u32_mod
      → Marked j m (serve p r m)
  unfolding serve add_element add_viewer
  serve-Marked j (add t k v a) m room = add_made-Marked p j m room k (create_element p t v) a
  serve-Marked j (add_a_viewer k v a) m room =
      add_made-Marked p j m room k (create_viewer_element p v) a
  serve-Marked j (add_matrix k v) m room = add_matrix_element-Marked p j m room k v
  serve-Marked j (add_constrained t k v low high a) m room =
      add_constrained_element-Marked p j m room t k v low high a
  serve-Marked j (add_restricted t k v allowed) m room =
      add_element_with_restriction-Marked p j m room t k v allowed
  serve-Marked j (update t k v) m room = update_element-Marked p j m room t k v
  serve-Marked j (update_a_viewer k v) m room = update_viewer-Marked p j m room k v
  serve-Marked j (update_text k s) m room = update_element_from_string-Marked p j m room k s
  serve-Marked j (update_tree k value) m room = update_element_from_ptree-Marked p j m room k value
  serve-Marked j (update_matrix k v) m room = update_matrix_value-Marked p j m room k v

  Since-trans : (j : String) (a b c : ExposedModel) → Since j a b → Since j b c → Since j a c
  Since-trans j a b c (p₁, h) (p₂, k) = elim k [
    | inr new ↦ (
      omega arith,
      inr (
          Fresh-mono _ _ b.revision_number c.revision_number (find j c.state_hash) p₁ (omega arith)
            new),
    )
    | inl same ↦ elim h [
      | inl old ↦ (omega arith, inl (same ∙ old))
      | inr new ↦ (
        omega arith,
        inr (
            subst (Fresh a.revision_number c.revision_number) (sym same) (
              Fresh-mono _ _ a.revision_number b.revision_number (find j b.state_hash) (omega arith)
                p₂ new)),
      )
    ]
  ]

  pub run-Since :
      (j : String) (rs : List (Request p)) (m : ExposedModel)
      → m.revision_number + length rs < u32_mod
      → Since j m (run p rs m)
  unfolding run
  run-Since j [] m room = (omega arith, inl refl)
  run-Since j (r ∷ rs) m room =
      let (s, b) = serve-Marked j r m (omega arith) in
      Since-trans j m (serve p r m) (run p rs (serve p r m)) s
        (run-Since j rs (serve p r m) (omega arith))
