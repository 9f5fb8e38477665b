-- ===== src/Model/Exposed/Invariant.antt =====
-- What every call keeps: the keys ascend, and the revision numbers in use lie below the next one.
use mathlib.Core.Path.{subst}
use tinia.Prelude.{
  ℕ, ◌≡◌, ◌+◌, ◌≤◌, ◌<◌, sym, inl, inr, String, Option, none, some, List, [], ◌∷◌, length, arith,
  eq_iff, Option-cases, Bool-cases,
}
use tinia.Prelude.Map.{find, IsSorted, find-insert, find-erase}
use tinia.Model.Types.{CppType, Platform}
use tinia.Model.ElementData.{ElementData}
use tinia.Model.Factory.{create_element, create_viewer_element}
use tinia.Model.Errors.{Result-cases}
use tinia.Model.Annotations.{annotation_map}
use tinia.Model.Exposed.{ExposedModel, u32_mod, new_model}
use tinia.Model.Exposed.Add.{
  add_element, add_viewer, add_annotation, add_annotations, remove_element,
}
use tinia.Model.Exposed.Update.{update_restrictions, update_constraints, release_state_events}
use tinia.Prelude.Int.{ltb_ℤ, pos, pred}
use tinia.Model.Exposed.Requests.{
  Request, add, add_a_viewer, add_matrix, add_constrained, add_restricted, update, update_a_viewer,
  update_text, update_tree, update_matrix, serve, run, Mutation, request, annotate, annotate_all,
  restrict, constrain, remove, hold, set_layout, get_layout, release, mutate, mutate_all,
}
use tinia.Model.Exposed.Layouts.Fits.{set_gui_layout-keeps, get_gui_layout-keeps}
use tinia.Model.Exposed.Marked.{Fresh, Since, serve-Marked}
use tinia.Model.Exposed.Keyed.{
  Keyed, update_element-Keyed, add_made-Keyed, update_element_from_string-Keyed,
  update_element_from_ptree-Keyed, add_matrix_element-Keyed, add_constrained_element-Keyed,
  add_element_with_restriction-Keyed, update_viewer-Keyed, update_matrix_value-Keyed,
  add_annotation-Keyed, add_annotations-Keyed, update_restrictions-Keyed, update_constraints-Keyed,
  remove_element-Keyed,
}

-- The revision number of an element that is there lies below the next one.
abbrev pub Below : ℕ → Option ElementData → Type 0
Below r none = Unit
Below r (some e) = e.pre_change_revision_number < r

abbrev BelowAt : String → ExposedModel → Type 0
BelowAt j m = Below m.revision_number (find j m.state_hash)

module _ (p : Platform) (j : String) (m : ExposedModel) (b : BelowAt j m) where
  add_annotation-Below : (k text : String) → BelowAt j (add_annotation k text m).1
  unfolding add_annotation
  add_annotation-Below k text = grind (arith, find-insert, eq_iff)

  add_annotations-Below :
      (k : String) (texts : List String) → BelowAt j (add_annotations k texts m).1
  unfolding add_annotations
  add_annotations-Below k texts = elim (Result-cases (annotation_map [] texts)) [
    | inl (x, q) ↦ ground arith
    | inr (annotations, q) ↦ grind (arith, find-insert, eq_iff)
  ]

  update_restrictions-Below :
      (k v : String) (allowed : List String) → BelowAt j (update_restrictions p k v allowed m).1
  unfolding update_restrictions
  update_restrictions-Below k v allowed = elim (Option-cases (find k m.state_hash)) [
    | inl missing ↦ ground arith
    | inr (e, old) ↦ grind (arith, find-insert, eq_iff)
  ]

  update_constraints-Below :
      (t : CppType) (k : String) (v low high : t.Carrier)
      → BelowAt j (update_constraints p t k v low high m).1
  unfolding update_constraints
  update_constraints-Below t k v low high = elim (Option-cases (find k m.state_hash)) [
    | inl missing ↦ ground arith
    | inr (e, old) ↦ grind (arith, find-insert, eq_iff)
  ]

  remove_element-Below : (k : String) → BelowAt j (remove_element k m).1
  unfolding remove_element
  remove_element-Below k = elim (Option-cases (find k m.state_hash)) [
    | inl missing ↦ ground arith
    | inr (e, old) ↦ ground (arith, find-erase k j m.state_hash)
  ]

pub record IsValid (m : ExposedModel) : Type 0 where
  pub keyed : IsSorted m.state_hash
  pub below : (j : String) → Below m.revision_number (find j m.state_hash)

pub new_model-IsValid : IsValid new_model
unfolding new_model find
new_model-IsValid = record { keyed = tt; below = λ j. tt }

same-IsValid :
    (m m' : ExposedModel)
    → m'.state_hash ≡ m.state_hash
    → m'.revision_number ≡ m.revision_number
    → IsValid m
    → IsValid m'
same-IsValid m m' h r v = record { keyed = rw h v.keyed; below = λ j. rw (h, r) (v.below j) }

Below-mono : (r s : ℕ) (o : Option ElementData) → r ≤ s → Below r o → Below s o
Below-mono r s none h b = tt
Below-mono r s (some e) h b = omega arith

Below-Fresh : (r s : ℕ) (o : Option ElementData) → Fresh r s o → Below s o
Below-Fresh r s none f = tt
Below-Fresh r s (some e) f = f.1

-- A call that marks what it writes keeps the numbers below the next one.
Below-Since : (j : String) (m m' : ExposedModel) → Since j m m' → BelowAt j m → BelowAt j m'
Below-Since j m m' (h, k) b = elim k [
  | inl same ↦
      subst (Below m'.revision_number) (sym same)
        (Below-mono m.revision_number m'.revision_number (find j m.state_hash) h b)
  | inr new ↦ Below-Fresh m.revision_number _ (find j m'.state_hash) new
]

release_state_events-IsValid : (m : ExposedModel) → IsValid m → IsValid (release_state_events m).1
unfolding release_state_events
release_state_events-IsValid m v = elim (Bool-cases (ltb_ℤ (pos 0) (pred m.hold_event_counter))) [
  | inl more ↦ rw more (record { keyed = v.keyed; below = v.below })
  | inr last ↦ rw last (record { keyed = v.keyed; below = v.below })
]

module _ (p : Platform) where
  serve-Keyed : (r : Request p) (m : ExposedModel) → Keyed m → Keyed (serve p r m)
  unfolding serve add_element add_viewer
  serve-Keyed (add t k v a) m s = add_made-Keyed p m s k (create_element p t v) a
  serve-Keyed (add_a_viewer k v a) m s = add_made-Keyed p m s k (create_viewer_element p v) a
  serve-Keyed (add_matrix k v) m s = add_matrix_element-Keyed p m s k v
  serve-Keyed (add_constrained t k v low high a) m s =
      add_constrained_element-Keyed p m s t k v low high a
  serve-Keyed (add_restricted t k v allowed) m s =
      add_element_with_restriction-Keyed p m s t k v allowed
  serve-Keyed (update t k v) m s = update_element-Keyed p m s t k v
  serve-Keyed (update_a_viewer k v) m s = update_viewer-Keyed p m s k v
  serve-Keyed (update_text k value) m s = update_element_from_string-Keyed p m s k value
  serve-Keyed (update_tree k value) m s = update_element_from_ptree-Keyed p m s k value
  serve-Keyed (update_matrix k v) m s = update_matrix_value-Keyed p m s k v

  pub run-Keyed : (rs : List (Request p)) (m : ExposedModel) → Keyed m → Keyed (run p rs m)
  unfolding run
  run-Keyed [] m s = s
  run-Keyed (r ∷ rs) m s = run-Keyed rs (serve p r m) (serve-Keyed r m s)

  serve-IsValid :
      (r : Request p) (m : ExposedModel)
      → m.revision_number + 1 < u32_mod
      → IsValid m
      → IsValid (serve p r m)
  serve-IsValid r m room v = record {
    keyed = serve-Keyed r m v.keyed;
    below = λ j. Below-Since j m (serve p r m) (serve-Marked p j r m room).0 (v.below j);
  }

  pub mutate-IsValid :
      (c : Mutation p) (m : ExposedModel)
      → m.revision_number + 1 < u32_mod
      → IsValid m
      → IsValid (mutate p c m)
  unfolding mutate
  mutate-IsValid (request r) m room v = serve-IsValid r m room v
  mutate-IsValid (annotate k text) m room v = record {
    keyed = add_annotation-Keyed p m v.keyed k text;
    below = λ j. add_annotation-Below p j m (v.below j) k text;
  }
  mutate-IsValid (annotate_all k texts) m room v = record {
    keyed = add_annotations-Keyed p m v.keyed k texts;
    below = λ j. add_annotations-Below p j m (v.below j) k texts;
  }
  mutate-IsValid (restrict k w allowed) m room v = record {
    keyed = update_restrictions-Keyed p m v.keyed k w allowed;
    below = λ j. update_restrictions-Below p j m (v.below j) k w allowed;
  }
  mutate-IsValid (constrain t k w low high) m room v = record {
    keyed = update_constraints-Keyed p m v.keyed t k w low high;
    below = λ j. update_constraints-Below p j m (v.below j) t k w low high;
  }
  mutate-IsValid (remove k) m room v = record {
    keyed = remove_element-Keyed p m v.keyed k;
    below = λ j. remove_element-Below p j m (v.below j) k;
  }
  mutate-IsValid (set_layout c) m room v =
      let h = set_gui_layout-keeps p c m in same-IsValid m _ h.0 h.1 v
  mutate-IsValid get_layout m room v = let h = get_gui_layout-keeps m in same-IsValid m _ h.0 h.1 v
  mutate-IsValid release m room v = release_state_events-IsValid m v
  mutate-IsValid hold m room v = record { keyed = v.keyed; below = v.below }
  mutate-IsValid _ m room v = record { keyed = v.keyed; below = v.below }

  -- A call uses one revision number at most.
  mutate-revision :
      (c : Mutation p) (m : ExposedModel)
      → m.revision_number + 1 < u32_mod
      → (mutate p c m).revision_number ≤ m.revision_number + 1
  unfolding mutate
  mutate-revision (request r) m room = (serve-Marked p "" r m room).1
  mutate-revision (annotate k text) m room = unfold add_annotation in grind arith
  mutate-revision (annotate_all k texts) m room = elim (Result-cases (annotation_map [] texts)) [
    | inl (x, q) ↦ unfold add_annotations in ground arith
    | inr (annotations, q) ↦ unfold add_annotations in grind arith
  ]
  mutate-revision (restrict k w allowed) m room = unfold update_restrictions in grind arith
  mutate-revision (constrain t k w low high) m room = unfold update_constraints in grind arith
  mutate-revision (remove k) m room = unfold remove_element in grind arith
  mutate-revision (set_layout c) m room = omega (arith, (set_gui_layout-keeps p c m).1)
  mutate-revision get_layout m room = omega (arith, (get_gui_layout-keeps m).1)
  mutate-revision release m room = unfold release_state_events in grind arith
  mutate-revision hold m room = omega arith
  mutate-revision _ m room = omega arith

  -- Every sequence of calls, whether they succeed or throw, keeps the model valid: its keys ascend,
  -- and the revision numbers of its elements lie below the next one, as long as the counter has
  -- that many numbers left.
  pub mutate_all-IsValid :
      (cs : List (Mutation p)) (m : ExposedModel)
      → m.revision_number + length cs < u32_mod
      → IsValid m
      → IsValid (mutate_all p cs m)
  unfolding mutate_all
  mutate_all-IsValid [] m room v = v
  mutate_all-IsValid (c ∷ cs) m room v =
      mutate_all-IsValid cs (mutate p c m) (omega (arith, mutate-revision c m (omega arith)))
        (mutate-IsValid c m (omega arith) v)
