-- ===== src/Model/Exposed/Requests.antt =====
-- Sequences of calls of the functions that give the element they write a new revision number.
use tinia.Prelude.{ℕ, String, List, [], ◌∷◌}
use tinia.Model.Types.{CppType, Platform}
use tinia.Model.Factory.{Matrix, Viewer}
use tinia.Model.Trees.{StringTree}
use tinia.Model.Layout.{Child}
use tinia.Model.Exposed.{ExposedModel}
use tinia.Model.Exposed.Layouts.{set_gui_layout, get_gui_layout}
use tinia.Model.Exposed.Add.{
  add_element, add_viewer, add_matrix_element, add_constrained_element,
  add_element_with_restriction, add_annotation, add_annotations, remove_element,
}
use tinia.Model.Exposed.Update.{
  update_element, update_viewer, update_element_from_string, update_element_from_ptree,
  update_matrix_value, update_restrictions, update_constraints, hold_state_events,
  release_state_events,
}
use tinia.Model.Exposed.Query.{
  listen, listen_at, unlisten, unlisten_at, listen_schema, listen_schema_at, unlisten_schema,
  unlisten_schema_at,
}

-- The calls that take a new revision number for the element that they write.
pub data Request (p : Platform) : Type 1 where
  add : (t : CppType) → String → t.Carrier → String → Request p
  add_a_viewer : String → Viewer p → String → Request p
  add_matrix : String → Matrix p → Request p
  add_constrained : (t : CppType) → String → (value low high : t.Carrier) → String → Request p
  add_restricted : (t : CppType) → String → t.Carrier → List t.Carrier → Request p
  update : (t : CppType) → String → t.Carrier → Request p
  update_a_viewer : String → Viewer p → Request p
  update_text : String → String → Request p
  update_tree : String → StringTree → Request p
  update_matrix : String → Matrix p → Request p

module _ (p : Platform) where
  -- The model after a call, which may have thrown.
  unfoldable pub serve : Request p → ExposedModel → ExposedModel
  serve (add t k v a) m = (add_element p t k v a m).1
  serve (add_a_viewer k v a) m = (add_viewer p k v a m).1
  serve (add_matrix k v) m = (add_matrix_element p k v m).1
  serve (add_constrained t k v low high a) m = (add_constrained_element p t k v low high a m).1
  serve (add_restricted t k v allowed) m = (add_element_with_restriction p t k v allowed m).1
  serve (update t k v) m = (update_element p t k v m).1
  serve (update_a_viewer k v) m = (update_viewer p k v m).1
  serve (update_text k s) m = (update_element_from_string p k s m).1
  serve (update_tree k t) m = (update_element_from_ptree p k t m).1
  serve (update_matrix k v) m = (update_matrix_value p k v m).1

  unfoldable pub run : List (Request p) → ExposedModel → ExposedModel
  run [] m = m
  run (r ∷ rs) m = run rs (serve r m)

-- Every call that changes the model.
pub data Mutation (p : Platform) : Type 1 where
  request : Request p → Mutation p
  annotate : String → String → Mutation p
  annotate_all : String → List String → Mutation p
  restrict : String → String → List String → Mutation p
  constrain : (t : CppType) → String → (value low high : t.Carrier) → Mutation p
  remove : String → Mutation p
  hold release get_layout : Mutation p
  set_layout : Child → Mutation p
  add_listener remove_listener add_schema_listener remove_schema_listener : ℕ → Mutation p
  add_key_listener remove_key_listener add_key_schema_listener remove_key_schema_listener :
      String → ℕ → Mutation p

module _ (p : Platform) where
  -- The model after a call, which may have thrown.
  unfoldable pub mutate : Mutation p → ExposedModel → ExposedModel
  unfolding serve hold_state_events listen unlisten listen_at unlisten_at listen_schema
      unlisten_schema listen_schema_at unlisten_schema_at
  mutate (request r) m = serve p r m
  mutate (annotate k text) m = (add_annotation k text m).1
  mutate (annotate_all k texts) m = (add_annotations k texts m).1
  mutate (restrict k v allowed) m = (update_restrictions p k v allowed m).1
  mutate (constrain t k v low high) m = (update_constraints p t k v low high m).1
  mutate (remove k) m = (remove_element k m).1
  mutate (set_layout c) m = (set_gui_layout p c m).1
  mutate get_layout m = (get_gui_layout m).1
  mutate hold m = (hold_state_events m).1
  mutate release m = (release_state_events m).1
  mutate (add_listener l) m = (listen l m).1
  mutate (remove_listener l) m = (unlisten l m).1
  mutate (add_schema_listener l) m = (listen_schema l m).1
  mutate (remove_schema_listener l) m = (unlisten_schema l m).1
  mutate (add_key_listener k l) m = (listen_at k l m).1
  mutate (remove_key_listener k l) m = (unlisten_at k l m).1
  mutate (add_key_schema_listener k l) m = (listen_schema_at k l m).1
  mutate (remove_key_schema_listener k l) m = (unlisten_schema_at k l m).1

  unfoldable pub mutate_all : List (Mutation p) → ExposedModel → ExposedModel
  unfolding mutate
  mutate_all [] m = m
  mutate_all (c ∷ cs) m = mutate_all cs (mutate c m)
