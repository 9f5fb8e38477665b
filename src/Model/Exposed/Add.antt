-- ===== src/Model/Exposed/Add.antt =====
-- The member functions of ExposedModel that add, annotate and remove elements.
use tinia.Prelude.{String, Bool, false, not, ◌||◌, List, [], ◌∷◌, if◌then◌else◌, str_eq}
use tinia.Prelude.Text.{lt_text}
use tinia.Prelude.Map.{Map, insert, erase}
use tinia.Model.Errors.{Result, ok, err, restriction, bounds_exceeded}
use tinia.Model.Types.{CppType, Platform}
use tinia.Model.ElementData.{
  ElementData, is_empty, set_min_constraint, set_max_constraint, set_restriction_set,
  set_annotation,
}
use tinia.Model.Factory.{
  create_element, Viewer, create_viewer_element, Matrix, create_matrix_element,
}
use tinia.Model.Annotations.{annotation_map}
use tinia.Model.Exposed.{
  M, pure, lift, modify, ◌>>=◌, ◌>>◌, find_element, store, add_element_error_checking,
  update_state_hash, fire_state_schema_element_added, fire_state_schema_element_removed,
  fire_state_schema_element_modified,
}

-- addElementInternal, for the element that the factory makes of the value.
unfoldable pub add_element_internal : String → Result ElementData → M ElementData
unfolding add_element_error_checking update_state_hash
add_element_internal k made = do add_element_error_checking k; e ← lift made; update_state_hash k e

unfoldable pub add_annotation_helper : String → Map String → M (Unit {0})
unfolding find_element store set_annotation fire_state_schema_element_modified
add_annotation_helper k annotations = do
  e ← find_element k
  let e' = set_annotation e annotations
  store k e'
  fire_state_schema_element_modified k e'

-- addAnnotation(key, text): the text is the English one.
unfoldable pub add_annotation : String → String → M (Unit {0})
unfolding add_annotation_helper insert
add_annotation k text = add_annotation_helper k (insert "en" text [])

-- addAnnotation(key, begin, end), for the texts from begin to end.
unfoldable pub add_annotations : String → List String → M (Unit {0})
unfolding annotation_map add_annotation_helper
add_annotations k texts = do
  annotations ← lift (annotation_map [] texts)
  add_annotation_helper k annotations

-- addElement, for the element that the factory makes of the value. The listener is given the copy
-- that was taken before the annotation.
unfoldable pub add_made : String → Result ElementData → String → M (Unit {0})
unfolding add_element_internal add_annotation fire_state_schema_element_added is_empty
add_made k made annotation = do
  e ← add_element_internal k made
  if not (is_empty annotation) then add_annotation k annotation else pure tt
  fire_state_schema_element_added k e

module _ (p : Platform) where
  unfoldable pub add_element : (t : CppType) → String → t.Carrier → String → M (Unit {0})
  unfolding add_made
  add_element t k v annotation = add_made k (create_element p t v) annotation

  -- addElement<Viewer>
  unfoldable pub add_viewer : String → Viewer p → String → M (Unit {0})
  unfolding add_made
  add_viewer k v annotation = add_made k (create_viewer_element p v) annotation

  unfoldable pub add_matrix_element : String → Matrix p → M (Unit {0})
  unfolding add_element_internal fire_state_schema_element_added
  add_matrix_element k matrix = do
    e ← add_element_internal k (create_matrix_element p matrix)
    fire_state_schema_element_added k e

-- impl::checkBounds
unfoldable pub check_bounds : (t : CppType) → (value low high : t.Carrier) → Result (Unit {0})
check_bounds t value low high =
    if t.lt value low || t.lt high value || t.lt high low
    then err (bounds_exceeded (t.cast value) (t.cast low) (t.cast high))
    else ok tt

unfoldable pub add_constrained_element :
    Platform → (t : CppType) → String → (value low high : t.Carrier) → String → M (Unit {0})
unfolding check_bounds add_element_internal set_min_constraint set_max_constraint store
    add_annotation fire_state_schema_element_added
add_constrained_element p t k value low high annotation = do
  lift (check_bounds t value low high)
  e ← add_element_internal k (create_element p t value)
  let e' = set_max_constraint (set_min_constraint e (t.stream low)) (t.stream high)
  store k e'
  add_annotation k annotation
  fire_state_schema_element_added k e'

-- std::set<std::string>::insert
unfoldable pub insert_text : String → List String → List String
unfolding lt_text
insert_text s [] = s ∷ []
insert_text s (x ∷ xs) =
    if str_eq x s then x ∷ xs else if lt_text s x then s ∷ x ∷ xs else x ∷ insert_text s xs

-- The strings of the values, as a std::set<std::string>.
unfoldable pub restriction_strings : (t : CppType) → List t.Carrier → List String
unfolding insert_text
restriction_strings t [] = []
restriction_strings t (v ∷ vs) = insert_text (t.cast v) (restriction_strings t vs)

-- restrictionSet.find(value) != restrictionSet.end(): the set holds one that is neither less nor
-- greater.
unfoldable pub in_set : (t : CppType) → t.Carrier → List t.Carrier → Bool
in_set t v [] = false
in_set t v (x ∷ xs) = not (t.lt v x || t.lt x v) || in_set t v xs

unfoldable pub check_in_set : (t : CppType) → t.Carrier → List t.Carrier → Result (Unit {0})
unfolding in_set
check_in_set t v allowed = if in_set t v allowed then ok tt else err (restriction (t.cast v))

unfoldable pub add_element_with_restriction :
    Platform → (t : CppType) → String → t.Carrier → List t.Carrier → M (Unit {0})
unfolding check_in_set restriction_strings add_element_internal set_restriction_set store
    fire_state_schema_element_added
add_element_with_restriction p t k v allowed = do
  lift (check_in_set t v allowed)
  e ← add_element_internal k (create_element p t v)
  let e' = set_restriction_set e (restriction_strings t allowed)
  store k e'
  fire_state_schema_element_added k e'

unfoldable pub remove_element : String → M (Unit {0})
unfolding find_element erase fire_state_schema_element_removed
remove_element k = do
  e ← find_element k
  modify (λ m. record m { state_hash = erase k m.state_hash })
  fire_state_schema_element_removed k e
