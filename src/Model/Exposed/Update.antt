-- ===== src/Model/Exposed/Update.antt =====
-- The member functions of ExposedModel that change the value, the constraints or the restrictions of
-- an element, and ExposedModelLock (src/model/ExposedModelLock.cpp), which holds events back.
use tinia.Prelude.{String, Bool, false, not, ◌||◌, List, ◌++◌, if◌then◌else◌, ◌==◌, str_eq}
use tinia.Prelude.Int.{pos, negsuc, ltb_ℤ, succ, pred}
use tinia.Model.Trees.{StringTree, set_property_tree_value}
use tinia.Model.Errors.{Result, ok, type_mismatch, bounds_exceeded, restriction}
use tinia.Model.Types.{CppType, Platform, TypeName, string_type, get_typename, viewer}
use tinia.Model.ElementData.{
  ElementData, PropertyTree, set_string_value, invalid_constraints, violating_restriction,
  is_complex_type, set_min_constraint, set_max_constraint, set_restriction_set,
}
use tinia.Model.Factory.{Viewer, create_viewer_element, Matrix, create_matrix_element}
use tinia.Model.Listeners.{hold_events, release_events}
use tinia.Model.Exposed.{
  M, pure, throw, lift, modify, ◌>>=◌, ◌>>◌, find_element, store, update_state_hash,
  fire_state_element_modified, fire_state_schema_element_modified,
}
use tinia.Model.Exposed.Add.{check_bounds, check_in_set, restriction_strings}

-- if(changed) fireStateElementModified(key, data);
unfoldable pub fire_if : Bool → String → ElementData → M (Unit {0})
unfolding fire_state_element_modified
fire_if changed k e = if changed then fire_state_element_modified k e else pure tt

-- The tests before the type-specific part of updateElement.
unfoldable pub find_of_type : TypeName → String → M ElementData
unfolding find_element get_typename
find_of_type t k = do
  e ← find_element k
  if not (str_eq e.xsd_type (get_typename t))
      then throw (type_mismatch (get_typename t) e.xsd_type)
      else pure e

-- UpdateElementHelper<false>
unfoldable pub update_simple :
    Platform → (t : CppType) → String → ElementData → t.Carrier → M ElementData
unfolding invalid_constraints violating_restriction set_string_value store
update_simple p t k e v = do
  invalid ← lift (invalid_constraints t e v)
  if invalid then throw (bounds_exceeded (t.cast v) e.min_constraint e.max_constraint) else pure tt
  if violating_restriction t e v then throw (restriction (t.cast v)) else pure tt
  e' ← lift (set_string_value e p (t.cast v))
  store k e'
  pure e'

-- UpdateElementHelper<true>
unfoldable pub update_complex : (p : Platform) → String → Viewer p → M ElementData
unfolding store
update_complex p k v = do e ← lift (create_viewer_element p v); store k e; pure e

-- The end of updateElement: the revision, and the event.
unfoldable pub finish_update : String → String → ElementData → M (Unit {0})
unfolding update_state_hash fire_if is_complex_type
finish_update k before e = do
  e' ← update_state_hash k e
  fire_if (not (str_eq before e'.string_value) || is_complex_type e') k e'

module _ (p : Platform) where
  unfoldable pub update_element : (t : CppType) → String → t.Carrier → M (Unit {0})
  unfolding find_of_type update_simple finish_update
  update_element t k v = do
    e ← find_of_type t.name k
    e' ← update_simple p t k e v
    finish_update k e.string_value e'

  -- updateElement<Viewer>
  unfoldable pub update_viewer : String → Viewer p → M (Unit {0})
  unfolding find_of_type update_complex finish_update
  update_viewer k v = do
    e ← find_of_type viewer k
    e' ← update_complex p k v
    finish_update k e.string_value e'

  unfoldable pub update_element_from_string : String → String → M (Unit {0})
  unfolding find_element update_state_hash set_string_value store fire_if
  update_element_from_string k value = do
    before ← find_element k
    e ← update_state_hash k before
    e' ← lift (set_string_value e p value)
    store k e'
    fire_if (not (str_eq before.string_value e'.string_value)) k e'

  -- The end of updateElementFromPTree, from the call of setPropertyTreeValue: what it leaves of the
  -- tree is in the model even if it throws.
  unfoldable pub write_tree : String → ElementData → PropertyTree × Result (Unit {0}) → M (Unit {0})
  unfolding store fire_state_element_modified
  write_tree k e written = do
    store k (record e { property_tree = written.0 })
    lift written.1
    fire_state_element_modified k (record e { property_tree = written.0 })

  -- `value` is the tree below the first child of the argument.
  unfoldable pub update_element_from_ptree : String → StringTree → M (Unit {0})
  unfolding find_element update_state_hash set_property_tree_value write_tree
  update_element_from_ptree k value = do
    before ← find_element k
    e ← update_state_hash k before
    write_tree k e (set_property_tree_value p e.property_tree value)

  unfoldable pub is_matrix : ElementData → Bool
  is_matrix e = elim e.length [ pos n ↦ n == 16 | negsuc n ↦ false ]

  -- addMatrixHelper
  unfoldable pub add_matrix_helper : String → Matrix p → M ElementData
  unfolding update_state_hash
  add_matrix_helper k matrix = do e ← lift (create_matrix_element p matrix); update_state_hash k e

  unfoldable pub update_matrix_value : String → Matrix p → M (Unit {0})
  unfolding find_element is_matrix add_matrix_helper fire_if
  update_matrix_value k matrix = do
    before ← find_element k
    if not (is_matrix before) then throw (type_mismatch "Matrix" before.xsd_type) else pure tt
    e ← add_matrix_helper k matrix
    fire_if (not (str_eq e.string_value before.string_value)) k e

  -- It compiles for T = std::string only: the loop over the set has that type written out.
  unfoldable pub update_restrictions : String → String → List String → M (Unit {0})
  unfolding check_in_set restriction_strings find_element set_restriction_set store set_string_value
      fire_state_schema_element_modified fire_state_element_modified
  update_restrictions k value allowed = do
    lift (check_in_set string_type value allowed)
    e ← find_element k
    let restricted = set_restriction_set e (restriction_strings string_type allowed)
    store k restricted
    e' ← lift (set_string_value restricted p value)
    store k e'
    fire_state_schema_element_modified k e'
    fire_state_element_modified k e'

  unfoldable pub update_constraints :
      (t : CppType) → String → (value low high : t.Carrier) → M (Unit {0})
  unfolding check_bounds find_element set_min_constraint set_max_constraint store set_string_value
      fire_state_schema_element_modified fire_if
  update_constraints t k value low high = do
    lift (check_bounds t value low high)
    e ← find_element k
    let emit_change =
        not (str_eq (t.stream low) e.min_constraint)
        || not (str_eq (t.stream high) e.max_constraint)
    let emit_value_change = not (str_eq (t.stream value) e.string_value)
    let constrained = set_max_constraint (set_min_constraint e (t.stream low)) (t.stream high)
    store k constrained
    e' ← lift (set_string_value constrained p (t.stream value))
    store k e'
    if emit_change then fire_state_schema_element_modified k e' else pure tt
    fire_if emit_value_change k e'

unfoldable pub hold_state_events : M (Unit {0})
unfolding hold_events
hold_state_events = modify (λ m. record m {
  hold_event_counter = succ m.hold_event_counter;
  state_handler = hold_events m.state_handler;
})

unfoldable pub release_state_events : M (Unit {0})
unfolding release_events
release_state_events m =
    let counter = pred m.hold_event_counter in
    let (h, made) = release_events m.state_handler in
    if ltb_ℤ (pos 0) counter then (ok tt, record m { hold_event_counter = counter }) else (
      ok tt,
      record m { hold_event_counter = pos 0; state_handler = h; calls = m.calls ++ made },
    )

-- ExposedModelLock around an action of one thread: the constructor, the body, the destructor, which
-- also runs when the body throws.
unfoldable pub with_lock : {A : Type 0} → M A → M A
unfolding hold_state_events release_state_events
with_lock body m = let (r, m') = body (hold_state_events m).1 in (r, (release_state_events m').1)
