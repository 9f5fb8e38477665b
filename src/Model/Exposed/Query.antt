-- ===== src/Model/Exposed/Query.antt =====
-- The member functions of ExposedModel that read, and those that add and remove listeners.
use tinia.Prelude.{
  ℕ, String, Bool, true, false, not, Option, none, some, List, ◌++◌, map, leb, if◌then◌else◌,
}
use tinia.Prelude.Map.{Map, find, select}
use tinia.Model.Errors.{type_mismatch}
use tinia.Model.Types.{CppType, Platform, viewer}
use tinia.Model.ElementData.{ElementData, empty_restriction_set}
use tinia.Model.Factory.{create_t, Viewer, create_viewer, Matrix, create_matrix}
use tinia.Model.Listeners.{
  StateElement, StateSchemaElement, add_state_listener, add_key_state_listener,
  remove_state_listener, remove_key_state_listener, add_state_schema_listener,
  add_key_state_schema_listener, remove_state_schema_listener, remove_key_state_schema_listener,
}
use tinia.Model.Exposed.{ExposedModel, M, pure, throw, lift, modify, ◌>>=◌, ◌>>◌, find_element}
use tinia.Model.Exposed.Update.{find_of_type, is_matrix}

abbrev is_found : Option ElementData → Bool
is_found none = false
is_found (some e) = true

unfoldable pub has_element : String → ExposedModel → Bool
unfolding find
has_element k m = is_found (find k m.state_hash)

unfoldable pub get_element_value_as_string : String → M String
unfolding find_element
get_element_value_as_string k = do e ← find_element k; pure e.string_value

unfoldable pub get_state_schema_element : String → M StateSchemaElement
unfolding find_element
get_state_schema_element k = do e ← find_element k; pure (record { key = k; data_of = e })

unfoldable pub get_element_max_constraint : String → M String
unfolding find_element
get_element_max_constraint k = do e ← find_element k; pure e.max_constraint

unfoldable pub get_element_min_constraint : String → M String
unfolding find_element
get_element_min_constraint k = do e ← find_element k; pure e.min_constraint

unfoldable pub get_restriction_set : String → M (List String)
unfolding find_element
get_restriction_set k = do e ← find_element k; pure e.enumeration_set

unfoldable pub empty_restriction_set_at : String → M Bool
unfolding find_element empty_restriction_set
empty_restriction_set_at k = do e ← find_element k; pure (empty_restriction_set e)

module _ (p : Platform) where
  unfoldable pub get_element_value : (t : CppType) → String → M t.Carrier
  unfolding find_of_type create_t
  get_element_value t k = do e ← find_of_type t.name k; lift (create_t p t e)

  -- getElementValue<Viewer>
  unfoldable pub get_viewer : String → M (Viewer p)
  unfolding find_of_type create_viewer
  get_viewer k = do e ← find_of_type viewer k; lift (create_viewer p e)

  unfoldable pub get_matrix_value : String → M (Matrix p)
  unfolding find_element is_matrix create_matrix
  get_matrix_value k = do
    e ← find_element k
    if not (is_matrix p e) then throw (type_mismatch e.xsd_type "Matrix") else pure tt
    lift (create_matrix p e)

-- data.getRevisionNumber() >= has_revision
unfoldable pub changed_since : ℕ → ElementData → Bool
changed_since has_revision e = leb has_revision e.pre_change_revision_number

-- getExposedModelUpdate: the vector is emptied first.
unfoldable pub get_exposed_model_update : ℕ → ExposedModel → Map ElementData
unfolding changed_since select
get_exposed_model_update has_revision m = select (changed_since has_revision) m.state_hash

abbrev state_element : String × ElementData → StateElement
state_element (k, e) = record { key = k; data_of = e }

abbrev state_schema_element : String × ElementData → StateSchemaElement
state_schema_element (k, e) = record { key = k; data_of = e }

-- The four functions below append to the vector that they are given.
unfoldable pub get_state_update : List StateElement → ℕ → ExposedModel → List StateElement
unfolding get_exposed_model_update
get_state_update updated has_revision m =
    updated ++ map state_element (get_exposed_model_update has_revision m)

unfoldable pub get_state_schema_update :
    List StateSchemaElement → ℕ → ExposedModel → List StateSchemaElement
unfolding get_exposed_model_update
get_state_schema_update updated has_revision m =
    updated ++ map state_schema_element (get_exposed_model_update has_revision m)

unfoldable pub get_full_state : List StateElement → ExposedModel → List StateElement
get_full_state elements m = elements ++ map state_element m.state_hash

unfoldable pub get_full_state_schema :
    List StateSchemaElement → ExposedModel → List StateSchemaElement
get_full_state_schema elements m = elements ++ map state_schema_element m.state_hash

unfoldable pub listen : ℕ → M (Unit {0})
unfolding add_state_listener
listen l = modify λ m. record m { state_handler = add_state_listener m.state_handler l }

unfoldable pub listen_at : String → ℕ → M (Unit {0})
unfolding add_key_state_listener
listen_at k l = modify λ m. record m { state_handler = add_key_state_listener m.state_handler k l }

unfoldable pub unlisten : ℕ → M (Unit {0})
unfolding remove_state_listener
unlisten l = modify λ m. record m { state_handler = remove_state_listener m.state_handler l }

unfoldable pub unlisten_at : String → ℕ → M (Unit {0})
unfolding remove_key_state_listener
unlisten_at k l =
    modify λ m. record m { state_handler = remove_key_state_listener m.state_handler k l }

unfoldable pub listen_schema : ℕ → M (Unit {0})
unfolding add_state_schema_listener
listen_schema l =
    modify λ m. record m { schema_handler = add_state_schema_listener m.schema_handler l }

unfoldable pub listen_schema_at : String → ℕ → M (Unit {0})
unfolding add_key_state_schema_listener
listen_schema_at k l =
    modify λ m. record m { schema_handler = add_key_state_schema_listener m.schema_handler k l }

unfoldable pub unlisten_schema : ℕ → M (Unit {0})
unfolding remove_state_schema_listener
unlisten_schema l =
    modify λ m. record m { schema_handler = remove_state_schema_listener m.schema_handler l }

unfoldable pub unlisten_schema_at : String → ℕ → M (Unit {0})
unfolding remove_key_state_schema_listener
unlisten_schema_at k l =
    modify λ m. record m { schema_handler = remove_key_state_schema_listener m.schema_handler k l }
