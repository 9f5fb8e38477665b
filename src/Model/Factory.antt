-- ===== src/Model/Factory.antt =====
-- impl::ElementDataFactory (include/tinia/model/impl/ElementDataFactory.hpp) and model::Viewer
-- (include/tinia/model/Viewer.hpp): values to ElementData and back.
use Prim.Native.String.{◌++◌ as append_text}
use tinia.Prelude.{ℕ, zero, suc, String, List, [], ◌∷◌, if◌then◌else◌, str_eq}
use tinia.Prelude.Text.{lt_text}
use tinia.Model.Errors.{Result, ok, err, out_of_range, ◌>>=◌}
use tinia.Model.Types.{CppType, Platform, string_type, get_typename, lexical_cast}
use tinia.Model.ElementData.{
  ElementData, PropertyTree, leaf, entry, length_not_set, set_string_value, set_xsd_type,
  set_widget_type, set_length,
}

-- pt[key] = e
unfoldable pub set_member : String → ElementData → PropertyTree → PropertyTree
unfolding lt_text
set_member k e leaf = entry k e.simple e.property_tree leaf
set_member k e (entry j s t rest) =
    if str_eq j k
    then entry k e.simple e.property_tree rest
    else if lt_text k j
    then entry k e.simple e.property_tree (entry j s t rest)
    else entry j s t (set_member k e rest)

-- pt.find(key)->second; the code never tests the iterator against end().
unfoldable pub find_member : String → PropertyTree → Result ElementData
find_member k leaf = err out_of_range
find_member k (entry j s t rest) =
    if str_eq j k then ok (record { simple = s; property_tree = t }) else find_member k rest

module _ (p : Platform) where
  open p use {float_type, double_type, int_type, uninitialised}

  -- ElementData::ElementData()
  unfoldable pub new_element : ElementData
  new_element = record {
    simple = record {
      string_value = "";
      xsd_type = "";
      widget_type = "textinput";
      min_constraint = "";
      max_constraint = "";
      enumeration_set = [];
      annotation_map = [];
      pre_change_revision_number = uninitialised;
      length = length_not_set;
    };
    property_tree = leaf;
  }

  -- createElement<T>: the value is set before the type is, so nothing is checked.
  unfoldable pub create_element : (t : CppType) → t.Carrier → Result ElementData
  unfolding new_element set_string_value get_typename set_xsd_type
  create_element t v = do
    e ← set_string_value new_element p (t.stream v)
    ok (set_xsd_type e (get_typename t.name))

  -- createT<T>
  unfoldable pub create_t : (t : CppType) → ElementData → Result t.Carrier
  unfolding lexical_cast
  create_t t e = lexical_cast t e.string_value

  abbrev pub Matrix : Type 0
  Matrix = List float_type.Carrier

  -- The values that matrixData points at, n of them with a blank behind and one without.
  unfoldable pub stream_matrix : ℕ → Matrix → Result String
  stream_matrix n [] = err out_of_range
  stream_matrix zero (x ∷ xs) = ok (float_type.stream x)
  stream_matrix (suc n) (x ∷ xs) = do
    rest ← stream_matrix n xs
    ok (append_text (float_type.stream x) (append_text " " rest))

  -- Here the type and the length come first, so that each number is read back.
  unfoldable pub create_matrix_element : Matrix → Result ElementData
  unfolding new_element stream_matrix set_string_value set_xsd_type set_length
  create_matrix_element m = do
    text ← stream_matrix 15 m
    set_string_value (set_length (set_xsd_type new_element "xsd:float") 16) p text

  unfoldable pub cast_all : List String → Result Matrix
  unfolding lexical_cast
  cast_all [] = ok []
  cast_all (s ∷ pieces) = do x ← lexical_cast float_type s; xs ← cast_all pieces; ok (x ∷ xs)

  -- createMatrix: what is written to matrixData, one number for each piece of the text.
  unfoldable pub create_matrix : ElementData → Result Matrix
  unfolding cast_all
  create_matrix e = cast_all (p.split e.string_value)

  pub record Viewer : Type 0 where
    pub width : int_type.Carrier
    pub height : int_type.Carrier
    pub timestamp : double_type.Carrier
    pub scene_view : String
    pub projection_matrix : Matrix
    pub modelview_matrix : Matrix

  -- createElement<Viewer>
  unfoldable pub create_viewer_element : Viewer → Result ElementData
  unfolding new_element create_element create_matrix_element set_member set_xsd_type set_widget_type
  create_viewer_element v = do
    width ← create_element int_type v.width
    height ← create_element int_type v.height
    timestamp ← create_element double_type v.timestamp
    scene_view ← create_element string_type v.scene_view
    projection ← create_matrix_element v.projection_matrix
    modelview ← create_matrix_element v.modelview_matrix
    let base = set_widget_type (set_xsd_type new_element "xsd:complexType") "canvas"
    let t₁ = set_member "width" width leaf
    let t₂ = set_member "height" height t₁
    let t₃ = set_member "projection" projection t₂
    let t₄ = set_member "modelview" modelview t₃
    let t₅ = set_member "timestamp" timestamp t₄
    ok (record base { property_tree = set_member "sceneView" scene_view t₅ })

  -- createT<Viewer>
  unfoldable pub create_viewer : ElementData → Result Viewer
  unfolding find_member create_t create_matrix
  create_viewer e = do
    let tree = e.property_tree
    width ← create_t int_type (← find_member "width" tree)
    height ← create_t int_type (← find_member "height" tree)
    timestamp ← create_t double_type (← find_member "timestamp" tree)
    scene_view ← create_t string_type (← find_member "sceneView" tree)
    projection ← create_matrix (← find_member "projection" tree)
    modelview ← create_matrix (← find_member "modelview" tree)
    ok (record {
      width = width;
      height = height;
      timestamp = timestamp;
      scene_view = scene_view;
      projection_matrix = projection;
      modelview_matrix = modelview;
    })
