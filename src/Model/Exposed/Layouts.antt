-- ===== src/Model/Exposed/Layouts.antt =====
-- src/model/validateGUI.cpp, and the functions of ExposedModel that set and get a layout.
pub mod Fits
use Prim.Native.String.{◌++◌ as append_text}
use tinia.Prelude.{
  ℕ, zero, suc, String, Bool, true, false, not, ◌||◌, Option, none, some, List, [], ◌∷◌, length,
  str_eq, if◌then◌else◌,
}
use tinia.Prelude.Map.{Map}
use tinia.Model.Errors.{key_not_found, type_mismatch, invalid_argument, null_pointer}
use tinia.Model.Types.{Platform}
use tinia.Model.ElementData.{ElementData, empty_constraints}
use tinia.Model.Layout.{
  Attributes, KeyValue, Widget, text_input, canvas, label, combo_box, radio_buttons, spin_box,
  check_box, button, horizontal_slider, double_spin_box, file_dialog_button, Element, tab_layout,
  horizontal_layout, vertical_layout, grid, tab, element_group, popup_button, widget, space, Child,
  null, child, Children, nil, cons,
}
use tinia.Model.Exposed.{ExposedModel, M, pure, throw, modify, ◌>>=◌, ◌>>◌}
use tinia.Model.Exposed.Query.{
  has_element, get_restriction_set, get_state_schema_element, get_viewer,
}

-- element->type() == TAB
unfoldable pub is_tab : Element → Bool
is_tab (tab a kv c) = true
is_tab _ = false

-- checkTab; the flag says that the parent is a TabLayout.
unfoldable pub check_tab : Bool → Element → M (Unit {0})
unfolding is_tab
check_tab in_tab_layout e =
    if in_tab_layout
    then (if is_tab e then pure tt else throw invalid_argument)
    else (if is_tab e then throw invalid_argument else pure tt)

unfoldable pub check_non_empty_restriction : String → M (Unit {0})
unfolding get_restriction_set
check_non_empty_restriction k = do
  allowed ← get_restriction_set k
  elim allowed [ [] ↦ throw invalid_argument | _ ∷ _ ↦ pure tt ]

-- isValid(KeyValue*)
unfoldable pub check_key : KeyValue → M (Unit {0})
unfolding has_element
check_key kv m = (if has_element kv.key m then pure tt else throw (key_not_found kv.key)) m

unfoldable pub join_types : List String → String
join_types [] = ""
join_types (t ∷ ts) = append_text t (elim ts [ [] ↦ "" | _ ∷ _ ↦ append_text ", " (join_types ts) ])

abbrev pub is_one_of : String → List String → Bool
is_one_of s [] = false
is_one_of s (t ∷ ts) = let rest = is_one_of s ts in if str_eq s t then true else rest

-- isAnyType; with one type in the list it is checkBool, checkDouble and checkInt.
unfoldable pub is_any_type : String → List String → M (Unit {0})
unfolding get_state_schema_element join_types
is_any_type k types = do
  e ← get_state_schema_element k
  if is_one_of e.data_of.xsd_type types
      then pure tt
      else throw (type_mismatch e.data_of.xsd_type (join_types types))

unfoldable pub check_constrained : String → M (Unit {0})
unfolding get_state_schema_element empty_constraints
check_constrained k = do
  e ← get_state_schema_element k
  if empty_constraints e.data_of then throw invalid_argument else pure tt

module _ (p : Platform) where
  -- isValid for the class of a widget
  unfoldable pub check_widget : Widget → String → M (Unit {0})
  unfolding is_any_type check_constrained check_non_empty_restriction get_viewer
  check_widget button k = is_any_type k ("xsd:bool" ∷ [])
  check_widget check_box k = is_any_type k ("xsd:bool" ∷ [])
  check_widget combo_box k = check_non_empty_restriction k
  check_widget radio_buttons k = check_non_empty_restriction k
  check_widget spin_box k = do is_any_type k ("xsd:integer" ∷ []); check_constrained k
  check_widget double_spin_box k = do is_any_type k ("xsd:double" ∷ []); check_constrained k
  check_widget horizontal_slider k = do is_any_type k ("xsd:integer" ∷ []); check_constrained k
  check_widget canvas k = do v ← get_viewer p k; pure tt
  check_widget text_input k =
      is_any_type k ("xsd:bool" ∷ "xsd:integer" ∷ "xsd:double" ∷ "xsd:string" ∷ [])
  check_widget label k = pure tt
  check_widget file_dialog_button k = pure tt

  -- validateGUI: every class that the element is an instance of has its check, in the order of the
  -- list of types. An ElementGroup is a container too, but the overload of isValid that C++ takes for
  -- it is that of KeyValue; a PopupButton is not in the list.
  unfoldable mutual
    unfolding check_tab check_key check_widget

    pub validate_gui : Element → M (Unit {0})
    validate_gui (tab_layout a cs) = validate_children true cs
    validate_gui (horizontal_layout a cs) = validate_children false cs
    validate_gui (vertical_layout a cs) = validate_children false cs
    validate_gui (grid a height width cs) = validate_children false cs
    validate_gui (tab a kv c) = do validate_child c; check_key kv
    validate_gui (element_group a kv c) = do check_key kv; check_key kv
    validate_gui (popup_button a kv c) = check_key kv
    validate_gui (widget w a kv) = do check_key kv; check_widget w kv.key
    validate_gui (space s a) = pure tt

    -- The one child of a Container0D: its type is asked for even if it is null.
    pub validate_child : Child → M (Unit {0})
    validate_child null = throw null_pointer
    validate_child (child e) = do validate_gui e; check_tab false e

    -- The children of a Container1D or a Container2D; those that are null are passed over.
    pub validate_children : Bool → Children → M (Unit {0})
    validate_children in_tab_layout nil = pure tt
    validate_children in_tab_layout (cons null cs) = validate_children in_tab_layout cs
    validate_children in_tab_layout (cons (child e) cs) = do
      validate_gui e
      check_tab in_tab_layout e
      validate_children in_tab_layout cs

  -- validateGUI on a pointer: a null pointer is an instance of no class.
  unfoldable pub gui_is_valid : Child → M (Unit {0})
  unfolding validate_gui
  gui_is_valid null = pure tt
  gui_is_valid (child e) = validate_gui e

  unfoldable pub set_gui_layout : Child → M (Unit {0})
  unfolding gui_is_valid
  set_gui_layout root = do
    gui_is_valid root
    modify (λ m. record m { gui = elim root [ null ↦ none | child e ↦ some e ] })

abbrev no_attributes : Attributes
no_attributes = record {
  visibility_key = "";
  visibility_inverted = false;
  enabled_key = "";
  enabled_inverted = false;
}

abbrev default_widget : Widget → String → Child
default_widget w k = child (widget w no_attributes (record { key = k; show_value = true }))

unfoldable pub null_children : ℕ → Children
null_children zero = nil
null_children (suc n) = cons null (null_children n)

-- The children that makeDefaultGUILayout sets, then as many null ones as there are elements without
-- a widget.
unfoldable pub default_children : ℕ → Map ElementData → Children
unfolding null_children
default_children unused [] = null_children unused
default_children unused ((k, e) ∷ rest) =
    let shown = λ (w : Widget). cons (default_widget w k) (default_children unused rest) in
    if str_eq e.widget_type "textinput" || str_eq e.widget_type "select"
    then shown text_input
    else if str_eq e.widget_type "canvas"
    then shown canvas
    else default_children (suc unused) rest

unfoldable pub make_default_gui_layout : ExposedModel → Element
unfolding default_children
make_default_gui_layout m =
    grid no_attributes (length m.state_hash) 1 (default_children 0 m.state_hash)

unfoldable pub get_gui_layout : M Element
unfolding make_default_gui_layout
get_gui_layout m = elim m.gui [
  | some root ↦ pure root m
  | none ↦ let root = make_default_gui_layout m in pure root (record m { gui = some root })
]
