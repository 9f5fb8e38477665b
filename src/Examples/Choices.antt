-- ===== src/Examples/Choices.antt =====
-- The theorems on restriction sets, events, refusals and layouts, at a model with one element.
use tinia.Prelude.{
  ◌%◌, List, ◌++◌, map, if◌then◌else◌, ◌≡◌, refl, ◌⊎◌, inr, ◌↔◌, String, true, false, none, some,
  [], ◌∷◌, str_eq,
}
use tinia.Prelude.Int.{pos, negsuc}
use tinia.Prelude.Map.{find}
use tinia.Model.Errors.{Error, err, ok, key_not_found}
use tinia.Model.ElementData.{
  ElementData, leaf, empty_restriction_set, check_string, set_revision_number, contains,
}
use tinia.Model.Exposed.{ExposedModel, u32_mod}
use tinia.Model.Exposed.Update.{
  update_element, update_element_from_string, hold_state_events, with_lock,
}
use tinia.Model.Exposed.Restrictions.{
  update_element_outcome, IsBetween, update_element_from_string_allowed,
  update_element_from_string_unrestricted,
}
use tinia.Model.Exposed.Effects.{with_value}
use tinia.Model.Factory.{Viewer}
use tinia.Model.Layout.{
  Attributes, KeyValue, text_input, Element, tab_layout, tab, widget, null, child, nil, cons,
}
use tinia.Model.Exposed.Layouts.{validate_gui, set_gui_layout}
use tinia.Model.Exposed.Layouts.Fits.{Fits, validate_gui-Fits, set_gui_layout-Fits}
use tinia.Model.Listeners.{
  StateElement, state_element_modified, StateListenerHandler, fire_all, hold_events, release_events,
  new_state_schema_listener_handler,
}
use tinia.Model.Listeners.Delivery.{delivered, audience, release_events-fire_all-hold_events}
use tinia.Model.Exposed.Events.{
  announced, calls-update_element, Wrote, update_element_from_string_outcome,
}
use tinia.Model.Exposed.Locked.{Change, set_text, set_value, make_all, with_lock-make_all}
use tinia.Examples.{digit_type, demo}
use tinia.Model.Types.{get_typename, int}

-- An element with a restriction set, of a given type, and a model that has it and a listener 7.
abbrev choice : String → ElementData
choice xsd = record {
  simple = record {
    string_value = "1";
    xsd_type = xsd;
    widget_type = "";
    min_constraint = "";
    max_constraint = "";
    enumeration_set = "1" ∷ "2" ∷ [];
    annotation_map = [];
    pre_change_revision_number = 1;
    length = negsuc 0;
  };
  property_tree = leaf;
}

abbrev listening : StateListenerHandler
listening = record {
  listeners = 7 ∷ [];
  key_listeners = ("s", 8 ∷ []) ∷ [];
  buffer = [];
  is_buffering = false;
}

abbrev choosing : String → ExposedModel
choosing xsd = record {
  state_hash = ("s", choice xsd) ∷ [];
  revision_number = 2;
  schema_handler = new_state_schema_listener_handler;
  state_handler = listening;
  gui = none;
  hold_event_counter = pos 0;
  calls = [];
}

choice-found : find "s" (choosing "xsd:integer").state_hash ≡ some (choice "xsd:integer")
unfolding find
choice-found = refl

text-found : find "s" (choosing "xsd:string").state_hash ≡ some (choice "xsd:string")
unfolding find
text-found = refl

choice-stored : (update_element_from_string demo "s" "2" (choosing "xsd:integer")).0 ≡ ok tt
unfolding update_element_from_string
choice-stored = refl

choice-updated : (update_element demo digit_type "s" 2 (choosing "xsd:integer")).0 ≡ ok tt
unfolding update_element
choice-updated = refl

abbrev change : StateElement
change = record { key = "s"; data_of = choice "xsd:integer" }

abbrev a_viewer : Viewer demo
a_viewer = record {
  width = 6;
  height = 4;
  timestamp = 0;
  scene_view = "view";
  projection_matrix = 1 ∷ [];
  modelview_matrix = 1 ∷ [];
}

update_element_from_string_allowed_example :
    contains "2" (choice "xsd:integer").enumeration_set ≡ true
unfolding empty_restriction_set
update_element_from_string_allowed_example =
    update_element_from_string_allowed demo "s" "2" (choosing "xsd:integer") (choice "xsd:integer")
      choice-found (inr (inr (inr refl))) refl refl choice-stored

-- An element with the bounds 1 and 3.
abbrev bounded : ElementData
bounded = record (choice "xsd:integer") {
  simple = record (choice "xsd:integer").simple { min_constraint = "1"; max_constraint = "3" };
}

abbrev bounding : ExposedModel
bounding = record (choosing "xsd:integer") { state_hash = ("s", bounded) ∷ [] }

update_element_from_string_unrestricted_example :
    let (r, m') = update_element_from_string demo "s" "three" (choosing "xsd:string") in
    (r ≡ ok tt)
    × (find "s" m'.state_hash
        ≡ some (with_value (set_revision_number (choice "xsd:string") 2) "three"))
update_element_from_string_unrestricted_example =
    update_element_from_string_unrestricted demo "s" "three" (choosing "xsd:string")
      (choice "xsd:string") text-found refl refl

calls-update_element_example :
    (update_element demo digit_type "s" 2 (choosing "xsd:integer")).1.calls
    ≡ announced
        (choosing "xsd:integer")
        "s"
        "1"
        (set_revision_number (with_value (choice "xsd:integer") "2") 2)
calls-update_element_example =
    calls-update_element demo digit_type "s" 2 (choosing "xsd:integer") (choice "xsd:integer")
      choice-found refl choice-updated

release_events-fire_all-hold_events_example :
    let (held, early) = fire_all (hold_events listening) (change ∷ []) in
    let (h', calls) = release_events held in
    (early ≡ [])
    × (calls ≡ delivered listening (change ∷ []))
    × (h'.buffer ≡ [])
    × (h'.is_buffering ≡ false)
    × ((k : String) → audience h' k ≡ audience listening k)
release_events-fire_all-hold_events_example =
    release_events-fire_all-hold_events listening (change ∷ []) refl

-- A tab layout with one tab, in which a slider stands for "s".
abbrev plain : Attributes
plain = record {
  visibility_key = "";
  visibility_inverted = false;
  enabled_key = "";
  enabled_inverted = false;
}

abbrev at_s : KeyValue
at_s = record { key = "s"; show_value = true }

abbrev tabs : Element
tabs =
    tab_layout plain
      (cons (child (tab plain at_s (child (widget text_input plain at_s)))) (cons null nil))

validate_gui-Fits_example :
    let m = choosing "xsd:integer" in
    ((validate_gui demo tabs m).1 ≡ m) × (((validate_gui demo tabs m).0 ≡ ok tt) ↔ Fits demo m tabs)
validate_gui-Fits_example = validate_gui-Fits demo tabs (choosing "xsd:integer")

set_gui_layout-Fits_example :
    let m = choosing "xsd:integer" in
    (Fits demo m tabs
      × (set_gui_layout demo (child tabs) m ≡ (ok tt, record m { gui = some tabs })))
    ⊎ (¬ Fits demo m tabs × ((x : Error) × (set_gui_layout demo (child tabs) m ≡ (err x, m))))
set_gui_layout-Fits_example = set_gui_layout-Fits demo tabs (choosing "xsd:integer")

update_element_outcome_example :
    let m = choosing "xsd:integer" in
    let (r, m') = update_element demo digit_type "s" 2 m in
    ((x : Error) × (r ≡ err x) × (m' ≡ m))
    ⊎ ((e : ElementData) × (find "s" m.state_hash ≡ some e)
        × (r ≡ ok tt)
        × (e.xsd_type ≡ get_typename int)
        × IsBetween digit_type e 2
        × (empty_restriction_set e ≡ false → contains "2" e.enumeration_set ≡ true)
        × ((j : String)
            → find j m'.state_hash ≡ (
                if str_eq "s" j
                then some (set_revision_number (with_value e "2") 2)
                else find j m.state_hash))
        × (m'.revision_number ≡ 3 % u32_mod))
update_element_outcome_example =
    update_element_outcome demo digit_type "s" 2 (choosing "xsd:integer")

update_element_from_string_outcome_example :
    let m = choosing "xsd:integer" in
    let (r, m') = update_element_from_string demo "s" "2" m in
    ((find "s" m.state_hash ≡ none) × (r ≡ err (key_not_found "s")) × (m' ≡ m))
    ⊎ ((e : ElementData) × (find "s" m.state_hash ≡ some e)
        × (((x : Error) × (r ≡ err x)
              × (check_string (set_revision_number e 2) demo "2" ≡ err x)
              × Wrote "s" (set_revision_number e 2) m m'
              × (m'.calls ≡ m.calls))
            ⊎ ((r ≡ ok tt)
                × (check_string (set_revision_number e 2) demo "2" ≡ ok tt)
                × Wrote "s" (set_revision_number (with_value e "2") 2) m m'
                × (m'.calls
                    ≡ m.calls
                      ++ (if str_eq e.string_value "2"
                          then []
                          else map
                              (λ l. state_element_modified l (record {
                                key = "s";
                                data_of = set_revision_number (with_value e "2") 2;
                              }))
                              (audience m.state_handler "s"))))))
update_element_from_string_outcome_example =
    update_element_from_string_outcome demo "s" "2" (choosing "xsd:integer") refl

abbrev some_changes : List Change
some_changes = set_text "s" "2" ∷ set_text "t" "2" ∷ set_value digit_type "s" 1 ∷ []

with_lock-make_all_example :
    let m = choosing "xsd:integer" in
    ((make_all demo some_changes (hold_state_events m).1).1.calls ≡ m.calls)
    × ((with_lock (make_all demo some_changes) m).1 ≡ (make_all demo some_changes m).1)
with_lock-make_all_example =
    with_lock-make_all demo some_changes (choosing "xsd:integer") refl refl refl
