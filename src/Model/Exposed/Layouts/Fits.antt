-- ===== src/Model/Exposed/Layouts/Fits.antt =====
-- Which layouts validateGUI accepts, described without it.
use tinia.Prelude.{
  ◌≡◌, refl, subst, ◌↔◌, ◌⊎◌, inl, inr, String, Bool, true, false, some, arith, eq_iff,
  Option-cases,
}
use tinia.Prelude.Map.{find}
use tinia.Model.Errors.{Error, ok, err, Result-cases}
use tinia.Model.Types.{Platform}
use tinia.Model.Factory.{Viewer}
use tinia.Model.ElementData.{ElementData, empty_constraints, empty_restriction_set}
use tinia.Model.Layout.{
  KeyValue, Widget, text_input, canvas, label, combo_box, radio_buttons, spin_box, check_box,
  button, horizontal_slider, double_spin_box, file_dialog_button, Element, tab_layout,
  horizontal_layout, vertical_layout, grid, tab, element_group, popup_button, widget, space, Child,
  null, child, Children, nil, cons,
}
use tinia.Model.Exposed.{ExposedModel, M, ◌>>◌, find_element}
use tinia.Model.Exposed.Update.{find_of_type}
use tinia.Model.Exposed.Query.{get_viewer, get_restriction_set, get_state_schema_element}
use tinia.Model.Exposed.Layouts.{
  is_tab, is_any_type, check_constrained, check_non_empty_restriction, check_tab, check_key,
  check_widget, validate_gui, validate_child, validate_children, gui_is_valid, set_gui_layout,
  get_gui_layout,
}

module _ (p : Platform) (m : ExposedModel) where
  -- What a widget asks of the element at its key.
  abbrev pub Suits : Widget → String → ElementData → Type 0
  Suits button k e = e.xsd_type ≡ "xsd:bool"
  Suits check_box k e = e.xsd_type ≡ "xsd:bool"
  Suits combo_box k e = empty_restriction_set e ≡ false
  Suits radio_buttons k e = empty_restriction_set e ≡ false
  Suits spin_box k e = (e.xsd_type ≡ "xsd:integer") × (empty_constraints e ≡ false)
  Suits double_spin_box k e = (e.xsd_type ≡ "xsd:double") × (empty_constraints e ≡ false)
  Suits horizontal_slider k e = (e.xsd_type ≡ "xsd:integer") × (empty_constraints e ≡ false)
  Suits canvas k e = (v : Viewer p) × ((get_viewer p k m).0 ≡ ok v)
  Suits text_input k e =
      (e.xsd_type ≡ "xsd:bool")
      ⊎ ((e.xsd_type ≡ "xsd:integer") ⊎ ((e.xsd_type ≡ "xsd:double") ⊎ (e.xsd_type ≡ "xsd:string")))
  Suits label k e = Unit
  Suits file_dialog_button k e = Unit

  abbrev pub HasKey : String → Type 0
  HasKey k = (e : ElementData) × (find k m.state_hash ≡ some e)

  unfoldable mutual
    -- The model has an element at every key, of the type and with the constraints that its widget
    -- asks for, and tabs stand in tab layouts and nowhere else. What stands in an ElementGroup or a
    -- PopupButton does not count.
    pub Fits : Element → Type 0
    Fits (tab_layout a cs) = AllFit true cs
    Fits (horizontal_layout a cs) = AllFit false cs
    Fits (vertical_layout a cs) = AllFit false cs
    Fits (grid a height width cs) = AllFit false cs
    Fits (tab a kv null) = ⊥
    Fits (tab a kv (child e)) = Fits e × (is_tab e ≡ false) × HasKey kv.key
    Fits (element_group a kv c) = HasKey kv.key
    Fits (popup_button a kv c) = HasKey kv.key
    Fits (widget w a kv) =
        (e : ElementData) × (find kv.key m.state_hash ≡ some e) × Suits w kv.key e
    Fits (space s a) = Unit

    pub AllFit : Bool → Children → Type 0
    AllFit in_tab_layout nil = Unit
    AllFit in_tab_layout (cons null cs) = AllFit in_tab_layout cs
    AllFit in_tab_layout (cons (child e) cs) =
        Fits e × (is_tab e ≡ in_tab_layout) × AllFit in_tab_layout cs

-- A check that changes nothing, and that passes exactly if a condition holds.
abbrev Decides : M (Unit {0}) → ExposedModel → Type 0 → Type 0
Decides c m P = ((c m).1 ≡ m) × (((c m).0 ≡ ok tt) ↔ P)

then-Decides :
    {P Q : Type 0} (c d : M (Unit {0})) (m : ExposedModel)
    → Decides c m P
    → Decides d m Q
    → Decides (c >> d) m (P × Q)
then-Decides c d m (same, exact) (same', exact') = elim (Result-cases (c m).0) [
  | inl (x, q) ↦ (ground arith, (λ h. ground arith, λ pq. ground (arith, exact.1 pq.0)))
  | inr (u, q) ↦ (
    ground arith,
    (λ h. (exact.0 (ground arith), exact'.0 (ground arith)), λ pq. ground (arith, exact'.1 pq.1)),
  )
]

-- checkTab, checkKey and the checks of the widgets.
check_tab-Decides :
    (b : Bool) (e : Element) (m : ExposedModel) → Decides (check_tab b e) m (is_tab e ≡ b)
unfolding check_tab
check_tab-Decides true e m = ground arith
check_tab-Decides false e m = ground arith

check_key-Decides :
    (p : Platform) (kv : KeyValue) (m : ExposedModel) → Decides (check_key kv) m (HasKey p m kv.key)
unfolding check_key
check_key-Decides p kv m = elim (Option-cases (find kv.key m.state_hash)) [
  | inl q ↦ (ground arith, (λ h. ground arith, λ (e, h). ground arith))
  | inr (e, q) ↦ (ground arith, (λ h. (e, q), λ h. ground arith))
]

Decides-iff :
    {P Q : Type 0} (c : M (Unit {0})) (m : ExposedModel) → Decides c m P → P ↔ Q → Decides c m Q
Decides-iff c m (same, exact) both = (same, (λ h. both.0 (exact.0 h), λ q. exact.1 (both.1 q)))

get_viewer-same : (p : Platform) (k : String) (m : ExposedModel) → (get_viewer p k m).1 ≡ m
unfolding get_viewer find_of_type find_element
get_viewer-same p k m = elim (Option-cases (find k m.state_hash)) [
  | inl q ↦ ground arith
  | inr (e, q) ↦ ground arith
]

module _ (p : Platform) (k : String) (m : ExposedModel) (e : ElementData)
    (found : find k m.state_hash ≡ some e) where
  check_widget-Decides : (w : Widget) → Decides (check_widget p w k) m (Suits p m w k e)
  unfolding check_widget is_any_type check_constrained check_non_empty_restriction
      get_restriction_set get_state_schema_element find_element empty_restriction_set
  check_widget-Decides button = ground (arith, eq_iff e.xsd_type "xsd:bool")
  check_widget-Decides check_box = ground (arith, eq_iff e.xsd_type "xsd:bool")
  check_widget-Decides combo_box = ground arith
  check_widget-Decides radio_buttons = ground arith
  check_widget-Decides spin_box = ground (arith, eq_iff e.xsd_type "xsd:integer")
  check_widget-Decides double_spin_box = ground (arith, eq_iff e.xsd_type "xsd:double")
  check_widget-Decides horizontal_slider = ground (arith, eq_iff e.xsd_type "xsd:integer")
  check_widget-Decides canvas = elim (Result-cases (get_viewer p k m).0) [
    | inl (x, q) ↦
        (ground (arith, get_viewer-same p k m), (λ h. ground arith, λ (v, h). ground arith))
    | inr (v, q) ↦ (ground (arith, get_viewer-same p k m), (λ h. (v, q), λ h. ground arith))
  ]
  check_widget-Decides text_input = ground (
    arith,
    eq_iff e.xsd_type "xsd:bool",
    eq_iff e.xsd_type "xsd:integer",
    eq_iff e.xsd_type "xsd:double",
    eq_iff e.xsd_type "xsd:string",
  )
  check_widget-Decides label = (refl, (λ h. tt, λ h. refl))
  check_widget-Decides file_dialog_button = (refl, (λ h. tt, λ h. refl))

widget-Decides :
    (p : Platform) (w : Widget) (kv : KeyValue) (m : ExposedModel)
    → Decides
        (check_key kv >> check_widget p w kv.key)
        m
        ((e : ElementData) × (find kv.key m.state_hash ≡ some e) × Suits p m w kv.key e)
widget-Decides p w kv m = elim (Option-cases (find kv.key m.state_hash)) [
  | inl q ↦ unfold check_key in (ground arith, (λ h. ground arith, λ (e, h, _). ground arith))
  | inr (e, q) ↦
      Decides-iff (check_key kv >> check_widget p w kv.key) m
        (then-Decides (check_key kv) (check_widget p w kv.key) m (check_key-Decides p kv m)
          (check_widget-Decides p kv.key m e q w))
        (λ (_, s). (e, q, s), λ (e', q', s). ((e, q), subst (Suits p m w kv.key) (ground arith) s))
]

mutual
  unfolding validate_gui Fits

  validate_gui-Decides :
      (p : Platform) (e : Element) (m : ExposedModel)
      → ((validate_gui p e m).1 ≡ m) × (((validate_gui p e m).0 ≡ ok tt) ↔ Fits p m e)
  validate_gui-Decides p (tab_layout a cs) m = validate_children-AllFit p true cs m
  validate_gui-Decides p (horizontal_layout a cs) m = validate_children-AllFit p false cs m
  validate_gui-Decides p (vertical_layout a cs) m = validate_children-AllFit p false cs m
  validate_gui-Decides p (grid a height width cs) m = validate_children-AllFit p false cs m
  validate_gui-Decides p (tab a kv null) m = (refl, (λ h. cc h, λ h. absurd h))
  validate_gui-Decides p (tab a kv (child e)) m =
      Decides-iff (validate_gui p (tab a kv (child e))) m
        (then-Decides (validate_child p (child e)) (check_key kv) m
          (then-Decides (validate_gui p e) (check_tab false e) m (validate_gui-Decides p e m)
            (check_tab-Decides false e m))
          (check_key-Decides p kv m))
        (λ ((f, t), k). (f, t, k), λ (f, t, k). ((f, t), k))
  validate_gui-Decides p (element_group a kv c) m =
      Decides-iff (validate_gui p (element_group a kv c)) m
        (then-Decides (check_key kv) (check_key kv) m (check_key-Decides p kv m)
          (check_key-Decides p kv m))
        (λ (k, _). k, λ k. (k, k))
  validate_gui-Decides p (popup_button a kv c) m = check_key-Decides p kv m
  validate_gui-Decides p (widget w a kv) m = widget-Decides p w kv m
  validate_gui-Decides p (space s a) m = (refl, (λ h. tt, λ h. refl))

  validate_children-AllFit :
      (p : Platform) (b : Bool) (cs : Children) (m : ExposedModel)
      → Decides (validate_children p b cs) m (AllFit p m b cs)
  validate_children-AllFit p b nil m = (refl, (λ h. tt, λ h. refl))
  validate_children-AllFit p b (cons null cs) m = validate_children-AllFit p b cs m
  validate_children-AllFit p b (cons (child e) cs) m =
      Decides-iff (validate_children p b (cons (child e) cs)) m
        (then-Decides (validate_gui p e) (check_tab b e >> validate_children p b cs) m
          (validate_gui-Decides p e m)
          (then-Decides (check_tab b e) (validate_children p b cs) m (check_tab-Decides b e m)
            (validate_children-AllFit p b cs m)))
        (λ (f, (t, r)). (f, t, r), λ (f, t, r). (f, (t, r)))

-- validateGUI changes nothing, and accepts exactly the layouts that fit the model.
pub validate_gui-Fits :
    (p : Platform) (e : Element) (m : ExposedModel)
    → ((validate_gui p e m).1 ≡ m) × (((validate_gui p e m).0 ≡ ok tt) ↔ Fits p m e)
validate_gui-Fits = validate_gui-Decides

-- setGUILayout of an element sets it as the layout if it fits the model; if not, it throws and
-- changes nothing.
pub set_gui_layout-Fits :
    (p : Platform) (e : Element) (m : ExposedModel)
    → (Fits p m e × (set_gui_layout p (child e) m ≡ (ok tt, record m { gui = some e })))
      ⊎ (¬ Fits p m e × ((x : Error) × (set_gui_layout p (child e) m ≡ (err x, m))))
unfolding set_gui_layout
set_gui_layout-Fits p e m =
    let (same, exact) = validate_gui-Fits p e m in
    elim (Result-cases (validate_gui p e m).0) [
      | inl (x, q) ↦ inr ((λ f. ground (arith, exact.1 f)), (x, ground arith))
      | inr (u, q) ↦ inl (exact.0 (ground arith), ground arith)
    ]

-- Of the model, setGUILayout changes the layout at most.
pub set_gui_layout-keeps :
    (p : Platform) (c : Child) (m : ExposedModel)
    → ((set_gui_layout p c m).1.state_hash ≡ m.state_hash)
      × ((set_gui_layout p c m).1.revision_number ≡ m.revision_number)
unfolding set_gui_layout gui_is_valid
set_gui_layout-keeps p null m = (refl, refl)
set_gui_layout-keeps p (child e) m = elim (set_gui_layout-Fits p e m) [
  | inl (f, q) ↦ ground arith
  | inr (f, (x, q)) ↦ ground arith
]

pub get_gui_layout-keeps :
    (m : ExposedModel)
    → ((get_gui_layout m).1.state_hash ≡ m.state_hash)
      × ((get_gui_layout m).1.revision_number ≡ m.revision_number)
unfolding get_gui_layout
get_gui_layout-keeps m = ground arith
