-- ===== src/Model/Exposed/Values.antt =====
-- What is read after a write.
use tinia.Prelude.{◌≡◌, refl, [], Bool-cases, ◌≢◌, inl, inr, String, none, some, arith, eq_iff}
use tinia.Prelude.Map.{find, insert, find-insert, find-insert_self}
use tinia.Model.Errors.{ok}
use tinia.Model.Types.{CppType, Platform, get_typename}
use tinia.Model.ElementData.{ElementData, set_revision_number, set_annotation, is_empty}
use tinia.Model.Factory.{create_element}
use tinia.Model.Exposed.{ExposedModel}
use tinia.Model.Exposed.Update.{update_element, finish_update}
use tinia.Model.Exposed.Add.{add_element, add_made, add_annotation}
use tinia.Model.Exposed.Query.{get_element_value}
use tinia.Model.Exposed.Effects.{update_element_cases, finish_update_effect, set_string_value-eq}

get_of_found :
    (p : Platform) (t : CppType) (k : String) (m : ExposedModel) (e : ElementData) (v : t.Carrier)
    → find k m.state_hash ≡ some e
    → e.xsd_type ≡ get_typename t.name
    → t.parse e.string_value ≡ some v
    → (get_element_value p t k m).0 ≡ ok v
unfolding get_element_value
get_of_found p t k m e v found typed back = ground (arith, eq_iff e.xsd_type (get_typename t.name))

-- After a successful updateElement of a key, getElementValue there returns the value, if reading
-- the value's text gives the value back; and at every other key the model holds what it held.
pub get_element_value-update_element :
    (p : Platform) (t : CppType) (k : String) (v : t.Carrier) (m : ExposedModel)
    → t.parse (t.cast v) ≡ some v
    → (update_element p t k v m).0 ≡ ok tt
    → let m' = (update_element p t k v m).1 in
      ((get_element_value p t k m').0 ≡ ok v)
      × ((j : String) → k ≢ j → find j m'.state_hash ≡ find j m.state_hash)
get_element_value-update_element p t k v m back done = elim (update_element_cases p t k v m) [
  | inl (x, q) ↦ ground arith
  | inr (e, e', _, typed, _, _, set, q) ↦
      let m' = record m { state_hash = insert k e' m.state_hash } in
      let e₂ = set_revision_number e' m.revision_number in
      let r = finish_update_effect k e.string_value e' m' in
      let w = set_string_value-eq e p (t.cast v) set in
      rw q (
        get_of_found p t k (finish_update k e.string_value e' m').1 e₂ v
            (rw r.1 (find-insert_self k e₂ m'.state_hash))
            (unfold set_revision_number in rw w typed) (unfold set_revision_number in rw w back),
        λ j other.
            ground (
              arith,
              eq_iff k j,
              find-insert k j e₂ m'.state_hash,
              find-insert k j e' m.state_hash,
            ),
      )
]

-- addElement of an element at a new key.
add_made-new :
    (k : String) (e : ElementData) (a : String) (m : ExposedModel)
    → find k m.state_hash ≡ none
    → let (r, m') = add_made k (ok e) a m in
      (r ≡ ok tt)
      × ((e' : ElementData) × (find k m'.state_hash ≡ some e')
          × (e'.string_value ≡ e.string_value)
          × (e'.xsd_type ≡ e.xsd_type))
      × ((j : String) → k ≢ j → find j m'.state_hash ≡ find j m.state_hash)
unfolding add_made add_annotation set_revision_number set_annotation
add_made-new k e a m new =
    let e₁ = set_revision_number e m.revision_number in
    let h₁ = insert k e₁ m.state_hash in
    let e₂ = set_annotation e₁ (insert "en" a []) in
    elim (Bool-cases (is_empty a)) [
      | inl y ↦ (
        ground arith,
        (e₁, ground (arith, find-insert_self k e₁ m.state_hash), refl, refl),
        λ j other. ground (arith, eq_iff k j, find-insert k j e₁ m.state_hash),
      )
      | inr n ↦ (
        ground (arith, find-insert_self k e₁ m.state_hash),
        (
          e₂,
          ground (arith, find-insert_self k e₁ m.state_hash, find-insert_self k e₂ h₁),
          refl,
          refl,
        ),
        λ j other. ground (
          arith,
          eq_iff k j,
          find-insert_self k e₁ m.state_hash,
          find-insert k j e₁ m.state_hash,
          find-insert k j e₂ h₁,
        ),
      )
    ]

created :
    (p : Platform) (t : CppType) (v : t.Carrier)
    → (e : ElementData) × (create_element p t v ≡ ok e)
      × (e.string_value ≡ t.stream v)
      × (e.xsd_type ≡ get_typename t.name)
unfolding create_element
created p t v = (_, refl, refl, refl)

-- addElement of a new key succeeds; then getElementValue there returns the value, if reading the
-- value's text gives the value back, and at every other key the model holds what it held.
pub get_element_value-add_element :
    (p : Platform) (t : CppType) (k : String) (v : t.Carrier) (a : String) (m : ExposedModel)
    → t.parse (t.stream v) ≡ some v
    → find k m.state_hash ≡ none
    → let (r, m') = add_element p t k v a m in
      (r ≡ ok tt)
      × ((get_element_value p t k m').0 ≡ ok v)
      × ((j : String) → k ≢ j → find j m'.state_hash ≡ find j m.state_hash)
unfolding add_element
get_element_value-add_element p t k v a m back new =
    let (e, made, text, typed) = created p t v in
    let (done, (e', found, text', typed'), others) = add_made-new k e a m new in
    rw made (
      done,
      get_of_found p t k (add_made k (ok e) a m).1 e' v found (ground arith) (ground arith),
      others,
    )
