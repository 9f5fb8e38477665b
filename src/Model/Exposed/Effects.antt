-- ===== src/Model/Exposed/Effects.antt =====
-- What a call of each updating function comes to: an error with the model as it was, or a known
-- write and the end of the function. The later modules argue from these.
use tinia.Prelude.{
  ◌+◌, ◌%◌, ◌≡◌, refl, ◌⊎◌, inl, inr, String, Bool, true, false, none, some, arith, eq_iff, str_eq,
  Bool-cases, Option-cases, not, if◌then◌else◌,
}
use tinia.Prelude.Map.{Map, find, insert, find-insert}
use tinia.Model.Types.{CppType, Platform, get_typename}
use tinia.Model.Errors.{
  Error, ok, err, Result-cases, >>=-eq-ok, key_not_found, existing_key, type_mismatch, restriction,
  bounds_exceeded,
}
use tinia.Model.ElementData.{
  ElementData, check_string, set_string_value, invalid_constraints, violating_restriction,
  set_revision_number,
}
use tinia.Model.Exposed.{ExposedModel, u32_mod}
use tinia.Model.Factory.{Viewer, Matrix}
use tinia.Model.Exposed.Add.{add_element, add_viewer, add_matrix_element}
use tinia.Model.Exposed.Update.{
  update_element, update_simple, finish_update, fire_if, update_element_from_string,
}

-- An event changes neither the elements nor the revision number, nor can it fail.
pub fire_if_effect :
    (b : Bool) (k : String) (e : ElementData) (m : ExposedModel)
    → ((fire_if b k e m).1.state_hash ≡ m.state_hash)
      × ((fire_if b k e m).1.revision_number ≡ m.revision_number)
      × ((fire_if b k e m).0 ≡ ok tt)
unfolding fire_if
fire_if_effect true k e m = (refl, refl, refl)
fire_if_effect false k e m = (refl, refl, refl)

pub finish_update_effect :
    (k before : String) (e : ElementData) (m : ExposedModel)
    → let (r, m') = finish_update k before e m in
      (r ≡ ok tt)
      × (m'.state_hash ≡ insert k (set_revision_number e m.revision_number) m.state_hash)
      × (m'.revision_number ≡ (m.revision_number + 1) % u32_mod)
unfolding finish_update
finish_update_effect k before e m = let h = fire_if_effect _ k _ _ in (h.2, h.0, h.1)

pub find-insert_twice :
    (k j : String) (a b : ElementData) (m : Map ElementData)
    → find j (insert k b (insert k a m)) ≡ (if str_eq k j then some b else find j m)
find-insert_twice k j a b m = grind (arith, find-insert k j b (insert k a m), find-insert k j a m)

update_simple_cases :
    (p : Platform) (t : CppType) (k : String) (e : ElementData) (v : t.Carrier) (m : ExposedModel)
    → ((x : Error) × (update_simple p t k e v m ≡ (err x, m)))
      ⊎ ((e' : ElementData) × (invalid_constraints t e v ≡ ok false)
          × (violating_restriction t e v ≡ false)
          × (set_string_value e p (t.cast v) ≡ ok e')
          × (update_simple p t k e v m
              ≡ (ok e', record m { state_hash = insert k e' m.state_hash })))
unfolding update_simple
update_simple_cases p t k e v m = elim (Result-cases (invalid_constraints t e v)) [
  | inl (x, q) ↦ inl (x, rw (q, update_simple))
  | inr (true, q) ↦
      inl (bounds_exceeded (t.cast v) e.min_constraint e.max_constraint, rw (q, update_simple))
  | inr (false, q) ↦ elim (Bool-cases (violating_restriction t e v)) [
    | inl bad ↦ inl (restriction (t.cast v), rw (q, bad, update_simple))
    | inr fine ↦ elim (Result-cases (set_string_value e p (t.cast v))) [
      | inl (x, r) ↦ inl (x, rw (q, fine, r, update_simple))
      | inr (e', r) ↦ inr (e', q, fine, r, rw (q, fine, r, update_simple))
    ]
  ]
]

-- An updateElement either throws and leaves the model as it was, or writes one element, which had the
-- right type and whose bounds and restriction set admit the value, and goes on to the end of the
-- function.
pub update_element_cases :
    (p : Platform) (t : CppType) (k : String) (v : t.Carrier) (m : ExposedModel)
    → ((x : Error) × (update_element p t k v m ≡ (err x, m)))
      ⊎ ((e e' : ElementData) × (find k m.state_hash ≡ some e)
          × (e.xsd_type ≡ get_typename t.name)
          × (invalid_constraints t e v ≡ ok false)
          × (violating_restriction t e v ≡ false)
          × (set_string_value e p (t.cast v) ≡ ok e')
          × (update_element p t k v m
              ≡ finish_update k e.string_value e'
                  (record m { state_hash = insert k e' m.state_hash })))
unfolding update_element
update_element_cases p t k v m = elim (Option-cases (find k m.state_hash)) [
  | inl q ↦ inl (key_not_found k, ground arith)
  | inr (e, q) ↦ elim (Bool-cases (str_eq e.xsd_type (get_typename t.name))) [
    | inr other ↦ inl (type_mismatch (get_typename t.name) e.xsd_type, ground arith)
    | inl same ↦ elim (update_simple_cases p t k e v m) [
      | inl (x, r) ↦ inl (x, ground arith)
      | inr (e', c, d, s, r) ↦ inr (e, e', q, (eq_iff _ _).0 same, c, d, s, ground arith)
    ]
  ]
]

abbrev pub with_value : ElementData → String → ElementData
with_value e s = record e { simple = record e.simple { string_value = s } }

-- What a successful setStringValue returns.
pub set_string_value-eq :
    (e : ElementData) (p : Platform) (s : String) {e' : ElementData}
    → set_string_value e p s ≡ ok e'
    → e' ≡ with_value e s
unfolding set_string_value
set_string_value-eq e p s h =
    let (_, _, q) = >>=-eq-ok (check_string e p s) (λ _. ok (with_value e s)) h in ground arith

-- The model once updateElementFromString has taken a revision number, and before it sets the value.
abbrev pub bumped : String → ElementData → ExposedModel → ExposedModel
bumped k e m = record m {
  state_hash = insert k (set_revision_number e m.revision_number) m.state_hash;
  revision_number = (m.revision_number + 1) % u32_mod;
}

-- An updateElementFromString of a missing key throws and changes nothing. Otherwise it takes a revision
-- number; if the text is refused it throws and the element keeps its value but has the new number,
-- and if not the element has the text and the number, and an event is fired if the text is a new one.
pub update_element_from_string_cases :
    (p : Platform) (k value : String) (m : ExposedModel)
    → ((find k m.state_hash ≡ none)
        × (update_element_from_string p k value m ≡ (err (key_not_found k), m)))
      ⊎ ((e : ElementData) × (find k m.state_hash ≡ some e)
          × (((x : Error) × (set_string_value (set_revision_number e m.revision_number) p value
                  ≡ err x)
                × (update_element_from_string p k value m ≡ (err x, bumped k e m)))
              ⊎ ((e' : ElementData) × (set_string_value
                      (set_revision_number e m.revision_number)
                      p
                      value
                    ≡ ok e')
                  × (update_element_from_string p k value m
                      ≡ fire_if
                          (not (str_eq e.string_value e'.string_value))
                          k
                          e'
                          (record (bumped k e m) {
                            state_hash = insert k e' (bumped k e m).state_hash;
                          })))))
unfolding update_element_from_string
update_element_from_string_cases p k value m = elim (Option-cases (find k m.state_hash)) [
  | inl q ↦ inl (q, ground arith)
  | inr (e, q) ↦
      elim (Result-cases (set_string_value (set_revision_number e m.revision_number) p value)) [
        | inl (x, r) ↦ inr (e, q, inl (x, r, ground arith))
        | inr (e', r) ↦ inr (e, q, inr (e', r, ground arith))
      ]
]

-- An add at a key that is taken throws and leaves the model as it was.
add-existing_key :
    (p : Platform) (t : CppType) (k a : String) (v : t.Carrier) (w : Viewer p) (matrix : Matrix p)
    (m : ExposedModel) (e : ElementData)
    → find k m.state_hash ≡ some e
    → (add_element p t k v a m ≡ (err (existing_key k), m))
      × (add_viewer p k w a m ≡ (err (existing_key k), m))
      × (add_matrix_element p k matrix m ≡ (err (existing_key k), m))
unfolding add_element add_viewer add_matrix_element
add-existing_key p t k a v w matrix m e taken = (ground arith, ground arith, ground arith)
