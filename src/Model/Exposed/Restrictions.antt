-- ===== src/Model/Exposed/Restrictions.antt =====
-- Which values an update may store: bounds and restriction sets.
use tinia.Prelude.{
  ◌+◌, ◌%◌, if◌then◌else◌, ◌≡◌, ◌≢◌, ◌⊎◌, inl, inr, String, true, false, not, none, some, arith,
  eq_iff, str_eq, Option-cases,
}
use tinia.Prelude.Map.{find, insert, find-insert_self}
use tinia.Model.Errors.{Error, ok, err, >>=-eq-ok}
use tinia.Model.Types.{CppType, Platform, char_pointer, get_typename}
use tinia.Model.ElementData.{
  ElementData, length_not_set, empty_constraints, invalid_constraints, violating_restriction,
  contains, empty_restriction_set, check_as, check_value, check_string, set_string_value,
  set_revision_number,
}
use tinia.Model.Exposed.{ExposedModel, u32_mod}
use tinia.Model.Exposed.Update.{update_element, update_element_from_string}
use tinia.Model.Exposed.Effects.{
  update_element_cases, with_value, update_element_from_string_cases, fire_if_effect, bumped,
  finish_update_effect, find-insert_twice, set_string_value-eq,
}

-- A text that checkValue lets through as a T is in the restriction set, if there is one, and reads
-- as a T.
check_as-allowed :
    (e : ElementData) (t : CppType) (s : String)
    → check_as e t s ≡ ok tt
    → empty_restriction_set e ≡ false
    → (contains s e.enumeration_set ≡ true) × (t.parse s ≢ none)
unfolding check_as
check_as-allowed e t s h full = ground arith

-- The XSD types whose values checkValue looks at.
abbrev pub IsNumeric : String → Type 0
IsNumeric xsd =
    (xsd ≡ "xsd:double") ⊎ ((xsd ≡ "xsd:float") ⊎ ((xsd ≡ "xsd:bool") ⊎ (xsd ≡ "xsd:integer")))

check_value-allowed :
    (e : ElementData) (p : Platform) (s : String)
    → IsNumeric e.xsd_type
    → check_value e p s ≡ ok tt
    → empty_restriction_set e ≡ false
    → contains s e.enumeration_set ≡ true
unfolding check_value
check_value-allowed e p s numeric h full = ground (
  arith,
  check_as-allowed e p.double_type s,
  check_as-allowed e p.float_type s,
  check_as-allowed e p.bool_type s,
  check_as-allowed e p.int_type s,
  eq_iff e.xsd_type "xsd:double",
  eq_iff e.xsd_type "xsd:float",
  eq_iff e.xsd_type "xsd:bool",
  eq_iff e.xsd_type "xsd:integer",
)

-- A text that updateElementFromString stores has passed the checks.
check_of_update :
    (p : Platform) (k s : String) (m : ExposedModel) (e : ElementData)
    → find k m.state_hash ≡ some e
    → (update_element_from_string p k s m).0 ≡ ok tt
    → check_string (set_revision_number e m.revision_number) p s ≡ ok tt
unfolding set_string_value
check_of_update p k s m e found done = elim (update_element_from_string_cases p k s m) [
  | inl (none_there, q) ↦ ground arith
  | inr (e₀, found₀, inl (x, set, q)) ↦ ground arith
  | inr (e₀, found₀, inr (e', set, q)) ↦
      let (u, passed, _) =
        >>=-eq-ok (check_string (set_revision_number e₀ m.revision_number) p s)
          (λ _. ok (with_value (set_revision_number e₀ m.revision_number) s)) {w = e'} set in
      ground arith
]

-- A single value of a numeric type that has a restriction set is changed by a client's text only to
-- a member of the set.
pub update_element_from_string_allowed :
    (p : Platform) (k s : String) (m : ExposedModel) (e : ElementData)
    → find k m.state_hash ≡ some e
    → IsNumeric e.xsd_type
    → e.length ≡ length_not_set
    → empty_restriction_set e ≡ false
    → (update_element_from_string p k s m).0 ≡ ok tt
    → contains s e.enumeration_set ≡ true
unfolding check_string set_revision_number empty_restriction_set
update_element_from_string_allowed p k s m e found numeric one full done =
    let e₁ = set_revision_number e m.revision_number in
    check_value-allowed e₁ p s numeric (ground (arith, check_of_update p k s m e found done)) full

set_string_value-text :
    (e : ElementData) (p : Platform) (s : String)
    → e.xsd_type ≡ "xsd:string"
    → e.length ≡ length_not_set
    → set_string_value e p s ≡ ok (with_value e s)
unfolding set_string_value
set_string_value-text e p s text one = rw (one, check_string) (rw (text, check_value))

-- A single element of type xsd:string takes every text from a client, whatever its restriction set.
pub update_element_from_string_unrestricted :
    (p : Platform) (k s : String) (m : ExposedModel) (e : ElementData)
    → find k m.state_hash ≡ some e
    → e.xsd_type ≡ "xsd:string"
    → e.length ≡ length_not_set
    → let (r, m') = update_element_from_string p k s m in
      (r ≡ ok tt)
      × (find k m'.state_hash ≡ some (with_value (set_revision_number e m.revision_number) s))
unfolding set_revision_number
update_element_from_string_unrestricted p k s m e found text one =
    let e₁ = set_revision_number e m.revision_number in
    let stored = set_string_value-text e₁ p s text one in
    elim (update_element_from_string_cases p k s m) [
      | inl (missing, q) ↦ ground arith
      | inr (e₀, found₀, inl (x, set, q)) ↦ ground arith
      | inr (e₀, found₀, inr (e', set, q)) ↦
          let same : e₀ ≡ e = ground arith in
          let there = find-insert_self k e' (bumped k e₀ m).state_hash in
          let fired =
            fire_if_effect (not (str_eq e₀.string_value e'.string_value)) k e'
              (record (bumped k e₀ m) { state_hash = insert k e' (bumped k e₀ m).state_hash }) in
          ground (arith, stored)
    ]

-- The bounds of an element, if it has any, read as values between which `v` lies; what updateElement
-- of a literal (a const char*) does not look at.
abbrev pub IsBetween : (t : CppType) → ElementData → t.Carrier → Type 0
IsBetween t e v =
    t.name ≢ char_pointer
    → empty_constraints e ≡ false
    → (low high : t.Carrier) × (t.parse e.min_constraint ≡ some low)
      × (t.parse e.max_constraint ≡ some high)
      × (t.le low v ≡ true)
      × (t.le v high ≡ true)

is_between :
    (t : CppType) (e : ElementData) (v : t.Carrier)
    → invalid_constraints t e v ≡ ok false
    → IsBetween t e v
unfolding invalid_constraints
is_between t e v h other bounded = elim (Option-cases (t.parse e.min_constraint)) [
  | inl none_low ↦ ground arith
  | inr (low, low_read) ↦ elim (Option-cases (t.parse e.max_constraint)) [
    | inl none_high ↦ ground arith
    | inr (high, high_read) ↦ (low, high, low_read, high_read, ground arith, ground arith)
  ]
]

-- An updateElement either throws and leaves the model as it was, or writes one element, which had the
-- right type, and whose restriction set, if it has one, holds the value's text; its bounds, if it has
-- any and the value is no literal, read as values, and the value lies between them. Then the element
-- has the text and the next revision number, and the other elements are as before.
pub update_element_outcome :
    (p : Platform) (t : CppType) (k : String) (v : t.Carrier) (m : ExposedModel)
    → let (r, m') = update_element p t k v m in
      ((x : Error) × (r ≡ err x) × (m' ≡ m))
      ⊎ ((e : ElementData) × (find k m.state_hash ≡ some e)
          × (r ≡ ok tt)
          × (e.xsd_type ≡ get_typename t.name)
          × IsBetween t e v
          × (empty_restriction_set e ≡ false → contains (t.cast v) e.enumeration_set ≡ true)
          × ((j : String)
              → find j m'.state_hash ≡ (
                  if str_eq k j
                  then some (set_revision_number (with_value e (t.cast v)) m.revision_number)
                  else find j m.state_hash))
          × (m'.revision_number ≡ (m.revision_number + 1) % u32_mod))
unfolding violating_restriction
update_element_outcome p t k v m = elim (update_element_cases p t k v m) [
  | inl (x, q) ↦ inl (x, ground arith, ground arith)
  | inr (e, e', found, typed, inside, allowed, set, q) ↦
      let w = set_string_value-eq e p (t.cast v) set in
      let (done, hash, rev) =
        finish_update_effect k e.string_value e'
          (record m { state_hash = insert k e' m.state_hash }) in
      inr (
        e,
        found,
        rw q done,
        typed,
        is_between t e v inside,
        (λ full. ground arith),
        (λ j.
            rw (q, hash, w)
              (find-insert_twice k j (with_value e (t.cast v))
                (set_revision_number (with_value e (t.cast v)) m.revision_number) m.state_hash)),
        rw q rev,
      )
]
