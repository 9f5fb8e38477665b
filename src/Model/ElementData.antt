-- ===== src/Model/ElementData.antt =====
-- impl::ElementData (include/tinia/model/impl/ElementData.hpp, src/model/ElementData.cpp): the value
-- and the metadata of one parameter. A setter that the code names has its name here; the getters are
-- the fields.
use tinia.Prelude.{
  ℕ, zero, suc, String, Bool, true, false, not, ◌&&◌, ◌||◌, List, [], ◌∷◌, if◌then◌else◌, str_eq,
}
use tinia.Prelude.Int.{ℤ, pos, negsuc, ltb_ℤ, pos_part}
use tinia.Prelude.Map.{Map}
use tinia.Model.Errors.{Result, ok, err, restriction, out_of_range, ◌>>=◌, ◌>>◌}
use tinia.Model.Types.{CppType, Platform, lexical_cast, TypeName, char_pointer}

-- The members other than the property tree.
pub record Simple : Type 0 where
  pub string_value : String
  pub xsd_type : String
  pub widget_type : String
  pub min_constraint : String
  pub max_constraint : String
  -- std::set<std::string>
  pub enumeration_set : List String
  pub annotation_map : Map String
  pub pre_change_revision_number : ℕ
  pub length : ℤ

-- std::map<std::string, ElementData>: `entry key members subtree rest`.
pub data PropertyTree : Type 0 where
  leaf : PropertyTree
  entry : String → Simple → PropertyTree → PropertyTree → PropertyTree

pub record ElementData : Type 0 where
  pub simple : Simple
  pub open simple use *
  pub property_tree : PropertyTree

abbrev pub length_not_set : ℤ
length_not_set = negsuc 0

abbrev pub matrix_length : ℤ
matrix_length = pos 16

-- it == set.end() ? false : true
unfoldable pub contains : String → List String → Bool
contains s [] = false
contains s (allowed ∷ rest) = str_eq allowed s || contains s rest

unfoldable pub is_empty : String → Bool
is_empty s = str_eq s ""

module _ (e : ElementData) where
  -- Both operands of the source read the minimum.
  unfoldable pub empty_constraints : Bool
  unfolding is_empty
  empty_constraints = is_empty e.min_constraint && is_empty e.min_constraint

  unfoldable pub empty_restriction_set : Bool
  empty_restriction_set = elim e.enumeration_set [ [] ↦ true | _ ↦ false ]

  unfoldable pub is_complex_type : Bool
  is_complex_type = elim e.property_tree [ leaf ↦ false | _ ↦ true ]

  -- value <= maxValue && value >= minValue
  unfoldable pub within_bounds : (t : CppType) → t.Carrier → Result Bool
  unfolding lexical_cast
  within_bounds t v = do
    low ← lexical_cast t e.min_constraint
    high ← lexical_cast t e.max_constraint
    ok (t.le v high && t.le low v)

  unfoldable pub is_within_limits : (t : CppType) → t.Carrier → String → Result Bool
  unfolding contains empty_restriction_set empty_constraints within_bounds
  is_within_limits t v s =
      if not empty_restriction_set
      then ok (contains s e.enumeration_set)
      else if not empty_constraints
      then within_bounds t v
      else ok true

  -- Throws a RestrictionException unless the text reads as a T within the limits.
  unfoldable pub check_as : CppType → String → Result (Unit {0})
  unfolding is_within_limits
  check_as t s = do
    v ← lexical_cast t s
    within ← is_within_limits t v s
    if not within then err (restriction s) else ok tt

  module _ (p : Platform) where
    unfoldable pub check_value : String → Result (Unit {0})
    unfolding check_as
    check_value s =
        if str_eq e.xsd_type "xsd:double"
        then check_as p.double_type s
        else if str_eq e.xsd_type "xsd:float"
        then check_as p.float_type s
        else if str_eq e.xsd_type "xsd:bool"
        then check_as p.bool_type s
        else if str_eq e.xsd_type "xsd:integer"
        then check_as p.int_type s
        else ok tt

    -- for (i = 0; i < n; i++) checkValue(pieces[i])
    unfoldable pub check_pieces : ℕ → List String → Result (Unit {0})
    check_pieces zero pieces = ok tt
    check_pieces (suc n) [] = err out_of_range
    check_pieces (suc n) (s ∷ pieces) = do check_value s; check_pieces n pieces

    -- The checks of setStringValue.
    unfoldable pub check_string : String → Result (Unit {0})
    unfolding check_value check_pieces
    check_string s =
        if ltb_ℤ (pos 1) e.length
        then check_pieces (pos_part e.length) (p.split s)
        else check_value s

    unfoldable pub set_string_value : String → Result ElementData
    unfolding check_string
    set_string_value s = do
      check_string s
      ok (record e { simple = record e.simple { string_value = s } })

  unfoldable pub set_min_constraint : String → ElementData
  set_min_constraint s = record e { simple = record e.simple { min_constraint = s } }

  unfoldable pub set_max_constraint : String → ElementData
  set_max_constraint s = record e { simple = record e.simple { max_constraint = s } }

  unfoldable pub set_restriction_set : List String → ElementData
  set_restriction_set r = record e {
    simple = record e.simple { enumeration_set = r; widget_type = "select" };
  }

  unfoldable pub set_annotation : Map String → ElementData
  set_annotation a = record e { simple = record e.simple { annotation_map = a } }

  unfoldable pub set_xsd_type : String → ElementData
  set_xsd_type s = record e { simple = record e.simple { xsd_type = s } }

  unfoldable pub set_widget_type : String → ElementData
  set_widget_type s = record e { simple = record e.simple { widget_type = s } }

  unfoldable pub set_length : ℕ → ElementData
  set_length n = record e { simple = record e.simple { length = pos n } }

  unfoldable pub set_revision_number : ℕ → ElementData
  set_revision_number r = record e { simple = record e.simple { pre_change_revision_number = r } }

-- ElementData::invalidConstraints<T>
abbrev is_char_pointer : TypeName → Bool
is_char_pointer char_pointer = true
is_char_pointer _ = false

-- The specialization for const char* answers false.
unfoldable pub invalid_constraints : (t : CppType) → ElementData → t.Carrier → Result Bool
unfolding empty_constraints lexical_cast
invalid_constraints t e v = if is_char_pointer t.name || empty_constraints e then ok false else do
  low ← lexical_cast t e.min_constraint
  high ← lexical_cast t e.max_constraint
  ok (not (t.le low v && t.le v high))

-- ElementData::violatingRestriction<T>
unfoldable pub violating_restriction : (t : CppType) → ElementData → t.Carrier → Bool
unfolding contains empty_restriction_set
violating_restriction t e v =
    if empty_restriction_set e then false else not (contains (t.cast v) e.enumeration_set)
