-- ===== src/Model/Types.antt =====
-- The template argument T of the model's member functions, and what the code takes from boost, from
-- the standard library's streams and from the floating-point types. None of that is in the
-- repository: it enters as a value of `Platform`. The mapping from T to XSD types is
-- include/tinia/model/impl/TypeToXSDType.hpp.
use Prim.Native.String.{◌++◌ as append_text}
use tinia.Prelude.{String, ℕ, Bool, not, Option, none, some, List}
use tinia.Prelude.Text.{lt_text}
use tinia.Model.Errors.{Result, ok, err, bad_lexical_cast}

-- The types for which `TypeToXSDType` has a specialisation.
pub data TypeName : Type 0 where
  int float double bool std_string char_pointer viewer file : TypeName

pub get_typename_detail : TypeName → String
get_typename_detail int = "integer"
get_typename_detail float = "float"
get_typename_detail double = "double"
get_typename_detail bool = "bool"
get_typename_detail std_string = "string"
get_typename_detail char_pointer = "string"
get_typename_detail viewer = "complexType"
get_typename_detail file = "file"

-- Called with its default argument, the namespace "xsd".
unfoldable pub get_typename : TypeName → String
unfolding get_typename_detail
get_typename t = append_text "xsd" (append_text ":" (get_typename_detail t))

-- A simple type T: how the code reads, prints and compares its values.
pub record CppType : Type 1 where
  pub Carrier : Type 0
  pub name : TypeName
  -- std::stringstream << value
  pub stream : Carrier → String
  -- boost::lexical_cast<std::string>(value)
  pub cast : Carrier → String
  -- boost::lexical_cast<T>(text); `none` is bad_lexical_cast
  pub parse : String → Option Carrier
  -- a < b and a <= b
  pub lt : Carrier → Carrier → Bool
  pub le : Carrier → Carrier → Bool

abbrev pub string_type : CppType
string_type = record {
  Carrier = String;
  name = std_string;
  stream = λ s. s;
  cast = λ s. s;
  parse = some;
  lt = lt_text;
  le = λ s t. not (lt_text t s);
}

pub record Platform : Type 1 where
  pub double_type : CppType
  pub float_type : CppType
  pub bool_type : CppType
  pub int_type : CppType
  -- boost::split(pieces, text, is_any_of(" "))
  pub split : String → List String
  -- What an int holds that no constructor sets.
  pub uninitialised : ℕ

abbrev pub or_bad_cast {ℓ} : {A : Type ℓ} → Option A → Result A
or_bad_cast none = err bad_lexical_cast
or_bad_cast (some v) = ok v

unfoldable pub lexical_cast : (t : CppType) → String → Result t.Carrier
lexical_cast t s = or_bad_cast (t.parse s)
