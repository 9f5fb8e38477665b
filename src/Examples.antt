-- ===== src/Examples.antt =====
-- A platform to run the model on, whose `int` counts in decimal digits. The modules below apply the
-- theorems to concrete calls.
pub mod Model
pub mod Choices
pub mod Master
pub mod Recovery
pub mod RenderList
pub mod Ipc
pub mod JobController
use Prim.Native.Char.{Char, code}
use Prim.Native.String.{[] as empty_text, ◌∷◌ as char_then}
use tinia.Prelude.{
  ℕ, zero, suc, ◌+◌, ◌-◌, ◌*◌, String, Bool, true, false, ◌&&◌, Option, none, some, List, [], ◌∷◌,
  leb, ltb, if◌then◌else◌, str_eq,
}
use tinia.Model.Types.{CppType, int, string_type, Platform}

abbrev decimals : List String
decimals = "0" ∷ "1" ∷ "2" ∷ "3" ∷ "4" ∷ "5" ∷ "6" ∷ "7" ∷ "8" ∷ "9" ∷ []

abbrev digit : List String → ℕ → String
digit [] n = ""
digit (d ∷ ds) zero = d
digit (d ∷ ds) (suc n) = digit ds n

abbrev value_from : ℕ → List String → String → Option ℕ
value_from n [] s = none
value_from n (d ∷ ds) s = let rest = value_from (suc n) ds s in if str_eq d s then some n else rest

-- Numbers of one digit are enough here.
abbrev pub digit_type : CppType
digit_type = record {
  Carrier = ℕ;
  name = int;
  stream = digit decimals;
  cast = digit decimals;
  parse = value_from 0 decimals;
  lt = ltb;
  le = leb;
}

abbrev pub demo : Platform
demo = record {
  double_type = digit_type;
  float_type = digit_type;
  bool_type = digit_type;
  int_type = digit_type;
  split = λ s. s ∷ [];
  uninitialised = 0;
}
