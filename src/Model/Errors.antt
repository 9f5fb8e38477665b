-- ===== src/Model/Errors.antt =====
-- The exceptions of the model library (include/tinia/model/exceptions and those of boost and the
-- standard library that it lets through), as the error case of a result.
use tinia.Prelude.{◌≡◌, refl, ◌⊎◌, inl, inr, String}

pub data Error : Type 0 where
  -- KeyNotFoundException(key), ExistingKeyException(key)
  key_not_found existing_key : String → Error
  -- TypeException(first, second)
  type_mismatch : String → String → Error
  -- RestrictionException(value)
  restriction : String → Error
  -- BoundsExceededException(value, min, max)
  bounds_exceeded : String → String → String → Error
  -- boost::bad_lexical_cast
  bad_lexical_cast : Error
  -- std::runtime_error
  runtime_error : Error
  -- std::invalid_argument
  invalid_argument : Error
  -- Not an exception: a read past the end of a vector, whose behaviour C++ leaves open.
  out_of_range : Error
  -- Not an exception: a call through a null pointer.
  null_pointer : Error

-- What a call leaves: the exception that it threw, or its value.
pub data Result {ℓ} (T : Type ℓ) : Type ℓ where
  err : (thrown : Error) → Result T
  ok : (value : T) → Result T

infixl 5 ◌>>=◌
infixl 5 ◌>>◌
abbrev pub ◌>>=◌ {ℓ κ} : {S : Type ℓ} {T : Type κ} → Result S → (S → Result T) → Result T
◌>>=◌ r next = elim r [ err x ↦ err x | ok v ↦ next v ]

module _ {ℓ κ} {S : Type ℓ} {T : Type κ} where
  -- The two calls behind a result that is a value.
  pub >>=-eq-ok :
      (r : Result S) (next : S → Result T) {w : T}
      → (r >>= next) ≡ ok w
      → (v : S) × (r ≡ ok v) × (next v ≡ ok w)
  >>=-eq-ok (err x) next same = cc
  >>=-eq-ok (ok v) next same = (v, refl, same)

abbrev pub ◌>>◌ {κ} : {T : Type κ} → Result (Unit {0}) → Result T → Result T
◌>>◌ first next = first >>= λ _. next

pub Result-cases {ℓ} :
    {T : Type ℓ} (r : Result T) → ((x : Error) × (r ≡ err x)) ⊎ ((v : T) × (r ≡ ok v))
Result-cases (err x) = inl (x, refl)
Result-cases (ok v) = inr (v, refl)
