-- ===== src/Prelude/Text.antt =====
-- The order on `std::string`: lexicographic by code (the byte order of UTF-8 is the order of the
-- codes). It is a strict total order.
use Prim.Native.String.{String, [], ◌∷◌}
use Prim.Native.Char.{Char, code}
use text.Mathlib.TextEquality.{Char-path}
use mathlib.Core.Path.{◌≡◌, refl, ap₂}
use mathlib.Core.Logic.{◌⊎◌, inl, inr}
use mathlib.Core.Bool.{Bool, true, false}
use native.Mathlib.Omega.{arith}
use tinia.Prelude.Tests.{ltb, if◌then◌else◌}

-- `operator<` of `std::string`.
unfoldable pub lt_text : String → String → Bool
lt_text [] [] = false
lt_text [] (d ∷ t) = true
lt_text (c ∷ s) [] = false
lt_text (c ∷ s) (d ∷ t) =
    if ltb (code c) (code d) then true else if ltb (code d) (code c) then false else lt_text s t

pub lt_text_irrefl : (s : String) → lt_text s s ≡ false
unfolding lt_text
lt_text_irrefl [] = refl
lt_text_irrefl (c ∷ s) = ground (arith, lt_text_irrefl s)

pub lt_text_trans : (s t u : String) → lt_text s t ≡ true → lt_text t u ≡ true → lt_text s u ≡ true
unfolding lt_text
lt_text_trans [] [] u h k = cc
lt_text_trans [] (d ∷ t) [] h k = cc
lt_text_trans [] (d ∷ t) (e ∷ u) h k = refl
lt_text_trans (c ∷ s) [] u h k = cc
lt_text_trans (c ∷ s) (d ∷ t) [] h k = cc
lt_text_trans (c ∷ s) (d ∷ t) (e ∷ u) h k = ground (arith, lt_text_trans s t u)

head-path : (c d : Char) → ltb (code c) (code d) ≡ false → ltb (code d) (code c) ≡ false → c ≡ d
head-path c d h k = Char-path c d (ground arith)

-- Of two texts, one is first or they are equal.
pub lt_text_total : (s t : String) → (lt_text s t ≡ true) ⊎ ((lt_text t s ≡ true) ⊎ (s ≡ t))
unfolding lt_text
lt_text_total [] [] = inr (inr refl)
lt_text_total [] (d ∷ t) = inl refl
lt_text_total (c ∷ s) [] = inr (inl refl)
lt_text_total (c ∷ s) (d ∷ t) =
    ground (arith, lt_text_total s t, head-path c d, λ (p : c ≡ d) (q : s ≡ t). ap₂ ◌∷◌ p q)
