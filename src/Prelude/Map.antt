-- ===== src/Prelude/Map.antt =====
-- `std::map<std::string, V>`: the entries in ascending order of their keys.
use Prim.Native.String.{String}
use text.Mathlib.Text.{◌==◌ as str_eq}
use text.Mathlib.TextEquality.{eq_iff}
use mathlib.Core.Path.{◌≡◌, refl}
use mathlib.Core.Logic.{inl, inr}
use mathlib.Core.Bool.{Bool, true}
use mathlib.Core.Option.{Option, none, some}
use mathlib.Core.List.{List, [], ◌∷◌}
use native.Mathlib.Omega.{arith}
use tinia.Prelude.Tests.{if◌then◌else◌}
use tinia.Prelude.Text.{lt_text, lt_text_irrefl, lt_text_trans, lt_text_total}

abbrev pub Map {ℓ} : Type ℓ → Type ℓ
Map V = List (String × V)

module _ {ℓ} {V : Type ℓ} where
  -- m.find(k)
  unfoldable pub find : String → Map V → Option V
  find k [] = none
  find k ((j, v) ∷ m) = if str_eq j k then some v else find k m

  -- m[k] = v
  unfoldable pub insert : String → V → Map V → Map V
  unfolding lt_text
  insert k v [] = (k, v) ∷ []
  insert k v ((j, w) ∷ m) =
      if str_eq j k
      then (k, v) ∷ m
      else if lt_text k j
      then (k, v) ∷ (j, w) ∷ m
      else (j, w) ∷ insert k v m

  -- m.erase(k)
  unfoldable pub erase : String → Map V → Map V
  erase k [] = []
  erase k ((j, v) ∷ m) = let rest = erase k m in if str_eq j k then rest else (j, v) ∷ rest

  pub find-insert :
      (k j : String) (v : V) (m : Map V)
      → find j (insert k v m) ≡ (if str_eq k j then some v else find j m)
  unfolding find insert
  find-insert k j v [] = refl
  find-insert k j v ((i, w) ∷ m) =
      ground (arith, eq_iff k j, eq_iff i k, eq_iff i j, find-insert k j v m)

  pub find-erase :
      (k j : String) (m : Map V) → find j (erase k m) ≡ (if str_eq k j then none else find j m)
  unfolding find erase
  find-erase k j [] = ground arith
  find-erase k j ((i, w) ∷ m) = ground (arith, eq_iff k j, eq_iff i k, eq_iff i j, find-erase k j m)

  pub find-insert_self : (k : String) (v : V) (m : Map V) → find k (insert k v m) ≡ some v
  find-insert_self k v m = ground (arith, find-insert k k v m, eq_iff k k)

  -- Every key comes after `k`, and the keys ascend.
  abbrev pub Above : String → Map V → Type 0
  Above k [] = Unit
  Above k ((j, v) ∷ m) = (lt_text k j ≡ true) × Above j m

  abbrev pub IsSorted : Map V → Type 0
  IsSorted [] = Unit
  IsSorted ((j, v) ∷ m) = Above j m

  Above-IsSorted : (k : String) (m : Map V) → Above k m → IsSorted m
  Above-IsSorted k [] a = tt
  Above-IsSorted k ((j, v) ∷ m) a = a.1

  Above-mono : (i k : String) (m : Map V) → lt_text i k ≡ true → Above k m → Above i m
  Above-mono i k [] h a = tt
  Above-mono i k ((j, v) ∷ m) h a = (lt_text_trans i k j h a.0, a.1)

  pub find-Above : (k : String) (m : Map V) → Above k m → find k m ≡ none
  unfolding find
  find-Above k [] a = refl
  find-Above k ((j, v) ∷ m) (h, a) =
      ground (arith, eq_iff j k, lt_text_irrefl k, find-Above k m (Above-mono k j m h a))

  insert-Above :
      (i k : String) (v : V) (m : Map V) → lt_text i k ≡ true → Above i m → Above i (insert k v m)
  unfolding insert
  insert-Above i k v [] h a = (h, tt)
  insert-Above i k v ((j, w) ∷ m) h (a, b) = elim (lt_text_total k j) [
    | inl before ↦ ground (arith, eq_iff j k, lt_text_irrefl k)
    | inr (inl after) ↦
        ground
          (arith, eq_iff j k, lt_text_irrefl k, insert-Above j k v m after b, lt_text_trans k j k)
    | inr (inr same) ↦ ground (arith, eq_iff j k, Above-mono i k m)
  ]

  pub insert-IsSorted : (k : String) (v : V) (m : Map V) → IsSorted m → IsSorted (insert k v m)
  unfolding insert
  insert-IsSorted k v [] s = tt
  insert-IsSorted k v ((j, w) ∷ m) s = elim (lt_text_total k j) [
    | inl before ↦ ground (arith, eq_iff j k, lt_text_irrefl k)
    | inr (inl after) ↦
        ground
          (arith, eq_iff j k, lt_text_irrefl k, insert-Above j k v m after s, lt_text_trans k j k)
    | inr (inr same) ↦ ground (arith, eq_iff j k)
  ]

  erase-Above : (i k : String) (m : Map V) → Above i m → Above i (erase k m)
  unfolding erase
  erase-Above i k [] a = tt
  erase-Above i k ((j, w) ∷ m) (a, b) =
      ground (arith, erase-Above j k m b, erase-Above i k m (Above-mono i j m a b))

  pub erase-IsSorted : (k : String) (m : Map V) → IsSorted m → IsSorted (erase k m)
  unfolding erase
  erase-IsSorted k [] s = tt
  erase-IsSorted k ((j, w) ∷ m) s =
      ground (arith, erase-Above j k m s, Above-IsSorted j (erase k m))

  -- The entries whose value passes a test, in the order of the map.
  unfoldable pub select : (V → Bool) → Map V → Map V
  select p [] = []
  select p ((k, v) ∷ m) = let rest = select p m in if p v then (k, v) ∷ rest else rest

  abbrev pub only : (V → Bool) → Option V → Option V
  only p none = none
  only p (some v) = if p v then some v else none

  select-Above : (p : V → Bool) (k : String) (m : Map V) → Above k m → Above k (select p m)
  unfolding select
  select-Above p k [] a = tt
  select-Above p k ((j, v) ∷ m) (a, b) =
      ground (arith, select-Above p j m b, select-Above p k m (Above-mono k j m a b))

  pub find-select :
      (p : V → Bool) (k : String) (m : Map V) → IsSorted m → find k (select p m) ≡ only p (find k m)
  unfolding find select
  find-select p k [] s = refl
  find-select p k ((j, v) ∷ m) s = ground (
    arith,
    eq_iff j k,
    find-select p k m (Above-IsSorted j m s),
    find-Above j (select p m) (select-Above p j m s),
  )
