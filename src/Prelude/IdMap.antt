-- ===== src/Prelude/IdMap.antt =====
-- `std::map<unsigned int, V>`: the entries in ascending order of their keys.
use Prim.Native.Nat.{ℕ, ◌<◌}
use mathlib.Core.Path.{◌≡◌, refl}
use mathlib.Core.Bool.{Bool}
use mathlib.Core.Option.{Option, none, some}
use mathlib.Core.List.{List, [], ◌∷◌}
use native.Mathlib.Omega.{arith}
use tinia.Prelude.Tests.{ltb, ◌==◌, if◌then◌else◌}

abbrev pub IdMap {ℓ} : Type ℓ → Type ℓ
IdMap V = List (ℕ × V)

module _ {ℓ} {V : Type ℓ} where
  -- m.find(k)
  unfoldable pub lookup : ℕ → IdMap V → Option V
  lookup k [] = none
  lookup k ((j, v) ∷ m) = if j == k then some v else lookup k m

  -- m[k] = v
  unfoldable pub put : ℕ → V → IdMap V → IdMap V
  put k v [] = (k, v) ∷ []
  put k v ((j, w) ∷ m) =
      if j == k then (k, v) ∷ m else if ltb k j then (k, v) ∷ (j, w) ∷ m else (j, w) ∷ put k v m

  -- m.erase(k)
  unfoldable pub take_out : ℕ → IdMap V → IdMap V
  take_out k [] = []
  take_out k ((j, v) ∷ m) = let rest = take_out k m in if j == k then rest else (j, v) ∷ rest

  -- The keys of a map.
  unfoldable pub ids : IdMap V → List ℕ
  ids [] = []
  ids ((k, v) ∷ m) = k ∷ ids m

  pub lookup-put :
      (k j : ℕ) (v : V) (m : IdMap V)
      → lookup j (put k v m) ≡ (if k == j then some v else lookup j m)
  unfolding lookup put
  lookup-put k j v [] = refl
  lookup-put k j v ((i, w) ∷ m) = ground (arith, lookup-put k j v m)

  pub lookup-take_out :
      (k j : ℕ) (m : IdMap V) → lookup j (take_out k m) ≡ (if k == j then none else lookup j m)
  unfolding lookup take_out
  lookup-take_out k j [] = ground arith
  lookup-take_out k j ((i, w) ∷ m) = ground (arith, lookup-take_out k j m)

  -- Every key comes after `k`, and the keys ascend.
  abbrev pub AllAfter : ℕ → IdMap V → Type 0
  AllAfter k [] = Unit
  AllAfter k ((j, v) ∷ m) = (k < j) × AllAfter j m

  abbrev pub IsAscending : IdMap V → Type 0
  IsAscending [] = Unit
  IsAscending ((j, v) ∷ m) = AllAfter j m

  AllAfter-IsAscending : (k : ℕ) (m : IdMap V) → AllAfter k m → IsAscending m
  AllAfter-IsAscending k [] a = tt
  AllAfter-IsAscending k ((j, v) ∷ m) a = a.1

  AllAfter-mono : (i k : ℕ) (m : IdMap V) → i < k → AllAfter k m → AllAfter i m
  AllAfter-mono i k [] h a = tt
  AllAfter-mono i k ((j, v) ∷ m) h (b, a) = (omega arith, a)

  lookup-AllAfter : (k : ℕ) (m : IdMap V) → AllAfter k m → lookup k m ≡ none
  unfolding lookup
  lookup-AllAfter k [] a = refl
  lookup-AllAfter k ((j, v) ∷ m) (h, a) =
      ground (arith, lookup-AllAfter k m (AllAfter-mono k j m h a))

  put-AllAfter : (i k : ℕ) (v : V) (m : IdMap V) → i < k → AllAfter i m → AllAfter i (put k v m)
  unfolding put
  put-AllAfter i k v [] h a = (h, tt)
  put-AllAfter i k v ((j, w) ∷ m) h (a, b) =
      ground (arith, put-AllAfter j k v m, AllAfter-mono j k m)

  pub put-IsAscending : (k : ℕ) (v : V) (m : IdMap V) → IsAscending m → IsAscending (put k v m)
  unfolding put
  put-IsAscending k v [] s = tt
  put-IsAscending k v ((j, w) ∷ m) s = ground (arith, put-AllAfter j k v m)

  take_out-AllAfter : (i k : ℕ) (m : IdMap V) → AllAfter i m → AllAfter i (take_out k m)
  unfolding take_out
  take_out-AllAfter i k [] a = tt
  take_out-AllAfter i k ((j, w) ∷ m) (a, b) =
      ground (arith, take_out-AllAfter j k m b, take_out-AllAfter i k m (AllAfter-mono i j m a b))

  pub take_out-IsAscending : (k : ℕ) (m : IdMap V) → IsAscending m → IsAscending (take_out k m)
  unfolding take_out
  take_out-IsAscending k [] s = tt
  take_out-IsAscending k ((j, w) ∷ m) s =
      ground (arith, take_out-AllAfter j k m s, AllAfter-IsAscending j (take_out k m))

  -- The entries whose value passes a test, in the order of the map.
  unfoldable pub select_ids : (V → Bool) → IdMap V → IdMap V
  select_ids p [] = []
  select_ids p ((k, v) ∷ m) = let rest = select_ids p m in if p v then (k, v) ∷ rest else rest

  abbrev pub only_if : (V → Bool) → Option V → Option V
  only_if p none = none
  only_if p (some v) = if p v then some v else none

  select_ids-AllAfter :
      (p : V → Bool) (k : ℕ) (m : IdMap V) → AllAfter k m → AllAfter k (select_ids p m)
  unfolding select_ids
  select_ids-AllAfter p k [] a = tt
  select_ids-AllAfter p k ((j, v) ∷ m) (a, b) =
      ground
        (arith, select_ids-AllAfter p j m b, select_ids-AllAfter p k m (AllAfter-mono k j m a b))

  pub lookup-select_ids :
      (p : V → Bool) (k : ℕ) (m : IdMap V)
      → IsAscending m
      → lookup k (select_ids p m) ≡ only_if p (lookup k m)
  unfolding lookup select_ids
  lookup-select_ids p k [] s = refl
  lookup-select_ids p k ((j, v) ∷ m) s = ground (
    arith,
    lookup-select_ids p k m (AllAfter-IsAscending j m s),
    lookup-AllAfter j (select_ids p m) (select_ids-AllAfter p j m s),
  )
