-- ===== src/RenderList/Names.antt =====
-- The name map beside the items: DataBase::attachName and detachName.
use tinia.Prelude.{
  ◌≡◌, ◌≢◌, ap, inl, inr, String, true, false, Option, none, some, arith, eq_iff, Option-cases,
  Bool-cases,
}
use tinia.Prelude.Map.{Map, find, find-insert, find-erase}
use tinia.RenderList.{ItemRef, buffer, shader, action, same_item}
use tinia.RenderList.Items.{attach_name, detach_name, attach_if_named, detach_if_named}

pub same_item-eq : (a b : ItemRef) → same_item a b ≡ true → a ≡ b
same_item-eq (buffer i) (buffer j) q = ap buffer (ground arith)
same_item-eq (shader i) (shader j) q = ap shader (ground arith)
same_item-eq (action i) (action j) q = ap action (ground arith)
same_item-eq (buffer i) (shader j) q = grind arith
same_item-eq (buffer i) (action j) q = grind arith
same_item-eq (shader i) (buffer j) q = grind arith
same_item-eq (shader i) (action j) q = grind arith
same_item-eq (action i) (buffer j) q = grind arith
same_item-eq (action i) (shader j) q = grind arith

pub same_item_refl : (a : ItemRef) → same_item a a ≡ true
same_item_refl (buffer i) = ground arith
same_item_refl (shader i) = ground arith
same_item_refl (action i) = ground arith

-- A name leads to an item that carries it, and is not empty. `f` reads an item's name.
abbrev pub IsNamed : Map ItemRef → (ItemRef → Option String) → Type 0
IsNamed names f =
    (name : String) (item : ItemRef)
    → find name names ≡ some item
    → (f item ≡ some name) × (name ≢ "")

pub attach_if_named-IsNamed :
    (names : Map ItemRef) (f f2 : ItemRef → Option String) (name : String) (item : ItemRef)
    → IsNamed names f
    → f2 item ≡ some name
    → ((i : ItemRef) (n : String) → f i ≡ some n → f2 i ≡ some n)
    → IsNamed (attach_if_named name item names) f2
unfolding attach_if_named attach_name
attach_if_named-IsNamed names f f2 name item v new old n i q =
    elim (Option-cases (find name names)) [
      | inl out ↦
          grind
            (arith, find-insert name n item names, eq_iff name n, eq_iff name "", v n i, old i n)
      | inr (other, taken) ↦ grind (arith, v n i, old i n)
    ]

name_unique :
    (f : ItemRef → Option String) (i item : ItemRef) (n name : String)
    → i ≡ item
    → f i ≡ some n
    → f item ≡ some name
    → n ≡ name
name_unique f i item n name back named known = grind (arith, ap f back)

-- What is left was there; and a name that led to the item is gone.
find-detach_if_named :
    (names : Map ItemRef) (name n : String) (item i : ItemRef)
    → find n (detach_if_named name item names) ≡ some i
    → find n names ≡ some i
unfolding detach_if_named detach_name
find-detach_if_named names name n item i q = elim (Option-cases (find name names)) [
  | inl out ↦ grind arith
  | inr (other, taken) ↦ grind (arith, find-erase name n names)
]

detach_if_named-none :
    (names : Map ItemRef) (name : String) (item : ItemRef)
    → name ≢ ""
    → find name names ≡ some item
    → find name (detach_if_named name item names) ≡ none
unfolding detach_if_named detach_name
detach_if_named-none names name item whole q =
    grind (arith, find-erase name name names, eq_iff name name, eq_iff name "", same_item_refl item)

pub detach_if_named-IsNamed :
    (names : Map ItemRef) (f f2 : ItemRef → Option String) (name : String) (item : ItemRef)
    → IsNamed names f
    → f item ≡ some name
    → ((i : ItemRef) (n : String) → same_item i item ≡ false → f i ≡ some n → f2 i ≡ some n)
    → IsNamed (detach_if_named name item names) f2
detach_if_named-IsNamed names f f2 name item v known old n i q =
    let was = find-detach_if_named names name n item i q in
    let (named, whole) = v n i was in
    elim (Bool-cases (same_item i item)) [
      | inl same ↦
          let back = same_item-eq i item same in
          let eq = name_unique f i item n name back named known in
          grind (arith, detach_if_named-none names name item, eq, back, was, q)
      | inr other ↦ (old i n other named, whole)
    ]
