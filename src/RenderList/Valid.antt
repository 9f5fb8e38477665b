-- ===== src/RenderList/Valid.antt =====
-- The database's invariant, and what it owes to whoever knew it at an earlier revision.
use tinia.Prelude.{
  ℕ, suc, ◌+◌, ◌^◌, ◌≤◌, ◌<◌, ◌≡◌, inl, inr, String, false, Option, none, some, arith, ◌==◌,
  Option-cases,
}
use tinia.Prelude.IdMap.{IdMap, lookup, put, take_out, lookup-put, lookup-take_out}
use tinia.RenderList.{Item, ItemRef, buffer, shader, action, DataBase, incremented}
use tinia.RenderList.Stored.{IsStored, HasGrown, HasGrown-refl, HasGrown-trans}
use tinia.RenderList.Names.{IsNamed}

abbrev pub name_in : {C : Type 0} → Option (Item C) → Option String
name_in none = none
name_in (some x) = some x.name

-- The name of an item that a pointer leads to.
abbrev pub item_name : DataBase → ItemRef → Option String
item_name d (buffer id) = name_in (lookup id d.buffers)
item_name d (shader id) = name_in (lookup id d.shaders)
item_name d (action id) = name_in (lookup id d.actions)

pub record IsValid (d : DataBase) : Type 0 where
  pub buffers_IsStored : IsStored d.next_id d.current_rev d.buffers
  pub shaders_IsStored : IsStored d.next_id d.current_rev d.shaders
  pub actions_IsStored : IsStored d.next_id d.current_rev d.actions
  pub deleted : d.deletion_rev ≤ d.current_rev
  pub ordered : d.draworder_rev ≤ d.current_rev
  pub processed : d.process_rev ≤ d.current_rev
  pub named : IsNamed d.name_map (item_name d)

-- The counters of ids and revisions can still count to `n` more.
abbrev pub HasRoom : ℕ → DataBase → Type 0
HasRoom n d = (d.next_id + n < 2 ^ 32) × (d.current_rev + n < 2 ^ 32)

pub record Grows (d d2 : DataBase) : Type 0 where
  pub revisions : d.current_rev ≤ d2.current_rev
  pub deletions : d.deletion_rev ≤ d2.deletion_rev
  pub buffers_HasGrown : HasGrown d.current_rev d2.deletion_rev d.buffers d2.buffers
  pub shaders_HasGrown : HasGrown d.current_rev d2.deletion_rev d.shaders d2.shaders
  pub actions_HasGrown : HasGrown d.current_rev d2.deletion_rev d.actions d2.actions

pub Grows-trans : (d d2 d3 : DataBase) → Grows d d2 → Grows d2 d3 → Grows d d3
Grows-trans d d2 d3 g h = record {
  revisions = omega (arith, g.revisions, h.revisions);
  deletions = omega (arith, g.deletions, h.deletions);
  buffers_HasGrown =
      HasGrown-trans d.current_rev d2.current_rev d2.deletion_rev d3.deletion_rev d.buffers
        d2.buffers d3.buffers g.revisions h.deletions g.buffers_HasGrown h.buffers_HasGrown;
  shaders_HasGrown =
      HasGrown-trans d.current_rev d2.current_rev d2.deletion_rev d3.deletion_rev d.shaders
        d2.shaders d3.shaders g.revisions h.deletions g.shaders_HasGrown h.shaders_HasGrown;
  actions_HasGrown =
      HasGrown-trans d.current_rev d2.current_rev d2.deletion_rev d3.deletion_rev d.actions
        d2.actions d3.actions g.revisions h.deletions g.actions_HasGrown h.actions_HasGrown;
}

pub Grows-refl : (d : DataBase) → Grows d d
Grows-refl d = record {
  revisions = omega arith;
  deletions = omega arith;
  buffers_HasGrown = HasGrown-refl d.current_rev d.deletion_rev d.buffers;
  shaders_HasGrown = HasGrown-refl d.current_rev d.deletion_rev d.shaders;
  actions_HasGrown = HasGrown-refl d.current_rev d.deletion_rev d.actions;
}

pub incremented-suc : (n : ℕ) → n + 1 < 2 ^ 32 → incremented n ≡ suc n
incremented-suc n l = omega arith

-- A step keeps the invariant, loses nothing, and moves each counter by one at most.
pub record IsStep (d d2 : DataBase) : Type 0 where
  pub valid : IsValid d2
  pub grows : Grows d d2
  pub ids_bound : d2.next_id ≤ suc d.next_id
  pub revisions_bound : d2.current_rev ≤ suc d.current_rev

-- The names of the items do not depend on a map that keeps them.
pub names-old :
    {C : Type 0} (m : IdMap (Item C)) (id k : ℕ) (x : Item C) (n : String)
    → lookup id m ≡ none
    → name_in (lookup k m) ≡ some n
    → name_in (lookup k (put id x m)) ≡ some n
names-old m id k x n out q = ground (arith, lookup-put id k x m)

pub names-put :
    {C : Type 0} (m : IdMap (Item C)) (id k : ℕ) (x y : Item C) (n : String)
    → lookup id m ≡ some y
    → y.name ≡ x.name
    → name_in (lookup k m) ≡ some n
    → name_in (lookup k (put id x m)) ≡ some n
names-put m id k x y n found same q = grind (arith, lookup-put id k x m)

pub names-take_out :
    {C : Type 0} (m : IdMap (Item C)) (id k : ℕ) (n : String)
    → (k == id) ≡ false
    → name_in (lookup k m) ≡ some n
    → name_in (lookup k (take_out id m)) ≡ some n
names-take_out m id k n other q = ground (arith, lookup-take_out id k m)

-- Nothing stands under the next id.
pub fresh-none :
    {C : Type 0} (next rev : ℕ) (m : IdMap (Item C)) → IsStored next rev m → lookup next m ≡ none
fresh-none next rev m s = elim (Option-cases (lookup next m)) [
  | inl out ↦ out
  | inr (x, found) ↦ grind (arith, s.numbered next x found)
]
