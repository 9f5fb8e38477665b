-- ===== src/RenderList/Steps.antt =====
-- Every public operation of the database is a step: it keeps the invariant and loses nothing.
pub mod Deletes
pub mod Changes
pub mod Orders
use tinia.Prelude.{
  ℕ, suc, ◌+◌, ◌^◌, ◌≤◌, ◌<◌, ◌≡◌, refl, sym, ap, ◌∙◌, inl, inr, String, Bool, true, false, Option,
  none, some, List, [], ◌∷◌, arith, if◌then◌else◌, ◌==◌, Option-cases, str_eq,
}
use tinia.Prelude.IdMap.{IdMap, lookup, put, take_out, lookup-put, lookup-take_out}
use tinia.RenderList.{
  Item, BufferData, ShaderStages, ActionState, ItemRef, buffer, shader, action, same_item, DataBase,
  incremented, next_revision,
}
use tinia.RenderList.Items.{
  create_buffer, create_shader, create_action, delete_buffer, delete_shader, delete_action, retouch,
  change_buffer, change_shader, change_action, announce, retract, new_item, new_buffer, new_shader,
  attach_if_named, detach_if_named,
}
use tinia.RenderList.Stored.{
  IsStored, IsStored-mono, put-IsStored, take_out-IsStored, HasGrown, HasGrown-refl, put-HasGrown,
  take_out-HasGrown,
}
use tinia.RenderList.Names.{IsNamed, attach_if_named-IsNamed, detach_if_named-IsNamed}
use tinia.RenderList.Valid.{
  name_in, item_name, IsValid, HasRoom, Grows, IsStep, incremented-suc, names-old, names-put,
  names-take_out, fresh-none,
}

abbrev NamesStay : {C : Type 0} → IdMap (Item C) → IdMap (Item C) → Type 0
NamesStay m m2 =
    (k : ℕ) (n : String) → name_in (lookup k m) ≡ some n → name_in (lookup k m2) ≡ some n

NamesStay-refl : {C : Type 0} (m : IdMap (Item C)) → NamesStay m m
NamesStay-refl m k n q = q

item_name-old :
    (d d2 : DataBase)
    → NamesStay d.buffers d2.buffers
    → NamesStay d.shaders d2.shaders
    → NamesStay d.actions d2.actions
    → (i : ItemRef) (n : String) → item_name d i ≡ some n
    → item_name d2 i ≡ some n
item_name-old d d2 b s a (buffer id) n q = b id n q
item_name-old d d2 b s a (shader id) n q = s id n q
item_name-old d d2 b s a (action id) n q = a id n q

name_in-new :
    {C : Type 0} (m : IdMap (Item C)) (id : ℕ) (x : Item C)
    → name_in (lookup id (put id x m)) ≡ some x.name
name_in-new m id x = ground (arith, lookup-put id id x m)

-- The counters of a step: each counts on by one at most, and the dates stay behind the revision.
record Counts (d d2 : DataBase) : Type 0 where
  ids : (d.next_id ≤ d2.next_id) × (d2.next_id ≤ suc d.next_id)
  revisions : (d.current_rev ≤ d2.current_rev) × (d2.current_rev ≤ suc d.current_rev)
  deletions : (d.deletion_rev ≤ d2.deletion_rev) × (d2.deletion_rev ≤ d2.current_rev)
  dates : (d2.draworder_rev ≤ d2.current_rev) × (d2.process_rev ≤ d2.current_rev)

-- One map of a step.
abbrev Moves : {C : Type 0} → DataBase → DataBase → IdMap (Item C) → IdMap (Item C) → Type 0
Moves d d2 m m2 =
    IsStored d2.next_id d2.current_rev m2 × HasGrown d.current_rev d2.deletion_rev m m2

make-IsStep :
    (d d2 : DataBase)
    → Counts d d2
    → Moves d d2 d.buffers d2.buffers
    → Moves d d2 d.shaders d2.shaders
    → Moves d d2 d.actions d2.actions
    → IsNamed d2.name_map (item_name d2)
    → IsStep d d2
make-IsStep d d2 c b s a n = record {
  valid = record {
    buffers_IsStored = b.0;
    shaders_IsStored = s.0;
    actions_IsStored = a.0;
    deleted = c.deletions.1;
    ordered = c.dates.0;
    processed = c.dates.1;
    named = n;
  };
  grows = record {
    revisions = c.revisions.0;
    deletions = c.deletions.0;
    buffers_HasGrown = b.1;
    shaders_HasGrown = s.1;
    actions_HasGrown = a.1;
  };
  ids_bound = c.ids.1;
  revisions_bound = c.revisions.1;
}

module _ {C : Type 0} (d d2 : DataBase) (c : Counts d d2) (m : IdMap (Item C))
    (s : IsStored d.next_id d.current_rev m) where
  kept-IsStored : IsStored d2.next_id d2.current_rev m
  kept-IsStored =
      IsStored-mono d.next_id d2.next_id d.current_rev d2.current_rev m c.ids.0 c.revisions.0 s

  kept-Moves : Moves d d2 m m
  kept-Moves = (kept-IsStored, HasGrown-refl d.current_rev d2.deletion_rev m)

  -- A new item, or one that a setter taints.
  put-Moves :
      (k : ℕ) (x : Item C)
      → x.id ≡ k
      → k < d2.next_id
      → x.revision ≡ d2.current_rev
      → d.current_rev < d2.current_rev
      → Moves d d2 m (put k x m)
  put-Moves k x q l r l2 = (
    put-IsStored d2.next_id d2.current_rev k m x kept-IsStored q l (omega arith),
    put-HasGrown d.current_rev d2.deletion_rev k m x (omega arith),
  )

  take_out-Moves : (k : ℕ) → d.current_rev < d2.deletion_rev → Moves d d2 m (take_out k m)
  take_out-Moves k l = (
    take_out-IsStored d2.next_id d2.current_rev k m kept-IsStored,
    take_out-HasGrown d.current_rev d2.deletion_rev k m l,
  )

module _ (d : DataBase) (v : IsValid d) (room : HasRoom 1 d) where
  rev-suc : incremented d.current_rev ≡ suc d.current_rev
  rev-suc = incremented-suc d.current_rev room.1

  id-suc : incremented d.next_id ≡ suc d.next_id
  id-suc = incremented-suc d.next_id room.0

  create_buffer-Counts : (name : String) → Counts d (create_buffer name d)
  unfolding create_buffer announce
  create_buffer-Counts name = record {
    ids = omega (arith, id-suc);
    revisions = omega (arith, rev-suc);
    deletions = omega (arith, rev-suc, v.deleted);
    dates = omega (arith, rev-suc, v.processed);
  }

  pub create_buffer-IsStep : (name : String) → IsStep d (create_buffer name d)
  unfolding create_buffer announce
  create_buffer-IsStep name =
      let d2 = create_buffer name d in
      let c = create_buffer-Counts name in
      let x = new_item d.next_id name (incremented d.current_rev) new_buffer in
      make-IsStep d d2 c
        (put-Moves d d2 c d.buffers v.buffers_IsStored d.next_id x refl (omega (arith, id-suc)) refl
          (omega (arith, rev-suc)))
        (kept-Moves d d2 c d.shaders v.shaders_IsStored)
        (kept-Moves d d2 c d.actions v.actions_IsStored)
        (attach_if_named-IsNamed d.name_map (item_name d) (item_name d2) name (buffer d.next_id)
          v.named (name_in-new d.buffers d.next_id x)
          (item_name-old d d2
            (λ k n.
              names-old d.buffers d.next_id k x n
                (fresh-none d.next_id d.current_rev d.buffers v.buffers_IsStored))
            (NamesStay-refl d.shaders) (NamesStay-refl d.actions)))

  create_shader-Counts : (name : String) → Counts d (create_shader name d)
  unfolding create_shader announce
  create_shader-Counts name = record {
    ids = omega (arith, id-suc);
    revisions = omega (arith, rev-suc);
    deletions = omega (arith, rev-suc, v.deleted);
    dates = omega (arith, rev-suc, v.processed);
  }

  pub create_shader-IsStep : (name : String) → IsStep d (create_shader name d)
  unfolding create_shader announce
  create_shader-IsStep name =
      let d2 = create_shader name d in
      let c = create_shader-Counts name in
      let x = new_item d.next_id name (incremented d.current_rev) new_shader in
      make-IsStep d d2 c (kept-Moves d d2 c d.buffers v.buffers_IsStored)
        (put-Moves d d2 c d.shaders v.shaders_IsStored d.next_id x refl (omega (arith, id-suc)) refl
          (omega (arith, rev-suc)))
        (kept-Moves d d2 c d.actions v.actions_IsStored)
        (attach_if_named-IsNamed d.name_map (item_name d) (item_name d2) name (shader d.next_id)
          v.named (name_in-new d.shaders d.next_id x)
          (item_name-old d d2 (NamesStay-refl d.buffers)
            (λ k n.
              names-old d.shaders d.next_id k x n
                (fresh-none d.next_id d.current_rev d.shaders v.shaders_IsStored))
            (NamesStay-refl d.actions)))

  create_action-Counts :
      (content : ActionState) (name : String) → Counts d (create_action content name d)
  unfolding create_action announce
  create_action-Counts content name = record {
    ids = omega (arith, id-suc);
    revisions = omega (arith, rev-suc);
    deletions = omega (arith, rev-suc, v.deleted);
    dates = omega (arith, rev-suc, v.processed);
  }

  pub create_action-IsStep :
      (content : ActionState) (name : String) → IsStep d (create_action content name d)
  unfolding create_action announce
  create_action-IsStep content name =
      let d2 = create_action content name d in
      let c = create_action-Counts content name in
      let x = new_item d.next_id name (incremented d.current_rev) content in
      make-IsStep d d2 c (kept-Moves d d2 c d.buffers v.buffers_IsStored)
        (kept-Moves d d2 c d.shaders v.shaders_IsStored)
        (put-Moves d d2 c d.actions v.actions_IsStored d.next_id x refl (omega (arith, id-suc)) refl
          (omega (arith, rev-suc)))
        (attach_if_named-IsNamed d.name_map (item_name d) (item_name d2) name (action d.next_id)
          v.named (name_in-new d.actions d.next_id x)
          (item_name-old d d2 (NamesStay-refl d.buffers) (NamesStay-refl d.shaders) (λ k n.
            names-old d.actions d.next_id k x n
              (fresh-none d.next_id d.current_rev d.actions v.actions_IsStored))))
