-- ===== src/RenderList/Steps/Deletes.antt =====
-- Deletions are steps.
use tinia.Prelude.{ℕ, ◌≡◌, refl, sym, ap, inl, inr, String, false, some, arith, Option-cases, subst}
use tinia.Prelude.IdMap.{lookup, take_out}
use tinia.RenderList.{
  Item, BufferData, ShaderStages, ActionState, ItemRef, buffer, shader, action, same_item, DataBase,
  incremented,
}
use tinia.RenderList.Items.{delete_buffer, delete_shader, delete_action, retract}
use tinia.RenderList.Names.{detach_if_named-IsNamed}
use tinia.RenderList.Valid.{
  name_in, item_name, IsValid, HasRoom, Grows-refl, IsStep, names-take_out,
}
use tinia.RenderList.Steps.{Counts, make-IsStep, kept-Moves, take_out-Moves, rev-suc}

pub refl-IsStep : (d : DataBase) → IsValid d → IsStep d d
refl-IsStep d v = record {
  valid = v;
  grows = Grows-refl d;
  ids_bound = omega arith;
  revisions_bound = omega arith;
}

-- The database after `retract`, with the maps that remain.
module _ (d : DataBase) (v : IsValid d) (room : HasRoom 1 d) where
  retract-Counts :
      (d2 : DataBase)
      → d2.next_id ≡ d.next_id
      → d2.current_rev ≡ incremented d.current_rev
      → d2.deletion_rev ≡ incremented d.current_rev
      → d2.draworder_rev ≡ d.draworder_rev
      → d2.process_rev ≡ d.process_rev
      → Counts d d2
  retract-Counts d2 a b c e f = record {
    ids = omega arith;
    revisions = omega (arith, rev-suc d v room);
    deletions = omega (arith, rev-suc d v room, v.deleted);
    dates = omega (arith, rev-suc d v room, v.ordered, v.processed);
  }

  delete_buffer-some :
      (id : ℕ) (b : Item BufferData)
      → lookup id d.buffers ≡ some b
      → delete_buffer id d
        ≡ record (retract b.name (buffer id) d) { buffers = take_out id d.buffers }
  unfolding delete_buffer
  delete_buffer-some id b q = grind arith

  deleted_buffer-names :
      (id : ℕ) (name : String) (i : ItemRef) (n : String)
      → same_item i (buffer id) ≡ false
      → item_name d i ≡ some n
      → item_name (record (retract name (buffer id) d) { buffers = take_out id d.buffers }) i
        ≡ some n
  unfolding retract
  deleted_buffer-names id name (buffer k) n other q = names-take_out d.buffers id k n other q
  deleted_buffer-names id name (shader k) n other q = q
  deleted_buffer-names id name (action k) n other q = q

  deleted_buffer-IsStep :
      (id : ℕ) (b : Item BufferData)
      → lookup id d.buffers ≡ some b
      → IsStep d (record (retract b.name (buffer id) d) { buffers = take_out id d.buffers })
  unfolding retract
  deleted_buffer-IsStep id b q =
      let d2 = record (retract b.name (buffer id) d) { buffers = take_out id d.buffers } in
      let c = retract-Counts d2 refl refl refl refl refl in
      make-IsStep d d2 c
        (take_out-Moves d d2 c d.buffers v.buffers_IsStored id (omega (arith, rev-suc d v room)))
        (kept-Moves d d2 c d.shaders v.shaders_IsStored)
        (kept-Moves d d2 c d.actions v.actions_IsStored)
        (detach_if_named-IsNamed d.name_map (item_name d) (item_name d2) b.name (buffer id) v.named
          (ap name_in q) (λ i n. deleted_buffer-names id b.name i n))

  pub delete_buffer-IsStep : (id : ℕ) → IsStep d (delete_buffer id d)
  unfolding delete_buffer
  delete_buffer-IsStep id = elim (Option-cases (lookup id d.buffers)) [
    | inl out ↦ subst (IsStep d) (grind arith) (refl-IsStep d v)
    | inr (b, found) ↦
        subst (IsStep d) (sym (delete_buffer-some id b found)) (deleted_buffer-IsStep id b found)
  ]

  delete_shader-some :
      (id : ℕ) (s : Item ShaderStages)
      → lookup id d.shaders ≡ some s
      → delete_shader id d
        ≡ record (retract s.name (shader id) d) { shaders = take_out id d.shaders }
  unfolding delete_shader
  delete_shader-some id s q = grind arith

  deleted_shader-names :
      (id : ℕ) (name : String) (i : ItemRef) (n : String)
      → same_item i (shader id) ≡ false
      → item_name d i ≡ some n
      → item_name (record (retract name (shader id) d) { shaders = take_out id d.shaders }) i
        ≡ some n
  unfolding retract
  deleted_shader-names id name (buffer k) n other q = q
  deleted_shader-names id name (shader k) n other q = names-take_out d.shaders id k n other q
  deleted_shader-names id name (action k) n other q = q

  deleted_shader-IsStep :
      (id : ℕ) (s : Item ShaderStages)
      → lookup id d.shaders ≡ some s
      → IsStep d (record (retract s.name (shader id) d) { shaders = take_out id d.shaders })
  unfolding retract
  deleted_shader-IsStep id s q =
      let d2 = record (retract s.name (shader id) d) { shaders = take_out id d.shaders } in
      let c = retract-Counts d2 refl refl refl refl refl in
      make-IsStep d d2 c (kept-Moves d d2 c d.buffers v.buffers_IsStored)
        (take_out-Moves d d2 c d.shaders v.shaders_IsStored id (omega (arith, rev-suc d v room)))
        (kept-Moves d d2 c d.actions v.actions_IsStored)
        (detach_if_named-IsNamed d.name_map (item_name d) (item_name d2) s.name (shader id) v.named
          (ap name_in q) (λ i n. deleted_shader-names id s.name i n))

  pub delete_shader-IsStep : (id : ℕ) → IsStep d (delete_shader id d)
  unfolding delete_shader
  delete_shader-IsStep id = elim (Option-cases (lookup id d.shaders)) [
    | inl out ↦ subst (IsStep d) (grind arith) (refl-IsStep d v)
    | inr (b, found) ↦
        subst (IsStep d) (sym (delete_shader-some id b found)) (deleted_shader-IsStep id b found)
  ]

  delete_action-some :
      (id : ℕ) (a : Item ActionState)
      → lookup id d.actions ≡ some a
      → delete_action id d
        ≡ record (retract a.name (action id) d) { actions = take_out id d.actions }
  unfolding delete_action
  delete_action-some id a q = grind arith

  deleted_action-names :
      (id : ℕ) (name : String) (i : ItemRef) (n : String)
      → same_item i (action id) ≡ false
      → item_name d i ≡ some n
      → item_name (record (retract name (action id) d) { actions = take_out id d.actions }) i
        ≡ some n
  unfolding retract
  deleted_action-names id name (buffer k) n other q = q
  deleted_action-names id name (shader k) n other q = q
  deleted_action-names id name (action k) n other q = names-take_out d.actions id k n other q

  deleted_action-IsStep :
      (id : ℕ) (a : Item ActionState)
      → lookup id d.actions ≡ some a
      → IsStep d (record (retract a.name (action id) d) { actions = take_out id d.actions })
  unfolding retract
  deleted_action-IsStep id a q =
      let d2 = record (retract a.name (action id) d) { actions = take_out id d.actions } in
      let c = retract-Counts d2 refl refl refl refl refl in
      make-IsStep d d2 c (kept-Moves d d2 c d.buffers v.buffers_IsStored)
        (kept-Moves d d2 c d.shaders v.shaders_IsStored)
        (take_out-Moves d d2 c d.actions v.actions_IsStored id (omega (arith, rev-suc d v room)))
        (detach_if_named-IsNamed d.name_map (item_name d) (item_name d2) a.name (action id) v.named
          (ap name_in q) (λ i n. deleted_action-names id a.name i n))

  pub delete_action-IsStep : (id : ℕ) → IsStep d (delete_action id d)
  unfolding delete_action
  delete_action-IsStep id = elim (Option-cases (lookup id d.actions)) [
    | inl out ↦ subst (IsStep d) (grind arith) (refl-IsStep d v)
    | inr (b, found) ↦
        subst (IsStep d) (sym (delete_action-some id b found)) (deleted_action-IsStep id b found)
  ]
