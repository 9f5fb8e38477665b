-- ===== src/RenderList/Steps/Changes.antt =====
-- The setters are steps.
use tinia.Prelude.{
  ℕ, ◌≡◌, refl, inl, inr, Bool, true, Option, some, arith, if◌then◌else◌, Option-cases, subst,
}
use tinia.Prelude.IdMap.{lookup, put}
use tinia.RenderList.{
  Item, BufferData, ShaderStages, ActionState, DataBase, incremented, next_revision,
}
use tinia.RenderList.Items.{retouch, change_buffer, change_shader, change_action}
use tinia.RenderList.Valid.{IsValid, HasRoom, IsStep, names-put}
use tinia.RenderList.Steps.{
  Counts, make-IsStep, kept-Moves, put-Moves, rev-suc, NamesStay-refl, item_name-old,
}

-- An item as its setter leaves it.
abbrev retouched : {C : Type 0} → DataBase → Item C → C → Item C
retouched d x content = record x { revision = incremented d.current_rev; content = content }

module _ (d : DataBase) (v : IsValid d) (room : HasRoom 1 d) where
  next_revision-Counts :
      (rethink : Bool) (d2 : DataBase)
      → d2.next_id ≡ d.next_id
      → d2.current_rev ≡ incremented d.current_rev
      → d2.deletion_rev ≡ d.deletion_rev
      → d2.draworder_rev ≡ (if rethink then incremented d.current_rev else d.draworder_rev)
      → d2.process_rev ≡ d.process_rev
      → Counts d d2
  next_revision-Counts rethink d2 a b c e f = record {
    ids = omega arith;
    revisions = omega (arith, rev-suc d v room);
    deletions = omega (arith, rev-suc d v room, v.deleted);
    dates = ground (arith, rev-suc d v room, v.ordered, v.processed);
  }

  changed_buffer-IsStep :
      (id : ℕ) (x : Item BufferData) (content : BufferData)
      → lookup id d.buffers ≡ some x
      → IsStep d
          (record (next_revision true d) { buffers = put id (retouched d x content) d.buffers })
  changed_buffer-IsStep id x content q =
      let d2 = record (next_revision true d) {
        buffers = put id (retouched d x content) d.buffers;
      } in
      let c = next_revision-Counts true d2 refl refl refl refl refl in
      make-IsStep d d2 c
        (put-Moves d d2 c d.buffers v.buffers_IsStored id (retouched d x content)
          (v.buffers_IsStored.keyed id x q) (v.buffers_IsStored.numbered id x q) refl
          (omega (arith, rev-suc d v room)))
        (kept-Moves d d2 c d.shaders v.shaders_IsStored)
        (kept-Moves d d2 c d.actions v.actions_IsStored)
        (λ n i p. (
          item_name-old d d2 (λ k m. names-put d.buffers id k (retouched d x content) x m q refl)
              (NamesStay-refl d.shaders) (NamesStay-refl d.actions) i n (v.named n i p).0,
          (v.named n i p).1,
        ))

  changed_shader-IsStep :
      (id : ℕ) (x : Item ShaderStages) (content : ShaderStages)
      → lookup id d.shaders ≡ some x
      → IsStep d
          (record (next_revision true d) { shaders = put id (retouched d x content) d.shaders })
  changed_shader-IsStep id x content q =
      let d2 = record (next_revision true d) {
        shaders = put id (retouched d x content) d.shaders;
      } in
      let c = next_revision-Counts true d2 refl refl refl refl refl in
      make-IsStep d d2 c (kept-Moves d d2 c d.buffers v.buffers_IsStored)
        (put-Moves d d2 c d.shaders v.shaders_IsStored id (retouched d x content)
          (v.shaders_IsStored.keyed id x q) (v.shaders_IsStored.numbered id x q) refl
          (omega (arith, rev-suc d v room)))
        (kept-Moves d d2 c d.actions v.actions_IsStored)
        (λ n i p. (
          item_name-old d d2 (NamesStay-refl d.buffers)
              (λ k m. names-put d.shaders id k (retouched d x content) x m q refl)
              (NamesStay-refl d.actions) i n (v.named n i p).0,
          (v.named n i p).1,
        ))

  changed_action-IsStep :
      (rethink : Bool) (id : ℕ) (x : Item ActionState) (content : ActionState)
      → lookup id d.actions ≡ some x
      → IsStep d
          (record (next_revision rethink d) { actions = put id (retouched d x content) d.actions })
  changed_action-IsStep rethink id x content q =
      let d2 = record (next_revision rethink d) {
        actions = put id (retouched d x content) d.actions;
      } in
      let c = next_revision-Counts rethink d2 refl refl refl refl refl in
      make-IsStep d d2 c (kept-Moves d d2 c d.buffers v.buffers_IsStored)
        (kept-Moves d d2 c d.shaders v.shaders_IsStored)
        (put-Moves d d2 c d.actions v.actions_IsStored id (retouched d x content)
          (v.actions_IsStored.keyed id x q) (v.actions_IsStored.numbered id x q) refl
          (omega (arith, rev-suc d v room)))
        (λ n i p. (
          item_name-old d d2 (NamesStay-refl d.buffers) (NamesStay-refl d.shaders)
              (λ k m. names-put d.actions id k (retouched d x content) x m q refl) i n
              (v.named n i p).0,
          (v.named n i p).1,
        ))

  pub change_buffer-IsStep :
      (change : BufferData → BufferData) (id : ℕ) (d2 : DataBase)
      → change_buffer change id d ≡ some d2
      → IsStep d d2
  unfolding change_buffer retouch
  change_buffer-IsStep change id d2 q = elim (Option-cases (lookup id d.buffers)) [
    | inl out ↦ grind arith
    | inr (x, found) ↦
        subst (IsStep d) (grind arith) (changed_buffer-IsStep id x (change x.content) found)
  ]

  pub change_shader-IsStep :
      (change : ShaderStages → ShaderStages) (id : ℕ) (d2 : DataBase)
      → change_shader change id d ≡ some d2
      → IsStep d d2
  unfolding change_shader retouch
  change_shader-IsStep change id d2 q = elim (Option-cases (lookup id d.shaders)) [
    | inl out ↦ grind arith
    | inr (x, found) ↦
        subst (IsStep d) (grind arith) (changed_shader-IsStep id x (change x.content) found)
  ]

  pub change_action-IsStep :
      (change : ActionState → Option (ActionState × Bool)) (id : ℕ) (d2 : DataBase)
      → change_action change id d ≡ some d2
      → IsStep d d2
  unfolding change_action
  change_action-IsStep change id d2 q = elim (Option-cases (lookup id d.actions)) [
    | inl out ↦ grind arith
    | inr (x, found) ↦ elim (Option-cases (change x.content)) [
      | inl refused ↦ grind arith
      | inr ((content, rethink), made) ↦
          subst (IsStep d) (grind arith) (changed_action-IsStep rethink id x content found)
    ]
  ]
