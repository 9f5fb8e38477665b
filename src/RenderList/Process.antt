-- ===== src/RenderList/Process.antt =====
-- DataBase::process: the pass over the draw order.
use tinia.Prelude.{
  ℕ, ltb, ◌==◌, Bool, true, false, Option, none, some, List, [], ◌∷◌, if◌then◌else◌,
}
use tinia.Prelude.IdMap.{IdMap, lookup, put}
use tinia.RenderList.{
  Item, BufferData, element_int, element_float, ShaderStages, Input, ActionState, set_shader,
  set_inputs, set_uniforms, draw, DataBase, undefined_id,
}

-- What a pass makes of an action: its revision, and for one that stays the current shader after it.
pub data Verdict : Type 0 where
  stays : ℕ → ℕ → Verdict
  broken : ℕ → Verdict

-- if( a->m_revision < x->m_revision ) a->m_revision = x->m_revision;
abbrev pub tainted : ℕ → ℕ → ℕ
tainted rev other = if ltb rev other then other else rev

-- The loop over the inputs of a SetInputs: success, and the action's revision.
unfoldable pub check_inputs : IdMap (Item BufferData) → List Input → ℕ → Bool × ℕ
check_inputs buffers [] rev = (true, rev)
check_inputs buffers (i ∷ is) rev =
    if i.buffer == undefined_id
    then (false, (check_inputs buffers is rev).1)
    else elim (lookup i.buffer buffers) [
      | none ↦ (false, (check_inputs buffers is rev).1)
      | some b ↦ check_inputs buffers is (tainted rev b.revision)
    ]

-- One iteration's decision about an action at revision `rev`, while `curr_shader` is set.
module _ (buffers : IdMap (Item BufferData)) (shaders : IdMap (Item ShaderStages)) where
  unfoldable pub judge : ℕ → ℕ → ActionState → Verdict
  judge curr_shader rev (set_shader id) =
      if id == undefined_id then broken rev else elim (lookup id shaders) [
        | none ↦ broken rev
        | some s ↦ stays (tainted rev s.revision) s.id
      ]
  judge curr_shader rev (set_uniforms id us) =
      if id == undefined_id
      then broken rev
      else if id == curr_shader
      then elim (lookup id shaders) [
        | none ↦ broken rev
        | some s ↦ stays (tainted rev s.revision) curr_shader
      ]
      else broken rev
  judge curr_shader rev (set_inputs id inputs) =
      if id == undefined_id
      then broken rev
      else if id == curr_shader
      then (let checked = check_inputs buffers inputs rev in
          if checked.0 then stays checked.1 curr_shader else broken checked.1)
      else broken rev
  judge curr_shader rev (draw type indices first count) =
      if indices == undefined_id
      then stays rev curr_shader
      else if curr_shader == undefined_id
      then broken rev
      else elim (lookup indices buffers) [
        | none ↦ broken rev
        | some b ↦ elim b.content.type [
          | element_float ↦ broken rev
          | element_int ↦ stays (tainted rev b.revision) curr_shader
        ]
      ]
  judge curr_shader rev other = stays rev curr_shader

-- What the loop leaves: the actions with their revisions, the new draw order, and the answer.
pub record Pass : Type 0 where
  pub actions : IdMap (Item ActionState)
  pub draw_order : List ℕ
  pub retval : Bool

abbrev pub keep_action : ℕ → Option Pass → Option Pass
keep_action id none = none
keep_action id (some pass) = some (record pass { draw_order = id ∷ pass.draw_order })

abbrev pub drop_action : Option Pass → Option Pass
drop_action none = none
drop_action (some pass) = some (record pass { retval = false })

-- The loop. `none`: it follows a pointer to an action that is deleted.
module _ (buffers : IdMap (Item BufferData)) (shaders : IdMap (Item ShaderStages)) where
  unfoldable pub process_actions : List ℕ → ℕ → IdMap (Item ActionState) → Option Pass
  process_actions [] curr_shader actions =
      some (record { actions = actions; draw_order = []; retval = true })
  process_actions (id ∷ ids) curr_shader actions = elim (lookup id actions) [
    | none ↦ none
    | some a ↦ elim (judge buffers shaders curr_shader a.revision a.content) [
      | stays rev shader_id ↦
          keep_action id
            (process_actions ids shader_id (put id (record a { revision = rev }) actions))
      | broken rev ↦
          drop_action
            (process_actions ids curr_shader (put id (record a { revision = rev }) actions))
    ]
  ]

-- DataBase::process. Its argument fills `in_use`, which nothing reads.
unfoldable pub process : Bool → DataBase → Option (Bool × DataBase)
process delete_unused d =
    elim (process_actions d.buffers d.shaders d.draworder undefined_id d.actions) [
      | none ↦ none
      | some pass ↦ some (
        pass.retval,
        record d {
          actions = pass.actions;
          draworder = pass.draw_order;
          process_rev = d.current_rev;
        },
      )
    ]
