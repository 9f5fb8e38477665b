-- ===== src/RenderList/Changes.antt =====
-- DataBase::changes: what a client that has a revision is sent.
use tinia.Prelude.{ℕ, ltb, not, Bool, List, [], ◌++◌, if◌then◌else◌, map}
use tinia.Prelude.IdMap.{IdMap, ids, select_ids}
use tinia.RenderList.{
  Item, BufferData, ShaderStages, ActionState, ItemRef, buffer, shader, action, DataBase,
}

pub record Changes : Type 0 where
  pub modified_buffers : IdMap (Item BufferData)
  pub modified_shaders : IdMap (Item ShaderStages)
  pub modified_actions : IdMap (Item ActionState)
  pub new_draworder : Bool
  pub draworder : List ℕ
  pub needs_pruning : Bool
  pub keepers : List ItemRef
  pub revision : ℕ

module _ {C : Type 0} where
  -- has_revision < it->second->m_revision
  abbrev pub is_newer : ℕ → Item C → Bool
  is_newer has_revision x = ltb has_revision x.revision

  -- The items of one map that a loop adds to the keepers.
  abbrev pub kept : ℕ → IdMap (Item C) → List ℕ
  kept has_revision items = ids (select_ids (λ x. not (is_newer has_revision x)) items)

-- The list of modified actions is not cleared: `old_actions` is what the caller's list held.
unfoldable pub changes : IdMap (Item ActionState) → ℕ → DataBase → Changes
changes old_actions has_revision d =
    let needs_pruning = ltb has_revision d.deletion_rev in
    let new_draworder = ltb has_revision d.draworder_rev in
    record {
      modified_buffers = select_ids (is_newer has_revision) d.buffers;
      modified_shaders = select_ids (is_newer has_revision) d.shaders;
      modified_actions = old_actions ++ select_ids (is_newer has_revision) d.actions;
      new_draworder = new_draworder;
      draworder = if new_draworder then d.draworder else [];
      needs_pruning = needs_pruning;
      keepers =
          if needs_pruning
          then map buffer (kept has_revision d.buffers)
            ++ map shader (kept has_revision d.shaders)
            ++ map action (kept has_revision d.actions)
          else [];
      revision = d.current_rev;
    }
