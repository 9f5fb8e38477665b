-- ===== src/RenderList/Items.antt =====
-- Items and their names: newId, attachName, detachName, taint, itemDeleted, and the create and delete
-- functions of DataBase.cpp.
use tinia.Prelude.{String, ℕ, Bool, true, Option, none, some, [], if◌then◌else◌, str_eq}
use tinia.Prelude.Map.{Map, find, insert, erase}
use tinia.Prelude.IdMap.{IdMap, lookup, put, take_out}
use tinia.RenderList.{
  Item, BufferData, ShaderStages, ActionState, ItemRef, buffer, shader, action, same_item, DataBase,
  incremented, next_revision, element_float,
}

-- DataBase::attachName: a name in use is reported and keeps its item.
unfoldable pub attach_name : String → ItemRef → Map ItemRef → Map ItemRef
attach_name name item names = elim (find name names) [
  | some other ↦ names
  | none ↦ insert name item names
]

-- DataBase::detachName: a name that is attached to another item is reported and stays.
unfoldable pub detach_name : String → ItemRef → Map ItemRef → Map ItemRef
detach_name name item names = elim (find name names) [
  | none ↦ names
  | some other ↦ if same_item other item then erase name names else names
]

-- if( !name.empty() ) { attachName(..); }, and the same of detachName.
unfoldable pub attach_if_named : String → ItemRef → Map ItemRef → Map ItemRef
attach_if_named name item names = if str_eq name "" then names else attach_name name item names

unfoldable pub detach_if_named : String → ItemRef → Map ItemRef → Map ItemRef
detach_if_named name item names = if str_eq name "" then names else detach_name name item names

-- What newId, the attached name and the taint of a new item do beside the item's own map.
unfoldable pub announce : String → ItemRef → DataBase → DataBase
announce name item d =
    next_revision true (record d {
      next_id = incremented d.next_id;
      name_map = attach_if_named name item d.name_map;
    })

unfoldable pub retract : String → ItemRef → DataBase → DataBase
retract name item d = record d {
  name_map = detach_if_named name item d.name_map;
  current_rev = incremented d.current_rev;
  deletion_rev = incremented d.current_rev;
}

-- A new item, tainted.
abbrev pub new_item : {C : Type 0} → ℕ → String → ℕ → C → Item C
new_item id name rev content = record { id = id; name = name; revision = rev; content = content }

-- Buffer's constructor
abbrev pub new_buffer : BufferData
new_buffer = record { type = element_float; payload = [] }

-- Shader's constructor
abbrev pub new_shader : ShaderStages
new_shader = record { vertex = ""; tess_ctrl = ""; tess_eval = ""; geometry = ""; fragment = "" }

unfoldable pub create_buffer : String → DataBase → DataBase
create_buffer name d = record (announce name (buffer d.next_id) d) {
  buffers =
      put d.next_id (new_item d.next_id name (incremented d.current_rev) new_buffer) d.buffers;
}

unfoldable pub create_shader : String → DataBase → DataBase
create_shader name d = record (announce name (shader d.next_id) d) {
  shaders =
      put d.next_id (new_item d.next_id name (incremented d.current_rev) new_shader) d.shaders;
}

-- DataBase::createAction<T>: `content` is what T's constructor sets.
unfoldable pub create_action : ActionState → String → DataBase → DataBase
create_action content name d = record (announce name (action d.next_id) d) {
  actions = put d.next_id (new_item d.next_id name (incremented d.current_rev) content) d.actions;
}

unfoldable pub delete_buffer : ℕ → DataBase → DataBase
delete_buffer id d = elim (lookup id d.buffers) [
  | none ↦ d
  | some b ↦ record (retract b.name (buffer id) d) { buffers = take_out id d.buffers }
]

unfoldable pub delete_shader : ℕ → DataBase → DataBase
delete_shader id d = elim (lookup id d.shaders) [
  | none ↦ d
  | some s ↦ record (retract s.name (shader id) d) { shaders = take_out id d.shaders }
]

-- The draw order keeps its pointer to the action.
unfoldable pub delete_action : ℕ → DataBase → DataBase
delete_action id d = elim (lookup id d.actions) [
  | none ↦ d
  | some a ↦ record (retract a.name (action id) d) { actions = take_out id d.actions }
]

-- A setter of an item: the pointer's item with other content, tainted. `none` for a pointer to nothing.
module _ {C : Type 0} where
  unfoldable pub retouch : (C → C) → ℕ → ℕ → IdMap (Item C) → Option (IdMap (Item C))
  retouch change rev id items = elim (lookup id items) [
    | none ↦ none
    | some x ↦ some (put id (record x { revision = rev; content = change x.content }) items)
  ]

unfoldable pub change_buffer : (BufferData → BufferData) → ℕ → DataBase → Option DataBase
change_buffer change id d = elim (retouch change (incremented d.current_rev) id d.buffers) [
  | none ↦ none
  | some items ↦ some (record (next_revision true d) { buffers = items })
]

unfoldable pub change_shader : (ShaderStages → ShaderStages) → ℕ → DataBase → Option DataBase
change_shader change id d = elim (retouch change (incremented d.current_rev) id d.shaders) [
  | none ↦ none
  | some items ↦ some (record (next_revision true d) { shaders = items })
]

-- The same for an action. A setter is a member of one class: `none` for a pointer to an action of
-- another. It says whether the draw order is to be thought over again.
unfoldable pub change_action :
    (ActionState → Option (ActionState × Bool)) → ℕ → DataBase → Option DataBase
change_action change id d = elim (lookup id d.actions) [
  | none ↦ none
  | some a ↦ elim (change a.content) [
    | none ↦ none
    | some (content, rethink_draworder) ↦ some (record (next_revision rethink_draworder d) {
      actions =
          put id (record a { revision = incremented d.current_rev; content = content }) d.actions;
    })
  ]
]
