-- ===== src/RenderList/Operations.antt =====
-- The public operations of DataBase and of the items' setters, one after the other.
use tinia.Prelude.{String, ℕ, Bool, Option, none, some, List, [], ◌∷◌}
use tinia.RenderList.{
  BufferData, ShaderStages, ActionState, DataBase, bump, draw_order_clear, draw_order_add,
  draw_order_add_name,
}
use tinia.RenderList.Items.{
  create_buffer, create_shader, create_action, delete_buffer, delete_shader, delete_action,
  change_buffer, change_shader, change_action,
}
use tinia.RenderList.Process.{process}

-- The setters are the last three: each is a change of an item's content, which taints the item.
pub data Operation : Type 0 where
  creates_buffer : String → Operation
  creates_shader : String → Operation
  creates_action : ActionState → String → Operation
  deletes_buffer : ℕ → Operation
  deletes_shader : ℕ → Operation
  deletes_action : ℕ → Operation
  bumps : Operation
  clears_order : Operation
  orders : ℕ → Operation
  orders_name : String → Operation
  processes : Bool → Operation
  sets_buffer : (BufferData → BufferData) → ℕ → Operation
  sets_shader : (ShaderStages → ShaderStages) → ℕ → Operation
  sets_action : (ActionState → Option (ActionState × Bool)) → ℕ → Operation

-- `none` where the operation follows a dangling pointer.
unfoldable pub perform : Operation → DataBase → Option DataBase
perform (creates_buffer name) d = some (create_buffer name d)
perform (creates_shader name) d = some (create_shader name d)
perform (creates_action content name) d = some (create_action content name d)
perform (deletes_buffer id) d = some (delete_buffer id d)
perform (deletes_shader id) d = some (delete_shader id d)
perform (deletes_action id) d = some (delete_action id d)
perform bumps d = some (bump d).1
perform clears_order d = some (draw_order_clear d)
perform (orders id) d = some (draw_order_add id d)
perform (orders_name name) d = some (draw_order_add_name name d)
perform (processes delete_unused) d = elim (process delete_unused d) [
  | none ↦ none
  | some (ok, d2) ↦ some d2
]
perform (sets_buffer change id) d = change_buffer change id d
perform (sets_shader change id) d = change_shader change id d
perform (sets_action change id) d = change_action change id d

unfoldable pub perform_all : List Operation → DataBase → Option DataBase
perform_all [] d = some d
perform_all (o ∷ os) d = elim (perform o d) [ none ↦ none | some d2 ↦ perform_all os d2 ]
