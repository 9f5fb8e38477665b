-- ===== src/Examples/RenderList.antt =====
-- A small scene in a render list's database.
use tinia.Prelude.{
  ◌≡◌, ◌≢◌, ◌↔◌, refl, String, Bool, true, false, none, some, List, [], ◌∷◌, arith, if◌then◌else◌,
  str_eq,
}
use tinia.Prelude.Map.{find, erase, insert}
use tinia.Prelude.IdMap.{lookup, take_out, put}
use tinia.RenderList.{
  DataBase, new_database, draw_order_add_name, buffer, shader, action, set_shader, set_uniforms,
  uniform_float, Uniform, Item, ActionState, next_revision, incremented,
}
use tinia.RenderList.Items.{
  create_shader, create_action, delete_shader, delete_action, new_item, new_shader, new_buffer,
  retract, detach_if_named, detach_name, change_action, announce, attach_if_named, attach_name,
  create_buffer,
}
use tinia.RenderList.Setters.{new_set_shader}
use tinia.RenderList.Setters.Uniforms.{new_uniform}
use tinia.RenderList.Setters.Lookup.{uniform_of, changed, set_on, float1, set_on-uniform_of}
use tinia.RenderList.Process.{process, process_actions, judge}
use tinia.RenderList.Changes.{changes}
use tinia.RenderList.Operations.{
  Operation, creates_shader, creates_action, creates_buffer, deletes_shader, orders_name, processes,
  sets_action, perform, perform_all,
}
use tinia.RenderList.Stored.{IsStored}
use tinia.RenderList.Valid.{IsValid, Grows}
use tinia.RenderList.Grown.{perform_all-IsValid}
use tinia.RenderList.Client.{Client, copy_of, updated, Mirrors, changes-Mirrors}
use tinia.RenderList.Drawable.Answer.{
  OrderIsDrawable, process-OrderIsDrawable, process-new_draworder,
}
use tinia.RenderList.Drawable.Dangling.{Dangles, process-none, process_twice}

new_database-IsValid : IsValid new_database
unfolding lookup find
new_database-IsValid = record {
  buffers_IsStored = nothing;
  shaders_IsStored = nothing;
  actions_IsStored = nothing;
  deleted = omega arith;
  ordered = omega arith;
  processed = omega arith;
  named = λ n i q. grind arith;
}
  where
    nothing : {C : Type 0} → IsStored {C = C} 0 0 []
    nothing = record {
      ascending = tt;
      keyed = λ k x q. grind arith;
      numbered = λ k x q. grind arith;
      dated = λ k x q. grind arith;
    }

-- A shader, an action that sets it, and a draw order that runs it.
abbrev build : List Operation
build =
    creates_shader "phong"
    ∷ creates_action new_set_shader "use"
    ∷ sets_action (λ a. elim a [ set_shader old ↦ some (set_shader 0, true) | _ ↦ none ]) 1
    ∷ orders_name "use"
    ∷ processes false
    ∷ []

abbrev scene : DataBase
scene = record new_database {
  next_id = 2;
  current_rev = 4;
  draworder_rev = 4;
  process_rev = 4;
  name_map = ("phong", shader 0) ∷ ("use", action 1) ∷ [];
  shaders = (0, new_item 0 "phong" 1 new_shader) ∷ [];
  actions = (1, new_item 1 "use" 3 (set_shader 0)) ∷ [];
  draworder = 1 ∷ [];
}

built : perform_all build new_database ≡ some scene
unfolding perform_all perform change_action lookup create_action put create_shader announce process
    process_actions draw_order_add_name find attach_if_named attach_name insert judge
built = refl

perform_all-IsValid_example : IsValid scene × Grows new_database scene
perform_all-IsValid_example =
    perform_all-IsValid build new_database scene new_database-IsValid (omega arith) built

-- The shader goes, and a buffer comes.
abbrev bare : DataBase
bare = record scene {
  next_id = 3;
  current_rev = 6;
  deletion_rev = 5;
  draworder_rev = 6;
  name_map = ("cube", buffer 2) ∷ ("use", action 1) ∷ [];
  buffers = (2, new_item 2 "cube" 6 new_buffer) ∷ [];
  shaders = [];
}

abbrev emptied : DataBase
emptied = record bare { process_rev = 6; draworder = [] }

abbrev replace : List Operation
replace = deletes_shader 0 ∷ creates_buffer "cube" ∷ []

scene-IsValid : IsValid scene
scene-IsValid =
    (perform_all-IsValid build new_database scene new_database-IsValid (omega arith) built).0

replaced : perform_all replace scene ≡ some bare
unfolding perform_all perform create_buffer announce put delete_shader attach_if_named lookup
    attach_name retract find take_out detach_if_named detach_name erase insert
replaced = refl

bare-IsValid : IsValid bare
bare-IsValid = (perform_all-IsValid replace scene bare scene-IsValid (omega arith) replaced).0

bare_processed : process false bare ≡ some (false, emptied)
unfolding process process_actions lookup judge put
bare_processed = refl

-- A client that has seen the scene.
abbrev viewer : Client
viewer = record {
  buffers_of = λ k. copy_of (lookup k scene.buffers);
  shaders_of = λ k. copy_of (lookup k scene.shaders);
  actions_of = λ k. copy_of (lookup k scene.actions);
}

changes-Mirrors_example : Mirrors (updated (changes [] 4 bare) viewer) bare
changes-Mirrors_example =
    changes-Mirrors replace scene bare viewer scene-IsValid (omega arith) replaced
      (record { buffers_same = λ k. refl; shaders_same = λ k. refl; actions_same = λ k. refl })

process-OrderIsDrawable_example :
    OrderIsDrawable emptied
    × ((false ≡ true) ↔ OrderIsDrawable bare)
    × (false ≡ true → emptied.draworder ≡ bare.draworder)
process-OrderIsDrawable_example =
    process-OrderIsDrawable false false bare emptied bare-IsValid bare_processed

process-new_draworder_example :
    (emptied.draworder ≢ bare.draworder) × ((changes [] 6 emptied).new_draworder ≡ false)
process-new_draworder_example =
    process-new_draworder false bare emptied 6 bare-IsValid bare_processed (omega arith)

process_twice_example :
    (d3 : DataBase) × (process false emptied ≡ some (true, d3)) × (d3.draworder ≡ [])
process_twice_example = process_twice false false bare emptied bare-IsValid bare_processed

-- The scene without the action that its draw order names.
process-none_example :
    (process false (delete_action 1 scene) ≡ none)
    ↔ Dangles (delete_action 1 scene).draworder (delete_action 1 scene).actions
process-none_example = process-none false (delete_action 1 scene)

dangling_scene : process false (delete_action 1 scene) ≡ none
unfolding process process_actions lookup delete_action take_out retract detach_if_named detach_name
    find erase
dangling_scene = refl

abbrev shininess : Uniform
shininess = new_uniform "shininess"

abbrev shining : Item ActionState
shining = record { id = 1; name = ""; revision = 1; content = set_uniforms 0 (shininess ∷ []) }

abbrev shiny : DataBase
shiny = record new_database { actions = put 1 shining [] }

shining-found : lookup 1 shiny.actions ≡ some shining
unfolding lookup put
shining-found = refl

set_on-uniform_of_example :
    (us2 : List Uniform) × (rethink : Bool) × (set_on (float1 7) 1 "shininess" shiny
      ≡ some (record (next_revision rethink shiny) {
        actions =
            put 1
              (record shining { revision = incremented 0; content = set_uniforms 0 us2 })
              shiny.actions;
      }))
    × ((s : String)
        → uniform_of s us2 ≡ (
            if str_eq "shininess" s
            then some (changed uniform_float (7 ∷ []) "shininess" shininess)
            else uniform_of s (shininess ∷ [])))
    × (rethink ≡ true)
set_on-uniform_of_example =
    set_on-uniform_of (float1 7) 1 "shininess" shiny shining 0 (shininess ∷ []) shining-found refl
