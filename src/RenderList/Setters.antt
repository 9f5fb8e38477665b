-- ===== src/RenderList/Setters.antt =====
-- The setters of the items: Buffer.cpp, Shader.hpp, Draw.hpp, SetShader.hpp, SetInputs.hpp and the
-- headers of the actions that hold only state. SetUniforms stands in a child.
pub mod Uniforms
pub mod Lookup
use tinia.Prelude.{
  String, ℕ, zero, suc, Bool, true, false, Option, none, some, List, [], ◌∷◌, ◌++◌, ◌==◌,
  if◌then◌else◌,
}
use tinia.RenderList.{
  BufferData, ShaderStages, Input, Light, ViewCoordSys, PixelState, ActionState, set_shader,
  set_inputs, set_uniforms, draw, set_framebuffer, set_framebuffer_state, set_light,
  set_local_coord_sys, set_view_coord_sys, set_pixel_state, set_raster_state, ItemRef, buffer,
  shader, action, DataBase, item_by_name, element_int, element_float, undefined_id, PrimitiveType,
  primitive_points, LightType, light_ambient, DepthFunc, depth_func_less, BlendFunc, blend_func_one,
  blend_func_zero,
}
use tinia.RenderList.Items.{change_buffer, change_shader, change_action}

-- DataBase::castedItemByName, for the classes that the setters look up.
abbrev pub buffer_by_name : String → DataBase → Option ℕ
buffer_by_name name d = elim (item_by_name name d) [ some (buffer id) ↦ some id | _ ↦ none ]

abbrev pub shader_by_name : String → DataBase → Option ℕ
shader_by_name name d = elim (item_by_name name d) [ some (shader id) ↦ some id | _ ↦ none ]

-- The setters that take a name do nothing where it finds no item of the class.
abbrev pub if_found : Option ℕ → (ℕ → DataBase → Option DataBase) → DataBase → Option DataBase
if_found none f d = some d
if_found (some id) f d = f id d

-- std::copy( v, v+n, .. ): the first words of an array.
unfoldable pub copied : ℕ → List ℕ → List ℕ
copied zero v = []
copied (suc n) [] = []
copied (suc n) (x ∷ v) = x ∷ copied n v

-- Buffer::set
abbrev pub set_float_data : ℕ → List ℕ → ℕ → DataBase → Option DataBase
set_float_data id words count =
    change_buffer (λ b. record { type = element_float; payload = copied count words }) id

abbrev pub set_int_data : ℕ → List ℕ → ℕ → DataBase → Option DataBase
set_int_data id words count =
    change_buffer (λ b. record { type = element_int; payload = copied count words }) id

-- Shader
abbrev pub set_vertex_stage : ℕ → String → DataBase → Option DataBase
set_vertex_stage id src = change_shader (λ s. record s { vertex = src }) id

abbrev pub set_tess_ctrl_stage : ℕ → String → DataBase → Option DataBase
set_tess_ctrl_stage id src = change_shader (λ s. record s { tess_ctrl = src }) id

abbrev pub set_tess_eval_stage : ℕ → String → DataBase → Option DataBase
set_tess_eval_stage id src = change_shader (λ s. record s { tess_eval = src }) id

abbrev pub set_geometry_stage : ℕ → String → DataBase → Option DataBase
set_geometry_stage id src = change_shader (λ s. record s { geometry = src }) id

abbrev pub set_fragment_stage : ℕ → String → DataBase → Option DataBase
set_fragment_stage id src = change_shader (λ s. record s { fragment = src }) id

-- SetShader
abbrev pub new_set_shader : ActionState
new_set_shader = set_shader undefined_id

abbrev pub set_shader_shader : ℕ → ℕ → DataBase → Option DataBase
set_shader_shader id shader_id =
    change_action (λ a. elim a [ set_shader old ↦ some (set_shader shader_id, true) | _ ↦ none ]) id

abbrev pub set_shader_shader_name : ℕ → String → DataBase → Option DataBase
set_shader_shader_name id name d = if_found (shader_by_name name d) (set_shader_shader id) d

-- SetInputs
abbrev pub new_set_inputs : ActionState
new_set_inputs = set_inputs undefined_id []

abbrev pub set_inputs_shader : ℕ → ℕ → DataBase → Option DataBase
set_inputs_shader id shader_id =
    change_action
      (λ a. elim a [ set_inputs old inputs ↦ some (set_inputs shader_id inputs, true) | _ ↦ none ])
      id

abbrev pub set_inputs_shader_name : ℕ → String → DataBase → Option DataBase
set_inputs_shader_name id name d = if_found (shader_by_name name d) (set_inputs_shader id) d

abbrev pub clear_inputs : ℕ → DataBase → Option DataBase
clear_inputs id =
    change_action
      (λ a. elim a [
        | set_inputs shader_id inputs ↦ some (set_inputs shader_id [], true)
        | _ ↦ none
      ])
      id

abbrev pub new_input : String → ℕ → ℕ → ℕ → ℕ → Input
new_input symbol buffer_id components offset stride = record {
  symbol = symbol;
  buffer = buffer_id;
  components = components;
  offset = offset;
  stride = if stride == 0 then components else stride;
}

abbrev pub set_input : ℕ → String → ℕ → ℕ → ℕ → ℕ → DataBase → Option DataBase
set_input id symbol components offset stride buffer_id =
    change_action
      (λ a. elim a [
        | set_inputs shader_id inputs ↦ some (
          set_inputs shader_id (inputs ++ new_input symbol buffer_id components offset stride ∷ []),
          true,
        )
        | _ ↦ none
      ])
      id

abbrev pub set_input_name : ℕ → String → String → ℕ → ℕ → ℕ → DataBase → Option DataBase
set_input_name id symbol buffer_name components offset stride d =
    if_found (buffer_by_name buffer_name d) (set_input id symbol components offset stride) d

-- Draw
abbrev pub new_draw : ActionState
new_draw = draw primitive_points undefined_id 0 0

abbrev pub set_indexed : ℕ → PrimitiveType → ℕ → ℕ → ℕ → DataBase → Option DataBase
set_indexed id type indices first count =
    change_action
      (λ a. elim a [ draw t i f c ↦ some (draw type indices first count, true) | _ ↦ none ]) id

abbrev pub set_non_indexed : ℕ → PrimitiveType → ℕ → ℕ → DataBase → Option DataBase
set_non_indexed id type first count = set_indexed id type undefined_id first count

-- SetFramebuffer. No item is an Image: castedItemByName finds none under any name.
abbrev pub image_by_name : String → DataBase → Option ℕ
image_by_name name d = elim (item_by_name name d) [ none ↦ none | some item ↦ none ]

abbrev pub new_set_framebuffer : ActionState
new_set_framebuffer = set_framebuffer undefined_id

abbrev pub set_image : ℕ → ℕ → DataBase → Option DataBase
set_image id image_id =
    change_action
      (λ a. elim a [ set_framebuffer i ↦ some (set_framebuffer image_id, true) | _ ↦ none ]) id

abbrev pub set_image_name : ℕ → String → DataBase → Option DataBase
set_image_name id name d = if_found (image_by_name name d) (set_image id) d

abbrev pub set_default : ℕ → DataBase → Option DataBase
set_default id = set_image id undefined_id

-- SetFramebufferState
abbrev pub bit_of : Bool → ℕ
bit_of true = 1
bit_of false = 0

abbrev pub new_set_framebuffer_state : ActionState
new_set_framebuffer_state = set_framebuffer_state (1 ∷ 1 ∷ 1 ∷ 1 ∷ []) true

abbrev pub set_color_writemask : ℕ → Bool → Bool → Bool → Bool → DataBase → Option DataBase
set_color_writemask id red green blue alpha =
    change_action
      (λ a. elim a [
        | set_framebuffer_state colors depth ↦ some (
          set_framebuffer_state (bit_of red ∷ bit_of green ∷ bit_of blue ∷ bit_of alpha ∷ []) depth,
          true,
        )
        | _ ↦ none
      ])
      id

abbrev pub set_depth_writemask : ℕ → Bool → DataBase → Option DataBase
set_depth_writemask id writemask =
    change_action
      (λ a. elim a [
        | set_framebuffer_state colors depth ↦ some (set_framebuffer_state colors writemask, true)
        | _ ↦ none
      ])
      id

-- The 32 bits of 1.f, and the unit matrix.
abbrev pub float_one : ℕ
float_one = 1065353216

abbrev pub unit : List ℕ
unit =
    float_one ∷ 0 ∷ 0 ∷ 0 ∷ 0 ∷ float_one ∷ 0 ∷ 0 ∷ 0 ∷ 0 ∷ float_one ∷ 0 ∷ 0 ∷ 0 ∷ 0 ∷ float_one
    ∷ []

-- SetLocalCoordSys
abbrev pub new_set_local_coord_sys : ActionState
new_set_local_coord_sys = set_local_coord_sys unit unit

abbrev pub set_local_orientation : ℕ → List ℕ → List ℕ → DataBase → Option DataBase
set_local_orientation id from_world to_world =
    change_action
      (λ a. elim a [
        | set_local_coord_sys f t ↦
            some (set_local_coord_sys (copied 16 from_world) (copied 16 to_world), false)
        | _ ↦ none
      ])
      id

-- SetViewCoordSys
abbrev pub new_set_view_coord_sys : ActionState
new_set_view_coord_sys =
    set_view_coord_sys
      (record { projection = unit; projection_inverse = unit; from_world = unit; to_world = unit })

abbrev pub change_view : (ViewCoordSys → ViewCoordSys) → ActionState → Option (ActionState × Bool)
change_view change (set_view_coord_sys v) = some (set_view_coord_sys (change v), false)
change_view change a = none

abbrev pub set_projection : ℕ → List ℕ → List ℕ → DataBase → Option DataBase
set_projection id m4x4 m4x4_inv =
    change_action
      (change_view
        (λ v. record v { projection = copied 16 m4x4; projection_inverse = copied 16 m4x4_inv }))
      id

abbrev pub set_view_orientation : ℕ → List ℕ → List ℕ → DataBase → Option DataBase
set_view_orientation id from_world to_world =
    change_action
      (change_view
        (λ v. record v { from_world = copied 16 from_world; to_world = copied 16 to_world }))
      id

-- SetPixelState
abbrev pub new_set_pixel_state : ActionState
new_set_pixel_state = set_pixel_state (record {
  depth_test = false;
  depth_func = depth_func_less;
  blending = false;
  blend_src_rgb = blend_func_one;
  blend_dst_rgb = blend_func_zero;
  blend_src_alpha = blend_func_one;
  blend_dst_alpha = blend_func_zero;
})

abbrev pub change_pixel : (PixelState → PixelState) → ActionState → Option (ActionState × Bool)
change_pixel change (set_pixel_state p) = some (set_pixel_state (change p), true)
change_pixel change a = none

abbrev pub enable_depth_test : ℕ → DepthFunc → DataBase → Option DataBase
enable_depth_test id depth_func =
    change_action (change_pixel (λ p. record p { depth_test = true; depth_func = depth_func })) id

abbrev pub disable_depth_test : ℕ → DataBase → Option DataBase
disable_depth_test id = change_action (change_pixel (λ p. record p { depth_test = false })) id

abbrev pub enable_blending :
    ℕ → BlendFunc → BlendFunc → BlendFunc → BlendFunc → DataBase → Option DataBase
enable_blending id src_rgb dst_rgb src_a dst_a =
    change_action
      (change_pixel (λ p. record p {
        blending = true;
        blend_src_rgb = src_rgb;
        blend_dst_rgb = dst_rgb;
        blend_src_alpha = src_a;
        blend_dst_alpha = dst_a;
      }))
      id

abbrev pub disable_blending : ℕ → DataBase → Option DataBase
disable_blending id = change_action (change_pixel (λ p. record p { blending = false })) id

-- SetLight. 1078523331 is the word of 3.14f.
abbrev pub new_set_light : ActionState
new_set_light = set_light (record {
  type = light_ambient;
  index = 0;
  color = float_one ∷ float_one ∷ float_one ∷ float_one ∷ [];
  attenuation = float_one ∷ 0 ∷ 0 ∷ [];
  falloff = 1078523331 ∷ 0 ∷ [];
  from_world = unit;
  to_world = unit;
})

abbrev pub change_light : Bool → (Light → Light) → ActionState → Option (ActionState × Bool)
change_light rethink_draworder change (set_light l) = some (set_light (change l), rethink_draworder)
change_light rethink_draworder change a = none

abbrev pub set_type : ℕ → LightType → DataBase → Option DataBase
set_type id type = change_action (change_light true (λ l. record l { type = type })) id

abbrev pub set_index : ℕ → ℕ → DataBase → Option DataBase
set_index id index = change_action (change_light true (λ l. record l { index = index })) id

abbrev pub set_color_words : ℕ → List ℕ → DataBase → Option DataBase
set_color_words id v4 =
    change_action (change_light false (λ l. record l { color = copied 4 v4 })) id

abbrev pub set_color : ℕ → ℕ → ℕ → ℕ → ℕ → DataBase → Option DataBase
set_color id red green blue alpha =
    change_action (change_light false (λ l. record l { color = red ∷ green ∷ blue ∷ alpha ∷ [] }))
      id

abbrev pub set_attenuation : ℕ → ℕ → ℕ → ℕ → DataBase → Option DataBase
set_attenuation id constant linear quadratic =
    change_action
      (change_light false (λ l. record l { attenuation = constant ∷ linear ∷ quadratic ∷ [] })) id

abbrev pub set_falloff : ℕ → ℕ → ℕ → DataBase → Option DataBase
set_falloff id angle exponent =
    change_action (change_light false (λ l. record l { falloff = angle ∷ exponent ∷ [] })) id

abbrev pub set_light_orientation : ℕ → List ℕ → List ℕ → DataBase → Option DataBase
set_light_orientation id from_world to_world =
    change_action
      (change_light false
        (λ l. record l { from_world = copied 16 from_world; to_world = copied 16 to_world }))
      id
