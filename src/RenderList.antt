-- ===== src/RenderList.antt =====
-- The render list: include/tinia/renderlist/RenderList.hpp, Item.hpp, Buffer.hpp, Shader.hpp,
-- Action.hpp and its classes, DataBase.hpp, and DataBase.cpp up to its draw order.
pub mod Items
pub mod Setters
pub mod Process
pub mod Changes
pub mod Operations
pub mod Stored
pub mod Raised
pub mod Names
pub mod Valid
pub mod Steps
pub mod Grown
pub mod Client
pub mod Drawable
use tinia.Prelude.{
  ℕ, suc, ◌-◌, ◌%◌, ◌^◌, String, Bool, true, false, Option, none, some, List, [], ◌∷◌, ◌==◌, ltb,
  ◌++◌, if◌then◌else◌,
}
use tinia.Prelude.Map.{Map, find}
use tinia.Prelude.IdMap.{IdMap, lookup, put}

-- ~0u
abbrev pub undefined_id : ℕ
undefined_id = 2 ^ 32 - 1

pub data ElementType : Type 0 where
  element_int : ElementType
  element_float : ElementType

pub data UniformType : Type 0 where
  uniform_semantic : UniformType
  uniform_int : UniformType
  uniform_float : UniformType
  uniform_float2 : UniformType
  uniform_float3 : UniformType
  uniform_float4 : UniformType
  uniform_float3x3 : UniformType
  uniform_float4x4 : UniformType

pub data UniformSemantic : Type 0 where
  semantic_modelview_projection_matrix : UniformSemantic
  semantic_normal_matrix : UniformSemantic

pub data LightType : Type 0 where
  light_ambient : LightType
  light_directional : LightType
  light_point : LightType
  light_spot : LightType

pub data DepthFunc : Type 0 where
  depth_func_never : DepthFunc
  depth_func_less : DepthFunc
  depth_func_equal : DepthFunc
  depth_func_lequal : DepthFunc
  depth_func_greater : DepthFunc
  depth_func_notequal : DepthFunc
  depth_func_gequal : DepthFunc
  depth_func_always : DepthFunc

pub data BlendFunc : Type 0 where
  blend_func_zero : BlendFunc
  blend_func_one : BlendFunc
  blend_func_src_color : BlendFunc
  blend_func_one_minus_src_color : BlendFunc
  blend_func_dst_color : BlendFunc
  blend_func_one_minus_dst_color : BlendFunc
  blend_func_src_alpha : BlendFunc
  blend_func_one_minus_src_alpha : BlendFunc
  blend_func_dst_alpha : BlendFunc
  blend_func_one_minus_dst_alpha : BlendFunc
  blend_func_constant_color : BlendFunc
  blend_func_one_minus_constant_color : BlendFunc
  blend_func_constant_alpha : BlendFunc
  blend_func_one_minus_constant_alpha : BlendFunc
  blend_func_src_alpha_saturate : BlendFunc

pub data PrimitiveType : Type 0 where
  primitive_points : PrimitiveType
  primitive_lines : PrimitiveType
  primitive_line_strip : PrimitiveType
  primitive_line_loop : PrimitiveType
  primitive_triangles : PrimitiveType
  primitive_triangle_strip : PrimitiveType
  primitive_triangle_fan : PrimitiveType
  primitive_quads : PrimitiveType
  primitive_quad_strip : PrimitiveType

-- What every item carries, beside the fields of its class.
pub record Item (C : Type 0) : Type 0 where
  pub id : ℕ
  pub name : String
  pub revision : ℕ
  pub content : C

-- A float or an int of the payload is its 32 bits, a number.
pub record BufferData : Type 0 where
  pub type : ElementType
  pub payload : List ℕ

pub record ShaderStages : Type 0 where
  vertex : String
  tess_ctrl : String
  tess_eval : String
  geometry : String
  fragment : String

pub record Input : Type 0 where
  pub symbol : String
  pub buffer : ℕ
  pub components : ℕ
  pub offset : ℕ
  pub stride : ℕ

-- The payload is the union's 16 words.
pub record Uniform : Type 0 where
  pub symbol : String
  pub type : UniformType
  pub payload : List ℕ

pub record Light : Type 0 where
  type : LightType
  index : ℕ
  color : List ℕ
  attenuation : List ℕ
  falloff : List ℕ
  from_world : List ℕ
  to_world : List ℕ

pub record ViewCoordSys : Type 0 where
  projection : List ℕ
  projection_inverse : List ℕ
  from_world : List ℕ
  to_world : List ℕ

pub record PixelState : Type 0 where
  depth_test : Bool
  depth_func : DepthFunc
  blending : Bool
  blend_src_rgb : BlendFunc
  blend_dst_rgb : BlendFunc
  blend_src_alpha : BlendFunc
  blend_dst_alpha : BlendFunc

-- One constructor for each class of actions, with its fields. Those of SetRasterState are never read
-- or written after its constructor.
pub data ActionState : Type 0 where
  set_shader : ℕ → ActionState
  set_inputs : ℕ → List Input → ActionState
  set_uniforms : ℕ → List Uniform → ActionState
  draw : PrimitiveType → ℕ → ℕ → ℕ → ActionState
  set_framebuffer : ℕ → ActionState
  set_framebuffer_state : List ℕ → Bool → ActionState
  set_light : Light → ActionState
  set_local_coord_sys : List ℕ → List ℕ → ActionState
  set_view_coord_sys : ViewCoordSys → ActionState
  set_pixel_state : PixelState → ActionState
  set_raster_state : ActionState

-- A pointer to an item: the map that owns it, and its id.
pub data ItemRef : Type 0 where
  buffer : ℕ → ItemRef
  shader : ℕ → ItemRef
  action : ℕ → ItemRef

abbrev pub same_item : ItemRef → ItemRef → Bool
same_item (buffer i) (buffer j) = i == j
same_item (shader i) (shader j) = i == j
same_item (action i) (action j) = i == j
same_item a b = false

-- The draw order holds pointers to actions: their ids.
pub record DataBase : Type 0 where
  pub next_id : ℕ
  pub current_rev : ℕ
  pub deletion_rev : ℕ
  pub draworder_rev : ℕ
  pub process_rev : ℕ
  pub name_map : Map ItemRef
  pub buffers : IdMap (Item BufferData)
  pub shaders : IdMap (Item ShaderStages)
  pub actions : IdMap (Item ActionState)
  pub draworder : List ℕ

abbrev pub new_database : DataBase
new_database = record {
  next_id = 0;
  current_rev = 0;
  deletion_rev = 0;
  draworder_rev = 0;
  process_rev = 0;
  name_map = [];
  buffers = [];
  shaders = [];
  actions = [];
  draworder = [];
}

-- ++x on an `unsigned int`
abbrev pub incremented : ℕ → ℕ
incremented n = suc n % 2 ^ 32

abbrev pub latest : DataBase → ℕ
latest d = d.current_rev

-- DataBase::bump: the number before the step, and the stepped database.
abbrev pub bump : DataBase → ℕ × DataBase
bump d = (d.current_rev, record d { current_rev = incremented d.current_rev })

abbrev pub item_by_name : String → DataBase → Option ItemRef
item_by_name name d = find name d.name_map

-- The taints' effect on the database's own revisions: ++m_current_rev, and the draw order's if
-- `rethink_draworder`.
abbrev pub next_revision : Bool → DataBase → DataBase
next_revision rethink_draworder d =
    let rev = incremented d.current_rev in
    record d {
      current_rev = rev;
      draworder_rev = if rethink_draworder then rev else d.draworder_rev;
    }

abbrev pub draw_order_clear : DataBase → DataBase
draw_order_clear d = next_revision true (record d { draworder = [] })

-- DataBase::drawOrderAdd: by id, and by name.
unfoldable pub draw_order_add : ℕ → DataBase → DataBase
draw_order_add id d = elim (lookup id d.actions) [
  | none ↦ d
  | some a ↦ next_revision true (record d { draworder = d.draworder ++ id ∷ [] })
]

unfoldable pub draw_order_add_name : String → DataBase → DataBase
draw_order_add_name name d = elim (item_by_name name d) [
  | some (action id) ↦ next_revision true (record d { draworder = d.draworder ++ id ∷ [] })
  | _ ↦ d
]
