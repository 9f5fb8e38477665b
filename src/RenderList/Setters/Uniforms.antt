-- ===== src/RenderList/Setters/Uniforms.antt =====
-- SetUniforms.hpp and SetUniforms.cpp.
use tinia.Prelude.{
  String, ℕ, zero, suc, Bool, true, false, not, Option, none, some, List, [], ◌∷◌, ◌==◌,
  if◌then◌else◌, str_eq,
}
use tinia.RenderList.{
  Uniform, UniformType, uniform_semantic, uniform_int, uniform_float, uniform_float2,
  uniform_float3, uniform_float4, uniform_float3x3, uniform_float4x4, UniformSemantic,
  semantic_modelview_projection_matrix, semantic_normal_matrix, ActionState, set_uniforms, DataBase,
  undefined_id,
}
use tinia.RenderList.Items.{change_action}
use tinia.RenderList.Setters.{if_found, shader_by_name, copied}

abbrev pub new_set_uniforms : ActionState
new_set_uniforms = set_uniforms undefined_id []

-- The code of an enum's constant.
abbrev pub uniform_code : UniformType → ℕ
uniform_code uniform_semantic = 0
uniform_code uniform_int = 1
uniform_code uniform_float = 2
uniform_code uniform_float2 = 3
uniform_code uniform_float3 = 4
uniform_code uniform_float4 = 5
uniform_code uniform_float3x3 = 6
uniform_code uniform_float4x4 = 7

abbrev pub semantic_code : UniformSemantic → ℕ
semantic_code semantic_modelview_projection_matrix = 0
semantic_code semantic_normal_matrix = 1

-- A Uniform that `resize` appends, once its symbol and type are set.
abbrev pub new_uniform : String → Uniform
new_uniform symbol = record {
  symbol = symbol;
  type = uniform_semantic;
  payload = 0 ∷ 0 ∷ 0 ∷ 0 ∷ 0 ∷ 0 ∷ 0 ∷ 0 ∷ 0 ∷ 0 ∷ 0 ∷ 0 ∷ 0 ∷ 0 ∷ 0 ∷ 0 ∷ [];
}

-- SetUniforms::findOrAddUniform: the index, and the uniforms.
unfoldable pub find_or_add_uniform : String → List Uniform → ℕ × List Uniform
find_or_add_uniform symbol [] = (0, new_uniform symbol ∷ [])
find_or_add_uniform symbol (u ∷ us) =
    let rest = find_or_add_uniform symbol us in
    if str_eq u.symbol symbol then (0, u ∷ us) else (suc rest.0, u ∷ rest.1)

-- The words of the union that a setter writes; the others stay.
unfoldable pub overwrite : List ℕ → List ℕ → List ℕ
overwrite [] payload = payload
overwrite (w ∷ ws) [] = []
overwrite (w ∷ ws) (x ∷ payload) = w ∷ overwrite ws payload

-- Uniform& u = m_uniforms[ i ]; rethink = u.m_type != type; u.m_type = type; and the payload.
unfoldable pub write_uniform : UniformType → List ℕ → ℕ → List Uniform → Bool × List Uniform
write_uniform type words i [] = (false, [])
write_uniform type words zero (u ∷ us) = (
  not (uniform_code u.type == uniform_code type),
  record u { type = type; payload = overwrite words u.payload } ∷ us,
)
write_uniform type words (suc i) (u ∷ us) =
    let rest = write_uniform type words i us in (rest.0, u ∷ rest.1)

-- The two together. `always` for the one setter that rethinks the draw order in every case.
unfoldable pub set_uniform :
    Bool → UniformType → List ℕ → String → ActionState → Option (ActionState × Bool)
set_uniform always type words symbol (set_uniforms shader_id us) =
    let found = find_or_add_uniform symbol us in
    let written = write_uniform type words found.0 found.1 in
    some (set_uniforms shader_id written.1, if always then true else written.0)
set_uniform always type words symbol a = none

abbrev pub set_uniforms_shader : ℕ → ℕ → DataBase → Option DataBase
set_uniforms_shader id shader_id =
    change_action
      (λ a. elim a [ set_uniforms old us ↦ some (set_uniforms shader_id us, true) | _ ↦ none ]) id

abbrev pub set_uniforms_shader_name : ℕ → String → DataBase → Option DataBase
set_uniforms_shader_name id name d = if_found (shader_by_name name d) (set_uniforms_shader id) d

abbrev pub clear : ℕ → DataBase → Option DataBase
clear id =
    change_action
      (λ a. elim a [
        | set_uniforms shader_id us ↦ some (set_uniforms shader_id [], true)
        | _ ↦ none
      ])
      id

abbrev pub set_semantic : ℕ → String → UniformSemantic → DataBase → Option DataBase
set_semantic id symbol semantic =
    change_action (set_uniform true uniform_semantic (semantic_code semantic ∷ []) symbol) id

abbrev pub set_int1 : ℕ → String → ℕ → DataBase → Option DataBase
set_int1 id symbol v = change_action (set_uniform false uniform_int (v ∷ []) symbol) id

abbrev pub set_float1 : ℕ → String → ℕ → DataBase → Option DataBase
set_float1 id symbol v = change_action (set_uniform false uniform_float (v ∷ []) symbol) id

abbrev pub set_float3 : ℕ → String → ℕ → ℕ → ℕ → DataBase → Option DataBase
set_float3 id symbol e0 e1 e2 =
    change_action (set_uniform false uniform_float3 (e0 ∷ e1 ∷ e2 ∷ []) symbol) id

abbrev pub set_float1v : ℕ → String → List ℕ → DataBase → Option DataBase
set_float1v id symbol v = change_action (set_uniform false uniform_float (copied 1 v) symbol) id

abbrev pub set_float2v : ℕ → String → List ℕ → DataBase → Option DataBase
set_float2v id symbol v = change_action (set_uniform false uniform_float2 (copied 2 v) symbol) id

abbrev pub set_float3v : ℕ → String → List ℕ → DataBase → Option DataBase
set_float3v id symbol v = change_action (set_uniform false uniform_float3 (copied 3 v) symbol) id

abbrev pub set_float4v : ℕ → String → List ℕ → DataBase → Option DataBase
set_float4v id symbol v = change_action (set_uniform false uniform_float4 (copied 4 v) symbol) id

abbrev pub set_float3x3v : ℕ → String → List ℕ → DataBase → Option DataBase
set_float3x3v id symbol v =
    change_action (set_uniform false uniform_float3x3 (copied 9 v) symbol) id

abbrev pub set_float4x4v : ℕ → String → List ℕ → DataBase → Option DataBase
set_float4x4v id symbol v =
    change_action (set_uniform false uniform_float4x4 (copied 16 v) symbol) id
