-- ===== src/RenderList/Setters/Lookup.antt =====
-- What the setters of SetUniforms do to the uniform of each symbol.
use tinia.Prelude.{
  String, ℕ, ◌≡◌, refl, ap, ◌∙◌, Bool, false, true, not, Option, none, some, List, [], ◌∷◌, ◌==◌,
  if◌then◌else◌, str_eq, eq_iff, arith, Bool-cases, inl, inr,
}
use tinia.Prelude.IdMap.{lookup, put}
use tinia.RenderList.{
  next_revision, incremented, Uniform, UniformType, set_uniforms, UniformSemantic, DataBase, Item,
  ActionState, uniform_semantic, uniform_int, uniform_float, uniform_float2, uniform_float3,
  uniform_float4, uniform_float3x3, uniform_float4x4,
}
use tinia.RenderList.Items.{change_action}
use tinia.RenderList.Setters.{copied}
use tinia.RenderList.Setters.Uniforms.{
  uniform_code, new_uniform, find_or_add_uniform, overwrite, write_uniform, set_uniform,
  semantic_code, set_semantic, set_int1, set_float1, set_float3, set_float1v, set_float2v,
  set_float3v, set_float4v, set_float3x3v, set_float4x4v,
}

abbrev pub uniform_of : String → List Uniform → Option Uniform
uniform_of symbol [] = none
uniform_of symbol (u ∷ us) = if str_eq u.symbol symbol then some u else uniform_of symbol us

-- The uniform that a setter finds, or adds.
abbrev pub or_new : String → Option Uniform → Uniform
or_new symbol none = new_uniform symbol
or_new symbol (some u) = u

abbrev written : UniformType → List ℕ → String → List Uniform → Bool × List Uniform
written type words symbol us =
    write_uniform type words (find_or_add_uniform symbol us).0 (find_or_add_uniform symbol us).1

module _ (type : UniformType) (words : List ℕ) (symbol : String) where
  abbrev pub changed : Uniform → Uniform
  changed u = record u { type = type; payload = overwrite words u.payload }

  uniform_of-written :
      (s : String) (us : List Uniform)
      → uniform_of s (written type words symbol us).1 ≡ (
          if str_eq symbol s
          then some (changed (or_new symbol (uniform_of symbol us)))
          else uniform_of s us)
  unfolding find_or_add_uniform write_uniform
  uniform_of-written s [] = grind (arith, eq_iff symbol s)
  uniform_of-written s (u ∷ us) = elim (Bool-cases (str_eq u.symbol symbol)) [
    | inl here ↦ grind (arith, eq_iff symbol s, eq_iff u.symbol s, eq_iff u.symbol symbol)
    | inr later ↦
        grind (
          arith,
          eq_iff symbol s,
          eq_iff u.symbol s,
          eq_iff u.symbol symbol,
          uniform_of-written s us,
        )
  ]

  rethink-written :
      (us : List Uniform)
      → (written type words symbol us).0
        ≡ not (uniform_code (or_new symbol (uniform_of symbol us)).type == uniform_code type)
  unfolding find_or_add_uniform write_uniform
  rethink-written [] = refl
  rethink-written (u ∷ us) = grind (arith, rethink-written us)

-- A call of a setter of SetUniforms, with its value.
pub data Setting : Type 0 where
  semantic : UniformSemantic → Setting
  int1 float1 : ℕ → Setting
  float3 : ℕ → ℕ → ℕ → Setting
  float1v float2v float3v float4v float3x3v float4x4v : List ℕ → Setting

abbrev pub set_on : Setting → ℕ → String → DataBase → Option DataBase
set_on (semantic v) id symbol = set_semantic id symbol v
set_on (int1 v) id symbol = set_int1 id symbol v
set_on (float1 v) id symbol = set_float1 id symbol v
set_on (float3 x y z) id symbol = set_float3 id symbol x y z
set_on (float1v v) id symbol = set_float1v id symbol v
set_on (float2v v) id symbol = set_float2v id symbol v
set_on (float3v v) id symbol = set_float3v id symbol v
set_on (float4v v) id symbol = set_float4v id symbol v
set_on (float3x3v v) id symbol = set_float3x3v id symbol v
set_on (float4x4v v) id symbol = set_float4x4v id symbol v

-- The type that each setter stands for, and the words of its value.
abbrev pub type_of : Setting → UniformType
type_of (semantic v) = uniform_semantic
type_of (int1 v) = uniform_int
type_of (float1 v) = uniform_float
type_of (float3 x y z) = uniform_float3
type_of (float1v v) = uniform_float
type_of (float2v v) = uniform_float2
type_of (float3v v) = uniform_float3
type_of (float4v v) = uniform_float4
type_of (float3x3v v) = uniform_float3x3
type_of (float4x4v v) = uniform_float4x4

abbrev pub words_of : Setting → List ℕ
words_of (semantic v) = semantic_code v ∷ []
words_of (int1 v) = v ∷ []
words_of (float1 v) = v ∷ []
words_of (float3 x y z) = x ∷ y ∷ z ∷ []
words_of (float1v v) = copied 1 v
words_of (float2v v) = copied 2 v
words_of (float3v v) = copied 3 v
words_of (float4v v) = copied 4 v
words_of (float3x3v v) = copied 9 v
words_of (float4x4v v) = copied 16 v

abbrev pub is_semantic : Setting → Bool
is_semantic (semantic v) = true
is_semantic _ = false

set_on-change_action :
    (set : Setting) (id : ℕ) (symbol : String) (d : DataBase)
    → set_on set id symbol d
      ≡ change_action (set_uniform (is_semantic set) (type_of set) (words_of set) symbol) id d
set_on-change_action (semantic v) id symbol d = refl
set_on-change_action (int1 v) id symbol d = refl
set_on-change_action (float1 v) id symbol d = refl
set_on-change_action (float3 x y z) id symbol d = refl
set_on-change_action (float1v v) id symbol d = refl
set_on-change_action (float2v v) id symbol d = refl
set_on-change_action (float3v v) id symbol d = refl
set_on-change_action (float4v v) id symbol d = refl
set_on-change_action (float3x3v v) id symbol d = refl
set_on-change_action (float4x4v v) id symbol d = refl

changed_content :
    (change : ActionState → Option (ActionState × Bool)) (id : ℕ) (d : DataBase)
    (a : Item ActionState) (content : ActionState) (rethink : Bool)
    → lookup id d.actions ≡ some a
    → change a.content ≡ some (content, rethink)
    → change_action change id d
      ≡ some (record (next_revision rethink d) {
        actions =
            put id (record a { revision = incremented d.current_rev; content = content }) d.actions;
      })
unfolding change_action
changed_content change id d a content rethink found made = ground (arith, found, made)

-- Every setter of a SetUniforms (for a semantic, one int, one or three floats, and the vectors and
-- matrices of floats) gives the uniform of its symbol the type that it stands for and the words of its
-- value, the words behind them kept, and no other symbol's uniform changes. It has the draw order
-- thought over again if the uniform is new or had another type (an added uniform counts as semantic),
-- and always if it is setSemantic. The action takes a new revision, and the rest of the database is as
-- the revision makes it.
pub set_on-uniform_of :
    (set : Setting) (id : ℕ) (symbol : String) (d : DataBase) (a : Item ActionState) (shader_id : ℕ)
    (us : List Uniform)
    → lookup id d.actions ≡ some a
    → a.content ≡ set_uniforms shader_id us
    → (us2 : List Uniform) × (rethink : Bool) × (set_on set id symbol d
        ≡ some (record (next_revision rethink d) {
          actions =
              put id
                (record a {
                  revision = incremented d.current_rev;
                  content = set_uniforms shader_id us2;
                })
                d.actions;
        }))
      × ((s : String)
          → uniform_of s us2 ≡ (
              if str_eq symbol s
              then some (
                  changed
                    (type_of set)
                    (words_of set)
                    symbol
                    (or_new symbol (uniform_of symbol us)))
              else uniform_of s us))
      × (rethink ≡ (
          if is_semantic set
          then true
          else not (
              uniform_code (or_new symbol (uniform_of symbol us)).type
              == uniform_code (type_of set))))
unfolding set_uniform change_action
set_on-uniform_of set id symbol d a shader_id us found content = (
  (written (type_of set) (words_of set) symbol us).1,
  (if is_semantic set then true else (written (type_of set) (words_of set) symbol us).0),
  set_on-change_action set id symbol d
      ∙ changed_content (set_uniform (is_semantic set) (type_of set) (words_of set) symbol) id d a _
          _ found (rw content refl),
  (λ s. uniform_of-written (type_of set) (words_of set) symbol s us),
  ap (λ b. if is_semantic set then true else b)
      (rethink-written (type_of set) (words_of set) symbol us),
)
