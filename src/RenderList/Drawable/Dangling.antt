-- ===== src/RenderList/Drawable/Dangling.antt =====
-- When DataBase::process follows a pointer to a deleted action, and that it returns otherwise.
use tinia.Prelude.{
  ℕ, ◌≡◌, ◌↔◌, refl, sym, ap, ◌∙◌, inl, inr, Bool, true, false, Option, none, some, List, [], ◌∷◌,
  arith, if◌then◌else◌, ◌==◌, Option-cases,
}
use tinia.Prelude.IdMap.{IdMap, lookup, put, lookup-put}
use tinia.RenderList.{Item, BufferData, ShaderStages, ActionState, DataBase, undefined_id}
use tinia.RenderList.Process.{Verdict, stays, broken, judge, Pass, process_actions, process}
use tinia.RenderList.Raised.{verdict_rev, next_shader, settle, process_actions-some}
use tinia.RenderList.Valid.{IsValid}
use tinia.RenderList.Steps.Orders.{process-IsStep}
use tinia.RenderList.Drawable.{content_of, IsDrawable, bound_after}
use tinia.RenderList.Drawable.Answer.{OrderIsDrawable, process-some, process-OrderIsDrawable}

-- An id stands in a draw order.
abbrev pub is_listed : ℕ → List ℕ → Bool
is_listed k [] = false
is_listed k (j ∷ js) = let rest = is_listed k js in if j == k then true else rest

-- A pointer of the draw order whose action is deleted.
abbrev pub Dangles : List ℕ → IdMap (Item ActionState) → Type 0
Dangles order actions = (id : ℕ) × (is_listed id order ≡ true) × (lookup id actions ≡ none)

settle-none : (id : ℕ) (v : Verdict) (rest : Option Pass) → settle id v rest ≡ none → rest ≡ none
settle-none id (stays r s) none q = refl
settle-none id (stays r s) (some p) q = grind arith
settle-none id (broken r) none q = refl
settle-none id (broken r) (some p) q = grind arith

none-settle : (id : ℕ) (v : Verdict) → settle id v none ≡ none
none-settle id (stays r s) = refl
none-settle id (broken r) = refl

put-none :
    (id k r : ℕ) (a : Item ActionState) (m : IdMap (Item ActionState))
    → lookup id m ≡ some a
    → (lookup k (put id (record a { revision = r }) m) ≡ none) ↔ (lookup k m ≡ none)
put-none id k r a m found = (
  (λ q. grind (arith, lookup-put id k (record a { revision = r }) m, found)),
  (λ q. grind (arith, lookup-put id k (record a { revision = r }) m, found)),
)

later-listed :
    (id k : ℕ) (ids : List ℕ) (a : Item ActionState) (m : IdMap (Item ActionState))
    → lookup id m ≡ some a
    → lookup k m ≡ none
    → is_listed k (id ∷ ids) ≡ true
    → is_listed k ids ≡ true
later-listed id k ids a m found out listed = grind (arith, found, out)

module _ (buffers : IdMap (Item BufferData)) (shaders : IdMap (Item ShaderStages)) where
  process_actions-Dangles :
      (ids : List ℕ) (curr : ℕ) (actions : IdMap (Item ActionState))
      → process_actions buffers shaders ids curr actions ≡ none
      → Dangles ids actions
  unfolding process_actions
  process_actions-Dangles [] curr actions q = grind arith
  process_actions-Dangles (id ∷ ids) curr actions q = elim (Option-cases (lookup id actions)) [
    | inl out ↦ (id, ground arith, out)
    | inr (a, found) ↦
        let v = judge buffers shaders curr a.revision a.content in
        let next = put id (record a { revision = verdict_rev v }) actions in
        let (k, listed, out) = process_actions-Dangles ids (next_shader curr v) next (
          settle-none id v (process_actions buffers shaders ids (next_shader curr v) next)
            (sym (process_actions-some buffers shaders id ids curr actions a found) ∙ q)) in
        (k, ground arith, (put-none id k (verdict_rev v) a actions found).0 out)
  ]

  Dangles-none :
      (ids : List ℕ) (curr k : ℕ) (actions : IdMap (Item ActionState))
      → is_listed k ids ≡ true
      → lookup k actions ≡ none
      → process_actions buffers shaders ids curr actions ≡ none
  unfolding process_actions
  Dangles-none [] curr k actions listed out = grind arith
  Dangles-none (id ∷ ids) curr k actions listed out = elim (Option-cases (lookup id actions)) [
    | inl missing ↦ grind arith
    | inr (a, found) ↦
        let v = judge buffers shaders curr a.revision a.content in
        let next = put id (record a { revision = verdict_rev v }) actions in
        process_actions-some buffers shaders id ids curr actions a found
        ∙ ap (settle id v) (
            Dangles-none ids (next_shader curr v) k next
              (later-listed id k ids a actions found out listed)
              ((put-none id k (verdict_rev v) a actions found).1 out))
        ∙ none-settle id v
  ]

returns-none :
    (delete_unused : Bool) (d : DataBase)
    → process delete_unused d ≡ none
    → process_actions d.buffers d.shaders d.draworder undefined_id d.actions ≡ none
unfolding process
returns-none delete_unused d q =
    elim (Option-cases (process_actions d.buffers d.shaders d.draworder undefined_id d.actions)) [
      | inl out ↦ out
      | inr (pass, found) ↦ grind (arith, process-some delete_unused d pass found)
    ]

-- process follows a dangling pointer exactly if the draw order still names an action that is deleted;
-- in every other case it returns.
pub process-none :
    (delete_unused : Bool) (d : DataBase)
    → (process delete_unused d ≡ none) ↔ Dangles d.draworder d.actions
unfolding process
process-none delete_unused d = (
  (λ q.
      process_actions-Dangles d.buffers d.shaders d.draworder undefined_id d.actions
        (returns-none delete_unused d q)),
  (λ dangling. grind (
    arith,
    Dangles-none d.buffers d.shaders d.draworder undefined_id dangling.0 d.actions dangling.1
        dangling.2,
  )),
)

IsDrawable-listed :
    (buffers : IdMap (Item BufferData)) (shaders : IdMap (Item ShaderStages))
    (m : IdMap (Item ActionState)) (curr k : ℕ) (ids : List ℕ)
    → IsDrawable buffers shaders (λ j. content_of (lookup j m)) curr ids
    → is_listed k ids ≡ true
    → lookup k m ≡ none
    → ⊥
IsDrawable-listed buffers shaders m curr k [] whole listed out = grind arith
IsDrawable-listed buffers shaders m curr k (id ∷ ids) (a, here, fits, rest) listed out = grind (
  arith,
  here,
  IsDrawable-listed buffers shaders m (bound_after buffers shaders curr a) k ids rest,
)

drawable-process :
    (delete_unused : Bool) (d : DataBase)
    → IsValid d
    → OrderIsDrawable d
    → (d2 : DataBase) × (process delete_unused d ≡ some (true, d2)) × (d2.draworder ≡ d.draworder)
drawable-process delete_unused d v whole = elim (Option-cases (process delete_unused d)) [
  | inl out ↦
      let (id, listed, gone) = (process-none delete_unused d).0 out in
      elim (IsDrawable-listed d.buffers d.shaders d.actions undefined_id id d.draworder whole listed
        gone) [ ]
  | inr ((ok, d2), done) ↦
      let (after, (told, kept), same) = process-OrderIsDrawable delete_unused ok d d2 v done in
      (d2, done ∙ ap (λ b. some (b, d2)) (kept whole), same (kept whole))
]

-- What process leaves passes: processed again, it returns, answers true and keeps the draw order. The
-- database is valid.
pub process_twice :
    (delete_unused ok : Bool) (d d2 : DataBase)
    → IsValid d
    → process delete_unused d ≡ some (ok, d2)
    → (d3 : DataBase) × (process delete_unused d2 ≡ some (true, d3)) × (d3.draworder ≡ d2.draworder)
process_twice delete_unused ok d d2 v q =
    drawable-process delete_unused d2 (process-IsStep d v delete_unused ok d2 q).valid
      (process-OrderIsDrawable delete_unused ok d d2 v q).0
