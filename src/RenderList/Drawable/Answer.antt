-- ===== src/RenderList/Drawable/Answer.antt =====
-- DataBase::process as a whole: its answer, the order it leaves, and when it meets a deleted action.
use tinia.Prelude.{
  ℕ, ◌≡◌, ◌≢◌, ◌≤◌, ◌↔◌, refl, sym, ap, subst, ◌∙◌, inl, inr, Bool, true, false, Option, some, [],
  arith, Option-cases,
}
use tinia.Prelude.IdMap.{IdMap, lookup}
use tinia.RenderList.{Item, ActionState, DataBase, undefined_id}
use tinia.RenderList.Process.{Pass, process_actions, process}
use tinia.RenderList.Raised.{IsRaised, process_actions-IsRaised}
use tinia.RenderList.Changes.{changes}
use tinia.RenderList.Valid.{IsValid}
use tinia.RenderList.Grown.{some_eq}
use tinia.RenderList.Drawable.{content_of, IsDrawable, IsDrawable-ext, process_actions-Judged}

abbrev pub state_of : DataBase → ℕ → Option ActionState
state_of d k = content_of (lookup k d.actions)

abbrev pub OrderIsDrawable : DataBase → Type 0
OrderIsDrawable d = IsDrawable d.buffers d.shaders (state_of d) undefined_id d.draworder

raised-content :
    (m m2 : IdMap (Item ActionState))
    → IsRaised m m2
    → (k : ℕ) → content_of (lookup k m) ≡ content_of (lookup k m2)
raised-content m m2 r k = elim (Option-cases (lookup k m)) [
  | inl out ↦ grind (arith, r.missing k out)
  | inr (x, found) ↦
      let (y, q, (i, n, c, l)) = r.later k x found in
      ap content_of found ∙ ap some c ∙ sym (ap content_of q)
]

pub processed : DataBase → Pass → Bool × DataBase
processed d pass = (
  pass.retval,
  record d { actions = pass.actions; draworder = pass.draw_order; process_rev = d.current_rev },
)

pub process-some :
    (delete_unused : Bool) (d : DataBase) (pass : Pass)
    → process_actions d.buffers d.shaders d.draworder undefined_id d.actions ≡ some pass
    → process delete_unused d ≡ some (processed d pass)
unfolding process processed
process-some delete_unused d pass q = grind (arith, q)

abbrev BeforeDrawable : DataBase → Bool × DataBase → Type 0
BeforeDrawable d r = IsDrawable d.buffers d.shaders (state_of d) undefined_id r.1.draworder

abbrev Answers : DataBase → Bool × DataBase → Type 0
Answers d r =
    OrderIsDrawable r.1
    × ((r.0 ≡ true) ↔ OrderIsDrawable d)
    × (r.0 ≡ true → r.1.draworder ≡ d.draworder)

processed-Answers :
    (d : DataBase) (pass : Pass)
    → IsValid d
    → process_actions d.buffers d.shaders d.draworder undefined_id d.actions ≡ some pass
    → Answers d (processed d pass)
unfolding processed
processed-Answers d pass v q =
    let (order, kept, told) =
      process_actions-Judged d.buffers d.shaders v.shaders_IsStored.keyed (state_of d) d.draworder
        undefined_id d.actions pass (λ k. refl) q in
    let (s, raised) =
      process_actions-IsRaised d.buffers d.shaders d.next_id d.current_rev v.buffers_IsStored
        v.shaders_IsStored d.draworder undefined_id d.actions pass v.actions_IsStored q in
    (
      IsDrawable-ext d.buffers d.shaders (state_of d) (λ k. content_of (lookup k pass.actions))
          (raised-content d.actions pass.actions raised) undefined_id pass.draw_order order,
      ((λ ok. (kept ok).0), told),
      (λ ok. (kept ok).1),
    )

-- When process returns, the draw order it leaves can run: every SetShader sets a shader that exists,
-- every SetUniforms and SetInputs is for the shader that is set, every buffer that is read exists, and
-- indices are integers. It answers true exactly if the order it was given could run, and then leaves
-- it as it was. The database is valid.
pub process-OrderIsDrawable :
    (delete_unused ok : Bool) (d d2 : DataBase)
    → IsValid d
    → process delete_unused d ≡ some (ok, d2)
    → OrderIsDrawable d2
      × ((ok ≡ true) ↔ OrderIsDrawable d)
      × (ok ≡ true → d2.draworder ≡ d.draworder)
unfolding process
process-OrderIsDrawable delete_unused ok d d2 v q =
    elim (Option-cases (process_actions d.buffers d.shaders d.draworder undefined_id d.actions)) [
      | inl out ↦ grind arith
      | inr (pass, found) ↦
          subst (Answers d)
            (some_eq (processed d pass) (ok, d2)
              (sym (process-some delete_unused d pass found) ∙ q))
            (processed-Answers d pass v found)
    ]

order-before :
    (delete_unused ok : Bool) (d d2 : DataBase)
    → IsValid d
    → process delete_unused d ≡ some (ok, d2)
    → IsDrawable d.buffers d.shaders (state_of d) undefined_id d2.draworder
unfolding process processed
order-before delete_unused ok d d2 v q =
    elim (Option-cases (process_actions d.buffers d.shaders d.draworder undefined_id d.actions)) [
      | inl out ↦ grind arith
      | inr (pass, found) ↦
          subst (BeforeDrawable d)
            (some_eq (processed d pass) (ok, d2)
              (sym (process-some delete_unused d pass found) ∙ q))
            (process_actions-Judged d.buffers d.shaders v.shaders_IsStored.keyed (state_of d)
              d.draworder undefined_id d.actions pass (λ k. refl) found).0
    ]

process-draworder_rev :
    (delete_unused ok : Bool) (d d2 : DataBase)
    → process delete_unused d ≡ some (ok, d2)
    → d2.draworder_rev ≡ d.draworder_rev
unfolding process processed
process-draworder_rev delete_unused ok d d2 q =
    elim (Option-cases (process_actions d.buffers d.shaders d.draworder undefined_id d.actions)) [
      | inl out ↦ grind arith
      | inr (pass, found) ↦
          ap (λ r. r.1.draworder_rev)
            (some_eq (ok, d2) (processed d pass) (sym q ∙ process-some delete_unused d pass found))
    ]

-- process tells no client: when it answers false the draw order has changed, and yet a client whose
-- revision has reached that of the draw order before it is sent no new one. The database is valid.
pub process-new_draworder :
    (delete_unused : Bool) (d d2 : DataBase) (has_revision : ℕ)
    → IsValid d
    → process delete_unused d ≡ some (false, d2)
    → d.draworder_rev ≤ has_revision
    → (d2.draworder ≢ d.draworder) × ((changes [] has_revision d2).new_draworder ≡ false)
unfolding changes
process-new_draworder delete_unused d d2 has_revision v q l = (
  (λ same.
      let kept = (process-OrderIsDrawable delete_unused false d d2 v q).1.1 (
        subst (IsDrawable d.buffers d.shaders (state_of d) undefined_id) same
          (order-before delete_unused false d d2 v q)) in
      grind (arith, kept)),
  grind (arith, process-draworder_rev delete_unused false d d2 q),
)
