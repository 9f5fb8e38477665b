-- ===== src/RenderList/Drawable.antt =====
-- What DataBase::process lets through: a draw order that OpenGL can run.
pub mod Answer
pub mod Dangling
use tinia.Prelude.{
  ℕ, ◌≡◌, ◌≢◌, ◌⊎◌, refl, sym, ap, subst, ◌∙◌, inl, inr, Bool, true, false, Option, none, some,
  List, [], ◌∷◌, arith, if◌then◌else◌, ◌==◌, Option-cases, Bool-cases,
}
use tinia.Prelude.IdMap.{IdMap, lookup, put, lookup-put}
use tinia.RenderList.{
  Item, BufferData, ElementType, element_int, element_float, ShaderStages, Input, ActionState,
  set_shader, set_inputs, set_uniforms, draw, set_framebuffer, set_framebuffer_state, set_light,
  set_local_coord_sys, set_view_coord_sys, set_pixel_state, set_raster_state, DataBase,
  undefined_id,
}
use tinia.RenderList.Process.{
  Verdict, stays, broken, tainted, check_inputs, judge, Pass, keep_action, drop_action,
  process_actions, process,
}
use tinia.RenderList.Raised.{verdict_rev, next_shader, settle, settle-some, process_actions-some}
use tinia.RenderList.Grown.{some_eq}

abbrev pub content_of : Option (Item ActionState) → Option ActionState
content_of none = none
content_of (some a) = some a.content

ElementType-cases : (t : ElementType) → (t ≡ element_int) ⊎ (t ≡ element_float)
ElementType-cases element_int = inl refl
ElementType-cases element_float = inr refl

-- Every input reads a buffer that exists.
abbrev pub InputsStand : IdMap (Item BufferData) → List Input → Type 0
InputsStand buffers [] = Unit
InputsStand buffers (i ∷ is) =
    (i.buffer ≢ undefined_id) × (lookup i.buffer buffers ≢ none) × InputsStand buffers is

contents-put :
    (g : ℕ → Option ActionState) (id k : ℕ) (a : Item ActionState) (r : ℕ)
    (m : IdMap (Item ActionState))
    → lookup id m ≡ some a
    → ((j : ℕ) → content_of (lookup j m) ≡ g j)
    → content_of (lookup k (put id (record a { revision = r }) m)) ≡ g k
contents-put g id k a r m found same =
    grind (arith, lookup-put id k (record a { revision = r }) m, same id, same k, found)

module _ (buffers : IdMap (Item BufferData)) (shaders : IdMap (Item ShaderStages)) where
  -- An action can run while the shader `curr` is bound.
  abbrev pub Fits : ℕ → ActionState → Type 0
  Fits curr (set_shader s) = (s ≢ undefined_id) × (lookup s shaders ≢ none)
  Fits curr (set_uniforms s us) = (s ≡ curr) × (s ≢ undefined_id) × (lookup s shaders ≢ none)
  Fits curr (set_inputs s is) = (s ≡ curr) × (s ≢ undefined_id) × InputsStand buffers is
  Fits curr (draw type indices first count) =
      (indices ≡ undefined_id)
      ⊎ ((curr ≢ undefined_id)
          × ((b : Item BufferData) × (lookup indices buffers ≡ some b)
              × (b.content.type ≡ element_int)))
  Fits curr other = Unit

  -- The shader that is bound after it.
  abbrev pub bound_after : ℕ → ActionState → ℕ
  bound_after curr (set_shader s) = s
  bound_after curr other = curr

  -- A draw order whose actions can run one after the other.
  abbrev pub IsDrawable : (ℕ → Option ActionState) → ℕ → List ℕ → Type 0
  IsDrawable state curr [] = Unit
  IsDrawable state curr (id ∷ ids) =
      (a : ActionState) × (state id ≡ some a)
      × Fits curr a
      × IsDrawable state (bound_after curr a) ids

  pub IsDrawable-ext :
      (f g : ℕ → Option ActionState)
      → ((k : ℕ) → f k ≡ g k)
      → (curr : ℕ) (ids : List ℕ) → IsDrawable f curr ids
      → IsDrawable g curr ids
  IsDrawable-ext f g same curr [] v = tt
  IsDrawable-ext f g same curr (id ∷ ids) (a, q, fits, rest) =
      (a, sym (same id) ∙ q, fits, IsDrawable-ext f g same (bound_after curr a) ids rest)

  check_inputs-true :
      (is : List Input) (r : ℕ) → (check_inputs buffers is r).0 ≡ true → InputsStand buffers is
  unfolding check_inputs
  check_inputs-true [] r q = tt
  check_inputs-true (i ∷ is) r q = elim (Option-cases (lookup i.buffer buffers)) [
    | inl out ↦ grind arith
    | inr (b, found) ↦ grind (arith, check_inputs-true is (tainted r b.revision))
  ]

  check_inputs-InputsStand :
      (is : List Input) (r : ℕ) → InputsStand buffers is → (check_inputs buffers is r).0 ≡ true
  unfolding check_inputs
  check_inputs-InputsStand [] r v = refl
  check_inputs-InputsStand (i ∷ is) r v = elim (Option-cases (lookup i.buffer buffers)) [
    | inl out ↦ grind arith
    | inr (b, found) ↦ grind (arith, check_inputs-InputsStand is (tainted r b.revision))
  ]

  -- Of a whole drawable order, what comes after an action whose content is known.
  rest-IsDrawable :
      (g : ℕ → Option ActionState) (id : ℕ) (ids : List ℕ) (curr s : ℕ) (a : ActionState)
      → g id ≡ some a
      → s ≡ bound_after curr a
      → IsDrawable g curr (id ∷ ids)
      → IsDrawable g s ids
  rest-IsDrawable g id ids curr s a state bound (b, q, fits, rest) =
      let same = some_eq b a (sym q ∙ state) in
      subst (λ t. IsDrawable g t ids) (ap (bound_after curr) same ∙ sym bound) rest

  head-Fits :
      (g : ℕ → Option ActionState) (id : ℕ) (ids : List ℕ) (curr : ℕ) (a : ActionState)
      → g id ≡ some a
      → IsDrawable g curr (id ∷ ids)
      → Fits curr a
  head-Fits g id ids curr a state (b, q, fits, rest) =
      subst (Fits curr) (some_eq b a (sym q ∙ state)) fits

  module _ (keyed : (k : ℕ) (x : Item ShaderStages) → lookup k shaders ≡ some x → x.id ≡ k) where
    judge-stays :
        (curr r r2 s : ℕ) (a : ActionState)
        → judge buffers shaders curr r a ≡ stays r2 s
        → Fits curr a × (s ≡ bound_after curr a)
    unfolding judge
    judge-stays curr r r2 s (set_shader id) q = elim (Option-cases (lookup id shaders)) [
      | inl out ↦ grind arith
      | inr (x, found) ↦ grind (arith, keyed id x found)
    ]
    judge-stays curr r r2 s (set_uniforms id us) q = elim (Option-cases (lookup id shaders)) [
      | inl out ↦ grind arith
      | inr (x, found) ↦ grind arith
    ]
    judge-stays curr r r2 s (set_inputs id is) q = elim (Bool-cases (check_inputs buffers is r).0) [
      | inl good ↦ grind (arith, check_inputs-true is r good)
      | inr bad ↦ grind arith
    ]
    judge-stays curr r r2 s (draw type indices first count) q =
        elim (Option-cases (lookup indices buffers)) [
          | inl out ↦ grind arith
          | inr (b, found) ↦ elim (ElementType-cases b.content.type) [
            | inl int ↦ grind arith
            | inr float ↦ grind arith
          ]
        ]
    judge-stays curr r r2 s (set_framebuffer i) q = grind arith
    judge-stays curr r r2 s (set_framebuffer_state cs z) q = grind arith
    judge-stays curr r r2 s (set_light i) q = grind arith
    judge-stays curr r r2 s (set_local_coord_sys f t) q = grind arith
    judge-stays curr r r2 s (set_view_coord_sys i) q = grind arith
    judge-stays curr r r2 s (set_pixel_state i) q = grind arith
    judge-stays curr r r2 s set_raster_state q = grind arith

    judge-broken :
        (curr r r2 : ℕ) (a : ActionState)
        → judge buffers shaders curr r a ≡ broken r2
        → Fits curr a
        → ⊥
    unfolding judge
    judge-broken curr r r2 (set_shader id) q fits = elim (Option-cases (lookup id shaders)) [
      | inl out ↦ grind arith
      | inr (x, found) ↦ grind arith
    ]
    judge-broken curr r r2 (set_uniforms id us) q fits = elim (Option-cases (lookup id shaders)) [
      | inl out ↦ grind arith
      | inr (x, found) ↦ grind arith
    ]
    judge-broken curr r r2 (set_inputs id is) q fits =
        grind (arith, check_inputs-InputsStand is r fits.2)
    judge-broken curr r r2 (draw type indices first count) q (inl whole) = grind arith
    judge-broken curr r r2 (draw type indices first count) q (inr (bound, (b, found, int))) =
        grind (arith, bound, found, int)
    judge-broken curr r r2 (set_framebuffer i) q fits = grind arith
    judge-broken curr r r2 (set_framebuffer_state cs z) q fits = grind arith
    judge-broken curr r r2 (set_light i) q fits = grind arith
    judge-broken curr r r2 (set_local_coord_sys f t) q fits = grind arith
    judge-broken curr r r2 (set_view_coord_sys i) q fits = grind arith
    judge-broken curr r r2 (set_pixel_state i) q fits = grind arith
    judge-broken curr r r2 set_raster_state q fits = grind arith

    -- The loop's answer, and the draw order that it leaves. `g` is what the actions hold.
    abbrev Judged : (ℕ → Option ActionState) → ℕ → List ℕ → Pass → Type 0
    Judged g curr ids pass =
        IsDrawable g curr pass.draw_order
        × (pass.retval ≡ true → IsDrawable g curr ids × (pass.draw_order ≡ ids))
        × (IsDrawable g curr ids → pass.retval ≡ true)

    Judged-cons :
        (g : ℕ → Option ActionState) (id : ℕ) (ids : List ℕ) (curr r : ℕ) (a : ActionState)
        (v : Verdict) (p : Pass)
        → g id ≡ some a
        → judge buffers shaders curr r a ≡ v
        → Judged g (next_shader curr v) ids p
        → (pass : Pass) → settle id v (some p) ≡ some pass
        → Judged g curr (id ∷ ids) pass
    Judged-cons g id ids curr r a (stays r2 s) p state j (order, kept, told) pass q =
        let (fits, bound) = judge-stays curr r r2 s a j in
        subst (Judged g curr (id ∷ ids)) (some_eq _ pass q) (
          (a, state, fits, subst (λ t. IsDrawable g t p.draw_order) bound order),
          (λ ok. (
            (a, state, fits, subst (λ t. IsDrawable g t ids) bound (kept ok).0),
            ap (λ is. id ∷ is) (kept ok).1,
          )),
          (λ whole. told (rest-IsDrawable g id ids curr s a state bound whole)),
        )
    Judged-cons g id ids curr r a (broken r2) p state j (order, kept, told) pass q =
        subst (Judged g curr (id ∷ ids)) (some_eq _ pass q) (
          order,
          (λ ok. grind arith),
          (λ whole. elim (judge-broken curr r r2 a j (head-Fits g id ids curr a state whole)) [ ]),
        )

    process_actions-Judged :
        (g : ℕ → Option ActionState) (ids : List ℕ) (curr : ℕ) (actions : IdMap (Item ActionState))
        (pass : Pass)
        → ((k : ℕ) → content_of (lookup k actions) ≡ g k)
        → process_actions buffers shaders ids curr actions ≡ some pass
        → Judged g curr ids pass
    unfolding process_actions
    process_actions-Judged g [] curr actions pass same q =
        subst (Judged g curr []) (some_eq _ pass q) (tt, (λ ok. (tt, refl)), (λ whole. refl))
    process_actions-Judged g (id ∷ ids) curr actions pass same q =
        elim (Option-cases (lookup id actions)) [
          | inl out ↦ grind arith
          | inr (a, found) ↦
              let v = judge buffers shaders curr a.revision a.content in
              let next = put id (record a { revision = verdict_rev v }) actions in
              let settled =
                sym (process_actions-some buffers shaders id ids curr actions a found) ∙ q in
              let (p, r, here) =
                settle-some id v (process_actions buffers shaders ids (next_shader curr v) next)
                  pass settled in
              let rest =
                process_actions-Judged g ids (next_shader curr v) next p
                  (λ k. contents-put g id k a (verdict_rev v) actions found same) r in
              Judged-cons g id ids curr a.revision a.content v p
                (sym (same id) ∙ ap content_of found) refl rest pass
                (sym (ap (settle id v) r) ∙ settled)
        ]
