-- ===== src/RenderList/Raised.antt =====
-- What DataBase::process does to the actions themselves: it raises revisions, up to those of the
-- shaders and the buffers, and changes nothing else.
use tinia.Prelude.{
  ℕ, ◌≤◌, ◌≡◌, refl, sym, subst, ◌∙◌, inl, inr, Option, none, some, List, [], ◌∷◌, arith, ◌==◌,
  Option-cases, Bool-cases,
}
use tinia.Prelude.IdMap.{IdMap, lookup, put, lookup-put}
use tinia.RenderList.{
  Item, BufferData, ShaderStages, Input, ActionState, set_shader, set_inputs, set_uniforms, draw,
  set_framebuffer, set_framebuffer_state, set_light, set_local_coord_sys, set_view_coord_sys,
  set_pixel_state, set_raster_state,
}
use tinia.RenderList.Stored.{IsStored, IsLater, IsLater-trans, put-IsStored}
use tinia.RenderList.Process.{
  Verdict, stays, broken, tainted, check_inputs, judge, Pass, keep_action, drop_action,
  process_actions,
}

pub record IsRaised (m m2 : IdMap (Item ActionState)) : Type 0 where
  pub later :
      (k : ℕ) (x : Item ActionState)
      → lookup k m ≡ some x
      → (y : Item ActionState) × (lookup k m2 ≡ some y) × IsLater x y
  pub missing : (k : ℕ) → lookup k m ≡ none → lookup k m2 ≡ none

abbrev pub verdict_rev : Verdict → ℕ
verdict_rev (stays rev shader_id) = rev
verdict_rev (broken rev) = rev

-- The loop's next curr_shader, and whether it pushes the action.
abbrev pub next_shader : ℕ → Verdict → ℕ
next_shader curr_shader (stays rev shader_id) = shader_id
next_shader curr_shader (broken rev) = curr_shader

abbrev pub settle : ℕ → Verdict → Option Pass → Option Pass
settle id (stays rev shader_id) rest = keep_action id rest
settle id (broken rev) rest = drop_action rest

put-IsRaised :
    (id : ℕ) (a : Item ActionState) (r : ℕ) (m : IdMap (Item ActionState))
    → lookup id m ≡ some a
    → a.revision ≤ r
    → IsRaised m (put id (record a { revision = r }) m)
put-IsRaised id a r m q l = record {
  later = λ k x p. elim (Bool-cases (id == k)) [
    | inl same ↦ (
      record a { revision = r },
      ground (arith, lookup-put id k (record a { revision = r }) m),
      grind arith,
    )
    | inr other ↦ (
      x,
      ground (arith, lookup-put id k (record a { revision = r }) m),
      (refl, refl, refl, omega arith),
    )
  ];
  missing = λ k p. ground (arith, lookup-put id k (record a { revision = r }) m);
}

IsRaised-refl : (m : IdMap (Item ActionState)) → IsRaised m m
IsRaised-refl m = record {
  later = λ k x p. (x, p, (refl, refl, refl, omega arith));
  missing = λ k p. p;
}

IsRaised-trans :
    (m m2 m3 : IdMap (Item ActionState)) → IsRaised m m2 → IsRaised m2 m3 → IsRaised m m3
IsRaised-trans m m2 m3 r s = record {
  later = λ k x p.
      let (y, q, l) = r.later k x p in
      let (z, q2, l2) = s.later k y q in (z, q2, IsLater-trans x y z l l2);
  missing = λ k p. s.missing k (r.missing k p);
}

pub settle-some :
    (id : ℕ) (v : Verdict) (rest : Option Pass) (pass : Pass)
    → settle id v rest ≡ some pass
    → (p : Pass) × (rest ≡ some p) × (pass.actions ≡ p.actions)
settle-some id (stays rev shader_id) none pass q = grind arith
settle-some id (stays rev shader_id) (some p) pass q = (p, refl, grind arith)
settle-some id (broken rev) none pass q = grind arith
settle-some id (broken rev) (some p) pass q = (p, refl, grind arith)

module _ (buffers : IdMap (Item BufferData)) (shaders : IdMap (Item ShaderStages)) where
  -- The loop, with the verdict's two cases in one line.
  pub process_actions-some :
      (id : ℕ) (ids : List ℕ) (curr_shader : ℕ) (actions : IdMap (Item ActionState))
      (a : Item ActionState)
      → lookup id actions ≡ some a
      → process_actions buffers shaders (id ∷ ids) curr_shader actions
        ≡ settle id (judge buffers shaders curr_shader a.revision a.content) (
            process_actions buffers shaders ids
              (next_shader curr_shader (judge buffers shaders curr_shader a.revision a.content))
              (put id
                (record a {
                  revision = verdict_rev (judge buffers shaders curr_shader a.revision a.content);
                })
                actions))
  unfolding process_actions
  process_actions-some id ids curr_shader actions a q = grind arith

  module _ (next rev : ℕ) (bs : IsStored next rev buffers) (ss : IsStored next rev shaders) where
    check_inputs-rev :
        (is : List Input) (r : ℕ)
        → r ≤ rev
        → (r ≤ (check_inputs buffers is r).1) × ((check_inputs buffers is r).1 ≤ rev)
    unfolding check_inputs
    check_inputs-rev [] r l = (omega arith, l)
    check_inputs-rev (i ∷ is) r l = elim (Option-cases (lookup i.buffer buffers)) [
      | inl out ↦ ground (arith, check_inputs-rev is r)
      | inr (b, found) ↦ ground (
        arith,
        bs.dated i.buffer b found,
        check_inputs-rev is r l,
        check_inputs-rev is (tainted r b.revision),
      )
    ]

    judge-rev :
        (curr_shader r : ℕ) (a : ActionState)
        → r ≤ rev
        → (r ≤ verdict_rev (judge buffers shaders curr_shader r a))
          × (verdict_rev (judge buffers shaders curr_shader r a) ≤ rev)
    unfolding judge
    judge-rev curr_shader r (set_shader id) l = grind (arith, ss.dated)
    judge-rev curr_shader r (set_uniforms id us) l = grind (arith, ss.dated)
    judge-rev curr_shader r (set_inputs id is) l = grind (arith, check_inputs-rev is r l)
    judge-rev curr_shader r (draw type indices first count) l = grind (arith, bs.dated)
    judge-rev curr_shader r (set_framebuffer i) l = grind arith
    judge-rev curr_shader r (set_framebuffer_state cs z) l = grind arith
    judge-rev curr_shader r (set_light i) l = grind arith
    judge-rev curr_shader r (set_local_coord_sys f t) l = grind arith
    judge-rev curr_shader r (set_view_coord_sys i) l = grind arith
    judge-rev curr_shader r (set_pixel_state i) l = grind arith
    judge-rev curr_shader r set_raster_state l = grind arith

    -- The loop keeps the map well formed, and only raises.
    pub process_actions-IsRaised :
        (ids : List ℕ) (curr_shader : ℕ) (actions : IdMap (Item ActionState)) (pass : Pass)
        → IsStored next rev actions
        → process_actions buffers shaders ids curr_shader actions ≡ some pass
        → IsStored next rev pass.actions × IsRaised actions pass.actions
    unfolding process_actions
    process_actions-IsRaised [] curr_shader actions pass s q =
        subst (λ m. IsStored next rev m × IsRaised actions m) (grind arith)
          (s, IsRaised-refl actions)
    process_actions-IsRaised (id ∷ ids) curr_shader actions pass s q =
        elim (Option-cases (lookup id actions)) [
          | inl out ↦ grind arith
          | inr (a, found) ↦
              let v = judge buffers shaders curr_shader a.revision a.content in
              let raised = put id (record a { revision = verdict_rev v }) actions in
              let bound = judge-rev curr_shader a.revision a.content (s.dated id a found) in
              let (p, r, same) =
                settle-some id v
                  (process_actions buffers shaders ids (next_shader curr_shader v) raised) pass
                  (sym (process_actions-some id ids curr_shader actions a found) ∙ q) in
              let (s2, more) =
                process_actions-IsRaised ids (next_shader curr_shader v) raised p
                  (put-IsStored next rev id actions (record a { revision = verdict_rev v }) s
                    (s.keyed id a found) (s.numbered id a found) bound.1)
                  r in
              subst (λ m. IsStored next rev m × IsRaised actions m) (sym same)
                (
                  s2,
                  IsRaised-trans actions raised p.actions
                      (put-IsRaised id a (verdict_rev v) actions found bound.0) more,
                )
        ]
