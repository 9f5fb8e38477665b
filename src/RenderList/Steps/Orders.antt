-- ===== src/RenderList/Steps/Orders.antt =====
-- The draw order, bump and process are steps.
use tinia.Prelude.{
  ℕ, ◌≡◌, inl, inr, String, Bool, true, some, List, [], ◌∷◌, ◌++◌, arith, Option-cases, subst,
}
use tinia.Prelude.IdMap.{IdMap, lookup}
use tinia.RenderList.{
  Item, ActionState, buffer, shader, action, DataBase, next_revision, bump, draw_order_clear,
  draw_order_add, draw_order_add_name, item_by_name, undefined_id,
}
use tinia.RenderList.Stored.{HasGrown, IsLater}
use tinia.RenderList.Process.{Pass, process_actions, process}
use tinia.RenderList.Raised.{IsRaised, process_actions-IsRaised}
use tinia.RenderList.Valid.{IsValid, HasRoom, IsStep}
use tinia.RenderList.Steps.{
  Counts, make-IsStep, kept-Moves, rev-suc, NamesStay, NamesStay-refl, item_name-old,
}
use tinia.RenderList.Steps.Deletes.{refl-IsStep}

module _ (d : DataBase) (v : IsValid d) (room : HasRoom 1 d) where
  ordered-IsStep : (order : List ℕ) → IsStep d (next_revision true (record d { draworder = order }))
  ordered-IsStep order =
      let d2 = next_revision true (record d { draworder = order }) in
      let c = ordered-Counts order in
      make-IsStep d d2 c (kept-Moves d d2 c d.buffers v.buffers_IsStored)
        (kept-Moves d d2 c d.shaders v.shaders_IsStored)
        (kept-Moves d d2 c d.actions v.actions_IsStored) v.named
    where
      ordered-Counts : (os : List ℕ) → Counts d (next_revision true (record d { draworder = os }))
      ordered-Counts os = record {
        ids = omega arith;
        revisions = omega (arith, rev-suc d v room);
        deletions = omega (arith, rev-suc d v room, v.deleted);
        dates = omega (arith, rev-suc d v room, v.processed);
      }

  pub bump-IsStep : IsStep d (bump d).1
  bump-IsStep =
      let d2 = (bump d).1 in
      let c = bump-Counts in
      make-IsStep d d2 c (kept-Moves d d2 c d.buffers v.buffers_IsStored)
        (kept-Moves d d2 c d.shaders v.shaders_IsStored)
        (kept-Moves d d2 c d.actions v.actions_IsStored) v.named
    where
      bump-Counts : Counts d (bump d).1
      bump-Counts = record {
        ids = omega arith;
        revisions = omega (arith, rev-suc d v room);
        deletions = omega (arith, rev-suc d v room, v.deleted);
        dates = omega (arith, rev-suc d v room, v.ordered, v.processed);
      }

  pub draw_order_clear-IsStep : IsStep d (draw_order_clear d)
  draw_order_clear-IsStep = ordered-IsStep []

  pub draw_order_add-IsStep : (id : ℕ) → IsStep d (draw_order_add id d)
  unfolding draw_order_add
  draw_order_add-IsStep id = elim (Option-cases (lookup id d.actions)) [
    | inl out ↦ subst (IsStep d) (grind arith) (refl-IsStep d v)
    | inr (a, found) ↦ subst (IsStep d) (grind arith) (ordered-IsStep (d.draworder ++ id ∷ []))
  ]

  pub draw_order_add_name-IsStep : (name : String) → IsStep d (draw_order_add_name name d)
  unfolding draw_order_add_name
  draw_order_add_name-IsStep name = elim (Option-cases (item_by_name name d)) [
    | inl out ↦ subst (IsStep d) (grind arith) (refl-IsStep d v)
    | inr (buffer id, found) ↦ subst (IsStep d) (grind arith) (refl-IsStep d v)
    | inr (shader id, found) ↦ subst (IsStep d) (grind arith) (refl-IsStep d v)
    | inr (action id, found) ↦
        subst (IsStep d) (grind arith) (ordered-IsStep (d.draworder ++ id ∷ []))
  ]

-- Raised actions have grown, and kept their names.
raised-HasGrown :
    (rev del : ℕ) (m m2 : IdMap (Item ActionState)) → IsRaised m m2 → HasGrown rev del m m2
raised-HasGrown rev del m m2 r = record {
  was = λ k y q l. elim (Option-cases (lookup k m)) [
    | inl out ↦ grind (arith, r.missing k out)
    | inr (x, found) ↦
        let (z, q2, later) = r.later k x found in (x, found, subst (IsLater x) (grind arith) later)
  ];
  gone = λ k x q out. grind (arith, r.later k x q);
}

raised-NamesStay : (m m2 : IdMap (Item ActionState)) → IsRaised m m2 → NamesStay m m2
raised-NamesStay m m2 r k n q = elim (Option-cases (lookup k m)) [
  | inl out ↦ grind arith
  | inr (x, found) ↦ let (z, q2, later) = r.later k x found in grind (arith, later.1)
]

module _ (d : DataBase) (v : IsValid d) where
  processed-IsStep :
      (pass : Pass)
      → process_actions d.buffers d.shaders d.draworder undefined_id d.actions ≡ some pass
      → IsStep d (record d {
        actions = pass.actions;
        draworder = pass.draw_order;
        process_rev = d.current_rev;
      })
  processed-IsStep pass q =
      let d2 = record d {
        actions = pass.actions;
        draworder = pass.draw_order;
        process_rev = d.current_rev;
      } in
      let (s, r) =
        process_actions-IsRaised d.buffers d.shaders d.next_id d.current_rev v.buffers_IsStored
          v.shaders_IsStored d.draworder undefined_id d.actions pass v.actions_IsStored q in
      let c : Counts d d2 = record {
        ids = omega arith;
        revisions = omega arith;
        deletions = omega (arith, v.deleted);
        dates = omega (arith, v.ordered);
      } in
      make-IsStep d d2 c (kept-Moves d d2 c d.buffers v.buffers_IsStored)
        (kept-Moves d d2 c d.shaders v.shaders_IsStored)
        (s, raised-HasGrown d.current_rev d.deletion_rev d.actions pass.actions r)
        (λ n i p. (
          item_name-old d d2 (NamesStay-refl d.buffers) (NamesStay-refl d.shaders)
              (raised-NamesStay d.actions pass.actions r) i n (v.named n i p).0,
          (v.named n i p).1,
        ))

  pub process-IsStep :
      (delete_unused ok : Bool) (d2 : DataBase)
      → process delete_unused d ≡ some (ok, d2)
      → IsStep d d2
  unfolding process
  process-IsStep delete_unused ok d2 q =
      elim (Option-cases (process_actions d.buffers d.shaders d.draworder undefined_id d.actions)) [
        | inl out ↦ grind arith
        | inr (pass, found) ↦ subst (IsStep d) (grind arith) (processed-IsStep pass found)
      ]
