-- ===== src/RenderList/Grown.antt =====
-- Any run of operations, and the client that applies what DataBase::changes sends it.
use tinia.Prelude.{◌≡◌, inl, inr, some, List, [], ◌∷◌, length, arith, Option-cases, subst}
use tinia.RenderList.{DataBase}
use tinia.RenderList.Operations.{
  Operation, creates_buffer, creates_shader, creates_action, deletes_buffer, deletes_shader,
  deletes_action, bumps, clears_order, orders, orders_name, processes, sets_buffer, sets_shader,
  sets_action, perform, perform_all,
}
use tinia.RenderList.Process.{process}
use tinia.RenderList.Valid.{IsValid, HasRoom, Grows, Grows-trans, Grows-refl, IsStep}
use tinia.RenderList.Steps.{create_buffer-IsStep, create_shader-IsStep, create_action-IsStep}
use tinia.RenderList.Steps.Deletes.{
  delete_buffer-IsStep, delete_shader-IsStep, delete_action-IsStep,
}
use tinia.RenderList.Steps.Changes.{
  change_buffer-IsStep, change_shader-IsStep, change_action-IsStep,
}
use tinia.RenderList.Steps.Orders.{
  bump-IsStep, draw_order_clear-IsStep, draw_order_add-IsStep, draw_order_add_name-IsStep,
  process-IsStep,
}

pub some_eq : {A : Type 0} (x y : A) → some x ≡ some y → x ≡ y
some_eq x y q = grind arith

pub perform-IsStep :
    (o : Operation) (d d2 : DataBase)
    → IsValid d
    → HasRoom 1 d
    → perform o d ≡ some d2
    → IsStep d d2
unfolding perform
perform-IsStep (creates_buffer name) d d2 v r q =
    subst (IsStep d) (some_eq _ d2 q) (create_buffer-IsStep d v r name)
perform-IsStep (creates_shader name) d d2 v r q =
    subst (IsStep d) (some_eq _ d2 q) (create_shader-IsStep d v r name)
perform-IsStep (creates_action content name) d d2 v r q =
    subst (IsStep d) (some_eq _ d2 q) (create_action-IsStep d v r content name)
perform-IsStep (deletes_buffer id) d d2 v r q =
    subst (IsStep d) (some_eq _ d2 q) (delete_buffer-IsStep d v r id)
perform-IsStep (deletes_shader id) d d2 v r q =
    subst (IsStep d) (some_eq _ d2 q) (delete_shader-IsStep d v r id)
perform-IsStep (deletes_action id) d d2 v r q =
    subst (IsStep d) (some_eq _ d2 q) (delete_action-IsStep d v r id)
perform-IsStep bumps d d2 v r q = subst (IsStep d) (some_eq _ d2 q) (bump-IsStep d v r)
perform-IsStep clears_order d d2 v r q =
    subst (IsStep d) (some_eq _ d2 q) (draw_order_clear-IsStep d v r)
perform-IsStep (orders id) d d2 v r q =
    subst (IsStep d) (some_eq _ d2 q) (draw_order_add-IsStep d v r id)
perform-IsStep (orders_name name) d d2 v r q =
    subst (IsStep d) (some_eq _ d2 q) (draw_order_add_name-IsStep d v r name)
perform-IsStep (processes delete_unused) d d2 v r q =
    elim (Option-cases (process delete_unused d)) [
      | inl out ↦ grind arith
      | inr ((ok, d3), done) ↦
          subst (IsStep d) (grind arith) (process-IsStep d v delete_unused ok d3 done)
    ]
perform-IsStep (sets_buffer change id) d d2 v r q = change_buffer-IsStep d v r change id d2 q
perform-IsStep (sets_shader change id) d d2 v r q = change_shader-IsStep d v r change id d2 q
perform-IsStep (sets_action change id) d d2 v r q = change_action-IsStep d v r change id d2 q

-- A run of operations that follows no dangling pointer keeps the database valid, while the counters
-- have room for them all; and nothing that a holder of the old revision must hear of is lost.
pub perform_all-IsValid :
    (os : List Operation) (d d2 : DataBase)
    → IsValid d
    → HasRoom (length os) d
    → perform_all os d ≡ some d2
    → IsValid d2 × Grows d d2
unfolding perform_all
perform_all-IsValid [] d d2 v r q =
    subst (λ e. IsValid e × Grows d e) (some_eq d d2 q) (v, Grows-refl d)
perform_all-IsValid (o ∷ os) d d2 v r q = elim (Option-cases (perform o d)) [
  | inl out ↦ grind arith
  | inr (d3, done) ↦
      let step = perform-IsStep o d d3 v (omega arith) done in
      let (v2, g) =
        perform_all-IsValid os d3 d2 step.valid
          (omega (arith, step.ids_bound, step.revisions_bound)) (grind arith) in
      (v2, Grows-trans d d3 d2 step.grows g)
]
