-- ===== src/Model/Exposed/Locked.antt =====
-- Changes inside an ExposedModelLock (src/model/ExposedModelLock.cpp).
use mathlib.Core.List.{append-nil, append_assoc}
use tinia.Prelude.{
  ◌≡◌, refl, sym, ap, ap₂, ◌∙◌, inl, inr, String, Bool, true, false, not, ◌||◌, List, [], ◌∷◌, ◌++◌,
  arith, str_eq, Option-cases, Bool-cases,
}
use tinia.Prelude.Int.{pos, succ}
use tinia.Prelude.Map.{find, insert}
use tinia.Model.Types.{CppType, Platform, get_typename}
use tinia.Model.Errors.{ok, Result-cases}
use tinia.Model.ElementData.{
  ElementData, set_string_value, set_revision_number, is_complex_type, invalid_constraints,
  violating_restriction,
}
use tinia.Model.Listeners.{
  StateElement, Call, StateListenerHandler, fire_modified, fire_all, release_events, hold_events,
}
use tinia.Model.Exposed.{ExposedModel, M}
use tinia.Model.Exposed.Update.{
  update_element, update_simple, update_element_from_string, finish_update, fire_if,
  hold_state_events, release_state_events, with_lock,
}
use tinia.Model.Exposed.Effects.{bumped}

-- A call of updateElement or updateElementFromString.
pub data Change : Type 1 where
  set_value : (t : CppType) → String → t.Carrier → Change
  set_text : String → String → Change

module _ (p : Platform) where
  pub make : Change → ExposedModel → ExposedModel
  make (set_value t k v) m = (update_element p t k v m).1
  make (set_text k s) m = (update_element_from_string p k s m).1

  -- The calls one after another, whether they succeed or throw.
  pub make_all : List Change → M (Unit {0})
  make_all [] m = (ok tt, m)
  make_all (c ∷ cs) m = make_all cs (make c m)

abbrev settled : StateListenerHandler → StateListenerHandler
settled h = record h { buffer = []; is_buffering = false }

fire_modified-settled :
    (h : StateListenerHandler) (e : StateElement)
    → h.is_buffering ≡ false
    → (settled (fire_modified h e).0 ≡ (fire_modified (settled h) e).0)
      × ((fire_modified h e).1 ≡ (fire_modified (settled h) e).1)
      × ((fire_modified h e).0.is_buffering ≡ false)
unfolding fire_modified
fire_modified-settled h e now = (rw now refl, rw now refl, rw now refl)

-- What is told does not depend on what is held back.
fire_all-settled :
    (h : StateListenerHandler) (es : List StateElement)
    → h.is_buffering ≡ false
    → (settled (fire_all h es).0 ≡ (fire_all (settled h) es).0)
      × ((fire_all h es).1 ≡ (fire_all (settled h) es).1)
      × ((fire_all h es).0.is_buffering ≡ false)
unfolding fire_all
fire_all-settled h [] now = (refl, refl, now)
fire_all-settled h (e ∷ es) now =
    let (same, told, still) = fire_modified-settled h e now in
    let (same_rest, told_rest, still_rest) = fire_all-settled (fire_modified h e).0 es still in
    (
      same_rest ∙ ap (λ (t : StateListenerHandler). (fire_all t es).0) same,
      ap₂ (λ (xs ys : List Call). xs ++ ys) told
          (told_rest ∙ ap (λ (t : StateListenerHandler). (fire_all t es).1) same),
      still_rest,
    )

fire_all-append :
    (h : StateListenerHandler) (es : List StateElement) (e : StateElement)
    → (fire_all h (es ++ e ∷ [])).0 ≡ (fire_modified (fire_all h es).0 e).0
unfolding fire_all
fire_all-append h [] e = refl
fire_all-append h (x ∷ es) e = fire_all-append (fire_modified h x).0 es e

told-append :
    (h : StateListenerHandler) (es : List StateElement) (e : StateElement)
    → (fire_all h (es ++ e ∷ [])).1 ≡ (fire_all h es).1 ++ (fire_modified (fire_all h es).0 e).1
unfolding fire_all
told-append h [] e = append-nil (fire_modified h e).1
told-append h (x ∷ es) e =
    ap (λ (t : List Call). (fire_modified h x).1 ++ t) (told-append (fire_modified h x).0 es e)
    ∙ sym (
        append_assoc (fire_modified h x).1 (fire_all (fire_modified h x).0 es).1
          (fire_modified (fire_all (fire_modified h x).0 es).0 e).1)

-- The model once the events that are held back have been let go.
abbrev let_go : ExposedModel → ExposedModel
let_go m =
    let (h, made) = fire_all (settled m.state_handler) m.state_handler.buffer in
    record m { hold_event_counter = pos 0; state_handler = h; calls = m.calls ++ made }

abbrev IsHeld : ExposedModel → Type 0
IsHeld m = (m.hold_event_counter ≡ pos 1) × (m.state_handler.is_buffering ≡ true)

-- A step inside the lock tells nobody, and letting go behind it comes to letting go before it.
abbrev Waits : (ExposedModel → ExposedModel) → ExposedModel → Type 0
Waits f m = (let_go (f m) ≡ f (let_go m)) × IsHeld (f m) × ((f m).calls ≡ m.calls)

fire_if-Waits :
    (b : Bool) (k : String) (e : ElementData) (m : ExposedModel)
    → IsHeld m
    → Waits (λ n. (fire_if b k e n).1) m
unfolding fire_if
fire_if-Waits false k e m held = (refl, held, refl)
fire_if-Waits true k e m held =
    let new : StateElement = record { key = k; data_of = e } in
    let h = m.state_handler in
    let buffered : fire_modified h new ≡ (record h { buffer = h.buffer ++ new ∷ [] }, []) =
      unfold fire_modified in rw held.1 refl in
    (
      ap
            (λ (r : StateListenerHandler × List Call).
              let_go (record m { state_handler = r.0; calls = m.calls ++ r.1 }))
            buffered
          ∙ (λ i. record m {
            hold_event_counter = pos 0;
            state_handler = fire_all-append (settled h) h.buffer new i;
            calls = append-nil m.calls i ++ told-append (settled h) h.buffer new i;
          })
          ∙ λ i. record m {
            hold_event_counter = pos 0;
            state_handler = (fire_modified (fire_all (settled h) h.buffer).0 new).0;
            calls =
                sym
                  (append_assoc m.calls (fire_all (settled h) h.buffer).1
                    (fire_modified (fire_all (settled h) h.buffer).0 new).1)
                  i;
          },
      (held.0, ap (λ (r : StateListenerHandler × List Call). r.0.is_buffering) buffered ∙ held.1),
      ap (λ (r : StateListenerHandler × List Call). m.calls ++ r.1) buffered ∙ append-nil m.calls,
    )

by_writes :
    (f : ExposedModel → ExposedModel) (m m₁ n₁ : ExposedModel)
    → f m ≡ m₁
    → f (let_go m) ≡ n₁
    → (let_go m₁ ≡ n₁) × IsHeld m₁ × (m₁.calls ≡ m.calls)
    → Waits f m
by_writes f m m₁ n₁ a b (same, held, quiet) = (
  ap let_go a ∙ same ∙ sym b,
  (
    ap (λ (t : ExposedModel). t.hold_event_counter) a ∙ held.0,
    ap (λ (t : ExposedModel). t.state_handler.is_buffering) a ∙ held.1,
  ),
  ap (λ (t : ExposedModel). t.calls) a ∙ quiet,
)

set_text-Waits :
    (p : Platform) (k s : String) (m : ExposedModel)
    → IsHeld m
    → Waits (λ n. (update_element_from_string p k s n).1) m
unfolding update_element_from_string
set_text-Waits p k s m held = elim (Option-cases (find k m.state_hash)) [
  | inl q ↦ ground arith
  | inr (e, q) ↦
      elim (Result-cases (set_string_value (set_revision_number e m.revision_number) p s)) [
        | inl (x, r) ↦ ground arith
        | inr (e', r) ↦
            let wrote = bumped k e m in
            let wrote = record wrote { state_hash = insert k e' wrote.state_hash } in
            let b = not (str_eq e.string_value e'.string_value) in
            by_writes (λ n. (update_element_from_string p k s n).1) m (fire_if b k e' wrote).1
              (fire_if b k e' (let_go wrote)).1 (ground arith) (ground arith)
              (fire_if-Waits b k e' wrote held)
      ]
]

set_value-Waits :
    (p : Platform) (t : CppType) (k : String) (v : t.Carrier) (m : ExposedModel)
    → IsHeld m
    → Waits (λ n. (update_element p t k v n).1) m
unfolding update_element update_simple finish_update
set_value-Waits p t k v m held = elim (Option-cases (find k m.state_hash)) [
  | inl q ↦ ground arith
  | inr (e, q) ↦ elim (Bool-cases (str_eq e.xsd_type (get_typename t.name))) [
    | inr other ↦ ground arith
    | inl same ↦ elim (Result-cases (invalid_constraints t e v)) [
      | inl (x, i) ↦ ground arith
      | inr (true, i) ↦ ground arith
      | inr (false, i) ↦ elim (Bool-cases (violating_restriction t e v)) [
        | inl bad ↦ ground arith
        | inr fine ↦ elim (Result-cases (set_string_value e p (t.cast v))) [
          | inl (x, r) ↦ ground arith
          | inr (e', r) ↦
              let e₂ = set_revision_number e' m.revision_number in
              let wrote = bumped k e' (record m { state_hash = insert k e' m.state_hash }) in
              let b = not (str_eq e.string_value e₂.string_value) || is_complex_type e₂ in
              by_writes (λ n. (update_element p t k v n).1) m (fire_if b k e₂ wrote).1
                (fire_if b k e₂ (let_go wrote)).1 (ground arith) (ground arith)
                (fire_if-Waits b k e₂ wrote held)
        ]
      ]
    ]
  ]
]

make_all-Waits :
    (p : Platform) (cs : List Change) (m : ExposedModel)
    → IsHeld m
    → Waits (λ n. (make_all p cs n).1) m
unfolding make_all make
make_all-Waits p [] m held = (refl, held, refl)
make_all-Waits p (set_value t k v ∷ cs) m held =
    let (same, still, quiet) = set_value-Waits p t k v m held in
    let (same_rest, end, quiet_rest) = make_all-Waits p cs (update_element p t k v m).1 still in
    (same_rest ∙ ap (λ n. (make_all p cs n).1) same, end, quiet_rest ∙ quiet)
make_all-Waits p (set_text k s ∷ cs) m held =
    let (same, still, quiet) = set_text-Waits p k s m held in
    let (same_rest, end, quiet_rest) =
      make_all-Waits p cs (update_element_from_string p k s m).1 still in
    (same_rest ∙ ap (λ n. (make_all p cs n).1) same, end, quiet_rest ∙ quiet)

release-let_go : (m : ExposedModel) → IsHeld m → (release_state_events m).1 ≡ let_go m
unfolding release_state_events release_events
release-let_go m held =
    let h : StateListenerHandler = record m.state_handler { is_buffering = false } in
    let (same, told, now) = fire_all-settled h m.state_handler.buffer refl in
    let end : record (fire_all h m.state_handler.buffer).0 { buffer = [] }
        ≡ (fire_all (settled h) m.state_handler.buffer).0 =
      (λ i. record (fire_all h m.state_handler.buffer).0 { buffer = []; is_buffering = now i })
      ∙ same in
    rw held.0 (λ i. record m {
      hold_event_counter = pos 0;
      state_handler = end i;
      calls = m.calls ++ told i;
    })

let_go-hold :
    (m : ExposedModel)
    → m.hold_event_counter ≡ pos 0
    → m.state_handler.buffer ≡ []
    → m.state_handler.is_buffering ≡ false
    → let_go (hold_state_events m).1 ≡ m
unfolding hold_state_events hold_events fire_all
let_go-hold m free empty now =
    (λ i. record m {
      hold_event_counter = pos 0;
      state_handler = (fire_all (settled m.state_handler) (empty i)).0;
      calls = m.calls ++ (fire_all (settled m.state_handler) (empty i)).1;
    })
    ∙ λ i. record m {
      hold_event_counter = sym free i;
      state_handler = record m.state_handler { buffer = sym empty i; is_buffering = sym now i };
      calls = append-nil m.calls i;
    }

-- Inside an ExposedModelLock that is the outermost one, with no event waiting, a sequence of calls of
-- updateElement and updateElementFromString, whether they succeed or throw, calls no listener before
-- the lock is released; and the release leaves the model that the same calls leave with no lock: the
-- same elements, and the same calls of listeners in the same order.
pub with_lock-make_all :
    (p : Platform) (cs : List Change) (m : ExposedModel)
    → m.hold_event_counter ≡ pos 0
    → m.state_handler.buffer ≡ []
    → m.state_handler.is_buffering ≡ false
    → ((make_all p cs (hold_state_events m).1).1.calls ≡ m.calls)
      × ((with_lock (make_all p cs) m).1 ≡ (make_all p cs m).1)
unfolding with_lock hold_state_events hold_events
with_lock-make_all p cs m free empty now =
    let (same, still, quiet) = make_all-Waits p cs (hold_state_events m).1 (ap succ free, refl) in
    (
      quiet,
      release-let_go (make_all p cs (hold_state_events m).1).1 still
          ∙ same
          ∙ ap (λ n. (make_all p cs n).1) (let_go-hold m free empty now),
    )
