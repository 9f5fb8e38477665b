-- ===== src/Model/Exposed/Events.antt =====
-- The calls of listeners that a member function makes, and what updateElementFromString comes to.
use mathlib.Core.List.{append-nil}
use tinia.Prelude.{
  none, ◌⊎◌, inr, refl, ap, ◌+◌, ◌%◌, ◌≡◌, sym, ap₂, ◌∙◌, inl, inr, String, Bool, true, false, not,
  ◌||◌, some, List, [], ◌++◌, map, arith, str_eq, if◌then◌else◌,
}
use tinia.Prelude.Map.{find, insert, find-insert}
use tinia.Model.Errors.{Error, ok, err, key_not_found, Result-cases, >>=-eq-ok}
use tinia.Model.Types.{CppType, Platform}
use tinia.Model.ElementData.{
  ElementData, check_string, set_string_value, is_complex_type, set_revision_number,
}
use tinia.Model.Listeners.{Call, state_element_modified}
use tinia.Model.Listeners.Delivery.{audience}
use tinia.Model.Exposed.{ExposedModel, u32_mod}
use tinia.Model.Exposed.Update.{update_element, update_element_from_string, finish_update, fire_if}
use tinia.Model.Exposed.Effects.{
  update_element_cases, update_element_from_string_cases, bumped, fire_if_effect, find-insert_twice,
  with_value, set_string_value-eq,
}

fire_if_calls :
    (b : Bool) (k : String) (e : ElementData) (m : ExposedModel)
    → m.state_handler.is_buffering ≡ false
    → (fire_if b k e m).1.calls
      ≡ m.calls
        ++ (if b
            then map
                (λ l. state_element_modified l (record { key = k; data_of = e }))
                (audience m.state_handler k)
            else [])
unfolding fire_if
fire_if_calls true k e m now = ground arith
fire_if_calls false k e m now = sym (append-nil m.calls)

-- The calls that tell everybody of a key's new element: none if its text is as before and it is not
-- complex.
abbrev pub announced : ExposedModel → String → String → ElementData → List Call
announced m k before e =
    if not (str_eq before e.string_value) || is_complex_type e
    then map (λ l. state_element_modified l (record { key = k; data_of = e }))
        (audience m.state_handler k)
    else []

finish_update_calls :
    (k before : String) (e : ElementData) (m : ExposedModel)
    → m.state_handler.is_buffering ≡ false
    → (finish_update k before e m).1.calls
      ≡ m.calls ++ announced m k before (set_revision_number e m.revision_number)
unfolding finish_update
finish_update_calls k before e m now =
    let e' = set_revision_number e m.revision_number in
    let m' = record m {
      state_hash = insert k e' m.state_hash;
      revision_number = (m.revision_number + 1) % u32_mod;
    } in
    fire_if_calls (not (str_eq before e'.string_value) || is_complex_type e') k e' m' now

-- A successful updateElement with no events held back tells everybody who listens to the key of the
-- new element, each once and the general listeners first, if the text of the value has changed or
-- the element is complex, and otherwise tells nobody.
pub calls-update_element :
    (p : Platform) (t : CppType) (k : String) (v : t.Carrier) (m : ExposedModel) (e : ElementData)
    → find k m.state_hash ≡ some e
    → m.state_handler.is_buffering ≡ false
    → (update_element p t k v m).0 ≡ ok tt
    → (update_element p t k v m).1.calls
      ≡ m.calls
        ++ announced m k e.string_value
            (set_revision_number (with_value e (t.cast v)) m.revision_number)
calls-update_element p t k v m e found now done = elim (update_element_cases p t k v m) [
  | inl (x, q) ↦ ground arith
  | inr (e₀, e', found₀, _, _, _, set, q) ↦
      let same : e₀ ≡ e = ground arith in
      let w : e' ≡ with_value e (t.cast v) =
        rw (← same) (set_string_value-eq e₀ p (t.cast v) set) in
      rw q (
        finish_update_calls k e₀.string_value e'
          (record m { state_hash = insert k e' m.state_hash }) now
        ∙ ap₂
            (λ (a b : ElementData).
              m.calls ++ announced m k a.string_value (set_revision_number b m.revision_number))
            same w)
]

-- The model `m'` holds `e` at `k`, and elsewhere what `m` holds, and has taken a revision number.
abbrev pub Wrote : String → ElementData → ExposedModel → ExposedModel → Type 0
Wrote k e m m' =
    ((j : String) → find j m'.state_hash ≡ (if str_eq k j then some e else find j m.state_hash))
    × (m'.revision_number ≡ (m.revision_number + 1) % u32_mod)

if_not : (b : Bool) (xs ys : List Call) → (if not b then xs else ys) ≡ (if b then ys else xs)
if_not true xs ys = refl
if_not false xs ys = refl

refused :
    (e : ElementData) (p : Platform) (s : String) (x : Error)
    → set_string_value e p s ≡ err x
    → check_string e p s ≡ err x
unfolding set_string_value
refused e p s x h = elim (Result-cases (check_string e p s)) [
  | inl (y, q) ↦ ground arith
  | inr (u, q) ↦ ground arith
]

-- An updateElementFromString with no events held back throws and changes nothing if there is no such
-- key. Otherwise it takes a revision number. If the text is refused it throws, and the element keeps
-- its value but has the new number; nobody is told. If not, the element has the text and the number,
-- and everybody who listens to the key is told, each once, if the text is another than before.
pub update_element_from_string_outcome :
    (p : Platform) (k value : String) (m : ExposedModel)
    → m.state_handler.is_buffering ≡ false
    → let (r, m') = update_element_from_string p k value m in
      ((find k m.state_hash ≡ none) × (r ≡ err (key_not_found k)) × (m' ≡ m))
      ⊎ ((e : ElementData) × (find k m.state_hash ≡ some e)
          × (((x : Error) × (r ≡ err x)
                × (check_string (set_revision_number e m.revision_number) p value ≡ err x)
                × Wrote k (set_revision_number e m.revision_number) m m'
                × (m'.calls ≡ m.calls))
              ⊎ ((r ≡ ok tt)
                  × (check_string (set_revision_number e m.revision_number) p value ≡ ok tt)
                  × Wrote k (set_revision_number (with_value e value) m.revision_number) m m'
                  × (m'.calls
                      ≡ m.calls
                        ++ (if str_eq e.string_value value
                            then []
                            else map
                                (λ l. state_element_modified l (record {
                                  key = k;
                                  data_of =
                                      set_revision_number (with_value e value) m.revision_number;
                                }))
                                (audience m.state_handler k))))))
unfolding set_string_value set_revision_number
update_element_from_string_outcome p k value m now =
    elim (update_element_from_string_cases p k value m) [
      | inl (missing, q) ↦ inl (missing, ground arith, ground arith)
      | inr (e, found, inl (x, set, q)) ↦ inr (
        e,
        found,
        inl (
          x,
          ground arith,
          refused (set_revision_number e m.revision_number) p value x set,
          (
            (λ j. rw q (find-insert k j (set_revision_number e m.revision_number) m.state_hash)),
            ground arith,
          ),
          ground arith,
        ),
      )
      | inr (e, found, inr (e', set, q)) ↦
          let e₁ = set_revision_number e m.revision_number in
          let w = set_string_value-eq e₁ p value set in
          let written = record (bumped k e m) {
            state_hash = insert k e' (bumped k e m).state_hash;
          } in
          let b = not (str_eq e.string_value e'.string_value) in
          let (hash, rev, done) = fire_if_effect b k e' written in
          let told = fire_if_calls b k e' written now in
          inr (
            e,
            found,
            inr (
              rw q done,
              (>>=-eq-ok (check_string e₁ p value) (λ _. ok (with_value e₁ value)) {w = e'} set).1,
              (
                (λ j.
                    rw (q, hash, w) (find-insert_twice k j e₁ (with_value e₁ value) m.state_hash)),
                rw q rev,
              ),
              rw q (
                  told
                  ∙ rw w (
                      ap (λ (l : List Call). m.calls ++ l)
                        (if_not (str_eq e.string_value value) _ []))),
            ),
          )
    ]
