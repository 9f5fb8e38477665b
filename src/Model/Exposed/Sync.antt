-- ===== src/Model/Exposed/Sync.antt =====
-- The update that a client polls for: getExposedModelUpdate and what a client makes of it.
use tinia.Prelude.{
  ℕ, ◌+◌, ◌<◌, ◌≡◌, refl, sym, ◌∙◌, ◌≢◌, ◌⊎◌, inl, inr, String, Bool, Option, none, some, List,
  length, arith, [],
}
use tinia.Prelude.Map.{find, only, find-select, IsSorted}
use tinia.Model.Types.{Platform}
use tinia.Model.Errors.{Result-cases}
use tinia.Model.ElementData.{ElementData}
use tinia.Model.Annotations.{annotation_map}
use tinia.Model.Exposed.{ExposedModel, u32_mod}
use tinia.Model.Exposed.Query.{get_exposed_model_update, changed_since}
use tinia.Model.Exposed.Requests.{
  Request, run, Mutation, annotate, annotate_all, restrict, constrain, remove, mutate,
}
use tinia.Model.Exposed.Add.{add_annotation, add_annotations, remove_element}
use tinia.Model.Exposed.Update.{update_constraints, update_restrictions}
use tinia.Model.Exposed.Marked.{Fresh, run-Since}
use tinia.Model.Exposed.Invariant.{IsValid, Below, run-Keyed, mutate-IsValid}

-- What a client holds at a key after it has put an update over what it held.
abbrev pub put_over : Option ElementData → Option ElementData → Option ElementData
put_over none held = held
put_over (some e) held = some e

newer_selected : (r s : ℕ) (o : Option ElementData) → Fresh r s o → only (changed_since r) o ≡ o
unfolding changed_since
newer_selected r s none f = absurd f
newer_selected r s (some e) f = ground arith

older_passed_over : (r : ℕ) (o : Option ElementData) → Below r o → only (changed_since r) o ≡ none
unfolding changed_since
older_passed_over r none b = refl
older_passed_over r (some e) b = ground arith

-- What a poll finds at a key.
find-update :
    (r : ℕ) (m : ExposedModel) (k : String)
    → IsSorted m.state_hash
    → find k (get_exposed_model_update r m) ≡ only (changed_since r) (find k m.state_hash)
unfolding get_exposed_model_update
find-update r m k s = find-select (changed_since r) k m.state_hash s

put_over-only :
    (p : ElementData → Bool) (o held : Option ElementData)
    → (o ≡ held) ⊎ (only p o ≡ o)
    → o ≢ none ⊎ (o ≡ held)
    → put_over (only p o) held ≡ o
put_over-only p none held h (inl some_one) = absurd (some_one refl)
put_over-only p none held h (inr same) = sym same
put_over-only p (some e) held h n = ground arith

some_of_Fresh : (r s : ℕ) (o : Option ElementData) → Fresh r s o → o ≢ none
some_of_Fresh r s none f e = f
some_of_Fresh r s (some e) f q = cc q

-- A client that holds the state of revision r, and puts the update since r over it, holds the
-- current state at every key, after any sequence of calls that add or update elements, whether they
-- succeed or throw, as long as the revision counter has that many numbers left.
pub put_over-update :
    (p : Platform) (rs : List (Request p)) (m : ExposedModel) (k : String)
    → IsValid m
    → m.revision_number + length rs < u32_mod
    → put_over
        (find k (get_exposed_model_update m.revision_number (run p rs m)))
        (find k m.state_hash)
      ≡ find k (run p rs m).state_hash
put_over-update p rs m k v room =
    let m' = run p rs m in
    let o = find k m'.state_hash in
    rw (find-update m.revision_number m' k (run-Keyed p rs m v.keyed))
      (elim (run-Since p k rs m room).1 [
        | inl same ↦ put_over-only _ o _ (inl same) (inr same)
        | inr new ↦
            put_over-only _ o _ (inr (newer_selected m.revision_number m'.revision_number o new))
              (inl (some_of_Fresh m.revision_number m'.revision_number o new))
      ])

-- A client that is up to date is sent nothing.
pub update-IsValid-none :
    (m : ExposedModel) (k : String)
    → IsValid m
    → find k (get_exposed_model_update m.revision_number m) ≡ none
update-IsValid-none m k v =
    find-update m.revision_number m k v.keyed
    ∙ older_passed_over m.revision_number (find k m.state_hash) (v.below k)

-- The calls that write an element, or erase it, and leave the revision counter alone.
abbrev pub IsUnnumbered : {p : Platform} → Mutation p → Type 0
IsUnnumbered (annotate k text) = Unit
IsUnnumbered (annotate_all k texts) = Unit
IsUnnumbered (restrict k v allowed) = Unit
IsUnnumbered (constrain t k v low high) = Unit
IsUnnumbered (remove k) = Unit
IsUnnumbered _ = ⊥

unnumbered-revision :
    (p : Platform) (c : Mutation p) (m : ExposedModel)
    → IsUnnumbered c
    → (mutate p c m).revision_number ≡ m.revision_number
unfolding mutate
unnumbered-revision p (annotate k text) m u = unfold add_annotation in grind arith
unnumbered-revision p (annotate_all k texts) m u = elim (Result-cases (annotation_map [] texts)) [
  | inl (x, q) ↦ unfold add_annotations in ground arith
  | inr (annotations, q) ↦ unfold add_annotations in grind arith
]
unnumbered-revision p (restrict k w allowed) m u = unfold update_restrictions in grind arith
unnumbered-revision p (constrain t k w low high) m u = unfold update_constraints in grind arith
unnumbered-revision p (remove k) m u = unfold remove_element in grind arith
unnumbered-revision p _ m u = absurd u

-- What updateConstraints, updateRestrictions, addAnnotation and removeElement do to a valid model is
-- in no update: a client that polls with the revision number from before the call is sent nothing.
pub update-unnumbered_none :
    (p : Platform) (c : Mutation p) (m : ExposedModel) (k : String)
    → IsValid m
    → m.revision_number + 1 < u32_mod
    → IsUnnumbered c
    → find k (get_exposed_model_update m.revision_number (mutate p c m)) ≡ none
unfolding mutate
update-unnumbered_none p c m k v room u =
    rw (unnumbered-revision p c m u) at
      (update-IsValid-none (mutate p c m) k (mutate-IsValid p c m room v))
