-- ===== src/Examples/Model.antt =====
-- The theorems on the exposed model, at concrete calls.
use tinia.Prelude.{◌≡◌, refl, ◌≢◌, String, none, [], ◌∷◌, arith}
use tinia.Prelude.Map.{find}
use tinia.Model.Errors.{ok}
use tinia.Model.Exposed.{ExposedModel, new_model}
use tinia.Model.Exposed.Requests.{
  add, update, update_text, run, request, remove, annotate, add_listener, mutate, mutate_all,
}
use tinia.Model.Exposed.Update.{update_element}
use tinia.Model.Exposed.Query.{get_element_value, get_exposed_model_update}
use tinia.Model.Exposed.Invariant.{IsValid, new_model-IsValid, mutate_all-IsValid}
use tinia.Model.Exposed.Sync.{
  put_over, put_over-update, update-IsValid-none, update-unnumbered_none,
}
use tinia.Model.Exposed.Values.{get_element_value-update_element, get_element_value-add_element}
use tinia.Model.Exposed.Add.{add_element}
use tinia.Model.Factory.{create_element}
use tinia.Examples.{digit_type, demo}

-- A model with a number at "a" and a listener 7 to all of it.
abbrev counting : ExposedModel
counting = mutate_all demo (add_listener 7 ∷ request (add digit_type "a" 3 "") ∷ []) new_model

counting-IsValid : IsValid counting
unfolding new_model
counting-IsValid = mutate_all-IsValid demo _ new_model (omega arith) new_model-IsValid

counting-revision : counting.revision_number ≡ 2
unfolding mutate_all add_element new_model create_element
counting-revision = refl

mutate_all-IsValid_example :
    IsValid (mutate_all demo (request (update digit_type "a" 4) ∷ remove "a" ∷ []) counting)
mutate_all-IsValid_example =
    mutate_all-IsValid demo _ counting (omega (arith, counting-revision)) counting-IsValid

put_over-update_example :
    let rs = update digit_type "a" 4 ∷ add digit_type "b" 5 "" ∷ update_text "a" "x" ∷ [] in
    put_over
      (find "a" (get_exposed_model_update counting.revision_number (run demo rs counting)))
      (find "a" counting.state_hash)
    ≡ find "a" (run demo rs counting).state_hash
put_over-update_example =
    put_over-update demo _ counting "a" counting-IsValid (omega (arith, counting-revision))

counting-update : (update_element demo digit_type "a" 4 counting).0 ≡ ok tt
unfolding update_element mutate_all add_element new_model create_element
counting-update = refl

get_element_value-update_element_example :
    let m' = (update_element demo digit_type "a" 4 counting).1 in
    ((get_element_value demo digit_type "a" m').0 ≡ ok 4)
    × ((j : String) → "a" ≢ j → find j m'.state_hash ≡ find j counting.state_hash)
get_element_value-update_element_example =
    get_element_value-update_element demo digit_type "a" 4 counting refl counting-update

b-missing : find "b" counting.state_hash ≡ none
unfolding mutate_all add_element new_model create_element find
b-missing = refl

get_element_value-add_element_example :
    let (r, m') = add_element demo digit_type "b" 5 "A number" counting in
    (r ≡ ok tt)
    × ((get_element_value demo digit_type "b" m').0 ≡ ok 5)
    × ((j : String) → "b" ≢ j → find j m'.state_hash ≡ find j counting.state_hash)
get_element_value-add_element_example =
    get_element_value-add_element demo digit_type "b" 5 "A number" counting refl b-missing

update-IsValid-none_example :
    find "a" (get_exposed_model_update counting.revision_number counting) ≡ none
update-IsValid-none_example = update-IsValid-none counting "a" counting-IsValid

update-unnumbered_none_example :
    find "a" (
      get_exposed_model_update counting.revision_number
        (mutate demo (annotate "a" "A number") counting))
    ≡ none
update-unnumbered_none_example =
    update-unnumbered_none demo (annotate "a" "A number") counting "a" counting-IsValid
      (omega (arith, counting-revision)) tt
