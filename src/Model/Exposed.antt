-- ===== src/Model/Exposed.antt =====
-- ExposedModel (include/tinia/model/ExposedModel.hpp, src/model/ExposedModel.cpp): the state and
-- the private member functions. The public ones are in the modules below, and what is proved of
-- them. Every public function holds the recursive mutex from its first access to its return, so a
-- call is one step; an exception leaves what was written before it.
pub mod Add
pub mod Update
pub mod Query
pub mod Effects
pub mod Layouts
pub mod Requests
pub mod Marked
pub mod Keyed
pub mod Invariant
pub mod Sync
pub mod Values
pub mod Restrictions
pub mod Events
pub mod Locked
use tinia.Prelude.{ℕ, ◌+◌, ◌%◌, ◌^◌, String, Bool, Option, none, some, List, [], ◌++◌}
use tinia.Prelude.Int.{ℤ, pos}
use tinia.Prelude.Map.{Map, find, insert}
use tinia.Model.Errors.{Error, Result, ok, err, key_not_found, existing_key}
use tinia.Model.ElementData.{ElementData, set_revision_number}
use tinia.Model.Listeners.{
  Call, StateListenerHandler, StateSchemaListenerHandler, new_state_listener_handler,
  new_state_schema_listener_handler, fire_modified, fire_schema_added, fire_schema_removed,
  fire_schema_modified,
}
use tinia.Model.Layout.{Element}

pub record ExposedModel : Type 0 where
  pub state_hash : Map ElementData
  -- unsigned int
  pub revision_number : ℕ
  pub schema_handler : StateSchemaListenerHandler
  pub state_handler : StateListenerHandler
  pub gui : Option Element
  pub hold_event_counter : ℤ
  -- The calls of listeners so far, the oldest first.
  pub calls : List Call

unfoldable pub new_model : ExposedModel
new_model = record {
  state_hash = [];
  revision_number = 1;
  schema_handler = new_state_schema_listener_handler;
  state_handler = new_state_listener_handler;
  gui = none;
  hold_event_counter = pos 0;
  calls = [];
}

abbrev pub M : Type 0 → Type 0
M A = ExposedModel → Result A × ExposedModel

module _ {A : Type 0} where
  abbrev pub pure : A → M A
  pure a m = (ok a, m)

  abbrev pub throw : Error → M A
  throw e m = (err e, m)

  abbrev pub lift : Result A → M A
  lift r m = (r, m)

  abbrev pub gets : (ExposedModel → A) → M A
  gets f m = (ok (f m), m)

abbrev pub modify : (ExposedModel → ExposedModel) → M (Unit {0})
modify f m = (ok tt, f m)

infixl 5 ◌>>=◌ ◌>>◌
abbrev pub ◌>>=◌ : {A B : Type 0} → M A → (A → M B) → M B
◌>>=◌ c f m = let (r, m') = c m in elim r [ ok a ↦ f a m' | err e ↦ (err e, m') ]

abbrev pub ◌>>◌ : {B : Type 0} → M (Unit {0}) → M B → M B
c >> k = c >>= λ _. k

abbrev or_missing : String → Option ElementData → M ElementData
or_missing k none = throw (key_not_found k)
or_missing k (some e) = pure e

-- findElementInternal
unfoldable pub find_element : String → M ElementData
find_element k m = or_missing k (find k m.state_hash) m

-- A write through the reference that findElementInternal returned, or stateHash[key] = e.
unfoldable pub store : String → ElementData → M (Unit {0})
store k e = modify (λ m. record m { state_hash = insert k e m.state_hash })

abbrev pub u32_mod : ℕ
u32_mod = 2 ^ 32

-- incrementRevisionNumber: the element with its new number. (The number goes through an int and
-- back to unsigned, which keeps it.)
unfoldable pub increment_revision_number : ElementData → M ElementData
unfolding set_revision_number
increment_revision_number e m = (
  ok (set_revision_number e m.revision_number),
  record m { revision_number = (m.revision_number + 1) % u32_mod },
)

abbrev refuse_existing : String → Option ElementData → M (Unit {0})
refuse_existing k none = pure tt
refuse_existing k (some e) = throw (existing_key k)

unfoldable pub add_element_error_checking : String → M (Unit {0})
add_element_error_checking k m = refuse_existing k (find k m.state_hash) m

unfoldable pub update_state_hash : String → ElementData → M ElementData
unfolding increment_revision_number store
update_state_hash k e = do e' ← increment_revision_number e; store k e'; pure e'

unfoldable pub fire_state_element_modified : String → ElementData → M (Unit {0})
unfolding fire_modified
fire_state_element_modified k e m =
    let (h, made) = fire_modified m.state_handler (record { key = k; data_of = e }) in
    (ok tt, record m { state_handler = h; calls = m.calls ++ made })

unfoldable pub fire_state_schema_element_added : String → ElementData → M (Unit {0})
unfolding fire_schema_added
fire_state_schema_element_added k e = modify (λ m. record m {
  calls = m.calls ++ fire_schema_added m.schema_handler (record { key = k; data_of = e });
})

unfoldable pub fire_state_schema_element_removed : String → ElementData → M (Unit {0})
unfolding fire_schema_removed
fire_state_schema_element_removed k e = modify (λ m. record m {
  calls = m.calls ++ fire_schema_removed m.schema_handler (record { key = k; data_of = e });
})

unfoldable pub fire_state_schema_element_modified : String → ElementData → M (Unit {0})
unfolding fire_schema_modified
fire_state_schema_element_modified k e = modify (λ m. record m {
  calls = m.calls ++ fire_schema_modified m.schema_handler (record { key = k; data_of = e });
})
