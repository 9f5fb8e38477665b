-- ===== src/Model/Listeners.antt =====
-- impl::StateListenerHandler and impl::StateSchemaListenerHandler (src/model, and the headers in
-- include/tinia/model/impl), with the elements that they hand out (StateElement, StateSchemaElement).
-- A listener is a number, the identity of its pointer; a call of it is an entry of a list. What a
-- listener does when it is called is the client's code: it is taken not to call the model back.
pub mod Delivery
use tinia.Prelude.{
  ℕ, String, Bool, true, false, Option, none, some, List, [], ◌∷◌, ◌++◌, map, if◌then◌else◌, ◌==◌,
}
use tinia.Prelude.Map.{Map, find, insert, erase}
use tinia.Model.ElementData.{ElementData}

pub record StateElement : Type 0 where
  pub key : String
  pub data_of : ElementData

pub record StateSchemaElement : Type 0 where
  pub key : String
  pub data_of : ElementData

pub data Call : Type 0 where
  state_element_modified : ℕ → StateElement → Call
  state_schema_element_added state_schema_element_removed state_schema_element_modified :
      ℕ → StateSchemaElement → Call

abbrev pub Listeners : Type 0
Listeners = List ℕ

-- std::list::remove: every occurrence goes.
unfoldable pub remove : ℕ → Listeners → Listeners
remove l [] = []
remove l (x ∷ xs) = let rest = remove l xs in if x == l then rest else x ∷ rest

abbrev or_none : Option Listeners → Listeners
or_none none = []
or_none (some ls) = ls

-- m[key]: the list, a new one if there is none
unfoldable pub listeners_at : String → Map Listeners → Listeners
unfolding find
listeners_at k m = or_none (find k m)

-- m[key].push_back(listener)
unfoldable pub add_at : String → ℕ → Map Listeners → Map Listeners
unfolding listeners_at insert
add_at k l m = insert k (listeners_at k m ++ l ∷ []) m

-- The entry at a key goes with its last listener.
unfoldable pub settle : String → Listeners → Map Listeners → Map Listeners
unfolding insert erase
settle k [] m = erase k m
settle k (x ∷ xs) m = insert k (x ∷ xs) m

-- m[key].remove(listener); if(m[key].size() == 0) m.erase(key)
unfoldable pub remove_at : String → ℕ → Map Listeners → Map Listeners
unfolding listeners_at remove settle
remove_at k l m = settle k (remove l (listeners_at k m)) m

pub record StateListenerHandler : Type 0 where
  pub listeners : Listeners
  pub key_listeners : Map Listeners
  pub buffer : List StateElement
  pub is_buffering : Bool

abbrev pub new_state_listener_handler : StateListenerHandler
new_state_listener_handler = record {
  listeners = [];
  key_listeners = [];
  buffer = [];
  is_buffering = false;
}

module _ (h : StateListenerHandler) where
  unfoldable pub add_state_listener : ℕ → StateListenerHandler
  add_state_listener l = record h { listeners = h.listeners ++ l ∷ [] }

  unfoldable pub add_key_state_listener : String → ℕ → StateListenerHandler
  unfolding add_at
  add_key_state_listener k l = record h { key_listeners = add_at k l h.key_listeners }

  unfoldable pub remove_state_listener : ℕ → StateListenerHandler
  unfolding remove
  remove_state_listener l = record h { listeners = remove l h.listeners }

  unfoldable pub remove_key_state_listener : String → ℕ → StateListenerHandler
  unfolding remove_at
  remove_key_state_listener k l = record h { key_listeners = remove_at k l h.key_listeners }

  -- The handler afterwards, and the calls made. Reading m_keylisteners[key] makes the entry.
  unfoldable pub fire_modified : StateElement → StateListenerHandler × List Call
  unfolding listeners_at insert
  fire_modified e =
      let at_key = listeners_at e.key h.key_listeners in
      if h.is_buffering then (record h { buffer = h.buffer ++ e ∷ [] }, []) else (
        record h { key_listeners = insert e.key at_key h.key_listeners },
        map (λ l. state_element_modified l e) (h.listeners ++ at_key),
      )

  unfoldable pub hold_events : StateListenerHandler
  hold_events = record h { is_buffering = true }

-- for (i = 0; i < m_buffer.size(); i++) fireStateElementModified(&m_buffer[i])
unfoldable pub fire_all :
    StateListenerHandler → List StateElement → StateListenerHandler × List Call
unfolding fire_modified
fire_all h [] = (h, [])
fire_all h (e ∷ rest) =
    let (h₁, calls) = fire_modified h e in let (h₂, more) = fire_all h₁ rest in (h₂, calls ++ more)

unfoldable pub release_events : StateListenerHandler → StateListenerHandler × List Call
unfolding fire_all
release_events h =
    let (h', calls) = fire_all (record h { is_buffering = false }) h.buffer in
    (record h' { buffer = [] }, calls)

pub record StateSchemaListenerHandler : Type 0 where
  pub listeners : Listeners
  pub key_listeners : Map Listeners

abbrev pub new_state_schema_listener_handler : StateSchemaListenerHandler
new_state_schema_listener_handler = record { listeners = []; key_listeners = [] }

module _ (h : StateSchemaListenerHandler) where
  unfoldable pub add_state_schema_listener : ℕ → StateSchemaListenerHandler
  add_state_schema_listener l = record h { listeners = h.listeners ++ l ∷ [] }

  unfoldable pub remove_state_schema_listener : ℕ → StateSchemaListenerHandler
  unfolding remove
  remove_state_schema_listener l = record h { listeners = remove l h.listeners }

  unfoldable pub add_key_state_schema_listener : String → ℕ → StateSchemaListenerHandler
  unfolding add_at
  add_key_state_schema_listener k l = record h { key_listeners = add_at k l h.key_listeners }

  unfoldable pub remove_key_state_schema_listener : String → ℕ → StateSchemaListenerHandler
  unfolding remove_at
  remove_key_state_schema_listener k l = record h { key_listeners = remove_at k l h.key_listeners }

  -- The three fire functions differ in the member function that they call. Here m_keyListeners
  -- is searched, so no entry is made.
  unfoldable pub schema_audience : StateSchemaElement → Listeners
  unfolding listeners_at
  schema_audience e = h.listeners ++ listeners_at e.key h.key_listeners

  unfoldable pub fire_schema_added : StateSchemaElement → List Call
  unfolding schema_audience
  fire_schema_added e = map (λ l. state_schema_element_added l e) (schema_audience e)

  unfoldable pub fire_schema_removed : StateSchemaElement → List Call
  unfolding schema_audience
  fire_schema_removed e = map (λ l. state_schema_element_removed l e) (schema_audience e)

  unfoldable pub fire_schema_modified : StateSchemaElement → List Call
  unfolding schema_audience
  fire_schema_modified e = map (λ l. state_schema_element_modified l e) (schema_audience e)
