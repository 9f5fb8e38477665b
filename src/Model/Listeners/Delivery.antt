-- ===== src/Model/Listeners/Delivery.antt =====
-- Who is told of an event, and when: registration, removal, and events held back.
use tinia.Prelude.{
  ℕ, ◌≡◌, refl, ap, ◌∙◌, String, true, false, List, [], ◌∷◌, ◌++◌, map, arith, eq_iff,
  if◌then◌else◌, str_eq,
}
use mathlib.Core.List.{append-nil, append_assoc}
use tinia.Prelude.Map.{Map, insert, find-insert, find-erase}
use tinia.Model.Listeners.{
  Listeners, StateElement, StateListenerHandler, Call, remove, listeners_at, add_at, remove_at,
  settle, fire_all, hold_events, release_events, state_element_modified,
}

pub listeners_at-insert :
    (k j : String) (ls : Listeners) (m : Map Listeners)
    → listeners_at j (insert k ls m) ≡ (if str_eq k j then ls else listeners_at j m)
unfolding listeners_at
listeners_at-insert k j ls m = ground (arith, find-insert k j ls m)

listeners_at-add_at :
    (k j : String) (l : ℕ) (m : Map Listeners)
    → listeners_at j (add_at k l m)
      ≡ (if str_eq k j then listeners_at k m ++ l ∷ [] else listeners_at j m)
unfolding add_at
listeners_at-add_at k j l m = listeners_at-insert k j _ m

listeners_at-settle :
    (k j : String) (ls : Listeners) (m : Map Listeners)
    → listeners_at j (settle k ls m) ≡ (if str_eq k j then ls else listeners_at j m)
unfolding settle listeners_at
listeners_at-settle k j [] m = ground (arith, find-erase k j m)
listeners_at-settle k j (x ∷ xs) m = ground (arith, find-insert k j (x ∷ xs) m)

-- Removing a listener at a key takes every registration of it there, and no other.
listeners_at-remove_at :
    (k j : String) (l : ℕ) (m : Map Listeners)
    → listeners_at j (remove_at k l m)
      ≡ (if str_eq k j then remove l (listeners_at j m) else listeners_at j m)
listeners_at-remove_at k j l m =
    unfold remove_at in
    ground (arith, eq_iff k j, listeners_at-settle k j (remove l (listeners_at k m)) m)

-- A handler that holds events back keeps them in order and calls nobody.
pub fire_all_held :
    (es : List StateElement) (h : StateListenerHandler)
    → h.is_buffering ≡ true
    → fire_all h es ≡ (record h { buffer = h.buffer ++ es }, [])
unfolding fire_all
fire_all_held [] h held = ground (arith, append-nil h.buffer)
fire_all_held (e ∷ es) h held = ground (
  arith,
  fire_all_held es (record h { buffer = h.buffer ++ e ∷ [] }) held,
  append_assoc h.buffer (e ∷ []) es,
)

-- Everybody who listens to a key: the general listeners first, then those of the key.
abbrev pub audience : StateListenerHandler → String → Listeners
audience h k = h.listeners ++ listeners_at k h.key_listeners

-- The calls that tell each event to everybody, in order.
pub delivered : StateListenerHandler → List StateElement → List Call
delivered h [] = []
delivered h (e ∷ es) = map (λ l. state_element_modified l e) (audience h e.key) ++ delivered h es

delivered-cong :
    (h h' : StateListenerHandler) (es : List StateElement)
    → ((k : String) → audience h k ≡ audience h' k)
    → delivered h es ≡ delivered h' es
unfolding delivered
delivered-cong h h' [] same = refl
delivered-cong h h' (e ∷ es) same = rw (same e.key) (rw (delivered-cong h h' es same))

-- Making the entry that operator[] makes changes no audience.
audience-touch :
    (h : StateListenerHandler) (j k : String)
    → audience
        (record h { key_listeners = insert j (listeners_at j h.key_listeners) h.key_listeners })
        k
      ≡ audience h k
audience-touch h j k =
    ground
      (arith, eq_iff j k, listeners_at-insert j k (listeners_at j h.key_listeners) h.key_listeners)

-- A handler that does not hold events back tells each at once to everybody.
pub fire_all_open :
    (es : List StateElement) (h : StateListenerHandler)
    → let (h', calls) = fire_all (record h { is_buffering = false }) es in
      (calls ≡ delivered h es)
      × (h'.is_buffering ≡ false)
      × ((k : String) → audience h' k ≡ audience h k)
unfolding fire_all delivered
fire_all_open [] h = (refl, refl, λ k. refl)
fire_all_open (e ∷ es) h =
    let at_key = listeners_at e.key h.key_listeners in
    let h₁ = record h { key_listeners = insert e.key at_key h.key_listeners } in
    let (calls, now, same) = fire_all_open es h₁ in
    (
      ap (◌++◌ (map (λ l. state_element_modified l e) (audience h e.key)))
          (calls ∙ delivered-cong h₁ h es (audience-touch h e.key)),
      now,
      λ k. same k ∙ audience-touch h e.key k,
    )

-- Events that are fired while they are held back reach nobody until the release, which tells them
-- all, in order, to everybody, and leaves the buffer empty and the audiences as they were.
pub release_events-fire_all-hold_events :
    (h : StateListenerHandler) (es : List StateElement)
    → h.buffer ≡ []
    → let (held, early) = fire_all (hold_events h) es in
      let (h', calls) = release_events held in
      (early ≡ [])
      × (calls ≡ delivered h es)
      × (h'.buffer ≡ [])
      × (h'.is_buffering ≡ false)
      × ((k : String) → audience h' k ≡ audience h k)
unfolding release_events hold_events
release_events-fire_all-hold_events h es empty =
    let waiting = h.buffer ++ es in
    let h₁ = record h { buffer = waiting; is_buffering = true } in
    let (calls, now, same) = fire_all_open waiting h₁ in
    rw (fire_all_held es (hold_events h) refl) (
      refl,
      calls ∙ delivered-cong h₁ h waiting (λ k. refl) ∙ ap (λ b. delivered h (b ++ es)) empty,
      refl,
      now,
      same,
    )
