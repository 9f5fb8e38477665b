-- ===== src/RenderList/Client.antt =====
-- The client of DataBase::changes, as the header's comment describes it: it takes the modified items
-- and, when told to prune, removes what is neither modified nor among the keepers.
use tinia.Prelude.{
  ℕ, ◌≡◌, refl, sym, ap, ◌∙◌, inl, inr, String, Bool, true, false, not, Option, none, some, List,
  [], ◌∷◌, ◌++◌, map, length, arith, if◌then◌else◌, ◌==◌, ltb, Option-cases, Bool-cases,
}
use tinia.Prelude.IdMap.{IdMap, lookup, ids, select_ids, only_if, lookup-select_ids, IsAscending}
use tinia.RenderList.{
  Item, BufferData, ShaderStages, ActionState, ItemRef, buffer, shader, action, same_item, DataBase,
}
use tinia.RenderList.Operations.{Operation, perform_all}
use tinia.RenderList.Changes.{Changes, is_newer, kept, changes}
use tinia.RenderList.Stored.{HasGrown}
use tinia.RenderList.Valid.{IsValid, HasRoom, Grows}
use tinia.RenderList.Grown.{perform_all-IsValid}

-- What a client knows of an item: its name, and its class's fields.
abbrev pub Copy : Type 0 → Type 0
Copy C = String × C

abbrev pub copy_of : {C : Type 0} → Option (Item C) → Option (Copy C)
copy_of none = none
copy_of (some x) = some (x.name, x.content)

pub record Client : Type 0 where
  pub buffers_of : ℕ → Option (Copy BufferData)
  pub shaders_of : ℕ → Option (Copy ShaderStages)
  pub actions_of : ℕ → Option (Copy ActionState)

abbrev pub is_keeper : ItemRef → List ItemRef → Bool
is_keeper i [] = false
is_keeper i (j ∷ js) = let rest = is_keeper i js in if same_item j i then true else rest

abbrev pub receive :
    {C : Type 0} → IdMap (Item C) → Bool → Bool → Option (Copy C) → ℕ → Option (Copy C)
receive modified prune keeper old k = elim (lookup k modified) [
  | some x ↦ some (x.name, x.content)
  | none ↦ if prune then (if keeper then old else none) else old
]

-- The client after a set of changes.
abbrev pub updated : Changes → Client → Client
updated ch client = record {
  buffers_of = λ k.
      receive ch.modified_buffers ch.needs_pruning (is_keeper (buffer k) ch.keepers)
        (client.buffers_of k) k;
  shaders_of = λ k.
      receive ch.modified_shaders ch.needs_pruning (is_keeper (shader k) ch.keepers)
        (client.shaders_of k) k;
  actions_of = λ k.
      receive ch.modified_actions ch.needs_pruning (is_keeper (action k) ch.keepers)
        (client.actions_of k) k;
}

-- The client knows exactly the items of the database.
pub record Mirrors (client : Client) (d : DataBase) : Type 0 where
  pub buffers_same : (k : ℕ) → client.buffers_of k ≡ copy_of (lookup k d.buffers)
  pub shaders_same : (k : ℕ) → client.shaders_of k ≡ copy_of (lookup k d.shaders)
  pub actions_same : (k : ℕ) → client.actions_of k ≡ copy_of (lookup k d.actions)

abbrev is_some : {A : Type 0} → Option A → Bool
is_some none = false
is_some (some a) = true

-- A keeper of one map is a keeper by its own entry.
abbrev is_among : ℕ → List ℕ → Bool
is_among k [] = false
is_among k (j ∷ js) = let rest = is_among k js in if j == k then true else rest

is_among-ids : {V : Type 0} (k : ℕ) (m : IdMap V) → is_among k (ids m) ≡ is_some (lookup k m)
unfolding ids lookup
is_among-ids k [] = refl
is_among-ids k ((j, v) ∷ m) = ground (arith, is_among-ids k m)

is_keeper-append :
    (i : ItemRef) (xs ys : List ItemRef)
    → is_keeper i (xs ++ ys) ≡ (if is_keeper i xs then true else is_keeper i ys)
is_keeper-append i [] ys = refl
is_keeper-append i (x ∷ xs) ys = ground (arith, is_keeper-append i xs ys)

keeper-buffer : (k : ℕ) (ks : List ℕ) → is_keeper (buffer k) (map buffer ks) ≡ is_among k ks
keeper-buffer k [] = refl
keeper-buffer k (j ∷ ks) = ground (arith, keeper-buffer k ks)

keeper-shader : (k : ℕ) (ks : List ℕ) → is_keeper (shader k) (map shader ks) ≡ is_among k ks
keeper-shader k [] = refl
keeper-shader k (j ∷ ks) = ground (arith, keeper-shader k ks)

keeper-action : (k : ℕ) (ks : List ℕ) → is_keeper (action k) (map action ks) ≡ is_among k ks
keeper-action k [] = refl
keeper-action k (j ∷ ks) = ground (arith, keeper-action k ks)

module _ (f : ℕ → ItemRef) (i : ItemRef) (other : (j : ℕ) → same_item (f j) i ≡ false) where
  keeper-other : (ks : List ℕ) → is_keeper i (map f ks) ≡ false
  keeper-other [] = refl
  keeper-other (j ∷ ks) = ground (arith, keeper-other ks, other j)

-- One map: what the client has after the changes is what the map holds.
module _ {C : Type 0} (rev del : ℕ) (m m2 : IdMap (Item C)) (ascending : IsAscending m2)
    (grown : HasGrown rev del m m2) where
  selected :
      (k : ℕ) → lookup k (select_ids (is_newer rev) m2) ≡ only_if (is_newer rev) (lookup k m2)
  selected k = lookup-select_ids (is_newer rev) k m2 ascending

  among :
      (k : ℕ)
      → is_among k (kept rev m2) ≡ is_some (only_if (λ x. not (is_newer rev x)) (lookup k m2))
  among k =
      is_among-ids k (select_ids (λ x. not (is_newer rev x)) m2)
      ∙ ap is_some (lookup-select_ids (λ x. not (is_newer rev x)) k m2 ascending)

  receive-gone :
      (k : ℕ) (old : Option (Copy C)) (keeper : Bool)
      → lookup k m2 ≡ none
      → old ≡ copy_of (lookup k m)
      → (ltb rev del ≡ true → keeper ≡ is_among k (kept rev m2))
      → receive (select_ids (is_newer rev) m2) (ltb rev del) keeper old k ≡ none
  receive-gone k old keeper out q known = elim (Option-cases (lookup k m)) [
    | inl never ↦ grind (arith, selected k)
    | inr (x, was) ↦ grind (arith, selected k, among k, grown.gone k x was out)
  ]

  receive-here :
      (k : ℕ) (old : Option (Copy C)) (keeper : Bool) (y : Item C)
      → lookup k m2 ≡ some y
      → old ≡ copy_of (lookup k m)
      → (ltb rev del ≡ true → keeper ≡ is_among k (kept rev m2))
      → receive (select_ids (is_newer rev) m2) (ltb rev del) keeper old k ≡ some (y.name, y.content)
  receive-here k old keeper y found q known = elim (Bool-cases (is_newer rev y)) [
    | inl newer ↦ grind (arith, selected k)
    | inr older ↦
        let (x, was, (i, n, c, l)) = grown.was k y found (ground arith) in
        grind (arith, selected k, among k, n, c, was, q)
  ]

  receive-Mirrors :
      (k : ℕ) (old : Option (Copy C)) (keeper : Bool)
      → old ≡ copy_of (lookup k m)
      → (ltb rev del ≡ true → keeper ≡ is_among k (kept rev m2))
      → receive (select_ids (is_newer rev) m2) (ltb rev del) keeper old k ≡ copy_of (lookup k m2)
  receive-Mirrors k old keeper q known = elim (Option-cases (lookup k m2)) [
    | inl out ↦ receive-gone k old keeper out q known ∙ sym (ap copy_of out)
    | inr (y, found) ↦ receive-here k old keeper y found q known ∙ sym (ap copy_of found)
  ]

-- The keepers of one map, within those of all three.
module _ (bs ss acts : List ℕ) (k : ℕ) where
  abbrev all_keepers : List ItemRef
  all_keepers = map buffer bs ++ map shader ss ++ map action acts

  kept_buffer : is_keeper (buffer k) all_keepers ≡ is_among k bs
  kept_buffer = grind (
    arith,
    is_keeper-append (buffer k) (map buffer bs ++ map shader ss) (map action acts),
    is_keeper-append (buffer k) (map buffer bs) (map shader ss),
    keeper-buffer k bs,
    keeper-other shader (buffer k) (λ j. refl) ss,
    keeper-other action (buffer k) (λ j. refl) acts,
  )

  kept_shader : is_keeper (shader k) all_keepers ≡ is_among k ss
  kept_shader = grind (
    arith,
    is_keeper-append (shader k) (map buffer bs ++ map shader ss) (map action acts),
    is_keeper-append (shader k) (map buffer bs) (map shader ss),
    keeper-shader k ss,
    keeper-other buffer (shader k) (λ j. refl) bs,
    keeper-other action (shader k) (λ j. refl) acts,
  )

  kept_action : is_keeper (action k) all_keepers ≡ is_among k acts
  kept_action = grind (
    arith,
    is_keeper-append (action k) (map buffer bs ++ map shader ss) (map action acts),
    is_keeper-append (action k) (map buffer bs) (map shader ss),
    keeper-action k acts,
    keeper-other buffer (action k) (λ j. refl) bs,
    keeper-other shader (action k) (λ j. refl) ss,
  )

updated-Mirrors :
    (client : Client) (d d2 : DataBase)
    → IsValid d2
    → Grows d d2
    → Mirrors client d
    → Mirrors (updated (changes [] d.current_rev d2) client) d2
unfolding changes
updated-Mirrors client d d2 v g m =
    let bs = kept d.current_rev d2.buffers in
    let ss = kept d.current_rev d2.shaders in
    let acts = kept d.current_rev d2.actions in
    record {
      buffers_same = λ k.
          receive-Mirrors d.current_rev d2.deletion_rev d.buffers d2.buffers
            v.buffers_IsStored.ascending g.buffers_HasGrown k (client.buffers_of k)
            (is_keeper (buffer k) (changes [] d.current_rev d2).keepers) (m.buffers_same k)
            (λ q. grind (arith, kept_buffer bs ss acts k));
      shaders_same = λ k.
          receive-Mirrors d.current_rev d2.deletion_rev d.shaders d2.shaders
            v.shaders_IsStored.ascending g.shaders_HasGrown k (client.shaders_of k)
            (is_keeper (shader k) (changes [] d.current_rev d2).keepers) (m.shaders_same k)
            (λ q. grind (arith, kept_shader bs ss acts k));
      actions_same = λ k.
          receive-Mirrors d.current_rev d2.deletion_rev d.actions d2.actions
            v.actions_IsStored.ascending g.actions_HasGrown k (client.actions_of k)
            (is_keeper (action k) (changes [] d.current_rev d2).keepers) (m.actions_same k)
            (λ q. grind (arith, kept_action bs ss acts k));
    }

-- A client that mirrors a valid database at its revision, and applies the changes it is sent after any
-- run of operations that follows no dangling pointer, mirrors the new database: it has the same
-- items, with the same names and fields, and no others. The counters have room for the run, and the
-- list that receives the modified actions starts empty.
pub changes-Mirrors :
    (os : List Operation) (d d2 : DataBase) (client : Client)
    → IsValid d
    → HasRoom (length os) d
    → perform_all os d ≡ some d2
    → Mirrors client d
    → Mirrors (updated (changes [] d.current_rev d2) client) d2
changes-Mirrors os d d2 client v room q m =
    let (v2, g) = perform_all-IsValid os d d2 v room q in updated-Mirrors client d d2 v2 g m
