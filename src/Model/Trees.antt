-- ===== src/Model/Trees.antt =====
-- ElementData::setPropertyTreeValue and setPropertyTreeValue_r (src/model/ElementData.cpp), with the
-- std::map of a property tree. Where the code reads through an iterator that is past the end, the model
-- stops with out_of_range.
use tinia.Prelude.{ℕ, suc, String, Option, none, some, ◌==◌, if◌then◌else◌}
use tinia.Prelude.Text.{lt_text}
use tinia.Model.Errors.{Result, ok, err, out_of_range, runtime_error}
use tinia.Model.Types.{Platform}
use tinia.Model.ElementData.{ElementData, PropertyTree, leaf, entry, set_string_value}
use tinia.Model.Factory.{new_element, set_member, find_member}

-- The children of a basic_ptree<string, string>: `child name value its_children rest`.
pub data StringTree : Type 0 where
  no_child : StringTree
  child : String → String → StringTree → StringTree → StringTree

abbrev pub string_tree_size : StringTree → ℕ
string_tree_size no_child = 0
string_tree_size (child name value below rest) = suc (string_tree_size rest)

abbrev pub tree_size : PropertyTree → ℕ
tree_size leaf = 0
tree_size (entry k s below rest) = suc (tree_size rest)

-- pt.begin()
abbrev pub first_key : PropertyTree → Option String
first_key leaf = none
first_key (entry k s below rest) = some k

-- it2++, for an iterator at the key `k`.
unfoldable pub next_key : String → PropertyTree → Option String
unfolding lt_text
next_key k leaf = none
next_key k (entry j s below rest) = if lt_text k j then some j else next_key k rest

module _ (p : Platform) where
  -- pt[name]
  abbrev pub or_new : Result ElementData → ElementData
  or_new (err missing) = new_element p
  or_new (ok e) = e

  -- The loop of setPropertyTreeValue_r, with the iterator `it2` as its key: the tree it leaves, and
  -- whether it throws. pt[name] goes by the name, and the children by the iterator.
  unfoldable pub set_children :
      Option String → PropertyTree → StringTree → PropertyTree × Result (Unit {0})
  unfolding set_string_value find_member set_member next_key
  set_children it2 pt no_child = (pt, ok tt)
  set_children it2 pt (child name value below rest) =
      elim (set_string_value (or_new (find_member name pt)) p value) [
        | err x ↦ (set_member name (or_new (find_member name pt)) pt, err x)
        | ok e ↦
            let pt2 = set_member name e pt in
            elim it2 [
              | none ↦ (pt2, err out_of_range)
              | some k ↦ elim (find_member k pt2) [
                | err missing ↦ (pt2, err missing)
                | ok at ↦
                    if tree_size at.property_tree == string_tree_size below
                    then (let inner =
                          set_children (first_key at.property_tree) at.property_tree below in
                        let pt3 = set_member k (record at { property_tree = inner.0 }) pt2 in
                        elim inner.1 [
                          | err x ↦ (pt3, err x)
                          | ok u ↦ set_children (next_key k pt3) pt3 rest
                        ])
                    else (pt2, err runtime_error)
              ]
            ]
      ]

  unfoldable pub set_property_tree_value :
      PropertyTree → StringTree → PropertyTree × Result (Unit {0})
  unfolding set_children
  set_property_tree_value pt sspt =
      if tree_size pt == string_tree_size sspt
      then set_children (first_key pt) pt sspt
      else (pt, err runtime_error)
