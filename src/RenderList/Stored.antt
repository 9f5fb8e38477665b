-- ===== src/RenderList/Stored.antt =====
-- One map of items of the database, and how an operation changes it.
use tinia.Prelude.{ℕ, ◌≤◌, ◌<◌, ◌≡◌, refl, ◌∙◌, inl, inr, none, some, arith, Option-cases}
use tinia.Prelude.IdMap.{
  IdMap, lookup, put, take_out, lookup-put, lookup-take_out, IsAscending, put-IsAscending,
  take_out-IsAscending,
}
use tinia.RenderList.{Item}

module _ {C : Type 0} where
  -- The keys ascend; an item stands under its id, below the next id, with a revision that has been.
  pub record IsStored (next rev : ℕ) (m : IdMap (Item C)) : Type 0 where
    pub ascending : IsAscending m
    pub keyed : (k : ℕ) (x : Item C) → lookup k m ≡ some x → x.id ≡ k
    pub numbered : (k : ℕ) (x : Item C) → lookup k m ≡ some x → k < next
    pub dated : (k : ℕ) (x : Item C) → lookup k m ≡ some x → x.revision ≤ rev

  pub IsStored-mono :
      (next next2 rev rev2 : ℕ) (m : IdMap (Item C))
      → next ≤ next2
      → rev ≤ rev2
      → IsStored next rev m
      → IsStored next2 rev2 m
  IsStored-mono next next2 rev rev2 m l l2 s = record {
    ascending = s.ascending;
    keyed = s.keyed;
    numbered = λ k x q. omega (arith, s.numbered k x q);
    dated = λ k x q. omega (arith, s.dated k x q);
  }

  pub put-IsStored :
      (next rev k : ℕ) (m : IdMap (Item C)) (x : Item C)
      → IsStored next rev m
      → x.id ≡ k
      → k < next
      → x.revision ≤ rev
      → IsStored next rev (put k x m)
  put-IsStored next rev k m x s q l l2 = record {
    ascending = put-IsAscending k x m s.ascending;
    keyed = λ j y r. ground (arith, lookup-put k j x m, s.keyed j y);
    numbered = λ j y r. ground (arith, lookup-put k j x m, s.numbered j y);
    dated = λ j y r. ground (arith, lookup-put k j x m, s.dated j y);
  }

  pub take_out-IsStored :
      (next rev k : ℕ) (m : IdMap (Item C)) → IsStored next rev m → IsStored next rev (take_out k m)
  take_out-IsStored next rev k m s = record {
    ascending = take_out-IsAscending k m s.ascending;
    keyed = λ j y q. ground (arith, lookup-take_out k j m, s.keyed j y);
    numbered = λ j y q. ground (arith, lookup-take_out k j m, s.numbered j y);
    dated = λ j y q. ground (arith, lookup-take_out k j m, s.dated j y);
  }

  -- The same item, later: only its revision may have grown.
  abbrev pub IsLater : Item C → Item C → Type 0
  IsLater x y =
      (x.id ≡ y.id) × (x.name ≡ y.name) × (x.content ≡ y.content) × (x.revision ≤ y.revision)

  pub IsLater-trans : (x y z : Item C) → IsLater x y → IsLater y z → IsLater x z
  IsLater-trans x y z (a, b, c, d) (e, f, g, h) = (a ∙ e, b ∙ f, c ∙ g, omega arith)

  -- What a later map `m2` owes to whoever knows the map `m` at revision `rev`: what is not newer was
  -- there, and what is gone has moved the revision of deletions.
  pub record HasGrown (rev deletion_rev : ℕ) (m m2 : IdMap (Item C)) : Type 0 where
    pub was :
        (k : ℕ) (y : Item C)
        → lookup k m2 ≡ some y
        → y.revision ≤ rev
        → (x : Item C) × (lookup k m ≡ some x) × IsLater x y
    pub gone : (k : ℕ) (x : Item C) → lookup k m ≡ some x → lookup k m2 ≡ none → rev < deletion_rev

  pub HasGrown-refl : (rev del : ℕ) (m : IdMap (Item C)) → HasGrown rev del m m
  HasGrown-refl rev del m = record {
    was = λ k y q l. (y, q, (refl, refl, refl, omega arith));
    gone = λ k x q r. grind arith;
  }

  pub HasGrown-trans :
      (rev rev2 del del2 : ℕ) (m m2 m3 : IdMap (Item C))
      → rev ≤ rev2
      → del ≤ del2
      → HasGrown rev del m m2
      → HasGrown rev2 del2 m2 m3
      → HasGrown rev del2 m m3
  HasGrown-trans rev rev2 del del2 m m2 m3 l l2 g h = record {
    was = λ k z q lz.
        let (y, r, later) = h.was k z q (omega (arith)) in
        let (x, s, earlier) = g.was k y r (omega (arith)) in
        (x, s, IsLater-trans x y z earlier later);
    gone = λ k x q r. elim (Option-cases (lookup k m2)) [
      | inl out ↦ omega (arith, g.gone k x q out)
      | inr (y, still) ↦ omega (arith, h.gone k y still r)
    ];
  }

  pub put-HasGrown :
      (rev del k : ℕ) (m : IdMap (Item C)) (x : Item C)
      → rev < x.revision
      → HasGrown rev del m (put k x m)
  put-HasGrown rev del k m x l = record {
    was = λ j y q ly. (HasGrown-refl rev del m).was j y (ground (arith, lookup-put k j x m)) ly;
    gone = λ j y q r. ground (arith, lookup-put k j x m);
  }

  pub take_out-HasGrown :
      (rev del k : ℕ) (m : IdMap (Item C)) → rev < del → HasGrown rev del m (take_out k m)
  take_out-HasGrown rev del k m l = record {
    was = λ j y q ly. (HasGrown-refl rev del m).was j y (ground (arith, lookup-take_out k j m)) ly;
    gone = λ j y q r. l;
  }
