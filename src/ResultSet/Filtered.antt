-- ===== src/ResultSet/Filtered.antt =====
-- What `filter` and `get` of a ResultSet (nexus/result.py) find, when every result stands under its id.
use event_pipeline.Prelude.{
  String, Bool, true, false, ◌||◌, ◌≡◌, refl, ◌∙◌, ap, sym, subst, List, [], ◌∷◌, ◌++◌, ◌==◌,
  Comparable, comparable_string, filterb, any, arith, inl, inr, Bool-cases,
}
use mathlib.Core.List.{append_assoc, append-nil}
use event_pipeline.Prelude.Dict.{Dict, insert, has, values, has-insert}
use event_pipeline.ResultSet.{ResultSet, add, of_list, filter, get, only, empty}

rest_false : (a : Bool) {b : Bool} → (a || b) ≡ false → b ≡ false
rest_false true h = cc h
rest_false false h = h

pub values-insert :
    {R : Type 0} (k : String) (r : R) (d : Dict String R)
    → has k d ≡ false
    → values (insert k r d) ≡ values d ++ r ∷ []
unfolding insert has
values-insert k r [] fresh = refl
values-insert k r ((j, x) ∷ d) fresh = ground (arith, values-insert k r d)

module _ {R C : Type 0} (id : R → String) (content_type : R → C) ⦃e : Comparable C⦄ where
  abbrev pub IsIndexed : Dict String R → Type 0
  IsIndexed [] = Unit
  IsIndexed ((k, r) ∷ d) = (id r ≡ k) × (has k d ≡ false) × IsIndexed d

  -- No two results have one id.
  abbrev DistinctIds : List R → Type 0
  DistinctIds [] = Unit
  DistinctIds (r ∷ rs) = (any (λ x. id x == id r) rs ≡ false) × DistinctIds rs

  any-values :
      (k : String) (d : Dict String R) → IsIndexed d → any (λ x. id x == k) (values d) ≡ has k d
  unfolding has
  any-values k [] indexed = refl
  any-values k ((j, r) ∷ d) indexed = grind (arith, any-values k d indexed.2, indexed.0)

  values-DistinctIds : (d : Dict String R) → IsIndexed d → DistinctIds (values d)
  values-DistinctIds [] indexed = tt
  values-DistinctIds ((k, r) ∷ d) indexed = (
    subst (λ j. any (λ x. id x == j) (values d) ≡ false) (sym indexed.0)
        (any-values k d indexed.2 ∙ indexed.1),
    values-DistinctIds d indexed.2,
  )

  any-filterb : (p q : R → Bool) (rs : List R) → any p rs ≡ false → any p (filterb q rs) ≡ false
  any-filterb p q [] h = refl
  any-filterb p q (r ∷ rs) h = ground (arith, any-filterb p q rs)

  filterb-DistinctIds : (q : R → Bool) (rs : List R) → DistinctIds rs → DistinctIds (filterb q rs)
  filterb-DistinctIds q [] distinct = tt
  filterb-DistinctIds q (r ∷ rs) distinct = elim (Bool-cases (q r)) [
    | inl e ↦
        rw e (any-filterb (λ x. id x == id r) q rs distinct.0, filterb-DistinctIds q rs distinct.1)
    | inr e ↦ rw e (filterb-DistinctIds q rs distinct.1)
  ]

  -- None of the results is in the dict yet.
  abbrev Fresh : List R → Dict String R → Type 0
  Fresh [] d = Unit
  Fresh (r ∷ rs) d = (has (id r) d ≡ false) × Fresh rs d

  Fresh-empty : (rs : List R) → Fresh rs []
  unfolding has
  Fresh-empty [] = tt
  Fresh-empty (r ∷ rs) = (refl, Fresh-empty rs)

  Fresh-insert :
      (r : R) (rs : List R) (d : Dict String R)
      → any (λ x. id x == id r) rs ≡ false
      → Fresh rs d
      → Fresh rs (insert (id r) r d)
  Fresh-insert r [] d other fresh = tt
  Fresh-insert r (x ∷ rs) d other fresh = (
    grind (
      arith,
      has-insert (id r) (id x) r d,
      fresh.0,
      other,
      comparable_string.equals_iff (id r) (id x),
      comparable_string.equals_iff (id x) (id r),
    ),
    Fresh-insert r rs d (rest_false (id x == id r) other) fresh.1,
  )

  of_list-values :
      (rs : List R) (s : ResultSet R C)
      → DistinctIds rs
      → Fresh rs s.content
      → values (of_list id content_type rs s).content ≡ values s.content ++ rs
  unfolding of_list add
  of_list-values [] s distinct fresh = sym (append-nil (values s.content))
  of_list-values (r ∷ rs) s distinct fresh =
      of_list-values rs (add id content_type r s) distinct.1
        (Fresh-insert r rs s.content distinct.0 fresh.1)
      ∙ ap (λ (vs : List R). vs ++ rs) (values-insert (id r) r s.content fresh.0)
      ∙ append_assoc (values s.content) (r ∷ []) rs

  -- `get` looks at the results that match, one by one.
  pub get-only :
      (matches : R → Bool) (s : ResultSet R C)
      → IsIndexed s.content
      → get id content_type matches s ≡ only id content_type (filterb matches (values s.content))
  unfolding get filter
  get-only matches s indexed = ap (only id content_type) (
      of_list-values (filterb matches (values s.content)) empty
        (filterb-DistinctIds matches (values s.content) (values-DistinctIds s.content indexed))
        (Fresh-empty (filterb matches (values s.content))))

  pub insert-IsIndexed :
      (r : R) (d : Dict String R)
      → has (id r) d ≡ false
      → IsIndexed d
      → IsIndexed (insert (id r) r d)
  unfolding insert has
  insert-IsIndexed r [] fresh indexed = (refl, refl, tt)
  insert-IsIndexed r ((j, x) ∷ d) fresh indexed = elim (Bool-cases (j == id r)) [
    | inl same ↦ cc (rw same at fresh)
    | inr other ↦ rw other (
      indexed.0,
      grind (
        arith,
        has-insert (id r) j r d,
        indexed.1,
        other,
        comparable_string.equals_iff (id r) j,
        comparable_string.equals_iff j (id r),
      ),
      insert-IsIndexed r d (rest_false (j == id r) fresh) indexed.2,
    )
  ]

pub filterb_none : {R : Type 0} (p : R → Bool) (rs : List R) → any p rs ≡ false → filterb p rs ≡ []
filterb_none p [] h = refl
filterb_none p (r ∷ rs) h = ground (arith, filterb_none p rs)

pub filterb-append :
    {R : Type 0} (p : R → Bool) (rs ts : List R)
    → filterb p (rs ++ ts) ≡ filterb p rs ++ filterb p ts
filterb-append p [] ts = refl
filterb-append p (r ∷ rs) ts = ground (arith, filterb-append p rs ts)
