-- ===== src/Batch/Submissions.antt =====
-- The pipelines that BatchPipeline.execute (nexus/pipeline.py) submits.
use event_pipeline.Prelude.{
  ◌≡◌, refl, sym, subst, String, Bool, true, false, ◌||◌, Option, none, some, [], ◌∷◌,
  if◌then◌else◌, comparable_string, ◌==◌, arith, inl, inr, Bool-cases, Option-cases,
}
use event_pipeline.Prelude.Dict.{
  Dict, lookup, insert, update, has, IsKeyed, lookup-insert, has-lookup, insert-IsKeyed,
}
use event_pipeline.Batch.{Kwargs, is_truthy, any_truthy}

module _ {W : Type 0} where
  pub update-IsKeyed : (d o : Dict String W) → IsKeyed d → IsKeyed (update d o)
  unfolding update
  update-IsKeyed d [] keyed = keyed
  update-IsKeyed d ((k, v) ∷ o) keyed = update-IsKeyed (insert k v d) o (insert-IsKeyed k v d keyed)

  abbrev pub first_of : Option W → Option W → Option W
  first_of none b = b
  first_of (some a) b = some a

  pub lookup-update :
      (x : String) (d o : Dict String W)
      → IsKeyed o
      → lookup x (update d o) ≡ first_of (lookup x o) (lookup x d)
  unfolding update lookup
  lookup-update x d [] keyed = refl
  lookup-update x d ((k, v) ∷ o) keyed = grind (
    arith,
    lookup-update x (insert k v d) o keyed.1,
    lookup-insert k x v d,
    has-lookup x o,
    keyed.0,
    comparable_string.equals_iff k x,
  )

module _ {V : Type 0} (truthy : V → Bool) (convert : String → V → Option V)
    (accepts : Kwargs V → Bool) where
  absent : (x k : String) (d : Kwargs V) → has k d ≡ false → k ≡ x → lookup x d ≡ none
  absent x k d fresh e = grind (arith, has-lookup k d, fresh, e, Option-cases (lookup k d))

  pub any_truthy-lookup :
      (x : String) (w : V) (d : Kwargs V)
      → lookup x d ≡ some (some w)
      → truthy w ≡ true
      → any_truthy truthy convert accepts d ≡ true
  unfolding lookup any_truthy
  any_truthy-lookup x w [] found t = cc
  any_truthy-lookup x w ((k, v) ∷ d) found t = grind (arith, any_truthy-lookup x w d)

  -- An argument that is not there, is None or is not true.
  abbrev pub Falsy : Option (Option V) → Type 0
  Falsy (some (some w)) = truthy w ≡ false
  Falsy o = Unit

  rest_of : (b : Bool) {r : Bool} → b ≡ false → (b || r) ≡ true → r ≡ true
  rest_of true e h = cc
  rest_of false e h = h

  Falsy-first :
      (k : String) (v : Option V) (d : Kwargs V)
      → Falsy (lookup k ((k, v) ∷ d))
      → (is_truthy truthy convert accepts v || false) ≡ false
  unfolding lookup
  Falsy-first k none d f = refl
  Falsy-first k (some w) d f = ground (arith, comparable_string.equals_iff k k)

  Falsy-rest :
      (x k : String) (v : Option V) (d : Kwargs V)
      → has k d ≡ false
      → Falsy (lookup x ((k, v) ∷ d))
      → Falsy (lookup x d)
  unfolding lookup
  Falsy-rest x k v d fresh f = elim (Bool-cases (k == x)) [
    | inl e ↦ subst (Falsy) (sym (absent x k d fresh ((comparable_string.equals_iff k x).0 e))) tt
    | inr e ↦ subst (λ b. Falsy (if b then some v else lookup x d)) e f
  ]

  -- What a falsy dict is, for the keys that it has not too.
  pub any_truthy-Falsy :
      (d : Kwargs V)
      → IsKeyed d
      → ((x : String) → Falsy (lookup x d))
      → any_truthy truthy convert accepts d ≡ false
  unfolding any_truthy
  any_truthy-Falsy [] keyed falsy = refl
  any_truthy-Falsy ((k, v) ∷ d) keyed falsy =
      rw (any_truthy-Falsy d keyed.1 (λ x. Falsy-rest x k v d keyed.0 (falsy x)))
        (Falsy-first k v d (falsy k))

  pub any_truthy-false :
      (x : String) (d : Kwargs V) → any_truthy truthy convert accepts d ≡ false → Falsy (lookup x d)
  unfolding lookup any_truthy
  any_truthy-false x [] e = tt
  any_truthy-false x ((k, none) ∷ d) e = ground (arith, any_truthy-false x d e)
  any_truthy-false x ((k, some v) ∷ d) e = ground (arith, any_truthy-false x d)

  -- The truth of a dict is that of one of its entries.
  pub truthy_entry :
      (d : Kwargs V)
      → IsKeyed d
      → any_truthy truthy convert accepts d ≡ true
      → (x : String) × (w : V) × (lookup x d ≡ some (some w)) × (truthy w ≡ true)
  unfolding lookup any_truthy has
  truthy_entry [] keyed t = cc
  truthy_entry ((k, none) ∷ d) keyed t =
      let (x, w, found, tw) = truthy_entry d keyed.1 t in
      (x, w, grind (arith, has-lookup k d, keyed.0, found, comparable_string.equals_iff k x), tw)
  truthy_entry ((k, some v) ∷ d) keyed t = elim (Bool-cases (truthy v)) [
    | inl e ↦ (k, v, ground (arith, comparable_string.equals_iff k k), e)
    | inr e ↦
        let (x, w, found, tw) = truthy_entry d keyed.1 (rest_of (truthy v) e t) in
        (x, w, grind (arith, has-lookup k d, keyed.0, found, comparable_string.equals_iff k x), tw)
  ]
