-- ===== src/Batch/Pipelines.antt =====
-- The rounds of BatchPipeline.execute (nexus/pipeline.py): how many pipelines they submit, and with
-- which arguments.
use event_pipeline.Prelude.{
  ℕ, zero, suc, ◌+◌, ◌<◌, ◌≡◌, refl, ◌∙◌, ap, sym, subst, String, Bool, true, false, Option, none,
  some, List, [], ◌∷◌, length, if◌then◌else◌, comparable_string, arith, get_elem?, is_some, inl,
  inr, Bool-cases, Option-cases,
}
use event_pipeline.Prelude.Dict.{lookup, update, has, IsKeyed, has-lookup}
use event_pipeline.Batch.{
  Kwargs, BatchMap, next_values, all_iterators_consumed, any_truthy, longest, submit,
  execute_rounds,
}
use event_pipeline.Batch.Rounds.{
  tails, tail, writes, given, next_values-writes, lookup-writes, has-tails, tails-IsKeyed,
  longest-tails, consumed-longest, Live, longest-Live, lookup-tails, nth, nth-tail, nth-zero,
  writes-IsKeyed, heads-empty,
}
use event_pipeline.Batch.Submissions.{
  update-IsKeyed, lookup-update, any_truthy-lookup, any_truthy-Falsy, any_truthy-false,
  truthy_entry, Falsy,
}

module _ {V : Type 0} (truthy : V → Bool) (convert : String → V → Option V)
    (accepts : Kwargs V → Bool) (c : String → V → V)
    (converts : (f : String) (v : V) → convert f v ≡ some (c f v))
    (truthful : (f : String) (v : V) → truthy (c f v) ≡ true)
    (accepted : (p : Kwargs V) → accepts p ≡ true) (others : Kwargs V)
    (others_keyed : IsKeyed others) where
  -- No field of the batch is among the other fields.
  abbrev pub Apart : BatchMap V → Type 0
  Apart m = (x : String) → has x m ≡ true → has x others ≡ false

  -- The dict of the generator after a pipeline was made from it.
  abbrev Written : BatchMap V → Kwargs V → Type 0
  Written m kwargs = (x : String) → has x m ≡ false → lookup x kwargs ≡ lookup x others

  -- The arguments of the pipeline of round k.
  abbrev pub Arguments : BatchMap V → ℕ → Kwargs V → Type 0
  Arguments m k p =
      ((f : String) (vs : List V)
        → lookup f m ≡ some vs
        → lookup f p ≡ some (nth truthy convert accepts c converts f k vs))
      × ((f : String) → has f m ≡ false → lookup f p ≡ lookup f others)

  -- 1 where a value of the other fields is true.
  abbrev pub extra : ℕ
  extra = if any_truthy truthy convert accepts others then 1 else 0

  pub Apart-tails : (m : BatchMap V) → Apart m → Apart (tails truthy convert accepts c converts m)
  Apart-tails m apart x here =
      apart x (sym (has-tails truthy convert accepts c converts x m) ∙ here)

  -- A round in which an iterator gives a value submits a pipeline.
  round_truthy :
      (n : ℕ) (m : BatchMap V) (kwargs : Kwargs V)
      → IsKeyed m
      → longest m ≡ suc n
      → any_truthy truthy convert accepts (writes truthy convert accepts c converts m kwargs) ≡ true
  unfolding Live
  round_truthy n m kwargs keyed e =
      let (more, (f, v, vs, found)) = longest-Live truthy convert accepts c converts n m keyed e in
      any_truthy-lookup truthy convert accepts f (c f v)
        (writes truthy convert accepts c converts m kwargs)
        (lookup-writes truthy convert accepts c converts f m kwargs keyed
          ∙ ap (λ o. given truthy convert accepts c converts f o (lookup f kwargs)) found)
        (truthful f v)

  -- The dict of the generator before the first pipeline is made from it.
  abbrev Bounded : BatchMap V → Kwargs V → Type 0
  Bounded m kwargs = (x : String) → has x m ≡ false → has x others ≡ false → lookup x kwargs ≡ none

  Bounded-Written : (m : BatchMap V) (kwargs : Kwargs V) → Written m kwargs → Bounded m kwargs
  Bounded-Written m kwargs written x away out =
      grind (arith, written x away, out, has-lookup x others, Option-cases (lookup x others))

  in_writes :
      (x : String) (m : BatchMap V) (kwargs : Kwargs V)
      → IsKeyed m
      → has x m ≡ false
      → lookup x (writes truthy convert accepts c converts m kwargs) ≡ lookup x kwargs
  in_writes x m kwargs keyed away = grind (
    arith,
    lookup-writes truthy convert accepts c converts x m kwargs keyed,
    has-lookup x m,
    away,
    Option-cases (lookup x m),
  )

  -- In the last round the fields of the batch are None.
  last_lacks :
      (m : BatchMap V) (kwargs : Kwargs V)
      → IsKeyed m
      → Written m kwargs
      → longest m ≡ 0
      → any_truthy truthy convert accepts others ≡ false
      → (x : String)
      → Falsy truthy convert accepts (lookup x (writes truthy convert accepts c converts m kwargs))
  last_lacks m kwargs keyed written e f x = elim (Option-cases (lookup x m)) [
    | inl away ↦
        subst (Falsy truthy convert accepts)
          (sym (
            in_writes x m kwargs keyed (has-lookup x m ∙ ap is_some away)
            ∙ written x (has-lookup x m ∙ ap is_some away)))
          (any_truthy-false truthy convert accepts x others f)
    | inr (vs, found) ↦
        subst (Falsy truthy convert accepts) {x = some none}
          (sym (
            lookup-writes truthy convert accepts c converts x m kwargs keyed
            ∙ ap (λ o. given truthy convert accepts c converts x o (lookup x kwargs))
                (found ∙ ap some (heads-empty truthy convert accepts c converts x m vs e found))))
          tt
  ]

  -- The last round submits one exactly when another field has a true value.
  last_truthy :
      (m : BatchMap V) (kwargs : Kwargs V)
      → IsKeyed m
      → IsKeyed kwargs
      → Apart m
      → Written m kwargs
      → longest m ≡ 0
      → any_truthy truthy convert accepts (writes truthy convert accepts c converts m kwargs)
        ≡ any_truthy truthy convert accepts others
  last_truthy m kwargs keyed kwargs_keyed apart written e =
      elim (Bool-cases (any_truthy truthy convert accepts others)) [
        | inl t ↦
            let (x, w, found, tw) = truthy_entry truthy convert accepts others others_keyed t in
            let away : has x m ≡ false =
              grind (arith, apart x, has-lookup x others, found, Bool-cases (has x m)) in
            any_truthy-lookup truthy convert accepts x w
              (writes truthy convert accepts c converts m kwargs)
              (in_writes x m kwargs keyed away ∙ written x away ∙ found) tw
            ∙ sym t
        | inr f ↦
            any_truthy-Falsy truthy convert accepts
              (writes truthy convert accepts c converts m kwargs)
              (writes-IsKeyed truthy convert accepts c converts m kwargs kwargs_keyed)
              (last_lacks m kwargs keyed written e f)
            ∙ sym f
      ]

  -- What a round leaves in the dict.
  Written-round :
      (m : BatchMap V) (kwargs : Kwargs V)
      → IsKeyed m
      → Bounded m kwargs
      → Written m (update (writes truthy convert accepts c converts m kwargs) others)
  Written-round m kwargs keyed bounded x away = grind (
    arith,
    lookup-update x (writes truthy convert accepts c converts m kwargs) others others_keyed,
    in_writes x m kwargs keyed away,
    bounded x away,
    has-lookup x others,
    Option-cases (lookup x others),
  )

  round-Arguments :
      (m : BatchMap V) (kwargs : Kwargs V)
      → IsKeyed m
      → Apart m
      → Bounded m kwargs
      → Arguments m 0 (update (writes truthy convert accepts c converts m kwargs) others)
  round-Arguments m kwargs keyed apart bounded = (
    λ f vs found. grind (
      arith,
      lookup-update f (writes truthy convert accepts c converts m kwargs) others others_keyed,
      lookup-writes truthy convert accepts c converts f m kwargs keyed,
      found,
      apart f,
      has-lookup f m,
      has-lookup f others,
      Option-cases (lookup f others),
      nth-zero truthy convert accepts c converts f vs,
    ),
    Written-round m kwargs keyed bounded,
  )

  Arguments-tails :
      (m : BatchMap V) (k : ℕ) (p : Kwargs V)
      → Arguments (tails truthy convert accepts c converts m) k p
      → Arguments m (suc k) p
  Arguments-tails m k p (batch, rest) = (
    λ f vs found.
        batch f (tail truthy convert accepts c converts vs)
          (lookup-tails truthy convert accepts c converts f m vs found)
        ∙ ap some (nth-tail truthy convert accepts c converts f k vs),
    λ f away. rest f (has-tails truthy convert accepts c converts f m ∙ away),
  )

  -- What the rounds from some point on submit: n pipelines with the values of n rounds, and one more
  -- when another field has a true value.
  abbrev pub Submits : BatchMap V → ℕ → Option (List (Kwargs V)) → Type 0
  Submits m n result =
      (ps : List (Kwargs V)) × (result ≡ some ps)
      × (length ps ≡ n + extra)
      × ((k : ℕ) → k < n → (p : Kwargs V) × (get_elem? ps k ≡ some p) × Arguments m k p)

  submit-true :
      (kwargs : Kwargs V)
      → any_truthy truthy convert accepts kwargs ≡ true
      → submit truthy convert accepts others kwargs
        ≡ some (update kwargs others ∷ [], update kwargs others)
  submit-true kwargs t = rw t (rw (accepted (update kwargs others)) refl)

  -- What is submitted of a dict.
  abbrev sent : Kwargs V → List (Kwargs V) × Kwargs V
  sent kwargs =
      if any_truthy truthy convert accepts kwargs
      then (update kwargs others ∷ [], update kwargs others)
      else ([], kwargs)

  submit-sent :
      (kwargs : Kwargs V) → submit truthy convert accepts others kwargs ≡ some (sent kwargs)
  submit-sent kwargs = elim (Bool-cases (any_truthy truthy convert accepts kwargs)) [
    | inl t ↦ rw t (rw (accepted (update kwargs others)) refl)
    | inr t ↦ rw t refl
  ]

  length-sent :
      (kwargs : Kwargs V)
      → length (sent kwargs).0 ≡ (if any_truthy truthy convert accepts kwargs then 1 else 0)
  length-sent kwargs = ground arith

  last_round :
      (m : BatchMap V) (kwargs : Kwargs V)
      → IsKeyed m
      → IsKeyed kwargs
      → Apart m
      → Written m kwargs
      → longest m ≡ 0
      → Submits m 0 (execute_rounds truthy convert accepts others 1 m kwargs)
  unfolding execute_rounds
  last_round m kwargs keyed kwargs_keyed apart written e =
      let kwargs' = writes truthy convert accepts c converts m kwargs in
      (
        (sent kwargs').0,
        rw (next_values-writes truthy convert accepts c converts m kwargs, execute_rounds)
            (rw (submit-sent kwargs', execute_rounds)
              (rw (consumed-longest truthy convert accepts c converts m e, execute_rounds) refl)),
        ground
            (arith, length-sent kwargs', last_truthy m kwargs keyed kwargs_keyed apart written e),
        λ k h. absurd (omega arith),
      )

  next_each :
      (n : ℕ) (m : BatchMap V) (kwargs : Kwargs V)
      → IsKeyed m
      → Apart m
      → Bounded m kwargs
      → (ps : List (Kwargs V))
      → ((k : ℕ)
          → k < n
          → (p : Kwargs V) × (get_elem? ps k ≡ some p)
            × Arguments (tails truthy convert accepts c converts m) k p)
      → (k : ℕ) → k < suc n
      → (p : Kwargs V) × (get_elem?
            (update (writes truthy convert accepts c converts m kwargs) others ∷ ps)
            k
          ≡ some p)
        × Arguments m k p
  next_each n m kwargs keyed apart bounded ps each zero h = (
    update (writes truthy convert accepts c converts m kwargs) others,
    refl,
    round-Arguments m kwargs keyed apart bounded,
  )
  next_each n m kwargs keyed apart bounded ps each (suc k) h =
      let (p, at, args) = each k (omega arith) in (p, at, Arguments-tails m k p args)

  round_step :
      (fuel : ℕ) (m : BatchMap V) (kwargs : Kwargs V) (m' : BatchMap V) (yielded : Kwargs V)
      (ps : List (Kwargs V))
      → next_values truthy convert accepts m kwargs ≡ some (m', yielded)
      → any_truthy truthy convert accepts yielded ≡ true
      → all_iterators_consumed m ≡ false
      → execute_rounds truthy convert accepts others fuel m' (update yielded others) ≡ some ps
      → execute_rounds truthy convert accepts others (suc fuel) m kwargs
        ≡ some (update yielded others ∷ ps)
  unfolding execute_rounds
  round_step fuel m kwargs m' yielded ps values t more done =
      rw (values, execute_rounds)
        (rw (submit-true yielded t, execute_rounds) (rw (more, execute_rounds) (rw done refl)))

  next_round :
      (n : ℕ) (m : BatchMap V) (kwargs : Kwargs V)
      → IsKeyed m
      → Apart m
      → Bounded m kwargs
      → longest m ≡ suc n
      → Submits (tails truthy convert accepts c converts m) n (
          execute_rounds truthy convert accepts others
            (suc n)
            (tails truthy convert accepts c converts m)
            (update (writes truthy convert accepts c converts m kwargs) others))
      → Submits m (suc n) (execute_rounds truthy convert accepts others (suc (suc n)) m kwargs)
  next_round n m kwargs keyed apart bounded e (ps, done, size, each) = (
    update (writes truthy convert accepts c converts m kwargs) others ∷ ps,
    round_step (suc n) m kwargs (tails truthy convert accepts c converts m)
        (writes truthy convert accepts c converts m kwargs) ps
        (next_values-writes truthy convert accepts c converts m kwargs)
        (round_truthy n m kwargs keyed e)
        (longest-Live truthy convert accepts c converts n m keyed e).0 done,
    omega (arith, size),
    next_each n m kwargs keyed apart bounded ps each,
  )

  Written-tails :
      (m : BatchMap V) (kwargs : Kwargs V)
      → IsKeyed m
      → Bounded m kwargs
      → Written
          (tails truthy convert accepts c converts m)
          (update (writes truthy convert accepts c converts m kwargs) others)
  Written-tails m kwargs keyed bounded x away =
      Written-round m kwargs keyed bounded x
        (sym (has-tails truthy convert accepts c converts x m) ∙ away)

  -- From a dict that a pipeline was made from.
  later_rounds :
      (n : ℕ) (m : BatchMap V) (kwargs : Kwargs V)
      → IsKeyed m
      → IsKeyed kwargs
      → Apart m
      → Written m kwargs
      → longest m ≡ n
      → Submits m n (execute_rounds truthy convert accepts others (suc n) m kwargs)
  later_rounds zero m kwargs keyed kwargs_keyed apart written e =
      last_round m kwargs keyed kwargs_keyed apart written e
  later_rounds (suc n) m kwargs keyed kwargs_keyed apart written e =
      next_round n m kwargs keyed apart (Bounded-Written m kwargs written) e (
        later_rounds n (tails truthy convert accepts c converts m)
          (update (writes truthy convert accepts c converts m kwargs) others)
          (tails-IsKeyed truthy convert accepts c converts m keyed)
          (update-IsKeyed (writes truthy convert accepts c converts m kwargs) others
            (writes-IsKeyed truthy convert accepts c converts m kwargs kwargs_keyed))
          (Apart-tails m apart) (Written-tails m kwargs keyed (Bounded-Written m kwargs written))
          (longest-tails truthy convert accepts c converts m ∙ omega arith))

  -- From the empty dict that the generator starts with.
  pub all_rounds :
      (n : ℕ) (m : BatchMap V)
      → IsKeyed m
      → Apart m
      → longest m ≡ suc n
      → Submits m (suc n) (execute_rounds truthy convert accepts others (suc (suc n)) m [])
  unfolding lookup
  all_rounds n m keyed apart e =
      next_round n m [] keyed apart (λ x away out. refl) e
        (later_rounds n (tails truthy convert accepts c converts m)
          (update (writes truthy convert accepts c converts m []) others)
          (tails-IsKeyed truthy convert accepts c converts m keyed)
          (update-IsKeyed (writes truthy convert accepts c converts m []) others
            (writes-IsKeyed truthy convert accepts c converts m [] tt))
          (Apart-tails m apart) (Written-tails m [] keyed (λ x away out. refl))
          (longest-tails truthy convert accepts c converts m ∙ omega arith))
