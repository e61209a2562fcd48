-- ===== src/Batch/Rounds.antt =====
-- A round of BatchPipeline._execute_field_batch_processors (nexus/pipeline.py), by what it writes.
use event_pipeline.Prelude.{
  ℕ, zero, suc, ◌-◌, ◌≡◌, refl, ◌∙◌, String, Bool, true, false, Option, none, some, List, [], ◌∷◌,
  comparable_string, arith,
}
use event_pipeline.Prelude.Dict.{
  lookup, insert, has, IsKeyed, lookup-insert, has-lookup, insert-IsKeyed,
}
use event_pipeline.Batch.{Kwargs, BatchMap, next_values, all_iterators_consumed, longest}

module _ {V : Type 0} (truthy : V → Bool) (convert : String → V → Option V)
    (accepts : Kwargs V → Bool) (c : String → V → V)
    (converts : (f : String) (v : V) → convert f v ≡ some (c f v)) where
  abbrev pub heads : String → List V → Option V
  heads f [] = none
  heads f (v ∷ vs) = some (c f v)

  abbrev pub tail : List V → List V
  tail [] = []
  tail (v ∷ vs) = vs

  abbrev pub tails : BatchMap V → BatchMap V
  tails [] = []
  tails ((f, vs) ∷ m) = (f, tail vs) ∷ tails m

  abbrev pub writes : BatchMap V → Kwargs V → Kwargs V
  writes [] kwargs = kwargs
  writes ((f, vs) ∷ m) kwargs = writes m (insert f (heads f vs) kwargs)

  pub next_values-writes :
      (m : BatchMap V) (kwargs : Kwargs V)
      → next_values truthy convert accepts m kwargs ≡ some (tails m, writes m kwargs)
  unfolding next_values
  next_values-writes [] kwargs = refl
  next_values-writes ((f, []) ∷ m) kwargs = rw (next_values-writes m (insert f none kwargs))
  next_values-writes ((f, v ∷ vs) ∷ m) kwargs =
      rw (converts f v, next_values) (rw (next_values-writes m (insert f (some (c f v)) kwargs)))

  -- What a field is given by a round.
  abbrev pub given : String → Option (List V) → Option (Option V) → Option (Option V)
  given f none before = before
  given f (some vs) before = some (heads f vs)

  pub lookup-writes :
      (x : String) (m : BatchMap V) (kwargs : Kwargs V)
      → IsKeyed m
      → lookup x (writes m kwargs) ≡ given x (lookup x m) (lookup x kwargs)
  unfolding lookup has
  lookup-writes x [] kwargs keyed = refl
  lookup-writes x ((f, vs) ∷ m) kwargs keyed = grind (
    arith,
    lookup-writes x m (insert f (heads f vs) kwargs) keyed.1,
    lookup-insert f x (heads f vs) kwargs,
    has-lookup x m,
    comparable_string.equals_iff f x,
  )

  pub has-tails : (x : String) (m : BatchMap V) → has x (tails m) ≡ has x m
  unfolding has
  has-tails x [] = refl
  has-tails x ((f, vs) ∷ m) = ground (arith, has-tails x m)

  pub tails-IsKeyed : (m : BatchMap V) → IsKeyed m → IsKeyed (tails m)
  unfolding has
  tails-IsKeyed [] keyed = tt
  tails-IsKeyed ((f, vs) ∷ m) keyed = (has-tails f m ∙ keyed.0, tails-IsKeyed m keyed.1)

  pub longest-tails : (m : BatchMap V) → longest (tails m) ≡ longest m - 1
  longest-tails [] = refl
  longest-tails ((f, []) ∷ m) = omega (arith, longest-tails m)
  longest-tails ((f, v ∷ vs) ∷ m) = omega (arith, longest-tails m)

  pub consumed-longest : (m : BatchMap V) → longest m ≡ 0 → all_iterators_consumed m ≡ true
  consumed-longest [] e = refl
  consumed-longest ((f, []) ∷ m) e = consumed-longest m (omega arith)
  consumed-longest ((f, v ∷ vs) ∷ m) e = absurd (omega arith)

  -- An iterator that still gives a value.
  unfoldable pub Live : BatchMap V → Type 0
  Live m = (f : String) × (v : V) × (vs : List V) × (lookup f m ≡ some (v ∷ vs))

  pub longest-Live :
      (n : ℕ) (m : BatchMap V)
      → IsKeyed m
      → longest m ≡ suc n
      → (all_iterators_consumed m ≡ false) × Live m
  unfolding Live lookup has
  longest-Live n [] keyed e = absurd (omega arith)
  longest-Live n ((f, []) ∷ m) keyed e =
      let (more, live) = longest-Live n m keyed.1 (omega arith) in
      let (g, v, vs, found) = live in
      (
        more,
        (g, v, vs, grind (arith, has-lookup f m, keyed.0, found, comparable_string.equals_iff f g)),
      )
  longest-Live n ((f, v ∷ vs) ∷ m) keyed e =
      (refl, (f, v, vs, grind (arith, comparable_string.equals_iff f f)))

  pub lookup-tails :
      (x : String) (m : BatchMap V) (vs : List V)
      → lookup x m ≡ some vs
      → lookup x (tails m) ≡ some (tail vs)
  unfolding lookup
  lookup-tails x [] vs e = cc
  lookup-tails x ((f, ws) ∷ m) vs e = grind (arith, lookup-tails x m vs)

  -- The value of a field in a round, by the number of the round.
  abbrev pub nth : String → ℕ → List V → Option V
  nth f k [] = none
  nth f zero (v ∷ vs) = some (c f v)
  nth f (suc k) (v ∷ vs) = nth f k vs

  pub nth-tail : (f : String) (k : ℕ) (vs : List V) → nth f k (tail vs) ≡ nth f (suc k) vs
  nth-tail f k [] = refl
  nth-tail f k (v ∷ vs) = refl

  pub nth-zero : (f : String) (vs : List V) → nth f 0 vs ≡ heads f vs
  nth-zero f [] = refl
  nth-zero f (v ∷ vs) = refl

  pub writes-IsKeyed :
      (m : BatchMap V) (kwargs : Kwargs V) → IsKeyed kwargs → IsKeyed (writes m kwargs)
  writes-IsKeyed [] kwargs keyed = keyed
  writes-IsKeyed ((f, vs) ∷ m) kwargs keyed =
      writes-IsKeyed m (insert f (heads f vs) kwargs) (insert-IsKeyed f (heads f vs) kwargs keyed)

  -- With no value left a round writes None only.
  pub heads-empty :
      (x : String) (m : BatchMap V) (vs : List V) → longest m ≡ 0 → lookup x m ≡ some vs → vs ≡ []
  unfolding lookup
  heads-empty x [] vs none_left e = cc
  heads-empty x ((f, []) ∷ m) vs none_left e = grind (arith, heads-empty x m vs (omega arith))
  heads-empty x ((f, w ∷ ws) ∷ m) vs none_left e = absurd (omega arith)
