-- ===== src/Field/Cache.antt =====
-- What stays in the cache of fields (nexus/pipeline.py: PipelineState).
use event_pipeline.Prelude.{
  String, Bool, true, false, ◌≡◌, refl, Option, none, some, List, [], ◌∷◌, comparable_string, ◌==◌,
  ==_refl, Bool-cases, ap, All, inl, inr, ◌⊎◌,
}
use event_pipeline.Prelude.Dict.{lookup, insert, has, lookup-insert}
use event_pipeline.Field.{
  PipelineState, CacheField, set_cache, prepared, written, set_cache_for_pipeline_field,
}

-- A value that a field of an instance is set to.
pub record Write (V : Type 0) : Type 0 where
  pub instance_key : String
  pub field_name : String
  pub value : V

module _ {V : Type 0} where
  abbrev pub write_all : List (Write V) → PipelineState V → PipelineState V
  write_all [] s = s
  write_all (w ∷ ws) s =
      write_all ws (set_cache_for_pipeline_field w.instance_key w.field_name (some w.value) s)

module _ {V : Type 0} (is_field : String → Bool) where
  -- The key of the instance is not the name of a field.
  abbrev pub Apart : Write V → Type 0
  Apart w = (is_field w.field_name ≡ true) × (is_field w.instance_key ≡ false)

  -- The cache is empty, or has one field of one instance.
  abbrev IsLast : Option (CacheField V) → Type 0
  IsLast o =
      (o ≡ none)
      ⊎ ((w : Write V) × Apart w × (o ≡ some ((w.instance_key, (w.field_name, w.value) ∷ []) ∷ [])))

  written_fresh : (k n : String) (v : V) → written k n v ((k, []) ∷ []) ≡ (k, (n, v) ∷ []) ∷ []
  unfolding lookup insert
  written_fresh k n v = rw (==_refl k, written) (rw (==_refl k) refl)

  names_differ : (w x : Write V) → Apart w → Apart x → (x.field_name == w.instance_key) ≡ false
  names_differ w x apart x_apart = elim (Bool-cases (x.field_name == w.instance_key)) [
    | inl e ↦ cc (
      ap is_field ((comparable_string.equals_iff x.field_name w.instance_key).0 e),
      apart.1,
      x_apart.0,
    )
    | inr e ↦ e
  ]

  prepared_again :
      (w x : Write V)
      → Apart w
      → Apart x
      → prepared w.instance_key (some ((x.instance_key, (x.field_name, x.value) ∷ []) ∷ []))
        ≡ (w.instance_key, []) ∷ []
  unfolding lookup insert has
  prepared_again w x apart x_apart = elim (Bool-cases (x.instance_key == w.instance_key)) [
    | inl e ↦
        rw (e, prepared)
          (rw (names_differ w x apart x_apart, prepared)
            (rw e (
              ap (λ (j : String). (j, []) ∷ [])
                ((comparable_string.equals_iff x.instance_key w.instance_key).0 e))))
    | inr e ↦ rw (e, prepared) refl
  ]

  prepared-IsLast :
      (w : Write V) (o : Option (CacheField V))
      → Apart w
      → IsLast o
      → prepared w.instance_key o ≡ (w.instance_key, []) ∷ []
  unfolding lookup insert has
  prepared-IsLast w o apart (inl empty) = rw empty refl
  prepared-IsLast w o apart (inr (x, x_apart, one)) = rw one (prepared_again w x apart x_apart)

  write-IsLast :
      (w : Write V) (s : PipelineState V)
      → Apart w
      → IsLast (lookup "pipeline_cache" s)
      → lookup "pipeline_cache"
          (set_cache_for_pipeline_field w.instance_key w.field_name (some w.value) s)
        ≡ some ((w.instance_key, (w.field_name, w.value) ∷ []) ∷ [])
  unfolding set_cache
  write-IsLast w s apart last = rw (prepared-IsLast w (lookup "pipeline_cache" s) apart last) (
      rw (written_fresh w.instance_key w.field_name w.value) (
        lookup-insert "pipeline_cache" "pipeline_cache"
          ((w.instance_key, (w.field_name, w.value) ∷ []) ∷ []) s))

  write_all-IsLast :
      (ws : List (Write V)) (s : PipelineState V)
      → All Apart ws
      → IsLast (lookup "pipeline_cache" s)
      → IsLast (lookup "pipeline_cache" (write_all ws s))
  write_all-IsLast [] s apart last = last
  write_all-IsLast (w ∷ ws) s apart last =
      write_all-IsLast ws
        (set_cache_for_pipeline_field w.instance_key w.field_name (some w.value) s) apart.1
        (inr (w, apart.0, write-IsLast w s apart.0 last))

  -- However many values of fields were cached before, of however many instances, after the next one the cache holds this one alone, if no key of an instance is the name of a field.
  pub cache_forgets :
      (ws : List (Write V)) (w : Write V)
      → All Apart ws
      → Apart w
      → lookup "pipeline_cache" (
          set_cache_for_pipeline_field w.instance_key w.field_name (some w.value) (write_all ws []))
        ≡ some ((w.instance_key, (w.field_name, w.value) ∷ []) ∷ [])
  unfolding lookup
  cache_forgets ws w earlier apart =
      write-IsLast w (write_all ws []) apart (write_all-IsLast ws [] earlier (inl refl))
