-- ===== src/Field/Assignment.antt =====
-- Reading back a field (nexus/fields.py).
use event_pipeline.Prelude.{
  String, Bool, true, false, not, ◌&&◌, ◌≡◌, refl, ◌∙◌, Option, none, some, if◌then◌else◌,
  comparable_string, ◌==◌, ==_refl, is_some, arith, inl, inr, Bool-cases,
}
use event_pipeline.Prelude.Dict.{Dict, lookup, insert, lookup-insert}
use event_pipeline.Field.{
  InputDataField, Assigned, type_error, value_error, assigned, PipelineState, has_type, fallback,
  store_value, set_field, get_field,
}

module _ {V : Type 0} (callable : V → Bool) where
  -- The value that an assignment stands for.
  abbrev pub meant : InputDataField V → Option V → Option V
  meant f none = fallback callable f
  meant f (some v) = some v

  -- The values that the field takes.
  abbrev pub Fits : InputDataField V → Option V → Type 0
  Fits f none = (f.required && not (is_some f.default) && not (is_some f.default_factory)) ≡ false
  Fits f (some v) = (has_type callable f.data_type v ≡ true) × (callable v ≡ false)

  -- What an assignment does, by how it ends.
  abbrev pub IsAssignment :
      InputDataField V → Option V → Dict String (Option V) → Assigned V → Type 0
  IsAssignment f v d type_error =
      (x : V) × (v ≡ some x) × ((has_type callable f.data_type x && not (callable x)) ≡ false)
  IsAssignment f v d value_error =
      (v ≡ none) × (f.required ≡ true) × (f.default ≡ none) × (f.default_factory ≡ none)
  IsAssignment f v d (assigned d' s') =
      Fits f v
      × (get_field callable f d' ≡ meant f v)
      × ((g : String) → lookup g d' ≡ (if f.name == g then some (meant f v) else lookup g d))

  lookup_same :
      (n : String) (o : Option V) (d : Dict String (Option V)) → lookup n (insert n o d) ≡ some o
  lookup_same n o d = lookup-insert n n o d ∙ rw (==_refl n) refl

  get-insert :
      (f : InputDataField V) (o : Option V) (d : Dict String (Option V))
      → get_field callable f (insert f.name o d)
        ≡ elim o [ none ↦ fallback callable f | some v ↦ some v ]
  unfolding get_field
  get-insert f none d = rw (lookup_same f.name none d, get_field) refl
  get-insert f (some v) d = rw (lookup_same f.name (some v) d, get_field) refl

  keeps_fallback : (o p : Option V) → o ≡ p → (elim o [ none ↦ p | some v ↦ some v ]) ≡ p
  keeps_fallback none p e = refl
  keeps_fallback (some v) p e = e

  meant-get :
      (f : InputDataField V) (v : Option V)
      → (elim (meant f v) [ none ↦ fallback callable f | some w ↦ some w ]) ≡ meant f v
  meant-get f none = keeps_fallback (fallback callable f) (fallback callable f) refl
  meant-get f (some v) = refl

  store_value-IsAssignment :
      (f : InputDataField V) (key : String) (v : Option V) (d : Dict String (Option V))
      (s : PipelineState V)
      → Fits f v
      → IsAssignment f v d (store_value callable f key (meant f v) d s)
  store_value-IsAssignment f key v d s fits =
      (fits, get-insert f (meant f v) d ∙ meant-get f v, λ g. lookup-insert f.name g (meant f v) d)

  is_missing :
      (required default default_factory : Bool)
      → (required && not default && not default_factory) ≡ true
      → (required ≡ true) × (default ≡ false) × (default_factory ≡ false)
  is_missing r x y e = ground (arith, e)

  none_of : {A : Type 0} (o : Option A) → is_some o ≡ false → o ≡ none
  none_of none e = refl
  none_of (some a) e = cc e

  -- An assignment to a field ends in one of three ways. It raises a TypeError, for a value that is not of the type of the field or is callable; or a ValueError, for None to a required field without a default; or it takes the value, which is then none of these, so that reading the field gives this value, or the default if the value is None, and every other attribute is as before.
  pub set_field-IsAssignment :
      (f : InputDataField V) (instance_key : String) (v : Option V) (d : Dict String (Option V))
      (s : PipelineState V)
      → IsAssignment f v d (set_field callable f instance_key v d s)
  unfolding set_field
  set_field-IsAssignment f key none d s =
      elim (Bool-cases (f.required && not (is_some f.default) && not (is_some f.default_factory))) [
        | inl e ↦
            let (required, no_default, no_factory) =
              is_missing f.required (is_some f.default) (is_some f.default_factory) e in
            rw e
              (refl, required, none_of f.default no_default, none_of f.default_factory no_factory)
        | inr e ↦ rw e (store_value-IsAssignment f key none d s e)
      ]
  set_field-IsAssignment f key (some v) d s = elim (Bool-cases (has_type callable f.data_type v)) [
    | inl e ↦ elim (Bool-cases (callable v)) [
      | inl g ↦ rw e (rw g (v, refl, rw e (rw g refl)))
      | inr g ↦ rw e (rw g (store_value-IsAssignment f key (some v) d s (e, g)))
    ]
    | inr e ↦ rw e (v, refl, rw e refl)
  ]
