-- ===== src/Field.antt =====
-- nexus/fields.py: InputDataField as a descriptor, and the cache of fields that it writes to,
-- nexus/pipeline.py: PipelineState. The values have a type V; None is `none`.
pub mod Cache
pub mod Assignment
use event_pipeline.Prelude.{
  String, Bool, true, not, ◌&&◌, Option, none, some, List, [], ◌∷◌, if◌then◌else◌,
  comparable_string, is_some,
}
use event_pipeline.Prelude.Dict.{Dict, lookup, insert, remove, has}

-- One cache of a PipelineState: the values of the fields of each instance, under its key.
abbrev pub CacheField : Type 0 → Type 0
CacheField V = Dict String (Dict String V)

-- PipelineState.__dict__, without `start`.
abbrev pub PipelineState : Type 0 → Type 0
PipelineState V = Dict String (CacheField V)

module _ {V : Type 0} where
  -- The test of set_cache; `instance_key not in collection` looks among the names of the fields.
  abbrev pub prepared : String → Option (CacheField V) → CacheField V
  prepared instance_key none = (instance_key, []) ∷ []
  prepared instance_key (some cache) = elim (lookup instance_key cache) [
    | none ↦ (instance_key, []) ∷ []
    | some collection ↦ if has instance_key collection then cache else insert instance_key [] cache
  ]

  abbrev pub written : String → String → V → CacheField V → CacheField V
  written instance_key field_name value cache = elim (lookup instance_key cache) [
    | none ↦ cache
    | some collection ↦ insert instance_key (insert field_name value collection) cache
  ]

  unfoldable pub set_cache :
      (instance_key instance_cache_field field_name : String)
      → Option V
      → PipelineState V
      → PipelineState V
  set_cache instance_key instance_cache_field field_name none s = s
  set_cache instance_key instance_cache_field field_name (some value) s =
      insert instance_cache_field
        (written instance_key field_name value
          (prepared instance_key (lookup instance_cache_field s)))
        s

  abbrev pub set_cache_for_pipeline_field :
      (instance_key field_name : String) → Option V → PipelineState V → PipelineState V
  set_cache_for_pipeline_field instance_key field_name value s =
      set_cache instance_key "pipeline_cache" field_name value s

  -- check_cache_exists: the caches that know the instance.
  unfoldable pub check_cache_exists : String → PipelineState V → List String
  check_cache_exists instance_key [] = []
  check_cache_exists instance_key ((field, cache) ∷ s) =
      if has instance_key cache
      then field ∷ check_cache_exists instance_key s
      else check_cache_exists instance_key s

  -- clear: the instance is taken out of every cache.
  unfoldable pub clear : String → PipelineState V → PipelineState V
  clear instance_key [] = []
  clear instance_key ((field, cache) ∷ s) =
      (field, if has instance_key cache then remove instance_key cache else cache)
      ∷ clear instance_key s

-- A field without its batch processor. `data_type` is what `isinstance` says, none for UNKNOWN;
-- `default` is none for EMPTY; `default_factory` is what it gives.
pub record InputDataField (V : Type 0) : Type 0 where
  pub name : String
  pub data_type : Option (V → Bool)
  pub default : Option (Option V)
  pub default_factory : Option (Option V)
  pub required : Bool

-- How __set__ ends: with the __dict__ of the instance and the state of its class.
pub data Assigned (V : Type 0) : Type 0 where
  type_error value_error : Assigned V
  assigned : Dict String (Option V) → PipelineState V → Assigned V

module _ {V : Type 0} (callable : V → Bool) where
  abbrev pub has_type : Option (V → Bool) → V → Bool
  has_type none v = true
  has_type (some is_instance) v = is_instance v

  -- What stands in for None.
  abbrev pub fallback : InputDataField V → Option V
  fallback f = elim f.default [
    | some d ↦ d
    | none ↦ elim f.default_factory [ some d ↦ d | none ↦ none ]
  ]

  abbrev pub store_value :
      InputDataField V → String → Option V → Dict String (Option V) → PipelineState V → Assigned V
  store_value f instance_key value d s =
      assigned (insert f.name value d) (set_cache_for_pipeline_field instance_key f.name value s)

  -- __set__
  unfoldable pub set_field :
      InputDataField V → String → Option V → Dict String (Option V) → PipelineState V → Assigned V
  unfolding set_cache
  set_field f instance_key (some v) d s =
      if not (has_type f.data_type v)
      then type_error
      else if callable v
      then type_error
      else store_value f instance_key (some v) d s
  set_field f instance_key none d s =
      if f.required && not (is_some f.default) && not (is_some f.default_factory)
      then value_error
      else store_value f instance_key (fallback f) d s

  -- __get__ on an instance
  unfoldable pub get_field : InputDataField V → Dict String (Option V) → Option V
  get_field f d = elim (lookup f.name d) [
    | none ↦ fallback f
    | some none ↦ fallback f
    | some (some v) ↦ some v
  ]
