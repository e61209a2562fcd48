-- ===== src/Store.antt =====
-- nexus/backends/stores/inmemory_store.py, and the filter of nexus/backends/store.py. A record is the
-- dict of its attributes, with values of a type `V` that Python compares.
pub mod Records
pub mod Contract
use event_pipeline.Prelude.{
  ℕ, String, Bool, true, false, ◌&&◌, if◌then◌else◌, none, some, List, [], ◌∷◌, ◌==◌, Comparable,
  comparable_string, length, filterb,
}
use event_pipeline.Prelude.Dict.{Dict, lookup, insert, remove, has, values}

pub data StoreError : Type 0 where
  object_does_not_exist key_error : StoreError

pub data StoreResult (A : Type 0) : Type 0 where
  stored : A → StoreResult A
  failed : StoreError → StoreResult A

abbrev pub Record : Type 0 → Type 0
Record V = Dict String V

-- `_cursor`: the records of a schema under their keys.
abbrev pub Memory : Type 0 → Type 0
Memory V = Dict String (Dict String (Record V))

module _ {V : Type 0} where
  unfoldable pub exists : (schema_name record_key : String) → Memory V → Bool
  exists s k m = elim (lookup s m) [ none ↦ false | some records ↦ has k records ]

  unfoldable pub count : String → Memory V → StoreResult ℕ
  count s m = elim (lookup s m) [ none ↦ failed key_error | some records ↦ stored (length records) ]

  abbrev pub schema_of : String → Memory V → Dict String (Record V)
  schema_of s m = elim (lookup s m) [ none ↦ [] | some records ↦ records ]

  -- insert_record, and update_record, which has the same body
  unfoldable pub insert_record : (schema_name record_key : String) → Record V → Memory V → Memory V
  insert_record s k r m = insert s (insert k r (schema_of s m)) m

  unfoldable pub delete_record :
      (schema_name record_key : String) → Memory V → StoreResult (Memory V)
  delete_record s k m = elim (lookup s m) [
    | none ↦ failed object_does_not_exist
    | some records ↦
        if has k records
        then stored (insert s (remove k records) m)
        else failed object_does_not_exist
  ]

  unfoldable pub get_record : (schema_name record_key : String) → Memory V → StoreResult (Record V)
  get_record s k m = elim (lookup s m) [
    | none ↦ failed object_does_not_exist
    | some records ↦ elim (lookup k records) [
      | none ↦ failed object_does_not_exist
      | some r ↦ stored r
    ]
  ]

module _ {V : Type 0} ⦃e : Comparable V⦄ where
  -- _generate_filter_match
  unfoldable pub match_record : Record V → Record V → Bool
  match_record [] r = true
  match_record ((k, v) ∷ filters) r = elim (lookup k r) [
    | none ↦ false
    | some w ↦ w == v && match_record filters r
  ]

  unfoldable pub filter_record : String → Record V → Memory V → StoreResult (List (Record V))
  unfolding match_record
  filter_record s filters m = elim (lookup s m) [
    | none ↦ failed object_does_not_exist
    | some records ↦ stored (filterb (match_record filters) (values records))
  ]
