-- ===== src/Store/Records.antt =====
-- What the in-memory store (nexus/backends/stores/inmemory_store.py) gives back.
use event_pipeline.Prelude.{
  String, ◌≡◌, refl, true, ◌&&◌, if◌then◌else◌, Option, none, some, List, [], ◌∷◌, ◌==◌, Comparable,
  comparable_string, filterb, All, arith, Bool-cases, Option-cases, ◌⊎◌, inl, inr,
}
use event_pipeline.Prelude.Dict.{
  Dict, lookup, insert, remove, has, values, has-lookup, lookup-insert, lookup-remove,
}
use event_pipeline.Store.{
  object_does_not_exist, StoreResult, stored, failed, Record, Memory, schema_of, insert_record,
  delete_record, get_record, match_record, filter_record,
}

module _ {V : Type 0} where
  -- What get_record says of a key of the dictionaries.
  abbrev pub found : Option (Record V) → StoreResult (Record V)
  found none = failed object_does_not_exist
  found (some r) = stored r

  pub get_record_lem :
      (s k : String) (m : Memory V) → get_record s k m ≡ found (lookup k (schema_of s m))
  unfolding get_record lookup
  get_record_lem s k m = ground arith

  pub schema_of-insert :
      (s j : String) (d : Dict String (Record V)) (m : Memory V)
      → schema_of j (insert s d m) ≡ (if s == j then d else schema_of j m)
  schema_of-insert s j d m = ground (arith, lookup-insert s j d m)

  -- A read after an insert or an update of a record gives that record under its schema and key, and everywhere else what was there.
  pub get_record-insert_record :
      (s k t j : String) (r : Record V) (m : Memory V)
      → get_record t j (insert_record s k r m)
        ≡ (if s == t && k == j then stored r else get_record t j m)
  unfolding insert_record
  get_record-insert_record s k t j r m = grind (
    arith,
    get_record_lem t j (insert s (insert k r (schema_of s m)) m),
    get_record_lem t j m,
    schema_of-insert s t (insert k r (schema_of s m)) m,
    lookup-insert k j r (schema_of s m),
    comparable_string.equals_iff s t,
  )

  after_delete :
      (s k t j : String) (records : Dict String (Record V)) (m : Memory V)
      → lookup s m ≡ some records
      → get_record t j (insert s (remove k records) m)
        ≡ (if s == t && k == j then failed object_does_not_exist else get_record t j m)
  after_delete s k t j records m there = grind (
    arith,
    get_record_lem t j (insert s (remove k records) m),
    get_record_lem t j m,
    schema_of-insert s t (remove k records) m,
    lookup-remove k j records,
    comparable_string.equals_iff s t,
  )

  -- delete_record answers in the same way as get_record whether the record is there, and when it is, a later read finds nothing under its key, and every other record as before.
  pub delete_record_lem :
      (s k : String) (m : Memory V)
      → ((get_record s k m ≡ failed object_does_not_exist)
          × (delete_record s k m ≡ failed object_does_not_exist))
        ⊎ ((m' : Memory V) × (delete_record s k m ≡ stored m')
            × ((t j : String)
                → get_record t j m'
                  ≡ (if s == t && k == j then failed object_does_not_exist else get_record t j m)))
  unfolding delete_record get_record
  delete_record_lem s k m = elim (Option-cases (lookup s m)) [
    | inl absent ↦ inl (rw (absent, get_record) refl, rw (absent, delete_record) refl)
    | inr (records, there) ↦ elim (Bool-cases (has k records)) [
      | inl present ↦ inr (
        insert s (remove k records) m,
        rw (there, delete_record) (rw present refl),
        λ t j. after_delete s k t j records m there,
      )
      | inr missing ↦ inl (
        grind (arith, get_record_lem s k m, has-lookup k records),
        rw (there, delete_record) (rw missing refl),
      )
    ]
  ]

module _ {V : Type 0} ⦃e : Comparable V⦄ where
  -- The record has each attribute of the filter, with its value.
  abbrev pub Matches : Record V → Record V → Type 0
  Matches filters r = All (λ (f : String × V). lookup f.0 r ≡ some f.1) filters

  match_record-Matches : (filters r : Record V) → match_record filters r ≡ true → Matches filters r
  unfolding match_record
  match_record-Matches [] r h = tt
  match_record-Matches ((k, v) ∷ filters) r h = elim (Option-cases (lookup k r)) [
    | inl absent ↦ cc (rw (absent, match_record) at h)
    | inr (w, there) ↦ grind (
      arith,
      rw (there, match_record) at h,
      there,
      e.equals_iff w v,
      match_record-Matches filters r,
    )
  ]

  filterb-Matches :
      (filters : Record V) (rs : List (Record V))
      → All (Matches filters) (filterb (match_record filters) rs)
  filterb-Matches filters [] = tt
  filterb-Matches filters (r ∷ rs) = elim (Bool-cases (match_record filters r)) [
    | inl fits ↦ rw fits (match_record-Matches filters r fits, filterb-Matches filters rs)
    | inr other ↦ rw other (filterb-Matches filters rs)
  ]

  -- Every record that filter_record gives has all the attributes that were asked for, with their values, and filter_record fails exactly on a schema that is not there.
  pub filter_record_lem :
      (s : String) (filters : Record V) (m : Memory V)
      → ((lookup s m ≡ none) × (filter_record s filters m ≡ failed object_does_not_exist))
        ⊎ ((rs : List (Record V)) × (filter_record s filters m ≡ stored rs)
            × All (Matches filters) rs)
  unfolding filter_record
  filter_record_lem s filters m = elim (Option-cases (lookup s m)) [
    | inl absent ↦ inl (absent, rw (absent, filter_record) refl)
    | inr (records, there) ↦ inr (
      filterb (match_record filters) (values records),
      rw (there, filter_record) refl,
      filterb-Matches filters (values records),
    )
  ]
