-- ===== src/Store/Contract.antt =====
-- What the in-memory store (nexus/backends/stores/inmemory_store.py) promises a client: a map from
-- schema and key to a record.
use event_pipeline.Prelude.{
  String, Bool, ◌≡◌, refl, ◌∙◌, ap, sym, ◌&&◌, if◌then◌else◌, Option, none, some, List, [], ◌∷◌,
  ◌==◌, comparable_string, arith, Option-cases, inl, inr, is_some,
}
use event_pipeline.Prelude.Dict.{
  Dict, lookup, insert, remove, has, has-lookup, lookup-insert, lookup-remove,
}
use event_pipeline.Store.{
  object_does_not_exist, StoreResult, stored, failed, Record, Memory, schema_of, insert_record,
  delete_record, get_record, exists,
}
use event_pipeline.Store.Records.{get_record_lem, schema_of-insert, found}

-- An operation of a client, with its schema and key.
pub data Command (V : Type 0) : Type 0 where
  put : String → String → Record V → Command V
  delete get test : String → String → Command V

-- What a client sees of it: ObjectDoesNotExist is `missing`.
pub data Answer (V : Type 0) : Type 0 where
  done missing : Answer V
  gives : Record V → Answer V
  tells : Bool → Answer V

-- The specification: the record, if any, of each schema and key.
abbrev pub Contents : Type 0 → Type 0
Contents V = String → String → Option (Record V)

module _ {V : Type 0} where
  abbrev given : Option (Record V) → Answer V
  given none = missing
  given (some r) = gives r

  abbrev write : String → String → Option (Record V) → Contents V → Contents V
  write s k o c = λ t j. if s == t && k == j then o else c t j

  abbrev deleted : String → String → Option (Record V) → Contents V → Answer V × Contents V
  deleted s k none c = (missing, c)
  deleted s k (some r) c = (done, write s k none c)

  abbrev pub specified : Command V → Contents V → Answer V × Contents V
  specified (put s k r) c = (done, write s k (some r) c)
  specified (delete s k) c = deleted s k (c s k) c
  specified (get s k) c = (given (c s k), c)
  specified (test s k) c = (tells (is_some (c s k)), c)

  abbrev answer_of : StoreResult (Record V) → Answer V
  answer_of (stored r) = gives r
  answer_of (failed e) = missing

  abbrev after_delete : StoreResult (Memory V) → Memory V → Answer V × Memory V
  after_delete (stored m') m = (done, m')
  after_delete (failed e) m = (missing, m)

  -- The same on the store.
  abbrev pub performed : Command V → Memory V → Answer V × Memory V
  performed (put s k r) m = (done, insert_record s k r m)
  performed (delete s k) m = after_delete (delete_record s k m) m
  performed (get s k) m = (answer_of (get_record s k m), m)
  performed (test s k) m = (tells (exists s k m), m)

  -- The answers to a sequence of operations.
  abbrev pub all_specified : List (Command V) → Contents V → List (Answer V)
  all_specified [] c = []
  all_specified (x ∷ xs) c = (specified x c).0 ∷ all_specified xs (specified x c).1

  abbrev pub all_performed : List (Command V) → Memory V → List (Answer V)
  all_performed [] m = []
  all_performed (x ∷ xs) m = (performed x m).0 ∷ all_performed xs (performed x m).1

  -- What a memory holds.
  abbrev pub contents : Memory V → Contents V
  contents m = λ s k. lookup k (schema_of s m)

  abbrev Represents : Memory V → Contents V → Type 0
  Represents m c = (s k : String) → lookup k (schema_of s m) ≡ c s k

  contents-insert :
      (s k t j : String) (r : Record V) (m : Memory V)
      → lookup j (schema_of t (insert_record s k r m))
        ≡ (if s == t && k == j then some r else lookup j (schema_of t m))
  unfolding insert_record
  contents-insert s k t j r m = grind (
    arith,
    schema_of-insert s t (insert k r (schema_of s m)) m,
    lookup-insert k j r (schema_of s m),
    comparable_string.equals_iff s t,
  )

  contents-remove :
      (s k t j : String) (m : Memory V)
      → lookup j (schema_of t (insert s (remove k (schema_of s m)) m))
        ≡ (if s == t && k == j then none else lookup j (schema_of t m))
  contents-remove s k t j m = grind (
    arith,
    schema_of-insert s t (remove k (schema_of s m)) m,
    lookup-remove k j (schema_of s m),
    comparable_string.equals_iff s t,
  )

  nothing_in : (k : String) → lookup {V = Record V} k [] ≡ none
  unfolding lookup
  nothing_in k = refl

  schema_absent : (s : String) (m : Memory V) → lookup s m ≡ none → schema_of s m ≡ []
  schema_absent s m e = rw (e, schema_of) refl

  schema_there :
      (s : String) (m : Memory V) (records : Dict String (Record V))
      → lookup s m ≡ some records
      → schema_of s m ≡ records
  schema_there s m records e = rw (e, schema_of) refl

  has-schema_of :
      (s k : String) (m : Memory V) (records : Dict String (Record V))
      → lookup s m ≡ some records
      → has k records ≡ is_some (lookup k (schema_of s m))
  has-schema_of s k m records e =
      has-lookup k records
      ∙ ap (λ (d : Dict String (Record V)). is_some (lookup k d)) (sym (schema_there s m records e))

  delete-absent :
      (s k : String) (m : Memory V)
      → lookup k (schema_of s m) ≡ none
      → delete_record s k m ≡ failed object_does_not_exist
  unfolding delete_record
  delete-absent s k m absent = elim (Option-cases (lookup s m)) [
    | inl e ↦ rw (e, delete_record) refl
    | inr (records, e) ↦
        rw (e, delete_record) (rw (has-schema_of s k m records e ∙ ap is_some absent) refl)
  ]

  delete-present :
      (s k : String) (r : Record V) (m : Memory V)
      → lookup k (schema_of s m) ≡ some r
      → delete_record s k m ≡ stored (insert s (remove k (schema_of s m)) m)
  unfolding delete_record
  delete-present s k r m present = elim (Option-cases (lookup s m)) [
    | inl e ↦ cc (
      nothing_in k,
      ap (λ (d : Dict String (Record V)). lookup k d) (schema_absent s m e),
      present,
    )
    | inr (records, e) ↦
        rw (schema_there s m records e)
          (rw (e, delete_record) (rw (has-schema_of s k m records e ∙ ap is_some present) refl))
  ]

  answer-found : (o : Option (Record V)) → answer_of (found o) ≡ given o
  answer-found none = refl
  answer-found (some r) = refl

  get-Represents :
      (s k : String) (m : Memory V)
      → answer_of (get_record s k m) ≡ given (lookup k (schema_of s m))
  get-Represents s k m =
      ap answer_of (get_record_lem s k m) ∙ answer-found (lookup k (schema_of s m))

  exists-schema_of :
      (s k : String) (m : Memory V) → exists s k m ≡ is_some (lookup k (schema_of s m))
  unfolding exists
  exists-schema_of s k m = elim (Option-cases (lookup s m)) [
    | inl e ↦
        rw (e, exists)
          (sym (
            ap (λ (d : Dict String (Record V)). is_some (lookup k d)) (schema_absent s m e)
            ∙ ap is_some (nothing_in k)))
    | inr (records, e) ↦ rw (e, exists) (has-schema_of s k m records e)
  ]

  -- A step of the store is one of the specification.
  step-Represents :
      (x : Command V) (m : Memory V) (c : Contents V)
      → Represents m c
      → ((performed x m).0 ≡ (specified x c).0) × Represents (performed x m).1 (specified x c).1
  step-Represents (put s k r) m c same =
      (refl, λ t j. grind (arith, contents-insert s k t j r m, same t j))
  step-Represents (delete s k) m c same = elim (Option-cases (lookup k (schema_of s m))) [
    | inl absent ↦ rw (delete-absent s k m absent) (rw (sym (same s k) ∙ absent) (refl, same))
    | inr (r, present) ↦ rw (delete-present s k r m present) (
        rw (sym (same s k) ∙ present)
          (refl, λ t j. grind (arith, contents-remove s k t j m, same t j)))
  ]
  step-Represents (get s k) m c same = (get-Represents s k m ∙ ap given (same s k), same)
  step-Represents (test s k) m c same =
      (ap tells (exists-schema_of s k m ∙ ap is_some (same s k)), same)

  run-Represents :
      (xs : List (Command V)) (m : Memory V) (c : Contents V)
      → Represents m c
      → all_performed xs m ≡ all_specified xs c
  run-Represents [] m c same = refl
  run-Represents (x ∷ xs) m c same =
      let (answer, same') = step-Represents x m c same in
      cc (answer, run-Represents xs (performed x m).1 (specified x c).1 same')

  -- To every sequence of writes, deletions, reads and tests for existence the store answers as the map from schema and key to records that it holds does, whatever it holds at first.
  pub store_refines :
      (xs : List (Command V)) (m : Memory V) → all_performed xs m ≡ all_specified xs (contents m)
  store_refines xs m = run-Represents xs m (contents m) (λ s k. refl)
