-- ===== src/ResultSet/Operators.antt =====
-- What the filters of a ResultSet (nexus/result.py) look at, and what they find.
use event_pipeline.Prelude.{
  ◌≡◌, refl, ap, String, true, false, none, some, List, [], ◌∷◌, ◌++◌, if◌then◌else◌, inl, inr,
  Option-cases, arith, some_inj,
}
use event_pipeline.ResultSet.Keys.{split, has_separator, all_but_last, last, split_path}
use event_pipeline.ResultSet.Lookups.{
  Python, Operator, operator_of, is_isnull, get_field_value, check_nested_field, apply_operator,
  is_text, check_value, check_operator, matches_filter, matches_filters, filter_by, isnull,
}

module _ {V : Type 0} (py : Python V) where
  -- A filter whose key has a separator looks at one field of the result, by the names that the
  -- separators divide: with an operator as the last name, the operator is applied to the field that the
  -- other names lead to, and otherwise the field that all names lead to is compared with the value.
  pub matches_filter_field :
      (result : V) (key : String) (value : V)
      → has_separator key ≡ true
      → matches_filter py result key value ≡ elim (operator_of (last (split key))) [
        | some op ↦ check_value py op (get_field_value py result (all_but_last (split key))) value
        | none ↦ check_nested_field py result (split key) value
      ]
  unfolding matches_filter check_operator
  matches_filter_field result key value h = elim (Option-cases (operator_of (last (split key)))) [
    | inl nested ↦ rw (h, matches_filter) (rw (nested, matches_filter) refl)
    | inr (op, found) ↦
        rw (h, matches_filter)
          (rw (found, matches_filter)
            (ap (λ path. check_value py op (get_field_value py result path) value)
              (split_path key h)))
  ]

  -- A field that is None or not there matches no operator but isnull, also not `exact` with None,
  -- whatever the value is; isnull holds for it exactly if the value equals True.
  pub check_value_none :
      (op : Operator) (actual value : V)
      → py.is_none actual ≡ true
      → is_text py actual ≡ false
      → check_value py op actual value
        ≡ (if is_isnull op then some (py.same (py.of_bool true) value) else some false)
  unfolding check_value apply_operator
  check_value_none isnull actual value h t = rw h refl
  check_value_none op actual value h t = ground arith

  matches_filters-append :
      (result : V) (fs gs : List (String × V))
      → matches_filters py result (fs ++ gs) ≡ elim (matches_filters py result fs) [
        | none ↦ none
        | some holds ↦ elim holds [ true ↦ matches_filters py result gs | false ↦ some false ]
      ]
  unfolding matches_filters
  matches_filters-append result [] gs = refl
  matches_filters-append result ((key, value) ∷ fs) gs =
      elim (Option-cases (matches_filter py result key value)) [
        | inl raised ↦ rw (raised, matches_filters) refl
        | inr (true, holds) ↦ rw (holds, matches_filters) (matches_filters-append result fs gs)
        | inr (false, fails) ↦ rw (fails, matches_filters) refl
      ]

  -- Filters that are given together find what the second ones find among what the first ones found, if
  -- no test of the first ones or of both raises.
  pub filter_by-append :
      (fs gs : List (String × V)) (rs found both : List V)
      → filter_by py fs rs ≡ some found
      → filter_by py (fs ++ gs) rs ≡ some both
      → filter_by py gs found ≡ some both
  unfolding filter_by
  filter_by-append fs gs [] found both e e' = rw (← some_inj e) e'
  filter_by-append fs gs (r ∷ rs) found both e e' = elim (Option-cases (filter_by py fs rs)) [
    | inl raised ↦ ground arith
    | inr (found', done) ↦ elim (Option-cases (filter_by py (fs ++ gs) rs)) [
      | inl raised ↦ ground arith
      | inr (both', done') ↦
          ground (
            arith,
            matches_filters-append r fs gs,
            filter_by-append fs gs rs found' both' done done',
          )
    ]
  ]
