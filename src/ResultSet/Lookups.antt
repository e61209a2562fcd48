-- ===== src/ResultSet/Lookups.antt =====
-- The filters of a ResultSet (nexus/result.py): nested lookups and operators. Python's values are of
-- a type V; what the language does with them, and which of it raises a TypeError, is an argument.
use event_pipeline.Prelude.{
  String, Bool, true, false, not, Option, none, some, List, [], ◌∷◌, if◌then◌else◌, ◌==◌,
  comparable_string,
}
use event_pipeline.ResultSet.Keys.{split, join, has_separator, all_but_last, last}

-- A test that raises gives `none`.
pub record Python (V : Type 0) : Type 0 where
  -- current[field] of a dict, where neither a KeyError nor a TypeError is raised
  pub item : V → String → Option V
  -- getattr(current, field), where hasattr holds
  pub attribute : V → String → Option V
  pub none_value : V
  pub is_none : V → Bool
  pub of_bool : Bool → V
  pub same : V → V → Bool
  -- the text of a str
  pub text : V → Option String
  pub lower : String → String
  pub is_inside : (part whole : String) → Bool
  -- `x in y`, and whether y has a __contains__
  pub is_in : V → V → Option Bool
  pub has_contains : V → Bool
  pub starts_with : String → V → Option Bool
  pub ends_with : String → V → Option Bool
  -- `>`, `>=`, `<` and `<=`
  pub gt : V → V → Option Bool
  pub gte : V → V → Option Bool
  pub lt : V → V → Option Bool
  pub lte : V → V → Option Bool

-- _FILTER_OPERATORS
pub data Operator : Type 0 where
  contains startswith endswith icontains gt gte lt lte member exact isnull : Operator

unfoldable pub operator_of : String → Option Operator
operator_of s =
    if s == "contains"
    then some contains
    else if s == "startswith"
    then some startswith
    else if s == "endswith"
    then some endswith
    else if s == "icontains"
    then some icontains
    else if s == "gt"
    then some gt
    else if s == "gte"
    then some gte
    else if s == "lt"
    then some lt
    else if s == "lte"
    then some lte
    else if s == "in"
    then some member
    else if s == "exact"
    then some exact
    else if s == "isnull"
    then some isnull
    else none

-- The operators that want a str as the field's value.
abbrev pub wants_text : Operator → Bool
wants_text startswith = true
wants_text endswith = true
wants_text icontains = true
wants_text op = false

abbrev pub is_isnull : Operator → Bool
is_isnull isnull = true
is_isnull op = false

module _ {V : Type 0} (py : Python V) where
  -- _get_field_value: a key of a dict first, an attribute otherwise
  unfoldable pub get_field_value : V → List String → V
  get_field_value current [] = current
  get_field_value current (field ∷ path) = elim (py.item current field) [
    | some v ↦ get_field_value v path
    | none ↦ elim (py.attribute current field) [
      | some v ↦ get_field_value v path
      | none ↦ py.none_value
    ]
  ]

  -- _check_nested_field
  abbrev pub check_nested_field : V → List String → V → Option Bool
  check_nested_field obj path expected = some (py.same (get_field_value obj path) expected)

  abbrev pub on_text : Option String → (String → Option Bool) → Option Bool
  on_text none test = some false
  on_text (some s) test = test s

  -- The branches of _check_operator, on the value of the field.
  unfoldable pub apply_operator : Operator → V → V → Option Bool
  apply_operator contains actual value =
      if py.has_contains actual then py.is_in value actual else some false
  apply_operator startswith actual value = on_text (py.text actual) (λ s. py.starts_with s value)
  apply_operator endswith actual value = on_text (py.text actual) (λ s. py.ends_with s value)
  apply_operator icontains actual value =
      on_text (py.text actual)
        (λ s. on_text (py.text value) (λ t. some (py.is_inside (py.lower t) (py.lower s))))
  apply_operator gt actual value = py.gt actual value
  apply_operator gte actual value = py.gte actual value
  apply_operator lt actual value = py.lt actual value
  apply_operator lte actual value = py.lte actual value
  apply_operator member actual value = py.is_in actual value
  apply_operator exact actual value = some (py.same actual value)
  apply_operator isnull actual value = some (py.same (py.of_bool (py.is_none actual)) value)

  abbrev pub is_text : V → Bool
  is_text v = elim (py.text v) [ none ↦ false | some s ↦ true ]

  unfoldable pub check_value : Operator → V → V → Option Bool
  unfolding apply_operator
  check_value op actual value =
      if (if wants_text op then not (is_text actual) else false)
      then some false
      else if (if py.is_none actual then not (is_isnull op) else false)
      then some false
      else apply_operator op actual value

  -- _check_operator, on the path as a text
  unfoldable pub check_operator : V → String → Operator → V → Option Bool
  unfolding check_value get_field_value
  check_operator obj field_path op value =
      check_value op (get_field_value obj (split field_path)) value

  -- getattr(result, key, None) == value; a TypeError or ValueError of the comparison counts as unequal.
  abbrev pub check_simple : V → String → V → Option Bool
  check_simple result key value = elim (py.attribute result key) [
    | none ↦ some (py.same py.none_value value)
    | some v ↦ some (py.same v value)
  ]

  -- One round of the loop of _matches_filters.
  unfoldable pub matches_filter : V → String → V → Option Bool
  unfolding check_operator operator_of
  matches_filter result key value =
      if has_separator key
      then (elim (operator_of (last (split key))) [
        | some op ↦ check_operator result (join (all_but_last (split key))) op value
        | none ↦ check_nested_field result (split key) value
      ])
      else check_simple result key value

  -- _matches_filters
  unfoldable pub matches_filters : V → List (String × V) → Option Bool
  unfolding matches_filter
  matches_filters result [] = some true
  matches_filters result ((key, value) ∷ filters) = elim (matches_filter result key value) [
    | none ↦ none
    | some holds ↦ elim holds [ true ↦ matches_filters result filters | false ↦ some false ]
  ]

  -- The results that match all filters, if no test raises.
  unfoldable pub filter_by : List (String × V) → List V → Option (List V)
  unfolding matches_filters
  filter_by filters [] = some []
  filter_by filters (r ∷ rs) = elim (matches_filters r filters) [
    | none ↦ none
    | some holds ↦ elim (filter_by filters rs) [
      | none ↦ none
      | some found ↦ some (if holds then r ∷ found else found)
    ]
  ]
