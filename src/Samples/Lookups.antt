-- ===== src/Samples/Lookups.antt =====
-- Tests of the filters of result sets.
use event_pipeline.Prelude.{
  String, ◌≡◌, refl, Bool, true, false, Option, none, some, [], ◌∷◌, comparable_string, ◌==◌,
  if◌then◌else◌,
}
use event_pipeline.ResultSet.Keys.{split, join, has_separator}
use event_pipeline.ResultSet.Lookups.{
  Python, operator_of, get_field_value, apply_operator, check_value, check_operator, matches_filter,
  matches_filters, filter_by, exact,
}
use event_pipeline.ResultSet.Operators.{matches_filter_field}

mutual
  data Value : Type 0 where
    nothing : Value
    text : String → Value
    flag : Bool → Value
    dict : Fields → Value
    object : Fields → Value

  data Fields : Type 0 where
    end : Fields
    field : String → Value → Fields → Fields

abbrev field_of : Fields → String → Option Value
field_of end name = none
field_of (field k v fs) name = if k == name then some v else field_of fs name

abbrev item : Value → String → Option Value
item (dict fs) name = field_of fs name
item v name = none

abbrev attribute : Value → String → Option Value
attribute (object fs) name = field_of fs name
attribute v name = none

abbrev same_flag : Bool → Bool → Bool
same_flag true b = b
same_flag false true = false
same_flag false false = true

abbrev same : Value → Value → Bool
same nothing nothing = true
same (text s) (text t) = s == t
same (flag a) (flag b) = same_flag a b
same v w = false

abbrev is_none : Value → Bool
is_none nothing = true
is_none v = false

abbrev text_of : Value → Option String
text_of (text s) = some s
text_of v = none

-- Only equality and the order of types matter here: every other test raises.
abbrev python : Python Value
python = record {
  item = item;
  attribute = attribute;
  none_value = nothing;
  is_none = is_none;
  of_bool = flag;
  same = same;
  text = text_of;
  lower = λ s. s;
  is_inside = λ s t. s == t;
  is_in = λ v w. none;
  has_contains = λ v. false;
  starts_with = λ s v. none;
  ends_with = λ s v. none;
  gt = λ v w. none;
  gte = λ v w. none;
  lt = λ v w. none;
  lte = λ v w. none;
}

abbrev alice : Value
alice = object (field "user" (dict (field "name" (text "Alice") end)) (field "error" nothing end))

abbrev bob : Value
bob = object (field "user" (dict (field "name" (text "Bob") end)) (field "error" nothing end))

found_by_name :
    filter_by python (("user__name__exact", text "Alice") ∷ []) (alice ∷ bob ∷ [])
    ≡ some (alice ∷ [])
unfolding filter_by matches_filters matches_filter check_operator check_value apply_operator
    get_field_value operator_of has_separator split join
found_by_name = refl

-- `error=None` finds what `error__exact=None` does not.
none_is_not_exactly_none : filter_by python (("error__exact", nothing) ∷ []) (alice ∷ []) ≡ some []
unfolding filter_by matches_filters matches_filter check_operator check_value apply_operator
    get_field_value operator_of has_separator split join
none_is_not_exactly_none = refl

none_is_none : filter_by python (("error", nothing) ∷ []) (alice ∷ []) ≡ some (alice ∷ [])
unfolding filter_by matches_filters matches_filter has_separator
none_is_none = refl

matches_filter_field_example :
    matches_filter python alice "user__name__exact" (text "Alice")
    ≡ check_value python exact (get_field_value python alice ("user" ∷ "name" ∷ [])) (text "Alice")
unfolding has_separator split operator_of
matches_filter_field_example =
    matches_filter_field python alice "user__name__exact" (text "Alice") refl
