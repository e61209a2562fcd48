-- ===== src/ResultSet.antt =====
-- nexus/result.py: ResultSet, a set of results under their ids. The id of a result, its content type
-- and the test of a filter are arguments; Lookups has the tests that keys and values stand for.
pub mod Members
pub mod Filtered
pub mod Keys
pub mod Lookups
pub mod Operators
use event_pipeline.Prelude.{
  String, Bool, if◌then◌else◌, Option, none, some, List, [], ◌∷◌, ◌++◌, ◌==◌, Comparable,
  comparable_string, filterb, get_elem?, any,
}
use event_pipeline.Prelude.Dict.{Dict, lookup, insert, remove, has, values, update}

-- R is the type of the results, C that of their content types.
pub record ResultSet (R C : Type 0) : Type 0 where
  pub content : Dict String R
  pub context_types : List C

abbrev pub empty : {R C : Type 0} → ResultSet R C
empty = record { content = []; context_types = [] }

pub data GetError : Type 0 where
  key_error multi_value_error : GetError

pub data Got (R : Type 0) : Type 0 where
  got : R → Got R
  missed : GetError → Got R

module _ {R C : Type 0} (id : R → String) (content_type : R → C) ⦃e : Comparable C⦄ where
  abbrev pub track : C → List C → List C
  track c cs = if any (λ x. x == c) cs then cs else cs ++ c ∷ []

  -- _insert_entity, and add for one result
  unfoldable pub add : R → ResultSet R C → ResultSet R C
  add r s = record {
    content = insert (id r) r s.content;
    context_types = track (content_type r) s.context_types;
  }

  -- __init__
  unfoldable pub of_list : List R → ResultSet R C → ResultSet R C
  unfolding add
  of_list [] s = s
  of_list (r ∷ rs) s = of_list rs (add r s)

  abbrev track_all : List C → List C → List C
  track_all [] cs = cs
  track_all (c ∷ more) cs = track_all more (track c cs)

  -- add for another set
  unfoldable pub add_set : ResultSet R C → ResultSet R C → ResultSet R C
  add_set other s = record {
    content = update s.content other.content;
    context_types = track_all other.context_types s.context_types;
  }

  -- __contains__
  unfoldable pub contains : R → ResultSet R C → Bool
  contains r s = has (id r) s.content

  -- The content types stay.
  unfoldable pub discard : R → ResultSet R C → ResultSet R C
  discard r s = record s { content = remove (id r) s.content }

  unfoldable pub discard_set : List R → ResultSet R C → ResultSet R C
  unfolding discard
  discard_set [] s = s
  discard_set (r ∷ rs) s = discard_set rs (discard r s)

  unfoldable pub clear : ResultSet R C → ResultSet R C
  clear s = empty

  -- filter, by the id
  unfoldable pub filter_by_id : String → ResultSet R C → ResultSet R C
  unfolding of_list
  filter_by_id pk s = elim (lookup pk s.content) [ none ↦ empty | some r ↦ of_list (r ∷ []) empty ]

  -- filter, by anything else
  unfoldable pub filter : (R → Bool) → ResultSet R C → ResultSet R C
  unfolding of_list
  filter matches s = of_list (filterb matches (values s.content)) empty

  abbrev pub only : List R → Got R
  only [] = missed key_error
  only (r ∷ []) = got r
  only (r ∷ t ∷ rs) = missed multi_value_error

  -- get
  unfoldable pub get : (R → Bool) → ResultSet R C → Got R
  unfolding filter
  get matches s = only (values (filter matches s).content)

  -- first
  unfoldable pub first : ResultSet R C → Option R
  first s = get_elem? (values s.content) 0
