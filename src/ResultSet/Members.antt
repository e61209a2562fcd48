-- ===== src/ResultSet/Members.antt =====
-- The members of a ResultSet (nexus/result.py).
use event_pipeline.Prelude.{
  suc, String, ◌≡◌, not, ◌&&◌, ◌||◌, if◌then◌else◌, [], ◌∷◌, ◌==◌, Comparable, comparable_string,
  length, arith,
}
use event_pipeline.Prelude.Dict.{
  Dict, insert, has, IsKeyed, has-insert, has-remove, insert-IsKeyed, length-insert, update,
}
use event_pipeline.ResultSet.{ResultSet, add, add_set, contains, discard}

has-update :
    {R : Type 0} (d other : Dict String R) (k : String)
    → has k (update d other) ≡ (has k d || has k other)
unfolding update has
has-update d [] k = ground arith
has-update d ((j, v) ∷ m) k = ground (arith, has-update (insert j v d) m k, has-insert j k v d)

module _ {R C : Type 0} (id : R → String) (content_type : R → C) ⦃e : Comparable C⦄ where
  -- The members after one result was added are that result and the members before, after a set was added those of both, and after a result was discarded all but that one.
  pub contains_lem :
      (r x : R) (s other : ResultSet R C)
      → (contains id content_type x (add id content_type r s)
          ≡ (id r == id x || contains id content_type x s))
        × (contains id content_type x (add_set id content_type other s)
            ≡ (contains id content_type x s || contains id content_type x other))
        × (contains id content_type x (discard id content_type r s)
            ≡ (not (id r == id x) && contains id content_type x s))
  unfolding contains add add_set discard
  contains_lem r x s other = (
    has-insert (id r) (id x) r s.content,
    has-update s.content other.content (id x),
    has-remove (id r) (id x) s.content,
  )

  -- Adding a result makes a set without repeated ids larger by one if no result with its id is there, and keeps its size otherwise; no id is repeated afterwards.
  pub add-length :
      (r : R) (s : ResultSet R C)
      → IsKeyed s.content
      → (length (add id content_type r s).content
          ≡ (if contains id content_type r s then length s.content else suc (length s.content)))
        × IsKeyed (add id content_type r s).content
  unfolding contains add
  add-length r s keyed = (length-insert (id r) r s.content, insert-IsKeyed (id r) r s.content keyed)
