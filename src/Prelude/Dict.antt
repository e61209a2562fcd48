-- ===== src/Prelude/Dict.antt =====
-- Python's `dict`: an association list in insertion order. A write to a key that is there keeps
-- the key's place, and a removal drops the key.
use Prim.Native.Nat.{suc}
use mathlib.Core.Path.{◌≡◌, refl}
use mathlib.Core.Bool.{Bool, false, ◌||◌, ◌&&◌, not}
use mathlib.Core.List.{List, [], ◌∷◌}
use mathlib.Core.Option.{Option, none, some}
use native.Mathlib.Omega.{arith}
use package.event_pipeline.Prelude.Tests.{Comparable, ◌==◌, if◌then◌else◌, is_some}
use package.event_pipeline.Prelude.Lists.{length}

abbrev pub Dict {ℓ κ} : Type ℓ → Type κ → Type (ℓ ⊔ κ)
Dict K V = List (K × V)

module _ {ℓ κ} {K : Type ℓ} {V : Type κ} where
  abbrev pub keys : Dict K V → List K
  keys [] = []
  keys ((k, v) ∷ m) = k ∷ keys m

  abbrev pub values : Dict K V → List V
  values [] = []
  values ((k, v) ∷ m) = v ∷ values m

module _ {ℓ κ} {K : Type ℓ} {V : Type κ} ⦃e : Comparable K⦄ where
  -- d.get(k)
  unfoldable pub lookup : K → Dict K V → Option V
  lookup k [] = none
  lookup k ((j, v) ∷ rest) = if j == k then some v else lookup k rest

  -- d[k] = v
  unfoldable pub insert : K → V → Dict K V → Dict K V
  insert k v [] = (k, v) ∷ []
  insert k v ((j, w) ∷ rest) = if j == k then (j, v) ∷ rest else (j, w) ∷ insert k v rest

  -- d.pop(k, None)
  unfoldable pub remove : K → Dict K V → Dict K V
  remove k [] = []
  remove k ((j, w) ∷ rest) = if j == k then remove k rest else (j, w) ∷ remove k rest

  -- k in d
  unfoldable pub has : K → Dict K V → Bool
  has k [] = false
  has k ((j, w) ∷ rest) = j == k || has k rest

  -- d.update(other)
  unfoldable pub update : Dict K V → Dict K V → Dict K V
  unfolding insert
  update d [] = d
  update d ((k, v) ∷ rest) = update (insert k v d) rest

  -- No key twice.
  abbrev pub IsKeyed : Dict K V → Type 0
  IsKeyed [] = Unit
  IsKeyed ((k, v) ∷ rest) = (has k rest ≡ false) × IsKeyed rest

  pub lookup-insert :
      (k j : K) (v : V) (rest : Dict K V)
      → lookup j (insert k v rest) ≡ (if k == j then some v else lookup j rest)
  unfolding lookup insert
  lookup-insert k j v [] = refl
  lookup-insert k j v ((i, w) ∷ rest) =
      ground (arith, e.equals_iff i k, e.equals_iff i j, e.equals_iff k j, lookup-insert k j v rest)

  pub lookup-remove :
      (k j : K) (rest : Dict K V)
      → lookup j (remove k rest) ≡ (if k == j then none else lookup j rest)
  unfolding lookup remove
  lookup-remove k j [] = ground arith
  lookup-remove k j ((i, w) ∷ rest) =
      ground (arith, e.equals_iff i k, e.equals_iff i j, e.equals_iff k j, lookup-remove k j rest)

  pub has-lookup : (k : K) (rest : Dict K V) → has k rest ≡ is_some (lookup k rest)
  unfolding has lookup
  has-lookup k [] = refl
  has-lookup k ((j, w) ∷ rest) = ground (arith, has-lookup k rest)

  pub has-insert :
      (k j : K) (v : V) (rest : Dict K V) → has j (insert k v rest) ≡ (k == j || has j rest)
  has-insert k j v rest =
      ground (arith, has-lookup j (insert k v rest), has-lookup j rest, lookup-insert k j v rest)

  pub has-remove :
      (k j : K) (rest : Dict K V) → has j (remove k rest) ≡ (not (k == j) && has j rest)
  has-remove k j rest =
      ground (arith, has-lookup j (remove k rest), has-lookup j rest, lookup-remove k j rest)

  pub insert-IsKeyed : (k : K) (v : V) (rest : Dict K V) → IsKeyed rest → IsKeyed (insert k v rest)
  unfolding insert has
  insert-IsKeyed k v [] h = (refl, tt)
  insert-IsKeyed k v ((j, w) ∷ rest) h = ground (
    arith,
    insert-IsKeyed k v rest h.1,
    has-insert k j v rest,
    e.equals_iff k j,
    e.equals_iff j k,
  )

  pub remove-IsKeyed : (k : K) (rest : Dict K V) → IsKeyed rest → IsKeyed (remove k rest)
  unfolding remove
  remove-IsKeyed k [] h = tt
  remove-IsKeyed k ((j, w) ∷ rest) h =
      ground (arith, remove-IsKeyed k rest h.1, has-remove k j rest)

  pub length-insert :
      (k : K) (v : V) (rest : Dict K V)
      → length (insert k v rest) ≡ (if has k rest then length rest else suc (length rest))
  unfolding insert has
  length-insert k v [] = refl
  length-insert k v ((j, w) ∷ rest) = ground (arith, length-insert k v rest)

  pub remove-absent : (k : K) (rest : Dict K V) → has k rest ≡ false → remove k rest ≡ rest
  unfolding remove has
  remove-absent k [] h = refl
  remove-absent k ((j, w) ∷ rest) h = ground (arith, remove-absent k rest)

  pub length-remove :
      (k : K) (rest : Dict K V)
      → IsKeyed rest
      → (if has k rest then suc (length (remove k rest)) else length (remove k rest)) ≡ length rest
  unfolding remove has
  length-remove k [] h = refl
  length-remove k ((j, w) ∷ rest) h =
      ground (arith, length-remove k rest h.1, e.equals_iff j k, remove-absent k rest)

pub ruleset dict_laws = (lookup-insert, lookup-remove, has-insert, has-remove)
