-- ===== src/Ast.antt =====
-- nexus/parser/ast.py: the syntax trees that the pointy grammar builds. `number` is the bare int of
-- a retry factor, and `group` is a ConditionalGroup, by its dict of descriptors.
use event_pipeline.Prelude.{ℕ, String, Option, none, some, [], ◌∷◌}
use event_pipeline.Prelude.Dict.{Dict, insert}
use event_pipeline.Prelude.{comparable_nat}

mutual
  pub data Ast : Type 0 where
    bin_op : (op : String) (left right : Ast) → Ast
    descriptor : ℕ → Ast
    number : ℕ → Ast
    task_name : String → Ast
    conditional : (parent expr_group : Ast) → Ast
    group : Branches → Ast

  -- A dict from descriptors to trees, in insertion order.
  pub data Branches : Type 0 where
    end : Branches
    branch : (key : ℕ) (tree : Ast) (rest : Branches) → Branches

abbrev pub of_dict : Dict ℕ Ast → Branches
of_dict [] = end
of_dict ((k, a) ∷ m) = branch k a (of_dict m)

infixl 5 ◌>>=◌
abbrev ◌>>=◌ : {A B : Type 0} → Option A → (A → Option B) → Option B
none >>= f = none
some a >>= f = f a

-- ConditionalGroup.set_value, on the dict of the group that is built; `none` is an AttributeError.
-- `initial` is the value of the first call, and for the branches of a group it is the branch.
mutual
  set_value : Ast → Ast → Dict ℕ Ast → Option (Dict ℕ Ast)
  set_value (bin_op op l r) initial ds = set_value l initial ds
  set_value (descriptor n) initial ds = some (insert n initial ds)
  set_value (group bs) initial ds = set_branches bs ds
  set_value (number n) initial ds = some ds
  set_value (task_name s) initial ds = some ds
  set_value (conditional p g) initial ds = some ds

  set_branches : Branches → Dict ℕ Ast → Option (Dict ℕ Ast)
  set_branches end ds = some ds
  set_branches (branch k (bin_op op l r) rest) ds = elim (set_value l (bin_op op l r) ds) [
    | none ↦ none
    | some ds' ↦ set_branches rest ds'
  ]
  set_branches (branch k a rest) ds = none

-- ConditionalGroup(expr0, expr1)
unfoldable pub conditional_group : Ast → Ast → Option Ast
unfolding set_value set_branches insert
conditional_group e0 e1 = do
  ds0 ← set_value e0 e0 []
  ds1 ← set_value e1 e1 ds0
  some (group (of_dict ds1))
