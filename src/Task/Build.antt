-- ===== src/Task/Build.antt =====
-- nexus/task.py, PipelineTask._parse_ast: from a syntax tree to tasks on the heap.
use event_pipeline.Prelude.{
  ℕ, zero, suc, String, Bool, true, false, Option, none, some, [], ◌∷◌, ◌++◌, get_elem?, set,
  length, if◌then◌else◌, ◌==◌, comparable_nat, comparable_string,
}
use event_pipeline.Pipe.{
  PipeType, pointer, pipe_pointer, parallelism, retry, token, get_pipe_type_enum,
}
use event_pipeline.Ast.{
  Ast, Branches, bin_op, descriptor, number, task_name, conditional, group, end, branch,
}
use event_pipeline.Task.{Task, Heap, new_task, is_conditional, add_descriptor, get_root}

-- The exceptions that leave `_parse_ast`. `endless_climb` is the RecursionError of a climb to the root
-- that goes on for ever; the limit of the interpreter on the depth of calls, which a long enough
-- script exceeds, is left out.
pub data BuildError : Type 0 where
  syntax_error attribute_error index_error endless_climb : BuildError

pub data Result (A : Type 0) : Type 0 where
  ok : A → Result A
  err : BuildError → Result A

abbrev pub Build : Type 0 → Type 0
Build A = Heap → Result (A × Heap)

infixl 5 ◌>>=◌ ◌>>◌
abbrev pub ◌>>=◌ : {A B : Type 0} → Build A → (A → Build B) → Build B
◌>>=◌ m f h = elim (m h) [ err e ↦ err e | ok (a, h') ↦ f a h' ]

abbrev pub ◌>>◌ : {B : Type 0} → Build (Unit {0}) → Build B → Build B
m >> k = m >>= λ _. k

abbrev pub pure : {A : Type 0} → A → Build A
pure a h = ok (a, h)

abbrev pub fail : {A : Type 0} → BuildError → Build A
fail e h = err e

-- A new object, and its reference.
unfoldable pub alloc : Task → Build ℕ
alloc t h = ok (length h, h ++ t ∷ [])

-- Reading a reference; one off the heap does not occur.
unfoldable pub read : ℕ → Build Task
read i h = elim (get_elem? h i) [ none ↦ err attribute_error | some t ↦ ok (t, h) ]

-- Assignments to the fields of an object.
unfoldable pub modify : ℕ → (Task → Task) → Build (Unit {0})
modify i f h = elim (get_elem? h i) [ none ↦ err attribute_error | some t ↦ ok (tt, set h i (f t)) ]

unfoldable pub root : ℕ → Build ℕ
root i h = elim (get_root h i) [ none ↦ err endless_climb | some r ↦ ok (r, h) ]

-- What `_parse_ast` returns: a task, an int, or None.
pub data Parsed : Type 0 where
  node : ℕ → Parsed
  int : ℕ → Parsed
  nothing : Parsed

unfoldable pub pipe_of : String → PipeType
unfolding token
pipe_of op =
    if op == token pipe_pointer
    then pipe_pointer
    else if op == token pointer
    then pointer
    else parallelism

abbrev pub link_child : PipeType → ℕ → Task → Task
link_child pipe child t =
    if is_conditional t
    then record t { sink_node = some child; sink_pipe = some pipe }
    else record t { on_success_event = some child; on_success_pipe = some pipe }

-- Both sides are tasks.
unfoldable pub join : String → ℕ → ℕ → Build Parsed
join op left right = do
  modify left (link_child (pipe_of op) right)
  modify right (λ t. record t { parent_node = some left })
  pure (node right)

-- One side is an int and the other a task.
unfoldable pub attach : String → ℕ → ℕ → Build Parsed
attach op n i =
    if op == token retry
    then (do modify i (λ t. record t { number_of_retries = some n }); pure (node i))
    else do
      r ← root i
      modify r (λ t. record t { own_descriptor = some n; own_descriptor_pipe = some op })
      pure (node r)

unfoldable pub combine : String → Parsed → Parsed → Build Parsed
combine op (node l) (node r) = join op l r
combine op (int n) (node r) = attach op n r
combine op (node l) (int n) = attach op n l
combine op (node l) nothing = pure (node l)
combine op nothing (node r) = pure (node r)
combine op nothing nothing = pure nothing
combine op _ _ = fail syntax_error

-- `if node: node = node.get_root()`; an int other than 0 has no `get_root`.
unfoldable pub head_of : Parsed → Build (Option ℕ)
head_of (node i) = do r ← root i; pure (some r)
head_of (int zero) = pure none
head_of (int (suc n)) = fail attribute_error
head_of nothing = pure none

abbrev pub is_failure : Task → Bool
is_failure t = elim t.own_descriptor [ none ↦ false | some d ↦ d == 0 ]

abbrev pub pipe_of_token : Option String → Option PipeType
pipe_of_token none = none
pipe_of_token (some s) = get_pipe_type_enum s

abbrev pub branch_to : Task → ℕ → Task → Task
branch_to child i parent =
    if is_failure child
    then record parent {
      on_failure_event = some i;
      on_failure_pipe = pipe_of_token child.own_descriptor_pipe;
    }
    else record parent {
      on_success_event = some i;
      on_success_pipe = pipe_of_token child.own_descriptor_pipe;
    }

-- One round of the loop over the two branches.
unfoldable pub attach_branch : ℕ → Option ℕ → Build (Unit {0})
attach_branch parent none = pure tt
attach_branch parent (some i) = do
  modify i (λ t. record t { parent_node = some parent })
  child ← read i
  modify parent (branch_to child i)

-- `custom_node.left.value` and `custom_node.op`; `none` is an AttributeError.
abbrev pub custom_key : Ast → Option (ℕ × String)
custom_key (bin_op op (descriptor d) r) = some (d, op)
custom_key a = none

unfoldable pub link_custom : ℕ → ℕ → Option (ℕ × String) → Build (Unit {0})
link_custom parent i none = fail attribute_error
link_custom parent i (some (d, op)) =
    modify parent (λ t. (add_descriptor t d (get_pipe_type_enum op) i).0)

-- The end of a round of the loop over `extra_descriptors`, after the branch was parsed.
unfoldable pub attach_custom : ℕ → Ast → Option ℕ → Build (Unit {0})
attach_custom parent custom none = pure tt
attach_custom parent custom (some i) = do
  modify i (λ t. record t { parent_node = some parent })
  link_custom parent i (custom_key custom)

-- `ast.parent.value`
abbrev pub parent_name : Ast → Option String
parent_name (task_name s) = some s
parent_name a = none

unfoldable pub alloc_parent : Option String → Build ℕ
alloc_parent none = fail attribute_error
alloc_parent (some s) = alloc (new_task s)

abbrev pub is_custom : ℕ → Bool
is_custom zero = false
is_custom (suc zero) = false
is_custom d = true

-- The heads of the two conditional branches are linked, right branch first.
unfoldable pub make_parent : Ast → Parsed → Parsed → Build ℕ
make_parent a left right = do
  l ← head_of left
  r ← head_of right
  p ← alloc_parent (parent_name a)
  attach_branch p r
  attach_branch p l
  pure p

-- A round of the loop over `extra_descriptors`, given the parse of the branch.
abbrev pub custom_branch : ℕ → ℕ → Ast → Build Parsed → Build (Unit {0})
custom_branch p j a parsed =
    if is_custom j then (do v ← parsed; i ← head_of v; attach_custom p a i) else pure tt

abbrev pub finish : Parsed → Build ℕ
finish (node i) = root i
finish v = fail attribute_error

-- A ConditionalGroup, an int or None is parsed to what stands there. `parse_key` parses the branch
-- of one key of a group, and `parse_customs` runs the loop over `extra_descriptors`.
unfoldable mutual
  pub parse_ast : Ast → Build Parsed
  parse_ast (bin_op op l r) = do left ← parse_ast l; right ← parse_ast r; combine op left right
  parse_ast (task_name s) = do i ← alloc (new_task s); pure (node i)
  parse_ast (conditional a (group bs)) = do
    left ← parse_key 0 bs
    right ← parse_key 1 bs
    p ← make_parent a left right
    parse_customs p bs
    pure (node p)
  parse_ast (conditional a g) = fail attribute_error
  parse_ast (descriptor n) = pure (int n)
  parse_ast (number n) = pure (int n)
  parse_ast (group bs) = pure nothing

  pub parse_key : ℕ → Branches → Build Parsed
  parse_key k end = pure nothing
  parse_key k (branch j a rest) = if j == k then parse_ast a else parse_key k rest

  pub parse_customs : ℕ → Branches → Build (Unit {0})
  parse_customs p end = pure tt
  parse_customs p (branch j a rest) = do custom_branch p j a (parse_ast a); parse_customs p rest

-- build_pipeline_from_execution_code, from the tree that the parser returns for code that is not
-- empty: the root of the pipeline, and the heap. A tree that is not one of tasks has no `get_root`.
unfoldable pub build_pipeline : Ast → Result (ℕ × Heap)
build_pipeline a = (do tail ← parse_ast a; finish tail) []
