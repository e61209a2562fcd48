-- ===== src/Task/Descriptors.antt =====
-- The descriptors that tasks get while they are built (nexus/task.py, _parse_ast).
use event_pipeline.Prelude.{
  ℕ, zero, suc, ◌≤◌, ◌≡◌, refl, subst, inl, inr, String, Option, none, some, [], ◌∷◌, ◌++◌,
  get_elem?, set, ◌==◌, comparable_string, comparable_nat, arith, Bool-cases, Option-cases, All,
  All-get_elem?,
}
use event_pipeline.Prelude.Dict.{lookup, lookup-insert}
use event_pipeline.Ast.{
  Ast, Branches, bin_op, descriptor, number, task_name, conditional, group, end, branch,
}
use event_pipeline.Pipe.{PipeType, get_pipe_type_enum, token, retry}
use event_pipeline.Task.{Task, Heap, new_task, add_descriptor, get_root, is_conditional}
use event_pipeline.Task.Build.{
  Result, ok, err, Build, ◌>>=◌, alloc, read, modify, root, Parsed, node, int, nothing, join,
  attach, combine, head_of, attach_branch, branch_to, custom_key, link_custom, attach_custom,
  parent_name, alloc_parent, is_custom, make_parent, custom_branch, finish, parse_ast, parse_key,
  parse_customs, build_pipeline, link_child, pipe_of, is_failure,
}

-- No descriptor 0 or 1, which stand for the branches.
abbrev pub IsSpared : Task → Type 0
IsSpared t = (k : ℕ) → k ≤ 1 → lookup k t.descriptors ≡ none

abbrev Kept : {A : Type 0} → Result (A × Heap) → Type 0
Kept (ok (a, h)) = All IsSpared h
Kept (err e) = Unit

-- A part of the code that leaves the tasks without such a descriptor.
abbrev Keeps : {A : Type 0} → Build A → Type 0
Keeps m = (h : Heap) → All IsSpared h → Kept (m h)

bind-Kept :
    {A B : Type 0} (r : Result (A × Heap)) (f : A → Build B)
    → Kept r
    → ((a : A) → Keeps (f a))
    → Kept (elim r [ err e ↦ err e | ok (a, h') ↦ f a h' ])
bind-Kept (ok (a, h)) f kept next = next a h kept
bind-Kept (err e) f kept next = tt

bind-Keeps :
    {A B : Type 0} (m : Build A) (f : A → Build B)
    → Keeps m
    → ((a : A) → Keeps (f a))
    → Keeps (m >>= f)
bind-Keeps m f first next h spared = bind-Kept (m h) f (first h spared) next

new-IsSpared : (s : String) → IsSpared (new_task s)
unfolding lookup
new-IsSpared s k low = refl

append-IsSpared : (h : Heap) (t : Task) → All IsSpared h → IsSpared t → All IsSpared (h ++ t ∷ [])
append-IsSpared [] t all one = (one, tt)
append-IsSpared (x ∷ h) t all one = (all.0, append-IsSpared h t all.1 one)

set-IsSpared :
    (h : Heap) (i : ℕ) (t : Task) → All IsSpared h → IsSpared t → All IsSpared (set h i t)
set-IsSpared [] i t all one = tt
set-IsSpared (x ∷ h) zero t all one = (one, all.1)
set-IsSpared (x ∷ h) (suc i) t all one = (all.0, set-IsSpared h i t all.1 one)

alloc-Keeps : (s : String) → Keeps (alloc (new_task s))
unfolding alloc
alloc-Keeps s h spared = append-IsSpared h (new_task s) spared (new-IsSpared s)

modify-Keeps :
    (i : ℕ) (f : Task → Task) → ((t : Task) → IsSpared t → IsSpared (f t)) → Keeps (modify i f)
unfolding modify
modify-Keeps i f keep h spared = elim (Option-cases (get_elem? h i)) [
  | inl lost ↦ rw (lost, modify) tt
  | inr (t, found) ↦
      rw (found, modify)
        (set-IsSpared h i (f t) spared (keep t (All-get_elem? IsSpared h i t spared found)))
]

read-Keeps : (i : ℕ) → Keeps (read i)
unfolding read
read-Keeps i h spared = elim (Option-cases (get_elem? h i)) [
  | inl lost ↦ rw (lost, read) tt
  | inr (t, found) ↦ rw (found, read) spared
]

root-Keeps : (i : ℕ) → Keeps (root i)
unfolding root
root-Keeps i h spared = elim (Option-cases (get_root h i)) [
  | inl lost ↦ rw (lost, root) tt
  | inr (r, found) ↦ rw (found, root) spared
]

add_descriptor-IsSpared :
    (t : Task) (d : ℕ) (p : Option PipeType) (i : ℕ)
    → IsSpared t
    → IsSpared (add_descriptor t d p i).0
unfolding add_descriptor
add_descriptor-IsSpared t d p i spared k low = grind (
  arith,
  spared k low,
  lookup-insert d k (record { descriptor = d; pipe = p; task = i }) t.descriptors,
)

join-Keeps : (op : String) (l r : ℕ) → Keeps (join op l r)
unfolding join
join-Keeps op l r =
    bind-Keeps _ _ (modify-Keeps l (link_child (pipe_of op) r) (λ t spared. linked t spared)) (λ _.
      bind-Keeps _ _ (modify-Keeps r (λ t. record t { parent_node = some l }) (λ t spared. spared))
        (λ _ h spared. spared))
  where
    linked : (t : Task) → IsSpared t → IsSpared (link_child (pipe_of op) r t)
    linked t spared = elim (Bool-cases (is_conditional t)) [
      | inl two ↦ rw two spared
      | inr one ↦ rw one spared
    ]

attach-Keeps : (op : String) (n i : ℕ) → Keeps (attach op n i)
unfolding attach
attach-Keeps op n i = elim (Bool-cases (op == token retry)) [
  | inl again ↦ rw again (
      bind-Keeps _ _
        (modify-Keeps i (λ t. record t { number_of_retries = some n }) (λ t spared. spared))
        (λ _ h spared. spared))
  | inr other ↦ rw other (
      bind-Keeps _ _ (root-Keeps i) (λ r.
        bind-Keeps _ _
          (modify-Keeps r (λ t. record t { own_descriptor = some n; own_descriptor_pipe = some op })
            (λ t spared. spared))
          (λ _ h spared. spared)))
]

combine-Keeps : (op : String) (l r : Parsed) → Keeps (combine op l r)
unfolding combine
combine-Keeps op (node l) (node r) = join-Keeps op l r
combine-Keeps op (int n) (node r) = attach-Keeps op n r
combine-Keeps op (node l) (int n) = attach-Keeps op n l
combine-Keeps op (node l) nothing = λ h spared. spared
combine-Keeps op nothing (node r) = λ h spared. spared
combine-Keeps op nothing nothing = λ h spared. spared
combine-Keeps op (int n) (int m) = λ h spared. tt
combine-Keeps op (int n) nothing = λ h spared. tt
combine-Keeps op nothing (int n) = λ h spared. tt

head_of-Keeps : (v : Parsed) → Keeps (head_of v)
unfolding head_of
head_of-Keeps (node i) = bind-Keeps _ _ (root-Keeps i) (λ r h spared. spared)
head_of-Keeps (int zero) = λ h spared. spared
head_of-Keeps (int (suc n)) = λ h spared. tt
head_of-Keeps nothing = λ h spared. spared

branch_to-IsSpared : (child : Task) (i : ℕ) (t : Task) → IsSpared t → IsSpared (branch_to child i t)
branch_to-IsSpared child i t spared = elim (Bool-cases (is_failure child)) [
  | inl fails ↦ rw fails spared
  | inr succeeds ↦ rw succeeds spared
]

adopt-Keeps : (i p : ℕ) → Keeps (modify i (λ t. record t { parent_node = some p }))
adopt-Keeps i p = modify-Keeps i (λ t. record t { parent_node = some p }) (λ t spared. spared)

attach_branch-Keeps : (p : ℕ) (o : Option ℕ) → Keeps (attach_branch p o)
unfolding attach_branch
attach_branch-Keeps p none = λ h spared. spared
attach_branch-Keeps p (some i) = bind-Keeps _ _ (adopt-Keeps i p) (λ _.
    bind-Keeps _ _ (read-Keeps i)
      (λ child. modify-Keeps p (branch_to child i) (branch_to-IsSpared child i)))

link_custom-Keeps : (p i : ℕ) (k : Option (ℕ × String)) → Keeps (link_custom p i k)
unfolding link_custom
link_custom-Keeps p i none = λ h spared. tt
link_custom-Keeps p i (some (d, op)) =
    modify-Keeps p (λ t. (add_descriptor t d (get_pipe_type_enum op) i).0)
      (λ t spared. add_descriptor-IsSpared t d (get_pipe_type_enum op) i spared)

attach_custom-Keeps : (p : ℕ) (a : Ast) (o : Option ℕ) → Keeps (attach_custom p a o)
unfolding attach_custom
attach_custom-Keeps p a none = λ h spared. spared
attach_custom-Keeps p a (some i) =
    bind-Keeps _ _ (adopt-Keeps i p) (λ _. link_custom-Keeps p i (custom_key a))

alloc_parent-Keeps : (o : Option String) → Keeps (alloc_parent o)
unfolding alloc_parent
alloc_parent-Keeps none = λ h spared. tt
alloc_parent-Keeps (some s) = alloc-Keeps s

make_parent-Keeps : (a : Ast) (l r : Parsed) → Keeps (make_parent a l r)
unfolding make_parent
make_parent-Keeps a l r = bind-Keeps _ _ (head_of-Keeps l) (λ i.
    bind-Keeps _ _ (head_of-Keeps r) (λ j. bind-Keeps _ _ (alloc_parent-Keeps (parent_name a)) (λ p.
      bind-Keeps _ _ (attach_branch-Keeps p j)
        (λ _. bind-Keeps _ _ (attach_branch-Keeps p i) (λ _ h spared. spared)))))

custom_branch-Keeps :
    (p j : ℕ) (a : Ast) (m : Build Parsed) → Keeps m → Keeps (custom_branch p j a m)
custom_branch-Keeps p j a m parsed = elim (Bool-cases (is_custom j)) [
  | inl custom ↦ rw custom (
      bind-Keeps _ _ parsed
        (λ v. bind-Keeps _ _ (head_of-Keeps v) (λ i. attach_custom-Keeps p a i)))
  | inr other ↦ rw other (λ h spared. spared)
]

mutual
  unfolding parse_ast parse_key parse_customs

  parse_ast-Keeps : (a : Ast) → Keeps (parse_ast a)
  parse_ast-Keeps (bin_op op l r) =
      bind-Keeps _ _ (parse_ast-Keeps l)
        (λ x. bind-Keeps _ _ (parse_ast-Keeps r) (λ y. combine-Keeps op x y))
  parse_ast-Keeps (task_name s) = bind-Keeps _ _ (alloc-Keeps s) (λ i h spared. spared)
  parse_ast-Keeps (conditional a (group bs)) = bind-Keeps _ _ (parse_key-Keeps 0 bs) (λ l.
      bind-Keeps _ _ (parse_key-Keeps 1 bs) (λ r.
        bind-Keeps _ _ (make_parent-Keeps a l r)
          (λ p. bind-Keeps _ _ (parse_customs-Keeps p bs) (λ _ h spared. spared))))
  parse_ast-Keeps (conditional a g) = λ h spared. tt
  parse_ast-Keeps (descriptor n) = λ h spared. spared
  parse_ast-Keeps (number n) = λ h spared. spared
  parse_ast-Keeps (group bs) = λ h spared. spared

  parse_key-Keeps : (k : ℕ) (bs : Branches) → Keeps (parse_key k bs)
  parse_key-Keeps k end = λ h spared. spared
  parse_key-Keeps k (branch j a rest) = elim (Bool-cases (j == k)) [
    | inl here ↦ rw here (parse_ast-Keeps a)
    | inr there ↦ rw there (parse_key-Keeps k rest)
  ]

  parse_customs-Keeps : (p : ℕ) (bs : Branches) → Keeps (parse_customs p bs)
  parse_customs-Keeps p end = λ h spared. spared
  parse_customs-Keeps p (branch j a rest) =
      bind-Keeps _ _ (custom_branch-Keeps p j a (parse_ast a) (parse_ast-Keeps a))
        (λ _. parse_customs-Keeps p rest)

finish-Keeps : (v : Parsed) → Keeps (finish v)
finish-Keeps (node i) = root-Keeps i
finish-Keeps (int n) = λ h spared. tt
finish-Keeps nothing = λ h spared. tt

-- No task of a built pipeline has a custom descriptor 0 or 1.
pub build-IsSpared :
    (x : Ast) (r : ℕ) (h : Heap) (i : ℕ) (t : Task)
    → build_pipeline x ≡ ok (r, h)
    → get_elem? h i ≡ some t
    → IsSpared t
unfolding build_pipeline
build-IsSpared x r h i t built found =
    All-get_elem? IsSpared h i t
      (subst Kept built (bind-Keeps (parse_ast x) finish (parse_ast-Keeps x) finish-Keeps [] tt))
      found
