-- ===== src/Task/Links.antt =====
-- Rules for the steps of nexus/task.py, _parse_ast, that link tasks.
use event_pipeline.Prelude.{
  true, arith, ltb, ◌&&◌, ℕ, zero, suc, ◌<◌, ◌≡◌, refl, ◌∙◌, String, inl, inr, Option, none, some,
  [], ◌∷◌, get_elem?-of_lt, length, All, Bool-cases, ◌==◌, comparable_nat, comparable_string,
}
use event_pipeline.Prelude.Dict.{Dict, values, insert, lookup, lookup-insert}
use event_pipeline.Ast.{Ast}
use event_pipeline.Pipe.{PipeType, token, retry, get_pipe_type_enum}
use event_pipeline.Task.{Task, Heap, DescriptorConfig, add_descriptor}
use event_pipeline.Task.Segments.{Below, Edges}
use event_pipeline.Task.Build.{
  Result, ok, err, read, modify, root, Parsed, node, int, nothing, pipe_of, link_child, join,
  attach, combine, head_of, branch_to, attach_branch, custom_key, link_custom, attach_custom,
  is_failure,
}
use event_pipeline.Task.Rules.{
  Ensures, Ensures-ok, bind_rule, Span, In, Inside, InOpt, Deeper, DeeperOpt, Out, Stays, root_rule,
  modify_rule, parent_keep, child_keep, label_keep, In-Stays,
}

module _ (a : ℕ) (h0 : Heap) (d : ℕ → ℕ) (h : Heap) (s : Span a h0 d h) where
  pub join_rule :
      (op : String) (l r : ℕ) → In a h l → In a h r → d l < d r → Ensures (Out a h0) (join op l r h)
  unfolding join
  join_rule op l r il ir deeper =
      bind_rule (modify l (link_child (pipe_of op) r)) _ (λ _ h'. Stays a h0 d h h') (Out a h0) h
        (modify_rule a h0 d h s l (link_child (pipe_of op) r) il
          (child_keep a h0 d h s l r (pipe_of op) ir deeper))
        λ _ h1 (s1, e1).
          bind_rule (modify r (λ t. record t { parent_node = some l })) _
            (λ _ h'. Stays a h0 d h1 h') (Out a h0) h1
            (modify_rule a h0 d h1 s1 r (λ t. record t { parent_node = some l })
              (In-Stays a h h1 r ir e1)
              (parent_keep a h0 d h1 s1 r l (In-Stays a h h1 l il e1) deeper))
            λ _ h2 (s2, e2). (d, s2, In-Stays a h1 h2 r (In-Stays a h h1 r ir e1) e2)

  pub attach_rule : (op : String) (n i : ℕ) → In a h i → Ensures (Out a h0) (attach op n i h)
  unfolding attach
  attach_rule op n i inside = elim (Bool-cases (op == token retry)) [
    | inl again ↦ rw again (
        bind_rule (modify i (λ t. record t { number_of_retries = some n })) _
          (λ _ h'. Stays a h0 d h h') (Out a h0) h
          (modify_rule a h0 d h s i (λ t. record t { number_of_retries = some n }) inside
            (λ t e. label_keep a h0 d h s i t.own_descriptor t.own_descriptor_pipe (some n) t e))
          (λ _ h1 (s1, e1). (d, s1, In-Stays a h h1 i inside e1)))
    | inr other ↦ rw other (
        bind_rule (root i) _ (λ r h'. Stays a h0 d h h' × In a h' r) (Out a h0) h
          (root_rule a h0 d h s i inside)
          (λ r h1 ((s1, e1), at).
            bind_rule
              (modify r (λ t. record t { own_descriptor = some n; own_descriptor_pipe = some op }))
              _ (λ _ h'. Stays a h0 d h1 h') (Out a h0) h1
              (modify_rule a h0 d h1 s1 r
                (λ t. record t { own_descriptor = some n; own_descriptor_pipe = some op }) at
                (λ t e. label_keep a h0 d h1 s1 r (some n) (some op) t.number_of_retries t e))
              (λ _ h2 (s2, e2). (d, s2, In-Stays a h1 h2 r at e2))))
  ]

  pub combine_rule :
      (op : String) (l r : Parsed)
      → Inside a h l
      → Inside a h r
      → Deeper d l r
      → Ensures (Out a h0) (combine op l r h)
  unfolding combine
  combine_rule op (node l) (node r) il ir deeper = join_rule op l r il ir deeper
  combine_rule op (int n) (node r) il ir deeper = attach_rule op n r ir
  combine_rule op (node l) (int n) il ir deeper = attach_rule op n l il
  combine_rule op (node l) nothing il ir deeper = (d, s, il)
  combine_rule op nothing (node r) il ir deeper = (d, s, ir)
  combine_rule op nothing nothing il ir deeper = (d, s, tt)
  combine_rule op _ _ il ir deeper = λ e. cc

  pub head_of_rule :
      (v : Parsed) → Inside a h v → Ensures (λ o h'. Stays a h0 d h h' × InOpt a h' o) (head_of v h)
  unfolding head_of
  head_of_rule (node i) inside =
      bind_rule (root i) _ (λ r h'. Stays a h0 d h h' × In a h' r)
        (λ o h'. Stays a h0 d h h' × InOpt a h' o) h (root_rule a h0 d h s i inside) (λ r h1 q. q)
  head_of_rule (int zero) inside = ((s, refl), tt)
  head_of_rule (int (suc n)) inside = λ e. cc
  head_of_rule nothing inside = ((s, refl), tt)

  pub read_rule : (i : ℕ) → In a h i → Ensures (λ _ h'. Stays a h0 d h h') (read i h)
  unfolding read
  read_rule i (lo, hi) =
      let (t, found) = get_elem?-of_lt h i hi in
      Ensures-ok (λ _ h'. Stays a h0 d h h') (read i h) t h (rw (found, read) refl) (s, refl)

  pub branch_keep :
      (p c : ℕ) (child : Task)
      → In a h c
      → d p < d c
      → (t : Task) → Edges d a (length h) p t
      → Edges d a (length h) p (branch_to child c t)
  branch_keep p c child (lo, hi) deeper t e = elim (Bool-cases (is_failure child)) [
    | inl no_branch ↦ rw no_branch (record {
      parent = e.parent;
      sink = e.sink;
      success = e.success;
      failure = (lo, hi, deeper);
      customs = e.customs;
      custom_keys = e.custom_keys;
    })
    | inr yes_branch ↦ rw yes_branch (record {
      parent = e.parent;
      sink = e.sink;
      success = (lo, hi, deeper);
      failure = e.failure;
      customs = e.customs;
      custom_keys = e.custom_keys;
    })
  ]

  pub All-insert :
      (P : DescriptorConfig → Type 0) (k : ℕ) (c : DescriptorConfig) (m : Dict ℕ DescriptorConfig)
      → P c
      → All P (values m)
      → All P (values (insert k c m))
  unfolding insert
  All-insert P k c [] x y = (x, tt)
  All-insert P k c ((j, w) ∷ m) x (y, ys) = elim (Bool-cases (j == k)) [
    | inl same ↦ rw same (x, ys)
    | inr other ↦ rw other (y, All-insert P k c m x ys)
  ]

  low_key : (k : ℕ) → ltb 1 k && ltb k 10 ≡ true → 1 < k
  low_key k h = ground arith

  keys_insert :
      (k j : ℕ) (c : DescriptorConfig) (m : Dict ℕ DescriptorConfig)
      → j < k
      → lookup j m ≡ none
      → lookup j (insert k c m) ≡ none
  keys_insert k j c m less old = ground (arith, lookup-insert k j c m)

  pub custom_keep :
      (p k c : ℕ) (pipe : Option PipeType)
      → In a h c
      → d p < d c
      → (t : Task) → Edges d a (length h) p t
      → Edges d a (length h) p (add_descriptor t k pipe c).0
  unfolding add_descriptor
  custom_keep p k c pipe (lo, hi) deeper t e = elim (Bool-cases (ltb 1 k && ltb k 10)) [
    | inl custom ↦ rw custom (record {
      parent = e.parent;
      sink = e.sink;
      success = e.success;
      failure = e.failure;
      customs =
          All-insert (λ x. Below d a (length h) p x.task) k
            (record { descriptor = k; pipe = pipe; task = c }) t.descriptors (lo, hi, deeper)
            e.customs;
      custom_keys = λ j low.
          keys_insert k j (record { descriptor = k; pipe = pipe; task = c }) t.descriptors
            (omega (arith, low_key k custom)) (e.custom_keys j low);
    })
    | inr other ↦ rw other e
  ]

-- The rules that use those above at several heaps.
module _ (a : ℕ) (h0 : Heap) (d : ℕ → ℕ) (h : Heap) (s : Span a h0 d h) where
  pub adopt_rule :
      (i p : ℕ)
      → In a h i
      → In a h p
      → d p < d i
      → Ensures (λ _ h'. Stays a h0 d h h') (modify i (λ t. record t { parent_node = some p }) h)
  adopt_rule i p at up deeper =
      modify_rule a h0 d h s i (λ t. record t { parent_node = some p }) at
        (parent_keep a h0 d h s i p up deeper)

  pub Ensures-Stays :
      {A : Type 0} (h2 : Heap) (same : length h2 ≡ length h) (r : Result (A × Heap))
      → Ensures (λ _ h'. Stays a h0 d h2 h') r
      → Ensures (λ _ h'. Stays a h0 d h h') r
  Ensures-Stays h2 same (ok (x, h')) (s', e) = (s', e ∙ same)
  Ensures-Stays h2 same (err e) q = q

  pub link_custom_rule :
      (h1 : Heap)
      → Span a h0 d h1
      → length h1 ≡ length h
      → (p i : ℕ) (key : Option (ℕ × String)) → In a h p
      → In a h i
      → d p < d i
      → Ensures (λ _ h'. Stays a h0 d h h') (link_custom p i key h1)
  unfolding link_custom
  link_custom_rule h1 s1 e1 p i none up at deeper = λ e. cc
  link_custom_rule h1 s1 e1 p i (some (k, op)) up at deeper =
      Ensures-Stays h1 e1 (modify p (λ t. (add_descriptor t k (get_pipe_type_enum op) i).0) h1) (
        modify_rule a h0 d h1 s1 p (λ t. (add_descriptor t k (get_pipe_type_enum op) i).0)
          (In-Stays a h h1 p up e1)
          (custom_keep a h0 d h1 s1 p k i (get_pipe_type_enum op) (In-Stays a h h1 i at e1) deeper))

  pub attach_branch_rule :
      (p : ℕ) (o : Option ℕ)
      → In a h p
      → InOpt a h o
      → DeeperOpt d p o
      → Ensures (λ _ h'. Stays a h0 d h h') (attach_branch p o h)
  unfolding attach_branch
  attach_branch_rule p none up at deeper = (s, refl)
  attach_branch_rule p (some i) up at deeper =
      bind_rule (modify i (λ t. record t { parent_node = some p })) _ (λ _ h'. Stays a h0 d h h')
        (λ _ h'. Stays a h0 d h h') h (adopt_rule i p at up deeper)
        λ _ h1 (s1, e1).
          bind_rule (read i) _ (λ _ h'. Stays a h0 d h1 h') (λ _ h'. Stays a h0 d h h') h1
            (read_rule a h0 d h1 s1 i (In-Stays a h h1 i at e1))
            λ child h2 (s2, e2). Ensures-Stays h2 (e2 ∙ e1) (modify p (branch_to child i) h2) (
              modify_rule a h0 d h2 s2 p (branch_to child i) (In-Stays a h h2 p up (e2 ∙ e1))
                (branch_keep a h0 d h2 s2 p i child (In-Stays a h h2 i at (e2 ∙ e1)) deeper))

  pub attach_custom_rule :
      (p : ℕ) (custom : Ast) (o : Option ℕ)
      → In a h p
      → InOpt a h o
      → DeeperOpt d p o
      → Ensures (λ _ h'. Stays a h0 d h h') (attach_custom p custom o h)
  unfolding attach_custom
  attach_custom_rule p custom none up at deeper = (s, refl)
  attach_custom_rule p custom (some i) up at deeper =
      bind_rule (modify i (λ t. record t { parent_node = some p })) _ (λ _ h'. Stays a h0 d h h')
        (λ _ h'. Stays a h0 d h h') h (adopt_rule i p at up deeper)
        λ _ h1 (s1, e1). link_custom_rule h1 s1 e1 p i (custom_key custom) up at deeper
