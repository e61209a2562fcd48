-- ===== src/Task/Acyclic.antt =====
-- The trees of tasks that PipelineTask._parse_ast (nexus/task.py) builds, along the syntax tree.
use event_pipeline.Prelude.{
  ℕ, ◌+◌, ◌≤◌, ◌<◌, ◌≡◌, refl, ◌∙◌, String, inl, inr, Option, none, some, length, arith, Bool-cases,
  ◌==◌, comparable_nat,
}
use event_pipeline.Ast.{
  Ast, Branches, bin_op, descriptor, number, task_name, conditional, group, end, branch,
}
use event_pipeline.Task.{Heap, new_task}
use event_pipeline.Task.Segments.{Seg-agree, glued, glued_left, glued_right, Seg-glue, raised}
use event_pipeline.Task.Build.{
  Build, pure, alloc, Parsed, node, combine, head_of, attach_branch, attach_custom, parent_name,
  ◌>>=◌, ◌>>◌, alloc_parent, is_custom, make_parent, custom_branch, parse_ast, parse_key,
  parse_customs,
}
use event_pipeline.Task.Rules.{
  Ensures, Ensures-map, bind_rule, Span, In, Inside, InOpt, Deeper, DeeperOpt, Out, Stays,
  alloc_rule, In-Stays,
}
use event_pipeline.Task.Links.{combine_rule, head_of_rule, attach_branch_rule, attach_custom_rule}

module _ (a : ℕ) (h0 : Heap) (d e : ℕ → ℕ) (h h' : Heap) (s : Span a h0 d h)
    (t : Span (length h) h e h') where
  Span-glue : Span a h0 (glued d e a (length h)) h'
  Span-glue = record {
    start = omega (arith, s.start, t.start);
    seg =
        Seg-glue d e h' a (length h) (length h') s.start t.start
          (Seg-agree (λ i lo hi. t.kept i hi) s.seg) t.seg;
    kept = λ i low. t.kept i (omega (arith, s.start)) ∙ s.kept i low;
  }

  glue_lt :
      (i j : ℕ)
      → In a h i
      → In (length h) h' j
      → glued d e a (length h) i < glued d e a (length h) j
  glue_lt i j (lo, hi) (lo', hi') = omega (
    arith,
    glued_left d e a (length h) i hi,
    glued_right d e a (length h) j lo',
    s.seg.bound i lo hi,
  )

  In-left : (i : ℕ) → In a h i → In a h' i
  In-left i (lo, hi) = (lo, omega (arith, t.start))

  In-right : (j : ℕ) → In (length h) h' j → In a h' j
  In-right j (lo, hi) = (omega (arith, s.start), hi)

  Inside-left : (v : Parsed) → Inside a h v → Inside a h' v
  Inside-left (node i) x = In-left i x
  Inside-left _ x = tt

  Inside-right : (v : Parsed) → Inside (length h) h' v → Inside a h' v
  Inside-right (node j) x = In-right j x
  Inside-right _ x = tt

  Deeper-glue :
      (l r : Parsed) → Inside a h l → Inside (length h) h' r → Deeper (glued d e a (length h)) l r
  Deeper-glue (node i) (node j) x y = glue_lt i j x y
  Deeper-glue _ _ x y = tt

  InOpt-right : (o : Option ℕ) → InOpt (length h) h' o → InOpt a h' o
  InOpt-right none x = tt
  InOpt-right (some j) x = In-right j x

  DeeperOpt-glue :
      (p : ℕ) (o : Option ℕ)
      → In a h p
      → InOpt (length h) h' o
      → DeeperOpt (glued d e a (length h)) p o
  DeeperOpt-glue p none x y = tt
  DeeperOpt-glue p (some j) x y = glue_lt p j x y

-- The heap before anything was built on it.
Span-empty : (h : Heap) → Span (length h) h (λ _. 0) h
Span-empty h = record {
  start = omega arith;
  seg = record {
    bound = λ i lo hi. absurd (omega arith);
    edges = λ i t lo hi. absurd (omega arith);
  };
  kept = λ i low. refl;
}

abbrev pub Grown : Heap → Parsed → Heap → Type 0
Grown h v h' = Out (length h) h v h'

-- Two parses in a row, and what is done with both results.
both_rule :
    {B : Type 0} (h : Heap) (m n : Build Parsed) (f : Parsed → Parsed → Build B)
    (R : B → Heap → Type 0)
    → ((h' : Heap) → Ensures (Grown h') (m h'))
    → ((h' : Heap) → Ensures (Grown h') (n h'))
    → ((l r : Parsed) (d : ℕ → ℕ) (h' : Heap)
        → Span (length h) h d h'
        → Inside (length h) h' l
        → Inside (length h) h' r
        → Deeper d l r
        → Ensures R (f l r h'))
    → Ensures R ((do left ← m; right ← n; f left right) h)
both_rule h m n f R pm pn k = bind_rule m _ (Grown h) R h (pm h) λ l h1 (d, s, il).
    bind_rule n _ (Grown h1) R h1 (pn h1) λ r h2 (e, t, ir).
      k l r _ h2 (Span-glue (length h) h d e h1 h2 s t)
        (Inside-left (length h) h d e h1 h2 s t l il) (Inside-right (length h) h d e h1 h2 s t r ir)
        (Deeper-glue (length h) h d e h1 h2 s t l r il ir)

abbrev Parented : ℕ → Heap → ℕ → Heap → Type 0
Parented a h0 p h' = (d : ℕ → ℕ) × Span a h0 d h' × In a h' p

alloc_parent_rule :
    (a : ℕ) (h0 : Heap) (d : ℕ → ℕ) (h : Heap) (name : Option String)
    → Span a h0 d h
    → Ensures
        (λ p h'. Span a h0 (raised d p) h' × (p ≡ length h) × (length h' ≡ length h + 1))
        (alloc_parent name h)
unfolding alloc_parent
alloc_parent_rule a h0 d h none s = λ e. cc
alloc_parent_rule a h0 d h (some name) s = alloc_rule a h0 d h s name

Inside-grow :
    (a : ℕ) (h h' : Heap) (v : Parsed) → length h ≤ length h' → Inside a h v → Inside a h' v
Inside-grow a h h' (node i) le (lo, hi) = (lo, omega arith)
Inside-grow a h h' _ le x = tt

InOpt-grow :
    (a : ℕ) (h h' : Heap) (o : Option ℕ) → length h ≤ length h' → InOpt a h o → InOpt a h' o
InOpt-grow a h h' none le x = tt
InOpt-grow a h h' (some i) le (lo, hi) = (lo, omega arith)

under_new :
    (a : ℕ) (d : ℕ → ℕ) (h : Heap) (p : ℕ) (o : Option ℕ)
    → p ≡ length h
    → InOpt a h o
    → DeeperOpt (raised d p) p o
under_new a d h p none e x = tt
under_new a d h p (some i) e (lo, hi) = ground arith

family_rule :
    (a : ℕ) (h0 : Heap) (d : ℕ → ℕ) (h : Heap) (p : ℕ) (l r : Option ℕ)
    → Span a h0 d h
    → In a h p
    → InOpt a h r
    → InOpt a h l
    → DeeperOpt d p r
    → DeeperOpt d p l
    → Ensures (Parented a h0) ((do attach_branch p r; attach_branch p l; pure p) h)
family_rule a h0 d h p l r s at ir il dr dl =
    bind_rule (attach_branch p r) _ (λ _ h'. Stays a h0 d h h') (Parented a h0) h
      (attach_branch_rule a h0 d h s p r at ir dr)
      λ _ h1 (s1, e1).
        bind_rule (attach_branch p l) _ (λ _ h'. Stays a h0 d h1 h') (Parented a h0) h1
          (attach_branch_rule a h0 d h1 s1 p l (In-Stays a h h1 p at e1)
            (InOpt-grow a h h1 l (omega (arith, e1)) il) dl)
          λ _ h2 (s2, e2). (d, s2, In-Stays a h1 h2 p (In-Stays a h h1 p at e1) e2)

make_parent_rule :
    (a : ℕ) (h0 : Heap) (d : ℕ → ℕ) (h : Heap) (x : Ast) (l r : Parsed)
    → Span a h0 d h
    → Inside a h l
    → Inside a h r
    → Ensures (Parented a h0) (make_parent x l r h)
unfolding make_parent
make_parent_rule a h0 d h x l r s il ir =
    bind_rule (head_of l) _ (λ o h'. Stays a h0 d h h' × InOpt a h' o) (Parented a h0) h
      (head_of_rule a h0 d h s l il)
      λ lo h1 ((s1, e1), lat).
        bind_rule (head_of r) _ (λ o h'. Stays a h0 d h1 h' × InOpt a h' o) (Parented a h0) h1
          (head_of_rule a h0 d h1 s1 r (Inside-grow a h h1 r (omega (arith, e1)) ir))
          λ ro h2 ((s2, e2), rat).
            bind_rule (alloc_parent (parent_name x)) _
              (λ p h'. Span a h0 (raised d p) h' × (p ≡ length h2) × (length h' ≡ length h2 + 1))
              (Parented a h0) h2 (alloc_parent_rule a h0 d h2 (parent_name x) s2)
              λ p h3 (s3, place, size).
                family_rule a h0 (raised d p) h3 p lo ro s3
                  (omega (arith, place, s2.start), omega (arith, place, size))
                  (InOpt-grow a h2 h3 ro (omega (arith, size)) rat)
                  (InOpt-grow a h1 h3 lo (omega (arith, size, e2)) lat)
                  (under_new a d h2 p ro place rat)
                  (under_new a d h2 p lo place (InOpt-grow a h1 h2 lo (omega (arith, e2)) lat))

-- One round of the loop over `extra_descriptors`, and the loop.
custom_branch_rule :
    (a : ℕ) (h0 : Heap) (d : ℕ → ℕ) (h : Heap) (p j : ℕ) (x : Ast) (parsed : Build Parsed)
    → Span a h0 d h
    → In a h p
    → ((h' : Heap) → Ensures (Grown h') (parsed h'))
    → Ensures (λ _. Parented a h0 p) (custom_branch p j x parsed h)
custom_branch_rule a h0 d h p j x parsed s at rule = elim (Bool-cases (is_custom j)) [
  | inr other ↦ rw other (d, s, at)
  | inl custom ↦ rw custom (
      bind_rule parsed _ (Grown h) (λ _. Parented a h0 p) h (rule h)
        λ v h1 (e, t, iv).
          bind_rule (head_of v) _ (λ o h'. Stays (length h) h e h1 h' × InOpt (length h) h' o)
            (λ _. Parented a h0 p) h1 (head_of_rule (length h) h e h1 t v iv)
            λ o h2 ((t2, e2), io).
              Ensures-map (λ _ h'. Stays a h0 (glued d e a (length h)) h2 h') (λ _. Parented a h0 p)
                (attach_custom p x o h2)
                (λ _ h3 (s3, e3). (_, s3, In-Stays a h2 h3 p (In-left a h0 d e h h2 s t2 p at) e3))
                (attach_custom_rule a h0 (glued d e a (length h)) h2 (Span-glue a h0 d e h h2 s t2)
                  p x o (In-left a h0 d e h h2 s t2 p at) (InOpt-right a h0 d e h h2 s t2 o io)
                  (DeeperOpt-glue a h0 d e h h2 s t2 p o at io)))
]

mutual
  unfolding parse_ast parse_key parse_customs

  pub parse_ast-rule : (x : Ast) (h : Heap) → Ensures (Grown h) (parse_ast x h)
  parse_ast-rule (bin_op op l r) h =
      both_rule h (parse_ast l) (parse_ast r) (combine op) (Grown h) (parse_ast-rule l)
        (parse_ast-rule r)
        λ left right d h' s il ir deeper.
          combine_rule (length h) h d h' s op left right il ir deeper
  parse_ast-rule (task_name name) h =
      bind_rule (alloc (new_task name)) _
        (λ p h'.
          Span (length h) h (raised (λ _. 0) p) h' × (p ≡ length h) × (length h' ≡ length h + 1))
        (Grown h) h (alloc_rule (length h) h (λ _. 0) h (Span-empty h) name)
        λ p h1 (s, place, size).
          (raised (λ _. 0) p, s, (omega (arith, place), omega (arith, place, size)))
  parse_ast-rule (conditional x (group bs)) h =
      both_rule h (parse_key 0 bs) (parse_key 1 bs)
        (λ left right. do p ← make_parent x left right; parse_customs p bs; pure (node p)) (Grown h)
        (parse_key-rule 0 bs) (parse_key-rule 1 bs)
        λ left right d h' s il ir deeper.
          bind_rule (make_parent x left right) _ (Parented (length h) h) (Grown h) h'
            (make_parent_rule (length h) h d h' x left right s il ir)
            λ p h1 (e, t, at).
              bind_rule (parse_customs p bs) _ (λ _. Parented (length h) h p) (Grown h) h1
                (parse_customs-rule p bs (length h) h e h1 t at) λ _ h2 q. q
  parse_ast-rule (conditional x g) h = λ e. cc
  parse_ast-rule (descriptor n) h = (_, Span-empty h, tt)
  parse_ast-rule (number n) h = (_, Span-empty h, tt)
  parse_ast-rule (group bs) h = (_, Span-empty h, tt)

  parse_key-rule : (k : ℕ) (bs : Branches) (h : Heap) → Ensures (Grown h) (parse_key k bs h)
  parse_key-rule k end h = (_, Span-empty h, tt)
  parse_key-rule k (branch j x rest) h = elim (Bool-cases (j == k)) [
    | inl found ↦ rw found (parse_ast-rule x h)
    | inr other ↦ rw other (parse_key-rule k rest h)
  ]

  parse_customs-rule :
      (p : ℕ) (bs : Branches) (a : ℕ) (h0 : Heap) (d : ℕ → ℕ) (h : Heap)
      → Span a h0 d h
      → In a h p
      → Ensures (λ _. Parented a h0 p) (parse_customs p bs h)
  parse_customs-rule p end a h0 d h s at = (d, s, at)
  parse_customs-rule p (branch j x rest) a h0 d h s at =
      bind_rule (custom_branch p j x (parse_ast x)) _ (λ _. Parented a h0 p) (λ _. Parented a h0 p)
        h (custom_branch_rule a h0 d h p j x (parse_ast x) s at (parse_ast-rule x))
        λ _ h1 (e, t, at'). parse_customs-rule p rest a h0 e h1 t at'
