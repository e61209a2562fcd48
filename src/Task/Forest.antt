-- ===== src/Task/Forest.antt =====
-- What PipelineTask.build_pipeline_from_execution_code (nexus/task.py) returns.
use event_pipeline.Prelude.{
  ℕ, zero, suc, ◌<◌, ◌≡◌, ◌≢◌, refl, inl, inr, none, some, some_inj, [], subst, get_elem?, length,
  arith, Option-cases,
}
use event_pipeline.Ast.{Ast}
use event_pipeline.Task.{Task, Heap, root_within, get_root}
use event_pipeline.Task.Segments.{Seg, climb}
use event_pipeline.Task.Build.{
  ok, err, endless_climb, Parsed, node, int, nothing, root, parse_ast, build_pipeline, finish,
}
use event_pipeline.Task.Rules.{Ensures, Ensures-map, Ensures-ok, bind_rule, Span, In, Stays}
use event_pipeline.Task.Acyclic.{Grown, parse_ast-rule}

-- Where a climb ends there is no parent.
root_within-top :
    (fuel : ℕ) (h : Heap) (i r : ℕ)
    → root_within fuel h i ≡ some r
    → (t : Task) × (get_elem? h r ≡ some t) × (t.parent_node ≡ none)
unfolding root_within
root_within-top zero h i r e = cc
root_within-top (suc fuel) h i r e = elim (Option-cases (get_elem? h i)) [
  | inl off ↦ cc (rw (off, root_within) at e)
  | inr (t, found) ↦ elim (Option-cases t.parent_node) [
    | inl top ↦
        let here : i ≡ r = some_inj (rw (top, root_within) at (rw (found, root_within) at e)) in
        (t, rw (← here) found, top)
    | inr (p, up) ↦
        root_within-top fuel h p r (rw (up, root_within) at (rw (found, root_within) at e))
  ]
]

-- Every task reaches a root, and references go down to children and up to parents.
pub record IsForest (h : Heap) : Type 0 where
  pub depth : ℕ → ℕ
  pub ordered : Seg depth h 0 (length h)
  pub rooted : (i : ℕ) → i < length h → (r : ℕ) × (get_root h i ≡ some r) × (r < length h)

pub record IsPipeline (r : ℕ) (h : Heap) : Type 0 where
  pub forest : IsForest h
  pub inside : r < length h
  pub top : (t : Task) × (get_elem? h r ≡ some t) × (t.parent_node ≡ none)

Span-IsForest : (h0 : Heap) (d : ℕ → ℕ) (h : Heap) → Span 0 h0 d h → IsForest h
unfolding get_root
Span-IsForest h0 d h s = record {
  depth = d;
  ordered = s.seg;
  rooted = λ i inside.
      let (r, e, lo, hi) =
        climb d h 0 (length h) (length h) i s.seg (omega arith) (omega arith) inside
          (omega (arith, s.seg.bound i (omega arith) inside)) in
      (r, e, hi);
}

abbrev Tops : ℕ → Heap → Type 0
Tops r h = (t : Task) × (get_elem? h r ≡ some t) × (t.parent_node ≡ none)

root_top_rule :
    (d : ℕ → ℕ) (h : Heap) (s : Span 0 [] d h) (i : ℕ)
    → In 0 h i
    → Ensures (λ r h'. Stays 0 [] d h h' × In 0 h' r × Tops r h') (root i h)
unfolding root get_root
root_top_rule d h s i (lo, hi) =
    let (r, e, l, u) =
      climb d h 0 (length h) (length h) i s.seg (omega arith) lo hi
        (omega (arith, s.seg.bound i lo hi)) in
    Ensures-ok (λ r' h'. Stays 0 [] d h h' × In 0 h' r' × Tops r' h') (root i h) r h
      (rw (e, root) refl) ((s, refl), (l, u), root_within-top (length h) h i r e)

finish_rule : (v : Parsed) (h : Heap) → Grown [] v h → Ensures IsPipeline (finish v h)
finish_rule (int n) h g = λ e. cc
finish_rule nothing h g = λ e. cc
finish_rule (node i) h (d, s, inside) =
    Ensures-map (λ r h'. Stays 0 [] d h h' × In 0 h' r × Tops r h') IsPipeline (root i h)
      (λ r h' ((s', size), at, top). record {
        forest = Span-IsForest [] d h' s';
        inside = at.1;
        top = top;
      })
      (root_top_rule d h s i inside)

build_rule : (x : Ast) → Ensures IsPipeline (build_pipeline x)
unfolding build_pipeline
build_rule x =
    bind_rule (parse_ast x) finish (Grown []) IsPipeline [] (parse_ast-rule x []) finish_rule

-- Building the tasks of a syntax tree never climbs from a task to its root without end: every climb that it makes ends at a root, after no more steps than there are tasks. (Nothing is said of the interpreter's limit on the depth of calls.)
pub build_never_loops : (x : Ast) → build_pipeline x ≢ err endless_climb
build_never_loops x e = subst (Ensures IsPipeline) e (build_rule x) refl

-- If building the tasks of a syntax tree succeeds, then the result is a task with no parent, every task on the heap reaches a root by its parents, and there is a depth at which every parent lies above its task and every sink, branch and custom descriptor below it.
pub build-IsPipeline : (x : Ast) (r : ℕ) (h : Heap) → build_pipeline x ≡ ok (r, h) → IsPipeline r h
build-IsPipeline x r h e = subst (Ensures IsPipeline) e (build_rule x)
