-- ===== src/Task/Rules.antt =====
-- Rules for the operations of nexus/task.py, _parse_ast, on a stretch of the heap.
use event_pipeline.Prelude.{
  ℕ, ◌+◌, ◌≤◌, ◌<◌, ◌≡◌, ◌≢◌, refl, sym, ◌∙◌, subst, String, inl, inr, Option, none, some, [], ◌∷◌,
  ◌++◌, get_elem?, get_elem?-set_ne, get_elem?-of_lt, get_elem?-append_lt, get_elem?-append_self,
  length-append, length-set, set, length, arith, Bool-cases, comparable_nat, comparable_string,
}
use event_pipeline.Pipe.{PipeType}
use event_pipeline.Task.{Task, Heap, new_task, get_root, is_conditional}
use event_pipeline.Task.Segments.{Edges, Seg, Seg-agree, raised, Seg-above, Seg-set, climb}
use event_pipeline.Task.Build.{
  endless_climb, Result, ok, err, Build, ◌>>=◌, alloc, modify, root, Parsed, node, link_child,
}

-- The result satisfies `Q`, or an exception other than that of an endless climb left the code.
abbrev pub Ensures : {A : Type 0} → (A → Heap → Type 0) → Result (A × Heap) → Type 0
Ensures Q (ok (a, h)) = Q a h
Ensures Q (err e) = e ≢ endless_climb

pub Ensures-ok :
    {A : Type 0} (Q : A → Heap → Type 0) (r : Result (A × Heap)) (a : A) (h : Heap)
    → r ≡ ok (a, h)
    → Q a h
    → Ensures Q r
Ensures-ok Q r a h e q = subst (Ensures Q) (sym e) q

pub Ensures-map :
    {A : Type 0} (Q R : A → Heap → Type 0) (r : Result (A × Heap))
    → ((a : A) (h : Heap) → Q a h → R a h)
    → Ensures Q r
    → Ensures R r
Ensures-map Q R (ok (a, h)) f q = f a h q
Ensures-map Q R (err e) f q = q

pub bind_cases :
    {A B : Type 0} (r : Result (A × Heap)) (f : A → Build B) (Q : A → Heap → Type 0)
    (R : B → Heap → Type 0)
    → Ensures Q r
    → ((a : A) (h : Heap) → Q a h → Ensures R (f a h))
    → Ensures R (elim r [ err e ↦ err e | ok (a, h') ↦ f a h' ])
bind_cases (ok (a, h)) f Q R q k = k a h q
bind_cases (err e) f Q R q k = q

pub bind_rule :
    {A B : Type 0} (m : Build A) (f : A → Build B) (Q : A → Heap → Type 0) (R : B → Heap → Type 0)
    (h : Heap)
    → Ensures Q (m h)
    → ((a : A) (h' : Heap) → Q a h' → Ensures R (f a h'))
    → Ensures R ((m >>= f) h)
bind_rule m f Q R h q k = bind_cases (m h) f Q R q k

-- The heap above `a` is a stretch of trees, and below `a` it is as in `h0`.
pub record Span (a : ℕ) (h0 : Heap) (d : ℕ → ℕ) (h : Heap) : Type 0 where
  pub start : a ≤ length h
  pub seg : Seg d h a (length h)
  pub kept : (i : ℕ) → i < a → get_elem? h i ≡ get_elem? h0 i

abbrev pub In : ℕ → Heap → ℕ → Type 0
In a h i = (a ≤ i) × (i < length h)

abbrev pub Inside : ℕ → Heap → Parsed → Type 0
Inside a h (node i) = In a h i
Inside a h v = Unit

abbrev pub InOpt : ℕ → Heap → Option ℕ → Type 0
InOpt a h none = Unit
InOpt a h (some i) = In a h i

abbrev pub Deeper : (ℕ → ℕ) → Parsed → Parsed → Type 0
Deeper d (node l) (node r) = d l < d r
Deeper d l r = Unit

abbrev pub DeeperOpt : (ℕ → ℕ) → ℕ → Option ℕ → Type 0
DeeperOpt d p none = Unit
DeeperOpt d p (some i) = d p < d i

-- What a call of `_parse_ast` leaves: trees, and its own result among them.
abbrev pub Out : ℕ → Heap → Parsed → Heap → Type 0
Out a h0 v h = (d : ℕ → ℕ) × Span a h0 d h × Inside a h v

-- A step that stays within the stretch.
abbrev pub Stays : ℕ → Heap → (ℕ → ℕ) → Heap → Heap → Type 0
Stays a h0 d h h' = Span a h0 d h' × (length h' ≡ length h)

module _ (a : ℕ) (h0 : Heap) (d : ℕ → ℕ) (h : Heap) (s : Span a h0 d h) where
  pub root_rule : (i : ℕ) → In a h i → Ensures (λ r h'. Stays a h0 d h h' × In a h' r) (root i h)
  unfolding root get_root
  root_rule i (lo, hi) =
      let (r, e, l, u) =
        climb d h a (length h) (length h) i s.seg (omega arith) lo hi
          (omega (arith, s.seg.bound i lo hi)) in
      Ensures-ok (λ r' h'. Stays a h0 d h h' × In a h' r') (root i h) r h (rw (e, root) refl)
        ((s, refl), (l, u))

  pub modify_rule :
      (i : ℕ) (f : Task → Task)
      → In a h i
      → ((t : Task) → Edges d a (length h) i t → Edges d a (length h) i (f t))
      → Ensures (λ _ h'. Stays a h0 d h h') (modify i f h)
  unfolding modify
  modify_rule i f (lo, hi) keep =
      let (t, found) = get_elem?-of_lt h i hi in
      let size : length (set h i (f t)) ≡ length h = length-set h i (f t) in
      Ensures-ok (λ _ h'. Stays a h0 d h h') (modify i f h) tt (set h i (f t))
        (rw (found, modify) refl)
        (
          record {
            start = rw size s.start;
            seg = rw size (
                Seg-set d h a (length h) i t (f t) s.seg found
                  (keep t (s.seg.edges i t lo hi found)));
            kept = λ j low.
                get_elem?-set_ne h i j (f t) (λ q. absurd (omega (arith, q))) ∙ s.kept j low;
          },
          size,
        )

  pub alloc_rule :
      (name : String)
      → Ensures
          (λ p h'. Span a h0 (raised d p) h' × (p ≡ length h) × (length h' ≡ length h + 1))
          (alloc (new_task name) h)
  unfolding alloc
  alloc_rule name =
      let size : length (h ++ new_task name ∷ []) ≡ length h + 1 =
        length-append h (new_task name ∷ []) ∙ omega arith in
      (
        record {
          start = omega (arith, size, s.start);
          seg = rw size (
              Seg-above d (h ++ new_task name ∷ []) a (length h) name s.start
                (Seg-agree (λ i lo hi. get_elem?-append_lt h (new_task name ∷ []) i hi) s.seg)
                (get_elem?-append_self h (new_task name)));
          kept = λ j low.
              get_elem?-append_lt h (new_task name ∷ []) j (omega (arith, s.start)) ∙ s.kept j low;
        },
        refl,
        size,
      )

  -- The two assignments of a link: the child knows its parent, and the parent its child.
  pub parent_keep :
      (i p : ℕ)
      → In a h p
      → d p < d i
      → (t : Task) → Edges d a (length h) i t
      → Edges d a (length h) i (record t { parent_node = some p })
  parent_keep i p (lo, hi) deeper t e = record {
    parent = (lo, hi, deeper);
    sink = e.sink;
    success = e.success;
    failure = e.failure;
    customs = e.customs;
    custom_keys = e.custom_keys;
  }

  pub child_keep :
      (i c : ℕ) (pipe : PipeType)
      → In a h c
      → d i < d c
      → (t : Task) → Edges d a (length h) i t
      → Edges d a (length h) i (link_child pipe c t)
  child_keep i c pipe (lo, hi) deeper t e = elim (Bool-cases (is_conditional t)) [
    | inl sunk ↦ rw sunk (record {
      parent = e.parent;
      sink = (lo, hi, deeper);
      success = e.success;
      failure = e.failure;
      customs = e.customs;
      custom_keys = e.custom_keys;
    })
    | inr plain ↦ rw plain (record {
      parent = e.parent;
      sink = e.sink;
      success = (lo, hi, deeper);
      failure = e.failure;
      customs = e.customs;
      custom_keys = e.custom_keys;
    })
  ]

  -- An assignment to the labels of a task.
  pub label_keep :
      (i : ℕ) (x : Option ℕ) (y : Option String) (z : Option ℕ) (t : Task)
      → Edges d a (length h) i t
      → Edges d a
          (length h)
          i
          (record t { own_descriptor = x; own_descriptor_pipe = y; number_of_retries = z })
  label_keep i x y z t e = record {
    parent = e.parent;
    sink = e.sink;
    success = e.success;
    failure = e.failure;
    customs = e.customs;
    custom_keys = e.custom_keys;
  }

pub In-Stays : (a : ℕ) (h h' : Heap) (i : ℕ) → In a h i → length h' ≡ length h → In a h' i
In-Stays a h h' i (lo, hi) size = (lo, omega arith)
