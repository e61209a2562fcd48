-- ===== src/Task/Segments.antt =====
-- Stretches of the heap whose references stay inside, go down to children and up to parents.
use event_pipeline.Prelude.{
  some_inj, ap, String, Option-cases, get_elem?-of_lt, ℕ, zero, suc, ◌+◌, ◌-◌, ◌≤◌, ◌<◌, ◌≡◌, refl,
  sym, ◌∙◌, subst, ◌⊎◌, inl, inr, Option, none, some, List, [], ◌∷◌, ltb, get_elem?,
  get_elem?-set_self, get_elem?-set_ne, lt-of-get_elem?, set, length, All, if◌then◌else◌, arith,
  Bool-cases, nat_beq, nat_beq_iff,
}
use event_pipeline.Prelude.Dict.{values, lookup}
use event_pipeline.Prelude.{comparable_nat}
use event_pipeline.Task.{new_task, Task, Heap, DescriptorConfig, root_within}

abbrev pub OptAll : (ℕ → Type 0) → Option ℕ → Type 0
OptAll P none = Unit
OptAll P (some c) = P c

pub OptAll-map : {P Q : ℕ → Type 0} (o : Option ℕ) → ((c : ℕ) → P c → Q c) → OptAll P o → OptAll Q o
OptAll-map none f x = tt
OptAll-map (some c) f x = f c x

All-map : {A : Type 0} {P Q : A → Type 0} (l : List A) → ((c : A) → P c → Q c) → All P l → All Q l
All-map [] f x = tt
All-map (c ∷ l) f x = (f c x.0, All-map l f x.1)

-- `d` is the depth of a task in its tree: a parent is less deep, a child deeper.
abbrev pub Above : (ℕ → ℕ) → ℕ → ℕ → ℕ → ℕ → Type 0
Above d a b i p = (a ≤ p) × (p < b) × (d p < d i)

abbrev pub Below : (ℕ → ℕ) → ℕ → ℕ → ℕ → ℕ → Type 0
Below d a b i c = (a ≤ c) × (c < b) × (d i < d c)

pub record Edges (d : ℕ → ℕ) (a b i : ℕ) (t : Task) : Type 0 where
  pub parent : OptAll (Above d a b i) t.parent_node
  pub sink : OptAll (Below d a b i) t.sink_node
  pub success : OptAll (Below d a b i) t.on_success_event
  pub failure : OptAll (Below d a b i) t.on_failure_event
  pub customs : All (λ (c : DescriptorConfig). Below d a b i c.task) (values t.descriptors)
  -- 0 and 1 are no custom descriptors
  pub custom_keys : (k : ℕ) → k ≤ 1 → lookup k t.descriptors ≡ none

pub record Seg (d : ℕ → ℕ) (h : Heap) (a b : ℕ) : Type 0 where
  pub bound : (i : ℕ) → a ≤ i → i < b → d i < b - a
  pub edges : (i : ℕ) (t : Task) → a ≤ i → i < b → get_elem? h i ≡ some t → Edges d a b i t

Edges-map :
    (d d' : ℕ → ℕ) (a b a' b' i : ℕ) (t : Task)
    → ((c : ℕ) → Above d a b i c → Above d' a' b' i c)
    → ((c : ℕ) → Below d a b i c → Below d' a' b' i c)
    → Edges d a b i t
    → Edges d' a' b' i t
Edges-map d d' a b a' b' i t up down e = record {
  parent = OptAll-map t.parent_node up e.parent;
  sink = OptAll-map t.sink_node down e.sink;
  success = OptAll-map t.on_success_event down e.success;
  failure = OptAll-map t.on_failure_event down e.failure;
  customs = All-map (values t.descriptors) (λ c. down c.task) e.customs;
  custom_keys = e.custom_keys;
}

-- Two heaps that agree on the stretch.
pub Seg-agree :
    {d : ℕ → ℕ} {h h' : Heap} {a b : ℕ}
    → ((i : ℕ) → a ≤ i → i < b → get_elem? h' i ≡ get_elem? h i)
    → Seg d h a b
    → Seg d h' a b
Seg-agree same s = record {
  bound = s.bound;
  edges = λ i t lo hi e. s.edges i t lo hi (sym (same i lo hi) ∙ e);
}

-- The depths of two stretches side by side, the second moved below all of the first.
abbrev pub glued : (ℕ → ℕ) → (ℕ → ℕ) → ℕ → ℕ → ℕ → ℕ
glued d e a m j = if ltb j m then d j else e j + (m - a)

pub glued_left : (d e : ℕ → ℕ) (a m j : ℕ) → j < m → glued d e a m j ≡ d j
glued_left d e a m j h = ground arith

pub glued_right : (d e : ℕ → ℕ) (a m j : ℕ) → m ≤ j → glued d e a m j ≡ e j + (m - a)
glued_right d e a m j h = ground arith

pub lt_or_le : (i m : ℕ) → (i < m) ⊎ (m ≤ i)
lt_or_le i m = grind arith

module _ (d e : ℕ → ℕ) (h : Heap) (a m b : ℕ) (p : a ≤ m) (q : m ≤ b) (s : Seg d h a m)
    (t : Seg e h m b) where
  glue_bound : (i : ℕ) → a ≤ i → i < b → glued d e a m i < b - a
  glue_bound i lo hi = elim (lt_or_le i m) [
    | inl left ↦ omega (arith, glued_left d e a m i left, s.bound i lo left)
    | inr right ↦ omega (arith, glued_right d e a m i right, t.bound i right hi)
  ]

  glue-Edges :
      (i : ℕ) (x : Task) → a ≤ i → i < b → get_elem? h i ≡ some x → Edges (glued d e a m) a b i x
  glue-Edges i x lo hi found = elim (lt_or_le i m) [
    | inl left ↦
        Edges-map d (glued d e a m) a m a b i x (λ c (l, u, k). (l, omega arith, ground arith))
          (λ c (l, u, k). (l, omega arith, ground arith)) (s.edges i x lo left found)
    | inr right ↦
        Edges-map e (glued d e a m) m b a b i x (λ c (l, u, k). (omega arith, u, ground arith))
          (λ c (l, u, k). (omega arith, u, ground arith)) (t.edges i x right hi found)
  ]

  pub Seg-glue : Seg (glued d e a m) h a b
  Seg-glue = record { bound = glue_bound; edges = glue-Edges }

-- The depths after a new root was put above a stretch.
abbrev pub raised : (ℕ → ℕ) → ℕ → ℕ → ℕ
raised d n j = if ltb j n then d j + 1 else 0

module _ (d : ℕ → ℕ) (h : Heap) (a n : ℕ) (name : String) (p : a ≤ n) (s : Seg d h a n)
    (new : get_elem? h n ≡ some (new_task name)) where
  above_bound : (i : ℕ) → a ≤ i → i < n + 1 → raised d n i < n + 1 - a
  above_bound i lo hi = elim (lt_or_le i n) [
    | inl old ↦ ground (arith, s.bound i lo old)
    | inr top ↦ ground arith
  ]

  new_keys : (k : ℕ) → k ≤ 1 → lookup k (new_task name).descriptors ≡ none
  unfolding lookup
  new_keys k h = refl

  new-Edges : (i : ℕ) (x : Task) → some x ≡ some (new_task name) → Edges (raised d n) a (n + 1) i x
  new-Edges i x e = subst (Edges (raised d n) a (n + 1) i) (sym (some_inj e)) (record {
    parent = tt;
    sink = tt;
    success = tt;
    failure = tt;
    customs = tt;
    custom_keys = new_keys;
  })

  above-Edges :
      (i : ℕ) (x : Task)
      → a ≤ i
      → i < n + 1
      → get_elem? h i ≡ some x
      → Edges (raised d n) a (n + 1) i x
  above-Edges i x lo hi found = elim (lt_or_le i n) [
    | inl old ↦
        Edges-map d (raised d n) a n a (n + 1) i x (λ c (l, u, k). (l, omega arith, ground arith))
          (λ c (l, u, k). (l, omega arith, ground arith)) (s.edges i x lo old found)
    | inr top ↦
        let same : i ≡ n = omega arith in new-Edges i x (sym found ∙ ap (get_elem? h) same ∙ new)
  ]

  pub Seg-above : Seg (raised d n) h a (n + 1)
  Seg-above = record { bound = above_bound; edges = above-Edges }

-- An assignment whose new references keep to the depths.
module _ (d : ℕ → ℕ) (h : Heap) (a b i : ℕ) (x y : Task) (s : Seg d h a b)
    (found : get_elem? h i ≡ some x) (fits : Edges d a b i y) where
  set-Edges :
      (j : ℕ) (z : Task) → a ≤ j → j < b → get_elem? (set h i y) j ≡ some z → Edges d a b j z
  set-Edges j z lo hi e = elim (Bool-cases (nat_beq i j)) [
    | inl same ↦
        let here : i ≡ j = (nat_beq_iff i j).0 same in
        let got : some y ≡ some z =
          sym (get_elem?-set_self h i y (lt-of-get_elem? h i found))
          ∙ ap (get_elem? (set h i y)) here
          ∙ e in
        rw here at (subst (Edges d a b i) (some_inj got) fits)
    | inr other ↦
        s.edges j z lo hi
          (sym (get_elem?-set_ne h i j y (λ q. cc (other, (nat_beq_iff i j).1 q))) ∙ e)
  ]

  pub Seg-set : Seg d (set h i y) a b
  Seg-set = record { bound = s.bound; edges = set-Edges }

-- From inside a stretch the climb to the root ends inside it, within its depth.
pub climb :
    (d : ℕ → ℕ) (h : Heap) (a b fuel i : ℕ)
    → Seg d h a b
    → b ≤ length h
    → a ≤ i
    → i < b
    → d i < fuel
    → (r : ℕ) × (root_within fuel h i ≡ some r) × (a ≤ r) × (r < b)
unfolding root_within
climb d h a b zero i s room lo hi enough = absurd (omega arith)
climb d h a b (suc fuel) i s room lo hi enough =
    let (x, found) = get_elem?-of_lt h i (omega arith) in
    elim (Option-cases x.parent_node) [
      | inl top ↦ (i, rw (found, root_within) (rw (top, root_within) refl), lo, hi)
      | inr (p, up) ↦
          let (l, u, k) = rw up at ((s.edges i x lo hi found).parent) in
          let (r, e, lr, hr) = climb d h a b fuel p s room l u (omega arith) in
          (r, rw (found, root_within) (rw (up, root_within) e), lr, hr)
    ]
