-- ===== src/Task.antt =====
-- nexus/task.py: PipelineTask and ExtraPipelineTaskConfig. Tasks point at one another, so they live
-- on a heap, and a reference is a place on it. An event is known by its name.
pub mod Build
pub mod Segments
mod Rules
mod Links
pub mod Forest
pub mod Acyclic
pub mod Descriptors
use event_pipeline.Prelude.{
  ℕ, zero, suc, String, Bool, true, false, ◌&&◌, ◌||◌, Option, none, some, List, [], ◌∷◌, ◌++◌, map,
  ltb, get_elem?, length, is_some, if◌then◌else◌, ◌==◌, comparable_nat,
}
use event_pipeline.Prelude.Dict.{Dict, lookup, insert, values}
use event_pipeline.Pipe.{PipeType}

-- _DescriptorConfig
pub record DescriptorConfig : Type 0 where
  pub descriptor : ℕ
  pub pipe : Option PipeType
  pub task : ℕ

pub record Task : Type 0 where
  pub event : String
  pub parent_node : Option ℕ
  pub sink_node : Option ℕ
  pub sink_pipe : Option PipeType
  pub on_success_event : Option ℕ
  pub on_failure_event : Option ℕ
  pub on_success_pipe : Option PipeType
  pub on_failure_pipe : Option PipeType
  -- `_descriptor` and `_descriptor_pipe`, the latter the token of the operator
  pub own_descriptor : Option ℕ
  pub own_descriptor_pipe : Option String
  -- the fields of `extra_config`
  pub number_of_retries : Option ℕ
  pub descriptors : Dict ℕ DescriptorConfig

abbrev pub Heap : Type 0
Heap = List Task

-- PipelineTask(event=name)
abbrev pub new_task : String → Task
new_task name = record {
  event = name;
  parent_node = none;
  sink_node = none;
  sink_pipe = none;
  on_success_event = none;
  on_failure_event = none;
  on_success_pipe = none;
  on_failure_pipe = none;
  own_descriptor = none;
  own_descriptor_pipe = none;
  number_of_retries = none;
  descriptors = [];
}

-- ExtraPipelineTaskConfig.add_descriptor, with the Boolean that it returns
unfoldable pub add_descriptor : Task → ℕ → Option PipeType → ℕ → Task × Bool
unfolding insert
add_descriptor t d pipe child =
    if ltb 1 d && ltb d 10
    then (
      record t {
        descriptors = insert d (record { descriptor = d; pipe = pipe; task = child }) t.descriptors;
      },
      true,
    )
    else (t, false)

-- extra_config.get_descriptor_config
unfoldable pub get_descriptor_config : Task → ℕ → Option DescriptorConfig
unfolding lookup
get_descriptor_config t d = lookup d t.descriptors

abbrev pub is_nonempty {ℓ} : {A : Type ℓ} → List A → Bool
is_nonempty [] = false
is_nonempty (x ∷ xs) = true

unfoldable pub is_conditional : Task → Bool
is_conditional t =
    is_nonempty t.descriptors || (is_some t.on_success_event && is_some t.on_failure_event)

unfoldable pub is_descriptor_task : Task → Bool
is_descriptor_task t = is_some t.own_descriptor || is_some t.own_descriptor_pipe

-- `reference == self`, for a reference that may be None
abbrev pub refers : Option ℕ → ℕ → Bool
refers none i = false
refers (some j) i = j == i

abbrev option_list {ℓ} : {A : Type ℓ} → Option A → List A
option_list none = []
option_list (some a) = a ∷ []

unfoldable pub get_children : Task → List ℕ
get_children t =
    option_list t.on_failure_event
    ++ (option_list t.sink_node
        ++ (option_list t.on_success_event ++ map (λ c. c.task) (values t.descriptors)))

-- get_root, which climbs by recursion. The fuel bounds the climb; `none` is a climb that does not
-- end within it, or a reference off the heap. The interpreter's limit on the depth of calls is left
-- out.
unfoldable pub root_within : ℕ → Heap → ℕ → Option ℕ
root_within zero h i = none
root_within (suc fuel) h i = elim (get_elem? h i) [
  | none ↦ none
  | some t ↦ elim t.parent_node [ none ↦ some i | some p ↦ root_within fuel h p ]
]

unfoldable pub get_root : Heap → ℕ → Option ℕ
unfolding root_within
get_root h i = root_within (length h) h i

-- What points to a task: a pipe, the bare token of a descriptor branch that no config knows, or
-- nothing.
pub data Pointer : Type 0 where
  no_pointer : Pointer
  pipe : PipeType → Pointer
  raw_token : String → Pointer

abbrev pub of_pipe : Option PipeType → Pointer
of_pipe none = no_pointer
of_pipe (some p) = pipe p

abbrev of_token : Option String → Pointer
of_token none = no_pointer
of_token (some s) = raw_token s

abbrev custom_pointer : Task → Option DescriptorConfig → Pointer
custom_pointer t none = of_token t.own_descriptor_pipe
custom_pointer t (some c) = of_pipe c.pipe

-- the `else` branch; `_descriptors.get(None)` is None
abbrev by_descriptor : Task → Task → Pointer
by_descriptor parent t = elim t.own_descriptor [
  | none ↦ of_token t.own_descriptor_pipe
  | some d ↦ custom_pointer t (get_descriptor_config parent d)
]

-- get_pointer_type_to_this_event of the task `t` at place `i`
unfoldable pub pointer_from : (parent t : Task) (i : ℕ) → Pointer
unfolding get_descriptor_config
pointer_from parent t i =
    if refers parent.on_success_event i
    then of_pipe parent.on_success_pipe
    else if refers parent.on_failure_event i
    then of_pipe parent.on_failure_pipe
    else if refers parent.sink_node i
    then of_pipe parent.sink_pipe
    else by_descriptor parent t

unfoldable pub get_pointer_type : Heap → ℕ → Pointer
unfolding pointer_from
get_pointer_type h i = elim (get_elem? h i) [
  | none ↦ no_pointer
  | some t ↦ elim t.parent_node [
    | none ↦ no_pointer
    | some p ↦ elim (get_elem? h p) [ none ↦ no_pointer | some parent ↦ pointer_from parent t i ]
  ]
]

-- get_descriptor: 0 is the failure branch and 1 the success branch
unfoldable pub get_descriptor : Task → ℕ → Option ℕ
unfolding get_descriptor_config
get_descriptor t zero = t.on_failure_event
get_descriptor t (suc zero) = t.on_success_event
get_descriptor t d = elim (get_descriptor_config t d) [ none ↦ none | some c ↦ some c.task ]

abbrev flat {ℓ} : {A : Type ℓ} → (ℕ → List A) → List ℕ → List A
flat f [] = []
flat f (c ∷ cs) = f c ++ flat f cs

-- bf_traversal, which yields a node before its children; the fuel bounds the depth
unfoldable pub bf_traversal : ℕ → Heap → ℕ → List ℕ
unfolding get_children
bf_traversal zero h i = []
bf_traversal (suc fuel) h i = elim (get_elem? h i) [
  | none ↦ []
  | some t ↦ i ∷ flat (bf_traversal fuel h) (get_children t)
]
