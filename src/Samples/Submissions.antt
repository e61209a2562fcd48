-- ===== src/Samples/Submissions.antt =====
-- Tests of the submission of events to executors.
use event_pipeline.Prelude.{
  ℕ, zero, suc, String, ◌≡◌, refl, subst, ap, ◌∙◌, ◌==◌, true, false, none, some, List, [], ◌∷◌,
  map, arith, get_elem?, comparable_string, comparable_nat, nat_beq, All, some_inj,
}
use mathlib.Core.List.{Perm}
use event_pipeline.Prelude.Dict.{Dict, lookup, insert}
use event_pipeline.Exceptions.{ok, event_result, value}
use event_pipeline.Pipe.{pipe_pointer, parallelism, is_parallelism}
use event_pipeline.Task.{
  Task, Heap, new_task, get_root, root_within, get_pointer_type, pointer_from,
}
use event_pipeline.Context.{Context, new_context}
use event_pipeline.Execution.{gather, profiles_of}
use event_pipeline.Execution.Parallel.{is_parallel_execution_node}
use event_pipeline.Submission.{
  Prepared, event_execution_init, event_execution_start, Values, Executors, add_event,
  gather_executors, submit_events, execute_groups, init_and_execute_events, merge, merge_entry,
}
use event_pipeline.Submission.Grouping.{Asked, asked, all_ok, started, init_and_execute_events-Perm}
use event_pipeline.Submission.Configs.{init_and_execute_events-Made}
use event_pipeline.Submission.Previous.{
  results, previous_result, pointer_type, parallel_parent, climb, IsJoined, IsRooted,
  previous_result-gather,
}

-- Values are numbers, and the value 9 is EMPTY.
abbrev numbers : Values ℕ
numbers = record { same = nat_beq; is_empty = nat_beq 9; numeric = λ n. some n; of_int = λ n. n }

abbrev Future : Type 0
Future = ℕ × Dict String ℕ × ℕ × String

abbrev executors : Executors ℕ String ℕ Future ℕ
executors x context = ok (λ event args. ok (x, context, event, args))

abbrev task_of : ℕ → ℕ → Dict String ℕ → String → Prepared ℕ String ℕ
task_of x event context args = record {
  executor = x;
  event = event;
  context = context;
  call_args = args;
}

abbrev one : Prepared ℕ String ℕ
one = task_of 7 1 (("max_workers", 4) ∷ []) "a"

abbrev two : Prepared ℕ String ℕ
two = task_of 8 2 [] "b"

abbrev three : Prepared ℕ String ℕ
three = task_of 7 3 (("max_workers", 6) ∷ []) "c"

abbrev four_workers : Dict String ℕ
four_workers = ("max_workers", 4) ∷ []

-- The second event of the executor 7 asks for six workers and gets four.
grouped : init_and_execute_events numbers executors (ok one ∷ ok two ∷ ok three ∷ []) ≡ (
  ok ((7, four_workers, 1, "a") ∷ (7, four_workers, 3, "c") ∷ (8, [], 2, "b") ∷ []),
  event_execution_init 1 7
      ∷ event_execution_init 2 8
      ∷ event_execution_init 3 7
      ∷ event_execution_start 1
      ∷ event_execution_start 3
      ∷ event_execution_start 2
      ∷ [],
)
unfolding init_and_execute_events gather_executors add_event execute_groups submit_events lookup
    insert merge merge_entry
grouped = refl

-- Where the first event asks for nothing, the numbers that a later one asks for are taken.
merged : merge numbers (("port", 9) ∷ ("max_workers", 6) ∷ []) [] ≡ ("max_workers", 6) ∷ []
unfolding merge merge_entry lookup insert
merged = refl

abbrev about : Future → Asked ℕ String
about f = (f.0, f.2, f.3)

abbrev tasks : List (Prepared ℕ String ℕ)
tasks = one ∷ two ∷ three ∷ []

init_and_execute_events-Perm_example :
    (fs : List Future) × (init_and_execute_events numbers executors (all_ok tasks) ≡ (
      ok fs,
      event_execution_init 1 7
          ∷ event_execution_init 2 8
          ∷ event_execution_init 3 7
          ∷ started (map about fs),
    ))
    × Perm (map about fs) (map asked tasks)
init_and_execute_events-Perm_example =
    init_and_execute_events-Perm executors (λ x context event args. (x, context, event, args))
      (λ x context. refl) about (λ x context event args. refl) numbers tasks

init_and_execute_events-Made_example :
    (fs : List Future) × ((init_and_execute_events numbers executors (all_ok tasks)).0 ≡ ok fs)
    × All (λ f. (f.0 == 7) ≡ true → f.1 ≡ four_workers) fs
init_and_execute_events-Made_example =
    init_and_execute_events-Made executors (λ x context event args. (x, context, event, args))
      (λ x context. refl) (λ f. (f.0, f.1)) (λ x context event args. refl) numbers [] one
      (two ∷ three ∷ []) ("max_workers", 4) [] refl refl

-- `C |-> A || B`
abbrev triple : Heap
triple =
    record (new_task "C") { on_success_event = some 1; on_success_pipe = some pipe_pointer }
    ∷ record (new_task "A") {
      parent_node = some 0;
      on_success_event = some 2;
      on_success_pipe = some parallelism;
    }
    ∷ record (new_task "B") { parent_node = some 1 }
    ∷ []

triple-IsJoined : IsJoined triple
triple-IsJoined zero j t found parallel next =
    cc (ap (λ (u : Task). is_parallelism u.on_success_pipe) (some_inj found), parallel)
triple-IsJoined (suc zero) j t found parallel next =
    let same : some 2 ≡ some j = ap (λ (u : Task). u.on_success_event) (some_inj found) ∙ next in
    subst (λ (k : ℕ). (t' : Task) × (get_elem? triple k ≡ some t') × (t'.parent_node ≡ some 1))
      (some_inj same) (record (new_task "B") { parent_node = some 1 }, refl, refl)
triple-IsJoined (suc (suc zero)) j t found parallel next =
    cc (ap (λ (u : Task). is_parallelism u.on_success_pipe) (some_inj found), parallel)
triple-IsJoined (suc (suc (suc i))) j t found parallel next = cc found

triple-IsRooted : IsRooted triple
unfolding get_root root_within
triple-IsRooted zero inside = (0, refl)
triple-IsRooted (suc zero) inside = (0, refl)
triple-IsRooted (suc (suc zero)) inside = (0, refl)
triple-IsRooted (suc (suc (suc i))) inside = absurd (omega arith)

abbrev after_c : Context ℕ
after_c = record (new_context (0 ∷ []) none) {
  execution_result = event_result false (value 5) "C" "C" ∷ [];
}

-- B is joined to A by `||`, and gets the results of C all the same.
results_for_b : previous_result triple 2 (some after_c) ≡ results after_c.execution_result
unfolding previous_result pointer_type parallel_parent climb is_parallel_execution_node
    get_pointer_type pointer_from
results_for_b = refl

previous_result-gather_example :
    All
      (λ k. previous_result triple k (some after_c) ≡ previous_result triple 1 (some after_c))
      (profiles_of (gather 3 triple 1))
previous_result-gather_example =
    previous_result-gather triple triple-IsJoined triple-IsRooted (some after_c) 1
