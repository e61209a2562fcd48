-- ===== src/Samples/Services.antt =====
-- Tests of the connection pool, the signals, the in-memory store and the result sets.
use event_pipeline.Prelude.{
  ℕ, String, ◌≡◌, refl, Bool, true, false, some, List, [], ◌∷◌, arith, comparable_nat,
  comparable_string,
}
use event_pipeline.Prelude.Dict.{lookup, has, insert, remove}
use event_pipeline.Exceptions.{Attempt, ok}
use event_pipeline.Connector.{
  Pool, new_pool, Backend, raises, Failure, Try, execute_with_retry, cleanup_idle_connections,
}
use event_pipeline.Connector.Bookkeeping.{
  IsPool, fetch, give_back, clean, close, acts, history-IsPool,
}
use event_pipeline.Connector.Permits.{SamePermits, execute_with_retry-SamePermits}
use event_pipeline.Connector.Cleanup.{cleanup_keeps}
use event_pipeline.Signal.{nobody, object, connect, disconnect, emit}
use event_pipeline.Signal.Delivery.{heard, disconnect_keeps_generic}
use event_pipeline.Monitor.{
  new_monitor, PipelineSignal, pipeline_started, pipeline_ended, handle_all,
}
use event_pipeline.Monitor.Metrics.{IsBalanced, history-IsBalanced}
use event_pipeline.Store.{Memory}
use event_pipeline.Store.Contract.{
  put, delete, get, test, done, missing, tells, all_performed, store_refines,
}
use event_pipeline.ResultSet.{ResultSet}

abbrev backend : Backend
backend = record { makes = some 41; is_healthy = λ c. true; now = 5 }

-- The method fails at every attempt.
abbrev failing : ℕ → Try ℕ
failing n = record {
  backend = backend;
  method = λ c. raises (Failure.method_error 1);
  released_at = 6;
}

-- One connection in use since the time 5.
abbrev in_use : Pool
in_use = record (new_pool 2 100 3) {
  connection_pool = (41, 41) ∷ [];
  connection_stats = (41, record { created_at = 5; last_used_at = 5; use_count = 0 }) ∷ [];
  permits = 1;
}

history-IsPool_example : IsPool (
    acts
      (fetch backend ∷ give_back 9 41 ∷ fetch backend ∷ clean 1000 ∷ give_back 1001 41 ∷ close ∷ [])
      (new_pool 2 100 3))
history-IsPool_example =
    history-IsPool
      (fetch backend ∷ give_back 9 41 ∷ fetch backend ∷ clean 1000 ∷ give_back 1001 41 ∷ close ∷ [])
      2 100 3

execute_with_retry-SamePermits_example : SamePermits in_use (execute_with_retry failing in_use).1
execute_with_retry-SamePermits_example = execute_with_retry-SamePermits failing in_use (omega arith)

-- The connection is in use, and the clean-up drops it.
cleanup_keeps_example : has 41 (cleanup_idle_connections 1000 in_use).connection_pool ≡ false
unfolding lookup has
cleanup_keeps_example = cleanup_keeps 1000 41 in_use (refl, tt) refl

abbrev live : ℕ → Bool
live l = true

abbrev replies : ℕ → Attempt ℕ ℕ
replies l = ok l

disconnect_keeps_generic_example :
    heard live replies 3
      (emit live replies (object 1) (disconnect live (object 7) 3 (connect nobody 3 [])))
    ≡ true
disconnect_keeps_generic_example =
    disconnect_keeps_generic live replies (object 7) (object 1) 3 [] (λ e. cc)

abbrev memory : Memory ℕ
memory = ("results", ("a", ("size", 3) ∷ []) ∷ []) ∷ []

store_refines_example :
    all_performed
      (put "results" "b" (("size", 4) ∷ [])
        ∷ delete "results" "a"
        ∷ get "results" "a"
        ∷ test "results" "b"
        ∷ [])
      memory
    ≡ done ∷ done ∷ missing ∷ tells true ∷ []
unfolding lookup
store_refines_example =
    store_refines
      (put "results" "b" (("size", 4) ∷ [])
        ∷ delete "results" "a"
        ∷ get "results" "a"
        ∷ test "results" "b"
        ∷ [])
      memory

abbrev name_of : String → String
name_of s = s

abbrev type_of : String → ℕ
type_of s = 0

abbrev one : ResultSet String ℕ
one = record { content = ("a", "a") ∷ []; context_types = 0 ∷ [] }

-- One pipeline completes, another fails, and a third is active.
abbrev three_pipelines : List PipelineSignal
three_pipelines =
    pipeline_started 1 10
    ∷ pipeline_started 2 11
    ∷ pipeline_ended 1 20 (some false) false
    ∷ pipeline_started 3 21
    ∷ pipeline_ended 2 30 (some true) false
    ∷ []

history-IsBalanced_example : IsBalanced (handle_all three_pipelines new_monitor)
unfolding has insert remove
history-IsBalanced_example =
    history-IsBalanced three_pipelines (refl, (refl, (refl, (refl, (refl, tt)))))
