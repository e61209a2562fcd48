-- ===== src/Exceptions.antt =====
-- nexus/exceptions.py, and the results (nexus/result.py, `EventResult`) that exceptions carry.
-- `V` is the type of the values that an event computes, of which the library knows nothing.
use event_pipeline.Prelude.{ℕ, String, Bool, Option}
use event_pipeline.Prelude.Dict.{Dict}

mutual
  -- The exceptions that the event machinery tells apart, all of them instances of Exception: a
  -- SystemExit or a KeyboardInterrupt has no place here. `stop_processing` is what an event raises to
  -- stop, `pipeline_exception` any other PipelineError, with its class, its message and its `params`,
  -- and `raised` an exception of any other class, which has neither `params` nor `to_dict`.
  pub data Exn (V : Type 0) : Type 0 where
    raised : (klass message : String) → Exn V
    pipeline_exception :
        (klass : String) (message : Content V) (params : Option (Dict String String)) → Exn V
    max_retry : (attempt : ℕ) (exception : Content V) → Exn V
    stop_processing : (message exception : Content V) (event_name task_id : String) → Exn V
    switch_task : (current_task_id : String) (next : ℕ) (result : EventResult V) → Exn V

  -- What stands in `EventResult.content` and in the fields of exceptions. `skipped` is the dict
  -- that a bypassed event reports, and `error_dict` what PipelineError.to_dict returns, without its
  -- code and its params.
  pub data Content (V : Type 0) : Type 0 where
    nothing : Content V
    value : V → Content V
    text : String → Content V
    exception : Exn V → Content V
    skipped : Content V → Content V
    error_dict : (error_class : String) (message : Content V) → Content V

  pub data EventResult (V : Type 0) : Type 0 where
    event_result :
        (error : Bool) (content : Content V) (task_id event_name : String) → EventResult V

-- A call that returns or raises.
pub data Attempt (V A : Type 0) : Type 0 where
  ok : A → Attempt V A
  raise : Exn V → Attempt V A

module _ {V : Type 0} where
  -- exc.__class__.__name__
  unfoldable pub klass : Exn V → String
  klass (raised k m) = k
  klass (pipeline_exception k m p) = k
  klass (max_retry n c) = "MaxRetryError"
  klass (stop_processing m c e t) = "StopProcessingError"
  klass (switch_task t n r) = "SwitchTask"

  abbrev pub is_error : EventResult V → Bool
  is_error (event_result e c t n) = e

  abbrev pub content : EventResult V → Content V
  content (event_result e c t n) = c
