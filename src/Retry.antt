-- ===== src/Retry.antt =====
-- nexus/base.py: RetryPolicy and _RetryMixin. Times are whole hundredths of a second, so that the
-- default factor 0.05 is 5 and the default limit 100 is 10000.
pub mod Backoff
pub mod Loop
pub mod Attempts
use event_pipeline.Prelude.{
  ℕ, zero, suc, ◌+◌, ◌-◌, ◌*◌, ◌^◌, min, String, Bool, true, false, ◌||◌, Option, none, some, List,
  [], ◌∷◌, ◌++◌, leb, any, ◌==◌, comparable_string, if◌then◌else◌,
}
use event_pipeline.Exceptions.{
  Exn, Content, max_retry, nothing, exception, Attempt, ok, raise, klass,
}

pub record RetryPolicy : Type 0 where
  pub max_attempts : ℕ
  pub backoff_factor : ℕ
  pub max_backoff : ℕ
  -- `none` stands for a `None` in the list.
  pub retry_on_exceptions : List (Option String)

abbrev pub default_backoff_factor : ℕ
default_backoff_factor = 5

abbrev pub default_max_backoff : ℕ
default_max_backoff = 10000

-- config_retry_policy(max_attempts=n) with its other arguments left out
unfoldable pub config_retry_policy : ℕ → RetryPolicy
config_retry_policy n = record {
  max_attempts = n;
  backoff_factor = default_backoff_factor;
  max_backoff = default_max_backoff;
  retry_on_exceptions = [];
}

-- The signals that `retry` emits, with what they carry.
pub data RetrySignal : Type 0 where
  event_execution_retry : (backoff retry_count max_attempts : ℕ) → RetrySignal
  event_execution_retry_done : (max_attempts : ℕ) → RetrySignal

-- What `retry` changes: `_retry_count`, the number of calls of the retried function, the signals
-- emitted (oldest first), and the time slept.
pub record RetryState : Type 0 where
  pub retry_count : ℕ
  pub calls : ℕ
  pub signals : List RetrySignal
  pub slept : ℕ

abbrev pub fresh : RetryState
fresh = record { retry_count = 0; calls = 0; signals = []; slept = 0 }

unfoldable pub get_backoff_time : Option RetryPolicy → ℕ → ℕ
get_backoff_time none count = 0
get_backoff_time (some p) count =
    if leb count 1 then 0 else min (p.backoff_factor * 2 ^ (count - 1)) p.max_backoff

-- The sleep, and what `_sleep_for_backoff` returns.
unfoldable pub sleep_for_backoff : Option RetryPolicy → RetryState → ℕ × RetryState
unfolding get_backoff_time
sleep_for_backoff policy s =
    let backoff = get_backoff_time policy s.retry_count in
    if leb backoff 0 then (0, s) else (backoff, record s { slept = s.slept + backoff })

abbrev is_empty : List (Option String) → Bool
is_empty [] = true
is_empty (x ∷ xs) = false

module _ {V : Type 0} where
  abbrev named : Exn V → Option String → Bool
  named e none = false
  named e (some k) = klass e == k

  -- A class is known by its name, so `isinstance` and the equality of names are one test, and every
  -- exception here is an instance of Exception.
  unfoldable pub is_retryable : Option RetryPolicy → Exn V → Bool
  unfolding klass
  is_retryable none e = false
  is_retryable (some p) e = is_empty p.retry_on_exceptions || any (named e) p.retry_on_exceptions

-- What `retry` hands back: the pair of the process, the `None` of a loop left by `break`, or an
-- exception.
pub data Retried (V : Type 0) : Type 0 where
  returned : Bool → Content V → Retried V
  returned_none : Retried V
  raised_exn : Exn V → Retried V

unfoldable pub is_exhausted : Option RetryPolicy → RetryState → Bool
is_exhausted none s = true
is_exhausted (some p) s = leb p.max_attempts s.retry_count

module _ {V : Type 0} (p : RetryPolicy) (func : ℕ → Attempt V (Bool × Content V)) where
  -- `exception_causing_retry`: the first one stays.
  abbrev pub first_cause : Content V → Exn V → Content V
  first_cause nothing e = exception e
  first_cause c e = c

  -- The body of the retryable `except` branch: back off, then emit.
  unfoldable pub after_failure : RetryState → RetryState
  unfolding sleep_for_backoff
  after_failure s =
      let (backoff, s') = sleep_for_backoff (some p) s in
      record s' {
        signals = s'.signals ++ event_execution_retry backoff s'.retry_count p.max_attempts ∷ [];
      }

  abbrev pub count_call : RetryState → RetryState
  count_call s = record s { retry_count = s.retry_count + 1; calls = s.calls + 1 }

  unfoldable pub give_up : RetryState → Content V → Retried V × RetryState
  give_up s cause = (
    raised_exn (max_retry s.retry_count cause),
    record s { signals = s.signals ++ event_execution_retry_done p.max_attempts ∷ [] },
  )

  -- `except MaxRetryError: break`, `except Exception: continue or raise`; `again` is the next round.
  abbrev pub after_call :
      Attempt V (Bool × Content V)
      → RetryState
      → Content V
      → (RetryState → Content V → Option (Retried V × RetryState))
      → Option (Retried V × RetryState)
  after_call (ok (status, c)) s cause again = some (returned status c, s)
  after_call (raise (max_retry n c)) s cause again = some (returned_none, s)
  after_call (raise e) s cause again =
      if is_retryable (some p) e
      then again (after_failure s) (first_cause cause e)
      else some (raised_exn e, s)

  -- The `while True` loop of `retry`; `none` says that the fuel ran out.
  unfoldable pub retry_loop : ℕ → RetryState → Content V → Option (Retried V × RetryState)
  unfolding give_up after_failure is_exhausted is_retryable
  retry_loop zero s cause = none
  retry_loop (suc fuel) s cause =
      let round = after_call (func s.calls) (count_call s) cause (retry_loop fuel) in
      if is_exhausted (some p) s then some (give_up s cause) else round

module _ {V : Type 0} where
  abbrev direct : Attempt V (Bool × Content V) → Retried V
  direct (ok (status, c)) = returned status c
  direct (raise e) = raised_exn e

  -- `func k` is what the k-th call of the retried function does, counted from 0.
  unfoldable pub retry :
      Option RetryPolicy
      → (ℕ → Attempt V (Bool × Content V))
      → RetryState
      → Option (Retried V × RetryState)
  retry none func s = some (direct (func s.calls), record s { calls = s.calls + 1 })
  retry (some p) func s = retry_loop p func (suc (p.max_attempts - s.retry_count)) s nothing
