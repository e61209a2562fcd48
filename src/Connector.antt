-- ===== src/Connector.antt =====
-- nexus/mixins/utils/connector.py: PooledConnectorManager. A connection is the number that id()
-- gives it. The connector class and the clock are outside: a connection that it makes, its answer to
-- a health check and the time are arguments. A time is a natural number.
pub mod Bookkeeping
pub mod Permits
pub mod Cleanup
pub mod Sharing
use event_pipeline.Prelude.{
  ℕ, zero, suc, ◌+◌, ◌-◌, Bool, true, false, ltb, if◌then◌else◌, Option, none, some, List, [], ◌∷◌,
  comparable_nat,
}
use event_pipeline.Prelude.Dict.{Dict, lookup, insert, remove, has}

pub record ConnectionStats : Type 0 where
  pub created_at : ℕ
  pub last_used_at : ℕ
  pub use_count : ℕ

-- `permits` is what the bounded semaphore has left, and `closed` lists the connections that were
-- closed, the last one first. The set of available connections has them as its keys.
pub record Pool : Type 0 where
  pub max_connections : ℕ
  pub idle_timeout : ℕ
  pub retry_attempts : ℕ
  pub connection_pool : Dict ℕ ℕ
  pub connection_stats : Dict ℕ ConnectionStats
  pub available_connections : Dict ℕ (Unit {0})
  pub permits : ℕ
  pub running : Bool
  pub closed : List ℕ

-- PooledConnectorManager.__init__
abbrev pub new_pool : (max_connections idle_timeout retry_attempts : ℕ) → Pool
new_pool max idle attempts = record {
  max_connections = max;
  idle_timeout = idle;
  retry_attempts = attempts;
  connection_pool = [];
  connection_stats = [];
  available_connections = [];
  permits = max;
  running = true;
  closed = [];
}

pub data Failure : Type 0 where
  connection_error value_error : Failure
  method_error : ℕ → Failure

pub data Reply (A : Type 0) : Type 0 where
  gives : A → Reply A
  raises : Failure → Reply A

abbrev close_connection : ℕ → Pool → Pool
close_connection c p = record p { closed = c ∷ p.closed }

-- What the connector class does while a connection is fetched: the connection that it makes, if
-- it makes one, the connections that are healthy, and the time.
pub record Backend : Type 0 where
  pub makes : Option ℕ
  pub is_healthy : ℕ → Bool
  pub now : ℕ

-- The removal of a connection that is not healthy.
unfoldable pub drop_unhealthy : ℕ → Pool → Pool
drop_unhealthy c p =
    if has c p.connection_pool
    then record p {
      connection_pool = remove c p.connection_pool;
      connection_stats = remove c p.connection_stats;
      closed = c ∷ p.closed;
    }
    else p

-- The connection under the id that was popped.
unfoldable pub check_out : Backend → ℕ → Option ℕ → Pool → Option ℕ × Pool
unfolding drop_unhealthy
check_out b c none p = (none, drop_unhealthy c p)
check_out b c (some connection) p =
    if b.is_healthy connection then (some connection, p) else (none, drop_unhealthy c p)

-- `set.pop` takes any element: the first key here, as the order of the keys is not fixed.
unfoldable pub pop_available : Backend → Dict ℕ (Unit {0}) → Pool → Option ℕ × Pool
unfolding check_out
pop_available b [] p = (none, p)
pop_available b ((c, _) ∷ _) p =
    check_out b c (lookup c p.connection_pool)
      (record p { available_connections = remove c p.available_connections })

-- _get_available_connection
unfoldable pub get_available_connection : Backend → Pool → Option ℕ × Pool
unfolding pop_available
get_available_connection b p = pop_available b p.available_connections p

abbrev pub fresh_stats : ℕ → ConnectionStats
fresh_stats now = record { created_at = now; last_used_at = now; use_count = 0 }

unfoldable pub create_new_connection : Backend → Pool → Reply ℕ × Pool
create_new_connection b p = elim b.makes [
  | none ↦ (raises connection_error, p)
  | some c ↦ (
    gives c,
    record p {
      connection_pool = insert c c p.connection_pool;
      connection_stats = insert c (fresh_stats b.now) p.connection_stats;
    },
  )
]

-- BoundedSemaphore.release
abbrev pub release_permit : Pool → Reply (Unit {0}) × Pool
release_permit p =
    if ltb p.permits p.max_connections
    then (gives tt, record p { permits = p.permits + 1 })
    else (raises value_error, p)

-- The `except` of get_connection.
abbrev pub or_release : Reply ℕ × Pool → Reply ℕ × Pool
or_release (gives c, p) = (gives c, p)
or_release (raises e, p) = (raises connection_error, (release_permit p).1)

unfoldable pub found_or_created : Backend → Option ℕ × Pool → Reply ℕ × Pool
unfolding create_new_connection
found_or_created b (some c, p) = (gives c, p)
found_or_created b (none, p) = or_release (create_new_connection b p)

-- Without a permit the wait for one ends by its timeout.
unfoldable pub with_permit : Backend → ℕ → Pool → Reply ℕ × Pool
unfolding get_available_connection found_or_created
with_permit b zero p = (raises connection_error, p)
with_permit b (suc n) p = found_or_created b (get_available_connection b (record p { permits = n }))

unfoldable pub get_connection : Backend → Pool → Reply ℕ × Pool
unfolding with_permit
get_connection b p = with_permit b p.permits p

abbrev pub used : ℕ → ConnectionStats → ConnectionStats
used now s = record s { last_used_at = now; use_count = s.use_count + 1 }

unfoldable pub put_back : ℕ → ℕ → Pool → Pool
put_back now c p = elim (lookup c p.connection_stats) [
  | none ↦ close_connection c p
  | some s ↦ record p {
    connection_stats = insert c (used now s) p.connection_stats;
    available_connections = insert c tt p.available_connections;
  }
]

-- release_connection
unfoldable pub release_connection : (now connection : ℕ) → Pool → Reply (Unit {0}) × Pool
unfolding put_back
release_connection now c p = release_permit (put_back now c p)

abbrev pub is_idle : ℕ → ℕ → ConnectionStats → Bool
is_idle now timeout s = ltb timeout (now - s.last_used_at)

abbrev pub idle_ids : ℕ → ℕ → Dict ℕ ConnectionStats → List ℕ
idle_ids now timeout [] = []
idle_ids now timeout ((c, s) ∷ m) =
    if is_idle now timeout s then c ∷ idle_ids now timeout m else idle_ids now timeout m

unfoldable pub drop_idle : ℕ → Pool → Pool
drop_idle c p = elim (lookup c p.connection_pool) [
  | none ↦ p
  | some connection ↦ record p {
    connection_pool = remove c p.connection_pool;
    connection_stats = remove c p.connection_stats;
    available_connections = remove c p.available_connections;
    closed = connection ∷ p.closed;
  }
]

unfoldable pub drop_all : List ℕ → Pool → Pool
unfolding drop_idle
drop_all [] p = p
drop_all (c ∷ cs) p = drop_all cs (drop_idle c p)

-- One round of the loop of _cleanup_idle_connections, after its sleep.
unfoldable pub cleanup_idle_connections : ℕ → Pool → Pool
unfolding drop_all
cleanup_idle_connections now p =
    if p.running then drop_all (idle_ids now p.idle_timeout p.connection_stats) p else p

abbrev pub close_all : Dict ℕ ℕ → List ℕ → List ℕ
close_all [] closed = closed
close_all ((_, c) ∷ m) closed = close_all m (c ∷ closed)

unfoldable pub shutdown : Pool → Pool
shutdown p =
    if p.running
    then record p {
      running = false;
      connection_pool = [];
      connection_stats = [];
      available_connections = [];
      closed = close_all p.connection_pool p.closed;
    }
    else p

-- What happens in one attempt of execute_with_retry: the fetch of a connection, what the method does
-- with it, and the time at which the connection is released.
pub record Try (A : Type 0) : Type 0 where
  pub backend : Backend
  pub method : ℕ → Reply A
  pub released_at : ℕ

-- How a pass through the `try` ends: with a result or an exception that the loop catches, or by an
-- exception of the `finally`, which leaves the loop.
pub data Pass (A : Type 0) : Type 0 where
  ended : Reply A → Pass A
  escaped : Failure → Pass A

abbrev pub finally : {A : Type 0} → Reply A → Reply (Unit {0}) × Pool → Pass A × Pool
finally reply (gives _, p) = (ended reply, p)
finally reply (raises e, p) = (escaped e, p)

abbrev pub with_connection : {A : Type 0} → Try A → Reply ℕ × Pool → Pass A × Pool
with_connection t (raises e, p) = (ended (raises e), p)
with_connection t (gives c, p) = finally (t.method c) (release_connection t.released_at c p)

-- One pass through the `try` of execute_with_retry with its `finally`.
unfoldable pub attempt : {A : Type 0} → Try A → Pool → Pass A × Pool
unfolding get_connection release_connection
attempt t p = with_connection t (get_connection t.backend p)

-- The attempts that are left; without any the last exception is raised, and None returned if there
-- was no attempt.
unfoldable pub execute_attempts :
    {A : Type 0} → ℕ → (ℕ → Try A) → Option Failure → Pool → Reply (Option A) × Pool
unfolding attempt
execute_attempts zero world none p = (gives none, p)
execute_attempts zero world (some e) p = (raises e, p)
execute_attempts {A} (suc left) world last p =
    let (result, p') = attempt (world left) p in
    let again : Failure → Reply (Option A) × Pool = λ e. execute_attempts left world (some e) p' in
    elim result [
      | escaped e ↦ (raises e, p')
      | ended reply ↦ elim reply [ gives a ↦ (gives (some a), p') | raises e ↦ again e ]
    ]

unfoldable pub execute_with_retry : {A : Type 0} → (ℕ → Try A) → Pool → Reply (Option A) × Pool
unfolding execute_attempts
execute_with_retry world p = execute_attempts p.retry_attempts world none p
