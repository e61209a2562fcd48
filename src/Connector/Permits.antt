-- ===== src/Connector/Permits.antt =====
-- The semaphore of PooledConnectorManager (nexus/mixins/utils/connector.py) and the users' side of it.
use event_pipeline.Prelude.{
  ℕ, zero, suc, ◌+◌, ◌≤◌, ◌<◌, ◌⊎◌, ◌≡◌, refl, ◌∙◌, Bool, true, false, Option, none, some, [], ◌∷◌,
  arith, comparable_nat, inl, inr, Option-cases, Bool-cases, ltb, if◌then◌else◌,
}
use event_pipeline.Prelude.Dict.{Dict, lookup, remove, has}
use event_pipeline.Connector.{
  Pool, Reply, gives, raises, Failure, Backend, get_available_connection, create_new_connection,
  get_connection, put_back, release_connection, release_permit, drop_unhealthy, check_out,
  pop_available, or_release, found_or_created, with_permit, Try, Pass, ended, finally,
  with_connection, attempt, execute_attempts, execute_with_retry,
}

-- The semaphore is as it was.
pub record SamePermits (p q : Pool) : Type 0 where
  pub permits : q.permits ≡ p.permits
  pub max_connections : q.max_connections ≡ p.max_connections

if-SamePermits :
    (b : Bool) (p q r : Pool)
    → SamePermits p q
    → SamePermits p r
    → SamePermits p (if b then q else r)
if-SamePermits true p q r i j = i
if-SamePermits false p q r i j = j

drop_unhealthy-SamePermits : (c : ℕ) (p : Pool) → SamePermits p (drop_unhealthy c p)
unfolding drop_unhealthy
drop_unhealthy-SamePermits c p =
    if-SamePermits (has c p.connection_pool) p _ p
      (record { permits = refl; max_connections = refl })
      (record { permits = refl; max_connections = refl })

check_out-SamePermits :
    (b : Backend) (c : ℕ) (o : Option ℕ) (p : Pool) → SamePermits p (check_out b c o p).1
unfolding check_out
check_out-SamePermits b c none p = drop_unhealthy-SamePermits c p
check_out-SamePermits b c (some x) p = elim (Bool-cases (b.is_healthy x)) [
  | inl e ↦ rw e (record { permits = refl; max_connections = refl })
  | inr e ↦ rw e (drop_unhealthy-SamePermits c p)
]

pop_available-SamePermits :
    (b : Backend) (a : Dict ℕ (Unit {0})) (p : Pool) → SamePermits p (pop_available b a p).1
unfolding pop_available
pop_available-SamePermits b [] p = record { permits = refl; max_connections = refl }
pop_available-SamePermits b ((c, _) ∷ a) p =
    let s =
      check_out-SamePermits b c (lookup c p.connection_pool)
        (record p { available_connections = remove c p.available_connections }) in
    record { permits = s.permits; max_connections = s.max_connections }

create_new_connection-SamePermits :
    (b : Backend) (p : Pool) → SamePermits p (create_new_connection b p).1
unfolding create_new_connection
create_new_connection-SamePermits b p = elim (Option-cases b.makes) [
  | inl e ↦ rw e (record { permits = refl; max_connections = refl })
  | inr (c, e) ↦ rw e (record { permits = refl; max_connections = refl })
]

put_back-SamePermits : (now c : ℕ) (p : Pool) → SamePermits p (put_back now c p)
unfolding put_back
put_back-SamePermits now c p = elim (Option-cases (lookup c p.connection_stats)) [
  | inl e ↦ rw (e, put_back) (record { permits = refl; max_connections = refl })
  | inr (s, e) ↦ rw (e, put_back) (record { permits = refl; max_connections = refl })
]

-- A connection costs a permit, and a failure costs none.
abbrev Fetched : Pool → Reply ℕ × Pool → Type 0
Fetched p (gives c, q) = (q.permits + 1 ≡ p.permits) × (q.max_connections ≡ p.max_connections)
Fetched p (raises e, q) = SamePermits p q

abbrev IsFree : Pool → Type 0
IsFree p = p.permits ≤ p.max_connections

or_release-Fetched :
    (p : Pool) (r : Reply ℕ × Pool)
    → IsFree p
    → r.1.permits + 1 ≡ p.permits
    → r.1.max_connections ≡ p.max_connections
    → Fetched p (or_release r)
or_release-Fetched p (gives c, q) free e m = (e, m)
or_release-Fetched p (raises x, q) free e m = elim (Bool-cases (ltb q.permits q.max_connections)) [
  | inl room ↦ rw room (record { permits = e; max_connections = m })
  | inr full ↦ absurd (ground arith)
]

found_or_created-Fetched :
    (b : Backend) (p : Pool) (r : Option ℕ × Pool)
    → IsFree p
    → r.1.permits + 1 ≡ p.permits
    → r.1.max_connections ≡ p.max_connections
    → Fetched p (found_or_created b r)
unfolding found_or_created
found_or_created-Fetched b p (some c, q) free e m = (e, m)
found_or_created-Fetched b p (none, q) free e m =
    let s = create_new_connection-SamePermits b q in
    or_release-Fetched p (create_new_connection b q) free (omega (arith, s.permits))
      (s.max_connections ∙ m)

with_permit-Fetched :
    (b : Backend) (n : ℕ) (p : Pool) → IsFree p → n ≡ p.permits → Fetched p (with_permit b n p)
unfolding with_permit get_available_connection
with_permit-Fetched b zero p free e = record { permits = refl; max_connections = refl }
with_permit-Fetched b (suc n) p free e =
    let s = pop_available-SamePermits b p.available_connections (record p { permits = n }) in
    found_or_created-Fetched b p (get_available_connection b (record p { permits = n })) free
      (omega (arith, s.permits)) s.max_connections

get_connection-Fetched : (b : Backend) (p : Pool) → IsFree p → Fetched p (get_connection b p)
unfolding get_connection
get_connection-Fetched b p free = with_permit-Fetched b p.permits p free refl

-- A permit that was taken can be given back.
Returned : Pool → Reply (Unit {0}) × Pool → Type 0
Returned p r =
    (r.0 ≡ gives tt) × (r.1.permits ≡ p.permits + 1) × (r.1.max_connections ≡ p.max_connections)

release_permit-Returned :
    (p q : Pool) → SamePermits p q → p.permits < p.max_connections → Returned p (release_permit q)
unfolding Returned
release_permit-Returned p q same room = elim (Bool-cases (ltb q.permits q.max_connections)) [
  | inl e ↦ rw e (refl, omega (arith, same.permits), same.max_connections)
  | inr full ↦ absurd (ground (arith, same.permits, same.max_connections))
]

release_connection-Returned :
    (now c : ℕ) (p : Pool) → p.permits < p.max_connections → Returned p (release_connection now c p)
unfolding release_connection
release_connection-Returned now c p room =
    release_permit-Returned p (put_back now c p) (put_back-SamePermits now c p) room

module _ {A : Type 0} where
  Reply-cases : (r : Reply A) → ((a : A) × (r ≡ gives a)) ⊎ ((e : Failure) × (r ≡ raises e))
  Reply-cases (gives a) = inl (a, refl)
  Reply-cases (raises e) = inr (e, refl)

  -- The `finally` raises nothing, and the semaphore is as before.
  abbrev Balanced : Pool → Pass A × Pool → Type 0
  Balanced p r = (reply : Reply A) × (r.0 ≡ ended reply) × SamePermits p r.1

  finally-Balanced :
      (p q : Pool) (reply : Reply A) (r : Reply (Unit {0}) × Pool)
      → Returned q r
      → q.permits + 1 ≡ p.permits
      → q.max_connections ≡ p.max_connections
      → Balanced p (finally reply r)
  unfolding Returned
  finally-Balanced p q reply (gives _, p') (e, n, m) before bound =
      (reply, refl, record { permits = omega arith; max_connections = m ∙ bound })
  finally-Balanced p q reply (raises x, p') (e, n, m) before bound = cc

  with_connection-Balanced :
      (t : Try A) (p : Pool) (r : Reply ℕ × Pool)
      → IsFree p
      → Fetched p r
      → Balanced p (with_connection t r)
  with_connection-Balanced t p (raises e, q) free same = (raises e, refl, same)
  with_connection-Balanced t p (gives c, q) free (taken, bound) =
      finally-Balanced p q (t.method c) (release_connection t.released_at c q)
        (release_connection-Returned t.released_at c q (omega arith)) taken bound

  attempt-Balanced : (t : Try A) (p : Pool) → IsFree p → Balanced p (attempt t p)
  unfolding attempt
  attempt-Balanced t p free =
      with_connection-Balanced t p (get_connection t.backend p) free
        (get_connection-Fetched t.backend p free)

  attempts-SamePermits :
      (left : ℕ) (world : ℕ → Try A) (last : Option Failure) (p : Pool)
      → IsFree p
      → SamePermits p (execute_attempts left world last p).1
  unfolding execute_attempts
  attempts-SamePermits zero world none p free = record { permits = refl; max_connections = refl }
  attempts-SamePermits zero world (some e) p free = record {
    permits = refl;
    max_connections = refl;
  }
  attempts-SamePermits (suc left) world last p free =
      let (reply, e, same) = attempt-Balanced (world left) p free in
      elim (Reply-cases reply) [
        | inl (a, given) ↦ rw (e, execute_attempts) (rw given same)
        | inr (x, raised) ↦
            let rest =
              attempts-SamePermits left world (some x) (attempt (world left) p).1
                (omega (arith, same.permits, same.max_connections)) in
            rw (e, execute_attempts)
              (rw raised (record {
                permits = rest.permits ∙ same.permits;
                max_connections = rest.max_connections ∙ same.max_connections;
              }))
      ]

-- Where the semaphore is within its bound, however the connections, the health checks and the method behave in each attempt, execute_with_retry leaves as many permits in the semaphore as it found, on every path: a result, an exception of the last attempt, a connection that cannot be made.
pub execute_with_retry-SamePermits :
    {A : Type 0} (world : ℕ → Try A) (p : Pool)
    → p.permits ≤ p.max_connections
    → SamePermits p (execute_with_retry world p).1
unfolding execute_with_retry
execute_with_retry-SamePermits world p free =
    attempts-SamePermits p.retry_attempts world none p free

Fetched-cases :
    (p : Pool) (r : Reply ℕ × Pool)
    → Fetched p r
    → ((c : ℕ) × (r.0 ≡ gives c) × (r.1.permits + 1 ≡ p.permits))
      ⊎ ((e : Failure) × (r.0 ≡ raises e) × (r.1.permits ≡ p.permits))
Fetched-cases p (gives c, q) (taken, bound) = inl (c, refl, taken)
Fetched-cases p (raises e, q) same = inr (e, refl, same.permits)

-- Where the semaphore is within its bound, a fetch takes exactly one permit when it gives a connection, and none when it fails, by a timeout or because no connection can be made.
pub get_connection_permits :
    (b : Backend) (p : Pool)
    → p.permits ≤ p.max_connections
    → ((c : ℕ) × ((get_connection b p).0 ≡ gives c)
        × ((get_connection b p).1.permits + 1 ≡ p.permits))
      ⊎ ((e : Failure) × ((get_connection b p).0 ≡ raises e)
          × ((get_connection b p).1.permits ≡ p.permits))
get_connection_permits b p free =
    Fetched-cases p (get_connection b p) (get_connection-Fetched b p free)
