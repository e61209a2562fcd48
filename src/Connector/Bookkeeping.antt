-- ===== src/Connector/Bookkeeping.antt =====
-- The dictionaries and the semaphore of PooledConnectorManager (nexus/mixins/utils/connector.py).
use event_pipeline.Prelude.{
  ℕ, zero, suc, ◌≤◌, ◌≡◌, refl, Bool, true, false, Option, none, some, List, [], ◌∷◌, arith,
  comparable_nat, if◌then◌else◌, ltb, ltb→lt, inl, inr, Option-cases, Bool-cases, nat_beq_iff,
}
use event_pipeline.Prelude.Dict.{Dict, lookup, remove, has, has-lookup, has-insert, has-remove}
use event_pipeline.Connector.{
  Pool, new_pool, Reply, gives, raises, Backend, get_available_connection, create_new_connection,
  get_connection, put_back, release_connection, drop_idle, drop_all, cleanup_idle_connections,
  shutdown, release_permit, drop_unhealthy, check_out, pop_available, or_release, found_or_created,
  with_permit, idle_ids,
}

-- Every connection of the pool has statistics and the other way round, available connections are in the pool, and
-- the semaphore stays within its bound.
pub record IsPool (p : Pool) : Type 0 where
  pub tracked : (c : ℕ) → has c p.connection_stats ≡ has c p.connection_pool
  pub known : (c : ℕ) → has c p.available_connections ≡ true → has c p.connection_pool ≡ true
  pub bounded : p.permits ≤ p.max_connections

if-IsPool : (b : Bool) (p q : Pool) → IsPool p → IsPool q → IsPool (if b then p else q)
if-IsPool true p q i j = i
if-IsPool false p q i j = j

drop_unhealthy-IsPool :
    (c : ℕ) (p : Pool)
    → IsPool p
    → IsPool
        (drop_unhealthy c (record p { available_connections = remove c p.available_connections }))
unfolding drop_unhealthy
drop_unhealthy-IsPool c p i = elim (Bool-cases (has c p.connection_pool)) [
  | inl e ↦
      rw (e, drop_unhealthy)
        (record {
          tracked = λ j. grind (arith, i.tracked j, has-remove);
          known = λ j. grind (arith, i.known j, has-remove);
          bounded = i.bounded;
        })
  | inr e ↦
      rw (e, drop_unhealthy)
        (record {
          tracked = i.tracked;
          known = λ j. grind (arith, i.known j, has-remove);
          bounded = i.bounded;
        })
]

check_out-IsPool :
    (b : Backend) (c : ℕ) (o : Option ℕ) (p : Pool)
    → IsPool p
    → IsPool
        (check_out b c o (record p { available_connections = remove c p.available_connections })).1
unfolding check_out
check_out-IsPool b c none p i = drop_unhealthy-IsPool c p i
check_out-IsPool b c (some x) p i = elim (Bool-cases (b.is_healthy x)) [
  | inl e ↦ rw e (record {
    tracked = i.tracked;
    known = λ j. grind (arith, i.known j, has-remove);
    bounded = i.bounded;
  })
  | inr e ↦ rw e (drop_unhealthy-IsPool c p i)
]

pop_available-IsPool :
    (b : Backend) (a : Dict ℕ (Unit {0})) (p : Pool) → IsPool p → IsPool (pop_available b a p).1
unfolding pop_available
pop_available-IsPool b [] p i = i
pop_available-IsPool b ((c, _) ∷ _) p i = check_out-IsPool b c (lookup c p.connection_pool) p i

get_available_connection-IsPool :
    (b : Backend) (p : Pool) → IsPool p → IsPool (get_available_connection b p).1
unfolding get_available_connection
get_available_connection-IsPool b p i = pop_available-IsPool b p.available_connections p i

create_new_connection-IsPool :
    (b : Backend) (p : Pool) → IsPool p → IsPool (create_new_connection b p).1
unfolding create_new_connection
create_new_connection-IsPool b p i = elim (Option-cases b.makes) [
  | inl e ↦ rw e i
  | inr (c, e) ↦ rw e (record {
    tracked = λ j. grind (arith, i.tracked j, has-insert);
    known = λ j. grind (arith, i.known j, has-insert);
    bounded = i.bounded;
  })
]

put_back-IsPool : (now c : ℕ) (p : Pool) → IsPool p → IsPool (put_back now c p)
unfolding put_back
put_back-IsPool now c p i = elim (Option-cases (lookup c p.connection_stats)) [
  | inl e ↦ rw (e, put_back) (record { tracked = i.tracked; known = i.known; bounded = i.bounded })
  | inr (s, e) ↦
      rw (e, put_back)
        (record {
          tracked = λ j. grind (arith, i.tracked j, i.tracked c, has-insert, has-lookup);
          known = λ j. grind (arith, i.known j, i.tracked c, has-insert, has-lookup, nat_beq_iff);
          bounded = i.bounded;
        })
]

release_permit-IsPool : (p : Pool) → IsPool p → IsPool (release_permit p).1
release_permit-IsPool p i = elim (Bool-cases (ltb p.permits p.max_connections)) [
  | inl e ↦ rw e (record {
    tracked = i.tracked;
    known = i.known;
    bounded = omega (arith, ltb→lt p.permits p.max_connections e);
  })
  | inr e ↦ rw e i
]

drop_idle-IsPool : (c : ℕ) (p : Pool) → IsPool p → IsPool (drop_idle c p)
unfolding drop_idle
drop_idle-IsPool c p i = elim (Option-cases (lookup c p.connection_pool)) [
  | inl e ↦ rw (e, drop_idle) i
  | inr (s, e) ↦
      rw (e, drop_idle)
        (record {
          tracked = λ j. grind (arith, i.tracked j, has-remove);
          known = λ j. grind (arith, i.known j, has-remove);
          bounded = i.bounded;
        })
]

drop_all-IsPool : (cs : List ℕ) (p : Pool) → IsPool p → IsPool (drop_all cs p)
unfolding drop_all
drop_all-IsPool [] p i = i
drop_all-IsPool (c ∷ cs) p i = drop_all-IsPool cs (drop_idle c p) (drop_idle-IsPool c p i)

or_release-IsPool : (r : Reply ℕ × Pool) → IsPool r.1 → IsPool (or_release r).1
or_release-IsPool (gives c, p) i = i
or_release-IsPool (raises e, p) i = release_permit-IsPool p i

found_or_created-IsPool :
    (b : Backend) (r : Option ℕ × Pool) → IsPool r.1 → IsPool (found_or_created b r).1
unfolding found_or_created
found_or_created-IsPool b (some c, p) i = i
found_or_created-IsPool b (none, p) i =
    or_release-IsPool (create_new_connection b p) (create_new_connection-IsPool b p i)

with_permit-IsPool :
    (b : Backend) (n : ℕ) (p : Pool)
    → n ≤ p.max_connections
    → IsPool p
    → IsPool (with_permit b n p).1
unfolding with_permit
with_permit-IsPool b zero p le i = i
with_permit-IsPool b (suc n) p le i =
    found_or_created-IsPool b (get_available_connection b (record p { permits = n })) (
      get_available_connection-IsPool b (record p { permits = n })
        (record { tracked = i.tracked; known = i.known; bounded = omega arith }))

get_connection-IsPool : (b : Backend) (p : Pool) → IsPool p → IsPool (get_connection b p).1
unfolding get_connection
get_connection-IsPool b p i = with_permit-IsPool b p.permits p i.bounded i

release_connection-IsPool :
    (now c : ℕ) (p : Pool) → IsPool p → IsPool (release_connection now c p).1
unfolding release_connection
release_connection-IsPool now c p i =
    release_permit-IsPool (put_back now c p) (put_back-IsPool now c p i)

cleanup_idle_connections-IsPool :
    (now : ℕ) (p : Pool) → IsPool p → IsPool (cleanup_idle_connections now p)
unfolding cleanup_idle_connections
cleanup_idle_connections-IsPool now p i =
    if-IsPool p.running (drop_all (idle_ids now p.idle_timeout p.connection_stats) p) p
      (drop_all-IsPool (idle_ids now p.idle_timeout p.connection_stats) p i) i

shutdown-IsPool : (p : Pool) → IsPool p → IsPool (shutdown p)
unfolding shutdown has
shutdown-IsPool p i =
    if-IsPool p.running _ p (record { tracked = λ c. refl; known = λ c e. e; bounded = i.bounded })
      i

-- What the users of a manager and its background thread do to it.
pub data Action : Type 0 where
  fetch : Backend → Action
  give_back : (now connection : ℕ) → Action
  clean : ℕ → Action
  close : Action

abbrev pub act : Action → Pool → Pool
act (fetch b) p = (get_connection b p).1
act (give_back now c) p = (release_connection now c p).1
act (clean now) p = cleanup_idle_connections now p
act close p = shutdown p

abbrev pub acts : List Action → Pool → Pool
acts [] p = p
acts (a ∷ rest) p = acts rest (act a p)

act-IsPool : (a : Action) (p : Pool) → IsPool p → IsPool (act a p)
act-IsPool (fetch b) p i = get_connection-IsPool b p i
act-IsPool (give_back now c) p i = release_connection-IsPool now c p i
act-IsPool (clean now) p i = cleanup_idle_connections-IsPool now p i
act-IsPool close p i = shutdown-IsPool p i

acts-IsPool : (history : List Action) (p : Pool) → IsPool p → IsPool (acts history p)
acts-IsPool [] p i = i
acts-IsPool (a ∷ rest) p i = acts-IsPool rest (act a p) (act-IsPool a p i)

-- After any sequence of fetches, releases, clean-ups and shutdowns of a new manager, the statistics are those of the connections in the pool, every available connection is in the pool, and the semaphore has at most max_connections permits.
pub history-IsPool :
    (history : List Action) (max idle attempts : ℕ)
    → IsPool (acts history (new_pool max idle attempts))
unfolding has
history-IsPool history max idle attempts =
    acts-IsPool history (new_pool max idle attempts)
      (record { tracked = λ c. refl; known = λ c e. e; bounded = omega arith })
