-- ===== src/Connector/Cleanup.antt =====
-- Which connections a round of _cleanup_idle_connections (nexus/mixins/utils/connector.py) keeps.
use event_pipeline.Prelude.{
  ℕ, ◌≡◌, refl, Bool, true, false, not, ◌&&◌, Option, none, some, List, [], ◌∷◌, ◌==◌, arith,
  comparable_nat, inl, inr, Option-cases, any, nat_beq_iff,
}
use event_pipeline.Prelude.Dict.{Dict, lookup, has, has-lookup, has-remove, IsKeyed}
use event_pipeline.Connector.{
  Pool, ConnectionStats, is_idle, idle_ids, drop_idle, drop_all, cleanup_idle_connections,
}

abbrev mem : ℕ → List ℕ → Bool
mem c cs = any (λ x. x == c) cs

drop_idle-has :
    (c j : ℕ) (p : Pool)
    → has j (drop_idle c p).connection_pool ≡ (not (c == j) && has j p.connection_pool)
unfolding drop_idle
drop_idle-has c j p = elim (Option-cases (lookup c p.connection_pool)) [
  | inl e ↦ rw (e, drop_idle) (grind (arith, has-lookup, nat_beq_iff))
  | inr (s, e) ↦ rw (e, drop_idle) (has-remove c j p.connection_pool)
]

drop_all-has :
    (cs : List ℕ) (j : ℕ) (p : Pool)
    → has j (drop_all cs p).connection_pool ≡ (not (mem j cs) && has j p.connection_pool)
unfolding drop_all
drop_all-has [] j p = refl
drop_all-has (c ∷ cs) j p = ground (arith, drop_all-has cs j (drop_idle c p), drop_idle-has c j p)

abbrev pub idle_now : ℕ → ℕ → Option ConnectionStats → Bool
idle_now now timeout none = false
idle_now now timeout (some s) = is_idle now timeout s

mem-idle_ids :
    (now timeout j : ℕ) (m : Dict ℕ ConnectionStats)
    → IsKeyed m
    → mem j (idle_ids now timeout m) ≡ idle_now now timeout (lookup j m)
unfolding lookup has
mem-idle_ids now timeout j [] keyed = refl
mem-idle_ids now timeout j ((c, s) ∷ m) keyed =
    grind (arith, mem-idle_ids now timeout j m keyed.1, has-lookup, nat_beq_iff)

-- Where no id has statistics twice, a round of the clean-up of a running manager keeps a connection of the pool exactly when its statistics say that it was released within the idle timeout, whether or not it is available.
pub cleanup_keeps :
    (now j : ℕ) (p : Pool)
    → IsKeyed p.connection_stats
    → p.running ≡ true
    → has j (cleanup_idle_connections now p).connection_pool
      ≡ (not (idle_now now p.idle_timeout (lookup j p.connection_stats)) && has j p.connection_pool)
unfolding cleanup_idle_connections
cleanup_keeps now j p keyed on =
    simp on (rw (← mem-idle_ids now p.idle_timeout j p.connection_stats keyed) (drop_all-has _ j p))
