-- ===== src/Connector/Sharing.antt =====
-- nexus/mixins/utils/connector.py: SingleConnectorManager, which shares one connection.
use event_pipeline.Prelude.{
  ℕ, ◌≡◌, ◌⊎◌, inl, inr, refl, true, Option, none, some, List, [], ◌∷◌, if◌then◌else◌, Bool-cases,
  Option-cases,
}
use event_pipeline.Connector.{
  ConnectionStats, Reply, gives, raises, connection_error, Backend, fresh_stats, used,
}

pub record Single : Type 0 where
  pub connection : Option ℕ
  pub connection_stats : Option ConnectionStats
  pub closed : List ℕ

abbrev pub new_single : Single
new_single = record { connection = none; connection_stats = none; closed = [] }

-- `self._connection = self._create_connection()` and new statistics
unfoldable pub recreate : Backend → Single → Reply ℕ × Single
recreate b s = elim b.makes [
  | none ↦ (raises connection_error, s)
  | some c ↦
      (gives c, record s { connection = some c; connection_stats = some (fresh_stats b.now) })
]

abbrev pub touch : ℕ → Option ConnectionStats → Option ConnectionStats
touch now none = none
touch now (some s) = some (used now s)

-- The statistics of a connection that is handed out; a failure to make one leaves before that.
abbrev pub touched : ℕ → Reply ℕ × Single → Reply ℕ × Single
touched now (gives c, s) = (gives c, record s { connection_stats = touch now s.connection_stats })
touched now (raises e, s) = (raises e, s)

abbrev pub reuse : Backend → ℕ → Single → Reply ℕ × Single
reuse b c s =
    if b.is_healthy c then (gives c, s) else recreate b (record s { closed = c ∷ s.closed })

-- SingleConnectorManager.get_connection
unfoldable pub get_shared : Backend → Single → Reply ℕ × Single
unfolding recreate
get_shared b s = elim s.connection [ none ↦ recreate b s | some c ↦ touched b.now (reuse b c s) ]

unfoldable pub shutdown_single : Single → Single
shutdown_single s = elim s.connection [
  | none ↦ s
  | some c ↦ record { connection = none; connection_stats = none; closed = c ∷ s.closed }
]

-- What a fetch comes to.
Usable : Backend → Reply ℕ × Single → Type 0
Usable b r =
    ((c : ℕ) × (r.0 ≡ gives c)
      × (r.1.connection ≡ some c)
      × ((b.is_healthy c ≡ true) ⊎ (b.makes ≡ some c)))
    ⊎ ((r.0 ≡ raises connection_error) × (b.makes ≡ none))

recreate-Usable : (b : Backend) (s : Single) → Usable b (recreate b s)
unfolding recreate Usable
recreate-Usable b s = elim (Option-cases b.makes) [
  | inl missing ↦ inr (rw (missing, recreate) refl, missing)
  | inr (c, made) ↦ inl (c, rw (made, recreate) refl, rw (made, recreate) refl, inr made)
]

reuse-Usable : (b : Backend) (c : ℕ) (s : Single) → s.connection ≡ some c → Usable b (reuse b c s)
unfolding Usable
reuse-Usable b c s kept = elim (Bool-cases (b.is_healthy c)) [
  | inl fine ↦ rw fine (inl (c, refl, kept, inl fine))
  | inr broken ↦ rw broken (recreate-Usable b (record s { closed = c ∷ s.closed }))
]

touched-Usable :
    (b : Backend) (now : ℕ) (r : Reply ℕ × Single) → Usable b r → Usable b (touched now r)
unfolding Usable
touched-Usable b now (gives c, s) x = x
touched-Usable b now (raises e, s) x = x

-- A fetch of the shared connection either gives the connection that the manager keeps from then on, which answered the health check or was made anew, or raises a ConnectionError where none can be made.
pub get_shared_lem :
    (b : Backend) (s : Single)
    → ((c : ℕ) × ((get_shared b s).0 ≡ gives c)
        × ((get_shared b s).1.connection ≡ some c)
        × ((b.is_healthy c ≡ true) ⊎ (b.makes ≡ some c)))
      ⊎ (((get_shared b s).0 ≡ raises connection_error) × (b.makes ≡ none))
unfolding get_shared Usable
get_shared_lem b s = elim (Option-cases s.connection) [
  | inl empty ↦ rw (empty, get_shared) (recreate-Usable b s)
  | inr (c, kept) ↦
      rw (kept, get_shared) (touched-Usable b b.now (reuse b c s) (reuse-Usable b c s kept))
]
