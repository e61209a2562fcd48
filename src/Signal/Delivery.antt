-- ===== src/Signal/Delivery.antt =====
-- Who hears a signal (nexus/signal/signals.py).
use event_pipeline.Prelude.{
  ℕ, ◌≡◌, ◌≢◌, refl, Bool, true, not, ◌&&◌, ◌||◌, if◌then◌else◌, some, List, [], ◌∷◌, ◌++◌, ◌==◌,
  comparable_nat, any, arith, nat_beq_iff, Option-cases, Bool-cases, inl, inr,
}
use event_pipeline.Prelude.Dict.{lookup, insert, lookup-insert, lookup-remove}
use event_pipeline.Exceptions.{Attempt}
use event_pipeline.Signal.{
  Sender, nobody, generic_sender, object, comparable_sender, Listeners, refers_to, add, drop,
  addressee, connected, connect, disconnect, execute_listeners, emit, store_rest,
}

refers_to-append :
    (j : ℕ) (xs ys : List ℕ) → refers_to j (xs ++ ys) ≡ (refers_to j xs || refers_to j ys)
refers_to-append j [] ys = refl
refers_to-append j (x ∷ xs) ys = ground (arith, refers_to-append j xs ys)

refers_to-add : (l j : ℕ) (xs : List ℕ) → refers_to j (add l xs) ≡ (refers_to j xs || l == j)
refers_to-add l j xs = grind (arith, refers_to-append j xs (l ∷ []), nat_beq_iff)

refers_to-drop :
    (l j : ℕ) (xs : List ℕ) → refers_to j (drop l xs) ≡ (refers_to j xs && not (l == j))
refers_to-drop l j [] = refl
refers_to-drop l j (x ∷ xs) = ground (arith, refers_to-drop l j xs)

connected-insert :
    (k s : Sender) (ls : List ℕ) (m : Listeners)
    → connected s (insert k ls m) ≡ (if k == s then ls else connected s m)
connected-insert k s ls m = ground (arith, lookup-insert k s ls m)

connected-connect :
    (a s : Sender) (l : ℕ) (m : Listeners)
    → connected s (connect a l m)
      ≡ (if addressee a == s then add l (connected s m) else connected s m)
unfolding connect
connected-connect a s l m = elim (Bool-cases (addressee a == s)) [
  | inl same ↦
      let at : addressee a ≡ s = (comparable_sender.equals_iff (addressee a) s).0 same in
      rw (connected-insert (addressee a) s (add l (connected (addressee a) m)) m)
        (rw same (rw at refl))
  | inr other ↦
      rw (connected-insert (addressee a) s (add l (connected (addressee a) m)) m) (rw other refl)
]

rest :
    (a s : Sender) (l j : ℕ) (m : Listeners) (ls kept : List ℕ)
    → lookup a m ≡ some ls
    → drop l ls ≡ kept
    → refers_to j (connected s (store_rest a kept m))
      ≡ (refers_to j (connected s m) && not (a == s && l == j))
rest a s l j m ls [] found e =
    grind (arith, lookup-remove a s m, refers_to-drop l j ls, comparable_sender.equals_iff a s)
rest a s l j m ls (k ∷ ks) found e =
    grind
      (arith, lookup-insert a s (k ∷ ks) m, refers_to-drop l j ls, comparable_sender.equals_iff a s)

connected-disconnect :
    (alive : ℕ → Bool) (a s : Sender) (l j : ℕ) (m : Listeners)
    → alive l ≡ true
    → refers_to j (connected s (disconnect alive a l m))
      ≡ (refers_to j (connected s m) && not (a == s && l == j))
unfolding disconnect
connected-disconnect alive a s l j m live = elim (Option-cases (lookup a m)) [
  | inl absent ↦ rw (absent, disconnect) (grind (arith, absent, comparable_sender.equals_iff a s))
  | inr (ls, found) ↦ rw (found, disconnect) (rw live (rest a s l j m ls (drop l ls) found refl))
]

module _ {V R : Type 0} (alive : ℕ → Bool) (answer : ℕ → Attempt V R) where
  abbrev pub heard : ℕ → List (ℕ × Attempt V R) → Bool
  heard j rs = any (λ r. r.0 == j) rs

  heard-append :
      (j : ℕ) (xs ys : List (ℕ × Attempt V R)) → heard j (xs ++ ys) ≡ (heard j xs || heard j ys)
  heard-append j [] ys = refl
  heard-append j (x ∷ xs) ys = ground (arith, heard-append j xs ys)

  heard-execute :
      (j : ℕ) (ls : List ℕ)
      → heard j (execute_listeners alive answer ls) ≡ (alive j && refers_to j ls)
  heard-execute j [] = ground arith
  heard-execute j (l ∷ ls) = grind (arith, heard-execute j ls, nat_beq_iff)

  heard-emit :
      (j : ℕ) (s : Sender) (m : Listeners)
      → heard j (emit alive answer s m)
        ≡ (alive j && (refers_to j (connected s m) || refers_to j (connected generic_sender m)))
  unfolding emit
  heard-emit j s m = ground (
    arith,
    heard-append j (execute_listeners alive answer (connected s m))
        (execute_listeners alive answer (connected generic_sender m)),
    heard-execute j (connected s m),
    heard-execute j (connected generic_sender m),
  )

  heard-add :
      (a s : Sender) (l j : ℕ) (m : Listeners)
      → refers_to j (connected s (connect a l m))
        ≡ (refers_to j (connected s m) || addressee a == s && l == j)
  heard-add a s l j m = elim (Bool-cases (addressee a == s)) [
    | inl same ↦ rw (connected-connect a s l m) (rw same (refers_to-add l j (connected s m)))
    | inr other ↦ rw (connected-connect a s l m) (rw other (ground arith))
  ]

  -- After a listener was connected to a sender, a signal is heard by those that heard it before and, while it is alive, by the new listener: from its sender, or from every sender if it was connected to None or to GenericSender.
  pub emit-connect :
      (a s : Sender) (l j : ℕ) (m : Listeners)
      → heard j (emit alive answer s (connect a l m)) ≡ (
          heard j (emit alive answer s m)
          || alive j && (l == j && (addressee a == s || addressee a == generic_sender)))
  emit-connect a s l j m = ground (
    arith,
    heard-emit j s (connect a l m),
    heard-emit j s m,
    heard-add a s l j m,
    heard-add a generic_sender l j m,
  )

  -- Once a listener that is alive was disconnected from a sender, a signal of that sender reaches it only if it is connected to GenericSender too.
  pub emit-disconnect :
      (n l : ℕ) (m : Listeners)
      → alive l ≡ true
      → heard l (emit alive answer (object n) (disconnect alive (object n) l m))
        ≡ refers_to l (connected generic_sender m)
  emit-disconnect n l m live = grind (
    arith,
    heard-emit l (object n) (disconnect alive (object n) l m),
    connected-disconnect alive (object n) (object n) l l m live,
    connected-disconnect alive (object n) generic_sender l l m live,
    nat_beq_iff,
  )

  still_there :
      (a : Sender) (l : ℕ) (m : Listeners)
      → a ≢ generic_sender
      → alive l ≡ true
      → refers_to l (connected generic_sender (disconnect alive a l (connect nobody l m))) ≡ true
  still_there a l m other live = grind (
    arith,
    connected-disconnect alive a generic_sender l l (connect nobody l m) live,
    heard-add nobody generic_sender l l m,
    comparable_sender.equals_iff a generic_sender,
    nat_beq_iff,
  )

  -- A listener that was connected to None stays connected when it is disconnected from anything but GenericSender, None itself included: every signal still reaches it while it is alive.
  pub disconnect_keeps_generic :
      (a s : Sender) (l : ℕ) (m : Listeners)
      → a ≢ generic_sender
      → heard l (emit alive answer s (disconnect alive a l (connect nobody l m))) ≡ alive l
  disconnect_keeps_generic a s l m other = elim (Bool-cases (alive l)) [
    | inl live ↦ grind (
      arith,
      heard-emit l s (disconnect alive a l (connect nobody l m)),
      still_there a l m other live,
    )
    | inr dead ↦ grind (arith, heard-emit l s (disconnect alive a l (connect nobody l m)))
  ]
