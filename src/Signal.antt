-- ===== src/Signal.antt =====
-- nexus/signal/signals.py: SoftSignal. A listener is a number that its weak reference stands for, and
-- a set of references is a list without duplicates, in the order in which Python walks through it. The
-- binding of the keyword arguments of a signal is left out.
pub mod Delivery
use event_pipeline.Prelude.{
  ℕ, ◌+◌, ◌↔◌, ◌≡◌, Bool, true, not, if◌then◌else◌, none, some, List, [], ◌∷◌, ◌++◌, ◌==◌,
  Comparable, nat_beq, comparable_nat, any, filterb, arith,
}
use event_pipeline.Prelude.Dict.{Dict, lookup, insert, remove}
use event_pipeline.Exceptions.{Attempt}

-- A sender: None, the class GenericSender, or any other object.
pub data Sender : Type 0 where
  nobody generic_sender : Sender
  object : ℕ → Sender

abbrev pub code : Sender → ℕ
code nobody = 0
code generic_sender = 1
code (object n) = n + 2

pub sender_beq_iff : (a b : Sender) → (nat_beq (code a) (code b) ≡ true) ↔ (a ≡ b)
sender_beq_iff nobody nobody = ground arith
sender_beq_iff nobody generic_sender = ground arith
sender_beq_iff nobody (object m) = ground arith
sender_beq_iff generic_sender nobody = ground arith
sender_beq_iff generic_sender generic_sender = ground arith
sender_beq_iff generic_sender (object m) = ground arith
sender_beq_iff (object n) nobody = ground arith
sender_beq_iff (object n) generic_sender = ground arith
sender_beq_iff (object n) (object m) = ground arith

instance abbrev pub comparable_sender : Comparable Sender
comparable_sender = record {
  equals = λ a b. nat_beq (code a) (code b);
  equals_iff = sender_beq_iff;
}

-- SoftSignal._listeners
abbrev pub Listeners : Type 0
Listeners = Dict Sender (List ℕ)

abbrev pub refers_to : ℕ → List ℕ → Bool
refers_to l ls = any (λ x. x == l) ls

abbrev pub add : ℕ → List ℕ → List ℕ
add l ls = if refers_to l ls then ls else ls ++ l ∷ []

abbrev pub drop : ℕ → List ℕ → List ℕ
drop l ls = filterb (λ x. not (x == l)) ls

-- None stands for every sender.
abbrev pub addressee : Sender → Sender
addressee nobody = generic_sender
addressee generic_sender = generic_sender
addressee (object n) = object n

abbrev pub connected : Sender → Listeners → List ℕ
connected s m = elim (lookup s m) [ none ↦ [] | some ls ↦ ls ]

unfoldable pub connect : Sender → ℕ → Listeners → Listeners
connect s l m = insert (addressee s) (add l (connected (addressee s) m)) m

abbrev pub store_rest : Sender → List ℕ → Listeners → Listeners
store_rest s [] m = remove s m
store_rest s (l ∷ ls) m = insert s (l ∷ ls) m

-- disconnect compares what a reference gives with the listener, so a dead reference stays.
unfoldable pub disconnect : (alive : ℕ → Bool) → Sender → ℕ → Listeners → Listeners
disconnect alive s l m = elim (lookup s m) [
  | none ↦ m
  | some ls ↦ store_rest s (if alive l then drop l ls else ls) m
]

unfoldable pub clean : Sender → Listeners → Listeners
clean s m = remove s m

-- _remove_dead_listener, for a sender that is not None
unfoldable pub remove_dead_listener : Sender → ℕ → Listeners → Listeners
remove_dead_listener s l m = elim (lookup s m) [ none ↦ m | some ls ↦ insert s (drop l ls) m ]

module _ {V R : Type 0} (alive : ℕ → Bool) (answer : ℕ → Attempt V R) where
  -- _execute_listeners: a dead reference is passed over, and an exception of the listener is its
  -- response.
  abbrev pub execute_listeners : List ℕ → List (ℕ × Attempt V R)
  execute_listeners [] = []
  execute_listeners (l ∷ ls) =
      if alive l then (l, answer l) ∷ execute_listeners ls else execute_listeners ls

  unfoldable pub emit : Sender → Listeners → List (ℕ × Attempt V R)
  emit s m = execute_listeners (connected s m) ++ execute_listeners (connected generic_sender m)
