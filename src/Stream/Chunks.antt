-- ===== src/Stream/Chunks.antt =====
-- The chunks of a file (nexus/default_batch_processors.py).
use event_pipeline.Prelude.{
  ℕ, zero, suc, ◌+◌, ◌≤◌, ◌<◌, ◌≡◌, ◌≢◌, ◌⊎◌, inl, inr, refl, sym, ap, ◌∙◌, subst, true, some, List,
  [], ◌∷◌, ◌++◌, length, length-append, All, arith,
}
use mathlib.Core.List.{append-nil}
use event_pipeline.Framing.{ℤ, pos, negsuc, Socket, recv, granted}
use event_pipeline.Framing.Transfer.{length-take, take-append-drop}
use event_pipeline.Framing.{drop}
use event_pipeline.Stream.{
  Stream, stream, chunks, seek, rest, read_from, read, read_chunks, file_stream_batch_processor,
}

abbrev pub concat : List (List ℕ) → List ℕ
concat [] = []
concat (c ∷ cs) = c ++ concat cs

abbrev pub AtMost : ℤ → List ℕ → Type 0
AtMost (pos n) c = length c ≤ n
AtMost (negsuc n) c = Unit

-- A chunk has a byte, and not more than were asked for.
abbrev pub Fits : ℤ → List ℕ → Type 0
Fits size c = (1 ≤ length c) × AtMost size c

granted_bounds : (gs : List ℕ) (n : ℕ) → (granted gs n ≤ n) × (1 ≤ n → 1 ≤ granted gs n)
granted_bounds [] n = (omega arith, λ h. h)
granted_bounds (a ∷ gs) n = (omega arith, λ h. omega arith)

empty_of_length : (xs : List ℕ) → length xs ≡ 0 → xs ≡ []
empty_of_length [] e = refl
empty_of_length (x ∷ xs) e = absurd (omega arith)

List-cases : (xs : List ℕ) → (xs ≡ []) ⊎ ((y : ℕ) × (ys : List ℕ) × (xs ≡ y ∷ ys))
List-cases [] = inl refl
List-cases (x ∷ xs) = inr (x, xs, refl)

read_from-append :
    (size : ℤ) (s : Socket) → (read_from size s).0 ++ (read_from size s).1.incoming ≡ s.incoming
unfolding read_from recv
read_from-append (pos n) s = take-append-drop (granted s.arrivals n) s.incoming
read_from-append (negsuc n) s = append-nil s.incoming

read_from-AtMost : (size : ℤ) (s : Socket) → AtMost size (read_from size s).0
unfolding read_from recv
read_from-AtMost (pos n) s =
    omega (arith, length-take (granted s.arrivals n) s.incoming, (granted_bounds s.arrivals n).0)
read_from-AtMost (negsuc n) s = tt

-- Nothing is read only at the end.
read_from_ends :
    (size : ℤ) (s : Socket) → size ≢ pos 0 → (read_from size s).0 ≡ [] → s.incoming ≡ []
unfolding read_from recv
read_from_ends (pos zero) s nonzero e = absurd (nonzero refl)
read_from_ends (pos (suc n)) s nonzero e = empty_of_length s.incoming (
    omega (
      arith,
      length-take (granted s.arrivals (suc n)) s.incoming,
      ap length e,
      (granted_bounds s.arrivals (suc n)).1 (omega arith),
    ))
read_from_ends (negsuc n) s nonzero e = e

-- What is left after a read, behind the position.
drop_nothing : (n : ℕ) → drop {A = ℕ} n [] ≡ []
drop_nothing zero = refl
drop_nothing (suc n) = refl

drop-add : (n m : ℕ) (xs : List ℕ) → drop (n + m) xs ≡ drop m (drop n xs)
drop-add zero m xs = ap (λ k. drop k xs) (omega arith)
drop-add (suc n) m [] = drop_nothing (suc n + m) ∙ sym (drop_nothing m)
drop-add (suc n) m (x ∷ xs) =
    let more : suc n + m ≡ suc (n + m) = omega arith in
    ap (λ k. drop k (x ∷ xs)) more ∙ drop-add n m xs

drop-append : (xs ys : List ℕ) → drop (length xs) (xs ++ ys) ≡ ys
drop-append [] ys = refl
drop-append (x ∷ xs) ys = drop-append xs ys

-- What a read leaves is what is behind the new position.
rest-read :
    (size : ℤ) (s : Stream) → (rest (read size s).1).incoming ≡ (read_from size (rest s)).1.incoming
unfolding read rest
rest-read size s =
    let (found, after) = read_from size (rest s) in
    drop-add s.position (length (read_from size (rest s)).0) s.contents
    ∙ ap (drop (length (read_from size (rest s)).0)) (sym (read_from-append size (rest s)))
    ∙ drop-append (read_from size (rest s)).0 (read_from size (rest s)).1.incoming

read-append :
    (size : ℤ) (s : Stream) → (read size s).0 ++ (rest (read size s).1).incoming ≡ (rest s).incoming
unfolding read
read-append size s = rw (rest-read size s) (read_from-append size (rest s))

read_chunks_lem :
    (fuel : ℕ) (size : ℤ) (s : Stream)
    → size ≢ pos 0
    → length (rest s).incoming < fuel
    → (cs : List (List ℕ)) × (read_chunks fuel size s ≡ some cs)
      × (concat cs ≡ (rest s).incoming)
      × All (Fits size) cs
unfolding read_chunks read
read_chunks_lem zero size s nonzero enough = absurd (omega arith)
read_chunks_lem (suc fuel) size s nonzero enough = elim (List-cases (read size s).0) [
  | inl e ↦ ([], rw (e, read_chunks) refl, sym (read_from_ends size (rest s) nonzero e), tt)
  | inr (b, bs, e) ↦
      let later = (read size s).1 in
      let whole : (b ∷ bs) ++ (rest later).incoming ≡ (rest s).incoming =
        ap (λ (c : List ℕ). c ++ (rest later).incoming) (sym e) ∙ read-append size s in
      let (cs, done, joined, fit) =
        read_chunks_lem fuel size later nonzero
          (omega (arith, ap length whole, length-append {0} (b ∷ bs) (rest later).incoming)) in
      (
        (b ∷ bs) ∷ cs,
        rw (e, read_chunks) (rw done refl),
        ap (λ (c : List ℕ). (b ∷ bs) ++ c) joined ∙ whole,
        ((omega arith, subst (AtMost size) e (read_from-AtMost size (rest s))), fit),
      )
]

-- For a readable file and any chunk size but 0 the processor ends, and yields chunks that make up the
-- contents of the file in their order, whatever its position was and however little each read finds.
-- Every chunk has at least one byte, and no more than the chunk size if that is positive.
pub file_stream_batch_processor-concat :
    (size : ℤ) (s : Stream)
    → s.readable ≡ true
    → size ≢ pos 0
    → (cs : List (List ℕ)) × (file_stream_batch_processor size (stream s) ≡ chunks cs)
      × (concat cs ≡ s.contents)
      × All (Fits size) cs
unfolding file_stream_batch_processor seek rest
file_stream_batch_processor-concat size s readable nonzero =
    let (cs, done, joined, fit) =
      read_chunks_lem (suc (length s.contents)) size (seek 0 s) nonzero (omega arith) in
    (cs, rw (done, file_stream_batch_processor) (rw readable refl), joined, fit)
