-- ===== src/Stream.antt =====
-- nexus/default_batch_processors.py: file_stream_batch_processor. What is read of a file is the
-- receiving end of nexus/utils.py's transfers: a `read` may find fewer bytes than it asks for, and at
-- least one before the end. `batched` of more_itertools, which does the work for lists, is outside.
pub mod Chunks
use event_pipeline.Prelude.{
  ℕ, zero, suc, ◌+◌, Bool, Option, none, some, List, [], ◌∷◌, length, if◌then◌else◌,
}
use event_pipeline.Framing.{ℤ, pos, negsuc, Socket, recv, drop}

-- A seekable IOBase: whether it is readable, its contents, the position from which it is read, and how much
-- its reads find.
pub record Stream : Type 0 where
  pub readable : Bool
  pub contents : List ℕ
  pub position : ℕ
  pub arrivals : List ℕ

-- What the processor is applied to.
pub data Values : Type 0 where
  stream : Stream → Values
  no_stream : Values

pub data Batched : Type 0 where
  chunks : List (List ℕ) → Batched
  value_error out_of_fuel : Batched

-- values.seek(offset, 0)
unfoldable pub seek : ℕ → Stream → Stream
seek offset s = record s { position = offset }

-- What is left to read.
unfoldable pub rest : Stream → Socket
rest s = record { incoming = drop s.position s.contents; arrivals = s.arrivals }

-- values.read(chunk_size), and what it leaves; a negative size asks for all.
unfoldable pub read_from : ℤ → Socket → List ℕ × Socket
unfolding recv
read_from (pos n) s = recv n s
read_from (negsuc n) s = (s.incoming, record s { incoming = [] })

-- The bytes that are read, and the stream with its position behind them.
unfoldable pub read : ℤ → Stream → List ℕ × Stream
unfolding read_from rest
read size s =
    let (found, after) = read_from size (rest s) in
    (found, record s { position = s.position + length found; arrivals = after.arrivals })

abbrev pub prepend : List ℕ → Option (List (List ℕ)) → Option (List (List ℕ))
prepend c none = none
prepend c (some cs) = some (c ∷ cs)

-- The loop; `none` says that the fuel ran out.
unfoldable pub read_chunks : ℕ → ℤ → Stream → Option (List (List ℕ))
unfolding read
read_chunks zero size s = none
read_chunks (suc fuel) size s = elim (read size s).0 [
  | [] ↦ some []
  | b ∷ bs ↦ prepend (b ∷ bs) (read_chunks fuel size (read size s).1)
]

abbrev pub batched : Option (List (List ℕ)) → Batched
batched none = out_of_fuel
batched (some cs) = chunks cs

unfoldable pub file_stream_batch_processor : ℤ → Values → Batched
unfolding read_chunks seek
file_stream_batch_processor size no_stream = value_error
file_stream_batch_processor size (stream s) =
    let all = read_chunks (suc (length s.contents)) size (seek 0 s) in
    if s.readable then batched all else value_error
