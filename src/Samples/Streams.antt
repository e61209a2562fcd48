-- ===== src/Samples/Streams.antt =====
-- Tests of the chunks of files.
use event_pipeline.Prelude.{ℕ, ◌≡◌, ◌≢◌, refl, ap, true, List, [], ◌∷◌, All, arith}
use event_pipeline.Framing.{ℤ, pos, negsuc, recv}
use event_pipeline.Stream.{
  Stream, stream, no_stream, chunks, value_error, read, read_from, rest, seek, read_chunks,
  file_stream_batch_processor,
}
use event_pipeline.Stream.Chunks.{concat, Fits, file_stream_batch_processor-concat}

-- Five bytes, of which two were read before, and of which the second read finds one.
abbrev file : Stream
file = record {
  readable = true;
  contents = 1 ∷ 2 ∷ 3 ∷ 4 ∷ 5 ∷ [];
  position = 2;
  arrivals = 9 ∷ 1 ∷ [];
}

two_at_a_time :
    file_stream_batch_processor (pos 2) (stream file)
    ≡ chunks ((1 ∷ 2 ∷ []) ∷ (3 ∷ []) ∷ (4 ∷ 5 ∷ []) ∷ [])
unfolding file_stream_batch_processor read_chunks read recv seek rest read_from
two_at_a_time = refl

size_zero : file_stream_batch_processor (pos 0) (stream file) ≡ chunks []
unfolding file_stream_batch_processor read_chunks read recv seek rest read_from
size_zero = refl

path_refused : file_stream_batch_processor (pos 2) no_stream ≡ value_error
unfolding file_stream_batch_processor
path_refused = refl

abbrev size_of : ℤ → ℕ
size_of (pos n) = n
size_of (negsuc n) = 0

two_is_positive : pos 2 ≢ pos 0
two_is_positive e = absurd (omega (arith, ap size_of e))

file_stream_batch_processor-concat_example :
    (cs : List (List ℕ)) × (file_stream_batch_processor (pos 2) (stream file) ≡ chunks cs)
    × (concat cs ≡ 1 ∷ 2 ∷ 3 ∷ 4 ∷ 5 ∷ [])
    × All (Fits (pos 2)) cs
file_stream_batch_processor-concat_example =
    file_stream_batch_processor-concat (pos 2) file refl two_is_positive
