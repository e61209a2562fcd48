-- ===== src/Pipe.antt =====
-- nexus/task.py: PipeType, its tokens, and the way back from a token.
use event_pipeline.Prelude.{
  String, ◌≡◌, refl, Option, none, some, Bool, true, false, if◌then◌else◌, ◌==◌, comparable_string,
}

pub data PipeType : Type 0 where
  pointer pipe_pointer parallelism retry : PipeType

unfoldable pub token : PipeType → String
token pointer = "->"
token pipe_pointer = "|->"
token parallelism = "||"
token retry = "*"

unfoldable pub get_pipe_type_enum : String → Option PipeType
unfolding token
get_pipe_type_enum s =
    if s == token pipe_pointer
    then some pipe_pointer
    else if s == token parallelism
    then some parallelism
    else if s == token retry
    then some retry
    else if s == token pointer
    then some pointer
    else none

abbrev pub is_parallelism : Option PipeType → Bool
is_parallelism (some parallelism) = true
is_parallelism p = false

get_pipe_type_enum-token : (p : PipeType) → get_pipe_type_enum (token p) ≡ some p
unfolding get_pipe_type_enum
get_pipe_type_enum-token pointer = refl
get_pipe_type_enum-token pipe_pointer = refl
get_pipe_type_enum-token parallelism = refl
get_pipe_type_enum-token retry = refl
