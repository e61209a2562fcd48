-- ===== src/Context/Branches.antt =====
-- `goto` to the failure or the success branch of a built pipeline (nexus/task.py).
use event_pipeline.Exceptions.{ok}
use event_pipeline.Ast.{Ast}
use event_pipeline.Task.{Task}
use event_pipeline.Task.Build.{ok as built}
use event_pipeline.Context.{Context}
