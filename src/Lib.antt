-- ===== src/Lib.antt =====
-- event_pipeline (the package `nexus`) runs pipelines of events. A script in the pointy language is
-- parsed to a syntax tree, the tree is turned into tasks that point at one another, and the tasks are
-- executed one after the other: each call of `execute_task` opens an execution context, which hands
-- the events of its tasks to executors, collects their results and decides how the pipeline goes on.
-- Signals tell listeners of what happens, and results are kept in result sets and stores.
--
-- The files, each with the code that it is about (paths from the root of the repository):
--   Prelude      Boolean tests, lists on native numbers, and Python's dict as an association list
--   Exceptions   nexus/exceptions.py and EventResult of nexus/result.py
--   Evaluation   nexus/base.py, EventExecutionEvaluationState
--   Retry        nexus/base.py, RetryPolicy and _RetryMixin: `retry` with its loop and back-off
--   Event        nexus/base.py, EventBase: `__call__` is `call`, with `goto`, `on_success`, `on_failure`
--   Pipe         nexus/task.py, PipeType
--   Ast          nexus/parser/ast.py
--   Task         nexus/task.py, PipelineTask; Task.Build is `_parse_ast`, and Segments, Rules,
--                Links, Acyclic and Forest are about the trees that the tasks form, and Descriptors
--                about the descriptors that they get
--   Context      nexus/task.py, EventExecutionContext: `dispatch` and `process_executor_results`;
--                Branches is about `goto` to the branches of a task
--   Submission   nexus/task.py, `init_and_execute_events` of EventExecutionContext: Grouping is about
--                the events that are submitted, Configs about the arguments of executors, and
--                Previous about what an event gets of the previous context
--   Execution    nexus/task.py, `execute_task`; Weights, Fuel and Termination are about its
--                fuel, Contexts about the store of contexts, and Parallel about parallel tasks
--   Connector    nexus/mixins/utils/connector.py, PooledConnectorManager, and in Sharing
--                SingleConnectorManager
--   Signal       nexus/signal/signals.py, SoftSignal
--   Store        nexus/backends/stores/inmemory_store.py; Contract is the map that a client sees
--   ResultSet    nexus/result.py, ResultSet; Filtered is about `filter` and `get` with any test, Keys
--                and Lookups are the keys of filters and what they test, and Operators is about them
--   Monitor      nexus/pipeline.py, the counters of _BatchProcessingMonitor
--   Pipeline     nexus/pipeline.py, Pipeline: `start`, `stop` and `shutdown`; Links, Chain and Walks are
--                about the chain of contexts, nexus/task.py
--   Batch        nexus/pipeline.py, BatchPipeline: from the fields to the pipelines that `execute`
--                submits; Rounds, Submissions, Pipelines, Fields and Started are about its rounds
--   Wrapper      nexus/pipeline_wrapper.py, PipelineWrapper on a Pipeline; Monitoring is about its events
--                in the Monitor, Reports about what it sends, and Failures about failed pipelines
--   Framing      nexus/utils.py, send_data_over_socket and receive_data_from_socket
--   Field        nexus/fields.py, InputDataField, and the cache of fields, nexus/pipeline.py,
--                PipelineState
--   Stream       nexus/default_batch_processors.py, file_stream_batch_processor
--   Drawing      nexus/translator/dot.py: Sequential is about chains, Endless about parallel chains
--   Telemetry    nexus/telemetry/logger.py, StandardTelemetryLogger on a ResultSet; Batches is
--                DefaultBatchTelemetryLogger, and Separation compares the two
--   Samples      concrete scripts, events and services on which the theorems are applied
--
-- State. Tasks live on a heap, a list in which a reference is a place; the heap does not change once a
-- pipeline is built. Execution contexts live on a store of their own. The state of an event's retries,
-- a pool of connections, the listeners of a signal and the memory of a store are records or dicts that
-- the operations take and give back.
--
-- What is outside is an argument: the executors with the events' own code and the evaluation states
-- of event classes (`World`), what a call of `process` does, the connector class and the clock
-- (`Backend`), the listeners' answers, the ids of results, what a batch does with values (conversion,
-- truth, batch processors, and whether its template accepts arguments), Python's values and the
-- operations on them that filters use, the executor classes with what submitting to them gives, the
-- ids of tasks and the text of numbers in drawings, how many bytes one read of a file finds, which
-- messages a queue takes. Values of events have a type V of which nothing is known. Futures come in
-- the order in which the set of finished futures yields them, and tasks of a parallel chain in the
-- order of the chain. Results have ids of their own, so that a context appends them to its result
-- set. Exceptions are instances of Exception, known by the names of their classes: a SystemExit or
-- KeyboardInterrupt of an event, which the handlers let through, is left out, and so is the
-- interpreter's limit on the depth of calls, with the RecursionError that it brings to long scripts.
-- Times are whole hundredths of a second in Retry. Log messages, the arguments that results carry
-- along, the name of the event in the message of `on_failure`, and pickling are left out. Locks make
-- an operation one step.
--
-- Fuel. A climb to the root of a task has the number of tasks as its fuel, which is enough as a parent
-- is nearer to the root. `retry` has one unit more than attempts are left, as every round takes an
-- attempt. `execute_task` calls itself, and takes its fuel as an argument: the references to children
-- lead down in a tree, so that a number that depends on the number of tasks is enough. The walks over
-- the chain of contexts have the number of contexts, and the rounds of a batch one more than the
-- longest iterator has values; iterators are finite lists. Sending has one round more than there are
-- bytes, and receiving one more than the header announces. Reading a file in chunks has one round more
-- than the file has bytes, as a read before the end finds a byte, and the climb to the parent of a
-- parallel chain has the number of tasks. A drawing takes its fuel as an argument: without `||` the
-- length of a traversal is enough, and with it no fuel is.
--
-- Not modelled: the lexer and the grammar, which are rules of the package PLY (the syntax tree is the
-- input); the metaclass of pipelines, the process pool, the forwarded signals and the memory check of
-- batches; the remote executors and managers, the publishers of metrics, the programs of Graphviz,
-- the SQL, Redis and HDFS stores, and scheduling, which are input and output or glue to other
-- packages.
pub mod Prelude
pub mod Exceptions
pub mod Evaluation
pub mod Retry
pub mod Event
pub mod Pipe
pub mod Ast
pub mod Task
pub mod Context
pub mod Execution
pub mod Connector
pub mod Signal
pub mod Store
pub mod ResultSet
pub mod Monitor
pub mod Batch
pub mod Pipeline
pub mod Framing
pub mod Field
pub mod Telemetry
pub mod Wrapper
pub mod Samples
pub mod Submission
pub mod Drawing
pub mod Stream
