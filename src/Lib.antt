-- ===== src/Lib.antt =====
-- A model of the durable page workflow of the documentation agent backend.
--
-- A run plans pages; a writer drafts each page into an immutable sealed artifact, an evaluator judges
-- it, and it passes, is revised while its attempts last, or is escalated to a human reviewer. All of
-- this goes through one database, which workers, handlers and reviewers change concurrently.
--
-- - Prelude: shared names; numbers, texts, lists, tables (`find_row`, `update_where`, `insert_unless`
--   for SELECT, UPDATE and INSERT … ON CONFLICT), JSON values, and the lemmas on them.
-- - Pages/Rows, Pages/Query: the rows of src/draftly/orchestration/page_workflow/repository.py and
--   models.py, and statements as functions on the database that return or raise. A method is a
--   function of its name; a transaction gives the old database back when it raises.
-- - Pages/States, Pages/Tasks, Pages/Evaluations, Pages/Revisions: `PageWorkflowRepository`, all its
--   methods. One statement is one step; the database's clock is an argument `now`, its collation
--   an argument `collate`, the rows that other transactions hold an argument `locked`.
-- - Pages/Operation, Pages/History: any sequence of the writing methods by any callers, and the
--   invariants of such sequences.
-- - Pages/Executor: the scheduling loop `_drive` of executor.py, followed through a list of
--   passes, each with what the gathered handlers do, and other workers before it, between the
--   reset and the claim and between the claim and the snapshot; `ongoing` says that the loop goes
--   on after them. The list may be of any length. Pages/Executor/Work is the measure of the loop.
-- - Pages/Handlers: `PageEvaluatorHandler` of handlers.py, and in Pages/Handlers/CrossPage its
--   `CrossPageReviewHandler`, as steps on the database that raise or return. What it reads
--   elsewhere is a record of parameters, `Setting`: the latest draft of a page, the metrics and
--   the grader's reasons, pydantic's validation, the digest of a snapshot, the time.
--   Pages/Handlers/Writer is the budget of `PageWriterHandler` and the loop that charges it; what
--   an invocation of the agent does, and what the handler's other writers charge to the table
--   they share meanwhile, is the environment's, a list that may be of any length, and `ongoing`
--   says that the loop goes on after them.
-- - Pages/Results, Pages/Paths, Pages/Resume, Pages/Seeding: the reports and `normalize_page_id` of
--   models.py, and `_result_from_states`, `resume` and `_seed` of node.py.
-- - Cache: the bounded cache of repository reads that the writers of a run share
--   (src/draftly/agents/documentation/repo_read_cache.py).
-- - Steering/Attempts, Steering/Interventions: the counters of automatic guides and the inbox of
--   human interventions (src/draftly/persistence/repositories/steering.py); Steering/Refinement is the
--   specification of the counters, a map from keys to numbers.
-- - Steering/Decisions, Steering/Policies: the role policies, checks and evaluations of
--   src/draftly/steering/policy.py, the decisions of decisions.py and the reservations of
--   persistence.py. An evaluation takes the table of attempts and gives it back; it returns a decision
--   or raises. A judge is a function on decisions that may raise. Sets of tools are lists that only
--   `contains` reads. Parameters: pathlib's normal form of a path, and the `repr` of a list or mapping.
-- - Steering/Reads: the read budget of a page writer (src/draftly/agents/documentation/draft_scope.py),
--   the tool that reserves reads (src/draftly/tools/github) and the guard in front of it
--   (src/draftly/steering/writer_read_budget_guard.py). The current draft scope, a context variable, is
--   an argument and a result.
-- - Steering/Guards: tool_call_burst_guard.py and research_budget_guard.py of src/draftly/steering.
-- - Routing: the edge conditions of the agent graphs (src/draftly/orchestration/routing/conditions.py).
--   A condition holds, does not, or faults; `json.loads` is a parameter.
-- - Pages/Scenarios, Cache/Scenarios, Routing/Scenarios, Steering/Scenarios: concrete rows and runs on them.
--
-- `show_nat` has one more step of fuel than the number's value, and a number never has more digits
-- than that. Times are natural numbers.
--
-- Not modelled: what other workers commit between two settlings of one pass of the executor,
-- updated_at columns, foreign keys, JSON encoding of metrics and scores, the agents' calls, the
-- Strands handlers and the graph scheduler, progress events and log lines, and the rest of the
-- application around the workflow.
pub mod Prelude
pub mod Cache
pub mod Routing
pub mod Steering
pub mod Pages
