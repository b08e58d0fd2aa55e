-- ===== src/Lib.antt =====
-- The second version of the research backend: backend/app/v2.
--
-- The program runs research in steps. A client creates a run with targets; each target has a step of
-- every kind; workers lease steps, do them and report to the run kernel, which keeps everything in
-- SQL tables. A step that asks a language model builds its prompt with the context budget and sends it
-- through the provider router, whose adapters stand behind a circuit breaker.
--
-- Which file models which part:
--   Domain             backend/app/v2/domain.py: statuses, outcomes, kinds, legal transitions.
--   Kernel             backend/app/v2/research_runs.py, class ResearchRunKernel.
--     Rows             the tables (models.py) and the values passed in and out (contracts.py).
--     Tx, Session      transactions; reads and writes of rows; _transition, _event, _id, _run.
--     Boundary         _validate_lease, _cancel_run_at_boundary, _aggregate_targets.
--     Create           create and append_step.
--     Lease            lease_next and reconcile_startup.
--     Checkpoints      checkpoint_success and checkpoint_failure; Partial: checkpoint_partial.
--     Control          request_cancel, cancel_at_safe_boundary, record_target_outcome,
--                      finish_from_targets and resume; Retry: retry.
--     Queries          get and events. Queries/Complete: what events returns; Queries/ReadOnly: they
--                      change nothing.
--     Calls            a history: the calls that write, in the order in which they commit.
--     Respects, Frames the way from a relation that every write respects to one of a whole call.
--     Fencing, Stale, Exclusive   leases that are out of date: of two on one step, the earlier.
--     Consistent, Agreement   what all rows satisfy.
--     Idempotency, Leasing, Queue   repeated requests, what a lease is good for, which step is next;
--                      Queue/Eligible: which may be taken;
--                      Queue/Order: in which order.
--     Cancel, AtOnce   request_cancel: called again, and with no step running.
--     Effects          checkpoint_success under an effect key that has been used.
--   Breaker            CircuitBreaker of backend/app/v2/providers.py. Tripping: failures in a row.
--   Router             ProviderRouter of backend/app/v2/routing.py: eligible credentials, candidates of
--                      a task, and in Router/Complete.antt the tries of complete.
--   Context            backend/app/v2/context.py: estimate_tokens, allocate and build;
--                      persist_context_revision is in Gateway, which calls it.
--   Gateway            StructuredModelGateway of backend/app/v2/gateway.py: call, with the evidence that
--                      it keeps, the validator that it hands to the router and the rows that it adds.
--                      Gateway/Service.antt has the code of call.
--   Workflow           run_next of ResearchWorkflow, backend/app/v2/workflow.py: the driver of a step,
--                      with its calls of the kernel, and with what a handler does to the kernel's tables:
--                      it appends steps and writes workspaces and gaps. Workflow/Histories.antt
--                      relates it to Kernel/Calls.
--   Worker             backend/app/v2/worker.py, and next_run in backend/app/v2/runtime.py: whose turn
--                      it is, the loop with its reclaims, and run_until_idle.
--   Graph              ensure_valid_graph of backend/app/v2/domain.py, a depth-first search.
--   Promotion          validate_evidence_eligibility of backend/app/v2/workflow.py.
--   Completion         the outcome of _complete, evaluate_completion and resolve_question_ids of
--                      backend/app/v2/workflow.py.
--   Search             backend/app/v2/search.py: CachedFallbackSearch.search with its cache, and
--                      normalize_candidates.
--   Acquisition        backend/app/v2/acquisition.py: canonicalize_url, _validate_url, HttpxTransport,
--                      fetch_http and acquire_with_fallback, in Acquisition/Service.antt. Triples:
--                      statements on the log of a fetch.
--   Prelude            names of the libraries, Boolean tests, lists and sorting.
--
-- How the code is read:
--   A database is a record of tables, a table is a list of rows, and a method is a function from a
--   database to its result and the next database. A method that raises rolls its transaction back.
--   Transactions are one after another, since SQLite takes one writer at a time; the optimistic
--   version counters of rows are left out. A query sees the writes before it, by autoflush. Unique
--   constraints are checked at the insert, and so is the target of a step that append_step inserts; the
--   other foreign keys of the kernel's tables point at rows that it has just read or inserted, or, for
--   the worlds of a run, at rows of other tables, which the model takes as given.
--   Identifiers, owners and keys that a caller chooses are numbers, in the order of the texts where a
--   query sorts by them; keys that the kernel composes are constructors. uuid4 is a stream of
--   numbers that may repeat. Instants are numbers of one clock and are arguments, as in the code. A
--   JSON value that is only stored is its printed form. SHA-256 is a parameter.
--   Fractions of floats are whole percentages, rounded down, and an average is compared by cross
--   products.
--   Recursion is structural, on lists mostly. The loops that the source bounds by a number recurse on
--   what is left of it: the redirects of fetch_http, the iterations of run_until_idle and the attempts
--   of call. The loop over evidence recurses on the number of items, each turn of which drops one. The
--   search of ensure_valid_graph has a depth as its fuel, one more than the number of nodes with
--   targets, and is proved not to use it up; the recursion limit of Python is left out.
--   What a step's handler, a router or the network answers is a function of a number, a state or the
--   exchanges so far, and the theorems hold for every such function.
--   The adapters and the validator of a response are a parameter of the router, as they are in the
--   code: a try answers, raises a ProviderError, or raises another exception, which leaves complete. The
--   tables that complete reads are those that ensure_persisted of the credential service leaves. Log
--   entries are left out.
--
-- Not modelled: the handlers of the workflow's steps, which call models and store what they return; the
-- cache and the documents of acquisition, and its browser; several workers at once in the loop; searches
-- that overlap, and the providers of a search; the wiki queue and preprocessing; the
-- credential service; HTTP, configuration, rendering, logs, files and migrations.
mod Prelude
pub mod Domain
pub mod Kernel
pub mod Breaker
pub mod Completion
pub mod Context
pub mod Router
pub mod Acquisition
pub mod Gateway
pub mod Graph
pub mod Workflow
pub mod Promotion
pub mod Search
pub mod Worker
