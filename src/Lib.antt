-- ===== src/Lib.antt =====
-- Development Bridge: a server through which coding agents work on repositories, with durable jobs,
-- a CAD agent behind staged transactions, and an OAuth server for its one owner.
--
-- Six parts of the program are here. The job store (app/jobs) keeps jobs, their artifacts and the
-- specifications of executor jobs in SQLite; the job service creates jobs, starts each one, appends
-- its output and finishes it, wakes who waits for jobs by the store's statuses, and a restart fails
-- the jobs that were running. The transaction store (app/fusion_cad/transactions.py) keeps in
-- memory the plan that the CAD agent stages, previews and commits. The operation journal
-- (app/desktop_nodes/journal.py) keeps the last operations of the desktop nodes, in memory and in a
-- file, for the desktop service (app/desktop_nodes/service.py), which relays commands to them. The
-- coordinator (app/coordinator/service.py) keeps the wakes that are to be sent to the chats of the
-- owner's model, and gives each to one transport at a time. The OAuth server (app/auth) grants
-- codes and tokens to the clients that call the others. But for that service and its journal, the
-- parts meet in their callers only: none reads another's state.
--
-- Prelude: the shared names, tests, lists and dicts (Keys: dicts with distinct keys), and
--   Prelude/Tables with SELECT, UPDATE, DELETE and INSERT on a table, a list of rows in the order of
--   insertion.
-- Errors: BridgeError and ErrorCode of app/api/errors.py, and the result type of fallible code.
-- Jobs: Models is app/jobs/models.py and the tables of app/jobs/store.py. Store is `JobStore`: get,
--   get_by_id, has_active, has_active_for_repository, create, create_execution, save_artifacts.
--   Lifecycle is initialize, start, append_output, finish, fail_active, cancel_queued. Output has
--   `_drain` of app/jobs/service.py. Waiters has its terminal waiters: `_register_terminal_waiter` is
--   register_waiter, `_collect_terminal_callbacks` is collect, `_finish_job`, `_fail_active` and
--   `_cancel_queued` are finish_job, fail_job and cancel_job, and conclude is what
--   `_invoke_terminal_callbacks` does after one callback. Calls has histories of the store's calls; a
--   call that raises leaves the tables alone, as `_connect` commits on success only. The other files
--   are proofs: Admission, Executions and Retries on idempotency keys, Idle on exclusive admission,
--   Rows and Invariant on the columns and constraints, Progress, History and Claims on histories,
--   Restart on initialize, Wakeups on waiters.
-- Transactions: `TransactionStore`, one function per method under the method's name, each as a
--   change of one record (`*_record`) inside a dict. Calls has histories of calls; Sound, Lifecycle,
--   Commits and Path are proofs.
-- OAuth: Store is `OAuthStore` of app/auth/store.py and Provider is `BridgeOAuthProvider` of
--   app/auth/provider.py, under the methods' names. Calls has histories of calls, Effects and Steps
--   what one call does to the tables; Single, Tokens and Flow are proofs.
-- Journal: Operations is `OperationJournal`, under the methods' names; `_append`, `_trim_memory`
--   and `_rotate_if_needed` are append, trim_memory and rotated. Calls has histories of calls;
--   Ordered and Replay are lemmas on ordered dicts and on logs; Log, Recovery and Index are proofs.
-- Nodes: `DesktopNodeService` of app/desktop_nodes/service.py over the journal. Models is its
--   state; Queue/Agents is register and heartbeat, Queue/Dispatch submit and call (enqueue, up to
--   their wait) and claim (claim and, after a wait, next_claim), Queue/Results submit_result,
--   `_remove_command` and the ends of call (give_up). Calls has histories of calls; Moves says what a
--   call may do to the nodes, Steps and ClaimSteps show it of each call; Journaled relates a command
--   to its operation in the journal; Once, Limits and Ends are proofs. Recovery is
--   `_recover_incomplete_operations`, with its proof.
-- Coordinator: `CoordinatorService`. Models is its state; Rules the tests and small updates
--   (`_lease_active`, `_other_claim_until`, `_touch_delivery_lease`, `_save_state` without the file);
--   Texts what it does with strings; Arming is `arm`, `_coalesce_resilient_locked` and
--   `_promote_queued_locked`; Delivery is `status` (Readiness), `claim` (Claiming) and
--   `issue_delivery_lease` (Leasing); Transport is `finalize_transport`, `ack`,
--   `authorize_browser_preflight`, the two calls on blocks before a claim, `observe_model_turn`,
--   `model_ack` and `cancel_pending`; Escalation the escalations. The part of an operation after its
--   lock is taken has `_locked` in its name. Calls has histories of calls. Changes says what a call
--   may do to the pending wakes; Steps, ClaimSteps, TransportSteps, AnswerSteps and Effects show it
--   of each call, Cooldown and Keeping what a call does to the cooldown. Sound, Exclusion, Grants,
--   Once, Agreement, Spacing and Packing are proofs.
-- The modules Examples and WaiterExamples hold concrete runs.
--
-- Times of the coordinator are whole milliseconds, where the source has seconds as floats, and a
-- call reads the clock once. `str.isalnum` is its function argument `alnum`, and the value of
-- `_web_backoff_until`, which comes from a file, is an argument. Of the desktop nodes the JSON
-- texts of times, the sizes of JSON values in bytes and their hashes are function arguments, and so
-- is what a result says of its operation and what `_store_result_value` returns or raises. Times and new ids (`_now()`, uuid4,
-- `secrets.token_urlsafe`, `unixepoch()`) are arguments of the operations that draw them. sha256 is
-- a function argument `digest`. The payload mappings of the CAD agent, with their hash and their
-- equality, are the record `Payloads`. The bytes of a journal file are counted by a function
-- argument `size`. No definition uses fuel: every loop of the source that is modelled goes over a
-- list. Counts are natural numbers, as Python's integers are here never negative, and no integer of
-- the code is bounded by a width.
--
-- Not modelled: processes, asyncio tasks, files, HTTP, SQLite's durability and locking (each
-- operation is one atomic statement list), the callbacks of waiters, their restoring and
-- cancelling, the coordinator's session bindings, reports, state file, notices and routes, what the
-- desktop service does with uploads, the texts of results and exports, git and the tools.
mod Prelude
pub mod Errors
pub mod Jobs
pub mod Transactions
pub mod OAuth
pub mod Journal
pub mod Nodes
pub mod Coordinator
