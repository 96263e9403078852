-- ===== src/Lib.antt =====
-- Katydid: a control plane that takes repository events and operators' requests, keeps them as
-- durable tasks in SQLite, and lets workers execute them under fenced leases.
--
-- The parts of the program and what is modelled
--   * src/katydid/store.py, the durable store (tasks, their event log, event groups, provider
--     deliveries): every table and every method. `record_release_success` (Store/Success) takes the
--     outcomes of its work on files as arguments, and is not a call of Store/History.
--   * src/katydid/evidence.py, the gate that decides whether the results of the planned checks are
--     enough: `evaluate_gate` (Evidence/Results, Evidence/Gate). Each message is a constructor of
--     `Reason`. `read_junit` is not modelled.
--   * src/katydid/events.py, the ingress of GitHub deliveries, which stores tasks through the store:
--     Ingress/Payload (the checks of the JSON), Ingress/Readers (the configuration of
--     src/katydid/fleet.py that it uses, and the answer), Ingress/Reconcile (`_duplicate`,
--     `_replay`, `_ignored`, `_store_grouped`), Ingress/Events and Ingress/Dispatch (the three events
--     and `ingest`). `_gh_pull_request` starts a process and is a parameter.
--   * src/katydid/environment.py, the lifecycle of a test environment: Environment/Session (the
--     fields and what is asked of the world), Environment/Prepare (`prepare`), Environment/Cleanup
--     (`cleanup`).
--   * src/katydid/runner.py, the run of a plan: `run_plan` with its environment, its Docker session
--     and its gate (Runner/Run). `_execute`, which starts a process, is an answer of the world.
--   * src/katydid/tasks.py, the intent of a task: Tasks.
--   * src/katydid/controller.py, the orchestration: Controller/Setting (the configuration, the
--     answers, the state of a call), Controller/Steps (what the parts share), Controller/Repairing
--     (the repair loop), Controller/Delivering (commit, publication, merge), Controller/Releasing
--     (`_release`), Controller/Execute (`execute`), Controller/Queue (`enqueue`, `discover`,
--     `work_once`).
--   * src/katydid/webhook.py, the signed HTTP boundary of the ingress: Webhook/Post, from the headers
--     of a POST to its status. HMAC-SHA-256 and the string methods of Python's library are
--     parameters; the text of a reply and the server are left out.
--   * The other parts (onboarding, the Docker isolation, deployment, the dashboard, the AI providers,
--     the work on Git checkouts) use these or are used by them. They are not modelled.
--
-- How the store is modelled
--   * Store/Schema: the tables of `Store.__init__`, one record per row; `Db` holds the tables in
--     the order of insertion. A column with JSON holds the `Value` of Json.antt, which stands for
--     its canonical text: `_json` sorts the members, and so does `normal`.
--   * Base/Effects: a method is a term of `Exec Db A`, from the tables before to a result or an
--     exception and the tables after. `write` (Store/Transaction) is `_write`: BEGIN IMMEDIATE,
--     COMMIT, and ROLLBACK on any exception.
--   * Store/Transaction: `_json`, `_task`, `_required_task`, `_event`, `_event_inputs`,
--     `_validate_ttl`, `_validate_lease`. Store/Creation: `create_task`, `get_task`, `list_tasks`,
--     `events`. Store/Leases: `claim`, `renew`, `assert_active`, `reserve_ai_call`, `transition`,
--     `release`. Store/Control: `control`, `recover_expired`. Store/Ingest and Store/Supersede:
--     `ingest_event` and its readers `get_event`, `get_replay`, `group_version`.
--   * Each method takes `now`, its reading of `time.time()`, in microseconds, and a creation takes
--     the identifier that `uuid.uuid4().hex` gives it. No method has a loop without a bound, so no
--     fuel is needed: the loops run over the rows that a query has returned.
--
-- How the proofs are built
--   * Store/Outcome: a program logic for the methods: what holds of the tables when a method
--     returns, and that they are the tables before it when it raises.
--   * Store/Machine: the contract of the store as a step relation on the tables of tasks and
--     events: a method may insert a task, or make one of six changes to one, and logs it.
--     Store/Claiming, Working, Controlling, Recovering, Creating, Superseding, Replacing and
--     Ingesting show that each method keeps to it.
--   * Store/Invariant: what holds of the tables after any steps. Store/History: sequences of calls
--     by all workers, operators and providers, in the order of the commits; History, Finality,
--     Effects and Fencing follow by induction on them.
--     Store/Tests and Store/Samples run small histories.
--
-- How the ingress is modelled
--   * `Outside` holds what the ingress asks of others: the decoder of JSON bytes, digests,
--     casefold, the readers of GitHub and Git in each attempt, and `others`, what other connections
--     commit to the store between its calls and before `build_payload` is called, which is a
--     function of the attempt and the moment. The loop of `_store_grouped` runs for
--     MAX_RECONCILE_ATTEMPTS, which is the source's bound.
--   * Ingress/Current shows what the loop stores, Ingress/Authority what the tasks ask for.
--   * Evidence/Accepting shows what the gate accepts, Evidence/Soundness what follows for a check.
--
-- How the environment, the runner and the controller are modelled
--   * Each asks a `World` (the runner a `Host`), a record of answers, each to the question of a number that the state
--     counts, so that nothing is assumed of two answers to the same question. What was done is a
--     log in the state, with the newest entry first; an effect is logged before it is tried. In
--     the controller, a call of the store is logged with the events that it has appended, a
--     reading of Git, a run and a review with what was answered. The clock of the environment is
--     in microseconds; a wait is asked with its timeout.
--   * The store is called by the methods of Store, after `others`, what other connections and the
--     heartbeat have committed until then. In a release, the outcome of the files' tests is read
--     before the transaction that depends on them.
--   * The loops of the environment run for `max_attempts`; the delay between two probes has fuel
--     for each microsecond, and Environment/Delay shows that it returns. The repair loop runs for
--     `repair_attempts`.
--   * Base/Triples: a program logic for such code. Controller/Guards says what must come before each
--     entry of the log, Controller/Steady has the rules for code that keeps such facts,
--     Controller/Observing those for what an answer or a call of the store shows, and
--     Controller/Steadiness, Deploying, Released, Reviewing, Delivered and Executed apply them.
--     Controller/Settling shows how a task whose work has failed is left.
--
-- What is assumed
--   * SQLite executes the write transactions one after another (BEGIN IMMEDIATE). The theorems on
--     histories say where they need that the clock readings do not decrease in the order of the
--     commits; store.py reads the clock before it has the lock.
--   * The times and the JSON numbers are compared exactly, as if floats were microseconds.
--   * Errors of the disk and of SQLite itself, and what `Store.__init__` does to the file system,
--     are not modelled.
pub mod Base
pub mod Json
pub mod Evidence
pub mod Environment
pub mod Tasks
pub mod Controller
pub mod Runner
pub mod Ingress
pub mod Webhook
pub mod Store
