-- ===== src/Lib.antt =====
-- retsu: a message queue over PostgreSQL.
--
-- The program has a domain (src/modules/queue/domain), use cases over a repository
-- (src/modules/queue/application), the repository over PostgreSQL
-- (src/modules/queue/infrastructure/postgres.rs, migrations/), caches in front of it, HTTP handlers,
-- and workers that call the maintenance use cases. A request is validated by the domain; the use
-- case then calls the repository, whose every operation is one SQL statement.
--
-- Which file models what:
-- - Base: shared helpers. Lists with native lengths, results and actions on a state, texts as bytes,
--   ORDER BY, LIMIT and FOR UPDATE SKIP LOCKED, keys of rows, and signed integers.
-- - Domain/Message, Domain/Queue: domain/message.rs and domain/queue.rs. `new_message` is
--   `Message::new`, `new_queue` is `Queue::new`, `parse_name` is `QueueName::parse`, `new_settings`
--   is `QueueSettings::new`, `new_update` is `QueueConfigurationUpdate::new`. An identifier that the
--   code draws from a generator is an argument.
-- - Repository: application/repository.rs. `QueueRepository S` is the trait, over a state `S`.
-- - Postgres/Tables: the tables of migrations/ and their constraints; the session of a statement
--   (its time, the rows that others have locked, the order of texts, and what fails around it).
-- - Postgres/Queues, Messages, Dequeue, Cleanup: the operations of `PostgresQueueRepository`, by
--   their names. A statement is a function on the tables that is `none` where a constraint is
--   violated; the Rust code that converts its reply is modelled as it stands.
-- - Postgres/Calls: a call of the repository as one step, and histories of calls.
-- - Postgres/Invariant, Leases, DeadLetters, Acknowledgement, Receipts, Maintenance, Configuration,
--   Persistence, Servable, Progress: what is proved of them. Application/Laws: what is proved of a
--   use case.
-- - Application: the use cases, one file for each; `execute` is the function of that name. World is
--   the state of a client whose calls run in sessions of their own, between other clients' calls.
-- - Cache/Redis, Cache/Shared: cache/redis_protocol.rs and infrastructure/l2.rs, the shared cache of
--   queue details. Cache/Memory, Cache/Local: cache/memory.rs and infrastructure/l1.rs, the in-process
--   cache of names. Both stand over any repository; the server, moka, JSON, the printing of
--   identifiers and the timer are parameters. Cache/Keys, Coherence, Waiting, Origins, Weights, Names:
--   what is proved of them.
-- - Configuration/Schema, Defaults, Loading: configuration/. `validate_…` is the `Validate` of a
--   struct. Limits: what the ranges rule out in the caches and the cleaners.
-- - Worker/Cleaner, Collector, Serve: the loops of modules/queue/worker, by what each `select!` finds,
--   and worker/mod.rs. Loops, Leadership, Exits: how they end.
-- - Api/Module: the methods of `QueueModule` with the counters they move. Api/Errors, Requests,
--   Handlers: api/error.rs, api/extractors.rs and modules/queue/api. Api/RequestId: http/request_id.rs.
--   Counters, Statuses, Identified: what is proved of them.
-- - Entry/Modules, Dispatch: modules/mod.rs, modules/definition.rs, entrypoints/dispatch.rs and the
--   commands of cli.rs; the functions take the catalog. Entry/Running: lib.rs, entrypoints/, app/mod.rs
--   and the shutdown of observability/mod.rs. The registration of
--   a pool with its gauge is a parameter, and so are the handles of the pool. Resolution, Closing: what
--   is proved of them.
-- - Rollups/Shards, Trigger, Backfill: migrations/20260727190617_create_queue_priority_state_rollups.sql,
--   the counts of messages by queue, priority and state. `adjust` is adjust_queue_priority_state,
--   `changes` is maintain_queue_priority_state. Rollups/Calls: a call of the repository with the
--   triggers that it fires. Tallies, Having, Adjustment, Replacement, Firing, Execution, Agreement,
--   Histories: how the counts follow the messages.
-- - Rollups/Collector: infrastructure/state_collector.rs. Rollups/Metrics: the methods of
--   `QueueModule` around it and observability/metrics/queue_state.rs. Ages, Reading, Gauges,
--   Refreshes, Leadership: what is proved of them. Leadership has the steps of processes and of the
--   database on the lock, a session's death included.
-- - Http/Request, Metrics, Tracing: http/request.rs, http/metrics.rs with observability/metrics/http.rs,
--   and http/tracing.rs, around any service. Records, Measurements: what is proved of them.
-- - the modules named Tests: runs, and each theorem at work on concrete data.
--
-- Conventions and bounds. Times count microseconds. Counts are natural numbers, and the sums of the
-- summaries are taken without the bound of u64, which no table can reach. The conversions of
-- `try_from` keep their bounds, and a failed `expect` is the result `panicked`. The one loop
-- without a bound, in which a client of the shared cache waits for the lock of a load, runs for a
-- number of rounds, and 201 are enough while the lock's two seconds pass. A statement is atomic; a
-- row locked by another transaction is one that SKIP LOCKED passes over. A statement that fails
-- changes nothing: the gaps that it leaves in the identity column are left out, as are timestamps
-- out of PostgreSQL's range.
--
-- Each change of a count is kept as what it adds and what it takes. An age of the collector is a whole
-- number of microseconds. A trigger runs within its statement; the locks that order concurrent
-- adjustments are left out.
--
-- Not modelled: logs, the spans but that of an HTTP request, the text of most errors, routing, the
-- parsing of the command line, compression and default headers, the export of metrics, health endpoints and
-- signals, and the construction of clients of libraries, which are input and output around libraries.
pub mod Base
pub mod Domain
pub mod Repository
pub mod Postgres
pub mod Rollups
pub mod Http
pub mod Configuration
pub mod Entry
pub mod Api
pub mod Worker
pub mod Cache
pub mod Application
