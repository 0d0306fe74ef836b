-- ===== src/Lib.antt =====
-- reachard: an HTTP server that keeps a table of targets in PostgreSQL, and a client that polls the
-- targets and records whether they are up.
--
-- Parts. `main` (src/main.c) reads the environment, connects to the database, applies the
-- migrations, starts a client thread and a server thread, and waits for a signal. libmicrohttpd calls
-- `reachard_handle` of the server once per request with the headers, then once per chunk of the body,
-- then once without a chunk; the handler of the method runs a query and queues a response. Each thread
-- has a connection of its own.
--
-- Files.
--   Prelude, Prelude/*: names of the libraries passed on, Boolean tests, lists, tables with a key, C
--     integers.
--   Text, Text/*: C strings, `atoi` and `snprintf` with `%d`.
--   System: the state of the process, `World`: connections, results and blocks that are held, JSON
--     trees, the answers of the allocator, the responses queued. A step is a `World` to an optional
--     result with a `World`; `none` is undefined behaviour (a dead connection, a null string).
--     libpq is the record `Postgres`.
--   Database: src/database/database.c. Database/Connecting: what it opens and closes.
--   Database/Targets: src/database/targets.c, src/database/targets.h, src/database/macros.c.
--     `add`, `delete`, `get`, `get_all` stand for the functions `reachard_db_targets_...`.
--   Database/Targets/Update: `reachard_db_targets_update`, the text of the statement and its
--     parameters; Update/Text and Update/Params are on these two.
--   Database/Table: what the queries rely on, the record `IsTable`. Database/Refines/*: the queries
--     against a list of rows. Database/Blank: rows without their status.
--   Database/Migrate: src/database/migrate.c. Database/Migrate/Rules: the record
--     `IsTransactional`, the rules of PostgreSQL for its transactions, and the four statements of a
--     migration. Database/Migrate/Runs: one migration, and the loop. Database/Migrate/Whole: the
--     whole run, with `HasVersion` on its two queries.
--   Server/Connection, Server/Upload, Server/Url, Server/Handle: src/server/handle.c and
--     src/server/handle.h. Server/Life: the calls of a request in the order that libmicrohttpd
--     documents; Server/Life/* are on whole requests. Server/Request: src/server/request.c.
--     Server/Json: cJSON, a parameter.
--   Server/Spec: what a request promises, a function on the rows of the table, with neither
--     connections nor blocks. Spec/Bodies and Spec/Steps are on one request, Spec/Runs on any
--     sequence of them, Spec/Unique and Spec/Apart on what holds throughout a sequence,
--     Spec/Blank on the status of the rows, which no answer shows.
--   Server/Targets: src/server/handle/targets.c; Server/Targets/* are on its handlers.
--     Server/Daemon: src/server/server.c, without the calls of libmicrohttpd.
--   Env: src/env/env.c.
--   Client: the start and the end of src/client as the main thread sees them. Client/Targets:
--     src/client/targets.c. Client/Watcher: src/client/watcher.c; its hash table is a list.
--     Client/Sockets: the socket and timer functions of src/client/state.c. Client/Loop: the rest of
--     that file, and the events of the thread; Client/Loop/* are on what holds between two events, on
--     the loop over libcurl's messages, and on the thread from start to stop. Client/Thread: how
--     src/client/client.c starts and stops the thread, up to the return of `uv_run`;
--     Client/Thread/Ended is on what is left then.
--   Shared: both threads on the table, the handlers of the requests and the callbacks of one target
--     in any order; Shared/Status is on the status of the target, Shared/Rows on the rows.
--   Threads: both threads whole, requests from their first call to their completion and events of the
--     client's loop in any order; Threads/Kept is on what each leaves to the other, Threads/Shown on
--     what a client of the server sees of both.
--   Main: src/main.c, with the threads between their start and their stop. Main/Exits: the labels
--     before the threads. Main/Served: the process where both threads start. Main/Alone: where one
--     of them does not.
--   Generator: generators/migrations.c, the file that it writes; Generator/Header is on that text.
--   Tests/*: a table in memory, which reads and runs the five statements and meets the assumptions,
--     a server that keeps a schema version, and concrete runs.
--
-- Conventions. `int` is ℤ with `IsInt32`, and conversions wrap (`to_int32`, `to_uint16`). A buffer of
-- `INT_STR_LEN`, 12 bytes, takes 11 characters, enough for any 32-bit `int`. `atoi` is glibc's on a
-- 64-bit `long`: the value clamped to `long`, then cut to `int`. `decimal` runs on fuel `suc n`, more
-- than the digits of n. The client's thread and the requests run over a list of what comes next, of
-- any length, so that no fuel is needed. A counter that is an `int` and goes up past the largest one
-- is a fault. A call that never returns is a fault too. A byte of an uploaded body that was never written is told
-- apart from one that was. `reachard_db_targets_update` and the handlers run on one connection at a
-- time.
--
-- Not modelled. When an event comes, what libcurl calls back, the order in which libuv closes
-- handles and whether `uv_run` returns, which are arguments; which thread runs the loop at the stop;
-- creating and joining threads, and signals, of which only the outcome
-- counts; two steps of the two threads at the same time, since a request, an event, and the start of
-- the client's thread before the first request are one step each; the SQL of src/database/migrations;
-- output on stderr. PostgreSQL, cJSON, libmicrohttpd, libuv and libcurl are parameters, or outcomes.
pub mod Prelude
pub mod Text
pub mod System
pub mod Database
pub mod Server
pub mod Env
pub mod Client
pub mod Main
pub mod Shared
pub mod Threads
pub mod Generator
pub mod Tests
