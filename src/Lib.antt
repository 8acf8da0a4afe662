-- ===== src/Lib.antt =====
-- The Discogs loader: it consumes the records of a Discogs dump from a message broker and keeps them
-- in PostgreSQL, as rows of four entity tables and as vertices and edges of a `graph` schema.
--
-- A record is a JSON document of one of the types artists, labels, masters and releases, with an id and
-- a content hash. It is written alone (`persist_record`) or in a batch (`process_batch`): both resolve
-- its native id, gate on the hash, write its entity row, attach the aliases that it prints and write the
-- rows that it asserts in the graph, in one transaction. When a type's dump has been read, a signal
-- purges the rows that the dump did not refresh, and when every type's has, a derived pass runs once.
--
-- Which file models which part:
--   Json, Text        JSON values and the methods of Python's `str` that the loader calls; a text is the
--                     list of its code points
--   Common            the functions of the shared package `common`, and Python's Unicode tables
--   Media             tableinator/media.py: media_for_release, _flatten_formats
--   Graph, Graph/Ids, Graph/Credits, Graph/MediaRows, Graph/Derive
--                     tableinator/graph_derivation.py: derive_document, which gives the rows that a
--                     document asserts and the relations that it replaces, with all that it calls
--   Graph/Order, Graph/Writer
--                     tableinator/graph_writer.py: the order of the rows, the statements of
--                     write_document_graph, and purge_document_graph
--   Identity          tableinator/identity.py: alias_ref, alias_targets, attach_alias_targets
--   Entities, Entities/Batch, Entities/Statements, Entities/Write
--                     tableinator/batch_writer.py: process_batch, its loop and its SQL statements
--   Entities/Record, Entities/Purge
--                     tableinator/record_persistence.py: persist_record, purge_stale_rows
--   Latch             tableinator/extraction_latch.py: signals, vetoes and stamps of an extraction
--   Table             a list of rows known by a key, with the statements that change it
--   Durable           tableinator/durable_refresh.py: the relations of the cursor, the latches and the
--                     jobs; _advance_cursor and _upsert_job
--   Durable/Version   the same file's ordered_version
--   Durable/Signal    _reconcile_legacy and record_durable_signal
--   Durable/Job       claim_due_job, _owns_lease, _before_refresh, _before_commit, _heartbeat and
--                     _mark_after_failure
--   Durable/System    deliveries, restarts and workers (run_worker_once) as events in any order
--   Counters          tableinator/graph_counters.py: the reconciliation of member_of and same_as with
--                     the rows that the current documents assert
--   Handler           tableinator/tableinator.py: the globals that _process_data_message reads and
--                     changes, what it is answered and its effects, in order
--   Handler/Terminal  purge_veto_reason, persist_purge_veto, purge_stale_rows and the branch for an
--                     extraction_complete
--   Handler/Message   the branch for a file_complete, the records, and _process_data_message
--   Batch/Config, Batch/Sink
--                     tableinator/batch_processor.py: validate_stall_s, BatchConfig, and
--                     PostgreSQLBatchSink.write with _isolate
--   Batch/Isolation   the bisection of _isolate, and over the writes of an entity table (Writes)
--   Batch/Observer    the same file's PostgreSQLBatchObserver, for one data type, and stalled
-- The modules below these hold the proofs, named for what they are about; Tests holds runs on concrete
-- inputs.
--
-- How state is modelled. A table is a list of rows (for the graph, a function from relations to such
-- lists), and an SQL statement is a function from tables to tables, which gets the transaction's
-- NOW() as a number. A transaction that fails leaves no trace, so a write gives a result or a
-- failure. The unique indexes of the graph tables are declared in another repository and are a
-- parameter (`Keys`), as are `resolve_aliases`, `alias_refs_for_release` and the media resolver
-- (`Services`), and which texts, JSON values and graph rows PostgreSQL refuses (`Refusals`: a NUL,
-- an integer beyond `bigint`); a write that binds a refused value fails. `attach_aliases` is not
-- run: a write gives what it is handed, and its errors are none of the model's. What
-- `PostgreSQLFailureClassifier` makes of a failure is a parameter of the bisection
-- (Batch/Isolation/Writes). Durations are whole milliseconds, and the purge's cap is a fraction of
-- two naturals where the source divides floats. Of the message handler, the answers of the broker
-- and of the database (`Answers`) are a parameter of each delivery, and its calls of the broker
-- succeed; the latch relation keeps the columns of the inline refresh and of the vetoes apart from
-- those of the durable refresh. So the row without a generation that a veto may insert is not among
-- the events of Durable/System, and neither is a write of the inline refresh, which does not run
-- beside the durable one. Texts are ordered by code points, as the versions YYYYMMDD are in every
-- collation.
--
-- Fuel. The bisection of `_isolate` runs on the number of records: each half is shorter than its batch.
-- The loop over the pages of documents runs on one round more than there are documents: every page but the
-- last takes one at least.
-- The decimal text of a number runs on one more than the number: each round leaves a tenth of it.
--
-- Not modelled: the service lifecycle and the consumer recovery of tableinator/tableinator.py,
-- the schema probe, the health snapshot and the scanner loop of tableinator/durable_refresh.py,
-- the counter refresh of tableinator/graph_counters.py, add_message and flush_queue of
-- tableinator/batch_processor.py, the probe of the latch relation, telemetry, logging, configuration
-- and the scripts. Each transaction is a step by itself; of the durable refresh,
-- whose transactions lock the cursor, every order of such steps is considered.
pub mod Prelude
pub mod Text
pub mod Table
pub mod Json
pub mod Common
pub mod Media
pub mod Graph
pub mod Identity
pub mod Entities
pub mod Latch
pub mod Durable
pub mod Counters
pub mod Handler
pub mod Batch
mod Tests
