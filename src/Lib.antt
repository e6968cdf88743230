-- ===== src/Lib.antt =====
-- The native part of ecto_libsql: the Rust NIFs in native/ecto_libsql/src over the libsql crate.
--
-- The program keeps four global registries behind mutexes: connections, transactions, prepared
-- statements and cursors, each a map from identifiers to entries. A NIF locks a registry, looks an
-- entry up, checks that it is the calling connection's, and calls libsql. A transaction is taken
-- out of its registry by a guard for the time of a call and put back when the guard is dropped,
-- unless it was consumed. Statements are sent to `query` or `execute` of libsql by a scan of their
-- bytes.
--
-- Which file models which part (paths from native/ecto_libsql/src):
--   State        models.rs, the registries of constants.rs, safe_lock and safe_lock_arc of utils.rs
--   Decode       decode.rs
--   Routing      detect_query_type, skip_whitespace_and_comments and should_use_query of utils.rs,
--                should_use_query_path of hooks.rs; Checked has the accesses that could panic
--   Values       decode_term_to_value, collect_rows and build_empty_result of utils.rs
--   Constraint   enhance_constraint_error of utils.rs; Text has the string methods it calls
--   Transaction  transaction.rs
--   Savepoint    savepoint.rs
--   Cursor       cursor.rs
--   Statement    statement.rs
--   Query        query.rs, and sync_with_timeout of utils.rs
--   Batch        batch.rs
--   Metadata     metadata.rs
--   Connection   connection.rs
--   Replication  replication.rs
--   Hooks        hooks.rs
--   Fuzz         the fuzz targets, in native/ecto_libsql/fuzz/fuzz_targets
--   Concurrent   the guard of transaction.rs on several threads: what runs under one lock of the
--                registry, or one use of the database by a thread with a guard, is one step;
--                Concurrent/Delivery has the registry of cursors, and Concurrent/Locks the mutexes
--                that each NIF of all files locks, in order
--   Calls        all NIFs as one machine: a call, the state behind it, and sequences of calls
-- Common has the shared helpers, Effect the results and the monad, Isolation the theorems over
-- several of the NIFs, and Tests a small database with the runs of the theorems on it. Functions
-- have the names of the source; the functions between are the blocks of a long function.
--
-- How the code is read. A NIF is a function from the state to a result and the state it leaves, on
-- success and on error. The libsql, rustler, tokio and uuid crates are the record Libsql, an
-- instance argument: their state is one World, which their calls read and change, and nothing is
-- assumed of them but what a theorem names as a hypothesis. The destructors of a transaction, a
-- statement and a connection with its database are operations of that record, called where the
-- source drops the last owner; a database that no connection came of is dropped without an effect.
-- Rows are what successive calls of `next` return, a finite sequence that may end in an error. A
-- mutex is its poison flag and its content; no code here sets the flag, it is set by a panic of
-- another thread. Registries are association lists whose order is never read. Atoms are their
-- names, strings their code points, and `as_bytes` is UTF-8. Timeouts are an operation that may
-- give no result. Upper-casing is a parameter.
--
-- Numbers. Positions are natural numbers, every index into the bytes is checked, and a subtraction
-- below zero is `none`, as it would panic. The loops of the scan have one unit of fuel more than
-- there are bytes, since each pass moves the position on; that this suffices is proved below.
-- `saturating_sub` is the subtraction of natural numbers.
--
-- Threads. Outside Concurrent each NIF runs as one step. Concurrent has the registry of
-- transactions alone: its guards are those that threads hold, any number of them, and everything
-- that leaves that registry alone is one kind of step. An issued UUID is there taken to be none
-- that a thread holds. Concurrent/Delivery has the registry of cursors in the same way, where a
-- step is what runs under one lock of it, and a panic under that lock is a step too.
-- Concurrent/Locks has any number of threads and the mutexes alone, with an early return at any
-- point; it does not say what the calls of libsql in between wait for.
--
-- Not modelled: the interleaving of the NIFs of connections and statements but for their mutexes,
-- the tokio runtime, logging, the registration of NIFs in lib.rs, and the Elixir code in lib.
pub mod Common
pub mod Effect
pub mod Libsql
pub mod State
pub mod Text
pub mod Decode
pub mod Checked
pub mod Routing
pub mod Values
pub mod Constraint
pub mod Transaction
pub mod Isolation
pub mod Savepoint
pub mod Cursor
pub mod Statement
pub mod Query
pub mod Batch
pub mod Metadata
pub mod Connection
pub mod Replication
pub mod Hooks
pub mod Fuzz
pub mod Concurrent
pub mod Calls
pub mod Tests
