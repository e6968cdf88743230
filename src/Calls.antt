-- ===== src/Calls.antt =====
-- The NIFs over the state as one machine: a call and the state that it leaves, and sequences of
-- calls. The three hooks take no part, since they read nothing and change nothing.
mod Defs
pub mod Uses
pub mod Effects
pub mod Handles
pub mod Issued
pub mod Removed
pub mod Refines
pub mod Survives
pub mod Cursors
pub mod Kept
pub mod Holding
pub mod Unreachable
pub mod Rejected
pub mod Closed
pub mod Fetches
pub use Defs.*
use ecto_libsql.Common.{List, [], ◌∷◌}
use ecto_libsql.Libsql.{Libsql}
use ecto_libsql.State.{State}
use ecto_libsql.Connection as Con
use ecto_libsql.Query as Qry
use ecto_libsql.Transaction as Trx
use ecto_libsql.Savepoint as Sav
use ecto_libsql.Cursor as Cur
use ecto_libsql.Statement as Stm
use ecto_libsql.Batch as Bat
use ecto_libsql.Metadata as Met
use ecto_libsql.Replication as Rep

module _ ⦃L : Libsql⦄ where
  unfoldable pub run : Call → State → State
  run (Call.connect opts mode) s = (Con.connect opts mode s).1
  run (Call.ping conn_id) s = (Con.ping conn_id s).1
  run (Call.close id opt) s = (Con.close id opt s).1
  run (Call.set_busy_timeout conn_id timeout_ms) s = (Con.set_busy_timeout conn_id timeout_ms s).1
  run (Call.reset_connection conn_id) s = (Con.reset_connection conn_id s).1
  run (Call.interrupt_connection conn_id) s = (Con.interrupt_connection conn_id s).1
  run (Call.enable_load_extension conn_id enabled) s =
      (Con.enable_load_extension conn_id enabled s).1
  run (Call.load_extension conn_id path entry_point) s =
      (Con.load_extension conn_id path entry_point s).1
  run (Call.query_args conn_id sql args) s = (Qry.query_args conn_id sql args s).1
  run (Call.do_sync conn_id mode) s = (Qry.do_sync conn_id mode s).1
  run (Call.pragma_query conn_id sql) s = (Qry.pragma_query conn_id sql s).1
  run (Call.begin_transaction conn_id) s = (Trx.begin_transaction conn_id s).1
  run (Call.begin_transaction_with_behavior conn_id behavior) s =
      (Trx.begin_transaction_with_behavior conn_id behavior s).1
  run (Call.execute_with_transaction trx_id conn_id sql args) s =
      (Trx.execute_with_transaction trx_id conn_id sql args s).1
  run (Call.query_with_trx_args trx_id conn_id sql args) s =
      (Trx.query_with_trx_args trx_id conn_id sql args s).1
  run (Call.handle_status_transaction trx_id) s = (Trx.handle_status_transaction trx_id s).1
  run (Call.commit_or_rollback_transaction trx_id conn_id param) s =
      (Trx.commit_or_rollback_transaction trx_id conn_id param s).1
  run (Call.savepoint conn_id trx_id name) s = (Sav.savepoint conn_id trx_id name s).1
  run (Call.release_savepoint conn_id trx_id name) s =
      (Sav.release_savepoint conn_id trx_id name s).1
  run (Call.rollback_to_savepoint conn_id trx_id name) s =
      (Sav.rollback_to_savepoint conn_id trx_id name s).1
  run (Call.declare_cursor conn_id sql args) s = (Cur.declare_cursor conn_id sql args s).1
  run (Call.declare_cursor_with_context conn_id id id_type sql args) s =
      (Cur.declare_cursor_with_context conn_id id id_type sql args s).1
  run (Call.fetch_cursor conn_id cursor_id max_rows) s =
      (Cur.fetch_cursor conn_id cursor_id max_rows s).1
  run (Call.prepare_statement conn_id sql) s = (Stm.prepare_statement conn_id sql s).1
  run (Call.query_prepared conn_id stmt_id args) s = (Stm.query_prepared conn_id stmt_id args s).1
  run (Call.execute_prepared conn_id stmt_id args) s =
      (Stm.execute_prepared conn_id stmt_id args s).1
  run (Call.statement_column_count conn_id stmt_id) s =
      (Stm.statement_column_count conn_id stmt_id s).1
  run (Call.statement_column_name conn_id stmt_id idx) s =
      (Stm.statement_column_name conn_id stmt_id idx s).1
  run (Call.statement_parameter_count conn_id stmt_id) s =
      (Stm.statement_parameter_count conn_id stmt_id s).1
  run (Call.statement_parameter_name conn_id stmt_id idx) s =
      (Stm.statement_parameter_name conn_id stmt_id idx s).1
  run (Call.reset_statement conn_id stmt_id) s = (Stm.reset_statement conn_id stmt_id s).1
  run (Call.get_statement_columns conn_id stmt_id) s =
      (Stm.get_statement_columns conn_id stmt_id s).1
  run (Call.execute_batch conn_id statements) s = (Bat.execute_batch conn_id statements s).1
  run (Call.execute_transactional_batch conn_id statements) s =
      (Bat.execute_transactional_batch conn_id statements s).1
  run (Call.execute_batch_native conn_id sql) s = (Bat.execute_batch_native conn_id sql s).1
  run (Call.execute_transactional_batch_native conn_id sql) s =
      (Bat.execute_transactional_batch_native conn_id sql s).1
  run (Call.last_insert_rowid conn_id) s = (Met.last_insert_rowid conn_id s).1
  run (Call.changes conn_id) s = (Met.changes conn_id s).1
  run (Call.total_changes conn_id) s = (Met.total_changes conn_id s).1
  run (Call.is_autocommit conn_id) s = (Met.is_autocommit conn_id s).1
  run (Call.get_frame_number conn_id) s = (Rep.get_frame_number conn_id s).1
  run (Call.sync_until conn_id frame_no) s = (Rep.sync_until conn_id frame_no s).1
  run (Call.flush_replicator conn_id) s = (Rep.flush_replicator conn_id s).1
  run (Call.max_write_replication_index conn_id) s = (Rep.max_write_replication_index conn_id s).1
  run (Call.freeze_database conn_id) s = (Rep.freeze_database {A = Unit} conn_id s).1

  -- One call after the other.
  unfoldable pub run_all : List Call → State → State
  run_all [] s = s
  run_all (c ∷ cs) s = run_all cs (run c s)
