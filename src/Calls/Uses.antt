-- ===== src/Calls/Uses.antt =====
-- The calls that touch no registry: batches, replication, and the uses of a prepared statement.
use ecto_libsql.Common.{Str, List, ℕ, arith}
use ecto_libsql.Libsql.{Libsql, ℤ}
use ecto_libsql.Transaction.Quiet.{IsQuiet}
use ecto_libsql.Statement.{
  find_statement, locked_statement, query_prepared, execute_prepared, statement_column_count,
  statement_column_name, statement_parameter_count, statement_parameter_name, reset_statement,
  get_statement_columns,
}
use ecto_libsql.Batch.{
  execute_batch, execute_transactional_batch, execute_batch_native,
  execute_transactional_batch_native,
}
use ecto_libsql.Replication.{
  get_frame_number, sync_until, flush_replicator, max_write_replication_index, freeze_database,
}

module _ ⦃L : Libsql⦄ where
  open L use {World, Connection, Term, Statement}

  pub query_prepared-IsQuiet :
      (conn_id stmt_id : Str) (args : List Term) → IsQuiet (query_prepared conn_id stmt_id args)
  unfolding query_prepared find_statement
  query_prepared-IsQuiet conn_id stmt_id args t = ground arith

  pub execute_prepared-IsQuiet :
      (conn_id stmt_id : Str) (args : List Term) → IsQuiet (execute_prepared conn_id stmt_id args)
  unfolding execute_prepared find_statement
  execute_prepared-IsQuiet conn_id stmt_id args t = ground arith

  pub execute_batch-IsQuiet :
      (conn_id : Str) (statements : List Term) → IsQuiet (execute_batch conn_id statements)
  unfolding execute_batch
  execute_batch-IsQuiet conn_id statements t = ground arith

  pub execute_transactional_batch-IsQuiet :
      (conn_id : Str) (statements : List Term)
      → IsQuiet (execute_transactional_batch conn_id statements)
  unfolding execute_transactional_batch
  execute_transactional_batch-IsQuiet conn_id statements t = ground arith

  pub execute_batch_native-IsQuiet :
      (conn_id sql : Str) → IsQuiet (execute_batch_native conn_id sql)
  unfolding execute_batch_native
  execute_batch_native-IsQuiet conn_id sql t = ground arith

  pub execute_transactional_batch_native-IsQuiet :
      (conn_id sql : Str) → IsQuiet (execute_transactional_batch_native conn_id sql)
  unfolding execute_transactional_batch_native
  execute_transactional_batch_native-IsQuiet conn_id sql t = ground arith

  pub get_frame_number-IsQuiet : (conn_id : Str) → IsQuiet (get_frame_number conn_id)
  unfolding get_frame_number
  get_frame_number-IsQuiet conn_id t = ground arith

  pub sync_until-IsQuiet : (conn_id : Str) (frame_no : ℕ) → IsQuiet (sync_until conn_id frame_no)
  unfolding sync_until
  sync_until-IsQuiet conn_id frame_no t = ground arith

  pub flush_replicator-IsQuiet : (conn_id : Str) → IsQuiet (flush_replicator conn_id)
  unfolding flush_replicator
  flush_replicator-IsQuiet conn_id t = ground arith

  pub max_write_replication_index-IsQuiet :
      (conn_id : Str) → IsQuiet (max_write_replication_index conn_id)
  unfolding max_write_replication_index
  max_write_replication_index-IsQuiet conn_id t = ground arith

  pub freeze_database-IsQuiet : (conn_id : Str) → IsQuiet (freeze_database {A = Unit} conn_id)
  unfolding freeze_database
  freeze_database-IsQuiet conn_id t = ground arith

  pub statement_column_count-IsQuiet :
      (conn_id stmt_id : Str) → IsQuiet (statement_column_count conn_id stmt_id)
  unfolding statement_column_count locked_statement find_statement
  statement_column_count-IsQuiet conn_id stmt_id t = ground arith

  pub statement_column_name-IsQuiet :
      (conn_id stmt_id : Str) (idx : ℕ) → IsQuiet (statement_column_name conn_id stmt_id idx)
  unfolding statement_column_name locked_statement find_statement
  statement_column_name-IsQuiet conn_id stmt_id idx t = ground arith

  pub statement_parameter_count-IsQuiet :
      (conn_id stmt_id : Str) → IsQuiet (statement_parameter_count conn_id stmt_id)
  unfolding statement_parameter_count locked_statement find_statement
  statement_parameter_count-IsQuiet conn_id stmt_id t = ground arith

  pub statement_parameter_name-IsQuiet :
      (conn_id stmt_id : Str) (idx : ℤ) → IsQuiet (statement_parameter_name conn_id stmt_id idx)
  unfolding statement_parameter_name locked_statement find_statement
  statement_parameter_name-IsQuiet conn_id stmt_id idx t = ground arith

  pub reset_statement-IsQuiet : (conn_id stmt_id : Str) → IsQuiet (reset_statement conn_id stmt_id)
  unfolding reset_statement locked_statement find_statement
  reset_statement-IsQuiet conn_id stmt_id t = ground arith

  pub get_statement_columns-IsQuiet :
      (conn_id stmt_id : Str) → IsQuiet (get_statement_columns conn_id stmt_id)
  unfolding get_statement_columns locked_statement find_statement
  get_statement_columns-IsQuiet conn_id stmt_id t = ground arith
