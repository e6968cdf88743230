-- ===== src/Calls/Rejected.antt =====
-- Calls on a connection that is not registered, or whose registry is poisoned.
use ecto_libsql.Common.{
  ◌≡◌, ◌≢◌, refl, sym, ◌∙◌, none, some, Option, Str, str, str_eq, subst, Bool-cases, inl, inr,
  if◌then◌else◌,
}
use ecto_libsql.Libsql.{Libsql}
use ecto_libsql.State.{State}
use ecto_libsql.Transaction.{begin_on}
use ecto_libsql.Statement.{find_statement, locked_statement, prepare_on}
use ecto_libsql.Metadata.{locked_connection}
use ecto_libsql.Cursor.{buffer_query}
use ecto_libsql.Connection as Con
use ecto_libsql.Query as Qry
use ecto_libsql.Transaction as Trx
use ecto_libsql.Cursor as Cur
use ecto_libsql.Statement as Stm
use ecto_libsql.Batch as Bat
use ecto_libsql.Metadata as Met
use ecto_libsql.Replication as Rep
use ecto_libsql.Calls.{Call}
use ecto_libsql.Calls.Unreachable.{
  Unreachable, Rejects, then-Rejects, looked_up-Rejects, find_statement-Rejects, locked-Rejects,
  begun-Rejects, with_behavior-Rejects, in_context-Rejects,
}

module _ ⦃L : Libsql⦄ where
  -- The connection that a call is on, for the calls that cannot do without it. `query_with_trx_args`
  -- is not one of them: it looks its connection up only to explain an error, and does without.
  abbrev pub on_connection : Call → Option Str
  on_connection (Call.ping conn_id) = some conn_id
  on_connection (Call.set_busy_timeout conn_id timeout_ms) = some conn_id
  on_connection (Call.reset_connection conn_id) = some conn_id
  on_connection (Call.interrupt_connection conn_id) = some conn_id
  on_connection (Call.enable_load_extension conn_id enabled) = some conn_id
  on_connection (Call.load_extension conn_id path entry_point) = some conn_id
  on_connection (Call.query_args conn_id sql args) = some conn_id
  on_connection (Call.do_sync conn_id mode) = some conn_id
  on_connection (Call.pragma_query conn_id sql) = some conn_id
  on_connection (Call.begin_transaction conn_id) = some conn_id
  on_connection (Call.begin_transaction_with_behavior conn_id behavior) = some conn_id
  on_connection (Call.declare_cursor conn_id sql args) = some conn_id
  on_connection (Call.prepare_statement conn_id sql) = some conn_id
  on_connection (Call.query_prepared conn_id stmt_id args) = some conn_id
  on_connection (Call.execute_prepared conn_id stmt_id args) = some conn_id
  on_connection (Call.statement_column_count conn_id stmt_id) = some conn_id
  on_connection (Call.statement_column_name conn_id stmt_id idx) = some conn_id
  on_connection (Call.statement_parameter_count conn_id stmt_id) = some conn_id
  on_connection (Call.statement_parameter_name conn_id stmt_id idx) = some conn_id
  on_connection (Call.reset_statement conn_id stmt_id) = some conn_id
  on_connection (Call.get_statement_columns conn_id stmt_id) = some conn_id
  on_connection (Call.execute_batch conn_id statements) = some conn_id
  on_connection (Call.execute_transactional_batch conn_id statements) = some conn_id
  on_connection (Call.execute_batch_native conn_id sql) = some conn_id
  on_connection (Call.execute_transactional_batch_native conn_id sql) = some conn_id
  on_connection (Call.last_insert_rowid conn_id) = some conn_id
  on_connection (Call.changes conn_id) = some conn_id
  on_connection (Call.total_changes conn_id) = some conn_id
  on_connection (Call.is_autocommit conn_id) = some conn_id
  on_connection (Call.get_frame_number conn_id) = some conn_id
  on_connection (Call.sync_until conn_id frame_no) = some conn_id
  on_connection (Call.flush_replicator conn_id) = some conn_id
  on_connection (Call.max_write_replication_index conn_id) = some conn_id
  on_connection (Call.freeze_database conn_id) = some conn_id
  on_connection (Call.declare_cursor_with_context conn_id id id_type sql args) =
      if str_eq id_type (str "connection") then some conn_id else none
  on_connection c = none

  -- What it is for a call to be rejected.
  abbrev pub Rejected : Call → State → Type 0
  Rejected (Call.ping conn_id) s = Rejects s (Con.ping conn_id s)
  Rejected (Call.set_busy_timeout conn_id timeout_ms) s =
      Rejects s (Con.set_busy_timeout conn_id timeout_ms s)
  Rejected (Call.reset_connection conn_id) s = Rejects s (Con.reset_connection conn_id s)
  Rejected (Call.interrupt_connection conn_id) s = Rejects s (Con.interrupt_connection conn_id s)
  Rejected (Call.enable_load_extension conn_id enabled) s =
      Rejects s (Con.enable_load_extension conn_id enabled s)
  Rejected (Call.load_extension conn_id path entry_point) s =
      Rejects s (Con.load_extension conn_id path entry_point s)
  Rejected (Call.query_args conn_id sql args) s = Rejects s (Qry.query_args conn_id sql args s)
  Rejected (Call.do_sync conn_id mode) s = Rejects s (Qry.do_sync conn_id mode s)
  Rejected (Call.pragma_query conn_id sql) s = Rejects s (Qry.pragma_query conn_id sql s)
  Rejected (Call.begin_transaction conn_id) s = Rejects s (Trx.begin_transaction conn_id s)
  Rejected (Call.begin_transaction_with_behavior conn_id behavior) s =
      Rejects s (Trx.begin_transaction_with_behavior conn_id behavior s)
  Rejected (Call.declare_cursor conn_id sql args) s =
      Rejects s (Cur.declare_cursor conn_id sql args s)
  Rejected (Call.declare_cursor_with_context conn_id id id_type sql args) s =
      Rejects s (Cur.declare_cursor_with_context conn_id id id_type sql args s)
  Rejected (Call.prepare_statement conn_id sql) s = Rejects s (Stm.prepare_statement conn_id sql s)
  Rejected (Call.query_prepared conn_id stmt_id args) s =
      Rejects s (Stm.query_prepared conn_id stmt_id args s)
  Rejected (Call.execute_prepared conn_id stmt_id args) s =
      Rejects s (Stm.execute_prepared conn_id stmt_id args s)
  Rejected (Call.statement_column_count conn_id stmt_id) s =
      Rejects s (Stm.statement_column_count conn_id stmt_id s)
  Rejected (Call.statement_column_name conn_id stmt_id idx) s =
      Rejects s (Stm.statement_column_name conn_id stmt_id idx s)
  Rejected (Call.statement_parameter_count conn_id stmt_id) s =
      Rejects s (Stm.statement_parameter_count conn_id stmt_id s)
  Rejected (Call.statement_parameter_name conn_id stmt_id idx) s =
      Rejects s (Stm.statement_parameter_name conn_id stmt_id idx s)
  Rejected (Call.reset_statement conn_id stmt_id) s =
      Rejects s (Stm.reset_statement conn_id stmt_id s)
  Rejected (Call.get_statement_columns conn_id stmt_id) s =
      Rejects s (Stm.get_statement_columns conn_id stmt_id s)
  Rejected (Call.execute_batch conn_id statements) s =
      Rejects s (Bat.execute_batch conn_id statements s)
  Rejected (Call.execute_transactional_batch conn_id statements) s =
      Rejects s (Bat.execute_transactional_batch conn_id statements s)
  Rejected (Call.execute_batch_native conn_id sql) s =
      Rejects s (Bat.execute_batch_native conn_id sql s)
  Rejected (Call.execute_transactional_batch_native conn_id sql) s =
      Rejects s (Bat.execute_transactional_batch_native conn_id sql s)
  Rejected (Call.last_insert_rowid conn_id) s = Rejects s (Met.last_insert_rowid conn_id s)
  Rejected (Call.changes conn_id) s = Rejects s (Met.changes conn_id s)
  Rejected (Call.total_changes conn_id) s = Rejects s (Met.total_changes conn_id s)
  Rejected (Call.is_autocommit conn_id) s = Rejects s (Met.is_autocommit conn_id s)
  Rejected (Call.get_frame_number conn_id) s = Rejects s (Rep.get_frame_number conn_id s)
  Rejected (Call.sync_until conn_id frame_no) s = Rejects s (Rep.sync_until conn_id frame_no s)
  Rejected (Call.flush_replicator conn_id) s = Rejects s (Rep.flush_replicator conn_id s)
  Rejected (Call.max_write_replication_index conn_id) s =
      Rejects s (Rep.max_write_replication_index conn_id s)
  Rejected (Call.freeze_database conn_id) s = Rejects s (Rep.freeze_database {A = Unit} conn_id s)
  Rejected c s = Unit

  not_some : (a : Str) → some a ≢ none
  not_some a e = cc

  of_same : (s : State) (a b : Str) → some a ≡ some b → Unreachable s b → Unreachable s a
  of_same s a b e u = let e' : b ≡ a = cc in subst (Unreachable s) e' u

  pub Unreachable-Rejected :
      (s : State) (conn_id : Str) (c : Call)
      → Unreachable s conn_id
      → on_connection c ≡ some conn_id
      → Rejected c s
  unfolding Con.ping Con.set_busy_timeout Con.reset_connection Con.interrupt_connection
      Con.enable_load_extension Con.load_extension Qry.query_args Qry.do_sync Qry.pragma_query
      Trx.begin_transaction Cur.declare_cursor Stm.prepare_statement Stm.query_prepared
      Stm.execute_prepared Stm.statement_column_count Stm.statement_column_name
      Stm.statement_parameter_count Stm.statement_parameter_name Stm.reset_statement
      Stm.get_statement_columns Bat.execute_batch Bat.execute_transactional_batch
      Bat.execute_batch_native Bat.execute_transactional_batch_native Met.last_insert_rowid
      Met.changes Met.total_changes Met.is_autocommit Rep.get_frame_number Rep.sync_until
      Rep.flush_replicator Rep.max_write_replication_index Rep.freeze_database Stm.prepare_on
      Cur.buffer_query Stm.locked_statement
  Unreachable-Rejected s conn_id (Call.ping c) u e =
      looked_up-Rejects s c _ _ _ (of_same s c conn_id e u)
  Unreachable-Rejected s conn_id (Call.set_busy_timeout c timeout_ms) u e =
      locked-Rejects s _ c _ (of_same s c conn_id e u)
  Unreachable-Rejected s conn_id (Call.reset_connection c) u e =
      locked-Rejects s _ c _ (of_same s c conn_id e u)
  Unreachable-Rejected s conn_id (Call.interrupt_connection c) u e =
      locked-Rejects s _ c _ (of_same s c conn_id e u)
  Unreachable-Rejected s conn_id (Call.enable_load_extension c enabled) u e =
      locked-Rejects s _ c _ (of_same s c conn_id e u)
  Unreachable-Rejected s conn_id (Call.load_extension c path entry_point) u e =
      locked-Rejects s _ c _ (of_same s c conn_id e u)
  Unreachable-Rejected s conn_id (Call.query_args c sql args) u e =
      looked_up-Rejects s c _ _ _ (of_same s c conn_id e u)
  Unreachable-Rejected s conn_id (Call.do_sync c mode) u e =
      looked_up-Rejects s c _ _ _ (of_same s c conn_id e u)
  Unreachable-Rejected s conn_id (Call.pragma_query c sql) u e =
      looked_up-Rejects s c _ _ _ (of_same s c conn_id e u)
  Unreachable-Rejected s conn_id (Call.begin_transaction c) u e =
      then-Rejects s _ _ (begun-Rejects s c _ _ _ _ (of_same s c conn_id e u))
  Unreachable-Rejected s conn_id (Call.begin_transaction_with_behavior c behavior) u e =
      with_behavior-Rejects s c behavior (of_same s c conn_id e u)
  Unreachable-Rejected s conn_id (Call.declare_cursor c sql args) u e =
      then-Rejects s _ _ (looked_up-Rejects s c _ _ _ (of_same s c conn_id e u))
  Unreachable-Rejected s conn_id (Call.declare_cursor_with_context c id id_type sql args) u e =
      elim (Bool-cases (str_eq id_type (str "connection"))) [
        | inl k ↦
            in_context-Rejects s c id id_type sql args k
              (of_same s c conn_id (sym (rw k refl) ∙ e) u)
        | inr k ↦ absurd (not_some conn_id (sym e ∙ rw k refl))
      ]
  Unreachable-Rejected s conn_id (Call.prepare_statement c sql) u e =
      then-Rejects s _ _ (looked_up-Rejects s c _ _ _ (of_same s c conn_id e u))
  Unreachable-Rejected s conn_id (Call.query_prepared c stmt_id args) u e =
      then-Rejects s _ _ (find_statement-Rejects s _ c stmt_id (of_same s c conn_id e u))
  Unreachable-Rejected s conn_id (Call.execute_prepared c stmt_id args) u e =
      then-Rejects s _ _ (find_statement-Rejects s _ c stmt_id (of_same s c conn_id e u))
  Unreachable-Rejected s conn_id (Call.statement_column_count c stmt_id) u e =
      then-Rejects s _ _
        (then-Rejects s _ _ (find_statement-Rejects s _ c stmt_id (of_same s c conn_id e u)))
  Unreachable-Rejected s conn_id (Call.statement_column_name c stmt_id idx) u e =
      then-Rejects s _ _
        (then-Rejects s _ _ (find_statement-Rejects s _ c stmt_id (of_same s c conn_id e u)))
  Unreachable-Rejected s conn_id (Call.statement_parameter_count c stmt_id) u e =
      then-Rejects s _ _
        (then-Rejects s _ _ (find_statement-Rejects s _ c stmt_id (of_same s c conn_id e u)))
  Unreachable-Rejected s conn_id (Call.statement_parameter_name c stmt_id idx) u e =
      then-Rejects s _ _
        (then-Rejects s _ _ (find_statement-Rejects s _ c stmt_id (of_same s c conn_id e u)))
  Unreachable-Rejected s conn_id (Call.reset_statement c stmt_id) u e =
      then-Rejects s _ _
        (then-Rejects s _ _ (find_statement-Rejects s _ c stmt_id (of_same s c conn_id e u)))
  Unreachable-Rejected s conn_id (Call.get_statement_columns c stmt_id) u e =
      then-Rejects s _ _
        (then-Rejects s _ _ (find_statement-Rejects s _ c stmt_id (of_same s c conn_id e u)))
  Unreachable-Rejected s conn_id (Call.execute_batch c statements) u e =
      looked_up-Rejects s c _ _ _ (of_same s c conn_id e u)
  Unreachable-Rejected s conn_id (Call.execute_transactional_batch c statements) u e =
      looked_up-Rejects s c _ _ _ (of_same s c conn_id e u)
  Unreachable-Rejected s conn_id (Call.execute_batch_native c sql) u e =
      looked_up-Rejects s c _ _ _ (of_same s c conn_id e u)
  Unreachable-Rejected s conn_id (Call.execute_transactional_batch_native c sql) u e =
      looked_up-Rejects s c _ _ _ (of_same s c conn_id e u)
  Unreachable-Rejected s conn_id (Call.last_insert_rowid c) u e =
      locked-Rejects s _ c _ (of_same s c conn_id e u)
  Unreachable-Rejected s conn_id (Call.changes c) u e =
      locked-Rejects s _ c _ (of_same s c conn_id e u)
  Unreachable-Rejected s conn_id (Call.total_changes c) u e =
      locked-Rejects s _ c _ (of_same s c conn_id e u)
  Unreachable-Rejected s conn_id (Call.is_autocommit c) u e =
      locked-Rejects s _ c _ (of_same s c conn_id e u)
  Unreachable-Rejected s conn_id (Call.get_frame_number c) u e =
      looked_up-Rejects s c _ _ _ (of_same s c conn_id e u)
  Unreachable-Rejected s conn_id (Call.sync_until c frame_no) u e =
      looked_up-Rejects s c _ _ _ (of_same s c conn_id e u)
  Unreachable-Rejected s conn_id (Call.flush_replicator c) u e =
      looked_up-Rejects s c _ _ _ (of_same s c conn_id e u)
  Unreachable-Rejected s conn_id (Call.max_write_replication_index c) u e =
      looked_up-Rejects s c _ _ _ (of_same s c conn_id e u)
  Unreachable-Rejected s conn_id (Call.freeze_database c) u e =
      looked_up-Rejects s c _ _ _ (of_same s c conn_id e u)
  Unreachable-Rejected s conn_id c u e = tt
