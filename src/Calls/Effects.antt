-- ===== src/Calls/Effects.antt =====
-- What each NIF leaves of the registries, success or failure: one statement for every call.
use ecto_libsql.Common.{◌≡◌, ◌⊎◌, inl, inr, some, [], none, true, Str, str_eq, lookup, arith}
use ecto_libsql.Effect.{Result}
use ecto_libsql.Libsql.{Libsql, Error}
use ecto_libsql.State.{State, TransactionEntry}
use ecto_libsql.Transaction.{handle_status_transaction, commit_or_rollback_transaction}
use ecto_libsql.Transaction.Guard.{Quiet, SameRegistries, Denied, Refused, Owned-cases, take-Denied}
use ecto_libsql.Isolation.Begin.{Registers, begin-Registers}
use ecto_libsql.Isolation.Finish.{Finished, commit_or_rollback-Finished}
use ecto_libsql.Isolation.Restored.{transactions_restored}
use ecto_libsql.Connection.Connected.{ConnectedOrQuiet, connect-Connected}
use ecto_libsql.Connection.Untouched.{connections_untouched}
use ecto_libsql.Connection.Closing.{ClosedOrSame, close-Closed}
use ecto_libsql.Cursor.Declare.{OpenedOrQuiet, declare_cursor-Opened}
use ecto_libsql.Cursor.Context.{
  DeclaredOrSame, declare_cursor_with_context-Declared, Quiet-SameRegistries,
}
use ecto_libsql.Cursor.Outcome.{Outcome, fetch-Outcome}
use ecto_libsql.Statement.Prepare.{PreparedOrQuiet, prepare_statement-Prepared}
use ecto_libsql.Calls.Uses.{
  query_prepared-IsQuiet, execute_prepared-IsQuiet, execute_batch-IsQuiet,
  execute_transactional_batch-IsQuiet, execute_batch_native-IsQuiet,
  execute_transactional_batch_native-IsQuiet, get_frame_number-IsQuiet, sync_until-IsQuiet,
  flush_replicator-IsQuiet, max_write_replication_index-IsQuiet, freeze_database-IsQuiet,
  statement_column_count-IsQuiet, statement_column_name-IsQuiet, statement_parameter_count-IsQuiet,
  statement_parameter_name-IsQuiet, reset_statement-IsQuiet, get_statement_columns-IsQuiet,
}
use ecto_libsql.Calls.{Call, run}

module _ ⦃L : Libsql⦄ where
  -- A transaction is finished by its owner, or nothing is taken away.
  abbrev pub Finishes : State → Str → Str → Str → State → Type 0
  Finishes s trx_id conn_id param t =
      SameRegistries s t
      ⊎ ((e : TransactionEntry) × (lookup trx_id s.transactions.content ≡ some e)
          × (str_eq e.conn_id conn_id ≡ true)
          × ((r : Result Error Str) × Finished s trx_id param e (r, t)))

  -- The state behind a call, for some result of the kind that the call has.
  abbrev pub Leaves : Call → State → State → Type 0
  Leaves (Call.connect opts mode) s t = (r : Result Error Str) × ConnectedOrQuiet s (r, t)
  Leaves (Call.begin_transaction conn_id) s t = (r : Result Error Str) × Registers s conn_id (r, t)
  Leaves (Call.begin_transaction_with_behavior conn_id behavior) s t =
      (r : Result Error Str) × Registers s conn_id (r, t)
  Leaves (Call.prepare_statement conn_id sql) s t =
      (r : Result Error Str) × PreparedOrQuiet s conn_id (r, t)
  Leaves (Call.declare_cursor conn_id sql args) s t =
      (r : Result Error Str) × OpenedOrQuiet s conn_id (r, t)
  Leaves (Call.declare_cursor_with_context conn_id id id_type sql args) s t =
      (r : Result Error Str) × DeclaredOrSame s conn_id (r, t)
  Leaves (Call.fetch_cursor conn_id cursor_id max_rows) s t = Outcome s conn_id cursor_id max_rows t
  Leaves (Call.commit_or_rollback_transaction trx_id conn_id param) s t =
      Finishes s trx_id conn_id param t
  Leaves (Call.close id opt) s t = (r : Result Error (Unit {0})) × ClosedOrSame s id opt (r, t)
  Leaves c s t = SameRegistries s t

  status-Quiet : (s : State) (trx_id : Str) → Quiet s (handle_status_transaction trx_id s).1
  unfolding handle_status_transaction
  status-Quiet s trx_id = ground arith

  finish-Refused :
      (s : State) (trx_id conn_id param : Str)
      → Denied s trx_id conn_id
      → Refused s (commit_or_rollback_transaction trx_id conn_id param s)
  unfolding commit_or_rollback_transaction
  finish-Refused s trx_id conn_id param d = take-Denied trx_id conn_id s _ d

  finish-Finishes :
      (s : State) (trx_id conn_id param : Str)
      → Finishes s trx_id conn_id param (commit_or_rollback_transaction trx_id conn_id param s).1
  finish-Finishes s trx_id conn_id param = elim (Owned-cases s trx_id conn_id) [
    | inl d ↦ inl (finish-Refused s trx_id conn_id param d).registries
    | inr (e, p, l, o) ↦
        inr (e, l, o, (_, commit_or_rollback-Finished s trx_id conn_id param e p l o))
  ]

  pub run-Leaves : (s : State) (c : Call) → Leaves c s (run c s)
  unfolding run
  run-Leaves s (Call.connect opts mode) = (_, connect-Connected s opts mode)
  run-Leaves s (Call.ping conn_id) =
      Quiet-SameRegistries s _ (connections_untouched s conn_id [] [] [] [] none 0 true).3
  run-Leaves s (Call.close id opt) = (_, close-Closed s id opt)
  run-Leaves s (Call.set_busy_timeout conn_id timeout_ms) =
      Quiet-SameRegistries s _ (connections_untouched s conn_id [] [] [] [] none timeout_ms true).8
  run-Leaves s (Call.reset_connection conn_id) =
      Quiet-SameRegistries s _ (connections_untouched s conn_id [] [] [] [] none 0 true).9
  run-Leaves s (Call.interrupt_connection conn_id) =
      Quiet-SameRegistries s _ (connections_untouched s conn_id [] [] [] [] none 0 true).10
  run-Leaves s (Call.enable_load_extension conn_id enabled) =
      Quiet-SameRegistries s _ (connections_untouched s conn_id [] [] [] [] none 0 enabled).11
  run-Leaves s (Call.load_extension conn_id path entry_point) =
      Quiet-SameRegistries s _ (connections_untouched s conn_id [] [] path [] entry_point 0 true).12
  run-Leaves s (Call.query_args conn_id sql args) =
      Quiet-SameRegistries s _ (connections_untouched s conn_id sql [] [] args none 0 true).0
  run-Leaves s (Call.do_sync conn_id mode) =
      Quiet-SameRegistries s _ (connections_untouched s conn_id [] mode [] [] none 0 true).2
  run-Leaves s (Call.pragma_query conn_id sql) =
      Quiet-SameRegistries s _ (connections_untouched s conn_id sql [] [] [] none 0 true).1
  run-Leaves s (Call.begin_transaction conn_id) = (_, (begin-Registers s conn_id []).0)
  run-Leaves s (Call.begin_transaction_with_behavior conn_id behavior) =
      (_, (begin-Registers s conn_id behavior).1)
  run-Leaves s (Call.execute_with_transaction trx_id conn_id sql args) =
      (transactions_restored s trx_id conn_id sql [] args).0
  run-Leaves s (Call.query_with_trx_args trx_id conn_id sql args) =
      (transactions_restored s trx_id conn_id sql [] args).1
  run-Leaves s (Call.handle_status_transaction trx_id) =
      Quiet-SameRegistries s _ (status-Quiet s trx_id)
  run-Leaves s (Call.commit_or_rollback_transaction trx_id conn_id param) =
      finish-Finishes s trx_id conn_id param
  run-Leaves s (Call.savepoint conn_id trx_id name) =
      (transactions_restored s trx_id conn_id [] name []).2
  run-Leaves s (Call.release_savepoint conn_id trx_id name) =
      (transactions_restored s trx_id conn_id [] name []).3
  run-Leaves s (Call.rollback_to_savepoint conn_id trx_id name) =
      (transactions_restored s trx_id conn_id [] name []).4
  run-Leaves s (Call.declare_cursor conn_id sql args) =
      (_, declare_cursor-Opened s conn_id sql args)
  run-Leaves s (Call.declare_cursor_with_context conn_id id id_type sql args) =
      (_, declare_cursor_with_context-Declared s conn_id id id_type sql args)
  run-Leaves s (Call.fetch_cursor conn_id cursor_id max_rows) =
      fetch-Outcome s conn_id cursor_id max_rows
  run-Leaves s (Call.prepare_statement conn_id sql) = (_, prepare_statement-Prepared s conn_id sql)
  run-Leaves s (Call.query_prepared conn_id stmt_id args) =
      Quiet-SameRegistries s _ (query_prepared-IsQuiet conn_id stmt_id args s)
  run-Leaves s (Call.execute_prepared conn_id stmt_id args) =
      Quiet-SameRegistries s _ (execute_prepared-IsQuiet conn_id stmt_id args s)
  run-Leaves s (Call.statement_column_count conn_id stmt_id) =
      Quiet-SameRegistries s _ (statement_column_count-IsQuiet conn_id stmt_id s)
  run-Leaves s (Call.statement_column_name conn_id stmt_id idx) =
      Quiet-SameRegistries s _ (statement_column_name-IsQuiet conn_id stmt_id idx s)
  run-Leaves s (Call.statement_parameter_count conn_id stmt_id) =
      Quiet-SameRegistries s _ (statement_parameter_count-IsQuiet conn_id stmt_id s)
  run-Leaves s (Call.statement_parameter_name conn_id stmt_id idx) =
      Quiet-SameRegistries s _ (statement_parameter_name-IsQuiet conn_id stmt_id idx s)
  run-Leaves s (Call.reset_statement conn_id stmt_id) =
      Quiet-SameRegistries s _ (reset_statement-IsQuiet conn_id stmt_id s)
  run-Leaves s (Call.get_statement_columns conn_id stmt_id) =
      Quiet-SameRegistries s _ (get_statement_columns-IsQuiet conn_id stmt_id s)
  run-Leaves s (Call.execute_batch conn_id statements) =
      Quiet-SameRegistries s _ (execute_batch-IsQuiet conn_id statements s)
  run-Leaves s (Call.execute_transactional_batch conn_id statements) =
      Quiet-SameRegistries s _ (execute_transactional_batch-IsQuiet conn_id statements s)
  run-Leaves s (Call.execute_batch_native conn_id sql) =
      Quiet-SameRegistries s _ (execute_batch_native-IsQuiet conn_id sql s)
  run-Leaves s (Call.execute_transactional_batch_native conn_id sql) =
      Quiet-SameRegistries s _ (execute_transactional_batch_native-IsQuiet conn_id sql s)
  run-Leaves s (Call.last_insert_rowid conn_id) =
      Quiet-SameRegistries s _ (connections_untouched s conn_id [] [] [] [] none 0 true).4
  run-Leaves s (Call.changes conn_id) =
      Quiet-SameRegistries s _ (connections_untouched s conn_id [] [] [] [] none 0 true).5
  run-Leaves s (Call.total_changes conn_id) =
      Quiet-SameRegistries s _ (connections_untouched s conn_id [] [] [] [] none 0 true).6
  run-Leaves s (Call.is_autocommit conn_id) =
      Quiet-SameRegistries s _ (connections_untouched s conn_id [] [] [] [] none 0 true).7
  run-Leaves s (Call.get_frame_number conn_id) =
      Quiet-SameRegistries s _ (get_frame_number-IsQuiet conn_id s)
  run-Leaves s (Call.sync_until conn_id frame_no) =
      Quiet-SameRegistries s _ (sync_until-IsQuiet conn_id frame_no s)
  run-Leaves s (Call.flush_replicator conn_id) =
      Quiet-SameRegistries s _ (flush_replicator-IsQuiet conn_id s)
  run-Leaves s (Call.max_write_replication_index conn_id) =
      Quiet-SameRegistries s _ (max_write_replication_index-IsQuiet conn_id s)
  run-Leaves s (Call.freeze_database conn_id) =
      Quiet-SameRegistries s _ (freeze_database-IsQuiet conn_id s)
