-- ===== src/Calls/Defs.antt =====
-- The NIFs with their arguments.
use ecto_libsql.Common.{ℕ, Bool, Option, List, Str}
use ecto_libsql.Libsql.{Libsql, ℤ}

module _ ⦃L : Libsql⦄ where
  open L use {Term}

  pub data Call : Type 0 where
    connect : (opts mode : Term) → Call
    ping : (conn_id : Str) → Call
    close : (id opt : Str) → Call
    set_busy_timeout : (conn_id : Str) (timeout_ms : ℕ) → Call
    reset_connection interrupt_connection : (conn_id : Str) → Call
    enable_load_extension : (conn_id : Str) (enabled : Bool) → Call
    load_extension : (conn_id path : Str) (entry_point : Option Str) → Call
    query_args : (conn_id sql : Str) (args : List Term) → Call
    do_sync : (conn_id mode : Str) → Call
    pragma_query : (conn_id sql : Str) → Call
    begin_transaction : (conn_id : Str) → Call
    begin_transaction_with_behavior : (conn_id behavior : Str) → Call
    execute_with_transaction : (trx_id conn_id sql : Str) (args : List Term) → Call
    query_with_trx_args : (trx_id conn_id sql : Str) (args : List Term) → Call
    handle_status_transaction : (trx_id : Str) → Call
    commit_or_rollback_transaction : (trx_id conn_id param : Str) → Call
    savepoint : (conn_id trx_id name : Str) → Call
    release_savepoint : (conn_id trx_id name : Str) → Call
    rollback_to_savepoint : (conn_id trx_id name : Str) → Call
    declare_cursor : (conn_id sql : Str) (args : List Term) → Call
    declare_cursor_with_context : (conn_id id id_type sql : Str) (args : List Term) → Call
    fetch_cursor : (conn_id cursor_id : Str) (max_rows : ℕ) → Call
    prepare_statement : (conn_id sql : Str) → Call
    query_prepared : (conn_id stmt_id : Str) (args : List Term) → Call
    execute_prepared : (conn_id stmt_id : Str) (args : List Term) → Call
    statement_column_count : (conn_id stmt_id : Str) → Call
    statement_column_name : (conn_id stmt_id : Str) (idx : ℕ) → Call
    statement_parameter_count : (conn_id stmt_id : Str) → Call
    statement_parameter_name : (conn_id stmt_id : Str) (idx : ℤ) → Call
    reset_statement : (conn_id stmt_id : Str) → Call
    get_statement_columns : (conn_id stmt_id : Str) → Call
    execute_batch : (conn_id : Str) (statements : List Term) → Call
    execute_transactional_batch : (conn_id : Str) (statements : List Term) → Call
    execute_batch_native : (conn_id sql : Str) → Call
    execute_transactional_batch_native : (conn_id sql : Str) → Call
    last_insert_rowid : (conn_id : Str) → Call
    changes : (conn_id : Str) → Call
    total_changes : (conn_id : Str) → Call
    is_autocommit : (conn_id : Str) → Call
    get_frame_number : (conn_id : Str) → Call
    sync_until : (conn_id : Str) (frame_no : ℕ) → Call
    flush_replicator : (conn_id : Str) → Call
    max_write_replication_index : (conn_id : Str) → Call
    freeze_database : (conn_id : Str) → Call
