-- ===== src/Tests/Registries.antt =====
-- The theorems on the registries at the state of the parent.
use ecto_libsql.Common.{
  ◌≡◌, refl, true, false, none, some, [], ◌∷◌, str, str_eq, lookup, map, arith,
}
use ecto_libsql.Effect.{ok, err}
use ecto_libsql.Libsql.{pos}
use ecto_libsql.Decode.{decode_mode}
use ecto_libsql.Transaction.{
  execute_with_transaction, query_with_trx_args, commit_or_rollback_transaction, begin_transaction,
  begin_transaction_with_behavior,
}
use ecto_libsql.Transaction.Guard.{Denied, foreign, Refused, SameRegistries, Quiet}
use ecto_libsql.Savepoint.{savepoint, release_savepoint, rollback_to_savepoint}
use ecto_libsql.Isolation.{transactions-Refused}
use ecto_libsql.Isolation.Restored.{transactions_restored}
use ecto_libsql.Isolation.Finish.{commit_or_rollback-Finished, Finished}
use ecto_libsql.Isolation.Begin.{begin-Registers, Registers}
use ecto_libsql.Cursor.{fetch_cursor}
use ecto_libsql.Cursor.Fetch.{Holds, fetch_all, fetch_all-take, fetch_refused}
use ecto_libsql.Statement.{
  query_prepared, execute_prepared, statement_column_count, statement_column_name,
  statement_parameter_count, statement_parameter_name, reset_statement, get_statement_columns,
  out_of_bounds, describe_column,
}
use ecto_libsql.Statement.Ownership.{
  Unusable, not_owned, Unchanged, Usable, statements_refused, column_name-columns,
}
use ecto_libsql.Cursor.{declare_cursor, declare_cursor_with_context}
use ecto_libsql.Cursor.Context.{DeclaredOrSame, declare_cursor_with_context-Declared}
use ecto_libsql.Connection.{connect}
use ecto_libsql.Connection.Connected.{ConnectedOrQuiet, connect-Connected}
use ecto_libsql.Cursor.Declare.{OpenedOrQuiet, declare_cursor-Opened}
use ecto_libsql.Statement.{prepare_statement}
use ecto_libsql.Statement.Prepare.{PreparedOrQuiet, prepare_statement-Prepared}
use ecto_libsql.Connection.{
  close, ping, set_busy_timeout, reset_connection, interrupt_connection, enable_load_extension,
  load_extension,
}
use ecto_libsql.Connection.Closing.{ClosedOrSame, close-Closed}
use ecto_libsql.Connection.Untouched.{connections_untouched}
use ecto_libsql.Metadata.{last_insert_rowid, changes, total_changes, is_autocommit}
use ecto_libsql.Query.{query_args, pragma_query, do_sync}
use ecto_libsql.Query.Routes.{do_sync_nothing}
use ecto_libsql.Tests.{
  demo, c_id, d_id, t_id, s_id, k_id, demo_client, demo_trx, demo_stmt, demo_row, demo_cursor,
  demo_state,
}

-- The other connection is denied the transaction.
Denied-d : Denied demo_state t_id d_id
unfolding lookup str_eq
Denied-d = foreign demo_trx refl refl

transactions-Refused_example :
    Refused demo_state (execute_with_transaction t_id d_id (b'x' ∷ []) (tt ∷ []) demo_state)
    × Refused demo_state (query_with_trx_args t_id d_id (b'x' ∷ []) (tt ∷ []) demo_state)
    × Refused demo_state (commit_or_rollback_transaction t_id d_id (str "commit") demo_state)
    × Refused demo_state (savepoint d_id t_id (b'p' ∷ []) demo_state)
    × Refused demo_state (release_savepoint d_id t_id (b'p' ∷ []) demo_state)
    × Refused demo_state (rollback_to_savepoint d_id t_id (b'p' ∷ []) demo_state)
    × Refused demo_state
        (declare_cursor_with_context d_id t_id (str "transaction") (b'x' ∷ []) (tt ∷ []) demo_state)
transactions-Refused_example =
    transactions-Refused demo_state t_id d_id (b'x' ∷ []) (str "commit") (b'p' ∷ []) (tt ∷ [])
      Denied-d

transactions_restored_example :
    SameRegistries demo_state
      (execute_with_transaction t_id c_id (b'x' ∷ []) (tt ∷ []) demo_state).1
    × SameRegistries demo_state (query_with_trx_args t_id c_id (b'x' ∷ []) (tt ∷ []) demo_state).1
    × SameRegistries demo_state (savepoint c_id t_id (b'p' ∷ []) demo_state).1
    × SameRegistries demo_state (release_savepoint c_id t_id (b'p' ∷ []) demo_state).1
    × SameRegistries demo_state (rollback_to_savepoint c_id t_id (b'p' ∷ []) demo_state).1
transactions_restored_example =
    transactions_restored demo_state t_id c_id (b'x' ∷ []) (b'p' ∷ []) (tt ∷ [])

trx_found : lookup t_id demo_state.transactions.content ≡ some demo_trx
unfolding lookup str_eq
trx_found = refl

trx_owned : str_eq demo_trx.conn_id c_id ≡ true
unfolding str_eq
trx_owned = refl

commit_or_rollback-Finished_example :
    Finished demo_state t_id
      (str "commit")
      demo_trx
      (commit_or_rollback_transaction t_id c_id (str "commit") demo_state)
commit_or_rollback-Finished_example =
    commit_or_rollback-Finished demo_state t_id c_id (str "commit") demo_trx refl trx_found
      trx_owned

two_begun :
    Registers demo_state c_id (begin_transaction c_id demo_state)
    × Registers demo_state c_id (begin_transaction_with_behavior c_id (str "immediate") demo_state)
two_begun = begin-Registers demo_state c_id (str "immediate")

cursor_held : Holds demo_state c_id k_id demo_cursor
unfolding lookup str_eq
cursor_held = record { free = refl; registered = refl; owner = refl }

-- Four rows are left, and asked for in batches of three, none and five.
three_fetched :
    (fetch_all c_id k_id (3 ∷ 0 ∷ 5 ∷ []) demo_state).0
    ≡ ok (demo_row 2 ∷ demo_row 3 ∷ demo_row 4 ∷ demo_row 5 ∷ [])
three_fetched =
    fetch_all-take demo_state c_id k_id demo_cursor (3 ∷ 0 ∷ 5 ∷ []) (λ n w. refl) cursor_held

cursor_foreign :
    (c : _) → lookup k_id demo_state.cursors.content ≡ some c → str_eq c.conn_id d_id ≡ false
unfolding lookup str_eq
cursor_foreign c h = ground arith

fetch_refused_example : (e : _) × (fetch_cursor d_id k_id 3 demo_state ≡ (err e, demo_state))
fetch_refused_example = fetch_refused demo_state d_id k_id 3 cursor_foreign

Unusable-d : Unusable demo_state d_id s_id
unfolding lookup str_eq
Unusable-d = not_owned demo_stmt refl refl

statements_refused_example :
    Unchanged demo_state (query_prepared d_id s_id (tt ∷ []) demo_state)
    × Unchanged demo_state (execute_prepared d_id s_id (tt ∷ []) demo_state)
    × Unchanged demo_state (statement_column_count d_id s_id demo_state)
    × Unchanged demo_state (statement_column_name d_id s_id 0 demo_state)
    × Unchanged demo_state (statement_parameter_count d_id s_id demo_state)
    × Unchanged demo_state (statement_parameter_name d_id s_id (pos 1) demo_state)
    × Unchanged demo_state (reset_statement d_id s_id demo_state)
    × Unchanged demo_state (get_statement_columns d_id s_id demo_state)
statements_refused_example = statements_refused demo_state d_id s_id (tt ∷ []) 0 (pos 1) Unusable-d

Usable-c : Usable demo_state c_id s_id 7
unfolding lookup str_eq
Usable-c = record {
  connections_free = refl;
  statements_free = refl;
  client = demo_client;
  connected = refl;
  entry = demo_stmt;
  prepared = refl;
  owned = refl;
  statement_free = refl;
  statement_eq = refl;
}

first_column_named :
    (get_statement_columns c_id s_id demo_state
      ≡ (ok (map describe_column ((b'n' ∷ []) ∷ [])), demo_state))
    × (statement_column_name c_id s_id 1 demo_state ≡ (err (out_of_bounds 1 1), demo_state))
first_column_named = column_name-columns demo_state c_id s_id 7 1 Usable-c

close-Closed_example :
    ClosedOrSame demo_state t_id (str "trx_id") (close t_id (str "trx_id") demo_state)
close-Closed_example = close-Closed demo_state t_id (str "trx_id")

demo_untouched :
    Quiet demo_state (query_args c_id (b'x' ∷ []) (tt ∷ []) demo_state).1
    × Quiet demo_state (pragma_query c_id (b'x' ∷ []) demo_state).1
    × Quiet demo_state (do_sync c_id (str "remote_replica") demo_state).1
    × Quiet demo_state (ping c_id demo_state).1
    × Quiet demo_state (last_insert_rowid c_id demo_state).1
    × Quiet demo_state (changes c_id demo_state).1
    × Quiet demo_state (total_changes c_id demo_state).1
    × Quiet demo_state (is_autocommit c_id demo_state).1
    × Quiet demo_state (set_busy_timeout c_id 100 demo_state).1
    × Quiet demo_state (reset_connection c_id demo_state).1
    × Quiet demo_state (interrupt_connection c_id demo_state).1
    × Quiet demo_state (enable_load_extension c_id true demo_state).1
    × Quiet demo_state (load_extension c_id (b'p' ∷ []) none demo_state).1
demo_untouched =
    connections_untouched demo_state c_id (b'x' ∷ []) (str "remote_replica") (b'p' ∷ []) (tt ∷ [])
      none 100 true

client_found : lookup c_id demo_state.connections.content ≡ some demo_client
unfolding lookup str_eq
client_found = refl

unknown_mode_syncs_nothing :
    do_sync c_id (b'?' ∷ []) demo_state ≡ (ok (str "success sync"), demo_state)
unfolding decode_mode str_eq str
unknown_mode_syncs_nothing =
    do_sync_nothing demo_state c_id (b'?' ∷ []) demo_client refl client_found (λ e. cc)

cursor_opened : OpenedOrQuiet demo_state c_id (declare_cursor c_id (b'x' ∷ []) (tt ∷ []) demo_state)
cursor_opened = declare_cursor-Opened demo_state c_id (b'x' ∷ []) (tt ∷ [])

statement_prepared : PreparedOrQuiet demo_state c_id (prepare_statement c_id (b'x' ∷ []) demo_state)
statement_prepared = prepare_statement-Prepared demo_state c_id (b'x' ∷ [])

declare_cursor_with_context-Declared_example :
    DeclaredOrSame demo_state c_id
      (declare_cursor_with_context c_id t_id (str "transaction") (b'x' ∷ []) (tt ∷ []) demo_state)
declare_cursor_with_context-Declared_example =
    declare_cursor_with_context-Declared demo_state c_id t_id (str "transaction") (b'x' ∷ [])
      (tt ∷ [])

demo_connect : ConnectedOrQuiet demo_state (connect tt tt demo_state)
demo_connect = connect-Connected demo_state tt tt
