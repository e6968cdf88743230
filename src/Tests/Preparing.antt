-- ===== src/Tests/Preparing.antt =====
-- A statement that is prepared and used.
use ecto_libsql.Common.{◌≡◌, refl, [], ◌∷◌, str_eq, lookup, map}
use ecto_libsql.Effect.{ok}
use ecto_libsql.State.{State}
use ecto_libsql.Values.{decode_args}
use ecto_libsql.Statement.{
  prepare_statement, query_prepared, execute_prepared, get_statement_columns, describe_column,
}
use ecto_libsql.Statement.Kept.{
  with_statement, Prepares, run_query, run_execute, over, prepare_statement-query_prepared,
}
use ecto_libsql.Tests.{demo, c_id, demo_client, demo_state}

one_prepared : Prepares demo_state c_id (b'x' ∷ []) 7 1
unfolding lookup str_eq
one_prepared = record {
  connections_free = refl;
  statements_free = refl;
  client = demo_client;
  connected = refl;
  client_free = refl;
  conn_free = refl;
  compiled = refl;
}

no_args : decode_args [] ≡ ok []
unfolding decode_args
no_args = refl

abbrev prepared_state : State
prepared_state = with_statement demo_state c_id 7 1

prepare_statement-query_prepared_example :
    (prepare_statement c_id (b'x' ∷ []) demo_state ≡ (ok (1 ∷ []), prepared_state))
    × (query_prepared c_id (1 ∷ []) [] prepared_state
        ≡ over prepared_state (run_query 7 [] prepared_state.world))
    × (execute_prepared c_id (1 ∷ []) [] prepared_state
        ≡ over prepared_state (run_execute 7 [] prepared_state.world))
    × (get_statement_columns c_id (1 ∷ []) prepared_state
        ≡ (ok (map describe_column (demo.stmt_columns 7 prepared_state.world)), prepared_state))
prepare_statement-query_prepared_example =
    prepare_statement-query_prepared demo_state c_id (b'x' ∷ []) 7 1 [] [] one_prepared no_args
