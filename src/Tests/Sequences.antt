-- ===== src/Tests/Sequences.antt =====
-- The theorems on sequences of calls, at a transaction that is used and left alone, a cursor that is
-- declared over three rows and fetched, a begin, and a native batch.
use ecto_libsql.Common.{
  ◌≡◌, refl, Str, none, some, ◌+◌, ◌≤◌, List, [], ◌∷◌, str, str_eq, lookup, take, insert, remove,
}
use ecto_libsql.Effect.{ok}
use ecto_libsql.Libsql.{Libsql, next, finish, integer, pos, null}
use ecto_libsql.Cursor.Stream.{Ready, table, declare_cursor-fetch_all}
use ecto_libsql.Cursor.Fetch.{fetch_all}
use ecto_libsql.State.{State, Mutex, LibSqlConn, CursorData, safe_lock, safe_lock_arc}
use ecto_libsql.Transaction.{begin_transaction, begin_transaction_with_behavior}
use ecto_libsql.Isolation.Lifecycle.{ExclusiveOrError, begin-Exclusive}
use ecto_libsql.Batch.{execute_batch_native, execute_transactional_batch_native}
use ecto_libsql.Batch.Native.{Reachable, answers, native_batches-answers}
use ecto_libsql.Values.{decode_args, named_columns}
use ecto_libsql.Cursor.{
  declare_cursor, buffer_query, buffer_rows, register_cursor, fetch_cursor, encode_rows, encode_row,
  encode_value,
}
use ecto_libsql.Decode.{verify_cursor_ownership, decode_transaction_behavior}
use ecto_libsql.Calls.{Call, run, run_all}
use ecto_libsql.Calls.Handles.{transaction, handles}
use ecto_libsql.Calls.Refines.{Allowed, run-Allowed}
use ecto_libsql.Calls.Survives.{Known, AllSpare, handles_survive}
use ecto_libsql.Calls.Cursors.{CursorsSound, no_cursors, run_all-CursorsSound, fetches_in_bounds}
use ecto_libsql.Tests.{demo, c_id, d_id, t_id, k_id, demo_row, demo_state, free}

abbrev commit_call : Call
commit_call = Call.commit_or_rollback_transaction t_id c_id (str "commit")

run-Allowed_example :
    Allowed commit_call (handles demo_state) (handles (run commit_call demo_state))
run-Allowed_example = run-Allowed demo_state commit_call

-- The other connection asks for the transaction in vain, and a cursor is closed.
abbrev some_calls : List Call
some_calls =
    Call.execute_with_transaction t_id c_id (b'x' ∷ []) (tt ∷ [])
    ∷ Call.query_with_trx_args t_id d_id (b'x' ∷ []) (tt ∷ [])
    ∷ Call.close k_id (str "cursor_id")
    ∷ Call.begin_transaction c_id
    ∷ []

some-Known : Known (handles demo_state) transaction t_id
unfolding lookup str_eq
some-Known = (c_id, refl)

some_spare : AllSpare transaction t_id some_calls
unfolding str_eq
some_spare = (tt, (tt, ((λ n. refl), (tt, tt))))

handles_survive_example : Known (handles (run_all some_calls demo_state)) transaction t_id
handles_survive_example =
    handles_survive demo_state transaction t_id some_calls some-Known some_spare

abbrev three_rows : Libsql
three_rows = record demo {
  query =
      λ c sql args w. (ok (next (demo_row 1) (next (demo_row 2) (next (demo_row 3) finish))), w);
}

abbrev fresh_state : State ⦃L = three_rows⦄
fresh_state = record {
  connections = free ((c_id, free (record { db = tt; client = free 3 })) ∷ []);
  transactions = free [];
  statements = free [];
  cursors = free [];
  world = 0;
}

abbrev declare_and_fetch : List (Call ⦃L = three_rows⦄)
declare_and_fetch = Call.declare_cursor c_id (b'x' ∷ []) [] ∷ Call.fetch_cursor c_id (0 ∷ []) 2 ∷ []

run_all-CursorsSound_example :
    CursorsSound ⦃L = three_rows⦄ (run_all ⦃L = three_rows⦄ declare_and_fetch fresh_state)
run_all-CursorsSound_example =
    run_all-CursorsSound ⦃L = three_rows⦄ fresh_state declare_and_fetch
      (no_cursors ⦃L = three_rows⦄ fresh_state refl)

-- Two of the three rows are fetched.
abbrev half_fetched : CursorData ⦃L = three_rows⦄
half_fetched = record {
  conn_id = c_id;
  columns = [] ∷ [];
  rows = (integer (pos 1) ∷ []) ∷ (integer (pos 2) ∷ []) ∷ (integer (pos 3) ∷ []) ∷ [];
  position = 2;
}

half_found :
    lookup (0 ∷ []) (run_all ⦃L = three_rows⦄ declare_and_fetch fresh_state).cursors.content
    ≡ some half_fetched
unfolding run run_all declare_cursor buffer_query buffer_rows register_cursor fetch_cursor
    encode_rows encode_row encode_value decode_args named_columns verify_cursor_ownership safe_lock
    safe_lock_arc lookup insert remove str_eq
half_found = refl

fetches_in_bounds_example : (2 ≤ 2 + 1) × (2 + 1 ≤ 3)
fetches_in_bounds_example =
    fetches_in_bounds ⦃L = three_rows⦄ fresh_state declare_and_fetch (0 ∷ []) half_fetched 5 refl
      half_found

abbrev some_client : Mutex (LibSqlConn ⦃L = three_rows⦄)
some_client = free (record { db = tt; client = free 3 })

fresh-Ready : Ready ⦃L = three_rows⦄ fresh_state c_id some_client
unfolding lookup str_eq
fresh-Ready = record {
  connections_free = refl;
  cursors_free = refl;
  connected = refl;
  client_free = refl;
  conn_free = refl;
}

no_arguments : decode_args ⦃L = three_rows⦄ [] ≡ ok []
unfolding decode_args
no_arguments = refl

one_column : named_columns ⦃L = three_rows⦄ (demo_row 1) [] ≡ [] ∷ []
unfolding named_columns
one_column = refl

-- All three rows, in batches of one and five.
declare_cursor-fetch_all_example :
    (cursor_id : Str) × (t : State ⦃L = three_rows⦄) × (declare_cursor ⦃L = three_rows⦄ c_id
        (b'x' ∷ [])
        []
        fresh_state
      ≡ (ok cursor_id, t))
    × ((fetch_all ⦃L = three_rows⦄ c_id cursor_id (1 ∷ 5 ∷ []) t).0
        ≡ ok
            (take 6 (table ⦃L = three_rows⦄ ([] ∷ []) (demo_row 1 ∷ demo_row 2 ∷ demo_row 3 ∷ []))))
declare_cursor-fetch_all_example =
    declare_cursor-fetch_all ⦃L = three_rows⦄ fresh_state c_id (b'x' ∷ []) [] [] some_client
      (demo_row 1) (demo_row 2 ∷ demo_row 3 ∷ []) [] [] (1 ∷ 5 ∷ []) fresh-Ready no_arguments refl
      one_column (λ n w. refl)

begin-Exclusive_example :
    ExclusiveOrError demo_state c_id none (begin_transaction c_id demo_state)
    × ExclusiveOrError demo_state c_id
        (decode_transaction_behavior (str "exclusive"))
        (begin_transaction_with_behavior c_id (str "exclusive") demo_state)
begin-Exclusive_example = begin-Exclusive demo_state c_id (str "exclusive")

-- A statement with a row, one that was not executed, and one without rows.
abbrev two_results : Libsql
two_results = record demo {
  get = λ r i. ok null;
  execute_batch = λ c sql w. (ok (some (next [] finish) ∷ none ∷ some finish ∷ []), w);
}

abbrev batch_client : Mutex (LibSqlConn ⦃L = two_results⦄)
batch_client = free (record { db = tt; client = free 3 })

abbrev batch_state : State ⦃L = two_results⦄
batch_state = record {
  connections = free ((c_id, batch_client) ∷ []);
  transactions = free [];
  statements = free [];
  cursors = free [];
  world = 0;
}

batch-Reachable : Reachable ⦃L = two_results⦄ batch_state c_id batch_client
unfolding lookup str_eq
batch-Reachable = record {
  connections_free = refl;
  connected = refl;
  client_free = refl;
  conn_free = refl;
}

native_batches-answers_example :
    ((execute_batch_native ⦃L = two_results⦄ c_id (b'x' ∷ []) batch_state).0
      ≡ answers ⦃L = two_results⦄ (some (next [] finish) ∷ none ∷ some finish ∷ []))
    × ((execute_transactional_batch_native ⦃L = two_results⦄ c_id (b'x' ∷ []) batch_state).0
        ≡ answers ⦃L = two_results⦄ [])
native_batches-answers_example =
    native_batches-answers ⦃L = two_results⦄ batch_state c_id (b'x' ∷ []) batch_client
      (some (next [] finish) ∷ none ∷ some finish ∷ []) [] batch-Reachable (λ r i. (null, refl))
      (λ n w. refl) refl refl
