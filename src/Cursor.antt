-- ===== src/Cursor.antt =====
-- cursor.rs: cursors that hold all rows of a query, and fetch them in batches.
pub mod Even
pub mod Fetch
pub mod Declare
pub mod Context
pub mod Outcome
pub mod Stream
use ecto_libsql.Common.{
  ℕ, zero, suc, ◌+◌, ◌-◌, min, Bool, true, false, not, Option, none, some, List, [], ◌∷◌, ◌++◌, Str,
  str, str_eq, ◌==◌, if◌then◌else◌, length, take, drop, lookup, insert,
}
use ecto_libsql.Effect.{
  Result, ok, err, Eff, pure, fail, peek, lift, ok_or, call, try_call, ◌>>=◌, ◌>>◌,
}
use ecto_libsql.Libsql.{
  Libsql, Error, term, Value, null, integer, real, text, blob, Rows, finish, failed, next,
}
use ecto_libsql.State.{
  State, M, CursorData, safe_lock_arc, on_world, describe, lock_cursors, put_cursors, get_client,
}
use ecto_libsql.Decode.{verify_cursor_ownership}
use ecto_libsql.Values.{decode_args, named_columns}
use ecto_libsql.Transaction as Trx

module _ ⦃L : Libsql⦄ where
  open L use {World, Term, Real, Connection, Row, LibError}

  -- `row.get(i).unwrap_or(Value::Null)`.
  abbrev or_null : Result LibError (Value Real) → Value Real
  or_null (ok v) = v
  or_null (err e) = null

  unfoldable pub row_values : Row → ℕ → List Str → List (Value Real)
  row_values row i [] = []
  row_values row i (name ∷ names) = or_null (L.get row i) ∷ row_values row (i + 1) names

  unfoldable pub buffer_rows :
      List Str
      → List (List (Value Real))
      → Rows LibError Row
      → Result Error (List Str × List (List (Value Real)))
  unfolding row_values
  buffer_rows columns rows finish = ok (columns, rows)
  buffer_rows columns rows (failed e) = err (term (L.display e))
  buffer_rows columns rows (next row rest) =
      buffer_rows (named_columns row columns)
        (rows ++ row_values row 0 (named_columns row columns) ∷ []) rest

  -- The query, with all its rows.
  pub run_query :
      (World → Result LibError (Rows LibError Row) × World)
      → Eff Error World (List Str × List (List (Value Real)))
  unfolding buffer_rows
  run_query query = do
    result_rows ← try_call query (describe (str "Query failed"))
    lift (buffer_rows [] [] result_rows)

  unfoldable pub register_cursor : Str → Str → List Str × List (List (Value Real)) → M Str
  register_cursor conn_id context found = do
    cursor_id ← on_world (call L.new_v4)
    cursor_registry ← lock_cursors context
    put_cursors (
        insert cursor_id
          (record { conn_id = conn_id; columns = found.0; rows = found.1; position = 0 })
          cursor_registry)
    pure cursor_id

  -- The columns and rows of a query on the connection.
  unfoldable pub buffer_query : Str → Str → List Term → M (List Str × List (List (Value Real)))
  unfolding run_query
  buffer_query conn_id sql args = do
    client ← get_client conn_id (str "declare_cursor conn_map") (str "Invalid connection ID")
    decoded_args ← lift (decode_args args)
    client_guard ← lift (safe_lock_arc client (str "declare_cursor client"))
    conn ← lift (safe_lock_arc client_guard.client (str "declare_cursor conn"))
    on_world (run_query (L.query conn sql decoded_args))

  unfoldable pub declare_cursor : Str → Str → List Term → M Str
  declare_cursor conn_id sql args = do
    found ← buffer_query conn_id sql args
    register_cursor conn_id (str "declare_cursor cursor_registry") found

  -- The two contexts that a cursor can be declared in.
  unfoldable pub buffer_under :
      Str → List (Value Real) → Trx.TransactionEntryGuard → M (List Str × List (List (Value Real)))
  unfolding run_query
  buffer_under sql params guard = do
    trx ← lift (Trx.transaction guard)
    on_world (run_query (L.trx_query trx sql params))

  unfoldable pub query_in_transaction :
      Str → Str → Str → List (Value Real) → M (List Str × List (List (Value Real)))
  query_in_transaction conn_id id sql params = do
    guard ← Trx.take id conn_id
    Trx.scoped guard (buffer_under sql params guard)

  unfoldable pub query_on_connection :
      Str → Str → Str → List (Value Real) → M (List Str × List (List (Value Real)))
  unfolding run_query
  query_on_connection conn_id id sql params =
      if not (str_eq conn_id id)
      then fail (
          term (str "Connection ID mismatch: provided conn_id does not match cursor connection ID"))
      else (do
        client ← get_client id (str "declare_cursor_with_context conn") (str "Connection not found")
        client_guard ← lift (safe_lock_arc client (str "declare_cursor_with_context client"))
        conn ← lift (safe_lock_arc client_guard.client (str "declare_cursor_with_context conn"))
        on_world (run_query (L.query conn sql params)))

  -- The columns and rows of a query in the context that `id` and `id_type` name.
  unfoldable pub buffer_in_context :
      Str → Str → Str → Str → List Term → M (List Str × List (List (Value Real)))
  buffer_in_context conn_id id id_type sql args = do
    decoded_args ← lift (decode_args args)
    if str_eq id_type (str "transaction")
        then query_in_transaction conn_id id sql decoded_args
        else if str_eq id_type (str "connection")
        then query_on_connection conn_id id sql decoded_args
        else fail (term (str "Invalid id_type for cursor"))

  unfoldable pub declare_cursor_with_context : Str → Str → Str → Str → List Term → M Str
  declare_cursor_with_context conn_id id id_type sql args = do
    found ← buffer_in_context conn_id id id_type sql args
    register_cursor conn_id (str "declare_cursor_with_context cursor") found

  unfoldable pub encode_value : Value Real → Eff Error World (Value Real)
  encode_value (blob b) = do
    allocated ← peek (L.allocates (length b))
    if allocated then pure (blob b) else fail (term (str "Failed to allocate binary for blob data"))
  encode_value v = pure v

  unfoldable pub encode_row : List (Value Real) → Eff Error World (List (Value Real))
  encode_row [] = pure []
  encode_row (v ∷ vs) = do t ← encode_value v; ts ← encode_row vs; pure (t ∷ ts)

  unfoldable pub encode_rows : List (List (Value Real)) → Eff Error World (List (List (Value Real)))
  encode_rows [] = pure []
  encode_rows (r ∷ rs) = do t ← encode_row r; ts ← encode_rows rs; pure (t ∷ ts)

  -- The tuple of columns, rows and the number of rows.
  pub record Fetched : Type 0 where
    pub columns : List Str
    pub rows : List (List (Value Real))
    pub row_count : ℕ

  -- `rows[start..end]`; it would panic if `end` lay behind the last row.
  abbrev pub slice {ℓ} : {A : Type ℓ} → ℕ → ℕ → List A → List A
  slice start end xs = take (end - start) (drop start xs)

  -- `saturating_sub`, which is `-` on ℕ, and `min`.
  abbrev pub fetch_count_of : CursorData → ℕ → ℕ
  fetch_count_of cursor max_rows = min (length cursor.rows - cursor.position) max_rows

  unfoldable pub fetch_cursor : Str → Str → ℕ → M Fetched
  fetch_cursor conn_id cursor_id max_rows = do
    cursor_registry ← lock_cursors (str "fetch_cursor cursor_registry")
    cursor ← lift (ok_or (lookup cursor_id cursor_registry) (term (str "Cursor not found")))
    lift (verify_cursor_ownership cursor conn_id)
    let fetch_count = fetch_count_of cursor max_rows
    if fetch_count == 0
        then pure (record { columns = cursor.columns; rows = []; row_count = 0 })
        else (do
          let end_pos = cursor.position + fetch_count
          put_cursors (insert cursor_id (record cursor { position = end_pos }) cursor_registry)
          elixir_rows ← on_world (encode_rows (slice cursor.position end_pos cursor.rows))
          pure (record { columns = cursor.columns; rows = elixir_rows; row_count = fetch_count }))
