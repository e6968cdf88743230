-- ===== src/Batch.antt =====
-- batch.rs: several statements in order, one by one or within one transaction.
pub mod Order
pub mod Native
use ecto_libsql.Common.{Option, none, some, List, [], ◌∷◌, ◌++◌, Str, str, lookup}
use ecto_libsql.Effect.{
  Result, ok, err, Eff, pure, fail, lift, ok_or, call, try_call, map_err, touch, ◌>>=◌, ◌>>◌,
}
use ecto_libsql.Libsql.{Libsql, Error, term, Value, Rows}
use ecto_libsql.State.{M, Mutex, LibSqlConn, safe_lock_arc, on_world, or_else, describe, get_client}
use ecto_libsql.Values.{decode_args, QueryResult, collect_rows}

module _ ⦃L : Libsql⦄ where
  open L use {World, Term, Real, Connection, Transaction, LibError, Row}

  decode_statement : Term → Result Error (Str × List (Value Real))
  decode_statement t = elim (L.decode_statement t) [
    | err e ↦ err (term (str "Failed to decode statement: " ++ e))
    | ok (query, args) ↦ elim (decode_args args) [
      | err e ↦ err e
      | ok decoded_args ↦ ok (query, decoded_args)
    ]
  ]

  -- The statements with their arguments; the first that cannot be decoded stops the call.
  unfoldable pub decode_batch : List Term → Result Error (List (Str × List (Value Real)))
  unfolding decode_statement
  decode_batch [] = ok []
  decode_batch (t ∷ ts) =
      let rest = decode_batch ts in
      elim (decode_statement t) [
        | err e ↦ err e
        | ok stmt ↦ elim rest [ err e ↦ err e | ok stmts ↦ ok (stmt ∷ stmts) ]
      ]

  abbrev pub batch_error : LibError → Error
  batch_error e = term (str "Batch statement error: " ++ L.display e)

  abbrev collect_debug : Rows LibError Row → Eff Error World QueryResult
  collect_debug rows = or_else (λ e. term (L.debug_error e)) (collect_rows rows)

  -- The locks are taken for each statement anew.
  unfoldable pub run_batch :
      Mutex LibSqlConn → List (Str × List (Value Real)) → Eff Error World (List QueryResult)
  run_batch client [] = pure []
  run_batch client ((sql, args) ∷ more) = do
    client_guard ← lift (safe_lock_arc client (str "execute_batch client"))
    conn ← lift (safe_lock_arc client_guard.client (str "execute_batch conn"))
    rows ← try_call (L.query conn sql args) batch_error
    collected ← collect_debug rows
    results ← run_batch client more
    pure (collected ∷ results)

  unfoldable pub execute_batch : Str → List Term → M (List QueryResult)
  execute_batch conn_id statements = do
    client ← get_client conn_id (str "execute_batch conn_map") (str "Invalid connection ID")
    batch_stmts ← lift (decode_batch statements)
    on_world (run_batch client batch_stmts)

  -- The transaction is dropped where the function returns before it is committed or rolled back.
  abbrev collect_or_drop : Transaction → Result Error QueryResult → Eff Error World QueryResult
  collect_or_drop trx (ok r) = pure r
  collect_or_drop trx (err e) = do touch (L.drop_trx trx); fail e

  roll_back : Transaction → LibError → Eff Error World (Rows LibError Row)
  roll_back trx e = do ignored ← call (L.rollback trx); fail (batch_error e)

  unfoldable pub run_in_transaction :
      Transaction → List (Str × List (Value Real)) → Eff Error World (List QueryResult)
  unfolding roll_back
  run_in_transaction trx [] = do try_call (L.commit trx) (describe (str "Commit failed")); pure []
  run_in_transaction trx ((sql, args) ∷ more) = do
    res ← call (L.trx_query trx sql args)
    rows ← elim res [ ok rows ↦ pure rows | err e ↦ roll_back trx e ]
    collected ← (λ w. collect_or_drop trx (collect_debug rows w).0 (collect_debug rows w).1)
    results ← run_in_transaction trx more
    pure (collected ∷ results)

  unfoldable pub execute_transactional_batch : Str → List Term → M (List QueryResult)
  execute_transactional_batch conn_id statements = do
    client ←
        get_client conn_id (str "execute_transactional_batch conn_map")
          (str "Invalid connection ID")
    batch_stmts ← lift (decode_batch statements)
    client_guard ← lift (safe_lock_arc client (str "execute_transactional_batch client"))
    conn ← lift (safe_lock_arc client_guard.client (str "execute_transactional_batch conn"))
    trx ← on_world (try_call (L.begin conn none) (describe (str "Begin transaction failed")))
    on_world (run_in_transaction trx batch_stmts)

  -- `nil` for a statement that was not executed.
  collect_batch : List (Option (Rows LibError Row)) → Eff Error World (List (Option QueryResult))
  collect_batch [] = pure []
  collect_batch (none ∷ more) = do results ← collect_batch more; pure (none ∷ results)
  collect_batch (some rows ∷ more) = do
    collected ← collect_rows rows
    results ← collect_batch more
    pure (some collected ∷ results)

  unfoldable pub execute_batch_native : Str → Str → M (List (Option QueryResult))
  unfolding collect_batch
  execute_batch_native conn_id sql = do
    client ← get_client conn_id (str "execute_batch_native conn_map") (str "Invalid connection ID")
    client_guard ← lift (safe_lock_arc client (str "execute_batch_native client"))
    conn ← lift (safe_lock_arc client_guard.client (str "execute_batch_native conn"))
    batch_rows ← on_world (try_call (L.execute_batch conn sql) (describe (str "batch failed")))
    on_world (collect_batch batch_rows)

  unfoldable pub execute_transactional_batch_native : Str → Str → M (List (Option QueryResult))
  unfolding collect_batch
  execute_transactional_batch_native conn_id sql = do
    client ←
        get_client conn_id (str "execute_transactional_batch_native conn_map")
          (str "Invalid connection ID")
    client_guard ← lift (safe_lock_arc client (str "execute_transactional_batch_native client"))
    conn ← lift (safe_lock_arc client_guard.client (str "execute_transactional_batch_native conn"))
    batch_rows ← on_world (
        try_call (L.execute_transactional_batch conn sql)
          (describe (str "transactional batch failed")))
    on_world (collect_batch batch_rows)
