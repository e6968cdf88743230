-- ===== src/Query.antt =====
-- query.rs: statements on a connection, PRAGMA statements, and the manual sync; with
-- `sync_with_timeout` of utils.rs.
pub mod Routes
pub mod Answers
use ecto_libsql.Common.{ℕ, Bool, true, false, Option, none, some, List, [], ◌++◌, Str, str, lookup}
use ecto_libsql.Effect.{
  Result, ok, err, Eff, pure, fail, lift, ok_or, call, try_call, map_err, ◌>>=◌, ◌>>◌,
}
use ecto_libsql.Libsql.{Libsql, Error, term, Value}
use ecto_libsql.State.{
  M, Mutex, LibSqlConn, Mode, remote_replica, safe_lock_arc, on_world, or_else, describe,
  get_client,
}
use ecto_libsql.Decode.{decode_mode}
use ecto_libsql.Routing.{should_use_query}
use ecto_libsql.Text.{decimal}
use ecto_libsql.Values.{decode_args, QueryResult, build_empty_result, collect_rows}
use ecto_libsql.Constraint.{enhanced_message}

-- `DEFAULT_SYNC_TIMEOUT_SECS`.
abbrev pub default_sync_timeout_secs : ℕ
default_sync_timeout_secs = 30

module _ ⦃L : Libsql⦄ where
  open L use {World, Term, Real, Connection, LibError}

  failed_on : Connection → LibError → Eff Error World QueryResult
  failed_on conn e = do enhanced ← call (enhanced_message conn (L.display e)); fail (term enhanced)

  unfoldable pub run_on : Bool → Connection → Str → List (Value Real) → Eff Error World QueryResult
  unfolding failed_on
  run_on true conn query params = do
    res ← call (L.query conn query params)
    elim res [ ok res_rows ↦ collect_rows res_rows | err e ↦ failed_on conn e ]
  run_on false conn query params = do
    res ← call (L.execute conn query params)
    elim res [
      | ok rows_affected ↦ pure (build_empty_result rows_affected)
      | err e ↦ failed_on conn e
    ]

  unfoldable pub query_args : Str → Str → List Term → M QueryResult
  query_args conn_id query args = do
    client ← get_client conn_id (str "query_args conn_map") (str "Invalid connection ID")
    params ← lift (decode_args args)
    connection ← lift (safe_lock_arc client (str "query_args client"))
    conn ← lift (safe_lock_arc connection.client (str "query_args conn"))
    on_world (run_on (should_use_query query) conn query params)

  -- The outcome under a timeout: a message of its own if the time is up.
  abbrev pub or_timeout : {A : Type 0} → Str → Option (Result Str A) → Result Str A
  or_timeout what none = err what
  or_timeout what (some r) = r

  sync_once : Mutex LibSqlConn → Eff Str World (Unit {0})
  sync_once client = do
    client_guard ←
        lift (map_err L.debug_error (safe_lock_arc client (str "sync_with_timeout client")))
    try_call (L.sync client_guard.db) (λ e. str "Sync error: " ++ L.display e)

  unfoldable pub sync_with_timeout : Mutex LibSqlConn → ℕ → Eff Str World (Unit {0})
  unfolding sync_once
  sync_with_timeout client timeout_secs = do
    done ← call (L.timeout (Result Str (Unit {0})) timeout_secs (sync_once client))
    lift (or_timeout (str "Sync timeout after " ++ (decimal timeout_secs ++ str " seconds")) done)

  sync_if : Option Mode → Mutex LibSqlConn → Eff Str World (Unit {0})
  unfolding sync_with_timeout
  sync_if (some remote_replica) client = sync_with_timeout client default_sync_timeout_secs
  sync_if (some _) client = pure tt
  sync_if none client = pure tt

  unfoldable pub do_sync : Str → Str → M Str
  unfolding sync_if
  do_sync conn_id mode = do
    client ← get_client conn_id (str "do_sync") (str "Connection not found")
    on_world (or_else term (sync_if (decode_mode mode) client))
    pure (str "success sync")

  unfoldable pub pragma_query : Str → Str → M QueryResult
  pragma_query conn_id pragma_stmt = do
    client ← get_client conn_id (str "pragma_query conn_map") (str "Invalid connection ID")
    client_guard ← lift (safe_lock_arc client (str "pragma_query client"))
    conn ← lift (safe_lock_arc client_guard.client (str "pragma_query conn"))
    rows ← on_world (try_call (L.query conn pragma_stmt []) (describe (str "PRAGMA query failed")))
    on_world (collect_rows rows)
