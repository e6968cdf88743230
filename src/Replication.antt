-- ===== src/Replication.antt =====
-- replication.rs: frame numbers and synchronisation of a replica.
use ecto_libsql.Common.{ℕ, Option, none, some, ◌++◌, Str, str}
use ecto_libsql.Effect.{
  Result, ok, err, Eff, pure, fail, peek, lift, call, try_call, map_err, ◌>>=◌,
}
use ecto_libsql.Libsql.{Libsql, term, atom}
use ecto_libsql.State.{M, Mutex, LibSqlConn, safe_lock_arc, on_world, or_else, get_client}
use ecto_libsql.Query.{default_sync_timeout_secs}
use ecto_libsql.Text.{decimal}

module _ ⦃L : Libsql⦄ where
  open L use {World, LibError, Database}

  -- `unwrap_or(0)`.
  abbrev or_zero : Option ℕ → ℕ
  or_zero none = 0
  or_zero (some n) = n

  abbrev explained : Str → LibError → Str
  explained what e = what ++ (str ": " ++ L.display e)

  -- The database under the connection's lock.
  abbrev locked_db : Str → Mutex LibSqlConn → Eff Str World LibSqlConn
  locked_db context client = lift (
      map_err (λ e. str "Failed to lock client: " ++ L.debug_error e)
        (safe_lock_arc client context))

  unfoldable pub get_frame_number : Str → M ℕ
  get_frame_number conn_id = do
    client ← get_client conn_id (str "get_frame_number conn_map") (str "Connection not found")
    on_world (
        or_else term (do
          guard ← locked_db (str "get_frame_number client") client
          frame_no ←
              try_call (L.replication_index guard.db) (explained (str "replication_index failed"))
          pure (or_zero frame_no)))

  abbrev seconds : Str → Str
  seconds what =
      what ++ (str " timed out after " ++ (decimal default_sync_timeout_secs ++ str " seconds"))

  -- A call of the database under the default timeout.
  timed : {A : Type 0} → Str → (World → Result LibError A × World) → Eff Str World A
  timed {A} what run = do
    done ← call (L.timeout (Result LibError A) default_sync_timeout_secs run)
    elim done [
      | none ↦ fail (seconds what)
      | some (ok a) ↦ pure a
      | some (err e) ↦ fail (explained (what ++ str " failed") e)
    ]

  unfoldable pub sync_until : Str → ℕ → M (Unit {0})
  unfolding timed
  sync_until conn_id frame_no = do
    client ← get_client conn_id (str "sync_until conn_map") (str "Connection not found")
    on_world (
        or_else term (do
          guard ← locked_db (str "sync_until client") client
          timed (str "sync_until") (L.sync_until guard.db frame_no)))

  unfoldable pub flush_replicator : Str → M ℕ
  unfolding timed
  flush_replicator conn_id = do
    client ← get_client conn_id (str "flush_replicator conn_map") (str "Connection not found")
    on_world (
        or_else term (do
          guard ← locked_db (str "flush_replicator client") client
          frame_no ← timed (str "flush_replicator") (L.flush_replicator guard.db)
          pure (or_zero frame_no)))

  unfoldable pub max_write_replication_index : Str → M ℕ
  max_write_replication_index conn_id = do
    client ←
        get_client conn_id (str "max_write_replication_index conn_map") (str "Connection not found")
    guard ← lift (safe_lock_arc client (str "max_write_replication_index client"))
    frame_no ← on_world (peek (L.max_write_replication_index guard.db))
    pure (or_zero frame_no)

  -- Always an error, `:unsupported` where the connection is there.
  unfoldable pub freeze_database : {A : Type 0} → Str → M A
  freeze_database conn_id = do
    client ← get_client conn_id (str "freeze_database conn_map") (str "Connection not found")
    fail (atom (str "unsupported"))
