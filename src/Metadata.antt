-- ===== src/Metadata.antt =====
-- metadata.rs: what a connection reports of itself.
use ecto_libsql.Common.{ℕ, Bool, Str, str, ◌++◌}
use ecto_libsql.Effect.{peek, lift, ◌>>=◌}
use ecto_libsql.Libsql.{Libsql, ℤ}
use ecto_libsql.State.{M, safe_lock_arc, on_world, get_client}

module _ ⦃L : Libsql⦄ where
  open L use {Connection}

  -- The connection behind its three locks, whose contexts begin with the name of the NIF.
  unfoldable pub locked_connection : Str → Str → M Connection
  locked_connection nif conn_id = do
    client ← get_client conn_id (nif ++ str " conn_map") (str "Invalid connection ID")
    client_guard ← lift (safe_lock_arc client (nif ++ str " client"))
    lift (safe_lock_arc client_guard.client (nif ++ str " conn"))

  unfoldable pub last_insert_rowid : Str → M ℤ
  last_insert_rowid conn_id = do
    conn ← locked_connection (str "last_insert_rowid") conn_id
    on_world (peek (L.last_insert_rowid conn))

  unfoldable pub changes : Str → M ℕ
  changes conn_id = do
    conn ← locked_connection (str "changes") conn_id
    on_world (peek (L.changes conn))

  unfoldable pub total_changes : Str → M ℕ
  total_changes conn_id = do
    conn ← locked_connection (str "total_changes") conn_id
    on_world (peek (L.total_changes conn))

  unfoldable pub is_autocommit : Str → M Bool
  is_autocommit conn_id = do
    conn ← locked_connection (str "is_autocommit") conn_id
    on_world (peek (L.is_autocommit conn))
