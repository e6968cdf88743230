-- ===== src/Connection.antt =====
-- connection.rs: establishing, checking, configuring and closing connections.
pub mod Closing
pub mod Untouched
pub mod Connected
pub mod Given
pub mod Established
pub mod Succeeds
use ecto_libsql.Common.{
  ℕ, Bool, true, false, Option, none, some, List, [], ◌∷◌, ◌++◌, Str, str, str_eq, if◌then◌else◌,
  lookup, insert, remove, Map,
}
use ecto_libsql.Effect.{
  Result, ok, err, Eff, pure, fail, lift, ok_or, call, try_call, map_err, and_then, touch, ◌>>=◌,
  ◌>>◌,
}
use ecto_libsql.Libsql.{Libsql, Error, Rows, term, bad_arg}
use ecto_libsql.State.{
  State, M, Mutex, LibSqlConn, Mode, local, remote, remote_replica, safe_lock, safe_lock_arc,
  on_world, describe, put_connections, put_transactions, put_statements, put_cursors,
  lock_connections, lock_transactions, lock_statements, lock_cursors, get_client,
}
use ecto_libsql.Decode.{decode_mode}
use ecto_libsql.Metadata.{locked_connection}
use ecto_libsql.Query.{default_sync_timeout_secs}
use ecto_libsql.Text.{decimal}

module _ ⦃L : Libsql⦄ where
  open L use {World, Term, Row, Database, Connection, Transaction, Statement, LibError}

  -- The keyword list as a map; a key given twice keeps its last value.
  unfoldable options_onto : Map Term → List Term → Result Error (Map Term)
  options_onto m [] = ok m
  options_onto m (pair ∷ pairs) =
      and_then (map_err (λ e. term (str "expected keyword tuple: " ++ e)) (L.decode_pair pair))
        (λ keyword. options_onto (insert (L.debug_atom keyword.0) keyword.1 m) pairs)

  abbrev string_in : Option Term → Option Str
  string_in none = none
  string_in (some t) = L.decode_string t

  -- A key that is missing, or whose value is no string, is `None`.
  abbrev string_option : Str → Map Term → Option Str
  string_option key m = string_in (lookup key m)

  pub record Options : Type 0 where
    pub url : Option Str
    pub token : Option Str
    pub dbname : Option Str
    pub encryption_key : Option Str
    pub remote_encryption_key : Option Str

  unfoldable pub read_options : Term → Result Error Options
  unfolding options_onto
  read_options opts =
      and_then (map_err (λ e. term (str "decode failed: " ++ e)) (L.decode_list opts)) (λ list.
        and_then (options_onto [] list) (λ m. ok (record {
          url = string_option (str "uri") m;
          token = string_option (str "auth_token") m;
          dbname = string_option (str "database") m;
          encryption_key = string_option (str "encryption_key") m;
          remote_encryption_key = string_option (str "remote_encryption_key") m;
        })))

  unfoldable build_db : Mode → Options → Eff Error World Database
  build_db remote_replica o = do
    url ← lift (ok_or o.url bad_arg)
    token ← lift (ok_or o.token bad_arg)
    dbname ← lift (ok_or o.dbname bad_arg)
    try_call (L.build_remote_replica dbname url token o.encryption_key o.remote_encryption_key)
        (describe (str "Failed to build DB"))
  build_db remote o = do
    url ← lift (ok_or o.url bad_arg)
    token ← lift (ok_or o.token bad_arg)
    try_call (L.build_remote url token o.remote_encryption_key)
        (describe (str "Failed to build DB"))
  build_db local o = do
    dbname ← lift (ok_or o.dbname bad_arg)
    try_call (L.build_local dbname o.encryption_key) (describe (str "Failed to build DB"))

  abbrev keep_pinged :
      Database → Connection → Result LibError (Rows LibError Row) → Eff Error World (Unit {0})
  keep_pinged db conn (ok rows) = pure tt
  keep_pinged db conn (err e) = do
    touch (L.drop_conn db conn)
    fail (describe (str "Failed ping") e)

  -- A connection that is not local is pinged, and destroyed when that fails.
  unfoldable ping_remote : Mode → Database → Connection → Eff Error World (Unit {0})
  ping_remote local db conn = pure tt
  ping_remote _ db conn = do res ← call (L.query conn (str "SELECT 1") []); keep_pinged db conn res

  -- What stands under the timeout, up to its last wait.
  unfoldable establish : Term → Options → Eff Error World LibSqlConn
  unfolding build_db ping_remote
  establish mode o = do
    mode_atom ← lift (ok_or (L.decode_atom mode) (term (str "Invalid mode atom")))
    mode_enum ← lift (ok_or (decode_mode mode_atom) (term (str "Unknown mode")))
    db ← build_db mode_enum o
    conn ← try_call (L.open_connection db) (describe (str "Failed to connect"))
    ping_remote mode_enum db conn
    pure (record { db = db; client = record { poisoned = false; content = conn } })

  timed_out : Error
  timed_out =
      term
        (str "Connection timeout after " ++ (decimal default_sync_timeout_secs ++ str " seconds"))

  abbrev or_timed_out : {A : Type 0} → Option (Result Error A) → Result Error A
  or_timed_out none = err timed_out
  or_timed_out (some r) = r

  -- A poisoned registry is reported once more, and the connection is destroyed.
  unfoldable pub register : LibSqlConn → M Str
  register c = do
    conn_id ← on_world (call L.new_v4)
    λ s. elim (safe_lock s.connections (str "connect conn_registry")) [
      | err e ↦ (
        err (term (str "Failed to register connection: " ++ L.debug_error e)),
        record s { world = L.drop_conn c.db c.client.content s.world },
      )
      | ok conn_registry ↦
          (do
            put_connections
                (insert conn_id (record { poisoned = false; content = c }) conn_registry)
            pure conn_id)
            s
    ]

  -- What is done before the registry is touched.
  unfoldable pub connect_to : Term → Term → M LibSqlConn
  unfolding establish timed_out
  connect_to opts mode = do
    o ← lift (read_options opts)
    done ←
        on_world
          (call (L.timeout (Result Error LibSqlConn) default_sync_timeout_secs (establish mode o)))
    lift (or_timed_out done)

  unfoldable pub connect : Term → Term → M Str
  connect opts mode = do c ← connect_to opts mode; register c

  -- The locks' errors and the query's are both reported as a ping error, by their debug forms.
  ping_once : Mutex LibSqlConn → Eff Str World (Unit {0})
  ping_once client = do
    client_guard ← lift (map_err L.debug_error (safe_lock_arc client (str "ping client")))
    conn ← lift (map_err L.debug_error (safe_lock_arc client_guard.client (str "ping conn")))
    rows ← try_call (L.query conn (str "SELECT 1") []) L.debug
    pure tt

  unfoldable pub ping : Str → M Bool
  unfolding ping_once
  ping conn_id = do
    client ← get_client conn_id (str "ping conn_map") (str "Invalid connection ID")
    done ← on_world (λ w. (ok (ping_once client w).0, (ping_once client w).1))
    elim done [ ok _ ↦ pure true | err e ↦ fail (term (str "Ping error: " ++ L.debug_str e)) ]

  -- `remove(id)`: the removed value, if there was one, is destroyed.
  close_conn : Str → M (Unit {0})
  close_conn id = do
    conn_map ← lock_connections (str "close conn")
    removed ← lift (ok_or (lookup id conn_map) (term (str "Connection not found")))
    put_connections (remove id conn_map)
    on_world (touch (L.drop_conn removed.content.db removed.content.client.content))

  close_trx : Str → M (Unit {0})
  close_trx id = do
    registry ← lock_transactions (str "close trx")
    removed ← lift (ok_or (lookup id registry) (term (str "Transaction not found")))
    put_transactions (remove id registry)
    on_world (touch (L.drop_trx removed.transaction))

  close_stmt : Str → M (Unit {0})
  close_stmt id = do
    registry ← lock_statements (str "close stmt")
    removed ← lift (ok_or (lookup id registry) (term (str "Statement not found")))
    put_statements (remove id registry)
    on_world (touch (L.drop_stmt removed.statement.content))

  close_cursor : Str → M (Unit {0})
  close_cursor id = do
    registry ← lock_cursors (str "close cursor")
    removed ← lift (ok_or (lookup id registry) (term (str "Cursor not found")))
    put_cursors (remove id registry)

  unfoldable pub close : Str → Str → M (Unit {0})
  unfolding close_conn close_trx close_stmt close_cursor
  close id opt =
      if str_eq opt (str "conn_id")
      then close_conn id
      else if str_eq opt (str "trx_id")
      then close_trx id
      else if str_eq opt (str "stmt_id")
      then close_stmt id
      else if str_eq opt (str "cursor_id")
      then close_cursor id
      else fail (term (str "opt is incorrect"))

  unfoldable pub set_busy_timeout : Str → ℕ → M (Unit {0})
  set_busy_timeout conn_id timeout_ms = do
    conn ← locked_connection (str "set_busy_timeout") conn_id
    on_world (try_call (L.busy_timeout conn timeout_ms) (describe (str "busy_timeout failed")))

  unfoldable pub reset_connection : Str → M (Unit {0})
  reset_connection conn_id = do
    conn ← locked_connection (str "reset_connection") conn_id
    on_world (touch (L.reset conn))

  unfoldable pub interrupt_connection : Str → M (Unit {0})
  interrupt_connection conn_id = do
    conn ← locked_connection (str "interrupt_connection") conn_id
    on_world (try_call (L.interrupt conn) (describe (str "interrupt failed")))

  set_load_extension : Bool → Connection → Eff Error World (Unit {0})
  set_load_extension true conn =
      try_call (L.load_extension_enable conn) (describe (str "Failed to enable extension loading"))
  set_load_extension false conn =
      try_call (L.load_extension_disable conn)
        (describe (str "Failed to disable extension loading"))

  unfoldable pub enable_load_extension : Str → Bool → M (Unit {0})
  unfolding set_load_extension
  enable_load_extension conn_id enabled = do
    conn ← locked_connection (str "enable_load_extension") conn_id
    on_world (set_load_extension enabled conn)

  unfoldable pub load_extension : Str → Str → Option Str → M (Unit {0})
  load_extension conn_id path entry_point = do
    conn ← locked_connection (str "load_extension") conn_id
    on_world (
        try_call (L.load_extension conn path entry_point)
          (describe (str "Failed to load extension")))
