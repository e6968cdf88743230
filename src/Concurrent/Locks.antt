-- ===== src/Concurrent/Locks.antt =====
-- The mutexes that each NIF locks, in order, over all source files: the four registries of
-- constants.rs, and the client, connection and statement behind an identifier. A path is that of a
-- run to its end; a run that returns early lets go of what it holds.
pub mod Order
pub mod Progress
use ecto_libsql.Common.{
  ◌≡◌, ◌⊎◌, ℕ, Bool, true, false, ◌||◌, Option, List, [], ◌∷◌, ◌++◌, Str, str, str_eq,
  if◌then◌else◌,
}
use ecto_libsql.Libsql.{Libsql}
use ecto_libsql.Calls.{Call}

pub data Lock : Type 0 where
  connection_registry transaction_registry statement_registry cursor_registry : Lock
  client connection statement : Str → Lock

-- Guards are dropped in the reverse order of their locking: a release is of the last one.
pub data LockStep : Type 0 where
  acquire : Lock → LockStep
  release : LockStep

abbrev pub Steps : Type 0
Steps = List LockStep

-- A mutex for the time of a look.
abbrev pub briefly : Lock → Steps
briefly l = acquire l ∷ release ∷ []

-- The connection under its client, both locked for the time of the call.
abbrev pub through_client : Str → Steps
through_client conn_id =
    acquire (client conn_id) ∷ acquire (connection conn_id) ∷ release ∷ release ∷ []

-- The client, both registries being unlocked before.
abbrev pub through_path : Str → Steps
through_path conn_id = briefly connection_registry ++ through_client conn_id

-- The connection is cloned out of its client and locked alone.
abbrev pub cloned_path : Str → Steps
cloned_path conn_id =
    briefly connection_registry ++ (briefly (client conn_id) ++ briefly (connection conn_id))

abbrev pub client_path : Str → Steps
client_path conn_id = briefly connection_registry ++ briefly (client conn_id)

-- Both registries are locked while the statement is looked up.
abbrev pub statement_path : Str → Steps
statement_path stmt_id =
    acquire connection_registry
    ∷ acquire statement_registry
    ∷ release
    ∷ release
    ∷ briefly (statement stmt_id)

-- The guard takes the transaction, and puts it back at the end.
abbrev pub guarded_path : Steps → Steps
guarded_path body = briefly transaction_registry ++ (body ++ briefly transaction_registry)

-- The client is locked while the registry is.
abbrev pub enhancing : Str → Steps
enhancing conn_id = acquire connection_registry ∷ acquire (client conn_id) ∷ release ∷ release ∷ []

abbrev pub each_statement : Str → {A : Type 0} → List A → Steps
each_statement conn_id [] = []
each_statement conn_id (s ∷ ss) = through_client conn_id ++ each_statement conn_id ss

module _ ⦃L : Libsql⦄ where
  -- The paths of a NIF that reaches its end.
  abbrev pub lock_paths : Call → List Steps
  lock_paths (Call.connect opts mode) = briefly connection_registry ∷ []
  lock_paths (Call.ping conn_id) = through_path conn_id ∷ []
  lock_paths (Call.close id opt) =
      briefly connection_registry
      ∷ briefly transaction_registry
      ∷ briefly statement_registry
      ∷ briefly cursor_registry
      ∷ []
  lock_paths (Call.set_busy_timeout conn_id timeout_ms) = through_path conn_id ∷ []
  lock_paths (Call.reset_connection conn_id) = through_path conn_id ∷ []
  lock_paths (Call.interrupt_connection conn_id) = through_path conn_id ∷ []
  lock_paths (Call.enable_load_extension conn_id enabled) = through_path conn_id ∷ []
  lock_paths (Call.load_extension conn_id path entry_point) = through_path conn_id ∷ []
  lock_paths (Call.query_args conn_id sql args) = cloned_path conn_id ∷ []
  lock_paths (Call.do_sync conn_id mode) = client_path conn_id ∷ briefly connection_registry ∷ []
  lock_paths (Call.pragma_query conn_id sql) = through_path conn_id ∷ []
  lock_paths (Call.begin_transaction conn_id) =
      (cloned_path conn_id ++ briefly transaction_registry) ∷ []
  lock_paths (Call.begin_transaction_with_behavior conn_id behavior) =
      (cloned_path conn_id ++ briefly transaction_registry) ∷ []
  lock_paths (Call.execute_with_transaction trx_id conn_id sql args) = guarded_path [] ∷ []
  lock_paths (Call.query_with_trx_args trx_id conn_id sql args) =
      guarded_path (enhancing conn_id)
      ∷ guarded_path (enhancing conn_id ++ briefly (connection conn_id))
      ∷ []
  lock_paths (Call.handle_status_transaction trx_id) = briefly transaction_registry ∷ []
  lock_paths (Call.commit_or_rollback_transaction trx_id conn_id param) =
      briefly transaction_registry ∷ []
  lock_paths (Call.savepoint conn_id trx_id name) = guarded_path [] ∷ []
  lock_paths (Call.release_savepoint conn_id trx_id name) = guarded_path [] ∷ []
  lock_paths (Call.rollback_to_savepoint conn_id trx_id name) = guarded_path [] ∷ []
  lock_paths (Call.declare_cursor conn_id sql args) =
      (through_path conn_id ++ briefly cursor_registry) ∷ []
  lock_paths (Call.declare_cursor_with_context conn_id id id_type sql args) =
      (guarded_path [] ++ briefly cursor_registry)
      ∷ (cloned_path conn_id ++ briefly cursor_registry)
      ∷ []
  lock_paths (Call.fetch_cursor conn_id cursor_id max_rows) = briefly cursor_registry ∷ []
  lock_paths (Call.prepare_statement conn_id sql) =
      (cloned_path conn_id ++ briefly statement_registry) ∷ []
  lock_paths (Call.query_prepared conn_id stmt_id args) = statement_path stmt_id ∷ []
  lock_paths (Call.execute_prepared conn_id stmt_id args) = statement_path stmt_id ∷ []
  lock_paths (Call.statement_column_count conn_id stmt_id) = statement_path stmt_id ∷ []
  lock_paths (Call.statement_column_name conn_id stmt_id idx) = statement_path stmt_id ∷ []
  lock_paths (Call.statement_parameter_count conn_id stmt_id) = statement_path stmt_id ∷ []
  lock_paths (Call.statement_parameter_name conn_id stmt_id idx) = statement_path stmt_id ∷ []
  lock_paths (Call.reset_statement conn_id stmt_id) = statement_path stmt_id ∷ []
  lock_paths (Call.get_statement_columns conn_id stmt_id) = statement_path stmt_id ∷ []
  lock_paths (Call.execute_batch conn_id statements) =
      (briefly connection_registry ++ each_statement conn_id statements) ∷ []
  lock_paths (Call.execute_transactional_batch conn_id statements) = through_path conn_id ∷ []
  lock_paths (Call.execute_batch_native conn_id sql) = through_path conn_id ∷ []
  lock_paths (Call.execute_transactional_batch_native conn_id sql) = through_path conn_id ∷ []
  lock_paths (Call.last_insert_rowid conn_id) = through_path conn_id ∷ []
  lock_paths (Call.changes conn_id) = through_path conn_id ∷ []
  lock_paths (Call.total_changes conn_id) = through_path conn_id ∷ []
  lock_paths (Call.is_autocommit conn_id) = through_path conn_id ∷ []
  lock_paths (Call.get_frame_number conn_id) = client_path conn_id ∷ []
  lock_paths (Call.sync_until conn_id frame_no) = client_path conn_id ∷ []
  lock_paths (Call.flush_replicator conn_id) = client_path conn_id ∷ []
  lock_paths (Call.max_write_replication_index conn_id) = client_path conn_id ∷ []
  lock_paths (Call.freeze_database conn_id) = briefly connection_registry ∷ []

-- The same mutex.
abbrev pub same_lock : Lock → Lock → Bool
same_lock connection_registry connection_registry = true
same_lock transaction_registry transaction_registry = true
same_lock statement_registry statement_registry = true
same_lock cursor_registry cursor_registry = true
same_lock (client a) (client b) = str_eq a b
same_lock (connection a) (connection b) = str_eq a b
same_lock (statement a) (statement b) = str_eq a b
same_lock a b = false

abbrev pub locked_in : Lock → List Lock → Bool
locked_in l [] = false
locked_in l (h ∷ hs) = same_lock l h || locked_in l hs

-- A thread in the midst of a NIF: its guards, the last one first, and what it has before it.
pub record Thread : Type 0 where
  pub guards : List Lock
  pub todo : Steps

abbrev pub locked : Lock → List Thread → Bool
locked l [] = false
locked l (t ∷ ts) = locked_in l t.guards || locked l ts

-- An early return drops the guards, and a transaction that was taken is put back behind them.
abbrev pub drop_guards : List Lock → Bool → Steps
drop_guards [] back = if back then briefly transaction_registry else []
drop_guards (l ∷ ls) back = release ∷ drop_guards ls back

-- One of a list.
abbrev pub In : {A : Type 0} → A → List A → Type 0
In x [] = ⊥
In x (y ∷ ys) = (x ≡ y) ⊎ In x ys

module _ ⦃L : Libsql⦄ where
  -- One step of one thread, of any number.
  pub data Move (ts us : List Thread) : Type 0 where
    enters :
        (c : Call) (path : Steps)
        → In path (lock_paths c)
        → us ≡ record { guards = []; todo = path } ∷ ts
        → Move ts us
    acquires :
        (pre post : List Thread) (guards : List Lock) (l : Lock) (rest : Steps)
        → ts ≡ pre ++ (record { guards = guards; todo = acquire l ∷ rest } ∷ post)
        → locked l ts ≡ false
        → us ≡ pre ++ (record { guards = l ∷ guards; todo = rest } ∷ post)
        → Move ts us
    releases :
        (pre post : List Thread) (guards : List Lock) (l : Lock) (rest : Steps)
        → ts ≡ pre ++ (record { guards = l ∷ guards; todo = release ∷ rest } ∷ post)
        → us ≡ pre ++ (record { guards = guards; todo = rest } ∷ post)
        → Move ts us
    returns_early :
        (pre post : List Thread) (t : Thread) (back : Bool)
        → ts ≡ pre ++ (t ∷ post)
        → us ≡ pre ++ (record { guards = t.guards; todo = drop_guards t.guards back } ∷ post)
        → Move ts us

  -- The threads that any sequence of moves leads to, from none.
  pub data Runs : List Thread → Type 0 where
    idle : Runs []
    moves : {ts us : List Thread} → Runs ts → Move ts us → Runs us
