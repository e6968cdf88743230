-- ===== src/Tests.antt =====
-- A small database for the witnesses: its world counts the calls that reach it, an empty statement
-- fails and every other one succeeds with no rows. With it, a state with one connection, one
-- transaction, one prepared statement and one cursor.
pub mod Statements
pub mod Registries
pub mod Memory
pub mod Threads
pub mod Sequences
pub mod Messages
pub mod Fuzzed
pub mod Fetching
pub mod Closing
pub mod Connecting
pub mod Terms
pub mod Preparing
use ecto_libsql.Common.{ℕ, suc, ◌+◌, Bool, true, false, Option, none, some, List, [], ◌∷◌, Str}
use ecto_libsql.Effect.{Result, ok, err}
use ecto_libsql.Libsql.{Libsql, Value, null, integer, Rows, finish, ℤ, pos}
use ecto_libsql.State.{State, Mutex, LibSqlConn, TransactionEntry, StatementEntry, CursorData}

abbrev runs : Str → ℕ → Result (Unit {0}) (Rows (Unit {0}) (List (Value (Unit {0})))) × ℕ
runs [] w = (err tt, suc w)
runs (c ∷ cs) w = (ok finish, suc w)

abbrev executes : Str → ℕ → Result (Unit {0}) ℕ × ℕ
executes [] w = (err tt, suc w)
executes (c ∷ cs) w = (ok 1, suc w)

abbrev cell : List (Value (Unit {0})) → ℕ → Result (Unit {0}) (Value (Unit {0}))
cell [] i = err tt
cell (v ∷ vs) i = ok v

instance abbrev pub demo : Libsql
demo = record {
  World = ℕ;
  LibError = Unit;
  Real = Unit;
  Row = List (Value (Unit {0}));
  Column = Str;
  Database = Unit;
  Connection = ℕ;
  Transaction = ℕ;
  Statement = ℕ;
  Term = Unit;
  display = λ e. [];
  debug = λ e. [];
  column_count = λ r. 1;
  column_name = λ r i. some [];
  get = cell;
  get_string = λ r i. err tt;
  get_i64 = λ r i. err tt;
  query = λ c sql args w. runs sql w;
  execute = λ c sql args w. executes sql w;
  prepare = λ c sql w. (ok 7, suc w);
  begin = λ c b w. (ok 5, suc w);
  busy_timeout = λ c n w. (ok tt, suc w);
  reset = λ c w. suc w;
  interrupt = λ c w. (ok tt, suc w);
  load_extension_enable = λ c w. (ok tt, suc w);
  load_extension_disable = λ c w. (ok tt, suc w);
  load_extension = λ c p e w. (ok tt, suc w);
  last_insert_rowid = λ c w. pos 0;
  changes = λ c w. 0;
  total_changes = λ c w. 0;
  is_autocommit = λ c w. true;
  trx_query = λ t sql args w. runs sql w;
  trx_execute = λ t sql args w. executes sql w;
  commit = λ t w. (ok tt, suc w);
  rollback = λ t w. (ok tt, suc w);
  drop_trx = λ t w. suc w;
  stmt_reset = λ p w. suc w;
  stmt_query = λ p args w. (ok finish, suc w);
  stmt_execute = λ p args w. (ok 1, suc w);
  stmt_column_count = λ p w. 1;
  stmt_columns = λ p w. (b'n' ∷ []) ∷ [];
  stmt_parameter_count = λ p w. 0;
  stmt_parameter_name = λ p i w. none;
  drop_stmt = λ p w. suc w;
  name = λ c. c;
  origin_name = λ c. none;
  decl_type = λ c. none;
  execute_batch = λ c sql w. (ok [], suc w);
  execute_transactional_batch = λ c sql w. (ok [], suc w);
  build_remote_replica = λ a b c d e w. (ok tt, suc w);
  build_remote = λ a b c w. (ok tt, suc w);
  build_local = λ a b w. (ok tt, suc w);
  open_connection = λ d w. (ok 3, suc w);
  sync = λ d w. (ok tt, suc w);
  sync_until = λ d n w. (ok tt, suc w);
  flush_replicator = λ d w. (ok none, suc w);
  replication_index = λ d w. (ok none, suc w);
  max_write_replication_index = λ d w. none;
  timeout = λ A n f w. (some (f w).0, (f w).1);
  drop_conn = λ d c w. suc w;
  new_v4 = λ w. (w ∷ [], suc w);
  decode_atom = λ t. none;
  decode_i64 = λ t. some (pos 1);
  decode_f64 = λ t. none;
  decode_bool = λ t. none;
  decode_string = λ t. none;
  decode_atom_bytes = λ t. none;
  decode_binary = λ t. none;
  decode_bytes = λ t. none;
  decode_statement = λ t. err [];
  debug_term = λ t. [];
  debug_atom = λ a. a;
  debug_error = λ e. [];
  debug_str = λ s. s;
  decode_list = λ t. err [];
  decode_pair = λ t. err [];
  allocates = λ n w. true;
}

-- Identifiers: of two connections, a transaction, a statement and a cursor.
abbrev pub c_id : Str
c_id = b'c' ∷ []

abbrev pub d_id : Str
d_id = b'd' ∷ []

abbrev pub t_id : Str
t_id = b't' ∷ []

abbrev pub s_id : Str
s_id = b's' ∷ []

abbrev pub k_id : Str
k_id = b'k' ∷ []

abbrev pub free : {A : Type 0} → A → Mutex A
free a = record { poisoned = false; content = a }

abbrev pub demo_client : Mutex LibSqlConn
demo_client = free (record { db = tt; client = free 3 })

abbrev pub demo_trx : TransactionEntry
demo_trx = record { conn_id = c_id; transaction = 5 }

abbrev pub demo_stmt : StatementEntry
demo_stmt = record { conn_id = c_id; statement = free 7 }

abbrev pub demo_row : ℕ → List (Value (Unit {0}))
demo_row n = integer (pos n) ∷ null ∷ []

abbrev pub demo_cursor : CursorData
demo_cursor = record {
  conn_id = c_id;
  columns = (b'n' ∷ []) ∷ (b'x' ∷ []) ∷ [];
  rows = demo_row 1 ∷ demo_row 2 ∷ demo_row 3 ∷ demo_row 4 ∷ demo_row 5 ∷ [];
  position = 1;
}

abbrev pub demo_state : State
demo_state = record {
  connections = free ((c_id, demo_client) ∷ []);
  transactions = free ((t_id, demo_trx) ∷ []);
  statements = free ((s_id, demo_stmt) ∷ []);
  cursors = free ((k_id, demo_cursor) ∷ []);
  world = 0;
}
