-- ===== src/Libsql.antt =====
-- What the NIF code takes from other crates: libsql, rustler's term decoders, tokio's timeout and
-- uuid. All of it is a parameter; `World` is everything that these crates read and change.
use ecto_libsql.Common.{ℕ, Bool, Option, List, Str}
use ecto_libsql.Effect.{Result}

-- An `i64`, as the integer that it stands for; `negsuc n` is -(n + 1).
pub data ℤ : Type 0 where
  pos : ℕ → ℤ
  negsuc : ℕ → ℤ

-- `libsql::Value`.
pub data Value (Real : Type 0) : Type 0 where
  null : Value Real
  integer : ℤ → Value Real
  real : Real → Value Real
  text : Str → Value Real
  blob : List ℕ → Value Real

-- What successive calls of `rows.next().await` return: rows, then `Ok(None)` or an error.
pub data Rows (E Row : Type 0) : Type 0 where
  finish : Rows E Row
  failed : E → Rows E Row
  next : Row → Rows E Row → Rows E Row

-- `libsql::TransactionBehavior`.
pub data TransactionBehavior : Type 0 where
  deferred immediate exclusive read_only : TransactionBehavior

-- `rustler::Error`: a term (here always a text), `badarg`, or an atom.
pub data Error : Type 0 where
  term : Str → Error
  bad_arg : Error
  atom : Str → Error

pub record Libsql : Type 1 where
  pub World : Type 0
  pub LibError : Type 0
  pub Real : Type 0
  pub Row : Type 0
  pub Column : Type 0
  pub Database : Type 0
  pub Connection : Type 0
  pub Transaction : Type 0
  pub Statement : Type 0
  pub Term : Type 0
  -- `{e}` and `{e:?}` of a library error, and `e.to_string()`
  pub display : LibError → Str
  pub debug : LibError → Str
  -- rows
  pub column_count : Row → ℕ
  pub column_name : Row → ℕ → Option Str
  pub get : Row → ℕ → Result LibError (Value Real)
  pub get_string : Row → ℕ → Result LibError Str
  pub get_i64 : Row → ℕ → Result LibError ℤ
  -- `libsql::Connection`
  pub query :
      Connection → Str → List (Value Real) → World → Result LibError (Rows LibError Row) × World
  pub execute : Connection → Str → List (Value Real) → World → Result LibError ℕ × World
  pub prepare : Connection → Str → World → Result LibError Statement × World
  pub begin : Connection → Option TransactionBehavior → World → Result LibError Transaction × World
  pub busy_timeout : Connection → ℕ → World → Result LibError (Unit {0}) × World
  pub reset : Connection → World → World
  pub interrupt : Connection → World → Result LibError (Unit {0}) × World
  pub load_extension_enable : Connection → World → Result LibError (Unit {0}) × World
  pub load_extension_disable : Connection → World → Result LibError (Unit {0}) × World
  pub load_extension : Connection → Str → Option Str → World → Result LibError (Unit {0}) × World
  pub last_insert_rowid : Connection → World → ℤ
  pub changes : Connection → World → ℕ
  pub total_changes : Connection → World → ℕ
  pub is_autocommit : Connection → World → Bool
  -- `libsql::Transaction`; `drop_trx` is what its destructor does
  pub trx_query :
      Transaction → Str → List (Value Real) → World → Result LibError (Rows LibError Row) × World
  pub trx_execute : Transaction → Str → List (Value Real) → World → Result LibError ℕ × World
  pub commit : Transaction → World → Result LibError (Unit {0}) × World
  pub rollback : Transaction → World → Result LibError (Unit {0}) × World
  pub drop_trx : Transaction → World → World
  -- `libsql::Statement`
  pub stmt_reset : Statement → World → World
  pub stmt_query :
      Statement → List (Value Real) → World → Result LibError (Rows LibError Row) × World
  pub stmt_execute : Statement → List (Value Real) → World → Result LibError ℕ × World
  pub stmt_column_count : Statement → World → ℕ
  pub stmt_columns : Statement → World → List Column
  pub stmt_parameter_count : Statement → World → ℕ
  pub stmt_parameter_name : Statement → ℤ → World → Option Str
  pub drop_stmt : Statement → World → World
  pub name : Column → Str
  pub origin_name : Column → Option Str
  pub decl_type : Column → Option Str
  -- the destructor of a registered connection and its database
  pub execute_batch :
      Connection → Str → World → Result LibError (List (Option (Rows LibError Row))) × World
  pub execute_transactional_batch :
      Connection → Str → World → Result LibError (List (Option (Rows LibError Row))) × World
  -- `libsql::Builder` with the local key and the remote key, and `libsql::Database`
  pub build_remote_replica :
      Str → Str → Str → Option Str → Option Str → World → Result LibError Database × World
  pub build_remote : Str → Str → Option Str → World → Result LibError Database × World
  pub build_local : Str → Option Str → World → Result LibError Database × World
  pub open_connection : Database → World → Result LibError Connection × World
  pub sync : Database → World → Result LibError (Unit {0}) × World
  pub sync_until : Database → ℕ → World → Result LibError (Unit {0}) × World
  pub flush_replicator : Database → World → Result LibError (Option ℕ) × World
  pub replication_index : Database → World → Result LibError (Option ℕ) × World
  pub max_write_replication_index : Database → World → Option ℕ
  -- `tokio::time::timeout` of so many seconds: `none` when they have passed first
  pub timeout : (A : Type 0) → ℕ → (World → A × World) → World → Option A × World
  pub drop_conn : Database → Connection → World → World
  -- `uuid::Uuid::new_v4().to_string()`
  pub new_v4 : World → Str × World
  -- rustler's decoders of a term, `{term:?}`, and whether a binary of so many bytes is allocated
  pub decode_atom : Term → Option Str
  pub decode_i64 : Term → Option ℤ
  pub decode_f64 : Term → Option Real
  pub decode_bool : Term → Option Bool
  pub decode_string : Term → Option Str
  pub decode_atom_bytes : Term → Option (Str × List ℕ)
  pub decode_binary : Term → Option (List ℕ)
  pub decode_bytes : Term → Option (List ℕ)
  pub decode_statement : Term → Result Str (Str × List Term)
  pub debug_term : Term → Str
  pub debug_atom : Str → Str
  pub debug_error : Error → Str
  pub debug_str : Str → Str
  pub decode_list : Term → Result Str (List Term)
  pub decode_pair : Term → Result Str (Str × Term)
  pub allocates : ℕ → World → Bool
