-- ===== src/Statement.antt =====
-- statement.rs: prepared statements, registered under the connection that prepared them. `ctx`
-- builds the context of a lock from the name of the NIF, as the source writes it out.
pub mod Ownership
pub mod Prepare
pub mod Kept
use ecto_libsql.Common.{
  ℕ, Bool, true, false, Option, none, some, List, [], ◌∷◌, ◌++◌, map, Str, str, leb, if◌then◌else◌,
  length, get_elem?, lookup, insert,
}
use ecto_libsql.Effect.{
  Result, ok, err, pure, fail, peek, lift, ok_or, call, try_call, touch, ◌>>=◌, ◌>>◌,
}
use ecto_libsql.Libsql.{Libsql, Error, term, ℤ}
use ecto_libsql.State.{
  safe_lock, M, Mutex, StatementEntry, safe_lock_arc, on_world, or_else, describe, lock_connections,
  lock_statements, put_statements, get_client,
}
use ecto_libsql.Decode.{verify_statement_ownership}
use ecto_libsql.Values.{decode_args, QueryResult, collect_rows}
use ecto_libsql.Text.{decimal}

module _ ⦃L : Libsql⦄ where
  open L use {Term, Statement, Column}

  -- The new entry; if the registry is poisoned the statement is destroyed.
  unfoldable pub register_statement : Str → Statement → M Str
  register_statement conn_id stmt = do
    stmt_id ← on_world (call L.new_v4)
    λ s. elim (safe_lock s.statements (str "prepare_statement stmt_registry")) [
      | err e ↦ (err e, record s { world = L.drop_stmt stmt s.world })
      | ok stmt_registry ↦
          (do
            put_statements (
                insert stmt_id
                  (record {
                    conn_id = conn_id;
                    statement = record { poisoned = false; content = stmt };
                  })
                  stmt_registry)
            pure stmt_id)
            s
    ]

  unfoldable pub prepare_on : Str → Str → M Statement
  prepare_on conn_id sql = do
    client ← get_client conn_id (str "prepare_statement conn_map") (str "Invalid connection ID")
    connection ← lift (safe_lock_arc client (str "prepare_statement client"))
    conn ← lift (safe_lock_arc connection.client (str "prepare_statement conn"))
    on_world (try_call (L.prepare conn sql) (describe (str "Prepare failed")))

  unfoldable pub prepare_statement : Str → Str → M Str
  prepare_statement conn_id sql = do stmt ← prepare_on conn_id sql; register_statement conn_id stmt

  abbrev ctx : Str → Str → Str
  ctx nif what = nif ++ (str " " ++ what)

  require : {A : Type 0} → Option A → Error → M (Unit {0})
  require none e = fail e
  require (some a) e = pure tt

  -- Both registries are locked; the connection has to be there, then the statement, and the
  -- statement has to be the connection's.
  unfoldable pub find_statement : Str → Str → Str → M (Mutex Statement)
  unfolding require
  find_statement nif conn_id stmt_id = do
    conn_map ← lock_connections (ctx nif (str "conn_map"))
    stmt_registry ← lock_statements (ctx nif (str "stmt_registry"))
    require (lookup conn_id conn_map) (term (str "Invalid connection ID"))
    found ← lift (ok_or (lookup stmt_id stmt_registry) (term (str "Statement not found")))
    lift (verify_statement_ownership found.conn_id conn_id)
    pure found.statement

  unfoldable pub query_prepared : Str → Str → List Term → M QueryResult
  query_prepared conn_id stmt_id args = do
    cached_stmt ← find_statement (str "query_prepared") conn_id stmt_id
    decoded_args ← lift (decode_args args)
    stmt ← lift (safe_lock_arc cached_stmt (str "query_prepared stmt"))
    on_world (touch (L.stmt_reset stmt))
    rows ← on_world (try_call (L.stmt_query stmt decoded_args) (λ e. term (L.display e)))
    on_world (or_else (λ e. term (L.debug_error e)) (collect_rows rows))

  unfoldable pub execute_prepared : Str → Str → List Term → M ℕ
  execute_prepared conn_id stmt_id args = do
    cached_stmt ← find_statement (str "execute_prepared") conn_id stmt_id
    decoded_args ← lift (decode_args args)
    stmt ← lift (safe_lock_arc cached_stmt (str "execute_prepared stmt"))
    on_world (touch (L.stmt_reset stmt))
    on_world (try_call (L.stmt_execute stmt decoded_args) (describe (str "Execute failed")))

  -- The statement itself, behind its own lock.
  unfoldable pub locked_statement : Str → Str → Str → M Statement
  locked_statement nif conn_id stmt_id = do
    cached_stmt ← find_statement nif conn_id stmt_id
    lift (safe_lock_arc cached_stmt (ctx nif (str "stmt")))

  unfoldable pub statement_column_count : Str → Str → M ℕ
  unfolding locked_statement
  statement_column_count conn_id stmt_id = do
    stmt ← locked_statement (str "statement_column_count") conn_id stmt_id
    on_world (peek (L.stmt_column_count stmt))

  pub out_of_bounds : ℕ → ℕ → Error
  out_of_bounds idx n = term (
      str "Column index "
      ++ (decimal idx ++ (str " out of bounds (statement has " ++ (decimal n ++ str " columns)"))))

  -- `columns[idx]` behind the test of the index.
  name_at : ℕ → List Column → Result Error Str
  unfolding out_of_bounds
  name_at idx columns =
      if leb (length columns) idx
      then err (out_of_bounds idx (length columns))
      else elim (get_elem? columns idx) [
        | none ↦ err (out_of_bounds idx (length columns))
        | some column ↦ ok (L.name column)
      ]

  unfoldable pub statement_column_name : Str → Str → ℕ → M Str
  unfolding locked_statement name_at
  statement_column_name conn_id stmt_id idx = do
    stmt ← locked_statement (str "statement_column_name") conn_id stmt_id
    columns ← on_world (peek (L.stmt_columns stmt))
    lift (name_at idx columns)

  unfoldable pub statement_parameter_count : Str → Str → M ℕ
  unfolding locked_statement
  statement_parameter_count conn_id stmt_id = do
    stmt ← locked_statement (str "statement_parameter_count") conn_id stmt_id
    on_world (peek (L.stmt_parameter_count stmt))

  unfoldable pub statement_parameter_name : Str → Str → ℤ → M (Option Str)
  unfolding locked_statement
  statement_parameter_name conn_id stmt_id idx = do
    stmt ← locked_statement (str "statement_parameter_name") conn_id stmt_id
    on_world (peek (L.stmt_parameter_name stmt idx))

  unfoldable pub reset_statement : Str → Str → M (Unit {0})
  unfolding locked_statement
  reset_statement conn_id stmt_id = do
    stmt ← locked_statement (str "reset_statement") conn_id stmt_id
    on_world (touch (L.stmt_reset stmt))

  abbrev or_name : Str → Option Str → Str
  or_name name none = name
  or_name name (some s) = s

  -- Name, origin and declared type.
  pub describe_column : Column → Str × Str × Option Str
  describe_column col = (L.name col, or_name (L.name col) (L.origin_name col), L.decl_type col)

  unfoldable pub get_statement_columns : Str → Str → M (List (Str × Str × Option Str))
  unfolding locked_statement describe_column
  get_statement_columns conn_id stmt_id = do
    stmt ← locked_statement (str "get_statement_columns") conn_id stmt_id
    columns ← on_world (peek (L.stmt_columns stmt))
    pure (map describe_column columns)
