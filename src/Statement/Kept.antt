-- ===== src/Statement/Kept.antt =====
-- A statement from its preparation to its uses.
use ecto_libsql.Common.{
  ◌≡◌, refl, false, some, List, Str, str, str_eq_refl, lookup-insert_self, insert, map, ℕ, arith,
  lookup,
}
use ecto_libsql.Effect.{Result, ok, Eff, try_call, touch, ◌>>=◌, ◌>>◌}
use ecto_libsql.Libsql.{Libsql, Error, term, Value}
use ecto_libsql.State.{
  State, Mutex, LibSqlConn, safe_lock, safe_lock_arc_free, safe_lock_free, describe, or_else,
}
use ecto_libsql.Decode.{verify_statement_ownership}
use ecto_libsql.Values.{decode_args, QueryResult, collect_rows}
use ecto_libsql.Statement.{
  prepare_statement, prepare_on, register_statement, query_prepared, execute_prepared,
  find_statement, get_statement_columns, describe_column,
}
use ecto_libsql.Statement.Ownership.{Usable, column_name-columns}

module _ ⦃L : Libsql⦄ where
  open L use {World, Real, Term, Statement}

  -- The state with the new statement, in a world that has given out its identifier.
  abbrev pub with_statement : State → Str → Statement → World → State
  with_statement s conn_id stmt v = record s {
    statements = record {
      poisoned = s.statements.poisoned;
      content =
          insert (L.new_v4 v).0
            (record { conn_id = conn_id; statement = record { poisoned = false; content = stmt } })
            s.statements.content;
    };
    world = (L.new_v4 v).1;
  }

  -- The connection can be locked, and libsql prepares the statement on it.
  pub record Prepares (s : State) (conn_id sql : Str) (stmt : Statement) (v : World) : Type 0 where
    pub connections_free : s.connections.poisoned ≡ false
    pub statements_free : s.statements.poisoned ≡ false
    pub client : Mutex LibSqlConn
    pub connected : lookup conn_id s.connections.content ≡ some client
    pub client_free : client.poisoned ≡ false
    pub conn_free : client.content.client.poisoned ≡ false
    pub compiled : L.prepare client.content.client.content sql s.world ≡ (ok stmt, v)

  Prepares-Usable :
      (s : State) (conn_id sql : Str) (stmt : Statement) (v : World)
      → Prepares s conn_id sql stmt v
      → Usable (with_statement s conn_id stmt v) conn_id (L.new_v4 v).0 stmt
  Prepares-Usable s conn_id sql stmt v p = record {
    connections_free = p.connections_free;
    statements_free = p.statements_free;
    client = p.client;
    connected = p.connected;
    entry = record { conn_id = conn_id; statement = record { poisoned = false; content = stmt } };
    prepared = lookup-insert_self (L.new_v4 v).0 _ s.statements.content;
    owned = str_eq_refl conn_id;
    statement_free = refl;
    statement_eq = refl;
  }

  prepare_on_eq :
      (s : State) (conn_id sql : Str) (stmt : Statement) (v : World)
      → Prepares s conn_id sql stmt v
      → prepare_on conn_id sql s ≡ (ok stmt, record s { world = v })
  unfolding prepare_on
  prepare_on_eq s conn_id sql stmt v p =
      rw
        (
          safe_lock_free s.connections (str "prepare_statement conn_map") p.connections_free,
          p.connected,
          safe_lock_arc_free p.client (str "prepare_statement client") p.client_free,
          safe_lock_arc_free p.client.content.client (str "prepare_statement conn") p.conn_free,
          p.compiled,
        )
        refl

  register_statement_eq :
      (s : State) (conn_id : Str) (stmt : Statement) (v : World)
      → s.statements.poisoned ≡ false
      → register_statement conn_id stmt (record s { world = v })
        ≡ (ok (L.new_v4 v).0, with_statement s conn_id stmt v)
  unfolding register_statement safe_lock insert
  register_statement_eq s conn_id stmt v free =
      rw (safe_lock_free s.statements (str "prepare_statement stmt_registry") free) refl

  prepared_eq :
      (s : State) (conn_id sql : Str) (stmt : Statement) (v : World)
      → Prepares s conn_id sql stmt v
      → prepare_statement conn_id sql s ≡ (ok (L.new_v4 v).0, with_statement s conn_id stmt v)
  unfolding prepare_statement
  prepared_eq s conn_id sql stmt v p =
      rw (prepare_on_eq s conn_id sql stmt v p)
        (register_statement_eq s conn_id stmt v p.statements_free)

  find_statement_eq :
      (nif : Str) (s : State) (conn_id stmt_id : Str) (stmt : Statement)
      (u : Usable s conn_id stmt_id stmt)
      → find_statement nif conn_id stmt_id s ≡ (ok u.entry.statement, s)
  unfolding find_statement verify_statement_ownership
  find_statement_eq nif s conn_id stmt_id stmt u =
      rw
        (
          safe_lock_free s.connections _ u.connections_free,
          safe_lock_free s.statements _ u.statements_free,
          u.connected,
          u.prepared,
          u.owned,
        )
        refl

  -- The statement is reset, run with the parameters, and its rows are collected.
  abbrev pub run_query : Statement → List (Value Real) → Eff Error World QueryResult
  run_query stmt params = do
    touch (L.stmt_reset stmt)
    rows ← try_call (L.stmt_query stmt params) (λ e. term (L.display e))
    or_else (λ e. term (L.debug_error e)) (collect_rows rows)

  -- The same for the number of rows affected.
  abbrev pub run_execute : Statement → List (Value Real) → Eff Error World ℕ
  run_execute stmt params = do
    touch (L.stmt_reset stmt)
    try_call (L.stmt_execute stmt params) (describe (str "Execute failed"))

  abbrev pub over : {A : Type 0} → State → Result Error A × World → Result Error A × State
  over s run = (run.0, record s { world = run.1 })

  query_prepared-Usable :
      (s : State) (conn_id stmt_id : Str) (stmt : Statement) (args : List Term)
      (params : List (Value Real))
      → Usable s conn_id stmt_id stmt
      → decode_args args ≡ ok params
      → query_prepared conn_id stmt_id args s ≡ over s (run_query stmt params s.world)
  unfolding query_prepared
  query_prepared-Usable s conn_id stmt_id stmt args params u d =
      rw
        (
          find_statement_eq (str "query_prepared") s conn_id stmt_id stmt u,
          d,
          safe_lock_arc_free u.entry.statement (str "query_prepared stmt") u.statement_free,
          u.statement_eq,
        )
        (ground arith)

  execute_prepared-Usable :
      (s : State) (conn_id stmt_id : Str) (stmt : Statement) (args : List Term)
      (params : List (Value Real))
      → Usable s conn_id stmt_id stmt
      → decode_args args ≡ ok params
      → execute_prepared conn_id stmt_id args s ≡ over s (run_execute stmt params s.world)
  unfolding execute_prepared
  execute_prepared-Usable s conn_id stmt_id stmt args params u d =
      rw
        (
          find_statement_eq (str "execute_prepared") s conn_id stmt_id stmt u,
          d,
          safe_lock_arc_free u.entry.statement (str "execute_prepared stmt") u.statement_free,
          u.statement_eq,
        )
        refl

  pub prepare_statement-query_prepared :
      (s : State) (conn_id sql : Str) (stmt : Statement) (v : World) (args : List Term)
      (params : List (Value Real))
      → Prepares s conn_id sql stmt v
      → decode_args args ≡ ok params
      → let t = with_statement s conn_id stmt v in
        let stmt_id = (L.new_v4 v).0 in
        (prepare_statement conn_id sql s ≡ (ok stmt_id, t))
        × (query_prepared conn_id stmt_id args t ≡ over t (run_query stmt params t.world))
        × (execute_prepared conn_id stmt_id args t ≡ over t (run_execute stmt params t.world))
        × (get_statement_columns conn_id stmt_id t
            ≡ (ok (map describe_column (L.stmt_columns stmt t.world)), t))
  prepare_statement-query_prepared s conn_id sql stmt v args params p d =
      let t = with_statement s conn_id stmt v in
      let stmt_id = (L.new_v4 v).0 in
      let u = Prepares-Usable s conn_id sql stmt v p in
      (
        prepared_eq s conn_id sql stmt v p,
        query_prepared-Usable t conn_id stmt_id stmt args params u d,
        execute_prepared-Usable t conn_id stmt_id stmt args params u d,
        (column_name-columns t conn_id stmt_id stmt 0 u).0,
      )
