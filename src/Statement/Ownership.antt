-- ===== src/Statement/Ownership.antt =====
-- Who may use a prepared statement, and what its column names are.
use ecto_libsql.Common.{
  ◌≡◌, refl, ap, true, false, Bool-cases, Option-cases, if◌then◌else◌, inl, inr, none, some, List,
  [], ◌∷◌, Str, str_eq, arith, lookup, map, get_elem?, length, ℕ, suc, zero, leb,
}
use ecto_libsql.Effect.{Result, ok, err}
use ecto_libsql.Libsql.{Libsql, Error, ℤ}
use ecto_libsql.State.{State, StatementEntry, Mutex, LibSqlConn, safe_lock, safe_lock_arc}
use ecto_libsql.Decode.{verify_statement_ownership}
use ecto_libsql.Statement.{
  find_statement, query_prepared, execute_prepared, statement_column_count, statement_column_name,
  statement_parameter_count, statement_parameter_name, reset_statement, get_statement_columns,
  locked_statement, name_at, out_of_bounds, describe_column,
}

module _ ⦃L : Libsql⦄ where
  open L use {Term, Column}

  -- Why a statement cannot be used by a connection.
  pub data Unusable (s : State) (conn_id stmt_id : Str) : Type 0 where
    connections_poisoned : s.connections.poisoned ≡ true → Unusable s conn_id stmt_id
    statements_poisoned : s.statements.poisoned ≡ true → Unusable s conn_id stmt_id
    no_connection : lookup conn_id s.connections.content ≡ none → Unusable s conn_id stmt_id
    no_statement : lookup stmt_id s.statements.content ≡ none → Unusable s conn_id stmt_id
    not_owned :
        (e : StatementEntry)
        → lookup stmt_id s.statements.content ≡ some e
        → str_eq e.conn_id conn_id ≡ false
        → Unusable s conn_id stmt_id

  -- An error that leaves the whole state, the world of the other crates included, as it was.
  abbrev pub Unchanged : {A : Type 0} → State → Result Error A × State → Type 0
  Unchanged s run = (e : Error) × (run ≡ (err e, s))

  find_statement-Unusable :
      (nif : Str) (s : State) (conn_id stmt_id : Str)
      → Unusable s conn_id stmt_id
      → Unchanged s (find_statement nif conn_id stmt_id s)
  unfolding find_statement verify_statement_ownership safe_lock
  find_statement-Unusable nif s conn_id stmt_id u = elim (Bool-cases s.connections.poisoned) [
    | inl p ↦ rw p (_, refl)
    | inr p ↦ elim (Bool-cases s.statements.poisoned) [
      | inl q ↦ rw (p, q) (_, refl)
      | inr q ↦ elim (Option-cases (lookup conn_id s.connections.content)) [
        | inl h ↦ rw (p, q, h) (_, refl)
        | inr (c, h) ↦ elim (Option-cases (lookup stmt_id s.statements.content)) [
          | inl k ↦ rw (p, q, h, k) (_, refl)
          | inr (e, k) ↦ rw (p, q, h, k, foreign u p q h e k) (_, refl)
        ]
      ]
    ]
  ]
    where
      foreign :
          {c : _}
          → Unusable s conn_id stmt_id
          → s.connections.poisoned ≡ false
          → s.statements.poisoned ≡ false
          → lookup conn_id s.connections.content ≡ some c
          → (e : StatementEntry) → lookup stmt_id s.statements.content ≡ some e
          → str_eq e.conn_id conn_id ≡ false
      foreign (connections_poisoned u) p q h e k = cc
      foreign (statements_poisoned u) p q h e k = cc
      foreign (no_connection u) p q h e k = cc
      foreign (no_statement u) p q h e k = cc
      foreign (not_owned f u n) p q h e k = cc

  -- A statement that is not registered, or was prepared by another connection, and any statement
  -- of an unknown connection or under a poisoned registry, is refused by each NIF over statements,
  -- with the state left as it was.
  pub statements_refused :
      (s : State) (conn_id stmt_id : Str) (args : List Term) (idx : ℕ) (param : ℤ)
      → Unusable s conn_id stmt_id
      → Unchanged s (query_prepared conn_id stmt_id args s)
        × Unchanged s (execute_prepared conn_id stmt_id args s)
        × Unchanged s (statement_column_count conn_id stmt_id s)
        × Unchanged s (statement_column_name conn_id stmt_id idx s)
        × Unchanged s (statement_parameter_count conn_id stmt_id s)
        × Unchanged s (statement_parameter_name conn_id stmt_id param s)
        × Unchanged s (reset_statement conn_id stmt_id s)
        × Unchanged s (get_statement_columns conn_id stmt_id s)
  statements_refused s conn_id stmt_id args idx param u = (
    unfold query_prepared in rw (refused _).1 (_, refl),
    unfold execute_prepared in rw (refused _).1 (_, refl),
    unfold statement_column_count locked_statement in rw (refused _).1 (_, refl),
    unfold statement_column_name locked_statement in rw (refused _).1 (_, refl),
    unfold statement_parameter_count locked_statement in rw (refused _).1 (_, refl),
    unfold statement_parameter_name locked_statement in rw (refused _).1 (_, refl),
    unfold reset_statement locked_statement in rw (refused _).1 (_, refl),
    unfold get_statement_columns locked_statement in rw (refused _).1 (_, refl),
  )
    where
      refused : (nif : Str) → Unchanged s (find_statement nif conn_id stmt_id s)
      refused nif = find_statement-Unusable nif s conn_id stmt_id u

  -- A statement that its connection may use.
  pub record Usable (s : State) (conn_id stmt_id : Str) (stmt : L.Statement) : Type 0 where
    pub connections_free : s.connections.poisoned ≡ false
    pub statements_free : s.statements.poisoned ≡ false
    pub client : Mutex LibSqlConn
    pub connected : lookup conn_id s.connections.content ≡ some client
    pub entry : StatementEntry
    pub prepared : lookup stmt_id s.statements.content ≡ some entry
    pub owned : str_eq entry.conn_id conn_id ≡ true
    pub statement_free : entry.statement.poisoned ≡ false
    pub statement_eq : entry.statement.content ≡ stmt

  find_statement-Usable :
      (nif : Str) (s : State) (conn_id stmt_id : Str) (stmt : L.Statement)
      → Usable s conn_id stmt_id stmt
      → locked_statement nif conn_id stmt_id s ≡ (ok stmt, s)
  unfolding locked_statement find_statement verify_statement_ownership safe_lock safe_lock_arc
  find_statement-Usable nif s conn_id stmt_id stmt u =
      rw
        (
          u.connections_free, u.statements_free, u.connected, u.prepared, u.owned, u.statement_free,
          u.statement_eq,
        )
        refl

  guarded-map :
      (o : Error) (idx : ℕ) (columns : List Column)
      → (if leb (length columns) idx
          then err o
          else elim (get_elem? columns idx) [ none ↦ err o | some column ↦ ok (L.name column) ])
        ≡ elim (get_elem? (map describe_column columns) idx) [
          | none ↦ err o
          | some column ↦ ok column.0
        ]
  unfolding describe_column
  guarded-map o idx [] = ground arith
  guarded-map o zero (c ∷ cs) = ground arith
  guarded-map o (suc idx) (c ∷ cs) = ground (arith, guarded-map o idx cs)

  -- For a statement that its connection may use, the name of a column by its index is the first
  -- component of the entry that the list of all columns has there, and an error behind the last;
  -- neither call changes the state.
  pub column_name-columns :
      (s : State) (conn_id stmt_id : Str) (stmt : L.Statement) (idx : ℕ)
      → Usable s conn_id stmt_id stmt
      → let columns = map describe_column (L.stmt_columns stmt s.world) in
        (get_statement_columns conn_id stmt_id s ≡ (ok columns, s))
        × (statement_column_name conn_id stmt_id idx s ≡ (
          elim (get_elem? columns idx) [
            | none ↦ err (out_of_bounds idx (length (L.stmt_columns stmt s.world)))
            | some column ↦ ok column.0
          ],
          s,
        ))
  column_name-columns s conn_id stmt_id stmt idx u = (
    unfold get_statement_columns in rw (find_statement-Usable _ s conn_id stmt_id stmt u) refl,
    unfold statement_column_name name_at in
        rw (find_statement-Usable _ s conn_id stmt_id stmt u)
          (ap (λ r. (r, s)) (guarded-map _ idx (L.stmt_columns stmt s.world))),
  )
