-- ===== src/Connection/Closing.antt =====
-- What `close` takes away and what it leaves.
use ecto_libsql.Common.{
  ◌≡◌, refl, arith, true, Bool-cases, Option-cases, inl, inr, none, some, List, Str, str, str_eq,
  if◌then◌else◌, lookup, lookup-remove,
}
use ecto_libsql.Effect.{Result, ok, err}
use ecto_libsql.Libsql.{Libsql, Error}
use ecto_libsql.State.{
  State, Mutex, LibSqlConn, TransactionEntry, StatementEntry, CursorData, safe_lock_poisoned,
  safe_lock_free,
}
use ecto_libsql.Connection.{close, close_conn, close_trx, close_stmt, close_cursor}

module _ ⦃L : Libsql⦄ where
  -- Every identifier but the closed one is found as before.
  abbrev pub Without : {V : Type 0} → Str → (s t : Mutex (List (Str × V))) → Type 0
  Without {V = V} id s t =
      (k : Str) → lookup k t.content ≡ (if str_eq id k then none else lookup k s.content)

  -- The one resource that was closed, with the rest of the state.
  pub data Closed (s : State) (id opt : Str) (t : State) : Type 0 where
    connection :
        (c : Mutex LibSqlConn)
        → str_eq opt (str "conn_id") ≡ true
        → lookup id s.connections.content ≡ some c
        → Without id s.connections t.connections
        → (t.transactions ≡ s.transactions)
          × (t.statements ≡ s.statements)
          × (t.cursors ≡ s.cursors)
        → t.world ≡ L.drop_conn c.content.db c.content.client.content s.world
        → Closed s id opt t
    transaction :
        (e : TransactionEntry)
        → str_eq opt (str "trx_id") ≡ true
        → lookup id s.transactions.content ≡ some e
        → Without id s.transactions t.transactions
        → (t.connections ≡ s.connections) × (t.statements ≡ s.statements) × (t.cursors ≡ s.cursors)
        → t.world ≡ L.drop_trx e.transaction s.world
        → Closed s id opt t
    statement :
        (e : StatementEntry)
        → str_eq opt (str "stmt_id") ≡ true
        → lookup id s.statements.content ≡ some e
        → Without id s.statements t.statements
        → (t.connections ≡ s.connections)
          × (t.transactions ≡ s.transactions)
          × (t.cursors ≡ s.cursors)
        → t.world ≡ L.drop_stmt e.statement.content s.world
        → Closed s id opt t
    cursor :
        (c : CursorData)
        → str_eq opt (str "cursor_id") ≡ true
        → lookup id s.cursors.content ≡ some c
        → Without id s.cursors t.cursors
        → (t.connections ≡ s.connections)
          × (t.transactions ≡ s.transactions)
          × (t.statements ≡ s.statements)
        → t.world ≡ s.world
        → Closed s id opt t

  abbrev pub ClosedOrSame : State → Str → Str → Result Error (Unit {0}) × State → Type 0
  ClosedOrSame s id opt (ok _, t) = Closed s id opt t
  ClosedOrSame s id opt (err e, t) = t ≡ s

  close_conn-Closed :
      (s : State) (id opt : Str)
      → str_eq opt (str "conn_id") ≡ true
      → ClosedOrSame s id opt (close_conn id s)
  unfolding close_conn
  close_conn-Closed s id opt o = elim (Bool-cases s.connections.poisoned) [
    | inl p ↦ rw (safe_lock_poisoned s.connections (str "close conn") p) refl
    | inr p ↦ elim (Option-cases (lookup id s.connections.content)) [
      | inl h ↦ rw (safe_lock_free s.connections (str "close conn") p, h) refl
      | inr (c, h) ↦
          rw (safe_lock_free s.connections (str "close conn") p, h)
            (connection c o h (λ k. lookup-remove id k _) (refl, refl, refl) refl)
    ]
  ]

  close_trx-Closed :
      (s : State) (id opt : Str)
      → str_eq opt (str "trx_id") ≡ true
      → ClosedOrSame s id opt (close_trx id s)
  unfolding close_trx
  close_trx-Closed s id opt o = elim (Bool-cases s.transactions.poisoned) [
    | inl p ↦ rw (safe_lock_poisoned s.transactions (str "close trx") p) refl
    | inr p ↦ elim (Option-cases (lookup id s.transactions.content)) [
      | inl h ↦ rw (safe_lock_free s.transactions (str "close trx") p, h) refl
      | inr (c, h) ↦
          rw (safe_lock_free s.transactions (str "close trx") p, h)
            (transaction c o h (λ k. lookup-remove id k _) (refl, refl, refl) refl)
    ]
  ]

  close_stmt-Closed :
      (s : State) (id opt : Str)
      → str_eq opt (str "stmt_id") ≡ true
      → ClosedOrSame s id opt (close_stmt id s)
  unfolding close_stmt
  close_stmt-Closed s id opt o = elim (Bool-cases s.statements.poisoned) [
    | inl p ↦ rw (safe_lock_poisoned s.statements (str "close stmt") p) refl
    | inr p ↦ elim (Option-cases (lookup id s.statements.content)) [
      | inl h ↦ rw (safe_lock_free s.statements (str "close stmt") p, h) refl
      | inr (c, h) ↦
          rw (safe_lock_free s.statements (str "close stmt") p, h)
            (statement c o h (λ k. lookup-remove id k _) (refl, refl, refl) refl)
    ]
  ]

  close_cursor-Closed :
      (s : State) (id opt : Str)
      → str_eq opt (str "cursor_id") ≡ true
      → ClosedOrSame s id opt (close_cursor id s)
  unfolding close_cursor
  close_cursor-Closed s id opt o = elim (Bool-cases s.cursors.poisoned) [
    | inl p ↦ rw (safe_lock_poisoned s.cursors (str "close cursor") p) refl
    | inr p ↦ elim (Option-cases (lookup id s.cursors.content)) [
      | inl h ↦ rw (safe_lock_free s.cursors (str "close cursor") p, h) refl
      | inr (c, h) ↦
          rw (safe_lock_free s.cursors (str "close cursor") p, h)
            (cursor c o h (λ k. lookup-remove id k _) (refl, refl, refl) refl)
    ]
  ]

  -- Closing leaves the poison flag of the cursors alone.
  pub close-poisoned :
      (id opt : Str) (s : State) → (close id opt s).1.cursors.poisoned ≡ s.cursors.poisoned
  unfolding close close_conn close_trx close_stmt close_cursor
  close-poisoned id opt s = ground arith

  -- Closing either fails and leaves the state as it was, or takes exactly the resource of that kind
  -- and identifier out of its registry and destroys it. The other registries stay: a connection's
  -- transactions, statements and cursors are registered behind its closing.
  pub close-Closed : (s : State) (id opt : Str) → ClosedOrSame s id opt (close id opt s)
  unfolding close
  close-Closed s id opt = elim (Bool-cases (str_eq opt (str "conn_id"))) [
    | inl a ↦ rw a (close_conn-Closed s id opt a)
    | inr a ↦ elim (Bool-cases (str_eq opt (str "trx_id"))) [
      | inl b ↦ rw (a, b) (close_trx-Closed s id opt b)
      | inr b ↦ elim (Bool-cases (str_eq opt (str "stmt_id"))) [
        | inl c ↦ rw (a, b, c) (close_stmt-Closed s id opt c)
        | inr c ↦ elim (Bool-cases (str_eq opt (str "cursor_id"))) [
          | inl d ↦ rw (a, b, c, d) (close_cursor-Closed s id opt d)
          | inr d ↦ rw (a, b, c, d) refl
        ]
      ]
    ]
  ]
