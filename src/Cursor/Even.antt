-- ===== src/Cursor/Even.antt =====
-- The rows that a cursor buffers are as wide as its columns.
use ecto_libsql.Common.{
  ◌≡◌, refl, ap, ◌⊎◌, inl, inr, ℕ, suc, ◌+◌, List, [], ◌∷◌, ◌++◌, length, All, All-append, Str,
  Bool-cases, str, str_eq, if◌then◌else◌, arith,
}
use ecto_libsql.Effect.{Result, ok, err, Eff, lift, fail, try_call, then_run, ◌>>=◌}
use ecto_libsql.Libsql.{Libsql, Error, term, Value, Rows, finish, failed, next}
use ecto_libsql.State.{State, Mutex, LibSqlConn, on_world, describe, safe_lock_arc, get_client}
use ecto_libsql.Values.{decode_args, named_columns}
use ecto_libsql.Transaction as Trx
use ecto_libsql.Cursor.{
  row_values, buffer_rows, run_query, buffer_query, buffer_under, query_in_transaction,
  query_on_connection, buffer_in_context,
}

module _ ⦃L : Libsql⦄ where
  open L use {World, Term, Real, Row, LibError, Connection}

  -- Empty rows come from before the first row that has columns.
  abbrev pub Fits : List Str → List (Value Real) → Type 0
  Fits columns row = (length row ≡ length columns) ⊎ (row ≡ [])

  abbrev pub Even : List Str × List (List (Value Real)) → Type 0
  Even found = All (Fits found.0) found.1

  abbrev pub EvenOrError : Result Error (List Str × List (List (Value Real))) → Type 0
  EvenOrError (ok found) = Even found
  EvenOrError (err e) = Unit

  length-row_values :
      (row : Row) (i : ℕ) (names : List Str) → length (row_values row i names) ≡ length names
  unfolding row_values
  length-row_values row i [] = refl
  length-row_values row i (name ∷ names) = ap suc (length-row_values row (i + 1) names)

  -- Rows that fit no columns are empty, and fit any.
  refits :
      (columns : List Str) (rows : List (List (Value Real)))
      → All (Fits []) rows
      → All (Fits columns) rows
  refits columns [] h = tt
  refits columns (r ∷ rows) (h, hs) = (empty r h, refits columns rows hs)
    where
      empty : (r : List (Value Real)) → Fits [] r → Fits columns r
      empty [] h = inr refl
      empty (v ∷ vs) h = ground arith

  renamed :
      (row : Row) (columns : List Str) (rows : List (List (Value Real)))
      → All (Fits columns) rows
      → All (Fits (named_columns row columns)) rows
  unfolding named_columns
  renamed row [] rows h = refits _ rows h
  renamed row (c ∷ cs) rows h = h

  pub buffer_rows-Even :
      (columns : List Str) (rows : List (List (Value Real))) (found : Rows LibError Row)
      → All (Fits columns) rows
      → EvenOrError (buffer_rows columns rows found)
  unfolding buffer_rows
  buffer_rows-Even columns rows finish h = h
  buffer_rows-Even columns rows (failed e) h = tt
  buffer_rows-Even columns rows (next row rest) h =
      let names = named_columns row columns in
      buffer_rows-Even names (rows ++ row_values row 0 names ∷ []) rest (
        All-append (Fits names) rows (row_values row 0 names ∷ []) (renamed row columns rows h)
          (inl (length-row_values row 0 names), tt))

  -- A computation whose rows, if it returns any, are even.
  abbrev pub YieldsEven : {S : Type 0} → Eff Error S (List Str × List (List (Value Real))) → Type 0
  YieldsEven {S = S} m = (s : S) → EvenOrError (m s).0

  then-Even :
      {S A : Type 0} (m : Result Error A × S)
      (k : A → Eff Error S (List Str × List (List (Value Real))))
      → ((a : A) → YieldsEven (k a))
      → EvenOrError (then_run m k).0
  then-Even (ok a, t) k h = h a t
  then-Even (err e, t) k h = tt

  run_query-Even :
      (query : World → Result LibError (Rows LibError Row) × World) → YieldsEven (run_query query)
  unfolding run_query
  run_query-Even query w =
      then-Even (try_call query (describe (str "Query failed")) w)
        (λ rows. lift (buffer_rows [] [] rows)) (λ rows t. buffer_rows-Even [] [] rows tt)

  query_with-Even :
      {A : Type 0} (r : Result Error A)
      (query : A → World → Result LibError (Rows LibError Row) × World)
      → YieldsEven (lift r >>= λ a. on_world (run_query (query a)))
  query_with-Even (ok a) query s = run_query-Even (query a) s.world
  query_with-Even (err e) query s = tt

  -- A query on a connection, behind the locks of its client.
  query_locked-Even :
      (m : Result Error (Mutex LibSqlConn) × State) (client_lock conn_lock : Str)
      (query : Connection → World → Result LibError (Rows LibError Row) × World)
      → EvenOrError
          (then_run m (λ client. do
            client_guard ← lift (safe_lock_arc client client_lock)
            conn ← lift (safe_lock_arc client_guard.client conn_lock)
            on_world (run_query (query conn)))).0
  query_locked-Even m client_lock conn_lock query = then-Even m _ (λ client s.
      then-Even (lift (safe_lock_arc client client_lock) s) _
        (λ guard t. query_with-Even (safe_lock_arc guard.client conn_lock) query t))

  pub buffer_query-Even :
      (conn_id sql : Str) (args : List Term) → YieldsEven (buffer_query conn_id sql args)
  unfolding buffer_query
  buffer_query-Even conn_id sql args s =
      then-Even (get_client conn_id (str "declare_cursor conn_map") (str "Invalid connection ID") s)
        _
        (λ client t. then-Even (lift (decode_args args) t) _ (λ params u.
          query_locked-Even (ok client, u) (str "declare_cursor client") (str "declare_cursor conn")
            (λ conn. L.query conn sql params)))

  buffer_under-Even :
      (sql : Str) (params : List (Value Real)) (g : Trx.TransactionEntryGuard)
      → YieldsEven (buffer_under sql params g)
  unfolding buffer_under
  buffer_under-Even sql params g =
      query_with-Even (Trx.transaction g) (λ trx. L.trx_query trx sql params)

  query_in_transaction-Even :
      (conn_id id sql : Str) (params : List (Value Real))
      → YieldsEven (query_in_transaction conn_id id sql params)
  unfolding query_in_transaction
  query_in_transaction-Even conn_id id sql params s =
      then-Even (Trx.take id conn_id s) _ (λ g t. buffer_under-Even sql params g t)

  query_on_connection-Even :
      (conn_id id sql : Str) (params : List (Value Real))
      → YieldsEven (query_on_connection conn_id id sql params)
  unfolding query_on_connection
  query_on_connection-Even conn_id id sql params s = elim (Bool-cases (str_eq conn_id id)) [
    | inl e ↦ rw e (
        query_locked-Even
          (get_client id (str "declare_cursor_with_context conn") (str "Connection not found") s)
          (str "declare_cursor_with_context client") (str "declare_cursor_with_context conn")
          (λ conn. L.query conn sql params))
    | inr e ↦ rw e tt
  ]

  in_context-Even :
      (conn_id id id_type sql : Str) (params : List (Value Real))
      → YieldsEven (
          if str_eq id_type (str "transaction")
          then query_in_transaction conn_id id sql params
          else if str_eq id_type (str "connection")
          then query_on_connection conn_id id sql params
          else fail (term (str "Invalid id_type for cursor")))
  in_context-Even conn_id id id_type sql params s =
      elim (Bool-cases (str_eq id_type (str "transaction"))) [
        | inl t ↦ rw t (query_in_transaction-Even conn_id id sql params s)
        | inr t ↦ elim (Bool-cases (str_eq id_type (str "connection"))) [
          | inl c ↦ rw (t, c) (query_on_connection-Even conn_id id sql params s)
          | inr c ↦ rw (t, c) tt
        ]
      ]

  pub buffer_in_context-Even :
      (conn_id id id_type sql : Str) (args : List Term)
      → YieldsEven (buffer_in_context conn_id id id_type sql args)
  unfolding buffer_in_context
  buffer_in_context-Even conn_id id id_type sql args s =
      then-Even (lift (decode_args args) s) _ (in_context-Even conn_id id id_type sql)
