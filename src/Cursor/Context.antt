-- ===== src/Cursor/Context.antt =====
-- Cursors in a transaction or on a connection.
use ecto_libsql.Common.{ap, ◌∙◌, Bool-cases, inl, inr, List, Str, str, str_eq, arith, lookup}
use ecto_libsql.Effect.{Result, ok, err, then_run}
use ecto_libsql.Libsql.{Libsql, Error, Value}
use ecto_libsql.State.{State}
use ecto_libsql.Values.{decode_args}
use ecto_libsql.Transaction.Guard.{
  Quiet, SameRegistries, SameRegistries-refl, take-scoped-SameRegistries,
}
use ecto_libsql.Transaction.Quiet.{IsQuiet, SameRegistries-lift}
use ecto_libsql.Cursor.{
  declare_cursor_with_context, buffer_in_context, buffer_under, query_in_transaction,
  query_on_connection, register_cursor,
}
use ecto_libsql.Cursor.Even.{EvenOrError, buffer_in_context-Even}
use ecto_libsql.Cursor.Declare.{Opened, OpenedOrQuiet, register_cursor-Opened}

module _ ⦃L : Libsql⦄ where
  open L use {Real, Term}

  pub Quiet-SameRegistries : (s t : State) → Quiet s t → SameRegistries s t
  Quiet-SameRegistries s t q = record {
    same_connections = q.quiet_connections;
    same_statements = q.quiet_statements;
    same_cursors = q.quiet_cursors;
    same_poison = ap (λ m. m.poisoned) q.quiet_transactions;
    same_lookups = λ k. ap (λ m. lookup k m.content) q.quiet_transactions;
  }

  buffer_under-IsQuiet :
      (sql : Str) (params : List (Value Real)) (g : _) → IsQuiet (buffer_under sql params g)
  unfolding buffer_under
  buffer_under-IsQuiet sql params g t = ground arith

  query_on_connection-IsQuiet :
      (conn_id id sql : Str) (params : List (Value Real))
      → IsQuiet (query_on_connection conn_id id sql params)
  unfolding query_on_connection
  query_on_connection-IsQuiet conn_id id sql params t = ground arith

  pub in_context :
      (s : State) (conn_id id id_type sql : Str) (args : List Term)
      → SameRegistries s (buffer_in_context conn_id id id_type sql args s).1
  unfolding buffer_in_context
  in_context s conn_id id id_type sql args = SameRegistries-lift (decode_args args) _ s (λ a.
      elim (Bool-cases (str_eq id_type (str "transaction"))) [
        | inl t ↦ rw t (
            unfold query_in_transaction in
            take-scoped-SameRegistries id conn_id s _ (buffer_under-IsQuiet sql a))
        | inr t ↦ elim (Bool-cases (str_eq id_type (str "connection"))) [
          | inl c ↦
              rw (t, c) (Quiet-SameRegistries s _ (query_on_connection-IsQuiet conn_id id sql a s))
          | inr c ↦ rw (t, c) (SameRegistries-refl s)
        ]
      ])

  -- A cursor was opened behind a query that left the registries as they were.
  pub record Declared (s : State) (conn_id cursor_id : Str) (t : State) : Type 0 where
    pub queried : State
    pub restored : SameRegistries s queried
    pub opened : Opened queried conn_id cursor_id t

  abbrev pub DeclaredOrSame : State → Str → Result Error Str × State → Type 0
  DeclaredOrSame s conn_id (ok cursor_id, t) = Declared s conn_id cursor_id t
  DeclaredOrSame s conn_id (err e, t) = SameRegistries s t

  SameRegistries-Quiet : (s t u : State) → SameRegistries s t → Quiet t u → SameRegistries s u
  SameRegistries-Quiet s t u r q = record {
    same_connections = q.quiet_connections ∙ r.same_connections;
    same_statements = q.quiet_statements ∙ r.same_statements;
    same_cursors = q.quiet_cursors ∙ r.same_cursors;
    same_poison = ap (λ m. m.poisoned) q.quiet_transactions ∙ r.same_poison;
    same_lookups = λ k. ap (λ m. lookup k m.content) q.quiet_transactions ∙ r.same_lookups k;
  }

  Declared-result :
      (s t : State) (conn_id : Str) (run : Result Error Str × State)
      → SameRegistries s t
      → OpenedOrQuiet t conn_id run
      → DeclaredOrSame s conn_id run
  Declared-result s t conn_id (ok cursor_id, u) r o = record {
    queried = t;
    restored = r;
    opened = o;
  }
  Declared-result s t conn_id (err e, u) r q = SameRegistries-Quiet s t u r q

  then-Declared :
      (s : State) (conn_id context : Str)
      (run : Result Error (List Str × List (List (Value Real))) × State)
      → SameRegistries s run.1
      → EvenOrError run.0
      → DeclaredOrSame s conn_id (then_run run (register_cursor conn_id context))
  then-Declared s conn_id context (ok found, t) r even =
      Declared-result s t conn_id (register_cursor conn_id context found t) r
        (register_cursor-Opened t conn_id context found even)
  then-Declared s conn_id context (err e, t) r even = r

  -- Declaring a cursor in a transaction or on a connection either fails, every registry answering as
  -- before, or returns an identifier: behind the query, which has left every registry answering as
  -- before, a transaction being back for its owner, a cursor is registered under it for the calling
  -- connection, at its first row and each row as wide as its columns or empty, all other cursors,
  -- connections, statements and transactions being left alone.
  pub declare_cursor_with_context-Declared :
      (s : State) (conn_id id id_type sql : Str) (args : List Term)
      → DeclaredOrSame s conn_id (declare_cursor_with_context conn_id id id_type sql args s)
  unfolding declare_cursor_with_context
  declare_cursor_with_context-Declared s conn_id id id_type sql args =
      then-Declared s conn_id _ _ (in_context s conn_id id id_type sql args)
        (buffer_in_context-Even conn_id id id_type sql args s)
