-- ===== src/Calls/Unreachable.antt =====
-- The look-up of a connection that is not registered, or whose registry is poisoned.
use ecto_libsql.Common.{
  ◌≡◌, refl, true, Bool-cases, inl, inr, none, some, Option, Option-cases, Str, str, str_eq,
  str_eq_iff, subst, List, lookup, false,
}
use ecto_libsql.Effect.{Result, ok, err, then_run}
use ecto_libsql.Libsql.{Libsql, Error, Value, TransactionBehavior}
use ecto_libsql.State.{State, M, Mutex, LibSqlConn, get_client, safe_lock_poisoned, safe_lock_free}
use ecto_libsql.Decode.{decode_transaction_behavior}
use ecto_libsql.Transaction.{begin_on}
use ecto_libsql.Statement.{find_statement}
use ecto_libsql.Values.{decode_args}
use ecto_libsql.Cursor.{query_on_connection, buffer_in_context, declare_cursor_with_context}
use ecto_libsql.Metadata.{locked_connection}
use ecto_libsql.Transaction as Trx

module _ ⦃L : Libsql⦄ where
  open L use {Real, Term}

  -- No look-up in the registry of connections finds the identifier.
  pub data Unreachable (s : State) (conn_id : Str) : Type 0 where
    poisoned : s.connections.poisoned ≡ true → Unreachable s conn_id
    absent : lookup conn_id s.connections.content ≡ none → Unreachable s conn_id

  -- An error, the state being left as it was: nothing was asked of another crate.
  abbrev pub Rejects : {A : Type 0} → State → Result Error A × State → Type 0
  Rejects s run = (e : Error) × (run ≡ (err e, s))

  pub then-Rejects :
      {A B : Type 0} (s : State) (run : Result Error A × State) (k : A → M B)
      → Rejects s run
      → Rejects s (then_run run k)
  then-Rejects s run k (e, h) = (e, rw h refl)

  get_client-Rejects :
      (s : State) (conn_id context missing : Str)
      → Unreachable s conn_id
      → Rejects s (get_client conn_id context missing s)
  get_client-Rejects s conn_id context missing (poisoned p) =
      rw (safe_lock_poisoned s.connections context p) (_, refl)
  get_client-Rejects s conn_id context missing (absent n) =
      elim (Bool-cases s.connections.poisoned) [
        | inl p ↦ rw (safe_lock_poisoned s.connections context p) (_, refl)
        | inr p ↦ rw (safe_lock_free s.connections context p, n) (_, refl)
      ]

  pub looked_up-Rejects :
      {B : Type 0} (s : State) (conn_id context missing : Str) (k : Mutex LibSqlConn → M B)
      → Unreachable s conn_id
      → Rejects s (then_run (get_client conn_id context missing s) k)
  looked_up-Rejects s conn_id context missing k u =
      then-Rejects s _ k (get_client-Rejects s conn_id context missing u)

  pub find_statement-Rejects :
      (s : State) (nif conn_id stmt_id : Str)
      → Unreachable s conn_id
      → Rejects s (find_statement nif conn_id stmt_id s)
  unfolding find_statement
  find_statement-Rejects s nif conn_id stmt_id (poisoned p) =
      rw (safe_lock_poisoned s.connections _ p) (_, refl)
  find_statement-Rejects s nif conn_id stmt_id (absent n) =
      elim (Bool-cases s.connections.poisoned) [
        | inl p ↦ rw (safe_lock_poisoned s.connections _ p) (_, refl)
        | inr p ↦ elim (Bool-cases s.statements.poisoned) [
          | inl q ↦
              rw (safe_lock_free s.connections _ p, safe_lock_poisoned s.statements _ q) (_, refl)
          | inr q ↦
              rw (safe_lock_free s.connections _ p, safe_lock_free s.statements _ q, n) (_, refl)
        ]
      ]

  pub locked-Rejects :
      {B : Type 0} (s : State) (nif conn_id : Str) (k : L.Connection → M B)
      → Unreachable s conn_id
      → Rejects s (then_run (locked_connection nif conn_id s) k)
  unfolding locked_connection
  locked-Rejects s nif conn_id k u = then-Rejects s _ k (looked_up-Rejects s conn_id _ _ _ u)

  pub begun-Rejects :
      (s : State) (conn_id a b c : Str) (behavior : Option TransactionBehavior)
      → Unreachable s conn_id
      → Rejects s (begin_on conn_id a b c behavior s)
  unfolding begin_on
  begun-Rejects s conn_id a b c behavior u = looked_up-Rejects s conn_id _ _ _ u

  pub with_behavior-Rejects :
      (s : State) (conn_id behavior : Str)
      → Unreachable s conn_id
      → Rejects s (Trx.begin_transaction_with_behavior conn_id behavior s)
  unfolding Trx.begin_transaction_with_behavior
  with_behavior-Rejects s conn_id behavior u =
      elim (Option-cases (decode_transaction_behavior behavior)) [
        | inl n ↦ rw n (_, refl)
        | inr (b, h) ↦ rw h (then-Rejects s _ _ (begun-Rejects s conn_id _ _ _ (some b) u))
      ]

  query_on-Rejects :
      (s : State) (conn_id id sql : Str) (params : List (Value Real))
      → Unreachable s conn_id
      → Rejects s (query_on_connection conn_id id sql params s)
  unfolding query_on_connection
  query_on-Rejects s conn_id id sql params u = elim (Bool-cases (str_eq conn_id id)) [
    | inl e ↦
        rw e (looked_up-Rejects s id _ _ _ (subst (Unreachable s) ((str_eq_iff conn_id id).0 e) u))
    | inr e ↦ rw e (_, refl)
  ]

  lifted-Rejects :
      {A B : Type 0} (s : State) (r : Result Error A) (k : A → M B)
      → ((a : A) → Rejects s (k a s))
      → Rejects s (then_run (r, s) k)
  lifted-Rejects s (ok a) k h = h a
  lifted-Rejects s (err e) k h = (e, refl)

  pub in_context-Rejects :
      (s : State) (conn_id id id_type sql : Str) (args : List Term)
      → str_eq id_type (str "connection") ≡ true
      → Unreachable s conn_id
      → Rejects s (declare_cursor_with_context conn_id id id_type sql args s)
  unfolding declare_cursor_with_context buffer_in_context
  in_context-Rejects s conn_id id id_type sql args c u =
      let other : str_eq id_type (str "transaction") ≡ false =
        rw ((str_eq_iff id_type (str "connection")).0 c) (unfold str str_eq in refl) in
      then-Rejects s _ _ (
        lifted-Rejects s (decode_args args) _
          (λ params. rw (other, c) (query_on-Rejects s conn_id id sql params u)))
