-- ===== src/Isolation.antt =====
-- Who may use a transaction.
pub mod Restored
pub mod Lifecycle
pub mod Finish
pub mod Begin
use ecto_libsql.Common.{Str, str, str_eq_refl, List}
use ecto_libsql.Common.{refl}
use ecto_libsql.Effect.{Result, ok, err, then_run, lift}
use ecto_libsql.Libsql.{Libsql, Error}
use ecto_libsql.State.{State, M}
use ecto_libsql.Decode.{validate_savepoint_name}
use ecto_libsql.Values.{decode_args}
use ecto_libsql.Transaction.{
  execute_with_transaction, query_with_trx_args, commit_or_rollback_transaction,
}
use ecto_libsql.Transaction.Guard.{SameRegistries-refl, Denied, Refused, take-Denied}
use ecto_libsql.Savepoint.{savepoint, release_savepoint, rollback_to_savepoint}
use ecto_libsql.Cursor.{declare_cursor_with_context, buffer_in_context, query_in_transaction}

module _ ⦃L : Libsql⦄ where
  open L use {Term}

  -- A refusal behind a check that changes nothing.
  pub Refused-lift :
      {A B : Type 0} (r : Result Error A) (k : A → M B) (s : State)
      → ((a : A) → Refused s (k a s))
      → Refused s (then_run (lift r s) k)
  Refused-lift (ok a) k s h = h a
  Refused-lift (err e) k s h = record {
    reason = e;
    fails = refl;
    registries = SameRegistries-refl s;
    untouched = refl;
  }

  -- What follows a refusal is refused with it.
  Refused-then :
      {A B : Type 0} (s : State) (run : Result Error A × State) (k : A → M B)
      → Refused s run
      → Refused s (then_run run k)
  Refused-then s (ok a, t) k r = cc r.fails
  Refused-then s (err e, t) k r = record {
    reason = e;
    fails = refl;
    registries = r.registries;
    untouched = r.untouched;
  }

  in_transaction-Refused :
      (s : State) (trx_id conn_id sql : Str) (args : List Term)
      → Denied s trx_id conn_id
      → Refused s (buffer_in_context conn_id trx_id (str "transaction") sql args s)
  unfolding buffer_in_context query_in_transaction
  in_transaction-Refused s trx_id conn_id sql args d =
      rw (str_eq_refl (str "transaction"))
        (Refused-lift (decode_args args) _ s (λ a. take-Denied trx_id conn_id s _ d))

  -- For a transaction that is not registered, that another connection began, or whose registry is
  -- poisoned, each NIF that runs in the transaction, declares a cursor in it, commits it or rolls it
  -- back returns an error, whatever its other arguments; no statement, commit or rollback reaches
  -- the database, and every registry answers as before.
  pub transactions-Refused :
      (s : State) (trx_id conn_id query param name : Str) (args : List Term)
      → Denied s trx_id conn_id
      → Refused s (execute_with_transaction trx_id conn_id query args s)
        × Refused s (query_with_trx_args trx_id conn_id query args s)
        × Refused s (commit_or_rollback_transaction trx_id conn_id param s)
        × Refused s (savepoint conn_id trx_id name s)
        × Refused s (release_savepoint conn_id trx_id name s)
        × Refused s (rollback_to_savepoint conn_id trx_id name s)
        × Refused s (declare_cursor_with_context conn_id trx_id (str "transaction") query args s)
  transactions-Refused s trx_id conn_id query param name args d = (
    unfold execute_with_transaction in
        Refused-lift (decode_args args) _ s (λ a. take-Denied trx_id conn_id s _ d),
    unfold query_with_trx_args in
        Refused-lift (decode_args args) _ s (λ a. take-Denied trx_id conn_id s _ d),
    unfold commit_or_rollback_transaction in take-Denied trx_id conn_id s _ d,
    unfold savepoint in
        Refused-lift (validate_savepoint_name name) _ s (λ a. take-Denied trx_id conn_id s _ d),
    unfold release_savepoint in
        Refused-lift (validate_savepoint_name name) _ s (λ a. take-Denied trx_id conn_id s _ d),
    unfold rollback_to_savepoint in
        Refused-lift (validate_savepoint_name name) _ s (λ a. take-Denied trx_id conn_id s _ d),
    unfold declare_cursor_with_context in
        Refused-then s _ _ (in_transaction-Refused s trx_id conn_id query args d),
  )
