-- ===== src/Isolation/Restored.antt =====
-- The registries behind each call that does not finish its transaction.
use ecto_libsql.Common.{Str, List, arith}
use ecto_libsql.Libsql.{Libsql, Value}
use ecto_libsql.State.{State}
use ecto_libsql.Decode.{validate_savepoint_name}
use ecto_libsql.Values.{decode_args}
use ecto_libsql.Transaction.{
  TransactionEntryGuard, execute_under, query_under, execute_with_transaction, query_with_trx_args,
}
use ecto_libsql.Transaction.Guard.{SameRegistries, take-scoped-SameRegistries}
use ecto_libsql.Transaction.Quiet.{IsQuiet, SameRegistries-lift}
use ecto_libsql.Savepoint.{
  savepoint, release_savepoint, rollback_to_savepoint, run_statement-IsQuiet,
}

module _ ⦃L : Libsql⦄ where
  open L use {Term, Real}

  pub execute_under-IsQuiet :
      (query : Str) (params : List (Value Real)) (g : TransactionEntryGuard)
      → IsQuiet (execute_under query params g)
  unfolding execute_under
  execute_under-IsQuiet query params g t = ground arith

  pub query_under-IsQuiet :
      (conn_id query : Str) (params : List (Value Real)) (g : TransactionEntryGuard)
      → IsQuiet (query_under conn_id query params g)
  unfolding query_under
  query_under-IsQuiet conn_id query params g t = ground arith

  -- Whatever the outcome, and in every state, running a statement in a transaction or a savepoint
  -- command leaves every registry as it was: the guard has put the entry back, and it is still its
  -- owner's.
  pub transactions_restored :
      (s : State) (trx_id conn_id query name : Str) (args : List Term)
      → SameRegistries s (execute_with_transaction trx_id conn_id query args s).1
        × SameRegistries s (query_with_trx_args trx_id conn_id query args s).1
        × SameRegistries s (savepoint conn_id trx_id name s).1
        × SameRegistries s (release_savepoint conn_id trx_id name s).1
        × SameRegistries s (rollback_to_savepoint conn_id trx_id name s).1
  transactions_restored s trx_id conn_id query name args = (
    unfold execute_with_transaction in
        SameRegistries-lift (decode_args args) _ s
          (λ a. take-scoped-SameRegistries trx_id conn_id s _ (execute_under-IsQuiet query a)),
    unfold query_with_trx_args in
        SameRegistries-lift (decode_args args) _ s (λ a.
          take-scoped-SameRegistries trx_id conn_id s _ (query_under-IsQuiet conn_id query a)),
    unfold savepoint in
        SameRegistries-lift (validate_savepoint_name name) _ s
          (λ a. take-scoped-SameRegistries trx_id conn_id s _ (run_statement-IsQuiet _ _)),
    unfold release_savepoint in
        SameRegistries-lift (validate_savepoint_name name) _ s
          (λ a. take-scoped-SameRegistries trx_id conn_id s _ (run_statement-IsQuiet _ _)),
    unfold rollback_to_savepoint in
        SameRegistries-lift (validate_savepoint_name name) _ s
          (λ a. take-scoped-SameRegistries trx_id conn_id s _ (run_statement-IsQuiet _ _)),
  )
