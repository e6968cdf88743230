-- ===== src/Savepoint.antt =====
-- savepoint.rs: the three savepoint NIFs, which differ in their statement and their message.
pub mod Names
pub mod Commands
use ecto_libsql.Common.{[], ◌++◌, Str, str, arith}
use ecto_libsql.Effect.{pure, lift, try_call, ◌>>=◌, ◌>>◌}
use ecto_libsql.Libsql.{Libsql}
use ecto_libsql.State.{M, on_world, describe}
use ecto_libsql.Decode.{validate_savepoint_name}
use ecto_libsql.Transaction.{TransactionEntryGuard, take, transaction, scoped}
use ecto_libsql.Transaction.Quiet.{IsQuiet}

module _ ⦃L : Libsql⦄ where
  pub run_statement : Str → Str → TransactionEntryGuard → M (Unit {0})
  run_statement sql what guard = do
    trx ← lift (transaction guard)
    affected ← on_world (try_call (L.trx_execute trx sql []) (describe what))
    pure tt

  pub run_statement-IsQuiet :
      (sql what : Str) (guard : TransactionEntryGuard) → IsQuiet (run_statement sql what guard)
  unfolding run_statement
  run_statement-IsQuiet sql what guard t = ground arith

  unfoldable pub savepoint : Str → Str → Str → M (Unit {0})
  savepoint conn_id trx_id name = do
    lift (validate_savepoint_name name)
    guard ← take trx_id conn_id
    scoped guard (run_statement (str "SAVEPOINT " ++ name) (str "Savepoint failed") guard)

  unfoldable pub release_savepoint : Str → Str → Str → M (Unit {0})
  release_savepoint conn_id trx_id name = do
    lift (validate_savepoint_name name)
    guard ← take trx_id conn_id
    scoped guard
        (run_statement (str "RELEASE SAVEPOINT " ++ name) (str "Release savepoint failed") guard)

  unfoldable pub rollback_to_savepoint : Str → Str → Str → M (Unit {0})
  rollback_to_savepoint conn_id trx_id name = do
    lift (validate_savepoint_name name)
    guard ← take trx_id conn_id
    scoped guard (
        run_statement (str "ROLLBACK TO SAVEPOINT " ++ name) (str "Rollback to savepoint failed")
          guard)
