-- ===== src/Transaction.antt =====
-- transaction.rs: the guard that takes a transaction out of its registry for the time of a call,
-- and the NIFs over transactions.
pub mod Guard
pub mod Quiet
use ecto_libsql.Common.{
  ℕ, Bool, true, false, not, Option, none, some, List, [], ◌∷◌, ◌++◌, Str, str, str_eq,
  if◌then◌else◌, Map, lookup, insert, remove,
}
use ecto_libsql.Effect.{
  Result, ok, err, Eff, pure, fail, lift, ok_or, map_err, touch, try_call, call, then_run, ◌>>=◌,
  ◌>>◌,
}
use ecto_libsql.Libsql.{Libsql, Error, term, Value, TransactionBehavior}
use ecto_libsql.State.{
  State, M, Mutex, TransactionEntry, safe_lock, safe_lock_arc, on_world, describe,
  lock_transactions, put_transactions, get_client,
}
use ecto_libsql.Decode.{decode_transaction_behavior}
use ecto_libsql.Routing.{should_use_query}
use ecto_libsql.Values.{decode_args, QueryResult, build_empty_result, collect_rows}
use ecto_libsql.Constraint.{enhanced_message}

module _ ⦃L : Libsql⦄ where
  open L use {World, Term, Real, Connection, Transaction}

  pub record TransactionEntryGuard : Type 0 where
    pub trx_id : Str
    pub entry : Option TransactionEntry
    pub consumed : Bool

  -- `drop`: an entry that is still there goes back, unless the registry is poisoned; then it is
  -- destroyed.
  unfoldable pub drop_guard : TransactionEntryGuard → State → State
  drop_guard g s = elim g.entry [
    | none ↦ s
    | some entry ↦
        if s.transactions.poisoned
        then record s { world = L.drop_trx entry.transaction s.world }
        else (put_transactions (insert g.trx_id entry s.transactions.content) s).1
  ]

  -- The guard goes out of scope behind the body, whatever the body returns.
  abbrev pub scoped : {A : Type 0} → TransactionEntryGuard → M A → M A
  scoped g body s = ((body s).0, drop_guard g (body s).1)

  -- `take` on the entry that was removed.
  check_owner : Str → Str → Map TransactionEntry → TransactionEntry → M TransactionEntryGuard
  check_owner trx_id conn_id rest entry =
      if not (str_eq entry.conn_id conn_id)
      then (do
        put_transactions (insert trx_id entry rest)
        fail (term (str "Transaction does not belong to this connection")))
      else (do
        put_transactions rest
        pure (record { trx_id = trx_id; entry = some entry; consumed = false }))

  unfoldable pub take : Str → Str → M TransactionEntryGuard
  unfolding check_owner
  take trx_id conn_id = do
    txn_registry ← lock_transactions (str "TransactionEntryGuard::take")
    entry ← lift (ok_or (lookup trx_id txn_registry) (term (str "Transaction not found")))
    check_owner trx_id conn_id (remove trx_id txn_registry) entry

  unfoldable pub transaction : TransactionEntryGuard → Result Error Transaction
  transaction g =
      if g.consumed then err (term (str "Transaction entry already consumed")) else elim g.entry [
        | none ↦ err (term (str "Transaction entry is missing"))
        | some e ↦ ok e.transaction
      ]

  -- `consume` takes the guard by value, so that it is dropped at the end, without its entry if
  -- that was handed out.
  unfoldable pub consume : TransactionEntryGuard → M TransactionEntry
  consume g =
      if g.consumed
      then (do touch (drop_guard g); fail (term (str "Transaction entry already consumed")))
      else (do
        touch (drop_guard (record g { entry = none; consumed = true }))
        lift (ok_or g.entry (term (str "Transaction entry is missing"))))

  -- The common part of the two ways to begin.
  unfoldable pub begin_on : Str → Str → Str → Str → Option TransactionBehavior → M Transaction
  begin_on conn_id map_context client_context conn_context behavior = do
    client ← get_client conn_id map_context (str "Invalid connection ID")
    connection ← lift (safe_lock_arc client client_context)
    conn ← lift (safe_lock_arc connection.client conn_context)
    on_world (try_call (L.begin conn behavior) (describe (str "Begin failed")))

  -- The new entry; if the registry is poisoned it is destroyed, which rolls back.
  unfoldable pub register : Str → Str → Transaction → M Str
  register conn_id context trx = do
    trx_id ← on_world (call L.new_v4)
    λ s. elim (safe_lock s.transactions context) [
      | err e ↦ (err e, record s { world = L.drop_trx trx s.world })
      | ok txn_registry ↦
          (do
            put_transactions
                (insert trx_id (record { conn_id = conn_id; transaction = trx }) txn_registry)
            pure trx_id)
            s
    ]

  unfoldable pub begin_transaction : Str → M Str
  begin_transaction conn_id = do
    trx ←
        begin_on conn_id (str "begin_transaction conn_map") (str "begin_transaction client")
          (str "begin_transaction conn") none
    register conn_id (str "begin_transaction txn_registry") trx

  invalid_behavior : Str → Error
  invalid_behavior behavior = term (
      str "Invalid transaction behavior: "
      ++ (L.debug_atom behavior ++ str ". Use :deferred, :immediate, :exclusive, or :read_only"))

  unfoldable pub begin_transaction_with_behavior : Str → Str → M Str
  unfolding invalid_behavior
  begin_transaction_with_behavior conn_id behavior = do
    trx_behavior ← lift (ok_or (decode_transaction_behavior behavior) (invalid_behavior behavior))
    trx ←
        begin_on conn_id (str "begin_transaction_with_behavior conn_map")
          (str "begin_transaction_with_behavior client")
          (str "begin_transaction_with_behavior conn") (some trx_behavior)
    register conn_id (str "begin_transaction_with_behavior txn_registry") trx

  -- What runs while the guard is held.
  unfoldable pub execute_under : Str → List (Value Real) → TransactionEntryGuard → M ℕ
  execute_under query params guard = do
    trx ← lift (transaction guard)
    on_world (try_call (L.trx_execute trx query params) (describe (str "Execute failed")))

  unfoldable pub execute_with_transaction : Str → Str → Str → List Term → M ℕ
  execute_with_transaction trx_id conn_id query args = do
    decoded_args ← lift (decode_args args)
    guard ← take trx_id conn_id
    scoped guard (execute_under query decoded_args guard)

  -- The message of a failed statement, looked up on the connection.
  failed_in : Mutex Connection → Str → Eff Error World QueryResult
  failed_in connection message = do
    conn ← lift (safe_lock_arc connection (str "query_with_trx_args conn for error"))
    enhanced ← call (enhanced_message conn message)
    fail (term enhanced)

  pub run_in :
      Bool → Transaction → Mutex Connection → Str → List (Value Real) → Eff Error World QueryResult
  unfolding failed_in
  run_in true trx connection query params = do
    res ← call (L.trx_query trx query params)
    elim res [
      | ok rows ↦ collect_rows rows
      | err e ↦ failed_in connection (str "Query failed: " ++ L.display e)
    ]
  run_in false trx connection query params = do
    res ← call (L.trx_execute trx query params)
    elim res [
      | ok rows_affected ↦ pure (build_empty_result rows_affected)
      | err e ↦ failed_in connection (str "Execute failed: " ++ L.display e)
    ]

  unfoldable pub query_under : Str → Str → List (Value Real) → TransactionEntryGuard → M QueryResult
  query_under conn_id query params guard = do
    trx ← lift (transaction guard)
    client ← get_client conn_id (str "query_with_trx_args conn_map") (str "Connection not found")
    connection ← lift (safe_lock_arc client (str "query_with_trx_args client"))
    on_world (run_in (should_use_query query) trx connection.client query params)

  unfoldable pub query_with_trx_args : Str → Str → Str → List Term → M QueryResult
  query_with_trx_args trx_id conn_id query args = do
    decoded_args ← lift (decode_args args)
    guard ← take trx_id conn_id
    scoped guard (query_under conn_id query decoded_args guard)

  unfoldable pub handle_status_transaction : Str → M (Unit {0})
  handle_status_transaction trx_id = do
    trx_registry ← lock_transactions (str "handle_status_transaction")
    elim (lookup trx_id trx_registry) [
      | some entry ↦ pure tt
      | none ↦ fail (term (str "Transaction not found"))
    ]

  pub finish_error : Str → L.LibError → Error
  finish_error what e = term (str "TOKIO_RUNTIME ERR " ++ (what ++ (str ": " ++ L.display e)))

  -- Any `param` but "commit" rolls back.
  unfoldable pub commit_or_rollback_transaction : Str → Str → Str → M Str
  commit_or_rollback_transaction trx_id conn_id param = do
    guard ← take trx_id conn_id
    entry ← consume guard
    done ←
        (if str_eq param (str "commit")
          then on_world (try_call (L.commit entry.transaction) (finish_error (str "Commit error")))
          else on_world
              (try_call (L.rollback entry.transaction) (finish_error (str "Rollback error"))))
    pure (param ++ str " success")
