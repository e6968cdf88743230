-- ===== src/Tests/Threads.antt =====
-- The theorems on threads: one that holds the transaction, and two that meet at the mutexes.
use ecto_libsql.Common.{◌≡◌, inl, inr, str, refl, false, some, [], ◌∷◌, str_eq, lookup, remove}
use ecto_libsql.Effect.{ok}
use ecto_libsql.State.{TransactionEntry, safe_lock}
use ecto_libsql.Transaction.{TransactionEntryGuard, take, drop_guard}
use ecto_libsql.Transaction.Guard.{Denied}
use ecto_libsql.Concurrent.{System, holds, Reach, start, later, grab}
use ecto_libsql.Concurrent.Locks.{
  connection_registry, statement_registry, statement, acquire, release, briefly, statement_path,
  Thread, enters, acquires, Runs, idle, moves,
}
use ecto_libsql.Concurrent.Locks.Progress.{CanGo, no_deadlock}
use ecto_libsql.Calls.{Call}
use ecto_libsql.Concurrent.Exclusive.{transactions_exclusive, transactions_returned}
use ecto_libsql.Tests.{demo, s_id, c_id, t_id, demo_trx, demo_state, free}

abbrev demo_guard : TransactionEntryGuard
demo_guard = record { trx_id = t_id; entry = some demo_trx; consumed = false }

abbrev grabbed : System
grabbed = record { state = record demo_state { transactions = free [] }; held = demo_guard ∷ [] }

demo_take : take t_id c_id demo_state ≡ (ok demo_guard, grabbed.state)
unfolding take lookup remove str_eq safe_lock
demo_take = refl

demo-Reach : Reach demo_state grabbed
demo-Reach = later start (grab t_id c_id demo_guard demo_take refl)

transactions_exclusive_example :
    (holds t_id [] ≡ false) × ((conn_id : _) → Denied grabbed.state t_id conn_id)
transactions_exclusive_example = transactions_exclusive demo-Reach [] [] demo_guard refl

transactions_returned_example :
    (e : TransactionEntry) × (some demo_trx ≡ some e)
    × ((take t_id e.conn_id (drop_guard demo_guard grabbed.state)).0 ≡ ok demo_guard)
transactions_returned_example = transactions_returned demo-Reach [] [] demo_guard refl refl

-- A look-up of a statement has the registry of connections and waits for that of statements, which
-- a closing has.
abbrev closing : Thread
closing = record { guards = statement_registry ∷ []; todo = release ∷ [] }

abbrev looking : Thread
looking = record {
  guards = connection_registry ∷ [];
  todo = acquire statement_registry ∷ release ∷ release ∷ briefly (statement s_id);
}

looking-Runs : Runs (looking ∷ [])
looking-Runs =
    moves
      (moves idle (enters (Call.query_prepared c_id s_id []) (statement_path s_id) (inl refl) refl))
      (acquires [] [] [] connection_registry _ refl refl refl)

closing-Runs : Runs (closing ∷ looking ∷ [])
closing-Runs =
    moves
      (moves looking-Runs (
        enters (Call.close s_id (str "stmt_id")) (briefly statement_registry) (inr (inr (inl refl)))
          refl))
      (acquires [] (looking ∷ []) [] statement_registry _ refl refl refl)

no_deadlock_example : CanGo (closing ∷ looking ∷ [])
no_deadlock_example = no_deadlock closing-Runs looking (inr (inl refl)) tt
