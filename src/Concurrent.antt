-- ===== src/Concurrent.antt =====
-- transaction.rs on several threads: a thread that runs a statement in a transaction holds its
-- guard, with the registry unlocked, while other threads take their steps. A step is what runs
-- under one lock, or one call of the database.
pub mod Held
pub mod Steps
pub mod Exclusive
pub mod Locks
pub mod Delivery
use ecto_libsql.Common.{◌≡◌, Bool, true, false, ◌||◌, List, [], ◌∷◌, ◌++◌, Str, str_eq}
use ecto_libsql.Effect.{Result, ok, err}
use ecto_libsql.Libsql.{Libsql, Error, Value}
use ecto_libsql.State.{State}
use ecto_libsql.Transaction.{
  TransactionEntryGuard, take, drop_guard, consume, register, execute_under, query_under,
}
use ecto_libsql.Savepoint.{run_statement}
use ecto_libsql.Cursor.{buffer_under}
use ecto_libsql.Connection.{close}

module _ ⦃L : Libsql⦄ where
  open L use {Real, Transaction}

  -- The registries with the guards that threads hold.
  pub record System : Type 0 where
    pub state : State
    pub held : List TransactionEntryGuard

  -- A thread holds this transaction.
  abbrev pub holds : Str → List TransactionEntryGuard → Bool
  holds k [] = false
  holds k (g ∷ gs) = str_eq g.trx_id k || holds k gs

  -- What a thread does between taking its guard and letting it go.
  pub data Work : Type 0 where
    execute : Str → List (Value Real) → Work
    query : Str → Str → List (Value Real) → Work
    command : Str → Str → Work
    buffer : Str → List (Value Real) → Work

  unfoldable pub perform : Work → TransactionEntryGuard → State → State
  perform (execute sql params) g s = (execute_under sql params g s).1
  perform (query conn_id sql params) g s = (query_under conn_id sql params g s).1
  perform (command sql what) g s = (run_statement sql what g s).1
  perform (buffer sql params) g s = (buffer_under sql params g s).1

  -- One step of one thread. An identifier that is issued is that of no transaction that a thread
  -- holds, as version 4 UUIDs are not issued twice.
  pub data Step (a b : System) : Type 0 where
    grab :
        (trx_id conn_id : Str) (g : TransactionEntryGuard)
        → take trx_id conn_id a.state ≡ (ok g, b.state)
        → b.held ≡ g ∷ a.held
        → Step a b
    refuse :
        (trx_id conn_id : Str) (e : Error)
        → take trx_id conn_id a.state ≡ (err e, b.state)
        → b.held ≡ a.held
        → Step a b
    work :
        (w : Work) (pre post : List TransactionEntryGuard) (g : TransactionEntryGuard)
        → a.held ≡ pre ++ (g ∷ post)
        → b.state ≡ perform w g a.state
        → b.held ≡ a.held
        → Step a b
    release :
        (pre post : List TransactionEntryGuard) (g : TransactionEntryGuard)
        → a.held ≡ pre ++ (g ∷ post)
        → b.state ≡ drop_guard g a.state
        → b.held ≡ pre ++ post
        → Step a b
    finish :
        (pre post : List TransactionEntryGuard) (g : TransactionEntryGuard)
        → a.held ≡ pre ++ (g ∷ post)
        → b.state ≡ (consume g a.state).1
        → b.held ≡ pre ++ post
        → Step a b
    begin :
        (conn_id context : Str) (trx : Transaction)
        → holds (L.new_v4 a.state.world).0 a.held ≡ false
        → b.state ≡ (register conn_id context trx a.state).1
        → b.held ≡ a.held
        → Step a b
    close_any : (id opt : Str) → b.state ≡ (close id opt a.state).1 → b.held ≡ a.held → Step a b
    -- A thread panics while it holds the lock of the registry.
    poison :
        b.state.transactions.poisoned ≡ true
        → b.state.transactions.content ≡ a.state.transactions.content
        → b.held ≡ a.held
        → Step a b
    -- Any code that does not touch the registry of transactions.
    outside : b.state.transactions ≡ a.state.transactions → b.held ≡ a.held → Step a b

  pub data Reach (s : State) : System → Type 0 where
    start : Reach s (record { state = s; held = [] })
    later : {a b : System} → Reach s a → Step a b → Reach s b
