-- ===== src/Isolation/Begin.antt =====
-- What beginning a transaction registers.
use ecto_libsql.Common.{
  ◌≡◌, refl, ap, ◌∙◌, false, Bool-cases, inl, inr, Option, none, some, Str, str_eq, arith, lookup,
  lookup-insert, lookup-insert_self,
}
use ecto_libsql.Effect.{Result, ok, err, then_run}
use ecto_libsql.Libsql.{Libsql, Error, TransactionBehavior}
use ecto_libsql.State.{State, TransactionEntry, safe_lock, safe_lock_poisoned, safe_lock_free}
use ecto_libsql.Transaction.{begin_transaction, begin_transaction_with_behavior, register, begin_on}
use ecto_libsql.Transaction.Guard.{Quiet}
use ecto_libsql.Transaction.Quiet.{IsQuiet}
use ecto_libsql.Decode.{decode_transaction_behavior}

module _ ⦃L : Libsql⦄ where
  -- The new transaction is its connection's, every other lookup is as it was.
  pub record Began (s : State) (conn_id trx_id : Str) (t : State) : Type 0 where
    pub entry : TransactionEntry
    pub registered : lookup trx_id t.transactions.content ≡ some entry
    pub owner : entry.conn_id ≡ conn_id
    pub free : t.transactions.poisoned ≡ false
    pub others :
        (k : Str)
        → str_eq trx_id k ≡ false
        → lookup k t.transactions.content ≡ lookup k s.transactions.content
    pub same_rest :
        (t.connections ≡ s.connections) × (t.statements ≡ s.statements) × (t.cursors ≡ s.cursors)

  abbrev pub Registers : State → Str → Result Error Str × State → Type 0
  Registers s conn_id (ok trx_id, t) = Began s conn_id trx_id t
  Registers s conn_id (err e, t) =
      (t.transactions ≡ s.transactions)
      × (t.connections ≡ s.connections)
      × (t.statements ≡ s.statements)
      × (t.cursors ≡ s.cursors)

  register-Registers :
      (s : State) (conn_id context : Str) (trx : L.Transaction)
      → Registers s conn_id (register conn_id context trx s)
  unfolding register safe_lock
  register-Registers s conn_id context trx = elim (Bool-cases s.transactions.poisoned) [
    | inl p ↦ rw (safe_lock_poisoned s.transactions context p) (refl, refl, refl, refl)
    | inr p ↦ rw (safe_lock_free s.transactions context p) (record {
      entry = record { conn_id = conn_id; transaction = trx };
      registered =
          lookup-insert_self (L.new_v4 s.world).0 (record { conn_id = conn_id; transaction = trx })
            s.transactions.content;
      owner = refl;
      free = p;
      others = λ k other.
          lookup-insert (L.new_v4 s.world).0 k (record { conn_id = conn_id; transaction = trx })
            s.transactions.content
          ∙ rw other;
      same_rest = (refl, refl, refl);
    })
  ]

  -- What is registered on a state that differs in its world alone.
  Registers-Quiet :
      (s t : State) (conn_id : Str) (run : Result Error Str × State)
      → Quiet s t
      → Registers t conn_id run
      → Registers s conn_id run
  Registers-Quiet s t conn_id (ok trx_id, u) q b = record {
    entry = b.entry;
    registered = b.registered;
    owner = b.owner;
    free = b.free;
    others = λ k other. b.others k other ∙ ap (λ m. lookup k m.content) q.quiet_transactions;
    same_rest = (
      b.same_rest.0 ∙ q.quiet_connections,
      b.same_rest.1 ∙ q.quiet_statements,
      b.same_rest.2 ∙ q.quiet_cursors,
    );
  }
  Registers-Quiet s t conn_id (err e, u) q b = (
    b.0 ∙ q.quiet_transactions,
    b.1 ∙ q.quiet_connections,
    b.2 ∙ q.quiet_statements,
    b.3 ∙ q.quiet_cursors,
  )

  pub begin_on-IsQuiet :
      (conn_id a b c : Str) (behavior : Option TransactionBehavior)
      → IsQuiet (begin_on conn_id a b c behavior)
  unfolding begin_on
  begin_on-IsQuiet conn_id a b c behavior t = ground arith

  pub begin_then-Registers :
      (s : State) (conn_id context : Str) (run : Result Error L.Transaction × State)
      → Quiet s run.1
      → Registers s conn_id (then_run run (register conn_id context))
  begin_then-Registers s conn_id context (ok trx, t) q =
      Registers-Quiet s t conn_id (register conn_id context trx t) q
        (register-Registers t conn_id context trx)
  begin_then-Registers s conn_id context (err e, t) q =
      (q.quiet_transactions, q.quiet_connections, q.quiet_statements, q.quiet_cursors)

  -- Beginning a transaction, with a behaviour or without, either fails and leaves every registry
  -- as it was, or returns an identifier under which the transaction is registered for the calling
  -- connection, all other transactions, connections, statements and cursors being left alone.
  pub begin-Registers :
      (s : State) (conn_id behavior : Str)
      → Registers s conn_id (begin_transaction conn_id s)
        × Registers s conn_id (begin_transaction_with_behavior conn_id behavior s)
  begin-Registers s conn_id behavior = (
    unfold begin_transaction in
        begin_then-Registers s conn_id _ _ (begin_on-IsQuiet conn_id _ _ _ none s),
    with_behavior (decode_transaction_behavior behavior) refl,
  )
    where
      with_behavior :
          (o : Option TransactionBehavior)
          → decode_transaction_behavior behavior ≡ o
          → Registers s conn_id (begin_transaction_with_behavior conn_id behavior s)
      with_behavior none h = unfold begin_transaction_with_behavior in rw h (refl, refl, refl, refl)
      with_behavior (some b) h =
          unfold begin_transaction_with_behavior in
          rw h (begin_then-Registers s conn_id _ _ (begin_on-IsQuiet conn_id _ _ _ (some b) s))
