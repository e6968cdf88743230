-- ===== src/Isolation/Lifecycle.antt =====
-- A transaction from its begin to its end.
use ecto_libsql.Common.{
  ◌≡◌, ◌∙◌, refl, inl, inr, Bool-cases, Option-cases, Option, none, some, false, ap, sym, subst,
  Str, str_eq, str_eq_refl, lookup, lookup-insert_self,
}
use ecto_libsql.Effect.{Result, ok, err, then_run, Result-cases}
use ecto_libsql.Libsql.{Libsql, Error, TransactionBehavior}
use ecto_libsql.State.{
  State, Mutex, LibSqlConn, TransactionEntry, safe_lock, safe_lock_poisoned, safe_lock_free,
  safe_lock_arc,
}
use ecto_libsql.Decode.{decode_transaction_behavior}
use ecto_libsql.Transaction.{
  begin_on, register, begin_transaction, begin_transaction_with_behavior,
  commit_or_rollback_transaction,
}
use ecto_libsql.Transaction.Guard.{Denied, foreign, Quiet}
use ecto_libsql.Isolation.Begin.{Registers, begin_then-Registers, begin_on-IsQuiet}
use ecto_libsql.Isolation.Finish.{Finished, commit_or_rollback-Finished}

module _ ⦃L : Libsql⦄ where
  open L use {World, Transaction}

  -- libsql has begun the transaction, with this behaviour, on the connection of that identifier.
  pub record Origin (s : State) (conn_id : Str) (behavior : Option TransactionBehavior)
      (trx : Transaction) : Type 0 where
    pub client : Mutex LibSqlConn
    pub connected : lookup conn_id s.connections.content ≡ some client
    pub asked : World
    pub begun : (L.begin client.content.client.content behavior asked).0 ≡ ok trx

  abbrev OriginOrError :
      State → Str → Option TransactionBehavior → Result Error Transaction → Type 0
  OriginOrError s conn_id behavior (ok trx) = Origin s conn_id behavior trx
  OriginOrError s conn_id behavior (err e) = Unit

  begin_on-Origin :
      (s : State) (conn_id a b c : Str) (behavior : Option TransactionBehavior)
      → OriginOrError s conn_id behavior (begin_on conn_id a b c behavior s).0
  unfolding begin_on safe_lock_arc
  begin_on-Origin s conn_id a b c behavior = elim (Bool-cases s.connections.poisoned) [
    | inl p ↦ rw (safe_lock_poisoned s.connections a p) tt
    | inr p ↦ elim (Option-cases (lookup conn_id s.connections.content)) [
      | inl n ↦ rw (safe_lock_free s.connections a p, n) tt
      | inr (client, l) ↦
          rw (safe_lock_free s.connections a p, l)
            (elim (Bool-cases client.poisoned) [
              | inl q ↦ rw q tt
              | inr q ↦ rw q (elim (Bool-cases client.content.client.poisoned) [
                | inl k ↦ rw k tt
                | inr k ↦
                    rw k
                      (elim (Result-cases
                        (L.begin client.content.client.content behavior s.world).0) [
                          | inl (trx, e) ↦ rw e (record {
                            client = client;
                            connected = l;
                            asked = s.world;
                            begun = e;
                          })
                          | inr (x, e) ↦ rw e tt
                        ])
              ])
            ])
    ]
  ]

  -- What is registered is the transaction that was begun.
  abbrev EntryOrError : Str → Transaction → Result Error Str × State → Type 0
  EntryOrError conn_id trx (ok trx_id, t) =
      (lookup trx_id t.transactions.content
        ≡ some (record { conn_id = conn_id; transaction = trx }))
  EntryOrError conn_id trx (err e, t) = Unit

  register-EntryOrError :
      (s : State) (conn_id context : Str) (trx : Transaction)
      → EntryOrError conn_id trx (register conn_id context trx s)
  unfolding register safe_lock
  register-EntryOrError s conn_id context trx = elim (Bool-cases s.transactions.poisoned) [
    | inl p ↦ rw (safe_lock_poisoned s.transactions context p) tt
    | inr p ↦
        rw (safe_lock_free s.transactions context p)
          (lookup-insert_self (L.new_v4 s.world).0 _ s.transactions.content)
  ]

  -- The transaction comes from the connection, is finished by it, once, and is denied to others.
  pub record Exclusive (s : State) (conn_id : Str) (behavior : Option TransactionBehavior)
      (trx_id : Str) (t : State) : Type 0 where
    pub entry : TransactionEntry
    pub origin : Origin s conn_id behavior entry.transaction
    pub finished :
        (param : Str)
        → Finished t trx_id param entry (commit_or_rollback_transaction trx_id conn_id param t)
    pub denied : (other : Str) → str_eq conn_id other ≡ false → Denied t trx_id other

  abbrev pub ExclusiveOrError :
      State → Str → Option TransactionBehavior → Result Error Str × State → Type 0
  ExclusiveOrError s conn_id behavior (ok trx_id, t) = Exclusive s conn_id behavior trx_id t
  ExclusiveOrError s conn_id behavior (err e, t) = Unit

  Registers-Exclusive :
      (s : State) (conn_id : Str) (behavior : Option TransactionBehavior) (trx : Transaction)
      (run : Result Error Str × State)
      → Origin s conn_id behavior trx
      → EntryOrError conn_id trx run
      → Registers s conn_id run
      → ExclusiveOrError s conn_id behavior run
  Registers-Exclusive s conn_id behavior trx (ok trx_id, t) o l b =
      let new : TransactionEntry = record { conn_id = conn_id; transaction = trx } in
      let same : some new ≡ some b.entry = sym l ∙ b.registered in
      let entry_eq : new ≡ b.entry = cc in
      record {
        entry = b.entry;
        origin = subst (λ e. Origin s conn_id behavior e.transaction) entry_eq o;
        finished = λ param.
            commit_or_rollback-Finished t trx_id conn_id param b.entry b.free b.registered
              (ap (λ k. str_eq k conn_id) b.owner ∙ str_eq_refl conn_id);
        denied = λ other d. foreign b.entry b.registered (ap (λ k. str_eq k other) b.owner ∙ d);
      }
  Registers-Exclusive s conn_id behavior trx (err e, t) o l b = tt

  begin_then-Exclusive :
      (s : State) (conn_id context : Str) (behavior : Option TransactionBehavior)
      (run : Result Error Transaction × State)
      → Quiet s run.1
      → OriginOrError s conn_id behavior run.0
      → ExclusiveOrError s conn_id behavior (then_run run (register conn_id context))
  begin_then-Exclusive s conn_id context behavior (ok trx, t) q o =
      Registers-Exclusive s conn_id behavior trx (register conn_id context trx t) o
        (register-EntryOrError t conn_id context trx)
        (begin_then-Registers s conn_id context (ok trx, t) q)
  begin_then-Exclusive s conn_id context behavior (err e, t) q o = tt

  -- A begin, with a behaviour or without, that succeeds leaves a transaction which libsql has begun
  -- with that behaviour on the calling connection, which that connection can commit or roll back, as
  -- asked and once, and which is denied to every other connection.
  pub begin-Exclusive :
      (s : State) (conn_id behavior : Str)
      → ExclusiveOrError s conn_id none (begin_transaction conn_id s)
        × ExclusiveOrError s conn_id
            (decode_transaction_behavior behavior)
            (begin_transaction_with_behavior conn_id behavior s)
  begin-Exclusive s conn_id behavior = (
    unfold begin_transaction in
        begin_then-Exclusive s conn_id _ none _ (begin_on-IsQuiet conn_id _ _ _ none s)
          (begin_on-Origin s conn_id _ _ _ none),
    with_behavior (decode_transaction_behavior behavior) refl,
  )
    where
      with_behavior :
          (o : Option TransactionBehavior)
          → decode_transaction_behavior behavior ≡ o
          → ExclusiveOrError s conn_id
              (decode_transaction_behavior behavior)
              (begin_transaction_with_behavior conn_id behavior s)
      with_behavior none h = unfold begin_transaction_with_behavior in rw h tt
      with_behavior (some b) h =
          unfold begin_transaction_with_behavior in
          rw h (
            begin_then-Exclusive s conn_id _ (some b) _ (begin_on-IsQuiet conn_id _ _ _ (some b) s)
              (begin_on-Origin s conn_id _ _ _ (some b)))
