-- ===== src/Isolation/Finish.antt =====
-- Commit and rollback: the one call that takes a transaction out of its registry for good.
use ecto_libsql.Common.{
  ◌≡◌, refl, Bool, true, false, none, some, Str, str, str_eq, arith, if◌then◌else◌, lookup,
  lookup-remove, lookup-remove_self, ◌++◌,
}
use ecto_libsql.Effect.{Result, ok, err}
use ecto_libsql.Libsql.{Libsql, Error, term}
use ecto_libsql.State.{State, TransactionEntry, safe_lock_free}
use ecto_libsql.Transaction.{
  commit_or_rollback_transaction, handle_status_transaction, consume, drop_guard, finish_error,
}
use ecto_libsql.Transaction.Guard.{Denied, absent, take_owned, taken}

module _ ⦃L : Libsql⦄ where
  open L use {World, LibError}

  -- What the database is asked for, and what is answered.
  abbrev pub library_call : Bool → TransactionEntry → World → Result LibError (Unit {0}) × World
  library_call true e w = L.commit e.transaction w
  library_call false e w = L.rollback e.transaction w

  abbrev pub answer : Bool → Str → Result LibError (Unit {0}) → Result Error Str
  answer commits param (ok _) = ok (param ++ str " success")
  answer commits param (err e) =
      err (finish_error (if commits then str "Commit error" else str "Rollback error") e)

  finish_step :
      (s : State) (trx_id conn_id param : Str) (e : TransactionEntry)
      → s.transactions.poisoned ≡ false
      → lookup trx_id s.transactions.content ≡ some e
      → str_eq e.conn_id conn_id ≡ true
      → let commits = str_eq param (str "commit") in
        commit_or_rollback_transaction trx_id conn_id param s ≡ (
          answer commits param (library_call commits e s.world).0,
          record (taken s trx_id) { world = (library_call commits e s.world).1 },
        )
  unfolding commit_or_rollback_transaction consume drop_guard
  finish_step s trx_id conn_id param e p h o =
      rw (take_owned trx_id conn_id s e p h o) (ground arith)

  -- What has become of a transaction that was finished.
  pub record Finished (s : State) (trx_id param : Str) (e : TransactionEntry)
      (run : Result Error Str × State) : Type 0 where
    pub asked : run.1.world ≡ (library_call (str_eq param (str "commit")) e s.world).1
    pub answered :
        run.0
        ≡ answer
            (str_eq param (str "commit"))
            param
            (library_call (str_eq param (str "commit")) e s.world).0
    pub others :
        (k : Str)
        → lookup k run.1.transactions.content
          ≡ (if str_eq trx_id k then none else lookup k s.transactions.content)
    pub denied : (conn_id : Str) → Denied run.1 trx_id conn_id
    pub forgotten :
        (handle_status_transaction trx_id run.1).0 ≡ err (term (str "Transaction not found"))
    pub same_rest :
        (run.1.connections ≡ s.connections)
        × (run.1.statements ≡ s.statements)
        × (run.1.cursors ≡ s.cursors)

  forgotten_when :
      (s : State) (trx_id : Str)
      → s.transactions.poisoned ≡ false
      → lookup trx_id s.transactions.content ≡ none
      → (handle_status_transaction trx_id s).0 ≡ err (term (str "Transaction not found"))
  unfolding handle_status_transaction
  forgotten_when s trx_id p h = rw (safe_lock_free s.transactions _ p) (ground arith)

  -- With a free registry, the owner's call commits for the word "commit" and rolls back for any
  -- other, exactly once, and answers whether the database agreed. The transaction is out of the
  -- registry in either case, no other transaction, connection, statement or cursor is touched,
  -- and every later use of it is denied.
  pub commit_or_rollback-Finished :
      (s : State) (trx_id conn_id param : Str) (e : TransactionEntry)
      → s.transactions.poisoned ≡ false
      → lookup trx_id s.transactions.content ≡ some e
      → str_eq e.conn_id conn_id ≡ true
      → Finished s trx_id param e (commit_or_rollback_transaction trx_id conn_id param s)
  commit_or_rollback-Finished s trx_id conn_id param e p h o =
      let gone = lookup-remove_self trx_id s.transactions.content in
      rw (finish_step s trx_id conn_id param e p h o) (record {
        asked = refl;
        answered = refl;
        others = λ k. lookup-remove trx_id k s.transactions.content;
        denied = λ c. absent gone;
        forgotten = forgotten_when _ trx_id p gone;
        same_rest = (refl, refl, refl);
      })
