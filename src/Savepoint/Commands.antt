-- ===== src/Savepoint/Commands.antt =====
-- What the savepoint NIFs send to the database.
use ecto_libsql.Common.{
  ◌≡◌, refl, ap, ◌∙◌, true, false, inl, inr, [], ◌++◌, arith, Str, str, lookup, str_eq, some,
}
use ecto_libsql.Effect.{Result-cases}
use ecto_libsql.Libsql.{Libsql}
use ecto_libsql.State.{State, TransactionEntry}
use ecto_libsql.Decode.{validate_savepoint_name}
use ecto_libsql.Transaction.{drop_guard, transaction}
use ecto_libsql.Transaction.Guard.{
  Refused, SameRegistries-refl, take_owned, taken, holding, drop_guard_free,
}
use ecto_libsql.Savepoint.Names.{IsIdentifier, validate_savepoint_name_iff}
use ecto_libsql.Savepoint.{
  savepoint, release_savepoint, rollback_to_savepoint, run_statement, run_statement-IsQuiet,
}

module _ ⦃L : Libsql⦄ where
  -- A name that is no identifier is refused by all three, before the transaction is looked at.
  pub savepoints_rejected :
      (s : State) (trx_id conn_id name : Str)
      → ¬ IsIdentifier name
      → Refused s (savepoint conn_id trx_id name s)
        × Refused s (release_savepoint conn_id trx_id name s)
        × Refused s (rollback_to_savepoint conn_id trx_id name s)
  savepoints_rejected s trx_id conn_id name n = elim (Result-cases (validate_savepoint_name name)) [
    | inl (t, h) ↦ absurd (n ((validate_savepoint_name_iff name).0 h))
    | inr (e, h) ↦ (
      unfold savepoint in
          rw h (record {
            reason = e;
            fails = refl;
            registries = SameRegistries-refl s;
            untouched = refl;
          }),
      unfold release_savepoint in
          rw h (record {
            reason = e;
            fails = refl;
            registries = SameRegistries-refl s;
            untouched = refl;
          }),
      unfold rollback_to_savepoint in
          rw h (record {
            reason = e;
            fails = refl;
            registries = SameRegistries-refl s;
            untouched = refl;
          }),
    )
  ]

  run_statement-world :
      (s : State) (trx_id : Str) (e : TransactionEntry) (sql what : Str)
      → (run_statement sql what (holding trx_id e) (taken s trx_id)).1.world
        ≡ (L.trx_execute e.transaction sql [] s.world).1
  unfolding run_statement transaction
  run_statement-world s trx_id e sql what = ground arith

  drop_guard-world :
      (s : State) (trx_id : Str) (e : TransactionEntry) (sql what : Str)
      → s.transactions.poisoned ≡ false
      → (drop_guard
          (holding trx_id e)
          (run_statement sql what (holding trx_id e) (taken s trx_id)).1).world
        ≡ (L.trx_execute e.transaction sql [] s.world).1
  drop_guard-world s trx_id e sql what p =
      let q = run_statement-IsQuiet sql what (holding trx_id e) (taken s trx_id) in
      rw
        (drop_guard_free trx_id e (run_statement sql what (holding trx_id e) (taken s trx_id)).1
          (ap (λ m. m.poisoned) q.quiet_transactions ∙ p))
        (run_statement-world s trx_id e sql what)

  -- For an identifier and the owner's transaction, each runs exactly one statement on that
  -- transaction: the command followed by the name.
  pub savepoints_sent :
      (s : State) (trx_id conn_id name : Str) (e : TransactionEntry)
      → IsIdentifier name
      → s.transactions.poisoned ≡ false
      → lookup trx_id s.transactions.content ≡ some e
      → str_eq e.conn_id conn_id ≡ true
      → ((savepoint conn_id trx_id name s).1.world
          ≡ (L.trx_execute e.transaction (str "SAVEPOINT " ++ name) [] s.world).1)
        × ((release_savepoint conn_id trx_id name s).1.world
            ≡ (L.trx_execute e.transaction (str "RELEASE SAVEPOINT " ++ name) [] s.world).1)
        × ((rollback_to_savepoint conn_id trx_id name s).1.world
            ≡ (L.trx_execute e.transaction (str "ROLLBACK TO SAVEPOINT " ++ name) [] s.world).1)
  savepoints_sent s trx_id conn_id name e i p h o =
      let valid = (validate_savepoint_name_iff name).1 i in
      let held = take_owned trx_id conn_id s e p h o in
      (
        unfold savepoint in rw (valid, held) (drop_guard-world s trx_id e _ _ p),
        unfold release_savepoint in rw (valid, held) (drop_guard-world s trx_id e _ _ p),
        unfold rollback_to_savepoint in rw (valid, held) (drop_guard-world s trx_id e _ _ p),
      )
