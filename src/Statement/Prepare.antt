-- ===== src/Statement/Prepare.antt =====
-- What preparing a statement registers.
use ecto_libsql.Common.{
  ◌≡◌, refl, ap, ◌∙◌, false, true, Bool-cases, inl, inr, some, Str, str, str_eq, str_eq_refl, arith,
  lookup, lookup-insert, lookup-insert_self,
}
use ecto_libsql.Effect.{Result, ok, err, then_run}
use ecto_libsql.Libsql.{Libsql, Error}
use ecto_libsql.State.{State, StatementEntry, safe_lock, safe_lock_poisoned, safe_lock_free}
use ecto_libsql.Transaction.Guard.{Quiet}
use ecto_libsql.Transaction.Quiet.{IsQuiet}
use ecto_libsql.Statement.{prepare_statement, prepare_on, register_statement}

module _ ⦃L : Libsql⦄ where
  open L use {World, Statement}

  -- The new statement is its connection's and not locked.
  pub record Prepared (s : State) (conn_id stmt_id : Str) (t : State) : Type 0 where
    pub entry : StatementEntry
    pub registered : lookup stmt_id t.statements.content ≡ some entry
    pub owner : str_eq entry.conn_id conn_id ≡ true
    pub unlocked : entry.statement.poisoned ≡ false
    pub others :
        (k : Str)
        → str_eq stmt_id k ≡ false
        → lookup k t.statements.content ≡ lookup k s.statements.content
    pub same_rest :
        (t.connections ≡ s.connections)
        × (t.cursors ≡ s.cursors)
        × (t.transactions ≡ s.transactions)

  abbrev pub PreparedOrQuiet : State → Str → Result Error Str × State → Type 0
  PreparedOrQuiet s conn_id (ok stmt_id, t) = Prepared s conn_id stmt_id t
  PreparedOrQuiet s conn_id (err e, t) = Quiet s t

  abbrev new_statement : Str → Statement → StatementEntry
  new_statement conn_id stmt = record {
    conn_id = conn_id;
    statement = record { poisoned = false; content = stmt };
  }

  register_statement-Prepared :
      (s : State) (conn_id : Str) (stmt : Statement)
      → PreparedOrQuiet s conn_id (register_statement conn_id stmt s)
  unfolding register_statement safe_lock
  register_statement-Prepared s conn_id stmt = elim (Bool-cases s.statements.poisoned) [
    | inl p ↦
        rw (safe_lock_poisoned s.statements (str "prepare_statement stmt_registry") p) (record {
          quiet_connections = refl;
          quiet_statements = refl;
          quiet_cursors = refl;
          quiet_transactions = refl;
        })
    | inr p ↦ rw (safe_lock_free s.statements (str "prepare_statement stmt_registry") p) (record {
      entry = new_statement conn_id stmt;
      registered =
          lookup-insert_self (L.new_v4 s.world).0 (new_statement conn_id stmt) s.statements.content;
      owner = str_eq_refl conn_id;
      unlocked = refl;
      others = λ k other.
          lookup-insert (L.new_v4 s.world).0 k (new_statement conn_id stmt) s.statements.content
          ∙ rw other;
      same_rest = (refl, refl, refl);
    })
  ]

  Prepared-Quiet :
      (s t : State) (conn_id : Str) (run : Result Error Str × State)
      → Quiet s t
      → PreparedOrQuiet t conn_id run
      → PreparedOrQuiet s conn_id run
  Prepared-Quiet s t conn_id (ok stmt_id, u) q o = record {
    entry = o.entry;
    registered = o.registered;
    owner = o.owner;
    unlocked = o.unlocked;
    others = λ k other. o.others k other ∙ ap (λ m. lookup k m.content) q.quiet_statements;
    same_rest = (
      o.same_rest.0 ∙ q.quiet_connections,
      o.same_rest.1 ∙ q.quiet_cursors,
      o.same_rest.2 ∙ q.quiet_transactions,
    );
  }
  Prepared-Quiet s t conn_id (err e, u) q o = record {
    quiet_connections = o.quiet_connections ∙ q.quiet_connections;
    quiet_statements = o.quiet_statements ∙ q.quiet_statements;
    quiet_cursors = o.quiet_cursors ∙ q.quiet_cursors;
    quiet_transactions = o.quiet_transactions ∙ q.quiet_transactions;
  }

  prepare_on-IsQuiet : (conn_id sql : Str) → IsQuiet (prepare_on conn_id sql)
  unfolding prepare_on
  prepare_on-IsQuiet conn_id sql t = ground arith

  then-Prepared :
      (s : State) (conn_id : Str) (run : Result Error Statement × State)
      → Quiet s run.1
      → PreparedOrQuiet s conn_id (then_run run (register_statement conn_id))
  then-Prepared s conn_id (ok stmt, t) q =
      Prepared-Quiet s t conn_id (register_statement conn_id stmt t) q
        (register_statement-Prepared t conn_id stmt)
  then-Prepared s conn_id (err e, t) q = q

  -- Preparing a statement either fails and leaves every registry as it was, or returns an
  -- identifier under which a statement, not locked, is registered for the calling connection, all
  -- other statements, connections, cursors and transactions being left alone.
  pub prepare_statement-Prepared :
      (s : State) (conn_id sql : Str) → PreparedOrQuiet s conn_id (prepare_statement conn_id sql s)
  unfolding prepare_statement
  prepare_statement-Prepared s conn_id sql =
      then-Prepared s conn_id _ (prepare_on-IsQuiet conn_id sql s)
