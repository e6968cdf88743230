-- ===== src/Connection/Connected.antt =====
-- What connecting registers.
use ecto_libsql.Common.{
  ◌≡◌, refl, ap, ◌∙◌, false, Bool-cases, inl, inr, some, Str, str_eq, arith, lookup, lookup-insert,
  lookup-insert_self,
}
use ecto_libsql.Effect.{Result, ok, err, then_run}
use ecto_libsql.Libsql.{Libsql, Error}
use ecto_libsql.State.{State, Mutex, LibSqlConn, safe_lock}
use ecto_libsql.Transaction.Guard.{Quiet}
use ecto_libsql.Transaction.Quiet.{IsQuiet}
use ecto_libsql.Connection.{connect, connect_to, register}

module _ ⦃L : Libsql⦄ where
  open L use {World, Term}

  -- The new connection, that no call has locked.
  pub record Connected (s : State) (conn_id : Str) (t : State) : Type 0 where
    pub client : Mutex LibSqlConn
    pub registered : lookup conn_id t.connections.content ≡ some client
    pub unlocked : client.poisoned ≡ false
    pub others :
        (k : Str)
        → str_eq conn_id k ≡ false
        → lookup k t.connections.content ≡ lookup k s.connections.content
    pub same_rest :
        (t.transactions ≡ s.transactions) × (t.statements ≡ s.statements) × (t.cursors ≡ s.cursors)

  abbrev pub ConnectedOrQuiet : State → Result Error Str × State → Type 0
  ConnectedOrQuiet s (ok conn_id, t) = Connected s conn_id t
  ConnectedOrQuiet s (err e, t) = Quiet s t

  abbrev new_client : LibSqlConn → Mutex LibSqlConn
  new_client c = record { poisoned = false; content = c }

  register-Connected : (s : State) (c : LibSqlConn) → ConnectedOrQuiet s (register c s)
  unfolding register safe_lock
  register-Connected s c = elim (Bool-cases s.connections.poisoned) [
    | inl p ↦ rw p (record {
      quiet_connections = refl;
      quiet_statements = refl;
      quiet_cursors = refl;
      quiet_transactions = refl;
    })
    | inr p ↦ rw p (record {
      client = new_client c;
      registered = lookup-insert_self (L.new_v4 s.world).0 (new_client c) s.connections.content;
      unlocked = refl;
      others = λ k other.
          lookup-insert (L.new_v4 s.world).0 k (new_client c) s.connections.content ∙ rw other;
      same_rest = (refl, refl, refl);
    })
  ]

  Connected-Quiet :
      (s t : State) (run : Result Error Str × State)
      → Quiet s t
      → ConnectedOrQuiet t run
      → ConnectedOrQuiet s run
  Connected-Quiet s t (ok conn_id, u) q o = record {
    client = o.client;
    registered = o.registered;
    unlocked = o.unlocked;
    others = λ k other. o.others k other ∙ ap (λ m. lookup k m.content) q.quiet_connections;
    same_rest = (
      o.same_rest.0 ∙ q.quiet_transactions,
      o.same_rest.1 ∙ q.quiet_statements,
      o.same_rest.2 ∙ q.quiet_cursors,
    );
  }
  Connected-Quiet s t (err e, u) q o = record {
    quiet_connections = o.quiet_connections ∙ q.quiet_connections;
    quiet_statements = o.quiet_statements ∙ q.quiet_statements;
    quiet_cursors = o.quiet_cursors ∙ q.quiet_cursors;
    quiet_transactions = o.quiet_transactions ∙ q.quiet_transactions;
  }

  connect_to-IsQuiet : (opts mode : Term) → IsQuiet (connect_to opts mode)
  unfolding connect_to
  connect_to-IsQuiet opts mode t = ground arith

  then-Connected :
      (s : State) (run : Result Error LibSqlConn × State)
      → Quiet s run.1
      → ConnectedOrQuiet s (then_run run register)
  then-Connected s (ok c, t) q = Connected-Quiet s t (register c t) q (register-Connected t c)
  then-Connected s (err e, t) q = q

  -- Connecting either fails, by its options, its mode, the database, the ping or the timeout, and
  -- leaves every registry as it was, or returns an identifier under which a connection is
  -- registered, not locked, all other connections, transactions, statements and cursors being left
  -- alone.
  pub connect-Connected : (s : State) (opts mode : Term) → ConnectedOrQuiet s (connect opts mode s)
  unfolding connect
  connect-Connected s opts mode = then-Connected s _ (connect_to-IsQuiet opts mode s)
