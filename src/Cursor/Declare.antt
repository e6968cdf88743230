-- ===== src/Cursor/Declare.antt =====
-- What declaring a cursor registers.
use ecto_libsql.Common.{
  ◌≡◌, refl, ap, ◌∙◌, false, Bool-cases, inl, inr, List, Str, str_eq, str_eq_refl, arith, lookup,
  lookup-insert, lookup-insert_self,
}
use ecto_libsql.Effect.{Result, ok, err, then_run}
use ecto_libsql.Libsql.{Libsql, Error, Value}
use ecto_libsql.State.{State, CursorData, safe_lock_poisoned, safe_lock_free}
use ecto_libsql.Transaction.Guard.{Quiet}
use ecto_libsql.Transaction.Quiet.{IsQuiet}
use ecto_libsql.Cursor.{declare_cursor, buffer_query, register_cursor}
use ecto_libsql.Cursor.Even.{Even, EvenOrError, buffer_query-Even}
use ecto_libsql.Cursor.Fetch.{Holds}

module _ ⦃L : Libsql⦄ where
  open L use {World, Real, Term}

  -- The new cursor is its connection's and stands at its first row.
  pub record Opened (s : State) (conn_id cursor_id : Str) (t : State) : Type 0 where
    pub cursor : CursorData
    pub holds : Holds t conn_id cursor_id cursor
    pub at_start : cursor.position ≡ 0
    pub even : Even (cursor.columns, cursor.rows)
    pub others :
        (k : Str)
        → str_eq cursor_id k ≡ false
        → lookup k t.cursors.content ≡ lookup k s.cursors.content
    pub same_rest :
        (t.connections ≡ s.connections)
        × (t.statements ≡ s.statements)
        × (t.transactions ≡ s.transactions)

  abbrev pub OpenedOrQuiet : State → Str → Result Error Str × State → Type 0
  OpenedOrQuiet s conn_id (ok cursor_id, t) = Opened s conn_id cursor_id t
  OpenedOrQuiet s conn_id (err e, t) = Quiet s t

  abbrev new_cursor : Str → List Str × List (List (Value Real)) → CursorData
  new_cursor conn_id found = record {
    conn_id = conn_id;
    columns = found.0;
    rows = found.1;
    position = 0;
  }

  pub register_cursor-Opened :
      (s : State) (conn_id context : Str) (found : List Str × List (List (Value Real)))
      → Even found
      → OpenedOrQuiet s conn_id (register_cursor conn_id context found s)
  unfolding register_cursor
  register_cursor-Opened s conn_id context found even = elim (Bool-cases s.cursors.poisoned) [
    | inl p ↦ rw (safe_lock_poisoned s.cursors context p) (record {
      quiet_connections = refl;
      quiet_statements = refl;
      quiet_cursors = refl;
      quiet_transactions = refl;
    })
    | inr p ↦ rw (safe_lock_free s.cursors context p) (record {
      cursor = new_cursor conn_id found;
      holds = record {
        free = p;
        registered =
            lookup-insert_self (L.new_v4 s.world).0 (new_cursor conn_id found) s.cursors.content;
        owner = str_eq_refl conn_id;
      };
      at_start = refl;
      even = even;
      others = λ k other.
          lookup-insert (L.new_v4 s.world).0 k (new_cursor conn_id found) s.cursors.content
          ∙ rw other;
      same_rest = (refl, refl, refl);
    })
  ]

  Opened-Quiet :
      (s t : State) (conn_id : Str) (run : Result Error Str × State)
      → Quiet s t
      → OpenedOrQuiet t conn_id run
      → OpenedOrQuiet s conn_id run
  Opened-Quiet s t conn_id (ok cursor_id, u) q o = record {
    cursor = o.cursor;
    holds = o.holds;
    at_start = o.at_start;
    even = o.even;
    others = λ k other. o.others k other ∙ ap (λ m. lookup k m.content) q.quiet_cursors;
    same_rest = (
      o.same_rest.0 ∙ q.quiet_connections,
      o.same_rest.1 ∙ q.quiet_statements,
      o.same_rest.2 ∙ q.quiet_transactions,
    );
  }
  Opened-Quiet s t conn_id (err e, u) q o = record {
    quiet_connections = o.quiet_connections ∙ q.quiet_connections;
    quiet_statements = o.quiet_statements ∙ q.quiet_statements;
    quiet_cursors = o.quiet_cursors ∙ q.quiet_cursors;
    quiet_transactions = o.quiet_transactions ∙ q.quiet_transactions;
  }

  pub buffer_query-IsQuiet :
      (conn_id sql : Str) (args : List Term) → IsQuiet (buffer_query conn_id sql args)
  unfolding buffer_query
  buffer_query-IsQuiet conn_id sql args t = ground arith

  then-Opened :
      (s : State) (conn_id context : Str)
      (run : Result Error (List Str × List (List (Value Real))) × State)
      → Quiet s run.1
      → EvenOrError run.0
      → OpenedOrQuiet s conn_id (then_run run (register_cursor conn_id context))
  then-Opened s conn_id context (ok found, t) q even =
      Opened-Quiet s t conn_id (register_cursor conn_id context found t) q
        (register_cursor-Opened t conn_id context found even)
  then-Opened s conn_id context (err e, t) q even = q

  -- Declaring a cursor on a connection either fails and leaves every registry as it was, or returns
  -- an identifier under which a cursor is registered for the calling connection, at its first row
  -- and each row as wide as its columns or empty, all other cursors, connections, statements and
  -- transactions being left alone.
  pub declare_cursor-Opened :
      (s : State) (conn_id sql : Str) (args : List Term)
      → OpenedOrQuiet s conn_id (declare_cursor conn_id sql args s)
  unfolding declare_cursor
  declare_cursor-Opened s conn_id sql args =
      then-Opened s conn_id _ _ (buffer_query-IsQuiet conn_id sql args s)
        (buffer_query-Even conn_id sql args s)
