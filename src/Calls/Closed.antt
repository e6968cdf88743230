-- ===== src/Calls/Closed.antt =====
-- Calls on a connection that was closed.
use ecto_libsql.Common.{
  ◌≡◌, ◌≢◌, refl, ap, ◌∙◌, inl, inr, Bool-cases, none, some, List, [], ◌∷◌, Str, str, str_eq,
  str_eq_iff, str_eq_refl, lookup, arith, ℕ,
}
use ecto_libsql.Effect.{Result, ok, err}
use ecto_libsql.Libsql.{Libsql, Error}
use ecto_libsql.State.{State}
use ecto_libsql.Connection.{connect, close}
use ecto_libsql.Connection.Closing.{ClosedOrSame, Closed, Without, close-Closed}
use ecto_libsql.Connection.Connected.{ConnectedOrQuiet, connect-Connected}
use ecto_libsql.Isolation.Begin.{Registers, begin-Registers}
use ecto_libsql.Statement.Prepare.{PreparedOrQuiet, prepare_statement-Prepared}
use ecto_libsql.Cursor.Declare.{OpenedOrQuiet, declare_cursor-Opened}
use ecto_libsql.Cursor.Context.{DeclaredOrSame, declare_cursor_with_context-Declared}
use ecto_libsql.Cursor.Outcome.{Outcome, unmoved, moved, fetch-Outcome}
use ecto_libsql.Calls.Effects.{Finishes, run-Leaves}
use ecto_libsql.Calls.Unreachable.{absent}
use ecto_libsql.Calls.Rejected.{Rejected, on_connection, Unreachable-Rejected}
use ecto_libsql.Calls.{Call, run, run_all}

module _ ⦃L : Libsql⦄ where
  -- A call that does not issue the identifier to a new connection.
  abbrev pub ReissuesNot : Str → Call → State → Type 0
  ReissuesNot conn_id (Call.connect opts mode) s = (connect opts mode s).0 ≢ ok conn_id
  ReissuesNot conn_id c s = Unit

  abbrev pub NoneReissues : Str → List Call → State → Type 0
  NoneReissues conn_id [] s = Unit
  NoneReissues conn_id (c ∷ cs) s = ReissuesNot conn_id c s × NoneReissues conn_id cs (run c s)

  abbrev pub Absent : Str → State → Type 0
  Absent conn_id s = lookup conn_id s.connections.content ≡ none

  abbrev Missing : Str → State → State → Type 0
  Missing conn_id s t = Absent conn_id s → Absent conn_id t

  same-Missing : (conn_id : Str) (s t : State) → t.connections ≡ s.connections → Missing conn_id s t
  same-Missing conn_id s t e a = ap (λ m. lookup conn_id m.content) e ∙ a

  Without-Missing :
      (conn_id id : Str) (s t : State)
      → Without id s.connections t.connections
      → Missing conn_id s t
  Without-Missing conn_id id s t w a = w conn_id ∙ ground (arith, a)

  closed-Missing :
      (conn_id id opt : Str) (s t : State) (r : Result Error (Unit {0}))
      → ClosedOrSame s id opt (r, t)
      → Missing conn_id s t
  closed-Missing conn_id id opt s t (ok _) (Closed.connection c o l w r v) =
      Without-Missing conn_id id s t w
  closed-Missing conn_id id opt s t (ok _) (Closed.transaction e o l w r v) =
      same-Missing conn_id s t r.0
  closed-Missing conn_id id opt s t (ok _) (Closed.statement e o l w r v) =
      same-Missing conn_id s t r.0
  closed-Missing conn_id id opt s t (ok _) (Closed.cursor c o l w r v) =
      same-Missing conn_id s t r.0
  closed-Missing conn_id id opt s t (err e) h = same-Missing conn_id s t (ap (λ x. x.connections) h)

  Connected-Missing :
      (conn_id : Str) (s : State) (run : Result Error Str × State)
      → ConnectedOrQuiet s run
      → run.0 ≢ ok conn_id
      → Missing conn_id s run.1
  Connected-Missing conn_id s (ok id, t) c n a =
      c.others conn_id (elim (Bool-cases (str_eq id conn_id)) [
        | inl e ↦ absurd (n (ap ok ((str_eq_iff id conn_id).0 e)))
        | inr e ↦ e
      ])
      ∙ a
  Connected-Missing conn_id s (err e, t) q n a = same-Missing conn_id s t q.quiet_connections a

  Registers-Missing :
      (conn_id c : Str) (s : State) (run : Result Error Str × State)
      → Registers s c run
      → Missing conn_id s run.1
  Registers-Missing conn_id c s (ok id, t) h = same-Missing conn_id s t h.same_rest.0
  Registers-Missing conn_id c s (err e, t) h = same-Missing conn_id s t h.1

  Prepared-Missing :
      (conn_id c : Str) (s : State) (run : Result Error Str × State)
      → PreparedOrQuiet s c run
      → Missing conn_id s run.1
  Prepared-Missing conn_id c s (ok id, t) h = same-Missing conn_id s t h.same_rest.0
  Prepared-Missing conn_id c s (err e, t) h = same-Missing conn_id s t h.quiet_connections

  Opened-Missing :
      (conn_id c : Str) (s : State) (run : Result Error Str × State)
      → OpenedOrQuiet s c run
      → Missing conn_id s run.1
  Opened-Missing conn_id c s (ok id, t) h = same-Missing conn_id s t h.same_rest.0
  Opened-Missing conn_id c s (err e, t) h = same-Missing conn_id s t h.quiet_connections

  Declared-Missing :
      (conn_id c : Str) (s : State) (run : Result Error Str × State)
      → DeclaredOrSame s c run
      → Missing conn_id s run.1
  Declared-Missing conn_id c s (ok id, t) h =
      same-Missing conn_id s t (h.opened.same_rest.0 ∙ h.restored.same_connections)
  Declared-Missing conn_id c s (err e, t) h = same-Missing conn_id s t h.same_connections

  Outcome-Missing :
      (conn_id c k : Str) (n : ℕ) (s t : State) → Outcome s c k n t → Missing conn_id s t
  Outcome-Missing conn_id c k n s t (unmoved q) = same-Missing conn_id s t q.quiet_connections
  Outcome-Missing conn_id c k n s t (moved d h m r) = same-Missing conn_id s t r.0

  Finishes-Missing :
      (conn_id trx_id c param : Str) (s t : State)
      → Finishes s trx_id c param t
      → Missing conn_id s t
  Finishes-Missing conn_id trx_id c param s t (inl h) = same-Missing conn_id s t h.same_connections
  Finishes-Missing conn_id trx_id c param s t (inr (e, l, o, (r, f))) =
      same-Missing conn_id s t f.same_rest.0

  -- A call leaves the identifier unknown, but for a connect that issues it.
  run-Missing :
      (conn_id : Str) (s : State) (c : Call) → ReissuesNot conn_id c s → Missing conn_id s (run c s)
  unfolding run
  run-Missing conn_id s (Call.connect opts mode) n =
      Connected-Missing conn_id s _ (connect-Connected s opts mode) n
  run-Missing conn_id s (Call.begin_transaction c) n =
      Registers-Missing conn_id c s _ (begin-Registers s c []).0
  run-Missing conn_id s (Call.begin_transaction_with_behavior c behavior) n =
      Registers-Missing conn_id c s _ (begin-Registers s c behavior).1
  run-Missing conn_id s (Call.prepare_statement c sql) n =
      Prepared-Missing conn_id c s _ (prepare_statement-Prepared s c sql)
  run-Missing conn_id s (Call.declare_cursor c sql args) n =
      Opened-Missing conn_id c s _ (declare_cursor-Opened s c sql args)
  run-Missing conn_id s (Call.declare_cursor_with_context c id id_type sql args) n =
      Declared-Missing conn_id c s _ (declare_cursor_with_context-Declared s c id id_type sql args)
  run-Missing conn_id s (Call.fetch_cursor c k m) n =
      Outcome-Missing conn_id c k m s _ (fetch-Outcome s c k m)
  run-Missing conn_id s (Call.commit_or_rollback_transaction trx_id c param) n =
      Finishes-Missing conn_id trx_id c param s _
        (run-Leaves s (Call.commit_or_rollback_transaction trx_id c param))
  run-Missing conn_id s (Call.close id opt) n =
      closed-Missing conn_id id opt s _ _ (close-Closed s id opt)
  run-Missing conn_id s c n = same-Missing conn_id s (run c s) (run-Leaves s c).same_connections

  run_all-Missing :
      (conn_id : Str) (cs : List Call) (s : State)
      → NoneReissues conn_id cs s
      → Missing conn_id s (run_all cs s)
  unfolding run_all
  run_all-Missing conn_id [] s n a = a
  run_all-Missing conn_id (c ∷ cs) s (n, ns) a =
      run_all-Missing conn_id cs (run c s) ns (run-Missing conn_id s c n a)

  closed-Absent :
      (conn_id : Str) (s t : State) (r : Result Error (Unit {0}))
      → ClosedOrSame s conn_id (str "conn_id") (r, t)
      → r ≡ ok tt
      → Absent conn_id t
  unfolding str str_eq
  closed-Absent conn_id s t (ok _) (Closed.connection c o l w r v) h =
      w conn_id ∙ rw (str_eq_refl conn_id) refl
  closed-Absent conn_id s t (ok _) (Closed.transaction e o l w r v) h = cc
  closed-Absent conn_id s t (ok _) (Closed.statement e o l w r v) h = cc
  closed-Absent conn_id s t (ok _) (Closed.cursor c o l w r v) h = cc
  closed-Absent conn_id s t (err e) same h = cc

  close-Absent :
      (conn_id : Str) (s : State)
      → (close conn_id (str "conn_id") s).0 ≡ ok tt
      → Absent conn_id (close conn_id (str "conn_id") s).1
  close-Absent conn_id s h = closed-Absent conn_id s _ _ (close-Closed s conn_id (str "conn_id")) h

  pub closed-Rejected :
      (s : State) (conn_id : Str) (cs : List Call) (c : Call)
      → (close conn_id (str "conn_id") s).0 ≡ ok tt
      → NoneReissues conn_id cs (run (Call.close conn_id (str "conn_id")) s)
      → on_connection c ≡ some conn_id
      → Rejected c (run_all cs (run (Call.close conn_id (str "conn_id")) s))
  unfolding run
  closed-Rejected s conn_id cs c closed issued on =
      Unreachable-Rejected _ conn_id c
        (absent (run_all-Missing conn_id cs _ issued (close-Absent conn_id s closed))) on
