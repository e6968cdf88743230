-- ===== src/Connection/Succeeds.antt =====
-- What `connect` registers, and when it succeeds.
use ecto_libsql.Common.{
  ◌≡◌, subst, ◌↔◌, refl, sym, ap, ◌∙◌, some, inl, inr, false, Str, str, insert,
}
use ecto_libsql.Effect.{Result, ok, err, Result-cases, failed, then_run}
use ecto_libsql.Libsql.{Libsql, Error}
use ecto_libsql.State.{State, LibSqlConn, safe_lock, safe_lock_free}
use ecto_libsql.Query.{default_sync_timeout_secs}
use ecto_libsql.Connection.{Options, read_options, establish, connect_to, connect, register}
use ecto_libsql.Connection.Given.{read_options-Given, Given-read_options}
use ecto_libsql.Connection.Established.{Established, new_conn, establish-Established, establish_inv}

module _ ⦃L : Libsql⦄ where
  open L use {World, Term, Database, Connection}

  -- With the options that this call has read, what is to be done is done before the timeout.
  abbrev pub InTime : Result Error Options → Term → World → Type 0
  InTime (err e) mode w = Unit
  InTime (ok o) mode w =
      L.timeout (Result Error LibSqlConn) default_sync_timeout_secs (establish mode o) w
      ≡ (some (establish mode o w).0, (establish mode o w).1)

  -- The answer and the state with the new connection, in a world that has given out its identifier.
  abbrev pub opened : State → Database → Connection → World → Result Error Str × State
  opened s db conn v = (
    ok (L.new_v4 v).0,
    record s {
      connections = record {
        poisoned = s.connections.poisoned;
        content =
            insert (L.new_v4 v).0 (record { poisoned = false; content = new_conn db conn })
              s.connections.content;
      };
      world = (L.new_v4 v).1;
    },
  )

  abbrev after : State → Result Error LibSqlConn × World → Result Error LibSqlConn × State
  after s run = (run.0, record s { world = run.1 })

  read-InTime :
      (r : Result Error Options) (o : Options) (mode : Term) (w : World)
      → r ≡ ok o
      → InTime r mode w
      → InTime (ok o) mode w
  read-InTime r o mode w read time = subst (λ x. InTime x mode w) read time

  connect_eq :
      (s : State) (opts mode : Term) (o : Options)
      → InTime (ok o) mode s.world
      → read_options opts ≡ ok o
      → connect opts mode s ≡ then_run (after s (establish mode o s.world)) register
  unfolding connect connect_to
  connect_eq s opts mode o time read = rw (read, time) refl

  connect_unread :
      (s : State) (opts mode : Term) (e : Error)
      → read_options opts ≡ err e
      → connect opts mode s ≡ (err e, s)
  unfolding connect connect_to
  connect_unread s opts mode e read = rw read refl

  register_eq :
      (s : State) (db : Database) (conn : Connection) (v : World)
      → s.connections.poisoned ≡ false
      → register (new_conn db conn) (record s { world = v }) ≡ opened s db conn v
  unfolding register safe_lock insert
  register_eq s db conn v free =
      rw (safe_lock_free s.connections (str "connect conn_registry") free) refl

  connects :
      (s : State) (opts mode : Term) (db : Database) (conn : Connection) (v : World)
      → s.connections.poisoned ≡ false
      → InTime (read_options opts) mode s.world
      → Established opts mode db conn s.world v
      → connect opts mode s ≡ opened s db conn v
  connects s opts mode db conn v free time e =
      connect_eq s opts mode e.options
        (read-InTime _ _ mode s.world (Given-read_options opts e.options e.given) time)
        (Given-read_options opts e.options e.given)
      ∙ ap (λ run. then_run (after s run) register)
          (establish-Established opts mode db conn s.world v e)
      ∙ register_eq s db conn v free

  registered_inv :
      (s : State) (run : Result Error LibSqlConn × World) (conn_id : Str) (t : State)
      → then_run (after s run) register ≡ (ok conn_id, t)
      → (c : LibSqlConn) × (v : World) × (run ≡ (ok c, v))
  registered_inv s (ok c, v) conn_id t h = (c, v, refl)
  registered_inv s (err e, v) conn_id t h =
      absurd (failed e (record s { world = v }) conn_id t _ refl h)

  connected_inv :
      (s : State) (opts mode : Term) (conn_id : Str) (t : State)
      → InTime (read_options opts) mode s.world
      → connect opts mode s ≡ (ok conn_id, t)
      → (db : Database) × (conn : Connection) × (v : World) × Established opts mode db conn s.world
          v
  connected_inv s opts mode conn_id t time h = elim (Result-cases (read_options opts)) [
    | inr (e, read) ↦ absurd (failed e s conn_id t _ (connect_unread s opts mode e read) h)
    | inl (o, read) ↦
        let (c, v, run) =
          registered_inv s (establish mode o s.world) conn_id t
            (sym (connect_eq s opts mode o (read-InTime _ o mode s.world read time) read) ∙ h) in
        establish_inv opts mode o s.world c v (read_options-Given opts o read) run
  ]

  -- A call of connect that, with the options it has read, does not run into its timeout, and whose
  -- registry is not poisoned,
  -- succeeds exactly when the keyword list and the mode can be read, the database of that mode is
  -- built from the values that the list gives last for its keys, with all that the mode needs, a
  -- connection is opened, and, unless the mode is local, it answers a ping; the answer is then the
  -- new identifier, and the state has this database and connection under it.
  pub connect-Established :
      (s : State) (opts mode : Term) (conn_id : Str) (t : State)
      → s.connections.poisoned ≡ false
      → InTime (read_options opts) mode s.world
      → (connect opts mode s ≡ (ok conn_id, t)) ↔ (
          (db : Database) × (conn : Connection) × (v : World) × Established opts mode db conn
            s.world v
          × (opened s db conn v ≡ (ok conn_id, t)))
  connect-Established s opts mode conn_id t free time = (
    λ h.
        let (db, conn, v, e) = connected_inv s opts mode conn_id t time h in
        (db, conn, v, e, sym (connects s opts mode db conn v free time e) ∙ h),
    λ x. let (db, conn, v, e, q) = x in connects s opts mode db conn v free time e ∙ q,
  )
