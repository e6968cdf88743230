-- ===== src/Connection/Established.antt =====
-- When `connect` succeeds, and what it opens.
use ecto_libsql.Common.{◌≡◌, refl, ap, some, false, [], Str, str}
use ecto_libsql.Effect.{Result, ok, err, failed, option_inv, call_inv, try_inv, bind_inv}
use ecto_libsql.Libsql.{Libsql, Rows}
use ecto_libsql.State.{LibSqlConn, Mode, local, remote, remote_replica, describe}
use ecto_libsql.Decode.{decode_mode}
use ecto_libsql.Connection.{Options, build_db, ping_remote, keep_pinged, establish}
use ecto_libsql.Connection.Given.{Given}

module _ ⦃L : Libsql⦄ where
  open L use {World, Term, Row, Database, Connection, LibError}

  -- The database of each mode, built with the options that the mode needs and may have.
  abbrev pub Built : Mode → Options → World → Database → World → Type 0
  Built remote_replica o w db v =
      (url token dbname : Str) × (o.url ≡ some url)
      × (o.token ≡ some token)
      × (o.dbname ≡ some dbname)
      × (L.build_remote_replica dbname url token o.encryption_key o.remote_encryption_key w
          ≡ (ok db, v))
  Built remote o w db v =
      (url token : Str) × (o.url ≡ some url)
      × (o.token ≡ some token)
      × (L.build_remote url token o.remote_encryption_key w ≡ (ok db, v))
  Built local o w db v =
      (dbname : Str) × (o.dbname ≡ some dbname)
      × (L.build_local dbname o.encryption_key w ≡ (ok db, v))

  -- The ping of a database over the network has answered.
  abbrev pub Pinged : Mode → Connection → World → World → Type 0
  Pinged local conn w v = w ≡ v
  Pinged _ conn w v =
      (rows : Rows LibError Row) × (L.query conn (str "SELECT 1") [] w ≡ (ok rows, v))

  -- The options and the mode are read, the database is built, connected to and pinged, in this
  -- order.
  pub record Established (opts mode : Term) (db : Database) (conn : Connection) (w v : World)
      : Type 0 where
    pub options : Options
    pub given : Given opts options
    pub mode_atom : Str
    pub mode_read : L.decode_atom mode ≡ some mode_atom
    pub kind : Mode
    pub mode_named : decode_mode mode_atom ≡ some kind
    pub behind : World
    pub built : Built kind options w db behind
    pub later : World
    pub opened : L.open_connection db behind ≡ (ok conn, later)
    pub pinged : Pinged kind conn later v

  abbrev pub new_conn : Database → Connection → LibSqlConn
  new_conn db conn = record { db = db; client = record { poisoned = false; content = conn } }

  build_db-Built :
      (m : Mode) (o : Options) (w : World) (db : Database) (v : World)
      → Built m o w db v
      → build_db m o w ≡ (ok db, v)
  unfolding build_db
  build_db-Built remote_replica o w db v (url, token, dbname, a, b, c, h) = rw (a, b, c, h) refl
  build_db-Built remote o w db v (url, token, a, b, h) = rw (a, b, h) refl
  build_db-Built local o w db v (dbname, a, h) = rw (a, h) refl

  ping_remote-Pinged :
      (m : Mode) (db : Database) (conn : Connection) (w v : World)
      → Pinged m conn w v
      → ping_remote m db conn w ≡ (ok tt, v)
  unfolding ping_remote
  ping_remote-Pinged local db conn w v e = ap (λ x. (ok tt, x)) e
  ping_remote-Pinged remote db conn w v (rows, h) = rw h refl
  ping_remote-Pinged remote_replica db conn w v (rows, h) = rw h refl

  pub establish-Established :
      (opts mode : Term) (db : Database) (conn : Connection) (w v : World)
      (e : Established opts mode db conn w v)
      → establish mode e.options w ≡ (ok (new_conn db conn), v)
  unfolding establish
  establish-Established opts mode db conn w v e =
      rw
        (
          e.mode_read,
          e.mode_named,
          build_db-Built e.kind e.options w db e.behind e.built,
          e.opened,
          ping_remote-Pinged e.kind db conn e.later v e.pinged,
        )
        refl

  build_db_inv :
      (m : Mode) (o : Options) (w : World) (db : Database) (v : World)
      → build_db m o w ≡ (ok db, v)
      → Built m o w db v
  unfolding build_db
  build_db_inv remote_replica o w db v h =
      let (url, a, ha) = option_inv o.url _ _ _ _ _ h in
      let (token, b, hb) = option_inv o.token _ _ _ _ _ ha in
      let (dbname, c, hc) = option_inv o.dbname _ _ _ _ _ hb in
      (url, token, dbname, a, b, c, try_inv _ _ _ _ hc)
  build_db_inv remote o w db v h =
      let (url, a, ha) = option_inv o.url _ _ _ _ _ h in
      let (token, b, hb) = option_inv o.token _ _ _ _ _ ha in (url, token, a, b, try_inv _ _ _ _ hb)
  build_db_inv local o w db v h =
      let (dbname, a, ha) = option_inv o.dbname _ _ _ _ _ h in (dbname, a, try_inv _ _ _ _ ha)

  keep_pinged_inv :
      (db : Database) (conn : Connection) (run : Result LibError (Rows LibError Row) × World)
      (u : Unit {0}) (v : World)
      → keep_pinged db conn run.0 run.1 ≡ (ok u, v)
      → (rows : Rows LibError Row) × (run ≡ (ok rows, v))
  keep_pinged_inv db conn (ok rows, w) u v h = (rows, ap (λ x. (ok rows, x)) (ap (λ r. r.1) h))
  keep_pinged_inv db conn (err e, w) u v h =
      absurd (failed (describe (str "Failed ping") e) (L.drop_conn db conn w) u v _ refl h)

  ping_remote_inv :
      (m : Mode) (db : Database) (conn : Connection) (w : World) (u : Unit {0}) (v : World)
      → ping_remote m db conn w ≡ (ok u, v)
      → Pinged m conn w v
  unfolding ping_remote
  ping_remote_inv local db conn w u v h = ap (λ r. r.1) h
  ping_remote_inv remote db conn w u v h = keep_pinged_inv db conn _ u v h
  ping_remote_inv remote_replica db conn w u v h = keep_pinged_inv db conn _ u v h

  pub establish_inv :
      (opts mode : Term) (o : Options) (w : World) (c : LibSqlConn) (v : World)
      → Given opts o
      → establish mode o w ≡ (ok c, v)
      → (db : Database) × (conn : Connection) × (later : World) × Established opts mode db conn w
          later
  unfolding establish
  establish_inv opts mode o w c v g h =
      let (mode_atom, a, ha) = option_inv (L.decode_atom mode) _ _ _ _ _ h in
      let (kind, b, hb) = option_inv (decode_mode mode_atom) _ _ _ _ _ ha in
      let (db, behind, d, hd) = bind_inv (build_db kind o w) _ _ _ hb in
      let (conn, after, e, he) = call_inv (L.open_connection db behind) _ _ _ _ hd in
      let (u, end, f, hf) = bind_inv (ping_remote kind db conn after) _ _ _ he in
      (
        db,
        conn,
        end,
        record {
          options = o;
          given = g;
          mode_atom = mode_atom;
          mode_read = a;
          kind = kind;
          mode_named = b;
          behind = behind;
          built = build_db_inv kind o w db behind d;
          later = after;
          opened = e;
          pinged = ping_remote_inv kind db conn after u end f;
        },
      )
