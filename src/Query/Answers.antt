-- ===== src/Query/Answers.antt =====
-- What a statement on a connection is answered with.
use ecto_libsql.Common.{
  ◌≡◌, refl, ap, ◌∙◌, ℕ, true, false, some, List, [], ◌∷◌, ◌++◌, Str, str, as_bytes, lookup,
}
use ecto_libsql.Effect.{Result, ok, err}
use ecto_libsql.Libsql.{Libsql, Error, term, Value, Rows}
use ecto_libsql.State.{State, Mutex, LibSqlConn, safe_lock_free, safe_lock_arc_free}
use ecto_libsql.Text.Pieces.{is_char}
use ecto_libsql.Text.Ends.{any}
use ecto_libsql.Routing.{should_use_query}
use ecto_libsql.Routing.Content.{returns_rows}
use ecto_libsql.Routing.Decision.{routes_to_query-eq-returns_rows}
use ecto_libsql.Values.{decode_args, collect_rows, build_empty_result, QueryResult}
use ecto_libsql.Constraint.{enhanced_message, quote_identifier}
use ecto_libsql.Constraint.Message.{unique_message, IsNames, AllTicks}
use ecto_libsql.Constraint.Lookup.{First, enhanced_message-First}
use ecto_libsql.Query.{query_args, run_on}

should_use_query_eq : (sql : Str) → should_use_query sql ≡ returns_rows (as_bytes sql)
unfolding should_use_query
should_use_query_eq sql = rw (routes_to_query-eq-returns_rows (as_bytes sql)) refl

module _ ⦃L : Libsql⦄ where
  open L use {World, Real, Row, Term, Connection, LibError}

  -- The connection is there, no mutex on the way is poisoned, and the arguments decode.
  pub record Asked (s : State) (conn_id : Str) (args : List Term) (conn : Connection)
      (params : List (Value Real)) : Type 0 where
    pub client : Mutex LibSqlConn
    pub connections_free : s.connections.poisoned ≡ false
    pub connected : lookup conn_id s.connections.content ≡ some client
    pub client_free : client.poisoned ≡ false
    pub conn_free : client.content.client.poisoned ≡ false
    pub conn_eq : client.content.client.content ≡ conn
    pub decoded : decode_args args ≡ ok params

  -- What libsql is asked.
  pub data Answer : Type 0 where
    rows : Rows LibError Row → Answer
    affected : ℕ → Answer
    failure : LibError → Answer

  -- What libsql answers when a statement that the scan of its bytes takes for one with rows is sent
  -- to `query()`, and any other one to `execute()`.
  pub data Answers (conn : Connection) (sql : Str) (params : List (Value Real)) (w : World)
      : Answer → World → Type 0 where
    with_rows :
        {found : Rows LibError Row} {v : World}
        → returns_rows (as_bytes sql) ≡ true
        → L.query conn sql params w ≡ (ok found, v)
        → Answers conn sql params w (rows found) v
    without_rows :
        {n : ℕ} {v : World}
        → returns_rows (as_bytes sql) ≡ false
        → L.execute conn sql params w ≡ (ok n, v)
        → Answers conn sql params w (affected n) v
    query_failed :
        {e : LibError} {v : World}
        → returns_rows (as_bytes sql) ≡ true
        → L.query conn sql params w ≡ (err e, v)
        → Answers conn sql params w (failure e) v
    execute_failed :
        {e : LibError} {v : World}
        → returns_rows (as_bytes sql) ≡ false
        → L.execute conn sql params w ≡ (err e, v)
        → Answers conn sql params w (failure e) v

  -- What the caller gets for it, and the world behind it.
  abbrev pub reply : Connection → Answer → World → Result Error QueryResult × World
  reply conn (rows found) v = collect_rows found v
  reply conn (affected n) v = (ok (build_empty_result n), v)
  reply conn (failure e) v = (
    err (term (enhanced_message conn (L.display e) v).0),
    (enhanced_message conn (L.display e) v).1,
  )

  run_on-Answers :
      (conn : Connection) (sql : Str) (params : List (Value Real)) (w v : World) (a : Answer)
      → Answers conn sql params w a v
      → run_on (returns_rows (as_bytes sql)) conn sql params w ≡ reply conn a v
  unfolding run_on
  run_on-Answers conn sql params w v _ (with_rows r q) = rw (r, q) refl
  run_on-Answers conn sql params w v _ (without_rows r q) = rw (r, q) refl
  run_on-Answers conn sql params w v _ (query_failed r q) = rw (r, q) refl
  run_on-Answers conn sql params w v _ (execute_failed r q) = rw (r, q) refl

  query_args-run_on :
      (s : State) (conn_id sql : Str) (args : List Term) (conn : Connection)
      (params : List (Value Real))
      → Asked s conn_id args conn params
      → query_args conn_id sql args s ≡ (
        (run_on (returns_rows (as_bytes sql)) conn sql params s.world).0,
        record s { world = (run_on (returns_rows (as_bytes sql)) conn sql params s.world).1 },
      )
  unfolding query_args
  query_args-run_on s conn_id sql args conn params a =
      rw
        (
          safe_lock_free s.connections (str "query_args conn_map") a.connections_free,
          a.connected,
          a.decoded,
          safe_lock_arc_free a.client (str "query_args client") a.client_free,
          safe_lock_arc_free a.client.content.client (str "query_args conn") a.conn_free,
          a.conn_eq,
          should_use_query_eq sql,
        )
        refl

  -- On a connection that can be reached, with arguments that decode: a statement that the scan of its
  -- bytes takes for one with rows goes to `query()` of libsql and is answered with what collecting its rows gives, any other one
  -- goes to `execute()` and is answered with the number of rows affected, nothing else is asked, and
  -- where libsql fails the error is its message with what the look-up of a violated index makes of
  -- it. The registries stay as they were.
  pub query_args-Answers :
      (s : State) (conn_id sql : Str) (args : List Term) (conn : Connection)
      (params : List (Value Real)) (a : Answer) (v : World)
      → Asked s conn_id args conn params
      → Answers conn sql params s.world a v
      → query_args conn_id sql args s
        ≡ ((reply conn a v).0, record s { world = (reply conn a v).1 })
  query_args-Answers s conn_id sql args conn params a v asked answers =
      query_args-run_on s conn_id sql args conn params asked
      ∙ ap (λ r. (r.0, record s { world = r.1 }))
          (run_on-Answers conn sql params s.world v a answers)

  -- A statement on a connection that can be reached fails in libsql with the message of a violated
  -- UNIQUE constraint, on names without whitespace, commas, points, colons and backticks, behind
  -- words without a capital U. When libsql lists the table's indexes, and among them the first that
  -- is unique with exactly those columns is found, each look-up being answered, the caller's error
  -- is that message with the index's name behind it.
  pub query_args-explained :
      (s : State) (conn_id sql : Str) (args : List Term) (conn : Connection)
      (params : List (Value Real)) (e : LibError) (front table column : Str) (more : List Str)
      (ticks : Str) (indexes : Rows LibError Row) (index_name : Str) (v x u : World)
      → Asked s conn_id args conn params
      → Answers conn sql params s.world (failure e) v
      → L.display e ≡ unique_message front table column more ticks
      → any (is_char b'U') front ≡ false
      → IsNames table column more
      → AllTicks ticks
      → L.query conn (str "PRAGMA index_list(" ++ (quote_identifier table ++ str ")")) [] v
        ≡ (ok indexes, x)
      → First conn (column ∷ more) indexes x index_name u
      → query_args conn_id sql args s ≡ (
        err (
            term (
              unique_message front table column more (str " (index: " ++ (index_name ++ str ")")))),
        record s { world = u },
      )
  query_args-explained s conn_id sql args conn params e front table column more ticks indexes
        index_name v x u asked answers message h names t listed first =
      let found =
        ap (λ m. enhanced_message conn m v) message
        ∙ enhanced_message-First conn front table column more ticks indexes index_name v x u h names
            t listed first in
      query_args-Answers s conn_id sql args conn params (failure e) v asked answers
      ∙ ap (λ r. (err (term r.0), record s { world = r.1 })) found
