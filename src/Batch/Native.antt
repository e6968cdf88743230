-- ===== src/Batch/Native.antt =====
-- What the native batches answer with.
use ecto_libsql.Common.{◌≡◌, refl, Option, none, some, false, List, [], ◌∷◌, Str, str, lookup}
use ecto_libsql.Effect.{Result, ok, err, pure, then_run, ◌>>=◌}
use ecto_libsql.Libsql.{Libsql, Error, Rows}
use ecto_libsql.State.{State, Mutex, LibSqlConn, safe_lock_free, safe_lock_arc}
use ecto_libsql.Values.{QueryResult}
use ecto_libsql.Values.Collected.{Readable, counted, collect_rows-buffer_rows}
use ecto_libsql.Cursor.{buffer_rows}
use ecto_libsql.Cursor.Fetch.{Allocates}
use ecto_libsql.Batch.{collect_batch, execute_batch_native, execute_transactional_batch_native}

module _ ⦃L : Libsql⦄ where
  open L use {World, Row, LibError}

  abbrev Answers : Type 0
  Answers = Result Error (List (Option QueryResult))

  abbrev behind : Option QueryResult → Answers → Answers
  behind r (ok rs) = ok (r ∷ rs)
  behind r (err e) = err e

  abbrev answered : Result Error QueryResult → Answers → Answers
  answered (ok r) more = behind (some r) more
  answered (err e) more = err e

  -- One answer for each statement, `none` for one that was not executed; the first result that
  -- cannot be read decides the error.
  abbrev pub answers : List (Option (Rows LibError Row)) → Answers
  answers [] = ok []
  answers (none ∷ more) = behind none (answers more)
  answers (some rows ∷ more) = answered (counted (buffer_rows [] [] rows)) (answers more)

  none_answered :
      (a : Answers) (w : World) → then_run (a, w) (λ rs. pure (none ∷ rs)) ≡ (behind none a, w)
  none_answered (ok rs) w = refl
  none_answered (err e) w = refl

  some_answered :
      (r : QueryResult) (a : Answers) (w : World)
      → then_run (a, w) (λ rs. pure (some r ∷ rs)) ≡ (behind (some r) a, w)
  some_answered r (ok rs) w = refl
  some_answered r (err e) w = refl

  first_answered :
      (more : List (Option (Rows LibError Row))) (w : World)
      → collect_batch more w ≡ (answers more, w)
      → (c : Result Error QueryResult)
      → then_run (c, w) (λ r. collect_batch more >>= λ rs. pure (some r ∷ rs))
        ≡ (answered c (answers more), w)
  first_answered more w h (ok c) = rw h (some_answered c (answers more) w)
  first_answered more w h (err e) = refl

  collect_batch-answers :
      Readable
      → Allocates
      → (list : List (Option (Rows LibError Row))) (w : World)
      → collect_batch list w ≡ (answers list, w)
  unfolding collect_batch
  collect_batch-answers r a [] w = refl
  collect_batch-answers r a (none ∷ more) w =
      rw (collect_batch-answers r a more w) (none_answered (answers more) w)
  collect_batch-answers r a (some rows ∷ more) w =
      rw (collect_rows-buffer_rows r a rows w) (
        first_answered more w (collect_batch-answers r a more w) (counted (buffer_rows [] [] rows)))

  -- The connection is there, and no mutex on the way to it is poisoned.
  pub record Reachable (s : State) (conn_id : Str) (client : Mutex LibSqlConn) : Type 0 where
    pub connections_free : s.connections.poisoned ≡ false
    pub connected : lookup conn_id s.connections.content ≡ some client
    pub client_free : client.poisoned ≡ false
    pub conn_free : client.content.client.poisoned ≡ false

  -- On a connection that can be reached, where every cell can be read and every binary allocated: if
  -- libsql runs the statements, each native batch answers with one result for each of them, in
  -- their order, each with its columns, its rows and their number, or with `nil` for a statement
  -- that was not executed, or it fails with the error of the first result that breaks off.
  pub native_batches-answers :
      (s : State) (conn_id sql : Str) (client : Mutex LibSqlConn)
      (list atomic : List (Option (Rows LibError Row)))
      → Reachable s conn_id client
      → Readable
      → Allocates
      → (L.execute_batch client.content.client.content sql s.world).0 ≡ ok list
      → (L.execute_transactional_batch client.content.client.content sql s.world).0 ≡ ok atomic
      → ((execute_batch_native conn_id sql s).0 ≡ answers list)
        × ((execute_transactional_batch_native conn_id sql s).0 ≡ answers atomic)
  unfolding execute_batch_native execute_transactional_batch_native safe_lock_arc
  native_batches-answers s conn_id sql client list atomic h r a e f = (
    rw
        (
          safe_lock_free s.connections (str "execute_batch_native conn_map") h.connections_free,
          h.connected,
          h.client_free,
          h.conn_free,
          e,
          collect_batch-answers r a list _,
        )
        refl,
    rw
        (
          safe_lock_free s.connections (str "execute_transactional_batch_native conn_map")
              h.connections_free,
          h.connected,
          h.client_free,
          h.conn_free,
          f,
          collect_batch-answers r a atomic _,
        )
        refl,
  )
