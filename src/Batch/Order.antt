-- ===== src/Batch/Order.antt =====
-- The order in which the statements of a batch run.
use ecto_libsql.Common.{◌≡◌, refl, List, [], ◌∷◌, ◌++◌, Str, false}
use ecto_libsql.Effect.{Result, ok, err}
use ecto_libsql.Libsql.{Libsql, Error, term, Value, Rows}
use ecto_libsql.State.{Mutex, LibSqlConn, safe_lock_arc}
use ecto_libsql.Values.{QueryResult, collect_rows}
use ecto_libsql.Batch.{run_batch, run_in_transaction, batch_error, roll_back}

module _ ⦃L : Libsql⦄ where
  open L use {World, Real, LibError, Row, Transaction}

  -- A statement with its arguments, as the database is asked for it.
  abbrev pub Ask : Type 0
  Ask = Str → List (Value Real) → World → Result LibError (Rows LibError Row) × World

  -- All statements have succeeded, in order, each in the world that the one before has left.
  pub data Ran (ask : Ask)
      : World → List (Str × List (Value Real)) → List QueryResult → World → Type 0 where
    done : (w : World) → Ran ask w [] [] w
    step :
        (w v u : World) (sql : Str) (args : List (Value Real)) (rows : Rows LibError Row)
        (r : QueryResult) (more : List (Str × List (Value Real))) (rs : List QueryResult)
        → (ask sql args w).0 ≡ ok rows
        → collect_rows rows (ask sql args w).1 ≡ (ok r, v)
        → Ran ask v more rs u
        → Ran ask w ((sql, args) ∷ more) (r ∷ rs) u

  -- A transactional batch whose statements all succeed is committed behind the last of them, and
  -- returns their results if the commit succeeds.
  pub batch_commits :
      (trx : Transaction) (w u : World) (stmts : List (Str × List (Value Real)))
      (rs : List QueryResult)
      → Ran (L.trx_query trx) w stmts rs u
      → (L.commit trx u).0 ≡ ok tt
      → run_in_transaction trx stmts w ≡ (ok rs, (L.commit trx u).1)
  unfolding run_in_transaction
  batch_commits trx w u stmts rs (done _) c = rw c refl
  batch_commits trx w u stmts rs (step _ v _ sql args rows r more rs' a b ran) c =
      rw (a, b, batch_commits trx v u more rs' ran c) refl

  -- A statement fails: the database refuses it, or collecting its rows fails.
  pub data Fails (ask : Ask) (sql : Str) (args : List (Value Real)) (u : World) : Type 0 where
    refused : (e : LibError) (v : World) → ask sql args u ≡ (err e, v) → Fails ask sql args u
    unread :
        (rows : Rows LibError Row) (v : World) (e : Error) (x : World)
        → ask sql args u ≡ (ok rows, v)
        → collect_rows rows v ≡ (err e, x)
        → Fails ask sql args u

  -- The error for it, and the world behind it.
  abbrev pub failure :
      {ask : Ask} {sql : Str} {args : List (Value Real)} {u : World}
      → Fails ask sql args u
      → Error × World
  failure (refused e v h) = (batch_error e, v)
  failure (unread rows v e x h k) = (term (L.debug_error e), x)

  -- What becomes of the transaction then: it is rolled back, or dropped.
  abbrev pub left_by :
      {ask : Ask} {sql : Str} {args : List (Value Real)} {u : World}
      → Transaction
      → Fails ask sql args u
      → World
  left_by trx (refused e v h) = (L.rollback trx v).1
  left_by trx (unread rows v e x h k) = L.drop_trx trx x

  -- When a statement of a transactional batch fails, those before it having succeeded, none of the
  -- statements behind it is run and nothing is committed. If the database refused the statement,
  -- the transaction is rolled back right away and the error is the database's; if collecting its
  -- rows failed, the transaction is not rolled back but dropped, and the error is the collecting's.
  pub batch_rolls_back :
      (trx : Transaction) (w u : World) (stmts more : List (Str × List (Value Real)))
      (rs : List QueryResult) (sql : Str) (args : List (Value Real))
      (f : Fails (L.trx_query trx) sql args u)
      → Ran (L.trx_query trx) w stmts rs u
      → run_in_transaction trx (stmts ++ (sql, args) ∷ more) w ≡ (err (failure f).0, left_by trx f)
  unfolding run_in_transaction roll_back
  batch_rolls_back trx w u stmts more rs sql args (refused e v h) (done _) = rw h refl
  batch_rolls_back trx w u stmts more rs sql args (unread found v e x h k) (done _) = rw (h, k) refl
  batch_rolls_back trx w u stmts more rs sql args f (step _ v _ q a rows r rest rs' h b ran) =
      rw (h, b, batch_rolls_back trx v u rest more rs' sql args f ran) refl

  -- What stands behind the statements that have succeeded: nothing, or one that fails, and others.
  pub data Ending (ask : Ask) (u : World) : Type 0 where
    finished : Ending ask u
    failing :
        (sql : Str) (args : List (Value Real)) (more : List (Str × List (Value Real)))
        → Fails ask sql args u
        → Ending ask u

  abbrev pub remaining : {ask : Ask} {u : World} → Ending ask u → List (Str × List (Value Real))
  remaining finished = []
  remaining (failing sql args more f) = (sql, args) ∷ more

  abbrev pub outcome :
      {ask : Ask} {u : World}
      → List QueryResult
      → Ending ask u
      → Result Error (List QueryResult) × World
  outcome {u = u} rs finished = (ok rs, u)
  outcome rs (failing sql args more f) = (err (failure f).0, (failure f).1)

  -- Without a transaction, on a connection that is not poisoned: a batch of statements that all
  -- succeed returns their results in order. When one of them fails, whether the database refuses
  -- it or its rows cannot be collected, the call stops there with its error; those before it have
  -- taken effect, and none of those behind it is run.
  pub batch_stops :
      (client : Mutex LibSqlConn) (w u : World) (stmts : List (Str × List (Value Real)))
      (rs : List QueryResult) (ending : Ending (L.query client.content.client.content) u)
      → client.poisoned ≡ false
      → client.content.client.poisoned ≡ false
      → Ran (L.query client.content.client.content) w stmts rs u
      → run_batch client (stmts ++ remaining ending) w ≡ outcome rs ending
  unfolding run_batch safe_lock_arc
  batch_stops client w u stmts rs finished p q (done _) = refl
  batch_stops client w u stmts rs (failing sql args more (refused e v h)) p q (done _) =
      rw (p, q, h) refl
  batch_stops client w u stmts rs (failing sql args more (unread found v e x h k)) p q (done _) =
      rw (p, q, h, k) refl
  batch_stops client w u stmts rs finished p q (step _ v _ s a rows r rest rs' h b ran) =
      rw (p, q, h, b, batch_stops client v u rest rs' finished p q ran) refl
  batch_stops client w u stmts rs (failing sql args more f) p q
        (step _ v _ s a rows r rest rs' h b ran) =
      rw (p, q, h, b, batch_stops client v u rest rs' (failing sql args more f) p q ran) refl
