-- ===== src/Values/Collected.antt =====
-- `collect_rows` of utils.rs and the loop of cursor.rs on the same rows.
use ecto_libsql.Common.{◌≡◌, refl, ℕ, ◌+◌, List, [], ◌∷◌, Str, length}
use ecto_libsql.Effect.{Result, ok, err, pure, then_run}
use ecto_libsql.Libsql.{
  Libsql, Error, Value, null, integer, real, text, blob, Rows, finish, failed, next,
}
use ecto_libsql.Values.{
  named_columns, read_cell, read_cells, collect_from, collect_rows, QueryResult,
}
use ecto_libsql.Cursor.{row_values, buffer_rows}
use ecto_libsql.Cursor.Fetch.{Allocates}

module _ ⦃L : Libsql⦄ where
  open L use {World, Real, Row, LibError}

  -- Every cell can be read.
  abbrev pub Readable : Type 0
  Readable = (row : Row) (i : ℕ) → (v : Value Real) × (L.get row i ≡ ok v)

  -- The rows with their number.
  abbrev pub counted : Result Error (List Str × List (List (Value Real))) → Result Error QueryResult
  counted (ok found) = ok (record { columns = found.0; rows = found.1; num_rows = length found.1 })
  counted (err e) = err e

  read_cell-ok :
      Allocates
      → (name : Str) (i : ℕ) (v : Value Real) (w : World) → read_cell name i (ok v) w ≡ (ok v, w)
  unfolding read_cell
  read_cell-ok a name i null w = refl
  read_cell-ok a name i (integer n) w = refl
  read_cell-ok a name i (real x) w = refl
  read_cell-ok a name i (text t) w = refl
  read_cell-ok a name i (blob b) w = rw (a (length b) w)

  read_cells-row_values :
      Readable
      → Allocates
      → (row : Row) (i : ℕ) (names : List Str) (w : World)
      → read_cells row i names w ≡ (ok (row_values row i names), w)
  unfolding read_cells row_values
  read_cells-row_values r a row i [] w = refl
  read_cells-row_values r a row i (name ∷ names) w =
      let (v, e) = r row i in
      rw (e, read_cell-ok a name i v w, read_cells-row_values r a row (i + 1) names w) refl

  collect_from-buffer_rows :
      Readable
      → Allocates
      → (columns : List Str) (rows : List (List (Value Real))) (found : Rows LibError Row)
        (w : World)
      → collect_from columns rows found w ≡ (buffer_rows columns rows found, w)
  unfolding collect_from buffer_rows
  collect_from-buffer_rows r a columns rows finish w = refl
  collect_from-buffer_rows r a columns rows (failed e) w = refl
  collect_from-buffer_rows r a columns rows (next row rest) w =
      rw (read_cells-row_values r a row 0 (named_columns row columns) w)
        (collect_from-buffer_rows r a (named_columns row columns) _ rest w)

  counted-run :
      (b : Result Error (List Str × List (List (Value Real)))) (w : World)
      → then_run
          (b, w)
          (λ found. pure (record { columns = found.0; rows = found.1; num_rows = length found.1 }))
        ≡ (counted b, w)
  counted-run (ok found) w = refl
  counted-run (err e) w = refl

  -- Where every cell can be read and every binary allocated, what a query answers with at once is
  -- what a cursor over the same result buffers, the same columns and rows or the same error, with
  -- the number of the rows.
  pub collect_rows-buffer_rows :
      Readable
      → Allocates
      → (found : Rows LibError Row) (w : World)
      → collect_rows found w ≡ (counted (buffer_rows [] [] found), w)
  unfolding collect_rows
  collect_rows-buffer_rows r a found w =
      rw (collect_from-buffer_rows r a [] [] found w) (counted-run (buffer_rows [] [] found) w)
