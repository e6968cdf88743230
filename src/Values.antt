-- ===== src/Values.antt =====
-- `decode_term_to_value`, `build_empty_result` and `collect_rows` of utils.rs. An encoded term of
-- a result is the value itself; only the allocation of a binary for a blob can fail.
pub mod Collected
pub mod Typed
use ecto_libsql.Common.{
  ℕ, zero, suc, ◌+◌, Bool, false, Option, none, some, List, [], ◌∷◌, ◌++◌, Str, str, str_eq,
  if◌then◌else◌, length,
}
use ecto_libsql.Effect.{Result, ok, err, Eff, pure, fail, peek, map_err, ◌>>=◌}
use ecto_libsql.Libsql.{
  Libsql, Error, term, Value, null, integer, real, text, blob, pos, Rows, finish, failed, next,
}
use ecto_libsql.Text.{decimal}

-- `atom == nil()`, where the term is an atom.
abbrev pub is_nil : Option Str → Bool
is_nil none = false
is_nil (some a) = str_eq a (str "nil")

module _ ⦃L : Libsql⦄ where
  open L use {Term, Row, Real, World, LibError}

  -- The last decoders of the chain.
  decode_binary_value : Term → Result Str (Value Real)
  decode_binary_value t = elim (L.decode_binary t) [
    | some v ↦ ok (blob v)
    | none ↦ elim (L.decode_bytes t) [
      | some v ↦ ok (blob v)
      | none ↦ err (str "Unsupported argument type: " ++ L.debug_term t)
    ]
  ]

  decode_tuple_value : Term → Result Str (Value Real)
  unfolding decode_binary_value
  decode_tuple_value t = elim (L.decode_atom_bytes t) [
    | some (a, v) ↦
        if str_eq a (str "blob")
        then ok (blob v)
        else err (str "Unsupported atom tuple: " ++ L.debug_atom a)
    | none ↦ decode_binary_value t
  ]

  decode_scalar_value : Term → Result Str (Value Real)
  unfolding decode_tuple_value
  decode_scalar_value t = elim (L.decode_i64 t) [
    | some v ↦ ok (integer v)
    | none ↦ elim (L.decode_f64 t) [
      | some v ↦ ok (real v)
      | none ↦ elim (L.decode_bool t) [
        | some v ↦ ok (integer (pos (if v then 1 else 0)))
        | none ↦ elim (L.decode_string t) [ some v ↦ ok (text v) | none ↦ decode_tuple_value t ]
      ]
    ]
  ]

  unfoldable pub decode_term_to_value : Term → Result Str (Value Real)
  unfolding decode_scalar_value
  decode_term_to_value t = if is_nil (L.decode_atom t) then ok null else decode_scalar_value t

  push_value :
      Result Str (Value Real) → Result Str (List (Value Real)) → Result Str (List (Value Real))
  push_value (err e) rest = err e
  push_value (ok v) (err e) = err e
  push_value (ok v) (ok vs) = ok (v ∷ vs)

  decode_all : List Term → Result Str (List (Value Real))
  unfolding decode_term_to_value push_value
  decode_all [] = ok []
  decode_all (t ∷ ts) = push_value (decode_term_to_value t) (decode_all ts)

  -- `args.into_iter().map(decode_term_to_value).collect::<Result<_, _>>().map_err(..)`: the first
  -- argument that cannot be decoded decides the error.
  unfoldable pub decode_args : List Term → Result Error (List (Value Real))
  unfolding decode_all
  decode_args args = map_err term (decode_all args)

  -- The map with the keys `columns`, `rows` and `num_rows`.
  pub record QueryResult : Type 0 where
    pub columns : List Str
    pub rows : List (List (Value Real))
    pub num_rows : ℕ

  unfoldable pub build_empty_result : ℕ → QueryResult
  build_empty_result rows_affected = record { columns = []; rows = []; num_rows = rows_affected }

  abbrev column_label : Row → ℕ → Str
  column_label row i = elim (L.column_name row i) [
    | some name ↦ name
    | none ↦ str "col" ++ decimal i
  ]

  columns_from : Row → ℕ → ℕ → List Str
  columns_from row i zero = []
  columns_from row i (suc left) = column_label row i ∷ columns_from row (i + 1) left

  -- The columns are named by the first row; while there is none yet, by the row at hand.
  unfoldable pub named_columns : Row → List Str → List Str
  unfolding columns_from
  named_columns row [] = columns_from row 0 (L.column_count row)
  named_columns row (c ∷ cs) = c ∷ cs

  in_column : Str → ℕ → Str
  in_column name i = str "column '" ++ (name ++ (str "' (index " ++ (decimal i ++ str ")")))

  -- The term of one column of a row.
  read_cell : Str → ℕ → Result LibError (Value Real) → Eff Error World (Value Real)
  unfolding in_column
  read_cell name i (ok (blob v)) = do
    allocated ← peek (L.allocates (length v))
    if allocated
        then pure (blob v)
        else fail (term (str "Failed to allocate binary for " ++ in_column name i))
  read_cell name i (ok v) = pure v
  read_cell name i (err e) =
      fail (term (str "Failed to read " ++ (in_column name i ++ (str ": " ++ L.display e))))

  read_cells : Row → ℕ → List Str → Eff Error World (List (Value Real))
  unfolding read_cell
  read_cells row i [] = pure []
  read_cells row i (name ∷ names) = do
    v ← read_cell name i (L.get row i)
    vs ← read_cells row (i + 1) names
    pure (v ∷ vs)

  collect_from :
      List Str
      → List (List (Value Real))
      → Rows LibError Row
      → Eff Error World (List Str × List (List (Value Real)))
  unfolding named_columns read_cells
  collect_from columns collected finish = pure (columns, collected)
  collect_from columns collected (failed e) = fail (term (L.display e))
  collect_from columns collected (next row rest) = do
    cells ← read_cells row 0 (named_columns row columns)
    collect_from (named_columns row columns) (collected ++ cells ∷ []) rest

  unfoldable pub collect_rows : Rows LibError Row → Eff Error World QueryResult
  unfolding collect_from
  collect_rows rows = do
    found ← collect_from [] [] rows
    pure (record { columns = found.0; rows = found.1; num_rows = length found.1 })
