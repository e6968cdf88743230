-- ===== src/Constraint.antt =====
-- `enhance_constraint_error` of utils.rs: the name of the violated index, looked up by PRAGMA.
pub mod Found
pub mod Kept
pub mod Quoted
pub mod Message
pub mod Parsed
pub mod Lookup
use ecto_libsql.Common.{
  Bool, true, false, Option, none, some, List, [], ◌∷◌, ◌++◌, map, Str, str, str_eq, ◌&&◌, ◌==◌,
}
use ecto_libsql.Effect.{Result, ok, err, Eff, pure, lift, map_err, try_call, fail, ◌>>=◌}
use ecto_libsql.Libsql.{Libsql, Rows, finish, failed, next, ℤ, pos, negsuc}
use ecto_libsql.Text.{
  trim, trim_end, trim_start_by, trim_end_by, is_backtick, split_second, contains, split, last_or,
  double_quotes,
}

-- Double quotes inside are doubled, and the whole is quoted.
unfoldable pub quote_identifier : Str → Str
quote_identifier id = str "\"" ++ (double_quotes id ++ str "\"")

abbrev pub unique_failed : Str
unique_failed = str "UNIQUE constraint failed:"

abbrev or_empty : Option Str → Str
or_empty none = []
or_empty (some s) = s

-- The part behind the marker, trimmed, without backticks around it, trimmed again.
unfoldable pub constraint_part : Str → Str
constraint_part message = trim (
    trim_end_by is_backtick
      (trim_start_by is_backtick (trim (or_empty (split_second unique_failed message)))))

-- `table.column` of the first part: its pieces, if there are two or more.
unfoldable pub table_of : List Str → Option Str
table_of (table ∷ column ∷ more) = some (trim table)
table_of _ = none

abbrev pub first_part : List Str → Str
first_part [] = []
first_part (p ∷ ps) = trim p

unfoldable pub columns_of : List Str → List Str
columns_of = map (λ part. last_or [] (split b'.' (trim part)))

pub same_columns : List Str → List Str → Bool
same_columns [] [] = true
same_columns (x ∷ xs) (y ∷ ys) = str_eq x y && same_columns xs ys
same_columns _ _ = false

pub is_one : ℤ → Bool
is_one (pos n) = n == 1
is_one (negsuc n) = false

module _ ⦃L : Libsql⦄ where
  open L use {World, Connection, LibError, Row}

  abbrev explained : Str → LibError → Str
  explained what e = what ++ (str ": " ++ L.display e)

  -- The columns of an index, in order.
  index_columns : Rows LibError Row → Eff Str World (List Str)
  index_columns finish = pure []
  index_columns (failed e) = fail (explained (str "Failed to read index info row") e)
  index_columns (next row rest) = do
    name ← lift (map_err (explained (str "Failed to get column name")) (L.get_string row 2))
    names ← index_columns rest
    pure (name ∷ names)

  pub enhanced : Str → Str → Str
  enhanced message index_name =
      trim_end (trim_end_by is_backtick message) ++ (str " (index: " ++ (index_name ++ str ")"))

  -- An index whose columns are the violated ones ends the search.
  pub compare_columns : Str → Str → List Str → Eff Str World Str → List Str → Eff Str World Str
  unfolding same_columns
  compare_columns message index_name columns rest names = elim (same_columns names columns) [
    | true ↦ pure (enhanced message index_name)
    | false ↦ rest
  ]

  pub index_info : Connection → Str → Eff Str World (List Str)
  unfolding index_columns
  index_info conn index_name = do
    info ←
        try_call
          (L.query conn (str "PRAGMA index_info(" ++ (quote_identifier index_name ++ str ")")) [])
          (explained (str "Failed to query index info"))
    index_columns info

  -- Only the unique indexes are looked at.
  pub check_index : Connection → Str → List Str → Eff Str World Str → Str → ℤ → Eff Str World Str
  unfolding is_one
  check_index conn message columns rest index_name is_unique = elim (is_one is_unique) [
    | false ↦ rest
    | true ↦ index_info conn index_name >>= compare_columns message index_name columns rest
  ]

  pub check_row : Connection → Str → List Str → Row → Eff Str World Str → Str → Eff Str World Str
  check_row conn message columns row rest index_name =
      lift (map_err (explained (str "Failed to get unique flag")) (L.get_i64 row 2))
      >>= check_index conn message columns rest index_name

  pub find_index : Connection → Str → List Str → Rows LibError Row → Eff Str World Str
  find_index conn message columns finish = pure message
  find_index conn message columns (failed e) =
      fail (explained (str "Failed to read index list row") e)
  find_index conn message columns (next row rest) =
      lift (map_err (explained (str "Failed to get index name")) (L.get_string row 1))
      >>= check_row conn message columns row (find_index conn message columns rest)

  search_table : Connection → Str → List Str → Option Str → Eff Str World Str
  unfolding find_index
  search_table conn message parts none = pure message
  search_table conn message parts (some table) = do
    list ←
        try_call (L.query conn (str "PRAGMA index_list(" ++ (quote_identifier table ++ str ")")) [])
          (explained (str "Failed to query index list"))
    find_index conn message (columns_of parts) list

  unfoldable pub enhance_constraint_error : Connection → Str → Eff Str World Str
  unfolding search_table
  enhance_constraint_error conn message = elim (contains unique_failed message) [
    | false ↦ pure message
    | true ↦
        let parts = split b',' (constraint_part message) in
        search_table conn message parts (table_of (split b'.' (first_part parts)))
  ]

  -- `.await.unwrap_or(error_msg)`: a failure of the look-up leaves the message as it was.
  unwrap_or : Str → Result Str Str → Str
  unwrap_or d (ok s) = s
  unwrap_or d (err e) = d

  unfoldable pub enhanced_message : Connection → Str → World → Str × World
  unfolding enhance_constraint_error unwrap_or
  enhanced_message conn message w = (
    unwrap_or message (enhance_constraint_error conn message w).0,
    (enhance_constraint_error conn message w).1,
  )
