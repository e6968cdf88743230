-- ===== src/Constraint/Lookup.antt =====
-- The index that the message of a violated UNIQUE constraint ends with.
use ecto_libsql.Common.{
  ◌≡◌, refl, sym, ◌≢◌, inl, inr, Bool-cases, ap, ◌∙◌, true, false, List, [], ◌∷◌, ◌++◌,
  append_assoc, subst, Str, str, str_eq_refl, arith, some,
}
use ecto_libsql.Effect.{ok}
use ecto_libsql.Libsql.{Libsql, Rows, finish, failed, next, ℤ, pos}
use ecto_libsql.Text.{is_whitespace, is_backtick, trim_end, trim_end_by, contains, split}
use ecto_libsql.Text.Ends.{any, trim_end_by-append, trim_end_by-kept}
use ecto_libsql.Text.Pieces.{is_char}
use ecto_libsql.Constraint.{
  quote_identifier, enhanced, find_index, compare_columns, check_index, check_row, index_info,
  index_columns, is_one, same_columns, search_table, enhance_constraint_error, enhanced_message,
  unwrap_or, unique_failed, columns_of, table_of, first_part,
}
use ecto_libsql.Constraint.Found.{is_one-eq, same_columns-eq}
use ecto_libsql.Constraint.Kept.{violated_parts}
use ecto_libsql.Constraint.Message.{
  IsNames, AllTicks, column_list, unique_message, special_white, special_tick, ends-column_list,
}
use ecto_libsql.Constraint.Parsed.{unique_message-parsed}

same_columns_refl : (xs : List Str) → same_columns xs xs ≡ true
unfolding same_columns
same_columns_refl [] = refl
same_columns_refl (x ∷ xs) = ground (arith, str_eq_refl x, same_columns_refl xs)

is_one-other : (flag : ℤ) → flag ≢ pos 1 → is_one flag ≡ false
is_one-other flag h = elim (Bool-cases (is_one flag)) [
  | inl e ↦ absurd (h (is_one-eq flag e))
  | inr e ↦ e
]

same_columns-other : (xs ys : List Str) → xs ≢ ys → same_columns xs ys ≡ false
same_columns-other xs ys h = elim (Bool-cases (same_columns xs ys)) [
  | inl e ↦ absurd (h (same_columns-eq xs ys e))
  | inr e ↦ e
]

module _ ⦃L : Libsql⦄ where
  open L use {World, Connection, LibError, Row}

  -- The rows of `PRAGMA index_info` that name these columns.
  abbrev pub Columns : Rows LibError Row → List Str → Type 0
  Columns finish [] = Unit
  Columns (next row rest) (name ∷ names) = (L.get_string row 2 ≡ ok name) × Columns rest names
  Columns _ _ = ⊥

  -- What SQLite says of the index's columns.
  pub record Covers (conn : Connection) (index_name : Str) (w : World) (names : List Str)
      (v : World) : Type 0 where
    pub rows : Rows LibError Row
    pub asked :
        L.query conn (str "PRAGMA index_info(" ++ (quote_identifier index_name ++ str ")")) [] w
        ≡ (ok rows, v)
    pub named : Columns rows names

  -- Of the rows of `PRAGMA index_list`, the first for a unique index with these columns, and the
  -- worlds between which the indexes in front of it and itself are looked up.
  pub data First (conn : Connection) (columns : List Str)
      : Rows LibError Row → World → Str → World → Type 0 where
    here :
        {row : Row} {rest : Rows LibError Row} {w v : World} {index_name : Str}
        → L.get_string row 1 ≡ ok index_name
        → L.get_i64 row 2 ≡ ok (pos 1)
        → Covers conn index_name w columns v
        → First conn columns (next row rest) w index_name v
    not_unique :
        {row : Row} {rest : Rows LibError Row} {w v : World} {index_name : Str} (other : Str)
        (flag : ℤ)
        → L.get_string row 1 ≡ ok other
        → L.get_i64 row 2 ≡ ok flag
        → flag ≢ pos 1
        → First conn columns rest w index_name v
        → First conn columns (next row rest) w index_name v
    other_columns :
        {row : Row} {rest : Rows LibError Row} {w u v : World} {index_name : Str} (other : Str)
        (names : List Str)
        → L.get_string row 1 ≡ ok other
        → L.get_i64 row 2 ≡ ok (pos 1)
        → Covers conn other w names u
        → names ≢ columns
        → First conn columns rest u index_name v
        → First conn columns (next row rest) w index_name v

  index_columns-Columns :
      (rows : Rows LibError Row) (names : List Str) (w : World)
      → Columns rows names
      → index_columns rows w ≡ (ok names, w)
  unfolding index_columns
  index_columns-Columns finish [] w h = refl
  index_columns-Columns finish (name ∷ names) w h = elim h [ ]
  index_columns-Columns (failed _) names w h = elim h [ ]
  index_columns-Columns (next row rest) [] w h = elim h [ ]
  index_columns-Columns (next row rest) (name ∷ names) w (h, hs) =
      rw (h, index_columns-Columns rest names w hs) refl

  index_info-Covers :
      (conn : Connection) (index_name : Str) (w : World) (names : List Str) (v : World)
      → Covers conn index_name w names v
      → index_info conn index_name w ≡ (ok names, v)
  unfolding index_info
  index_info-Covers conn index_name w names v c =
      rw c.asked (index_columns-Columns c.rows names v c.named)

  find_index-First :
      (conn : Connection) (message : Str) (columns : List Str) (rows : Rows LibError Row)
      (w : World) (index_name : Str) (v : World)
      → First conn columns rows w index_name v
      → find_index conn message columns rows w ≡ (ok (enhanced message index_name), v)
  unfolding find_index check_row check_index compare_columns is_one
  find_index-First conn message columns _ w index_name v (here n one c) =
      rw
        (
          n,
          one,
          index_info-Covers conn index_name w columns v c,
          compare_columns,
          same_columns_refl columns,
        )
        refl
  find_index-First conn message columns _ w index_name v (not_unique other flag n f q first) =
      rw (n, f, check_index, is_one-other flag q)
        (find_index-First conn message columns _ w index_name v first)
  find_index-First conn message columns _ w index_name v
        (other_columns {u = u} other names n one c q first) =
      rw
        (
          n,
          one,
          index_info-Covers conn other w names u c,
          compare_columns,
          same_columns-other names columns q,
        )
        (find_index-First conn message columns _ u index_name v first)

  -- The message without the backticks behind it.
  enhanced-unique_message :
      (front table column : Str) (more : List Str) (ticks index_name : Str)
      → IsNames table column more
      → AllTicks ticks
      → enhanced (unique_message front table column more ticks) index_name
        ≡ unique_message front table column more (str " (index: " ++ (index_name ++ str ")"))
  unfolding enhanced is_whitespace
  enhanced-unique_message front table column more ticks index_name names a =
      let list = column_list table column more in
      let head : Str = front ++ (str "UNIQUE constraint failed:" ++ b' ' ∷ []) in
      let whole : (tail : Str)
          → unique_message front table column more tail ≡ (head ++ list) ++ tail =
        λ tail. simp append_assoc in
      let bare : trim_end_by is_backtick (unique_message front table column more ticks)
          ≡ head ++ list =
        ap (trim_end_by is_backtick) (whole ticks)
        ∙ trim_end_by-append is_backtick (head ++ list) ticks
            (ends-column_list is_backtick head table column more special_tick refl names) a in
      let kept : trim_end (head ++ list) ≡ head ++ list =
        trim_end_by-kept is_whitespace (head ++ list)
          (ends-column_list is_whitespace head table column more special_white refl names) in
      rw (bare, kept) (sym (whole (str " (index: " ++ (index_name ++ str ")"))))

  search_table-First :
      (conn : Connection) (message : Str) (parts : List Str) (table : Str)
      (rows : Rows LibError Row) (w v u : World) (index_name : Str)
      → L.query conn (str "PRAGMA index_list(" ++ (quote_identifier table ++ str ")")) [] w
        ≡ (ok rows, v)
      → First conn (columns_of parts) rows v index_name u
      → search_table conn message parts (some table) w ≡ (ok (enhanced message index_name), u)
  unfolding search_table
  search_table-First conn message parts table rows w v u index_name asked first =
      rw asked (find_index-First conn message (columns_of parts) rows v index_name u first)

  enhance_constraint_error-contains :
      (conn : Connection) (message : Str) (w : World)
      → contains unique_failed message ≡ true
      → enhance_constraint_error conn message w
        ≡ search_table conn message
            (violated_parts message)
            (table_of (split b'.' (first_part (violated_parts message))))
            w
  unfolding enhance_constraint_error
  enhance_constraint_error-contains conn message w h = rw (enhance_constraint_error, h) refl

  enhanced_message-ok :
      (conn : Connection) (message found : Str) (w v : World)
      → enhance_constraint_error conn message w ≡ (ok found, v)
      → enhanced_message conn message w ≡ (found, v)
  unfolding enhanced_message unwrap_or
  enhanced_message-ok conn message found w v h = rw h refl

  -- When libsql lists the indexes of the table in the message, and of these rows the first for a
  -- unique index with exactly the columns in the message is reached with every look-up answered,
  -- the message gets that index's name behind it, in place of the backticks, and nothing else is
  -- asked. This is for messages that `unique_message-parsed` is about.
  pub enhanced_message-First :
      (conn : Connection) (front table column : Str) (more : List Str) (ticks : Str)
      (rows : Rows LibError Row) (index_name : Str) (w v u : World)
      → any (is_char b'U') front ≡ false
      → IsNames table column more
      → AllTicks ticks
      → L.query conn (str "PRAGMA index_list(" ++ (quote_identifier table ++ str ")")) [] w
        ≡ (ok rows, v)
      → First conn (column ∷ more) rows v index_name u
      → enhanced_message conn (unique_message front table column more ticks) w
        ≡ (unique_message front table column more (str " (index: " ++ (index_name ++ str ")")), u)
  enhanced_message-First conn front table column more ticks rows index_name w v u h names a asked
        first =
      let message = unique_message front table column more ticks in
      let (marked, table_eq, columns_eq) =
        unique_message-parsed front table column more ticks h names a in
      let listed : First conn (columns_of (violated_parts message)) rows v index_name u =
        subst (λ cs. First conn cs rows v index_name u) (sym columns_eq) first in
      enhanced_message-ok conn message _ w u (
        enhance_constraint_error-contains conn message w marked
        ∙ (ap (λ t. search_table conn message (violated_parts message) t w) table_eq
            ∙ (search_table-First conn message (violated_parts message) table rows w v u index_name
                  asked listed
                ∙ ap (λ m. (ok m, u))
                    (enhanced-unique_message front table column more ticks index_name names a))))
