-- ===== src/Constraint/Kept.antt =====
-- The message that a failed statement ends with.
use ecto_libsql.Common.{
  ◌≡◌, refl, ◌⊎◌, inl, inr, true, false, Bool-cases, Option, none, some, List, [], ◌++◌, Str, str,
}
use ecto_libsql.Effect.{Result, ok, err}
use ecto_libsql.Libsql.{Libsql, Rows}
use ecto_libsql.Text.{contains, split}
use ecto_libsql.Constraint.{
  enhanced_message, enhance_constraint_error, search_table, unique_failed, unwrap_or,
  quote_identifier, constraint_part, table_of, first_part, columns_of,
}
use ecto_libsql.Constraint.Found.{
  map_err-ok, Found, OkThat, Yields, OkThat-weaken, then_run-OkThat, SameOrFound,
  find_index-SameOrFound,
}

-- The pieces of the message that name the columns.
abbrev pub violated_parts : Str → List Str
violated_parts message = split b',' (constraint_part message)

module _ ⦃L : Libsql⦄ where
  open L use {World, Connection, LibError, Row}

  -- The message is about an index of the table that it speaks of.
  pub record Named (conn : Connection) (message m : Str) : Type 0 where
    pub unique_violated : contains unique_failed message ≡ true
    pub table : Str
    pub table_eq : table_of (split b'.' (first_part (violated_parts message))) ≡ some table
    pub asked : World
    pub rows : Rows LibError Row
    pub rows_eq :
        (L.query conn (str "PRAGMA index_list(" ++ (quote_identifier table ++ str ")")) [] asked).0
        ≡ ok rows
    pub found : Found conn message (columns_of (violated_parts message)) rows m

  abbrev pub Kept : Connection → Str → Str → Type 0
  Kept conn message m = (m ≡ message) ⊎ Named conn message m

  search_table-Kept :
      (conn : Connection) (message : Str)
      → contains unique_failed message ≡ true
      → (table : Option Str) → table_of (split b'.' (first_part (violated_parts message))) ≡ table
      → Yields (Kept conn message) (search_table conn message (violated_parts message) table)
  unfolding search_table
  search_table-Kept conn message c none t w = inl refl
  search_table-Kept conn message c (some table) t w =
      then_run-OkThat (Kept conn message) _ _ (λ list q v.
        OkThat-weaken (SameOrFound conn message _ list) (Kept conn message) _
          (λ m. named list (map_err-ok _ _ list q) m)
          (find_index-SameOrFound conn message _ list v))
    where
      named :
          (list : Rows LibError Row)
          → (L.query conn (str "PRAGMA index_list(" ++ (quote_identifier table ++ str ")")) [] w).0
            ≡ ok list
          → (m : Str) → SameOrFound conn message (columns_of (violated_parts message)) list m
          → Kept conn message m
      named list q m (inl e) = inl e
      named list q m (inr f) = inr (record {
        unique_violated = c;
        table = table;
        table_eq = t;
        asked = w;
        rows = list;
        rows_eq = q;
        found = f;
      })

  enhance_constraint_error-Kept :
      (conn : Connection) (message : Str)
      → Yields (Kept conn message) (enhance_constraint_error conn message)
  unfolding enhance_constraint_error
  enhance_constraint_error-Kept conn message w =
      elim (Bool-cases (contains unique_failed message)) [
        | inl h ↦ rw (enhance_constraint_error, h) (search_table-Kept conn message h _ refl w)
        | inr h ↦ rw (enhance_constraint_error, h) (inl refl)
      ]

  unwrap_or-Kept :
      (conn : Connection) (message : Str) (r : Result Str Str)
      → OkThat (Kept conn message) r
      → Kept conn message (unwrap_or message r)
  unfolding unwrap_or
  unwrap_or-Kept conn message (ok m) k = k
  unwrap_or-Kept conn message (err e) k = inl refl

  -- Whatever the look-up of the index meets, the message of a failed statement is either passed on
  -- as it is, or it is the message of a violated UNIQUE constraint with the name of an index behind
  -- it, and that index was listed for the table of the message as unique, and has the columns of
  -- the message, in their order.
  pub enhanced_message-Kept :
      (conn : Connection) (message : Str) (w : World)
      → Kept conn message (enhanced_message conn message w).0
  unfolding enhanced_message
  enhanced_message-Kept conn message w =
      unwrap_or-Kept conn message _ (enhance_constraint_error-Kept conn message w)

  enhance_constraint_error-other :
      (conn : Connection) (message : Str) (w : World)
      → contains unique_failed message ≡ false
      → enhance_constraint_error conn message w ≡ (ok message, w)
  unfolding enhance_constraint_error
  enhance_constraint_error-other conn message w h = rw (enhance_constraint_error, h) refl

  -- A message without the marker of a violated UNIQUE constraint is passed on as it is, and the
  -- database is not asked.
  pub enhanced_message-other :
      (conn : Connection) (message : Str) (w : World)
      → contains (str "UNIQUE constraint failed:") message ≡ false
      → enhanced_message conn message w ≡ (message, w)
  unfolding enhanced_message
  enhanced_message-other conn message w h =
      rw (enhance_constraint_error-other conn message w h) refl
