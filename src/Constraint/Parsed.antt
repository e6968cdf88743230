-- ===== src/Constraint/Parsed.antt =====
-- The table and the columns that the message of a violated UNIQUE constraint is taken apart into.
use ecto_libsql.Common.{
  ℕ, ◌≡◌, refl, ap, ◌∙◌, Bool, true, false, some, List, [], ◌∷◌, ◌++◌, append_assoc, Str, str,
  arith,
}
use ecto_libsql.Text.{is_whitespace, trim, trim_start_by, contains, split, last_or}
use ecto_libsql.Text.Ends.{any, any-weaken, any-append, trim-solid}
use ecto_libsql.Text.Pieces.{is_char, contains-first, split-whole, split-piece}
use ecto_libsql.Constraint.{table_of, first_part, columns_of, unique_failed}
use ecto_libsql.Constraint.Kept.{violated_parts}
use ecto_libsql.Constraint.Message.{
  special, IsName, IsNames, AllTicks, column_list, unique_message, special_white, special_char,
  name-absent, name-solid, constraint_part-unique_message,
}

-- `table.column`, without whitespace and without a comma.
dotted-absent :
    (p : ℕ → Bool) (table column : Str)
    → ((c : ℕ) → special c ≡ false → p c ≡ false)
    → p b'.' ≡ false
    → IsName table
    → IsName column
    → any p (table ++ (b'.' ∷ column)) ≡ false
dotted-absent p table column f d t c =
    any-append p table (b'.' ∷ column)
    ∙ ground (arith, any-weaken p special table f t, any-weaken p special column f c)

trim-dotted :
    (table column : Str)
    → IsName table
    → IsName column
    → trim (table ++ (b'.' ∷ column)) ≡ table ++ (b'.' ∷ column)
trim-dotted table column t c =
    trim-solid (table ++ (b'.' ∷ column))
      (dotted-absent is_whitespace table column special_white (unfold is_whitespace in refl) t c)

split-dotted :
    (table column : Str)
    → IsName table
    → IsName column
    → split b'.' (table ++ (b'.' ∷ column)) ≡ table ∷ column ∷ []
unfolding is_whitespace
split-dotted table column t c =
    split-piece b'.' table column (name-absent b'.' table refl t)
    ∙ ap (λ ps. table ∷ ps) (split-whole b'.' column (name-absent b'.' column refl c))

-- A text that goes when what it stands in front of is trimmed.
record Vanishes (lead : Str) : Type 0 where
  pub no_comma : any (is_char b',') lead ≡ false
  pub goes : (s : Str) → trim (lead ++ s) ≡ trim s

nil-Vanishes : Vanishes []
nil-Vanishes = record { no_comma = refl; goes = λ s. refl }

space-Vanishes : Vanishes (b' ' ∷ [])
unfolding is_whitespace trim_start_by
space-Vanishes = record { no_comma = refl; goes = λ s. refl }

lead_absent :
    (lead table column : Str)
    → Vanishes lead
    → IsName table
    → IsName column
    → any (is_char b',') (lead ++ (table ++ (b'.' ∷ column))) ≡ false
unfolding is_whitespace
lead_absent lead table column l t c =
    any-append (is_char b',') lead (table ++ (b'.' ∷ column))
    ∙ ground (
      arith,
      l.no_comma,
      dotted-absent (is_char b',') table column (λ d. special_char b',' d refl) refl t c,
    )

-- The pieces between the commas.
pieces : Str → Str → Str → List Str → List Str
pieces lead table column [] = (lead ++ (table ++ (b'.' ∷ column))) ∷ []
pieces lead table column (next ∷ more) =
    (lead ++ (table ++ (b'.' ∷ column))) ∷ pieces (b' ' ∷ []) table next more

front_piece :
    (lead table column rest : Str)
    → lead ++ (table ++ (b'.' ∷ (column ++ rest))) ≡ (lead ++ (table ++ (b'.' ∷ column))) ++ rest
front_piece lead table column rest = simp append_assoc

split-column_list :
    (lead table column : Str) (more : List Str)
    → Vanishes lead
    → IsNames table column more
    → split b',' (lead ++ column_list table column more) ≡ pieces lead table column more
unfolding pieces
split-column_list lead table column [] l (t, c, m) =
    split-whole b',' _ (lead_absent lead table column l t c)
split-column_list lead table column (next ∷ more) l (t, c, (n, m)) =
    ap (split b',') (front_piece lead table column (b',' ∷ b' ' ∷ column_list table next more))
    ∙ (split-piece b',' (lead ++ (table ++ (b'.' ∷ column))) (b' ' ∷ column_list table next more)
          (lead_absent lead table column l t c)
        ∙ ap (λ ps. (lead ++ (table ++ (b'.' ∷ column))) ∷ ps)
            (split-column_list (b' ' ∷ []) table next more space-Vanishes (t, n, m)))

column_of_piece :
    (lead table column : Str)
    → Vanishes lead
    → IsName table
    → IsName column
    → last_or [] (split b'.' (trim (lead ++ (table ++ (b'.' ∷ column))))) ≡ column
unfolding last_or
column_of_piece lead table column l t c =
    rw
      (
        l.goes (table ++ (b'.' ∷ column)),
        trim-dotted table column t c,
        split-dotted table column t c,
      )
      refl

columns_of-pieces :
    (lead table column : Str) (more : List Str)
    → Vanishes lead
    → IsNames table column more
    → columns_of (pieces lead table column more) ≡ column ∷ more
unfolding pieces columns_of
columns_of-pieces lead table column [] l (t, c, m) =
    ap (λ d. d ∷ []) (column_of_piece lead table column l t c)
columns_of-pieces lead table column (next ∷ more) l (t, c, (n, m)) = cc (
  column_of_piece lead table column l t c,
  columns_of-pieces (b' ' ∷ []) table next more space-Vanishes (t, n, m),
)

table_of-pieces :
    (table column : Str) (more : List Str)
    → IsNames table column more
    → table_of (split b'.' (first_part (pieces [] table column more))) ≡ some table
unfolding pieces table_of
table_of-pieces table column [] (t, c, m) =
    rw (trim-dotted table column t c, split-dotted table column t c)
      (ap some (trim-solid table (name-solid table t)))
table_of-pieces table column (next ∷ more) (t, c, m) =
    rw (trim-dotted table column t c, split-dotted table column t c)
      (ap some (trim-solid table (name-solid table t)))

-- The message of a violated UNIQUE constraint, whatever the words in front of it, the number of its
-- columns and the backticks behind it, is seen as one, and it is taken apart into the table and the
-- columns that it was put together from, in their order. This is for names without whitespace,
-- commas, points, colons and backticks, and for words in front without a capital U.
pub unique_message-parsed :
    (front table column : Str) (more : List Str) (ticks : Str)
    → any (is_char b'U') front ≡ false
    → IsNames table column more
    → AllTicks ticks
    → let message = unique_message front table column more ticks in
      (contains unique_failed message ≡ true)
      × (table_of (split b'.' (first_part (violated_parts message))) ≡ some table)
      × (columns_of (violated_parts message) ≡ column ∷ more)
unfolding str
unique_message-parsed front table column more ticks u names a =
    let part = constraint_part-unique_message front table column more ticks u names a in
    let found = split-column_list [] table column more nil-Vanishes names in
    (
      contains-first b'U' _ front (b' ' ∷ (column_list table column more ++ ticks)) u,
      rw (part, found) (table_of-pieces table column more names),
      rw (part, found) (columns_of-pieces [] table column more nil-Vanishes names),
    )
