-- ===== src/Constraint/Message.antt =====
-- The message of a violated UNIQUE constraint, as SQLite and libsql word it, and its part that
-- names the columns.
use ecto_libsql.Common.{
  ℕ, ◌≡◌, refl, sym, ap, ◌∙◌, Bool, Bool-cases, inl, inr, true, false, not, ◌||◌, some, List, [],
  ◌∷◌, ◌++◌, append_assoc, append-nil, All, Str, str, arith, ◌==◌,
}
use ecto_libsql.Text.{
  is_whitespace, is_backtick, trim, trim_end, trim_start_by, trim_end_by, split_second,
}
use ecto_libsql.Text.Ends.{
  any, ends, any-weaken, any-append, ends-any, ends-append, trim_end_by-append, trim_end_by-kept,
  trim_start_by-front,
}
use ecto_libsql.Text.Pieces.{is_char, split_second-only}
use ecto_libsql.Constraint.{constraint_part}

-- A character that a name has only when it is quoted, and that the message has around its names.
abbrev pub special : ℕ → Bool
special c = is_whitespace c || c == b',' || c == b'.' || c == b':' || is_backtick c

abbrev pub IsName : Str → Type 0
IsName s = any special s ≡ false

-- `table.column, table.column`, as SQLite lists the columns of the constraint.
abbrev pub column_list : Str → Str → List Str → Str
column_list table column [] = table ++ (b'.' ∷ column)
column_list table column (next ∷ more) =
    table ++ (b'.' ∷ (column ++ (b',' ∷ b' ' ∷ column_list table next more)))

-- The text that SQLite gives, with libsql's words in front of it and backticks behind it.
abbrev pub unique_message : Str → Str → Str → List Str → Str → Str
unique_message front table column more ticks =
    front ++ (str "UNIQUE constraint failed:" ++ (b' ' ∷ (column_list table column more ++ ticks)))

pub special_white : (c : ℕ) → special c ≡ false → is_whitespace c ≡ false
special_white c h = ground arith

pub special_char : (k c : ℕ) → special k ≡ true → special c ≡ false → is_char k c ≡ false
special_char k c k_special h = elim (Bool-cases (is_char k c)) [
  | inl e ↦ let same : c ≡ k = ground arith in let bad : special c ≡ true = rw same k_special in cc
  | inr e ↦ e
]

pub name-absent : (k : ℕ) (s : Str) → special k ≡ true → IsName s → any (is_char k) s ≡ false
name-absent k s k_special = any-weaken (is_char k) special s (λ c. special_char k c k_special)

pub name-solid : (s : Str) → IsName s → any is_whitespace s ≡ false
name-solid s = any-weaken is_whitespace special s special_white

-- The names of the message: one table, and one column or more.
abbrev pub IsNames : Str → Str → List Str → Type 0
IsNames table column more = IsName table × IsName column × All IsName more

-- A test that no name and no separator passes.
column_list-any :
    (p : ℕ → Bool) (table column : Str) (more : List Str)
    → ((c : ℕ) → special c ≡ false → p c ≡ false)
    → (p b'.' || p b',' || p b' ') ≡ false
    → IsNames table column more
    → any p (column_list table column more) ≡ false
column_list-any p table column [] f q (t, c, m) =
    any-append p table (b'.' ∷ column)
    ∙ ground (arith, any-weaken p special table f t, any-weaken p special column f c)
column_list-any p table column (next ∷ more) f q (t, c, (n, m)) =
    any-append p table _
    ∙ ground (
      arith,
      any-weaken p special table f t,
      any-weaken p special column f c,
      any-append p column (b',' ∷ b' ' ∷ column_list table next more),
      column_list-any p table next more f q (t, n, m),
    )

column_list-next :
    (table column next : Str) (more : List Str)
    → (table ++ (b'.' ∷ (column ++ b',' ∷ b' ' ∷ []))) ++ column_list table next more
      ≡ column_list table column (next ∷ more)
column_list-next table column next more =
    append_assoc table (b'.' ∷ (column ++ b',' ∷ b' ' ∷ [])) (column_list table next more)
    ∙ ap (λ s. table ++ (b'.' ∷ s))
        (append_assoc column (b',' ∷ b' ' ∷ []) (column_list table next more))

-- The list ends with the last name, or with the point in front of it.
pub ends-column_list :
    (p : ℕ → Bool) (s table column : Str) (more : List Str)
    → ((c : ℕ) → special c ≡ false → p c ≡ false)
    → p b'.' ≡ false
    → IsNames table column more
    → ends p (s ++ column_list table column more) ≡ false
ends-column_list p s table column [] f d (t, c, m) =
    ap (ends p) (sym (append_assoc s table (b'.' ∷ column)))
    ∙ (ends-append p (s ++ table) b'.' column
        ∙ ends-any p (b'.' ∷ column) (ground (arith, any-weaken p special column f c)))
ends-column_list p s table column (next ∷ more) f d (t, c, (n, m)) =
    ap (ends p) (
      ap (λ r. s ++ r) (sym (column_list-next table column next more))
      ∙ sym (append_assoc s _ (column_list table next more)))
    ∙ ends-column_list p (s ++ (table ++ (b'.' ∷ (column ++ b',' ∷ b' ' ∷ [])))) table next more f d
        (t, n, m)

-- The list begins with the table, or with the point behind it.
trim_start_by-column_list :
    (p : ℕ → Bool) (table column : Str) (more : List Str) (ticks : Str)
    → ((c : ℕ) → special c ≡ false → p c ≡ false)
    → p b'.' ≡ false
    → IsName table
    → trim_start_by p (column_list table column more ++ ticks)
      ≡ column_list table column more ++ ticks
trim_start_by-column_list p table column [] ticks f d t =
    rw (append_assoc table (b'.' ∷ column) ticks)
      (trim_start_by-front p table b'.' (column ++ ticks) (any-weaken p special table f t) d)
trim_start_by-column_list p table column (next ∷ more) ticks f d t =
    rw (append_assoc table (b'.' ∷ (column ++ (b',' ∷ b' ' ∷ column_list table next more))) ticks)
      (trim_start_by-front p table b'.' _ (any-weaken p special table f t) d)

abbrev pub AllTicks : Str → Type 0
AllTicks ticks = any (λ c. not (is_backtick c)) ticks ≡ false

tick_solid : (c : ℕ) → not (is_backtick c) ≡ false → is_whitespace c ≡ false
unfolding is_whitespace
tick_solid c h = ground arith

tick_absent : (c : ℕ) → not (is_backtick c) ≡ false → is_char b':' c ≡ false
tick_absent c h = ground arith

ends-ticks :
    (s ticks : Str)
    → ends is_whitespace s ≡ false
    → AllTicks ticks
    → ends is_whitespace (s ++ ticks) ≡ false
unfolding is_whitespace
ends-ticks s [] e a = ap (ends is_whitespace) (append-nil s) ∙ e
ends-ticks s (c ∷ ticks) e a =
    ends-append is_whitespace s c ticks
    ∙ ends-any is_whitespace (c ∷ ticks)
        (any-weaken is_whitespace (λ d. not (is_backtick d)) (c ∷ ticks) tick_solid a)

-- What stands behind the marker.
marked :
    (front table column : Str) (more : List Str) (ticks : Str)
    → any (is_char b'U') front ≡ false
    → IsNames table column more
    → AllTicks ticks
    → split_second (str "UNIQUE constraint failed:") (unique_message front table column more ticks)
      ≡ some (b' ' ∷ (column_list table column more ++ ticks))
unfolding str is_whitespace
marked front table column more ticks u names a = split_second-only b'U' _ front _ b':' u refl (
    any-append (is_char b':') (column_list table column more) ticks
    ∙ ground (
      arith,
      column_list-any (is_char b':') table column more (λ c. special_char b':' c refl) refl names,
      any-weaken (is_char b':') (λ d. not (is_backtick d)) ticks tick_absent a,
    ))

pub special_tick : (c : ℕ) → special c ≡ false → is_backtick c ≡ false
special_tick c h = ground arith

trim-column_list :
    (table column : Str) (more : List Str) (ticks : Str)
    → IsNames table column more
    → AllTicks ticks
    → trim (column_list table column more ++ ticks) ≡ column_list table column more ++ ticks
trim-column_list table column more ticks names a =
    ap trim_end (
      trim_start_by-column_list is_whitespace table column more ticks special_white
        (unfold is_whitespace in refl) names.0)
    ∙ trim_end_by-kept is_whitespace (column_list table column more ++ ticks) (
        ends-ticks (column_list table column more) ticks
          (ends-column_list is_whitespace [] table column more special_white
            (unfold is_whitespace in refl) names)
          a)

-- The backticks around the list go.
pub constraint_part-unique_message :
    (front table column : Str) (more : List Str) (ticks : Str)
    → any (is_char b'U') front ≡ false
    → IsNames table column more
    → AllTicks ticks
    → constraint_part (unique_message front table column more ticks) ≡ column_list table column more
unfolding constraint_part
constraint_part-unique_message front table column more ticks u names a =
    let list = column_list table column more in
    let spaced : trim (b' ' ∷ (list ++ ticks)) ≡ list ++ ticks =
      unfold trim_start_by is_whitespace in trim-column_list table column more ticks names a in
    let left : trim_start_by is_backtick (list ++ ticks) ≡ list ++ ticks =
      trim_start_by-column_list is_backtick table column more ticks special_tick refl names.0 in
    let right : trim_end_by is_backtick (list ++ ticks) ≡ list =
      trim_end_by-append is_backtick list ticks
        (ends-any is_backtick list
          (column_list-any is_backtick table column more special_tick refl names))
        a in
    let bare : trim list ≡ list =
      ap trim (sym (append-nil list))
      ∙ (trim-column_list table column more [] names refl ∙ append-nil list) in
    rw (marked front table column more ticks u names a, spaced, left, right) bare
