-- ===== src/Constraint/Found.antt =====
-- The search for the index through the rows of `PRAGMA index_list`.
use ecto_libsql.Common.{
  ◌≡◌, refl, ap, ◌∙◌, ◌⊎◌, inl, inr, true, Bool-cases, List, [], ◌∷◌, Str, str_eq_iff, arith,
}
use ecto_libsql.Effect.{Result, ok, err, Eff, then_run, map_err}
use ecto_libsql.Libsql.{Libsql, Rows, finish, failed, next, ℤ, pos, negsuc}
use ecto_libsql.Constraint.{
  enhanced, find_index, compare_columns, check_index, check_row, index_info, is_one, same_columns,
}

pub same_columns-eq : (xs ys : List Str) → same_columns xs ys ≡ true → xs ≡ ys
unfolding same_columns
same_columns-eq [] [] h = refl
same_columns-eq [] (y ∷ ys) h = ground arith
same_columns-eq (x ∷ xs) [] h = ground arith
same_columns-eq (x ∷ xs) (y ∷ ys) h = ground (arith, str_eq_iff x y, same_columns-eq xs ys)

pub is_one-eq : (flag : ℤ) → is_one flag ≡ true → flag ≡ pos 1
unfolding is_one
is_one-eq (pos n) h = ap pos (ground arith)
is_one-eq (negsuc n) h = ground arith

pub map_err-ok :
    {E F A : Type 0} (f : E → F) (r : Result E A) (a : A) → map_err f r ≡ ok a → r ≡ ok a
map_err-ok f (ok b) a h = let e : b ≡ a = cc in ap ok e
map_err-ok f (err e) a h = cc

module _ ⦃L : Libsql⦄ where
  open L use {World, Connection, LibError, Row}

  -- One of the rows that a query returns.
  abbrev pub Returned : Row → Rows LibError Row → Type 0
  Returned row finish = ⊥
  Returned row (failed e) = ⊥
  Returned row (next r rest) = (r ≡ row) ⊎ Returned row rest

  -- The message names an index that is among the rows, is unique, and has the columns.
  pub record Found (conn : Connection) (message : Str) (columns : List Str)
      (rows : Rows LibError Row) (m : Str) : Type 0 where
    pub row : Row
    pub returned : Returned row rows
    pub index_name : Str
    pub name_eq : L.get_string row 1 ≡ ok index_name
    pub unique_eq : L.get_i64 row 2 ≡ ok (pos 1)
    pub asked : World
    pub columns_eq : (index_info conn index_name asked).0 ≡ ok columns
    pub message_eq : m ≡ enhanced message index_name

  -- A result that is as `P` says, or an error.
  abbrev pub OkThat : (Str → Type 0) → Result Str Str → Type 0
  OkThat P (ok m) = P m
  OkThat P (err e) = Unit

  abbrev pub Yields : (Str → Type 0) → Eff Str World Str → Type 0
  Yields P f = (w : World) → OkThat P (f w).0

  pub OkThat-weaken :
      (P Q : Str → Type 0) (r : Result Str Str) → ((m : Str) → P m → Q m) → OkThat P r → OkThat Q r
  OkThat-weaken P Q (ok m) f h = f m h
  OkThat-weaken P Q (err e) f h = tt

  pub then_run-OkThat :
      {A : Type 0} (P : Str → Type 0) (run : Result Str A × World) (f : A → Eff Str World Str)
      → ((a : A) → run.0 ≡ ok a → Yields P (f a))
      → OkThat P (then_run run f).0
  then_run-OkThat P (ok a, w) f h = h a refl w
  then_run-OkThat P (err e, w) f h = tt

  compare_columns-OkThat :
      (P : Str → Type 0) (message name : Str) (columns names : List Str) (rest : Eff Str World Str)
      → Yields P rest
      → (names ≡ columns → P (enhanced message name))
      → Yields P (compare_columns message name columns rest names)
  unfolding compare_columns
  compare_columns-OkThat P message name columns names rest h here w =
      elim (Bool-cases (same_columns names columns)) [
        | inl q ↦ rw (compare_columns, q) (here (same_columns-eq names columns q))
        | inr q ↦ rw (compare_columns, q) (h w)
      ]

  check_index-OkThat :
      (P : Str → Type 0) (conn : Connection) (message name : Str) (columns : List Str) (flag : ℤ)
      (rest : Eff Str World Str)
      → Yields P rest
      → (flag ≡ pos 1
          → (v : World) → (index_info conn name v).0 ≡ ok columns
          → P (enhanced message name))
      → Yields P (check_index conn message columns rest name flag)
  unfolding check_index
  check_index-OkThat P conn message name columns flag rest h here w =
      elim (Bool-cases (is_one flag)) [
        | inr q ↦ rw (check_index, q) (h w)
        | inl q ↦
            rw (check_index, q)
              (then_run-OkThat P (index_info conn name w)
                (compare_columns message name columns rest)
                (λ names info.
                  compare_columns-OkThat P message name columns names rest h
                    (λ e. here (is_one-eq flag q) w (info ∙ ap ok e))))
      ]

  abbrev pub SameOrFound : Connection → Str → List Str → Rows LibError Row → Str → Type 0
  SameOrFound conn message columns rows m = (m ≡ message) ⊎ Found conn message columns rows m

  found_later :
      (conn : Connection) (message : Str) (columns : List Str) (row : Row)
      (rows : Rows LibError Row) (m : Str)
      → SameOrFound conn message columns rows m
      → SameOrFound conn message columns (next row rows) m
  found_later conn message columns row rows m (inl e) = inl e
  found_later conn message columns row rows m (inr f) = inr (record {
    row = f.row;
    returned = inr f.returned;
    index_name = f.index_name;
    name_eq = f.name_eq;
    unique_eq = f.unique_eq;
    asked = f.asked;
    columns_eq = f.columns_eq;
    message_eq = f.message_eq;
  })

  pub find_index-SameOrFound :
      (conn : Connection) (message : Str) (columns : List Str) (rows : Rows LibError Row)
      → Yields (SameOrFound conn message columns rows) (find_index conn message columns rows)
  unfolding find_index check_row
  find_index-SameOrFound conn message columns finish w = inl refl
  find_index-SameOrFound conn message columns (failed e) w = tt
  find_index-SameOrFound conn message columns (next row rest) w =
      let P = SameOrFound conn message columns (next row rest) in
      let more = find_index conn message columns rest in
      let later : Yields P more = λ v.
        OkThat-weaken (SameOrFound conn message columns rest) P (more v).0
          (found_later conn message columns row rest)
          (find_index-SameOrFound conn message columns rest v) in
      then_run-OkThat P _ (check_row conn message columns row more) (λ name n. λ v.
        then_run-OkThat P _ (check_index conn message columns more name) (λ flag u.
          check_index-OkThat P conn message name columns flag more later (λ one asked info.
            inr (record {
              row = row;
              returned = inl refl;
              index_name = name;
              name_eq = map_err-ok _ (L.get_string row 1) name n;
              unique_eq = map_err-ok _ (L.get_i64 row 2) flag u ∙ ap ok one;
              asked = asked;
              columns_eq = info;
              message_eq = refl;
            }))))
