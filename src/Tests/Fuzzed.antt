-- ===== src/Tests/Fuzzed.antt =====
-- A statement of the structured fuzzer.
use mathlib.Core.List.{map}
use ecto_libsql.Common.{◌≡◌, refl, true, some, [], ◌∷◌, Str, str}
use ecto_libsql.Text.{is_ascii_whitespace}
use ecto_libsql.Routing.Agreement.{capital}
use ecto_libsql.Fuzz.{
  SqlInput, as_str, insert, fuzz_sql_structured, select, update, delete, create, drop, alter, begin,
  commit, rollback, pragma, with_, explain, random,
}
use ecto_libsql.Fuzz.Decided.{KeepsKeywords, expected, type_of, fuzz_sql_structured-named}

abbrev upper : Str → Str
upper = map capital

upper_keeps : KeepsKeywords upper
unfolding as_str str
upper_keeps select n = refl
upper_keeps insert n = refl
upper_keeps update n = refl
upper_keeps delete n = refl
upper_keeps create n = refl
upper_keeps drop n = refl
upper_keeps alter n = refl
upper_keeps begin n = refl
upper_keeps commit n = refl
upper_keeps rollback n = refl
upper_keeps pragma n = refl
upper_keeps with_ n = refl
upper_keeps explain n = refl
upper_keeps (random a b c d e f) n = elim n [ ]

-- A newline, `INSERT`, a body, and the clause.
abbrev inserting : SqlInput
inserting = record {
  leading_whitespace = some (b'\n' ∷ []);
  keyword = insert;
  body = str "INTO t VALUES (1)";
  has_returning = true;
}

fuzz_sql_structured-named_example :
    fuzz_sql_structured upper inserting ≡ some (expected inserting, type_of insert)
unfolding is_ascii_whitespace
fuzz_sql_structured-named_example =
    fuzz_sql_structured-named upper inserting upper_keeps tt (refl, tt)
