-- ===== src/Fuzz.antt =====
-- The fuzz targets of native/ecto_libsql/fuzz: the inputs that they build, and what they run on
-- them. `none` is a panic, which is what the fuzzer looks for.
pub mod White
pub mod Decided
use ecto_libsql.Common.{
  ℕ, Bool, true, false, Option, none, some, List, [], ◌∷◌, ◌++◌, Str, str, as_bytes,
}
use ecto_libsql.Checked.{Checked, ◌>>=◌}
use ecto_libsql.Routing.{Bytes, QueryType, routes_to_query, detect_query_type}

-- The last one is six bytes at random.
pub data SqlKeyword : Type 0 where
  select insert update delete create drop alter begin commit rollback pragma with_ explain :
      SqlKeyword
  random : (a b c d e f : ℕ) → SqlKeyword

-- `char::from` of a byte is the code point of that number.
unfoldable pub as_str : SqlKeyword → Str
unfolding str
as_str select = str "SELECT"
as_str insert = str "INSERT"
as_str update = str "UPDATE"
as_str delete = str "DELETE"
as_str create = str "CREATE"
as_str drop = str "DROP"
as_str alter = str "ALTER"
as_str begin = str "BEGIN"
as_str commit = str "COMMIT"
as_str rollback = str "ROLLBACK"
as_str pragma = str "PRAGMA"
as_str with_ = str "WITH"
as_str explain = str "EXPLAIN"
as_str (random a b c d e f) = a ∷ b ∷ c ∷ d ∷ e ∷ f ∷ []

pub record SqlInput : Type 0 where
  pub leading_whitespace : Option Str
  pub keyword : SqlKeyword
  pub body : Str
  pub has_returning : Bool

abbrev pub push_some : Option Str → Str
push_some none = []
push_some (some ws) = ws

abbrev pub returning_clause : Bool → Str
returning_clause true = str " RETURNING *"
returning_clause false = []

-- The statement, from left to right as it is pushed together.
unfoldable pub build_sql : SqlInput → Str
unfolding as_str
build_sql input =
    push_some input.leading_whitespace
    ++ (as_str input.keyword ++ (b' ' ∷ (input.body ++ returning_clause input.has_returning)))

-- `fuzz_sql_structured`: both functions run on the statement.
unfoldable pub fuzz_sql_structured : (Str → Str) → SqlInput → Checked (Bool × QueryType)
unfolding build_sql
fuzz_sql_structured to_uppercase input = do
  rows ← routes_to_query (as_bytes (build_sql input))
  some (rows, detect_query_type to_uppercase (build_sql input))

-- `fuzz_should_use_query` and `fuzz_detect_query_type` on bytes, which std may take for UTF-8.
unfoldable pub fuzz_should_use_query : (Bytes → Option Str) → Bytes → Checked (Option Bool)
fuzz_should_use_query from_utf8 data_ = elim (from_utf8 data_) [
  | none ↦ some none
  | some sql ↦ do rows ← routes_to_query (as_bytes sql); some (some rows)
]

unfoldable pub fuzz_detect_query_type :
    (Bytes → Option Str) → (Str → Str) → Bytes → Checked (Option QueryType)
fuzz_detect_query_type from_utf8 to_uppercase data_ = elim (from_utf8 data_) [
  | none ↦ some none
  | some sql ↦ some (some (detect_query_type to_uppercase sql))
]
