-- ===== src/Fuzz/Decided.antt =====
-- What the statements of the structured fuzzer are taken for.
use mathlib.Core.List.{flat_map}
use ecto_libsql.Common.{
  ◌≡◌, refl, ap, ◌∙◌, Bool, true, false, ◌||◌, Option, none, some, [], ◌∷◌, ◌++◌, append-nil, Str,
  str, str_eq, as_bytes, encode_utf8,
}
use ecto_libsql.Text.{is_whitespace, is_ascii_whitespace, trim_start, trim_start_by}
use ecto_libsql.Routing.{
  Bytes, QueryType, routes_to_query, returning, row_keywords, detect_query_type, first_word,
  take_word, or_empty,
}
use ecto_libsql.Routing as R
use ecto_libsql.Routing.Content.{
  content, returns_rows, begins_with, begins_with_any, mentions_returning,
}
use ecto_libsql.Routing.Decision.{routes_to_query-eq-returns_rows}
use ecto_libsql.Fuzz.{
  SqlKeyword, select, insert, update, delete, create, drop, alter, begin, commit, rollback, pragma,
  with_, explain, random, as_str, SqlInput, push_some, returning_clause, build_sql,
  fuzz_sql_structured, fuzz_should_use_query,
}
use ecto_libsql.Fuzz.White.{
  as_bytes-append, as_bytes-IsWhite, returns_rows-IsWhite, mentions_returning-clause,
  trim_start-IsWhite, IsWhite,
}

-- The type that a named keyword begins.
abbrev pub type_of : SqlKeyword → QueryType
type_of select = R.select
type_of insert = R.insert
type_of update = R.update
type_of delete = R.delete
type_of create = R.create
type_of drop = R.drop
type_of alter = R.alter
type_of begin = R.begin
type_of commit = R.commit
type_of rollback = R.rollback
type_of _ = R.other

-- The keywords whose statements return rows.
abbrev pub is_row_keyword : SqlKeyword → Bool
is_row_keyword select = true
is_row_keyword pragma = true
is_row_keyword with_ = true
is_row_keyword explain = true
is_row_keyword _ = false

abbrev pub IsNamed : SqlKeyword → Type 0
IsNamed (random a b c d e f) = ⊥
IsNamed _ = Unit

-- What a statement that begins with a named keyword is taken for.
named_keyword :
    (k : SqlKeyword) (rest : Bytes)
    → IsNamed k
    → returns_rows (as_bytes (as_str k) ++ (b' ' ∷ rest))
      ≡ (is_row_keyword k || mentions_returning true rest)
unfolding as_str as_bytes flat_map encode_utf8 returns_rows begins_with_any begins_with
    mentions_returning is_ascii_whitespace content
named_keyword select rest n = refl
named_keyword insert rest n = refl
named_keyword update rest n = refl
named_keyword delete rest n = refl
named_keyword create rest n = refl
named_keyword drop rest n = refl
named_keyword alter rest n = refl
named_keyword begin rest n = refl
named_keyword commit rest n = refl
named_keyword rollback rest n = refl
named_keyword pragma rest n = refl
named_keyword with_ rest n = refl
named_keyword explain rest n = refl
named_keyword (random a b c d e f) rest n = elim n [ ]

-- The first word of the statement is the keyword.
first_word-named :
    (k : SqlKeyword) (rest : Str)
    → IsNamed k
    → (trim_start (as_str k ++ (b' ' ∷ rest)) ≡ as_str k ++ (b' ' ∷ rest))
      × (first_word (as_str k ++ (b' ' ∷ rest)) ≡ some (as_str k))
unfolding as_str str trim_start_by is_whitespace first_word take_word
first_word-named select rest n = (refl, refl)
first_word-named insert rest n = (refl, refl)
first_word-named update rest n = (refl, refl)
first_word-named delete rest n = (refl, refl)
first_word-named create rest n = (refl, refl)
first_word-named drop rest n = (refl, refl)
first_word-named alter rest n = (refl, refl)
first_word-named begin rest n = (refl, refl)
first_word-named commit rest n = (refl, refl)
first_word-named rollback rest n = (refl, refl)
first_word-named pragma rest n = (refl, refl)
first_word-named with_ rest n = (refl, refl)
first_word-named explain rest n = (refl, refl)
first_word-named (random a b c d e f) rest n = elim n [ ]

abbrev pub KeepsKeywords : (Str → Str) → Type 0
KeepsKeywords to_uppercase = (k : SqlKeyword) → IsNamed k → to_uppercase (as_str k) ≡ as_str k

detect-word :
    (to_uppercase : Str → Str) (ws s word : Str)
    → IsWhite ws
    → trim_start s ≡ s
    → first_word s ≡ some word
    → to_uppercase word ≡ word
    → detect_query_type to_uppercase (ws ++ s) ≡ detect_query_type (λ w. word) []
unfolding detect_query_type
detect-word to_uppercase ws s word w t f u = rw (trim_start-IsWhite ws s w, t, f, u) refl

typed : (k : SqlKeyword) → IsNamed k → detect_query_type (λ w. as_str k) [] ≡ type_of k
unfolding detect_query_type as_str str str_eq
typed select n = refl
typed insert n = refl
typed update n = refl
typed delete n = refl
typed create n = refl
typed drop n = refl
typed alter n = refl
typed begin n = refl
typed commit n = refl
typed rollback n = refl
typed pragma n = refl
typed with_ n = refl
typed explain n = refl
typed (random a b c d e f) n = elim n [ ]

-- The bytes of a statement, piece by piece.
bytes_of :
    (ws word body tail : Str)
    → IsWhite ws
    → as_bytes (ws ++ (word ++ (b' ' ∷ (body ++ tail))))
      ≡ ws ++ (as_bytes word ++ (b' ' ∷ (as_bytes body ++ as_bytes tail)))
bytes_of ws word body tail w =
    as_bytes-append ws (word ++ (b' ' ∷ (body ++ tail)))
    ∙ (ap (λ bs. bs ++ as_bytes (word ++ (b' ' ∷ (body ++ tail)))) (as_bytes-IsWhite ws w)
        ∙ ap (λ bs. ws ++ bs)
            (as_bytes-append word (b' ' ∷ (body ++ tail))
              ∙ ap (λ bs. as_bytes word ++ bs)
                  (spaced ∙ ap (λ bs. b' ' ∷ bs) (as_bytes-append body tail))))
  where
    spaced : as_bytes (b' ' ∷ (body ++ tail)) ≡ b' ' ∷ as_bytes (body ++ tail)
    spaced = unfold as_bytes encode_utf8 flat_map in refl

-- Whether the statement is to return rows.
abbrev pub expected : SqlInput → Bool
expected input =
    is_row_keyword input.keyword
    || (input.has_returning || mentions_returning true (as_bytes input.body))

as_bytes-nil : as_bytes [] ≡ []
unfolding as_bytes flat_map
as_bytes-nil = refl

clause_decides :
    (k : SqlKeyword) (body : Str) (r : Bool)
    → (is_row_keyword k || mentions_returning true (as_bytes body ++ as_bytes (returning_clause r)))
      ≡ (is_row_keyword k || (r || mentions_returning true (as_bytes body)))
clause_decides k body true =
    ap (λ b. is_row_keyword k || b) (mentions_returning-clause true (as_bytes body))
clause_decides k body false =
    ap (λ bs. is_row_keyword k || mentions_returning true (as_bytes body ++ bs)) as_bytes-nil
    ∙ ap (λ bs. is_row_keyword k || mentions_returning true bs) (append-nil (as_bytes body))

-- For an upper-casing that leaves the keywords as they are: a statement of the structured fuzzer
-- with nothing but ASCII whitespace, or nothing, in front of a named keyword makes neither function
-- panic. It is sent to `query()` exactly when the keyword is SELECT, PRAGMA, WITH or EXPLAIN, or
-- the RETURNING clause was put behind it, or its body has RETURNING in it between whitespace or
-- ends, and its type is the one of its keyword, or other for PRAGMA, WITH and EXPLAIN.
pub fuzz_sql_structured-named :
    (to_uppercase : Str → Str) (input : SqlInput)
    → KeepsKeywords to_uppercase
    → IsNamed input.keyword
    → IsWhite (push_some input.leading_whitespace)
    → fuzz_sql_structured to_uppercase input ≡ some (expected input, type_of input.keyword)
unfolding fuzz_sql_structured build_sql
fuzz_sql_structured-named to_uppercase input keeps n w =
    let ws = push_some input.leading_whitespace in
    let k = input.keyword in
    let tail = returning_clause input.has_returning in
    let (starts, word) = first_word-named k (input.body ++ tail) n in
    let routed : routes_to_query (as_bytes (build_sql input)) ≡ some (expected input) =
      routes_to_query-eq-returns_rows _
      ∙ ap some (
          ap returns_rows (bytes_of ws (as_str k) input.body tail w)
          ∙ (returns_rows-IsWhite ws _ w
              ∙ (named_keyword k (as_bytes input.body ++ as_bytes tail) n
                  ∙ clause_decides k input.body input.has_returning))) in
    let typed_eq : detect_query_type to_uppercase (build_sql input) ≡ type_of k =
      detect-word to_uppercase ws _ (as_str k) w starts word (keeps k n) ∙ typed k n in
    rw (routed, typed_eq) refl

-- The target on bytes does not panic either, whatever std takes for UTF-8.
pub fuzz_should_use_query-answers :
    (from_utf8 : Bytes → Option Str) (data_ : Bytes)
    → (answer : Option Bool) × (fuzz_should_use_query from_utf8 data_ ≡ some answer)
unfolding fuzz_should_use_query
fuzz_should_use_query-answers from_utf8 data_ = answered (from_utf8 data_) refl
  where
    answered :
        (sql : Option Str)
        → from_utf8 data_ ≡ sql
        → (answer : Option Bool) × (fuzz_should_use_query from_utf8 data_ ≡ some answer)
    answered none e = (none, rw (fuzz_should_use_query, e) refl)
    answered (some sql) e = (
      some (returns_rows (as_bytes sql)),
      rw (fuzz_should_use_query, e, routes_to_query-eq-returns_rows (as_bytes sql)) refl,
    )
