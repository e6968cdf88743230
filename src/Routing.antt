-- ===== src/Routing.antt =====
-- `detect_query_type`, `skip_whitespace_and_comments` and `should_use_query` of utils.rs, and
-- `should_use_query_path` of hooks.rs. Positions are indices into the bytes, as in the source, and
-- every access is checked; each loop has as much fuel as there are bytes, plus one.
pub mod Content
pub mod Walks
pub mod Scan
pub mod Documented
pub mod Keywords
pub mod Blank
pub mod Decision
pub mod Agreement
use ecto_libsql.Common.{
  ℕ, zero, suc, ◌+◌, ◌-◌, Bool, true, false, ◌&&◌, ◌||◌, Option, none, some, List, [], ◌∷◌, map,
  Str, str, str_eq, as_bytes, ◌==◌, ltb, leb, if◌then◌else◌, length,
}
use ecto_libsql.Checked.{Checked, ◌>>=◌, index, checked_sub, and_also}
use ecto_libsql.Text.{is_whitespace, is_ascii_whitespace, trim_start}

pub data QueryType : Type 0 where
  select insert update delete create drop alter begin commit rollback other : QueryType

-- `split_whitespace().next()`.
unfoldable pub take_word : Str → Str
take_word [] = []
take_word (c ∷ cs) = let rest = take_word cs in if is_whitespace c then [] else c ∷ rest

unfoldable pub first_word : Str → Option Str
unfolding take_word
first_word s = elim (trim_start s) [ [] ↦ none | c ∷ cs ↦ some (take_word (c ∷ cs)) ]

abbrev pub or_empty : Option Str → Str
or_empty none = []
or_empty (some s) = s

-- Upper-casing is that of Unicode, a parameter.
unfoldable pub detect_query_type : (Str → Str) → Str → QueryType
unfolding first_word
detect_query_type to_uppercase query =
    let keyword = to_uppercase (or_empty (first_word (trim_start query))) in
    if str_eq keyword (str "SELECT")
    then select
    else if str_eq keyword (str "INSERT")
    then insert
    else if str_eq keyword (str "UPDATE")
    then update
    else if str_eq keyword (str "DELETE")
    then delete
    else if str_eq keyword (str "CREATE")
    then create
    else if str_eq keyword (str "DROP")
    then drop
    else if str_eq keyword (str "ALTER")
    then alter
    else if str_eq keyword (str "BEGIN")
    then begin
    else if str_eq keyword (str "COMMIT")
    then commit
    else if str_eq keyword (str "ROLLBACK")
    then rollback
    else other

abbrev pub Bytes : Type 0
Bytes = List ℕ

-- `pos + 1 < len && bytes[pos] == a && bytes[pos + 1] == b`.
pair_at : Bytes → ℕ → ℕ → ℕ → Checked Bool
pair_at bytes pos a b =
    and_also (some (ltb (pos + 1) (length bytes))) (do
      c ← index bytes pos
      and_also (some (c == a)) (do d ← index bytes (pos + 1); some (d == b)))

pub skip_spaces : ℕ → Bytes → ℕ → Checked ℕ
skip_spaces zero bytes pos = none
skip_spaces (suc fuel) bytes pos = elim (ltb pos (length bytes)) [
  | true ↦ do
    c ← index bytes pos
    elim (is_ascii_whitespace c) [ true ↦ skip_spaces fuel bytes (pos + 1) | false ↦ some pos ]
  | false ↦ some pos
]

pub skip_line : ℕ → Bytes → ℕ → Checked ℕ
skip_line zero bytes pos = none
skip_line (suc fuel) bytes pos = elim (ltb pos (length bytes)) [
  | true ↦ do
    c ← index bytes pos
    elim (c == b'\n') [ true ↦ some pos | false ↦ skip_line fuel bytes (pos + 1) ]
  | false ↦ some pos
]

pub skip_newline : Bytes → ℕ → Checked ℕ
skip_newline bytes pos = elim (ltb pos (length bytes)) [
  | true ↦ do c ← index bytes pos; some (if c == b'\n' then pos + 1 else pos)
  | false ↦ some pos
]

pub skip_block : ℕ → Bytes → ℕ → Checked ℕ
unfolding pair_at
skip_block zero bytes pos = none
skip_block (suc fuel) bytes pos = elim (ltb (pos + 1) (length bytes)) [
  | true ↦ do
    closes ← pair_at bytes pos b'*' b'/'
    elim closes [ true ↦ some (pos + 2) | false ↦ skip_block fuel bytes (pos + 1) ]
  | false ↦ some pos
]

skip_loop : ℕ → Bytes → ℕ → Checked ℕ
unfolding skip_spaces pair_at skip_line skip_newline skip_block
skip_loop zero bytes start = none
skip_loop (suc fuel) bytes start = do
  pos ← skip_spaces (suc (length bytes)) bytes start
  elim (leb (length bytes) pos) [
    | true ↦ some pos
    | false ↦ do
      dashes ← pair_at bytes pos b'-' b'-'
      elim dashes [
        | true ↦ do
          end ← skip_line (suc (length bytes)) bytes (pos + 2)
          next ← skip_newline bytes end
          skip_loop fuel bytes next
        | false ↦ do
          opens ← pair_at bytes pos b'/' b'*'
          elim opens [
            | true ↦ do
              next ← skip_block (suc (length bytes)) bytes (pos + 2)
              skip_loop fuel bytes next
            | false ↦ some pos
          ]
      ]
  ]

unfoldable pub skip_whitespace_and_comments : Bytes → Checked ℕ
unfolding skip_loop
skip_whitespace_and_comments bytes = skip_loop (suc (length bytes)) bytes 0

-- A keyword, as the two bytes that each letter may be.
abbrev pub Letters : Type 0
Letters = List (ℕ × ℕ)

abbrev pub explain : Letters
explain =
    (b'E', b'e')
    ∷ (b'X', b'x')
    ∷ (b'P', b'p')
    ∷ (b'L', b'l')
    ∷ (b'A', b'a')
    ∷ (b'I', b'i')
    ∷ (b'N', b'n')
    ∷ []

abbrev pub pragma : Letters
pragma =
    (b'P', b'p') ∷ (b'R', b'r') ∷ (b'A', b'a') ∷ (b'G', b'g') ∷ (b'M', b'm') ∷ (b'A', b'a') ∷ []

abbrev pub select_word : Letters
select_word =
    (b'S', b's') ∷ (b'E', b'e') ∷ (b'L', b'l') ∷ (b'E', b'e') ∷ (b'C', b'c') ∷ (b'T', b't') ∷ []

abbrev pub with_word : Letters
with_word = (b'W', b'w') ∷ (b'I', b'i') ∷ (b'T', b't') ∷ (b'H', b'h') ∷ []

-- `to_ascii_lowercase`.
abbrev to_ascii_lowercase : ℕ → ℕ
to_ascii_lowercase c = if leb b'A' c && leb c b'Z' then c + 32 else c

-- `b"RETURNING"`, each letter with its lower case.
abbrev pub returning : Letters
returning =
    map (λ t. (t, to_ascii_lowercase t))
      (b'R' ∷ b'E' ∷ b'T' ∷ b'U' ∷ b'R' ∷ b'N' ∷ b'I' ∷ b'N' ∷ b'G' ∷ [])

-- The letters from `i` on, and behind them whitespace or the end.
letters_at : Bytes → ℕ → Letters → Checked Bool
letters_at bytes i [] = elim (leb (length bytes) i) [
  | true ↦ some true
  | false ↦ do c ← index bytes i; some (is_ascii_whitespace c)
]
letters_at bytes i ((upper, lower) ∷ ks) = do
  c ← index bytes i
  and_also (some (c == upper || c == lower)) (letters_at bytes (i + 1) ks)

pub keyword_at : Bytes → ℕ → Letters → Checked Bool
unfolding letters_at
keyword_at bytes start ks = do
  room ← checked_sub (length bytes) start
  and_also (some (leb (length ks) room)) (letters_at bytes start ks)

-- `i == 0 || bytes[i - 1].is_ascii_whitespace()`.
preceded : Bytes → ℕ → Checked Bool
preceded bytes i = elim (i == 0) [
  | true ↦ some true
  | false ↦ do before ← checked_sub i 1; c ← index bytes before; some (is_ascii_whitespace c)
]

find_returning : ℕ → Bytes → ℕ → Checked Bool
unfolding preceded letters_at
find_returning zero bytes i = none
find_returning (suc fuel) bytes i = do
  last ← checked_sub (length bytes) 9
  elim (leb i last) [
    | true ↦ do
      found ← and_also (preceded bytes i) (letters_at bytes i returning)
      elim found [ true ↦ some true | false ↦ find_returning fuel bytes (i + 1) ]
    | false ↦ some false
  ]

pub has_returning : Bytes → Checked Bool
unfolding find_returning
has_returning bytes =
    and_also (some (leb 9 (length bytes))) (find_returning (suc (length bytes)) bytes 0)

-- The tests in the order of the source: the first that holds answers.
unfoldable pub any_of : Bytes → ℕ → List Letters → Checked Bool
unfolding keyword_at has_returning
any_of bytes start [] = has_returning bytes
any_of bytes start (ks ∷ more) = do
  found ← keyword_at bytes start ks
  elim found [ true ↦ some true | false ↦ any_of bytes start more ]

abbrev pub row_keywords : List Letters
row_keywords = explain ∷ pragma ∷ select_word ∷ with_word ∷ []

-- `should_use_query` on the bytes of the statement.
unfoldable pub routes_to_query : Bytes → Checked Bool
routes_to_query bytes = elim (length bytes == 0) [
  | true ↦ some false
  | false ↦ do
    start ← skip_whitespace_and_comments bytes
    elim (leb (length bytes) start) [ true ↦ some false | false ↦ any_of bytes start row_keywords ]
]

-- A panic would unwind out of the NIF; `routes_to_query` has none, so the default is never read.
abbrev or_false : Option Bool → Bool
or_false none = false
or_false (some b) = b

unfoldable pub should_use_query : Str → Bool
unfolding routes_to_query
should_use_query sql = or_false (routes_to_query (as_bytes sql))

pub should_use_query_path : Str → Bool
should_use_query_path sql = should_use_query sql
