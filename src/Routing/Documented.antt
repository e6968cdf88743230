-- ===== src/Routing/Documented.antt =====
-- `skip_whitespace_and_comments` against its doc: the first character that is not whitespace and
-- not in a comment, whether the last comment is closed or not.
use ecto_libsql.Common.{
  ℕ, ◌≡◌, refl, ◌∙◌, inl, inr, Bool, true, false, Bool-cases, ◌&&◌, ◌||◌, ap, Option, none, some,
  [], ◌∷◌, ◌==◌, if◌then◌else◌, arith,
}
use ecto_libsql.Text.{is_ascii_whitespace}
use ecto_libsql.Routing.{Bytes, row_keywords, routes_to_query, skip_whitespace_and_comments}
use ecto_libsql.Routing.Content.{
  Mode, code, line, block, content, returns_rows, is_some_content, begins_with, begins_with_any,
  mentions_returning,
}
use ecto_libsql.Routing.Walks.{Lands}
use ecto_libsql.Routing.Scan.{skip-Lands}
use ecto_libsql.Routing.Decision.{routes_to_query-eq-returns_rows}

-- The text from the first character outside of whitespace and comments on. A comment that is not
-- closed goes to the end.
unfoldable pub statement : Mode → Bytes → Bytes
statement m [] = []
statement code (c ∷ []) = if is_ascii_whitespace c then [] else c ∷ []
statement code (c ∷ d ∷ cs) =
    let inner = statement code (d ∷ cs) in
    let past_line = statement line cs in
    let past_block = statement block cs in
    if is_ascii_whitespace c
    then inner
    else if c == b'-' && d == b'-'
    then past_line
    else if c == b'/' && d == b'*'
    then past_block
    else c ∷ d ∷ cs
statement line (c ∷ cs) =
    let after = statement code cs in
    let more = statement line cs in if c == b'\n' then after else more
statement block (c ∷ []) = []
statement block (c ∷ d ∷ cs) =
    let after = statement code cs in
    let more = statement block (d ∷ cs) in if c == b'*' && d == b'/' then after else more

-- If the leading comments end in a block comment that is not closed, its last byte, unless that is
-- whitespace.
unfoldable pub open_comment : Mode → Bytes → Option Bytes
open_comment code [] = none
open_comment line [] = none
open_comment block [] = some []
open_comment code (c ∷ []) = none
open_comment code (c ∷ d ∷ cs) =
    let inner = open_comment code (d ∷ cs) in
    let past_line = open_comment line cs in
    let past_block = open_comment block cs in
    if is_ascii_whitespace c
    then inner
    else if c == b'-' && d == b'-'
    then past_line
    else if c == b'/' && d == b'*'
    then past_block
    else none
open_comment line (c ∷ cs) =
    let after = open_comment code cs in
    let more = open_comment line cs in if c == b'\n' then after else more
open_comment block (c ∷ []) = some (if is_ascii_whitespace c then [] else c ∷ [])
open_comment block (c ∷ d ∷ cs) =
    let after = open_comment code cs in
    let more = open_comment block (d ∷ cs) in if c == b'*' && d == b'/' then after else more

-- The scan is at the statement, or in a comment that is not closed, behind which nothing stands.
abbrev Agrees : Option Bytes → Bytes → Bytes → Type 0
Agrees none text found = found ≡ text
Agrees (some last) text found =
    (text ≡ []) × (found ≡ last) × (begins_with_any row_keywords last ≡ false)

no_keyword : begins_with_any row_keywords [] ≡ false
unfolding begins_with_any begins_with
no_keyword = refl

short : (c : ℕ) → begins_with_any row_keywords (c ∷ []) ≡ false
unfolding begins_with_any begins_with
short c = ground arith

last_byte :
    (c : ℕ) → begins_with_any row_keywords (if is_ascii_whitespace c then [] else c ∷ []) ≡ false
last_byte c = elim (Bool-cases (is_ascii_whitespace c)) [
  | inl w ↦ rw w no_keyword
  | inr w ↦ rw w (short c)
]

content-Agrees :
    (m : Mode) (bytes : Bytes) → Agrees (open_comment m bytes) (statement m bytes) (content m bytes)
unfolding content statement open_comment
content-Agrees code [] = refl
content-Agrees line [] = refl
content-Agrees block [] = (refl, refl, no_keyword)
content-Agrees code (c ∷ []) = refl
content-Agrees code (c ∷ d ∷ cs) = elim (Bool-cases (is_ascii_whitespace c)) [
  | inl w ↦ rw w (content-Agrees code (d ∷ cs))
  | inr w ↦ elim (Bool-cases (c == b'-' && d == b'-')) [
    | inl l ↦ rw (w, l) (content-Agrees line cs)
    | inr l ↦ elim (Bool-cases (c == b'/' && d == b'*')) [
      | inl b ↦ rw (w, l, b) (content-Agrees block cs)
      | inr b ↦ rw (w, l, b) refl
    ]
  ]
]
content-Agrees line (c ∷ cs) = elim (Bool-cases (c == b'\n')) [
  | inl e ↦ rw e (content-Agrees code cs)
  | inr e ↦ rw e (content-Agrees line cs)
]
content-Agrees block (c ∷ []) = (refl, refl, last_byte c)
content-Agrees block (c ∷ d ∷ cs) = elim (Bool-cases (c == b'*' && d == b'/')) [
  | inl e ↦ rw e (content-Agrees code cs)
  | inr e ↦ rw e (content-Agrees block (d ∷ cs))
]

Lands-at :
    (bytes rest text : Bytes)
    → Lands bytes (skip_whitespace_and_comments bytes) rest
    → rest ≡ text
    → Lands bytes (skip_whitespace_and_comments bytes) text
Lands-at bytes rest text l e = record {
  pos = l.pos;
  runs = l.runs;
  at_rest = l.at_rest ∙ e;
  in_range = l.in_range;
}

-- Where the scan ends.
pub data Ends (bytes : Bytes) : Type 0 where
  at_statement :
      open_comment code bytes ≡ none
      → Lands bytes (skip_whitespace_and_comments bytes) (statement code bytes)
      → Ends bytes
  in_comment :
      (last : Bytes)
      → open_comment code bytes ≡ some last
      → statement code bytes ≡ []
      → Lands bytes (skip_whitespace_and_comments bytes) last
      → Ends bytes

ends :
    (bytes : Bytes) (left_open : Option Bytes)
    → open_comment code bytes ≡ left_open
    → Agrees left_open (statement code bytes) (content code bytes)
    → Ends bytes
ends bytes none e a = at_statement e (Lands-at bytes _ _ (skip-Lands bytes) a)
ends bytes (some last) e (n, a, k) = in_comment last e n (Lands-at bytes _ _ (skip-Lands bytes) a)

-- `skip_whitespace_and_comments` on any bytes ends within its fuel, without an index out of range
-- or a subtraction below 0. If no comment is left open, it stands where its doc says: at the first
-- character that is not whitespace and in no comment, or at the end. If the last comment in front
-- is a block comment that is not closed, nothing stands behind it, but the scan ends at the last
-- byte within the comment, unless there is none or it is whitespace, and then at the end.
pub skip-Ends : (bytes : Bytes) → Ends bytes
skip-Ends bytes = ends bytes (open_comment code bytes) refl (content-Agrees code bytes)

-- What the bytes are to be routed by: the statement behind the comments, or the byte that is taken
-- for one.
abbrev decided : Option Bytes → Bytes → Bool → Bool
decided none text returning_somewhere =
    is_some_content text && (begins_with_any row_keywords text || returning_somewhere)
decided (some last) text returning_somewhere = is_some_content last && returning_somewhere

unfoldable pub needs_query : Bytes → Bool
needs_query bytes =
    decided (open_comment code bytes) (statement code bytes) (mentions_returning true bytes)

decided-Agrees :
    (left_open : Option Bytes) (text found : Bytes) (m : Bool)
    → Agrees left_open text found
    → (is_some_content found && (begins_with_any row_keywords found || m))
      ≡ decided left_open text m
decided-Agrees none text found m e = rw e refl
decided-Agrees (some last) text found m (n, e, k) = rw (e, k) refl

-- `should_use_query` on any bytes ends within its fuel, without an index out of range or a
-- subtraction below 0. Where no block comment in front is left open, it answers true exactly when
-- something stands behind the leading whitespace and comments, and either that begins with
-- EXPLAIN, PRAGMA, SELECT or WITH in any case, before whitespace or the end, or RETURNING stands
-- anywhere between whitespace or ends. Where one is left open, nothing stands behind it, but the
-- answer is still true when that comment has a last byte that is not whitespace and RETURNING
-- stands anywhere.
pub routes_to_query-eq-needs_query :
    (bytes : Bytes) → routes_to_query bytes ≡ some (needs_query bytes)
unfolding returns_rows needs_query
routes_to_query-eq-needs_query bytes =
    routes_to_query-eq-returns_rows bytes
    ∙ ap some (decided-Agrees (open_comment code bytes) _ _ _ (content-Agrees code bytes))
