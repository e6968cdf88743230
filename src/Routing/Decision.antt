-- ===== src/Routing/Decision.antt =====
-- What `should_use_query` decides, for whole classes of statements.
use ecto_libsql.Common.{
  ℕ, ◌≡◌, refl, ap, ◌≢◌, ◌⊎◌, Bool, true, false, some, List, [], ◌∷◌, ◌++◌, arith, length, ◌∙◌, inl,
  inr, drop-nil, drop-cons, leb, ◌&&◌, ◌||◌, ◌==◌,
}
use ecto_libsql.Text.{is_ascii_whitespace}
use ecto_libsql.Routing.{Bytes, Letters, routes_to_query, row_keywords, returning, select_word}
use ecto_libsql.Routing.Content.{
  content, code, returns_rows, begins_with, begins_with_any, mentions_returning,
}
use ecto_libsql.Routing.Scan.{skip-Lands}
use ecto_libsql.Routing.Keywords.{any_of-begins_with_any}
use ecto_libsql.Routing.Blank.{
  Blank, content-Blank, content-head, Spells, letter, at_boundary, begins_with-Spells,
}

decide :
    (bytes rest : Bytes)
    → length bytes ≢ 0
    → content code bytes ≡ rest
    → routes_to_query bytes ≡ some (returns_rows bytes)
unfolding routes_to_query returns_rows
decide bytes [] n e =
    let l = skip-Lands bytes in rw e (ground (arith, l.runs, drop-nil l.pos bytes (l.at_rest ∙ e)))
decide bytes (d ∷ ds) n e =
    let l = skip-Lands bytes in
    let found =
      any_of-begins_with_any row_keywords bytes (d ∷ ds) l.pos (l.at_rest ∙ e) l.in_range in
    rw e (ground (arith, l.runs, drop-cons l.pos bytes (l.at_rest ∙ e), found))

-- `should_use_query` on any bytes ends within its fuel, without an index out of range or a
-- subtraction below 0. It answers true exactly when something stands behind the leading
-- whitespace and comments, and either that begins with EXPLAIN, PRAGMA, SELECT or WITH in any
-- case, before whitespace or the end, or RETURNING stands anywhere between whitespace or ends; the
-- last byte of a block comment that is not closed is taken to stand behind it.
pub routes_to_query-eq-returns_rows :
    (bytes : Bytes) → routes_to_query bytes ≡ some (returns_rows bytes)
routes_to_query-eq-returns_rows [] = unfold routes_to_query returns_rows content in refl
routes_to_query-eq-returns_rows (c ∷ cs) =
    decide (c ∷ cs) (content code (c ∷ cs)) (ground arith) refl

-- A keyword of `row_keywords`.
abbrev pub Among : Letters → List Letters → Type 0
Among ks [] = ⊥
Among ks (x ∷ more) = (ks ≡ x) ⊎ Among ks more

begins_with_any-Among :
    (ks : Letters) (kss : List Letters) (bytes : Bytes)
    → Among ks kss
    → begins_with ks bytes ≡ true
    → begins_with_any kss bytes ≡ true
unfolding begins_with_any
begins_with_any-Among ks [] bytes a h = absurd a
begins_with_any-Among ks (x ∷ more) bytes (inl e) h = rw (← e) (rw h)
begins_with_any-Among ks (x ∷ more) bytes (inr a) h =
    ground (arith, begins_with_any-Among ks more bytes a h)

-- A statement that begins with one of the keywords begins with its content.
abbrev explain_tail : Letters
explain_tail =
    (b'X', b'x') ∷ (b'P', b'p') ∷ (b'L', b'l') ∷ (b'A', b'a') ∷ (b'I', b'i') ∷ (b'N', b'n') ∷ []

abbrev pragma_tail : Letters
pragma_tail = (b'R', b'r') ∷ (b'A', b'a') ∷ (b'G', b'g') ∷ (b'M', b'm') ∷ (b'A', b'a') ∷ []

abbrev select_tail : Letters
select_tail = (b'E', b'e') ∷ (b'L', b'l') ∷ (b'E', b'e') ∷ (b'C', b'c') ∷ (b'T', b't') ∷ []

abbrev with_tail : Letters
with_tail = (b'I', b'i') ∷ (b'T', b't') ∷ (b'H', b'h') ∷ []

begins_with-cons :
    (u l : ℕ) (ks : Letters) (c : ℕ) (cs : Bytes)
    → begins_with ((u, l) ∷ ks) (c ∷ cs) ≡ ((c == u || c == l) && begins_with ks cs)
unfolding begins_with
begins_with-cons u l ks c cs = refl

first_letter :
    (c : ℕ) (cs : Bytes)
    → begins_with_any row_keywords (c ∷ cs) ≡ true
    → (leb b'A' c && leb c b'z') ≡ true
unfolding begins_with_any
first_letter c cs h = ground (
  arith,
  begins_with-cons b'E' b'e' explain_tail c cs,
  begins_with-cons b'P' b'p' pragma_tail c cs,
  begins_with-cons b'S' b's' select_tail c cs,
  begins_with-cons b'W' b'w' with_tail c cs,
)

pub content_letter :
    (c : ℕ) (cs : Bytes) → (leb b'A' c && leb c b'z') ≡ true → content code (c ∷ cs) ≡ c ∷ cs
unfolding is_ascii_whitespace
content_letter c cs h = content-head c cs (ground arith) (ground arith) (ground arith)

content-keyword :
    (bytes : Bytes) → begins_with_any row_keywords bytes ≡ true → content code bytes ≡ bytes
content-keyword [] h = unfold content in refl
content-keyword (c ∷ cs) h = content_letter c cs (first_letter c cs h)

returns_rows-keyword :
    (bytes rest : Bytes)
    → content code bytes ≡ content code rest
    → begins_with_any row_keywords rest ≡ true
    → returns_rows bytes ≡ true
unfolding returns_rows
returns_rows-keyword bytes [] e h = unfold begins_with_any begins_with in cc
returns_rows-keyword bytes (c ∷ cs) e h = rw (e, content-keyword (c ∷ cs) h, h)

-- Behind any whitespace and complete comments, EXPLAIN, PRAGMA, SELECT or WITH in any mix of
-- cases, before whitespace or the end, goes to `query()`, whatever follows.
pub routes_to_query-keyword :
    {blank word : Bytes} (ks : Letters) (rest : Bytes)
    → Blank blank
    → Among ks row_keywords
    → Spells ks word
    → at_boundary rest ≡ true
    → routes_to_query (blank ++ (word ++ rest)) ≡ some true
routes_to_query-keyword {blank} {word} ks rest b a s h =
    routes_to_query-eq-returns_rows _
    ∙ ap some (
        returns_rows-keyword _ (word ++ rest) (content-Blank (word ++ rest) b)
          (begins_with_any-Among ks row_keywords _ a (begins_with-Spells rest s ∙ h)))

-- Whether a word may begin behind the text.
abbrev pub open_after : Bool → Bytes → Bool
open_after m [] = m
open_after m (c ∷ cs) = open_after (is_ascii_whitespace c) cs

pub mentions_returning-word :
    (m : Bool) (front bytes : Bytes)
    → open_after m front ≡ true
    → begins_with returning bytes ≡ true
    → mentions_returning m (front ++ bytes) ≡ true
unfolding mentions_returning
mentions_returning-word m [] [] o h = unfold begins_with in cc
mentions_returning-word m [] (c ∷ cs) o h = rw (o, h)
mentions_returning-word m (c ∷ front) bytes o h =
    ground (arith, mentions_returning-word (is_ascii_whitespace c) front bytes o h)

returns_rows-returning :
    (bytes rest : Bytes)
    → content code bytes ≡ rest
    → rest ≢ []
    → mentions_returning true bytes ≡ true
    → returns_rows bytes ≡ true
unfolding returns_rows
returns_rows-returning bytes [] e n h = absurd (n refl)
returns_rows-returning bytes (c ∷ cs) e n h = ground arith

-- A statement with any content goes to `query()` if RETURNING, in any mix of cases, stands in it
-- between whitespace or the ends, in a string literal or a comment as well.
pub routes_to_query-returning :
    {word : Bytes} (front rest : Bytes)
    → content code (front ++ (word ++ rest)) ≢ []
    → open_after true front ≡ true
    → Spells returning word
    → at_boundary rest ≡ true
    → routes_to_query (front ++ (word ++ rest)) ≡ some true
routes_to_query-returning {word} front rest n o s h =
    let bytes : Bytes = front ++ (word ++ rest) in
    let found =
      mentions_returning-word true front (word ++ rest) o (begins_with-Spells rest s ∙ h) in
    routes_to_query-eq-returns_rows bytes ∙ ap some (returns_rows-returning bytes _ refl n found)

returns_rows-glued :
    {word : Bytes} (c : ℕ) (bytes rest : Bytes)
    → Spells select_word word
    → content code bytes ≡ content code (word ++ (c ∷ rest))
    → is_ascii_whitespace c ≡ false
    → returns_rows bytes ≡ mentions_returning true bytes
unfolding returns_rows begins_with_any
returns_rows-glued c bytes rest (letter {c = d} {cs = ds} l s) e h =
    let glued : begins_with select_word (d ∷ (ds ++ (c ∷ rest))) ≡ false =
      begins_with-Spells (c ∷ rest) (letter {upper = b'S'} {lower = b's'} {c = d} l s) ∙ h in
    let here = content_letter d (ds ++ (c ∷ rest)) (ground arith) in
    rw (e, here)
      (ground (
        arith,
        glued,
        begins_with-cons b'E' b'e' explain_tail d (ds ++ (c ∷ rest)),
        begins_with-cons b'P' b'p' pragma_tail d (ds ++ (c ∷ rest)),
        begins_with-cons b'W' b'w' with_tail d (ds ++ (c ∷ rest)),
      ))

-- A SELECT with anything but whitespace behind it, such as `SELECT*`, is not seen as one: it goes
-- to `execute()` unless RETURNING is mentioned.
pub routes_to_query-glued :
    {blank word : Bytes} (c : ℕ) (rest : Bytes)
    → Blank blank
    → Spells select_word word
    → is_ascii_whitespace c ≡ false
    → routes_to_query (blank ++ (word ++ (c ∷ rest)))
      ≡ some (mentions_returning true (blank ++ (word ++ (c ∷ rest))))
routes_to_query-glued {blank} {word} c rest b s h =
    routes_to_query-eq-returns_rows _
    ∙ ap some (returns_rows-glued c _ rest s (content-Blank (word ++ (c ∷ rest)) b) h)
