-- ===== src/Constraint/Quoted.antt =====
-- Quoted identifiers in SQL text, as SQLite reads them.
use ecto_libsql.Common.{
  ℕ, ◌≡◌, refl, ap, Bool, true, false, Bool-cases, inl, inr, ◌∙◌, Option, none, some, [], ◌∷◌, ◌++◌,
  append_assoc, Str, str, arith, ◌==◌, if◌then◌else◌,
}
use mathlib.Core.List.{flat_map}
use ecto_libsql.Text.{double_quotes}
use ecto_libsql.Constraint.{quote_identifier}

abbrev with_char : ℕ → Option (Str × Str) → Option (Str × Str)
with_char c none = none
with_char c (some (id, rest)) = some (c ∷ id, rest)

-- The identifier up to the closing quote, and what stands behind it: two quotes are one.
unfoldable pub read_quoted : Str → Option (Str × Str)
read_quoted [] = none
read_quoted (c ∷ []) = if c == 0x22 then some ([], []) else none
read_quoted (c ∷ d ∷ cs) =
    let doubled = with_char c (read_quoted cs) in
    let more = with_char c (read_quoted (d ∷ cs)) in
    if c == 0x22 then (if d == 0x22 then doubled else some ([], d ∷ cs)) else more

-- The text of a quoted identifier begins with a quote.
unfoldable pub read_identifier : Str → Option (Str × Str)
unfolding read_quoted
read_identifier [] = none
read_identifier (c ∷ cs) = if c == 0x22 then read_quoted cs else none

abbrev pub no_quote_first : Str → Bool
no_quote_first [] = true
no_quote_first (c ∷ cs) = if c == 0x22 then false else true

read_quoted-other :
    (c : ℕ) (cs : Str) → (c == 0x22) ≡ false → read_quoted (c ∷ cs) ≡ with_char c (read_quoted cs)
unfolding read_quoted
read_quoted-other c [] h = ground arith
read_quoted-other c (d ∷ cs) h = rw h refl

read_quoted-end :
    (rest : Str) → no_quote_first rest ≡ true → read_quoted (0x22 ∷ rest) ≡ some ([], rest)
unfolding read_quoted
read_quoted-end [] h = refl
read_quoted-end (c ∷ cs) h = ground arith

read_quoted-pair :
    (c : ℕ) (cs : Str)
    → (c == 0x22) ≡ true
    → read_quoted (c ∷ c ∷ cs) ≡ with_char c (read_quoted cs)
unfolding read_quoted
read_quoted-pair c cs h = rw h refl

double_quotes-nil : double_quotes [] ≡ []
unfolding double_quotes flat_map
double_quotes-nil = refl

double_quotes-quote :
    (c : ℕ) (id ys : Str)
    → (c == 0x22) ≡ true
    → double_quotes (c ∷ id) ++ ys ≡ c ∷ c ∷ (double_quotes id ++ ys)
unfolding double_quotes flat_map
double_quotes-quote c id ys h = rw h refl

double_quotes-other :
    (c : ℕ) (id ys : Str)
    → (c == 0x22) ≡ false
    → double_quotes (c ∷ id) ++ ys ≡ c ∷ (double_quotes id ++ ys)
unfolding double_quotes flat_map
double_quotes-other c id ys h = rw h refl

read_quoted-double_quotes :
    (id rest : Str)
    → no_quote_first rest ≡ true
    → read_quoted (double_quotes id ++ (0x22 ∷ rest)) ≡ some (id, rest)
read_quoted-double_quotes [] rest h = rw double_quotes-nil (read_quoted-end rest h)
read_quoted-double_quotes (c ∷ id) rest h =
    let ih = read_quoted-double_quotes id rest h in
    elim (Bool-cases (c == 0x22)) [
      | inl q ↦
          rw (double_quotes-quote c id (0x22 ∷ rest) q)
            (read_quoted-pair c (double_quotes id ++ (0x22 ∷ rest)) q ∙ ap (with_char c) ih)
      | inr q ↦
          rw (double_quotes-other c id (0x22 ∷ rest) q)
            (read_quoted-other c (double_quotes id ++ (0x22 ∷ rest)) q ∙ ap (with_char c) ih)
    ]

-- Whatever characters a name has, its quoted form is read back as that name, to the last character
-- and no further: what stands behind it is left, provided that it does not begin with a quote.
pub read_identifier-quote_identifier :
    (id rest : Str)
    → no_quote_first rest ≡ true
    → read_identifier (quote_identifier id ++ rest) ≡ some (id, rest)
unfolding quote_identifier read_identifier str
read_identifier-quote_identifier id rest h =
    rw (append_assoc (double_quotes id) (0x22 ∷ []) rest) (read_quoted-double_quotes id rest h)
