-- ===== src/Text.antt =====
-- The parts of std's `str` that the code uses, over code points: trimming, splitting, searching,
-- replacing and decimal numbers.
pub mod Ends
pub mod Pieces
use mathlib.Core.List.{reverse}
use ecto_libsql.Common.{
  ℕ, zero, suc, ◌+◌, ◌/◌, ◌%◌, Bool, true, false, ◌&&◌, ◌||◌, Option, none, some, List, [], ◌∷◌,
  flat_map, Str, ◌==◌, leb, if◌then◌else◌,
}

-- `char::is_whitespace`, the Unicode property White_Space.
unfoldable pub is_whitespace : ℕ → Bool
is_whitespace c =
    leb 9 c && leb c 13
    || c == 0x20
    || c == 0x85
    || c == 0xa0
    || c == 0x1680
    || leb 0x2000 c && leb c 0x200a
    || c == 0x2028
    || c == 0x2029
    || c == 0x202f
    || c == 0x205f
    || c == 0x3000

-- `u8::is_ascii_whitespace`: tab, line feed, form feed, carriage return, space.
unfoldable pub is_ascii_whitespace : ℕ → Bool
is_ascii_whitespace c = c == 9 || c == 10 || c == 12 || c == 13 || c == 32

unfoldable pub trim_start_by : (ℕ → Bool) → Str → Str
trim_start_by p [] = []
trim_start_by p (c ∷ cs) = let rest = trim_start_by p cs in if p c then rest else c ∷ cs

unfoldable pub trim_end_by : (ℕ → Bool) → Str → Str
unfolding trim_start_by
trim_end_by p s = reverse (trim_start_by p (reverse s))

abbrev pub trim_start : Str → Str
trim_start = trim_start_by is_whitespace

abbrev pub trim_end : Str → Str
trim_end = trim_end_by is_whitespace

abbrev pub trim : Str → Str
trim s = trim_end (trim_start s)

abbrev pub is_backtick : ℕ → Bool
is_backtick c = c == 0x60

unfoldable pub strip_prefix : Str → Str → Option Str
strip_prefix [] s = some s
strip_prefix (p ∷ ps) [] = none
strip_prefix (p ∷ ps) (c ∷ cs) = let rest = strip_prefix ps cs in if p == c then rest else none

-- What stands behind the first occurrence of a pattern, and what stands in front of it.
unfoldable pub after : Str → Str → Option Str
unfolding strip_prefix
after pat [] = strip_prefix pat []
after pat (c ∷ cs) = elim (strip_prefix pat (c ∷ cs)) [ some r ↦ some r | none ↦ after pat cs ]

unfoldable pub before : Str → Str → Str
unfolding strip_prefix
before pat [] = []
before pat (c ∷ cs) = elim (strip_prefix pat (c ∷ cs)) [ some r ↦ [] | none ↦ c ∷ before pat cs ]

-- `s.split(pat).nth(1)`: from the first occurrence up to the second, or the end.
unfoldable pub split_second : Str → Str → Option Str
unfolding after before
split_second pat s = elim (after pat s) [ some r ↦ some (before pat r) | none ↦ none ]

-- `s.contains(pat)`.
unfoldable pub contains : Str → Str → Bool
unfolding after
contains pat s = elim (after pat s) [ some r ↦ true | none ↦ false ]

onto_first : ℕ → List Str → List Str
onto_first c [] = (c ∷ []) ∷ []
onto_first c (p ∷ ps) = (c ∷ p) ∷ ps

-- `s.split(c)`.
unfoldable pub split : ℕ → Str → List Str
unfolding onto_first
split d [] = [] ∷ []
split d (c ∷ cs) = let rest = split d cs in if c == d then [] ∷ rest else onto_first c rest

unfoldable pub last_or : Str → List Str → Str
last_or d [] = d
last_or d (p ∷ ps) = last_or p ps

-- `s.replace("\"", "\"\"")`.
unfoldable pub double_quotes : Str → Str
double_quotes = flat_map (λ c. if c == 0x22 then c ∷ c ∷ [] else c ∷ [])

decimal_onto : ℕ → ℕ → Str → Str
decimal_onto zero n acc = acc
decimal_onto (suc fuel) n acc =
    let rest = decimal_onto fuel (n / 10) ((b'0' + n % 10) ∷ acc) in if n == 0 then acc else rest

-- `{n}`: a number has fewer digits than its value plus one.
unfoldable pub decimal : ℕ → Str
unfolding decimal_onto
decimal n = if n == 0 then b'0' ∷ [] else decimal_onto (suc n) n []
