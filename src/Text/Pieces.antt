-- ===== src/Text/Pieces.antt =====
-- Searching and splitting: what stands in front of a pattern, and behind it.
use ecto_libsql.Common.{
  ℕ, ◌≡◌, refl, ap, ◌∙◌, Bool, true, false, none, some, List, [], ◌∷◌, ◌++◌, Str, arith, ◌==◌,
}
use ecto_libsql.Text.{strip_prefix, after, before, split_second, contains, onto_first, split}
use ecto_libsql.Text.Ends.{any}

abbrev pub is_char : ℕ → ℕ → Bool
is_char k c = c == k

strip_prefix-absent :
    (k : ℕ) (p : ℕ) (ps s : Str)
    → any (is_char k) (p ∷ ps) ≡ true
    → any (is_char k) s ≡ false
    → strip_prefix (p ∷ ps) s ≡ none
unfolding strip_prefix
strip_prefix-absent k p ps [] e h = refl
strip_prefix-absent k p [] (c ∷ cs) e h = ground arith
strip_prefix-absent k p (q ∷ qs) (c ∷ cs) e h = ground (arith, strip_prefix-absent k q qs cs)

before-cons :
    (pat : Str) (c : ℕ) (cs : Str)
    → strip_prefix pat (c ∷ cs) ≡ none
    → before pat (c ∷ cs) ≡ c ∷ before pat cs
unfolding before
before-cons pat c cs h = rw (before, h) refl

-- A pattern with a character that the text has not.
pub before-absent :
    (k : ℕ) (p : ℕ) (ps s : Str)
    → any (is_char k) (p ∷ ps) ≡ true
    → any (is_char k) s ≡ false
    → before (p ∷ ps) s ≡ s
before-absent k p ps [] e h = unfold before in refl
before-absent k p ps (c ∷ cs) e h =
    before-cons (p ∷ ps) c cs (strip_prefix-absent k p ps (c ∷ cs) e h)
    ∙ ap (λ s. c ∷ s) (before-absent k p ps cs e (ground arith))

strip_prefix-append : (pat s : Str) → strip_prefix pat (pat ++ s) ≡ some s
unfolding strip_prefix
strip_prefix-append [] s = refl
strip_prefix-append (p ∷ ps) s = ground (arith, strip_prefix-append ps s)

strip_prefix-other :
    (p : ℕ) (ps : Str) (c : ℕ) (cs : Str)
    → is_char p c ≡ false
    → strip_prefix (p ∷ ps) (c ∷ cs) ≡ none
unfolding strip_prefix
strip_prefix-other p ps c cs h = ground arith

after-here :
    (pat : Str) (c : ℕ) (cs rest : Str)
    → strip_prefix pat (c ∷ cs) ≡ some rest
    → after pat (c ∷ cs) ≡ some rest
unfolding after
after-here pat c cs rest h = rw (after, h) refl

after-later :
    (pat : Str) (c : ℕ) (cs : Str)
    → strip_prefix pat (c ∷ cs) ≡ none
    → after pat (c ∷ cs) ≡ after pat cs
unfolding after
after-later pat c cs h = rw (after, h) refl

-- A pattern behind a text without its first character.
after-first :
    (p : ℕ) (ps front s : Str)
    → any (is_char p) front ≡ false
    → after (p ∷ ps) (front ++ ((p ∷ ps) ++ s)) ≡ some s
after-first p ps [] s h = after-here (p ∷ ps) p (ps ++ s) s (strip_prefix-append (p ∷ ps) s)
after-first p ps (c ∷ front) s h =
    after-later (p ∷ ps) c _ (strip_prefix-other p ps c _ (ground arith))
    ∙ after-first p ps front s (ground arith)

pub contains-first :
    (p : ℕ) (ps front s : Str)
    → any (is_char p) front ≡ false
    → contains (p ∷ ps) (front ++ ((p ∷ ps) ++ s)) ≡ true
unfolding contains
contains-first p ps front s h = rw (contains, after-first p ps front s h) refl

-- What stands behind the only occurrence of a pattern.
pub split_second-only :
    (p : ℕ) (ps front s : Str) (k : ℕ)
    → any (is_char p) front ≡ false
    → any (is_char k) (p ∷ ps) ≡ true
    → any (is_char k) s ≡ false
    → split_second (p ∷ ps) (front ++ ((p ∷ ps) ++ s)) ≡ some s
unfolding split_second
split_second-only p ps front s k h e a =
    rw (split_second, after-first p ps front s h) (ap some (before-absent k p ps s e a))

split-other :
    (d c : ℕ) (cs first : Str) (more : List Str)
    → is_char d c ≡ false
    → split d cs ≡ first ∷ more
    → split d (c ∷ cs) ≡ (c ∷ first) ∷ more
unfolding split onto_first
split-other d c cs first more h e = rw (h, e) refl

split-here : (d : ℕ) (rest : Str) → split d (d ∷ rest) ≡ [] ∷ split d rest
unfolding split
split-here d rest = ground arith

-- The only piece, and the first of several.
pub split-whole : (d : ℕ) (s : Str) → any (is_char d) s ≡ false → split d s ≡ s ∷ []
split-whole d [] h = unfold split in refl
split-whole d (c ∷ cs) h = split-other d c cs cs [] (ground arith) (split-whole d cs (ground arith))

pub split-piece :
    (d : ℕ) (s rest : Str)
    → any (is_char d) s ≡ false
    → split d (s ++ (d ∷ rest)) ≡ s ∷ split d rest
split-piece d [] rest h = split-here d rest
split-piece d (c ∷ cs) rest h =
    split-other d c (cs ++ (d ∷ rest)) cs (split d rest) (ground arith)
      (split-piece d cs rest (ground arith))
