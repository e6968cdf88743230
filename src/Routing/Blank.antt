-- ===== src/Routing/Blank.antt =====
-- Text that a statement may begin with and that says nothing: whitespace, line comments with their
-- newline, and closed block comments.
use ecto_libsql.Common.{
  ℕ, Bool, true, false, ◌&&◌, ◌||◌, ◌≡◌, refl, ◌∙◌, [], ◌∷◌, ◌++◌, append_assoc, arith, ◌==◌,
  if◌then◌else◌,
}
use ecto_libsql.Text.{is_ascii_whitespace}
use ecto_libsql.Routing.{Bytes, Letters}
use ecto_libsql.Routing.Content.{content, code, line, block, begins_with}

abbrev pub has_byte : ℕ → Bytes → Bool
has_byte b [] = false
has_byte b (c ∷ cs) = c == b || has_byte b cs

-- `*/` stands somewhere in the text.
abbrev pub has_close : Bytes → Bool
has_close [] = false
has_close (c ∷ []) = false
has_close (c ∷ d ∷ cs) = c == b'*' && d == b'/' || has_close (d ∷ cs)

pub data Blank : Bytes → Type 0 where
  nothing : Blank []
  space : {c : ℕ} {cs : Bytes} → is_ascii_whitespace c ≡ true → Blank cs → Blank (c ∷ cs)
  line_comment :
      (note : Bytes) {cs : Bytes}
      → has_byte b'\n' note ≡ false
      → Blank cs
      → Blank (b'-' ∷ b'-' ∷ (note ++ (b'\n' ∷ cs)))
  block_comment :
      (note : Bytes) {cs : Bytes}
      → has_close note ≡ false
      → Blank cs
      → Blank (b'/' ∷ b'*' ∷ (note ++ (b'*' ∷ b'/' ∷ cs)))

content-space :
    (c : ℕ) (cs : Bytes) → is_ascii_whitespace c ≡ true → content code (c ∷ cs) ≡ content code cs
unfolding content
content-space c [] h = rw h
content-space c (d ∷ cs) h = rw h

content-note :
    (note cs : Bytes)
    → has_byte b'\n' note ≡ false
    → content line (note ++ (b'\n' ∷ cs)) ≡ content code cs
unfolding content
content-note [] cs h = refl
content-note (c ∷ note) cs h = ground (arith, content-note note cs)

content-closed :
    (note cs : Bytes)
    → has_close note ≡ false
    → content block (note ++ (b'*' ∷ b'/' ∷ cs)) ≡ content code cs
unfolding content
content-closed [] cs h = refl
content-closed (c ∷ []) cs h = ground arith
content-closed (c ∷ d ∷ note) cs h = ground (arith, content-closed (d ∷ note) cs)

content-dashes : (cs : Bytes) → content code (b'-' ∷ b'-' ∷ cs) ≡ content line cs
unfolding content is_ascii_whitespace
content-dashes cs = refl

pub content-opens : (cs : Bytes) → content code (b'/' ∷ b'*' ∷ cs) ≡ content block cs
unfolding content is_ascii_whitespace
content-opens cs = refl

-- Blank text does not change what a statement holds.
pub content-Blank :
    {blank : Bytes} (rest : Bytes) → Blank blank → content code (blank ++ rest) ≡ content code rest
content-Blank rest nothing = refl
content-Blank rest (space {c} {cs} h b) = content-space c (cs ++ rest) h ∙ content-Blank rest b
content-Blank rest (line_comment note {cs} h b) =
    rw (append_assoc note (b'\n' ∷ cs) rest)
      (content-dashes _ ∙ content-note note (cs ++ rest) h ∙ content-Blank rest b)
content-Blank rest (block_comment note {cs} h b) =
    rw (append_assoc note (b'*' ∷ b'/' ∷ cs) rest)
      (content-opens _ ∙ content-closed note (cs ++ rest) h ∙ content-Blank rest b)

-- A byte that begins neither whitespace nor a comment begins the content.
pub content-head :
    (c : ℕ) (cs : Bytes)
    → is_ascii_whitespace c ≡ false
    → (c == b'-') ≡ false
    → (c == b'/') ≡ false
    → content code (c ∷ cs) ≡ c ∷ cs
unfolding content
content-head c [] s d k = rw s
content-head c (e ∷ cs) s d k = rw (s, d, k)

-- A block comment that is not closed is skipped but for its last byte.
pub content-unclosed :
    (note : Bytes) (last : ℕ)
    → has_close (note ++ last ∷ []) ≡ false
    → content block (note ++ last ∷ []) ≡ (if is_ascii_whitespace last then [] else last ∷ [])
unfolding content
content-unclosed [] last h = refl
content-unclosed (c ∷ []) last h = ground arith
content-unclosed (c ∷ d ∷ note) last h = ground (arith, content-unclosed (d ∷ note) last)

-- The word has the letters of the keyword, each in either case.
pub data Spells : Letters → Bytes → Type 0 where
  done : Spells [] []
  letter :
      {upper lower c : ℕ} {ks : Letters} {cs : Bytes}
      → (c == upper || c == lower) ≡ true
      → Spells ks cs
      → Spells ((upper, lower) ∷ ks) (c ∷ cs)

-- The end, or whitespace.
abbrev pub at_boundary : Bytes → Bool
at_boundary [] = true
at_boundary (c ∷ cs) = is_ascii_whitespace c

pub begins_with-Spells :
    {ks : Letters} {word : Bytes} (rest : Bytes)
    → Spells ks word
    → begins_with ks (word ++ rest) ≡ at_boundary rest
unfolding begins_with
begins_with-Spells [] done = refl
begins_with-Spells (c ∷ rest) done = refl
begins_with-Spells rest (letter h s) = rw h (begins_with-Spells rest s)
