-- ===== src/Routing/Walks.antt =====
-- The inner index loops against the recursive reading of the bytes: none of them panics or runs
-- out of its fuel. `rest` is what stands at the index.
use native.Mathlib.Numerals.{add-one}
use ecto_libsql.Common.{
  sym, ◌∙◌, subst, ℕ, zero, suc, ◌+◌, ◌≤◌, ◌<◌, ◌≡◌, refl, ◌&&◌, some, [], ◌∷◌, arith, ◌==◌, length,
  drop, drop-cons, drop-nil, Bool-cases, inl, inr, if◌then◌else◌,
}
use ecto_libsql.Checked.{Checked, ◌>>=◌}
use ecto_libsql.Text.{is_ascii_whitespace}
use ecto_libsql.Routing.{Bytes, pair_at, skip_spaces, skip_line, skip_newline, skip_block}
use ecto_libsql.Routing.Content.{content, code, line, block}

unfoldable pub spaces : Bytes → Bytes
spaces [] = []
spaces (c ∷ cs) = let rest = spaces cs in if is_ascii_whitespace c then rest else c ∷ cs

-- Behind the next newline.
unfoldable pub line_rest : Bytes → Bytes
line_rest [] = []
line_rest (c ∷ cs) = let rest = line_rest cs in if c == b'\n' then cs else rest

-- Behind the next `*/`, or at the last byte.
unfoldable pub block_rest : Bytes → Bytes
block_rest [] = []
block_rest (c ∷ []) = c ∷ []
block_rest (c ∷ d ∷ cs) =
    let rest = block_rest (d ∷ cs) in if c == b'*' && d == b'/' then cs else rest

-- The loop ends, at an index of `bytes` or its end, and `rest` stands there.
pub record Lands (bytes : Bytes) (run : Checked ℕ) (rest : Bytes) : Type 0 where
  pub pos : ℕ
  pub runs : run ≡ some pos
  pub at_rest : drop pos bytes ≡ rest
  pub in_range : pos ≤ length bytes

pub Lands-here :
    (bytes : Bytes) (pos : ℕ) (rest : Bytes) {run : Checked ℕ}
    → run ≡ some pos
    → drop pos bytes ≡ rest
    → pos ≤ length bytes
    → Lands bytes run rest
Lands-here bytes pos rest r e h = record { pos = pos; runs = r; at_rest = e; in_range = h }

pub Lands-step :
    {bytes : Bytes} {run later : Checked ℕ} {rest seen : Bytes}
    → run ≡ later
    → seen ≡ rest
    → Lands bytes later rest
    → Lands bytes run seen
Lands-step r e l = record {
  pos = l.pos;
  runs = r ∙ l.runs;
  at_rest = l.at_rest ∙ sym e;
  in_range = l.in_range;
}

pub skip_spaces-Lands :
    (rest : Bytes) (fuel : ℕ) (bytes : Bytes) (pos : ℕ)
    → length rest < fuel
    → drop pos bytes ≡ rest
    → pos ≤ length bytes
    → Lands bytes (skip_spaces fuel bytes pos) (spaces rest)
unfolding skip_spaces spaces
skip_spaces-Lands rest zero bytes pos f e h = elim f [ ]
skip_spaces-Lands [] (suc fuel) bytes pos f e h =
    Lands-here bytes pos [] (ground (arith, drop-nil pos bytes e)) e h
skip_spaces-Lands (c ∷ cs) (suc fuel) bytes pos f e h =
    let here = drop-cons pos bytes e in
    let next : drop (pos + 1) bytes ≡ cs = rw add-one here.1 in
    elim (Bool-cases (is_ascii_whitespace c)) [
      | inl blank ↦
          Lands-step (ground arith) (rw blank)
            (skip_spaces-Lands cs fuel bytes (pos + 1) (omega arith) next (omega arith))
      | inr other ↦ Lands-here bytes pos _ (ground arith) (rw other e) h
    ]

pub skip_line-Lands :
    (rest : Bytes) (fuel : ℕ) (bytes : Bytes) (pos : ℕ)
    → length rest < fuel
    → drop pos bytes ≡ rest
    → pos ≤ length bytes
    → Lands bytes (skip_line fuel bytes pos >>= skip_newline bytes) (line_rest rest)
unfolding skip_line skip_newline line_rest
skip_line-Lands rest zero bytes pos f e h = elim f [ ]
skip_line-Lands [] (suc fuel) bytes pos f e h =
    Lands-here bytes pos [] (ground (arith, drop-nil pos bytes e)) e h
skip_line-Lands (c ∷ cs) (suc fuel) bytes pos f e h =
    let here = drop-cons pos bytes e in
    let next : drop (pos + 1) bytes ≡ cs = rw add-one here.1 in
    elim (Bool-cases (c == b'\n')) [
      | inl newline ↦ Lands-here bytes (pos + 1) _ (ground arith) (rw newline next) (omega arith)
      | inr other ↦
          Lands-step (ground arith) (rw other)
            (skip_line-Lands cs fuel bytes (pos + 1) (omega arith) next (omega arith))
    ]

-- Two bytes further on, `cs` stands at the index.
pub drop-two :
    (bytes : Bytes) (pos : ℕ) {c d : ℕ} {cs : Bytes}
    → drop pos bytes ≡ c ∷ d ∷ cs
    → drop (pos + 2) bytes ≡ cs
drop-two bytes pos {cs} e =
    let next = drop-cons pos bytes e in
    let there = drop-cons (suc pos) bytes next.1 in
    subst (λ n. drop n bytes ≡ cs) {x = suc (suc pos)} (omega arith) there.1

pub skip_block-Lands :
    (rest : Bytes) (fuel : ℕ) (bytes : Bytes) (pos : ℕ)
    → length rest < fuel
    → drop pos bytes ≡ rest
    → pos ≤ length bytes
    → Lands bytes (skip_block fuel bytes pos) (block_rest rest)
unfolding skip_block pair_at block_rest
skip_block-Lands rest zero bytes pos f e h = elim f [ ]
skip_block-Lands [] (suc fuel) bytes pos f e h =
    Lands-here bytes pos [] (ground (arith, drop-nil pos bytes e)) e h
skip_block-Lands (c ∷ []) (suc fuel) bytes pos f e h =
    Lands-here bytes pos _ (ground (arith, drop-cons pos bytes e)) e h
skip_block-Lands (c ∷ d ∷ cs) (suc fuel) bytes pos f e h =
    let here = drop-cons pos bytes e in
    let next : drop (pos + 1) bytes ≡ d ∷ cs = rw add-one here.1 in
    let there = drop-cons (pos + 1) bytes next in
    let past = drop-two bytes pos e in
    elim (Bool-cases (c == b'*' && d == b'/')) [
      | inl closes ↦ Lands-here bytes (pos + 2) _ (ground arith) (rw closes past) (omega arith)
      | inr other ↦
          Lands-step (ground arith) (rw other)
            (skip_block-Lands (d ∷ cs) fuel bytes (pos + 1) (omega arith) next (omega arith))
    ]

-- Each reading of the code mode, one piece at a time.
pub content-spaces : (rest : Bytes) → content code (spaces rest) ≡ content code rest
unfolding content spaces
content-spaces [] = refl
content-spaces (c ∷ []) = ground arith
content-spaces (c ∷ d ∷ cs) = ground (arith, content-spaces (d ∷ cs))

pub content-line : (rest : Bytes) → content code (line_rest rest) ≡ content line rest
unfolding content line_rest
content-line [] = refl
content-line (c ∷ cs) = ground (arith, content-line cs)

pub content-block : (rest : Bytes) → content code (block_rest rest) ≡ content block rest
unfolding content block_rest
content-block [] = refl
content-block (c ∷ []) = refl
content-block (c ∷ d ∷ cs) = ground (arith, content-block (d ∷ cs))

pub length-spaces : (rest : Bytes) → length (spaces rest) ≤ length rest
unfolding spaces
length-spaces [] = omega arith
length-spaces (c ∷ cs) = ground (arith, length-spaces cs)

pub length-line_rest : (rest : Bytes) → length (line_rest rest) ≤ length rest
unfolding line_rest
length-line_rest [] = omega arith
length-line_rest (c ∷ cs) = ground (arith, length-line_rest cs)

pub length-block_rest : (rest : Bytes) → length (block_rest rest) ≤ length rest
unfolding block_rest
length-block_rest [] = omega arith
length-block_rest (c ∷ []) = omega arith
length-block_rest (c ∷ d ∷ cs) = ground (arith, length-block_rest (d ∷ cs))

-- What is left of the loop's body behind the whitespace.
