-- ===== src/Routing/Scan.antt =====
-- The whole scan against the recursive reading of the bytes.
use ecto_libsql.Common.{
  sym, ap, length-drop, ℕ, zero, suc, ◌+◌, ◌≤◌, ◌<◌, ◌≡◌, refl, Bool, true, false, ◌&&◌, some, [],
  ◌∷◌, arith, ◌==◌, leb, length, drop, drop-cons, drop-nil, Bool-cases, inl, inr,
}
use ecto_libsql.Checked.{Checked, ◌>>=◌}
use ecto_libsql.Text.{is_ascii_whitespace}
use ecto_libsql.Routing.{
  Bytes, pair_at, skip_spaces, skip_line, skip_newline, skip_block, skip_loop,
  skip_whitespace_and_comments,
}
use ecto_libsql.Routing.Content.{content, code}
use ecto_libsql.Routing.Walks.{
  spaces, line_rest, block_rest, Lands-here, Lands-step, skip_spaces-Lands, skip_line-Lands,
  drop-two, skip_block-Lands, content-spaces, content-line, content-block, length-spaces,
  length-line_rest, length-block_rest, Lands,
}

skip_comment : ℕ → Bytes → ℕ → Checked ℕ
unfolding pair_at skip_line skip_newline skip_block
skip_comment fuel bytes pos = elim (leb (length bytes) pos) [
  | true ↦ some pos
  | false ↦ do
    dashes ← pair_at bytes pos b'-' b'-'
    elim dashes [
      | true ↦ do
        end ← skip_line (suc (length bytes)) bytes (pos + 2)
        next ← skip_newline bytes end
        skip_loop fuel bytes next
      | false ↦ do
        opens ← pair_at bytes pos b'/' b'*'
        elim opens [
          | true ↦ do
            next ← skip_block (suc (length bytes)) bytes (pos + 2)
            skip_loop fuel bytes next
          | false ↦ some pos
        ]
    ]
]

blank_head : Bytes → Bool
blank_head [] = false
blank_head (c ∷ cs) = is_ascii_whitespace c

spaces-blank_head : (rest : Bytes) → blank_head (spaces rest) ≡ false
unfolding spaces blank_head
spaces-blank_head [] = refl
spaces-blank_head (c ∷ cs) = ground (arith, spaces-blank_head cs)

pair_at-two :
    (bytes : Bytes) (pos a b : ℕ) {c d : ℕ} {cs : Bytes}
    → drop pos bytes ≡ c ∷ d ∷ cs
    → pair_at bytes pos a b ≡ some (c == a && d == b)
unfolding pair_at
pair_at-two bytes pos a b e =
    let next = drop-cons pos bytes e in let there = drop-cons (suc pos) bytes next.1 in ground arith

pair_at-one :
    (bytes : Bytes) (pos a b : ℕ) {c : ℕ}
    → drop pos bytes ≡ c ∷ []
    → pair_at bytes pos a b ≡ some false
unfolding pair_at
pair_at-one bytes pos a b e = ground (arith, drop-cons pos bytes e)

module _ (fuel : ℕ) (bytes : Bytes)
    (again : (rest : Bytes) (pos : ℕ)
      → length rest < fuel
      → drop pos bytes ≡ rest
      → pos ≤ length bytes
      → Lands bytes (skip_loop fuel bytes pos) (content code rest)) where
  skip_comment-Lands :
      (rest : Bytes) (pos : ℕ)
      → length rest < suc fuel
      → drop pos bytes ≡ rest
      → pos ≤ length bytes
      → blank_head rest ≡ false
      → Lands bytes (skip_comment fuel bytes pos) (content code rest)
  unfolding skip_comment content blank_head
  skip_comment-Lands [] pos f e h b =
      Lands-here bytes pos [] (ground (arith, drop-nil pos bytes e)) e h
  skip_comment-Lands (c ∷ []) pos f e h b =
      Lands-here bytes pos _
        (ground (
          arith,
          drop-cons pos bytes e,
          pair_at-one bytes pos b'-' b'-' e,
          pair_at-one bytes pos b'/' b'*' e,
        ))
        (rw b e) h
  skip_comment-Lands (c ∷ d ∷ cs) pos f e h b =
      let here = drop-cons pos bytes e in
      let more : leb (length bytes) pos ≡ false = ground arith in
      let dashes = pair_at-two bytes pos b'-' b'-' e in
      let opens = pair_at-two bytes pos b'/' b'*' e in
      let past = drop-two bytes pos e in
      elim (Bool-cases (c == b'-' && d == b'-')) [
        | inl yes_line ↦
            let after =
              skip_line-Lands cs (suc (length bytes)) bytes (pos + 2) (omega arith) past
                (omega arith) in
            Lands-step (ground (arith, more, dashes, after.runs))
              (rw (b, yes_line) (sym (content-line cs)))
              (again (line_rest cs) after.pos (omega (arith, length-line_rest cs)) after.at_rest
                after.in_range)
        | inr not_line ↦ elim (Bool-cases (c == b'/' && d == b'*')) [
          | inl yes_block ↦
              let after =
                skip_block-Lands cs (suc (length bytes)) bytes (pos + 2) (omega arith) past
                  (omega arith) in
              Lands-step (ground (arith, more, dashes, opens, after.runs))
                (rw (b, not_line, yes_block) (sym (content-block cs)))
                (again (block_rest cs) after.pos (omega (arith, length-block_rest cs)) after.at_rest
                  after.in_range)
          | inr not_block ↦
              Lands-here bytes pos _ (ground (arith, more, dashes, opens))
                (rw (b, not_line, not_block) e) h
        ]
      ]

skip_loop-Lands :
    (fuel : ℕ) (bytes : Bytes) (rest : Bytes) (pos : ℕ)
    → length rest < fuel
    → drop pos bytes ≡ rest
    → pos ≤ length bytes
    → Lands bytes (skip_loop fuel bytes pos) (content code rest)
skip_loop-Lands zero bytes rest pos f e h = elim f [ ]
skip_loop-Lands (suc fuel) bytes rest pos f e h =
    let sp =
      skip_spaces-Lands rest (suc (length bytes)) bytes pos
        (omega (arith, ap length e, length-drop pos bytes)) e h in
    Lands-step (step sp.runs) (sym (content-spaces rest)) (
      skip_comment-Lands fuel bytes (skip_loop-Lands fuel bytes) (spaces rest) sp.pos
        (omega (arith, length-spaces rest)) sp.at_rest sp.in_range (spaces-blank_head rest))
  where
    step :
        {p : ℕ}
        → skip_spaces (suc (length bytes)) bytes pos ≡ some p
        → skip_loop (suc fuel) bytes pos ≡ skip_comment fuel bytes p
    step r = unfold skip_loop skip_comment in rw r

-- `skip_whitespace_and_comments` ends without a panic, where `content` begins, which for a block
-- comment that is not closed is its last byte.
pub skip-Lands :
    (bytes : Bytes) → Lands bytes (skip_whitespace_and_comments bytes) (content code bytes)
unfolding skip_whitespace_and_comments
skip-Lands bytes =
    skip_loop-Lands (suc (length bytes)) bytes bytes 0 (omega arith) refl (omega arith)
