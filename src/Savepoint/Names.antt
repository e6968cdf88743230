-- ===== src/Savepoint/Names.antt =====
-- Which savepoint names are accepted, and what reaches the database.
use ecto_libsql.Common.{
  ℕ, ◌≡◌, refl, ◌↔◌, true, false, ◌&&◌, ◌||◌, inl, inr, Bool-cases, [], ◌∷◌, arith, Str, All, ◌≤◌,
  ◌==◌, leb, ◌⊎◌,
}
use ecto_libsql.Effect.{ok}
use ecto_libsql.Decode.{
  validate_savepoint_name, is_ascii_digit, is_ascii_alphanumeric, all_word_chars, is_empty,
  starts_badly,
}

-- A letter, a digit or an underscore, as ranges of code points.
abbrev pub IsWordChar : ℕ → Type 0
IsWordChar c =
    ((b'a' ≤ c) × (c ≤ b'z')) ⊎ ((b'A' ≤ c) × (c ≤ b'Z')) ⊎ ((b'0' ≤ c) × (c ≤ b'9')) ⊎ (c ≡ b'_')

-- An SQL identifier: word characters, at least one, and no digit first.
abbrev pub IsIdentifier : Str → Type 0
IsIdentifier [] = ⊥
IsIdentifier (c ∷ cs) = ¬ ((b'0' ≤ c) × (c ≤ b'9')) × All IsWordChar (c ∷ cs)

IsWordChar-iff : (c : ℕ) → ((is_ascii_alphanumeric c || c == b'_') ≡ true) ↔ IsWordChar c
unfolding is_ascii_alphanumeric
IsWordChar-iff c = (λ h. ground arith, λ h. ground arith)

all_word_chars_iff : (s : Str) → (all_word_chars s ≡ true) ↔ All IsWordChar s
unfolding all_word_chars
all_word_chars_iff [] = (λ h. tt, λ h. refl)
all_word_chars_iff (c ∷ cs) = (
  λ h. ((IsWordChar-iff c).0 (ground arith), (all_word_chars_iff cs).0 (ground arith)),
  λ h. rw ((IsWordChar-iff c).1 h.0) ((all_word_chars_iff cs).1 h.1),
)

starts_badly_iff :
    (c : ℕ) (cs : Str) → (starts_badly (c ∷ cs) ≡ false) ↔ (¬ ((b'0' ≤ c) × (c ≤ b'9')))
unfolding starts_badly is_ascii_digit
starts_badly_iff c cs = (λ h k. ground arith, λ h. starts_when h)
  where
    starts_when : ¬ ((b'0' ≤ c) × (c ≤ b'9')) → (leb b'0' c && leb c b'9') ≡ false
    starts_when h = elim (Bool-cases (leb b'0' c && leb c b'9')) [
      | inl d ↦ absurd (h (ground arith, ground arith))
      | inr d ↦ d
    ]

-- A savepoint's name is accepted exactly if it is an SQL identifier of ASCII letters, digits and
-- underscores that does not begin with a digit.
pub validate_savepoint_name_iff :
    (name : Str) → (validate_savepoint_name name ≡ ok tt) ↔ IsIdentifier name
unfolding validate_savepoint_name is_empty
validate_savepoint_name_iff [] = (λ h. unfold starts_badly in cc, λ h. absurd h)
validate_savepoint_name_iff (c ∷ cs) = (
  λ h. ((starts_badly_iff c cs).0 (ground arith), (all_word_chars_iff (c ∷ cs)).0 (ground arith)),
  λ h.
      let good = (starts_badly_iff c cs).1 h.0 in
      let all = (all_word_chars_iff (c ∷ cs)).1 h.1 in rw (good, all),
)
