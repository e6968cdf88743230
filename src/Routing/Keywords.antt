-- ===== src/Routing/Keywords.antt =====
-- The keyword tests and the search for RETURNING against the recursive reading of the bytes.
use ecto_libsql.Common.{
  ℕ, zero, suc, ◌≤◌, ◌<◌, ◌≡◌, refl, ap, Bool, true, false, ◌||◌, some, List, [], ◌∷◌, arith, leb,
  length, drop, drop-cons, drop-nil, Bool-cases, inl, inr, length-drop,
}
use ecto_libsql.Text.{is_ascii_whitespace}
use ecto_libsql.Routing.{
  Bytes, Letters, returning, letters_at, keyword_at, preceded, find_returning, has_returning,
  any_of,
}
use ecto_libsql.Routing.Content.{begins_with, begins_with_any, mentions_returning}

letters_at-begins_with :
    (ks : Letters) (bytes rest : Bytes) (i : ℕ)
    → length ks ≤ length rest
    → drop i bytes ≡ rest
    → letters_at bytes i ks ≡ some (begins_with ks rest)
unfolding letters_at begins_with
letters_at-begins_with [] bytes [] i h e = ground (arith, drop-nil i bytes e)
letters_at-begins_with [] bytes (c ∷ cs) i h e = ground (arith, drop-cons i bytes e)
letters_at-begins_with ((u, l) ∷ ks) bytes [] i h e = elim h [ ]
letters_at-begins_with ((u, l) ∷ ks) bytes (c ∷ cs) i h e =
    let here = drop-cons i bytes e in
    ground (arith, letters_at-begins_with ks bytes cs (suc i) (omega arith) here.1)

begins_with_short :
    (ks : Letters) (rest : Bytes) → length rest < length ks → begins_with ks rest ≡ false
unfolding begins_with
begins_with_short [] rest h = elim h [ ]
begins_with_short (k ∷ ks) [] h = refl
begins_with_short ((u, l) ∷ ks) (c ∷ cs) h = ground (arith, begins_with_short ks cs)

pub keyword_at-begins_with :
    (ks : Letters) (bytes rest : Bytes) (start : ℕ)
    → drop start bytes ≡ rest
    → start ≤ length bytes
    → keyword_at bytes start ks ≡ some (begins_with ks rest)
unfolding keyword_at
keyword_at-begins_with ks bytes rest start e h =
    let size = ap length e in
    elim (Bool-cases (leb (length ks) (length rest))) [
      | inl fits ↦ ground (
        arith,
        size,
        length-drop start bytes,
        letters_at-begins_with ks bytes rest start (ground arith) e,
      )
      | inr short ↦
          ground (arith, size, length-drop start bytes, begins_with_short ks rest (ground arith))
    ]

mentions_returning_short :
    (m : Bool) (rest : Bytes) → length rest < 9 → mentions_returning m rest ≡ false
unfolding mentions_returning
mentions_returning_short m [] h = refl
mentions_returning_short m (c ∷ cs) h =
    let inner = mentions_returning_short (is_ascii_whitespace c) cs (omega arith) in
    ground (arith, begins_with_short returning (c ∷ cs) h, inner)

preceded_next :
    (bytes : Bytes) (i : ℕ) {c : ℕ} {cs : Bytes}
    → drop i bytes ≡ c ∷ cs
    → preceded bytes (suc i) ≡ some (is_ascii_whitespace c)
unfolding preceded
preceded_next bytes i e = ground (arith, drop-cons i bytes e)

find_returning-mentions :
    (rest : Bytes) (fuel : ℕ) (bytes : Bytes) (i : ℕ) (m : Bool)
    → length rest < fuel
    → 9 ≤ length bytes
    → drop i bytes ≡ rest
    → i ≤ length bytes
    → preceded bytes i ≡ some m
    → find_returning fuel bytes i ≡ some (mentions_returning m rest)
unfolding find_returning mentions_returning
find_returning-mentions rest zero bytes i m f big e h p = elim f [ ]
find_returning-mentions [] (suc fuel) bytes i m f big e h p = ground (arith, drop-nil i bytes e)
find_returning-mentions (c ∷ cs) (suc fuel) bytes i m f big e h p =
    let here = drop-cons i bytes e in
    elim (Bool-cases (leb 9 (length (c ∷ cs)))) [
      | inl long ↦
          let word = letters_at-begins_with returning bytes (c ∷ cs) i (ground arith) e in
          let later =
            find_returning-mentions cs fuel bytes (suc i) (is_ascii_whitespace c) (omega arith) big
              here.1 (omega arith) (preceded_next bytes i e) in
          ground (arith, word, later)
      | inr short ↦ ground (arith, mentions_returning_short m (c ∷ cs) (ground arith))
    ]

pub has_returning-mentions :
    (bytes : Bytes) → has_returning bytes ≡ some (mentions_returning true bytes)
unfolding has_returning
has_returning-mentions bytes = elim (Bool-cases (leb 9 (length bytes))) [
  | inl big ↦ ground (
    arith,
    find_returning-mentions bytes (suc (length bytes)) bytes 0 true (omega arith) (ground arith)
        refl (omega arith) (unfold preceded in refl),
  )
  | inr small ↦ ground (arith, mentions_returning_short true bytes (ground arith))
]

pub any_of-begins_with_any :
    (kss : List Letters) (bytes rest : Bytes) (start : ℕ)
    → drop start bytes ≡ rest
    → start ≤ length bytes
    → any_of bytes start kss ≡ some (begins_with_any kss rest || mentions_returning true bytes)
unfolding any_of begins_with_any
any_of-begins_with_any [] bytes rest start e h = has_returning-mentions bytes
any_of-begins_with_any (ks ∷ more) bytes rest start e h = ground (
  arith,
  keyword_at-begins_with ks bytes rest start e h,
  any_of-begins_with_any more bytes rest start e h,
)
