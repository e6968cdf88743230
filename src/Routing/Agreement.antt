-- ===== src/Routing/Agreement.antt =====
-- `detect_query_type` and `should_use_query` of utils.rs on the same statement.
use mathlib.Core.List.{flat_map, map}
use ecto_libsql.Common.{
  ℕ, ◌≡◌, refl, ap, sym, ◌∙◌, ◌+◌, ◌-◌, Bool, true, false, not, ◌&&◌, ◌||◌, Bool-cases, some, inl,
  inr, List, [], ◌∷◌, ◌++◌, All, Str, str, str_eq, str_eq_iff, as_bytes, encode_utf8, ltb, leb,
  ◌==◌, if◌then◌else◌, arith, subst,
}
use ecto_libsql.Text.{is_whitespace, is_ascii_whitespace, trim_start, trim_start_by}
use ecto_libsql.Routing.{
  Bytes, select_word, take_word, first_word, or_empty, detect_query_type, select, routes_to_query,
}
use ecto_libsql.Routing.Blank.{Blank, nothing, space, Spells, done, letter, at_boundary}
use ecto_libsql.Routing.Decision.{routes_to_query-keyword}

-- ASCII without the vertical tab, which `str` takes for whitespace and the scan of bytes does not.
abbrev pub Plain : ℕ → Type 0
Plain c = (ltb c 0x80 && not (c == 11)) ≡ true

-- The capital of an ASCII letter.
abbrev pub capital : ℕ → ℕ
capital c = if leb b'a' c && leb c b'z' then c - 32 else c

-- Upper-casing, on ASCII.
abbrev pub CapitalsOfAscii : (Str → Str) → Type 0
CapitalsOfAscii to_uppercase = (w : Str) → All Plain w → to_uppercase w ≡ map capital w

as_bytes-Plain : (s : Str) → All Plain s → as_bytes s ≡ s
unfolding as_bytes encode_utf8 flat_map
as_bytes-Plain [] h = refl
as_bytes-Plain (c ∷ cs) (h, hs) = ground (arith, as_bytes-Plain cs hs)

whitespace_eq : (c : ℕ) → Plain c → is_whitespace c ≡ is_ascii_whitespace c
unfolding is_whitespace is_ascii_whitespace
whitespace_eq c h = ground arith

trim_start_idem : (p : ℕ → Bool) (s : Str) → trim_start_by p (trim_start_by p s) ≡ trim_start_by p s
unfolding trim_start_by
trim_start_idem p [] = refl
trim_start_idem p (c ∷ cs) = ground (arith, trim_start_idem p cs)

-- What is trimmed away is blank.
record Trimmed (s t : Str) : Type 0 where
  pub blank : Bytes
  pub is_blank : Blank blank
  pub split : s ≡ blank ++ t
  pub still_plain : All Plain t

trim_start-white : (c : ℕ) (cs : Str) → is_whitespace c ≡ true → trim_start (c ∷ cs) ≡ trim_start cs
unfolding trim_start_by
trim_start-white c cs h = rw h refl

trim_start-black : (c : ℕ) (cs : Str) → is_whitespace c ≡ false → trim_start (c ∷ cs) ≡ c ∷ cs
unfolding trim_start_by
trim_start-black c cs h = rw h refl

trim_start-Trimmed : (s : Str) → All Plain s → Trimmed s (trim_start s)
trim_start-Trimmed [] h =
    unfold trim_start_by in
    record { blank = []; is_blank = nothing; split = refl; still_plain = tt }
trim_start-Trimmed (c ∷ cs) (h, hs) = elim (Bool-cases (is_whitespace c)) [
  | inl e ↦
      let t = trim_start-Trimmed cs hs in
      subst (Trimmed (c ∷ cs)) (sym (trim_start-white c cs e)) (record {
        blank = c ∷ t.blank;
        is_blank = space (sym (whitespace_eq c h) ∙ e) t.is_blank;
        split = ap (λ x. c ∷ x) t.split;
        still_plain = t.still_plain;
      })
  | inr e ↦
      subst (Trimmed (c ∷ cs)) (sym (trim_start-black c cs e))
        (record { blank = []; is_blank = nothing; split = refl; still_plain = (h, hs) })
]

-- The first word and what stands behind it.
record Worded (s word : Str) : Type 0 where
  pub rest : Bytes
  pub boundary : at_boundary rest ≡ true
  pub split : s ≡ word ++ rest
  pub word_plain : All Plain word

take_word-white : (c : ℕ) (cs : Str) → is_whitespace c ≡ true → take_word (c ∷ cs) ≡ []
unfolding take_word
take_word-white c cs h = rw h refl

take_word-black :
    (c : ℕ) (cs : Str) → is_whitespace c ≡ false → take_word (c ∷ cs) ≡ c ∷ take_word cs
unfolding take_word
take_word-black c cs h = rw h refl

take_word-Worded : (s : Str) → All Plain s → Worded s (take_word s)
take_word-Worded [] h =
    unfold take_word in record { rest = []; boundary = refl; split = refl; word_plain = tt }
take_word-Worded (c ∷ cs) (h, hs) = elim (Bool-cases (is_whitespace c)) [
  | inl e ↦ subst (Worded (c ∷ cs)) (sym (take_word-white c cs e)) (record {
    rest = c ∷ cs;
    boundary = sym (whitespace_eq c h) ∙ e;
    split = refl;
    word_plain = tt;
  })
  | inr e ↦
      let w = take_word-Worded cs hs in
      subst (Worded (c ∷ cs)) (sym (take_word-black c cs e)) (record {
        rest = w.rest;
        boundary = w.boundary;
        split = ap (λ x. c ∷ x) w.split;
        word_plain = (h, w.word_plain);
      })
]

first_word-eq : (s : Str) → or_empty (first_word s) ≡ take_word (trim_start s)
unfolding first_word take_word
first_word-eq s = ground arith

capital_letter : (c u : ℕ) → capital c ≡ u → (c == u || c == u + 32) ≡ true
capital_letter c u h = ground arith

-- A word whose capitals are given is spelt with either case of each.
capitals-Spells : (us w : List ℕ) → map capital w ≡ us → Spells (map (λ u. (u, u + 32)) us) w
capitals-Spells [] [] h = done
capitals-Spells [] (c ∷ cs) h = ground arith
capitals-Spells (u ∷ us) [] h = ground arith
capitals-Spells (u ∷ us) (c ∷ cs) h =
    letter (capital_letter c u (ground arith)) (capitals-Spells us cs (ground arith))

detect_select :
    (to_uppercase : Str → Str) (sql : Str)
    → detect_query_type to_uppercase sql ≡ select
    → str_eq (to_uppercase (or_empty (first_word (trim_start sql)))) (str "SELECT") ≡ true
unfolding detect_query_type
detect_select to_uppercase sql h = ground arith

-- For an upper-casing that capitalises ASCII letters and leaves other ASCII, a statement in ASCII
-- without a vertical tab whose type is detected as SELECT goes to `query()`.
pub detected_select-routes_to_query :
    (to_uppercase : Str → Str) (sql : Str)
    → CapitalsOfAscii to_uppercase
    → All Plain sql
    → detect_query_type to_uppercase sql ≡ select
    → routes_to_query (as_bytes sql) ≡ some true
unfolding take_word str
detected_select-routes_to_query to_uppercase sql capitals plain h =
    let t = trim_start-Trimmed sql plain in
    let w = take_word-Worded (trim_start sql) t.still_plain in
    let word_eq : or_empty (first_word (trim_start sql)) ≡ take_word (trim_start sql) =
      first_word-eq (trim_start sql) ∙ ap take_word (trim_start_idem is_whitespace sql) in
    let upper_eq : map capital (take_word (trim_start sql)) ≡ str "SELECT" =
      sym (capitals (take_word (trim_start sql)) w.word_plain)
      ∙ (ap to_uppercase (sym word_eq) ∙ (str_eq_iff _ _).0 (detect_select to_uppercase sql h)) in
    let split_eq : as_bytes sql ≡ t.blank ++ (take_word (trim_start sql) ++ w.rest) =
      as_bytes-Plain sql plain ∙ (t.split ∙ ap (λ x. t.blank ++ x) w.split) in
    ap routes_to_query split_eq
    ∙ routes_to_query-keyword select_word w.rest t.is_blank (inr (inr (inl refl)))
        (capitals-Spells (str "SELECT") (take_word (trim_start sql)) upper_eq) w.boundary
