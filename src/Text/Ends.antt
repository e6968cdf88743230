-- ===== src/Text/Ends.antt =====
-- Trimming: what stands at the ends of a text.
use mathlib.Core.List.{reverse, reverse_aux}
use ecto_libsql.Common.{
  ℕ, ◌≡◌, refl, sym, ap, ◌∙◌, Bool, false, not, ◌||◌, Bool-cases, inl, inr, [], ◌∷◌, ◌++◌,
  append_assoc, append-nil, Str, arith, if◌then◌else◌,
}
use ecto_libsql.Text.{is_whitespace, trim, trim_end, trim_start_by, trim_end_by}

-- Some character is as `p` says.
abbrev pub any : (ℕ → Bool) → Str → Bool
any p [] = false
any p (c ∷ cs) = p c || any p cs

-- The last character is as `p` says.
abbrev pub ends : (ℕ → Bool) → Str → Bool
ends p [] = false
ends p (c ∷ []) = p c
ends p (c ∷ d ∷ cs) = ends p (d ∷ cs)

pub any-weaken :
    (p q : ℕ → Bool) (s : Str)
    → ((c : ℕ) → q c ≡ false → p c ≡ false)
    → any q s ≡ false
    → any p s ≡ false
any-weaken p q [] f h = refl
any-weaken p q (c ∷ cs) f h = ground (arith, f c, any-weaken p q cs f)

pub any-append : (p : ℕ → Bool) (s t : Str) → any p (s ++ t) ≡ (any p s || any p t)
any-append p [] t = refl
any-append p (c ∷ cs) t = ground (arith, any-append p cs t)

pub ends-any : (p : ℕ → Bool) (s : Str) → any p s ≡ false → ends p s ≡ false
ends-any p [] h = refl
ends-any p (c ∷ []) h = ground arith
ends-any p (c ∷ d ∷ cs) h = ground (arith, ends-any p (d ∷ cs))

pub ends-append :
    (p : ℕ → Bool) (s : Str) (c : ℕ) (t : Str) → ends p (s ++ (c ∷ t)) ≡ ends p (c ∷ t)
ends-append p [] c t = refl
ends-append p (d ∷ []) c t = refl
ends-append p (d ∷ e ∷ s) c t = ends-append p (e ∷ s) c t

reverse_aux-append : (xs ys : Str) → reverse_aux xs ys ≡ reverse xs ++ ys
reverse_aux-append [] ys = refl
reverse_aux-append (x ∷ xs) ys =
    reverse_aux-append xs (x ∷ ys)
    ∙ (sym (append_assoc (reverse xs) (x ∷ []) ys)
        ∙ ap (λ zs. zs ++ ys) (sym (reverse_aux-append xs (x ∷ []))))

reverse_aux-snoc : (xs ys : Str) (c : ℕ) → reverse_aux (xs ++ c ∷ []) ys ≡ c ∷ reverse_aux xs ys
reverse_aux-snoc [] ys c = refl
reverse_aux-snoc (x ∷ xs) ys c = reverse_aux-snoc xs (x ∷ ys) c

-- A character in front of a text that has been trimmed at its end.
keep : (ℕ → Bool) → ℕ → Str → Str
keep p c [] = if p c then [] else c ∷ []
keep p c (d ∷ ds) = c ∷ d ∷ ds

keep-snoc : (p : ℕ → Bool) (c d : ℕ) (s : Str) → keep p c (s ++ d ∷ []) ≡ c ∷ (s ++ d ∷ [])
unfolding keep
keep-snoc p c d [] = refl
keep-snoc p c d (e ∷ s) = refl

-- A character behind a text that has been trimmed at its start.
kept_behind : (ℕ → Bool) → ℕ → Str → Str
kept_behind p c [] = if p c then [] else c ∷ []
kept_behind p c (d ∷ ds) = (d ∷ ds) ++ c ∷ []

trim_start_by-snoc :
    (p : ℕ → Bool) (s : Str) (c : ℕ)
    → trim_start_by p (s ++ c ∷ []) ≡ kept_behind p c (trim_start_by p s)
unfolding trim_start_by kept_behind
trim_start_by-snoc p [] c = refl
trim_start_by-snoc p (d ∷ s) c = elim (Bool-cases (p d)) [
  | inl h ↦ rw h (trim_start_by-snoc p s c)
  | inr h ↦ rw h refl
]

reverse-kept_behind :
    (p : ℕ → Bool) (c : ℕ) (s : Str) → reverse (kept_behind p c s) ≡ keep p c (reverse s)
unfolding keep kept_behind
reverse-kept_behind p c [] = ground arith
reverse-kept_behind p c (d ∷ s) =
    reverse_aux-snoc s (d ∷ []) c
    ∙ rw (reverse_aux-append s (d ∷ [])) (sym (keep-snoc p c d (reverse s)))

trim_end_by-cons :
    (p : ℕ → Bool) (c : ℕ) (cs : Str) → trim_end_by p (c ∷ cs) ≡ keep p c (trim_end_by p cs)
unfolding trim_end_by
trim_end_by-cons p c cs =
    ap (λ s. reverse (trim_start_by p s)) (reverse_aux-append cs (c ∷ []))
    ∙ (ap reverse (trim_start_by-snoc p (reverse cs) c)
        ∙ reverse-kept_behind p c (trim_start_by p (reverse cs)))

trim_end_by-all : (p : ℕ → Bool) (t : Str) → any (λ c. not (p c)) t ≡ false → trim_end_by p t ≡ []
unfolding keep
trim_end_by-all p [] h = unfold trim_end_by trim_start_by in refl
trim_end_by-all p (c ∷ t) h =
    rw (trim_end_by-cons p c t, trim_end_by-all p t (ground arith)) (ground arith)

-- What is to be trimmed goes from the end, and no more.
pub trim_end_by-append :
    (p : ℕ → Bool) (s t : Str)
    → ends p s ≡ false
    → any (λ c. not (p c)) t ≡ false
    → trim_end_by p (s ++ t) ≡ s
unfolding keep
trim_end_by-append p [] t e h = trim_end_by-all p t h
trim_end_by-append p (c ∷ []) t e h = rw (trim_end_by-cons p c t, trim_end_by-all p t h, e) refl
trim_end_by-append p (c ∷ d ∷ s) t e h =
    rw (trim_end_by-cons p c (d ∷ s ++ t), trim_end_by-append p (d ∷ s) t e h) refl

pub trim_end_by-kept : (p : ℕ → Bool) (s : Str) → ends p s ≡ false → trim_end_by p s ≡ s
trim_end_by-kept p s h = ap (trim_end_by p) (sym (append-nil s)) ∙ trim_end_by-append p s [] h refl

-- A text begins with a character that stays.
pub trim_start_by-front :
    (p : ℕ → Bool) (s : Str) (c : ℕ) (t : Str)
    → any p s ≡ false
    → p c ≡ false
    → trim_start_by p (s ++ (c ∷ t)) ≡ s ++ (c ∷ t)
unfolding trim_start_by
trim_start_by-front p [] c t h e = rw e refl
trim_start_by-front p (d ∷ s) c t h e = ground arith

pub trim_start_by-head :
    (p : ℕ → Bool) (c : ℕ) (cs : Str) → p c ≡ false → trim_start_by p (c ∷ cs) ≡ c ∷ cs
trim_start_by-head p c cs h = trim_start_by-front p [] c cs refl h

-- A text without whitespace is trimmed to itself.
pub trim-solid : (s : Str) → any is_whitespace s ≡ false → trim s ≡ s
trim-solid [] h = unfold trim_start_by in trim_end_by-kept is_whitespace [] refl
trim-solid (c ∷ cs) h =
    ap trim_end (trim_start_by-head is_whitespace c cs (ground arith))
    ∙ trim_end_by-kept is_whitespace (c ∷ cs) (ends-any is_whitespace (c ∷ cs) h)
