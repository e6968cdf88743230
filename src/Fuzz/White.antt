-- ===== src/Fuzz/White.antt =====
-- Whitespace in front of a statement, and the RETURNING clause behind it.
use mathlib.Core.List.{flat_map}
use ecto_libsql.Common.{
  ℕ, ◌≡◌, refl, sym, ap, ◌∙◌, Bool, true, [], ◌∷◌, ◌++◌, append_assoc, All, Str, str, as_bytes,
  encode_utf8, arith,
}
use ecto_libsql.Text.{is_whitespace, is_ascii_whitespace, trim_start, trim_start_by}
use ecto_libsql.Routing.{Bytes}
use ecto_libsql.Routing.Content.{returns_rows, begins_with, mentions_returning}
use ecto_libsql.Routing.Blank.{Blank, nothing, space, content-Blank}
use ecto_libsql.Routing.Decision.{mentions_returning-word, open_after}

pub as_bytes-append : (s t : Str) → as_bytes (s ++ t) ≡ as_bytes s ++ as_bytes t
unfolding as_bytes flat_map
as_bytes-append [] t = refl
as_bytes-append (c ∷ s) t =
    ap (λ bs. encode_utf8 c ++ bs) (as_bytes-append s t)
    ∙ sym (append_assoc (encode_utf8 c) (as_bytes s) (as_bytes t))

abbrev pub IsWhite : Str → Type 0
IsWhite = All (λ c. is_ascii_whitespace c ≡ true)

pub as_bytes-IsWhite : (ws : Str) → IsWhite ws → as_bytes ws ≡ ws
unfolding as_bytes encode_utf8 flat_map is_ascii_whitespace
as_bytes-IsWhite [] h = refl
as_bytes-IsWhite (c ∷ ws) (h, hs) = ground (arith, as_bytes-IsWhite ws hs)

pub IsWhite-Blank : (ws : Str) → IsWhite ws → Blank ws
IsWhite-Blank [] h = nothing
IsWhite-Blank (c ∷ ws) (h, hs) = space h (IsWhite-Blank ws hs)

pub mentions_returning-white :
    (c : ℕ) (cs : Bytes)
    → is_ascii_whitespace c ≡ true
    → mentions_returning true (c ∷ cs) ≡ mentions_returning true cs
unfolding mentions_returning begins_with is_ascii_whitespace
mentions_returning-white c cs h = ground arith

pub mentions_returning-IsWhite :
    (ws rest : Str)
    → IsWhite ws
    → mentions_returning true (ws ++ rest) ≡ mentions_returning true rest
mentions_returning-IsWhite [] rest h = refl
mentions_returning-IsWhite (c ∷ ws) rest (h, hs) =
    mentions_returning-white c (ws ++ rest) h ∙ mentions_returning-IsWhite ws rest hs

pub returns_rows-IsWhite :
    (ws rest : Str) → IsWhite ws → returns_rows (ws ++ rest) ≡ returns_rows rest
unfolding returns_rows
returns_rows-IsWhite ws rest h =
    rw (content-Blank rest (IsWhite-Blank ws h), mentions_returning-IsWhite ws rest h) refl

pub open_after-space : (m : Bool) (bs : Bytes) → open_after m (bs ++ b' ' ∷ []) ≡ true
unfolding is_ascii_whitespace
open_after-space m [] = refl
open_after-space m (c ∷ bs) = open_after-space (is_ascii_whitespace c) bs

pub mentions_returning-clause :
    (m : Bool) (bs : Bytes) → mentions_returning m (bs ++ as_bytes (str " RETURNING *")) ≡ true
unfolding as_bytes encode_utf8 flat_map str
mentions_returning-clause m bs =
    ap (mentions_returning m) (sym (append_assoc bs (b' ' ∷ []) (as_bytes (str "RETURNING *"))))
    ∙ mentions_returning-word m (bs ++ b' ' ∷ []) (as_bytes (str "RETURNING *"))
        (open_after-space m bs) (unfold begins_with is_ascii_whitespace in refl)

pub trim_start-IsWhite : (ws s : Str) → IsWhite ws → trim_start (ws ++ s) ≡ trim_start s
unfolding trim_start_by is_whitespace is_ascii_whitespace
trim_start-IsWhite [] s h = refl
trim_start-IsWhite (c ∷ ws) s (h, hs) = ground (arith, trim_start-IsWhite ws s hs)
