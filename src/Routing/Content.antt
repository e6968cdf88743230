-- ===== src/Routing/Content.antt =====
-- The recursive reading of a statement's bytes: what stands behind the leading whitespace and
-- comments, whether that begins with a keyword, and whether a RETURNING clause stands anywhere.
use ecto_libsql.Common.{Bool, true, false, ◌&&◌, ◌||◌, List, [], ◌∷◌, ◌==◌, if◌then◌else◌}
use ecto_libsql.Text.{is_ascii_whitespace}
use ecto_libsql.Routing.{Bytes, Letters, returning, row_keywords}

-- In code, behind `--`, or behind `/*`.
pub data Mode : Type 0 where
  code line block : Mode

-- A block comment that is not closed ends one byte before the end.
unfoldable pub content : Mode → Bytes → Bytes
content m [] = []
content code (c ∷ []) = if is_ascii_whitespace c then [] else c ∷ []
content code (c ∷ d ∷ cs) =
    let inner = content code (d ∷ cs) in
    let past_line = content line cs in
    let past_block = content block cs in
    if is_ascii_whitespace c
    then inner
    else if c == b'-' && d == b'-'
    then past_line
    else if c == b'/' && d == b'*'
    then past_block
    else c ∷ d ∷ cs
content line (c ∷ cs) =
    let after = content code cs in let more = content line cs in if c == b'\n' then after else more
content block (c ∷ []) = if is_ascii_whitespace c then [] else c ∷ []
content block (c ∷ d ∷ cs) =
    let after = content code cs in
    let more = content block (d ∷ cs) in if c == b'*' && d == b'/' then after else more

-- The letters stand at the front, with whitespace or nothing behind them.
unfoldable pub begins_with : Letters → Bytes → Bool
begins_with [] [] = true
begins_with [] (c ∷ cs) = is_ascii_whitespace c
begins_with (k ∷ ks) [] = false
begins_with ((upper, lower) ∷ ks) (c ∷ cs) = (c == upper || c == lower) && begins_with ks cs

-- RETURNING as a word of its own; the flag says whether a word may begin here.
unfoldable pub mentions_returning : Bool → Bytes → Bool
mentions_returning may_begin [] = false
mentions_returning may_begin (c ∷ cs) =
    may_begin && begins_with returning (c ∷ cs) || mentions_returning (is_ascii_whitespace c) cs

unfoldable pub begins_with_any : List Letters → Bytes → Bool
begins_with_any [] bytes = false
begins_with_any (ks ∷ more) bytes = begins_with ks bytes || begins_with_any more bytes

pub is_some_content : Bytes → Bool
is_some_content [] = false
is_some_content (c ∷ cs) = true

-- What `should_use_query` decides, the last byte of an open block comment being content to it.
unfoldable pub returns_rows : Bytes → Bool
unfolding is_some_content
returns_rows bytes =
    is_some_content (content code bytes)
    && (begins_with_any row_keywords (content code bytes) || mentions_returning true bytes)
