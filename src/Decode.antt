-- ===== src/Decode.antt =====
-- decode.rs: atoms to enums, ownership checks, and the check of a savepoint's name. An atom is its
-- name; two atoms are equal exactly when their names are.
use ecto_libsql.Common.{
  ℕ, Bool, true, false, not, ◌&&◌, ◌||◌, Option, none, some, [], ◌∷◌, Str, str, str_eq, ◌==◌, leb,
  if◌then◌else◌,
}
use ecto_libsql.Effect.{Result, ok, err}
use ecto_libsql.Libsql.{
  Libsql, Error, term, TransactionBehavior, deferred, immediate, exclusive, read_only,
}
use ecto_libsql.State.{Mode, local, remote, remote_replica, CursorData}

unfoldable pub decode_mode : Str → Option Mode
decode_mode atom =
    if str_eq atom (str "remote_replica")
    then some remote_replica
    else if str_eq atom (str "remote")
    then some remote
    else if str_eq atom (str "local")
    then some local
    else none

unfoldable pub decode_transaction_behavior : Str → Option TransactionBehavior
decode_transaction_behavior atom =
    if str_eq atom (str "deferred")
    then some deferred
    else if str_eq atom (str "immediate")
    then some immediate
    else if str_eq atom (str "exclusive")
    then some exclusive
    else if str_eq atom (str "read_only")
    then some read_only
    else none

unfoldable pub verify_statement_ownership : Str → Str → Result Error (Unit {0})
verify_statement_ownership stmt_conn_id conn_id =
    if not (str_eq stmt_conn_id conn_id)
    then err (term (str "Statement does not belong to connection"))
    else ok tt

unfoldable pub verify_cursor_ownership : ⦃L : Libsql⦄ → CursorData → Str → Result Error (Unit {0})
verify_cursor_ownership cursor conn_id =
    if not (str_eq cursor.conn_id conn_id)
    then err (term (str "Cursor does not belong to connection"))
    else ok tt

unfoldable pub is_ascii_digit : ℕ → Bool
is_ascii_digit c = leb b'0' c && leb c b'9'

unfoldable pub is_ascii_alphanumeric : ℕ → Bool
unfolding is_ascii_digit
is_ascii_alphanumeric c = leb b'a' c && leb c b'z' || leb b'A' c && leb c b'Z' || is_ascii_digit c

-- `name.chars().all(..)`.
unfoldable pub all_word_chars : Str → Bool
all_word_chars [] = true
all_word_chars (c ∷ cs) = (is_ascii_alphanumeric c || c == b'_') && all_word_chars cs

-- `name.is_empty()`, and `name.chars().next().is_none_or(..)`.
unfoldable pub is_empty : Str → Bool
is_empty [] = true
is_empty (c ∷ cs) = false

unfoldable pub starts_badly : Str → Bool
starts_badly [] = true
starts_badly (c ∷ cs) = is_ascii_digit c

unfoldable pub validate_savepoint_name : Str → Result Error (Unit {0})
validate_savepoint_name name =
    if is_empty name || not (all_word_chars name) || starts_badly name
    then err (term (str "Invalid savepoint name: must be a valid SQL identifier"))
    else ok tt
