-- ===== src/Tests/Messages.antt =====
-- A database with a table of two indexes, and the message of a violated constraint.
use mathlib.Core.List.{flat_map}
use ecto_libsql.Common.{
  as_bytes, encode_utf8, lookup, str_eq, ℕ, suc, ap, Bool, ◌≡◌, refl, true, false, Option, none,
  some, List, [], ◌∷◌, ◌++◌, Str, str, get_elem?,
}
use ecto_libsql.Effect.{Result, ok, err}
use ecto_libsql.Libsql.{Libsql, Value, text, integer, Rows, finish, next, ℤ, pos, term}
use ecto_libsql.Text.{is_whitespace, strip_prefix, contains, after, double_quotes, split}
use ecto_libsql.Constraint.{
  enhanced_message, quote_identifier, unique_failed, table_of, first_part, columns_of,
}
use ecto_libsql.Constraint.Kept.{violated_parts}
use ecto_libsql.Constraint.Message.{unique_message}
use ecto_libsql.Constraint.Parsed.{unique_message-parsed}
use ecto_libsql.Constraint.Lookup.{First, here, not_unique, other_columns, enhanced_message-First}
use ecto_libsql.State.{State, Mutex, LibSqlConn}
use ecto_libsql.Text.{is_ascii_whitespace}
use ecto_libsql.Values.{decode_args}
use ecto_libsql.Routing.Content.{
  returns_rows, content, begins_with, begins_with_any, mentions_returning,
}
use ecto_libsql.Query.{query_args}
use ecto_libsql.Query.Answers.{
  Asked, Answers, failure, execute_failed, reply, query_args-Answers, query_args-explained,
}
use ecto_libsql.Tests.{demo, c_id, free}

abbrev Cells : Type 0
Cells = List (Value (Unit {0}))

abbrev text_of : Option (Value (Unit {0})) → Result (Unit {0}) Str
text_of (some (text s)) = ok s
text_of _ = err tt

abbrev number_of : Option (Value (Unit {0})) → Result (Unit {0}) ℤ
number_of (some (integer n)) = ok n
number_of _ = err tt

-- Of the indexes of table `t`: one that is not unique, one on `b`, and one on `a` and `b`.
abbrev listed : Rows (Unit {0}) Cells
listed = next (integer (pos 0) ∷ text (str "t_note") ∷ integer (pos 0) ∷ []) (
    next (integer (pos 1) ∷ text (str "t_b") ∷ integer (pos 1) ∷ [])
      (next (integer (pos 2) ∷ text (str "t_ab") ∷ integer (pos 1) ∷ []) finish))

abbrev column_row : ℕ → Str → Cells
column_row n s = integer (pos n) ∷ integer (pos n) ∷ text s ∷ []

abbrev info : Bool → Rows (Unit {0}) Cells
info true = next (column_row 0 (str "b")) finish
info false = next (column_row 0 (str "a")) (next (column_row 1 (str "b")) finish)

abbrev answers : Option Str → Str → Rows (Unit {0}) Cells
answers (some table) sql = listed
answers none sql = info (contains (str "t_b") sql)

abbrev indexed : Libsql
indexed = record demo {
  get_string = λ r i. text_of (get_elem? r i);
  get_i64 = λ r i. number_of (get_elem? r i);
  query = λ c sql args w. (ok (answers (strip_prefix (str "PRAGMA index_list(") sql) sql), suc w);
}

abbrev in_front : Str
in_front = str "SQLite failure: `"

abbrev violated : Str
violated = unique_message in_front (str "t") (str "a") (str "b" ∷ []) (str "`")

unique_message-parsed_example :
    (contains unique_failed violated ≡ true)
    × (table_of (split b'.' (first_part (violated_parts violated))) ≡ some (str "t"))
    × (columns_of (violated_parts violated) ≡ str "a" ∷ str "b" ∷ [])
unfolding str is_whitespace
unique_message-parsed_example =
    unique_message-parsed in_front (str "t") (str "a") (str "b" ∷ []) (str "`") refl
      (refl, refl, (refl, tt)) refl

violated_text : violated ≡ str "SQLite failure: `UNIQUE constraint failed: t.a, t.b`"
unfolding str
violated_text = refl

third_index : First ⦃L = indexed⦄ 3 (str "a" ∷ str "b" ∷ []) listed 1 (str "t_ab") 3
unfolding str strip_prefix quote_identifier contains after double_quotes flat_map
third_index =
    not_unique (str "t_note") (pos 0) refl refl (λ e. cc)
      (other_columns {w = 1} {u = 2} (str "t_b") (str "b" ∷ []) refl refl
        (record { rows = info true; asked = refl; named = (refl, tt) }) (λ e. cc)
        (here refl refl (record { rows = info false; asked = refl; named = (refl, (refl, tt)) })))

index_named : enhanced_message ⦃L = indexed⦄ 3 violated 0 ≡ (
  unique_message in_front
      (str "t")
      (str "a")
      (str "b" ∷ [])
      (str " (index: " ++ (str "t_ab" ++ str ")")),
  3,
)
unfolding str is_whitespace strip_prefix quote_identifier
index_named =
    enhanced_message-First ⦃L = indexed⦄ 3 in_front (str "t") (str "a") (str "b" ∷ []) (str "`")
      listed (str "t_ab") 0 1 3 refl (refl, refl, (refl, tt)) refl refl third_index

enhanced_text :
    (enhanced_message ⦃L = indexed⦄ 3 violated 0).0
    ≡ str "SQLite failure: `UNIQUE constraint failed: t.a, t.b (index: t_ab)"
unfolding str
enhanced_text = ap (λ r. r.0) index_named

-- The same database when every statement that returns no rows fails with the message.
abbrev failing : Libsql
failing = record indexed { display = λ e. violated; execute = λ c sql args w. (err tt, suc w) }

abbrev failing_client : Mutex (LibSqlConn ⦃L = failing⦄)
failing_client = free (record { db = tt; client = free 3 })

abbrev failing_state : State ⦃L = failing⦄
failing_state = record {
  connections = free ((c_id, failing_client) ∷ []);
  transactions = free [];
  statements = free [];
  cursors = free [];
  world = 0;
}

Asked-failing : Asked ⦃L = failing⦄ failing_state c_id [] 3 []
unfolding lookup str_eq decode_args
Asked-failing = record {
  client = failing_client;
  connections_free = refl;
  connected = refl;
  client_free = refl;
  conn_free = refl;
  conn_eq = refl;
  decoded = refl;
}

no_rows : returns_rows (as_bytes (b'x' ∷ [])) ≡ false
unfolding returns_rows as_bytes encode_utf8 flat_map content is_ascii_whitespace begins_with_any
    begins_with mentions_returning
no_rows = refl

insert_fails : Answers ⦃L = failing⦄ 3 (b'x' ∷ []) [] 0 (failure tt) 1
insert_fails = execute_failed no_rows refl

failing_index : First ⦃L = failing⦄ 3 (str "a" ∷ str "b" ∷ []) listed 2 (str "t_ab") 4
unfolding str strip_prefix quote_identifier contains after double_quotes flat_map
failing_index =
    not_unique (str "t_note") (pos 0) refl refl (λ e. cc)
      (other_columns {w = 2} {u = 3} (str "t_b") (str "b" ∷ []) refl refl
        (record { rows = info true; asked = refl; named = (refl, tt) }) (λ e. cc)
        (here refl refl (record { rows = info false; asked = refl; named = (refl, (refl, tt)) })))

query_args-Answers_example : query_args ⦃L = failing⦄ c_id (b'x' ∷ []) [] failing_state ≡ (
  (reply ⦃L = failing⦄ 3 (failure tt) 1).0,
  record failing_state { world = (reply ⦃L = failing⦄ 3 (failure tt) 1).1 },
)
query_args-Answers_example =
    query_args-Answers ⦃L = failing⦄ failing_state c_id (b'x' ∷ []) [] 3 [] (failure tt) 1
      Asked-failing insert_fails

query_args-explained_example : query_args ⦃L = failing⦄ c_id (b'x' ∷ []) [] failing_state ≡ (
  err (
      term (
        unique_message in_front
          (str "t")
          (str "a")
          (str "b" ∷ [])
          (str " (index: " ++ (str "t_ab" ++ str ")")))),
  record failing_state { world = 4 },
)
unfolding str is_whitespace strip_prefix quote_identifier
query_args-explained_example =
    query_args-explained ⦃L = failing⦄ failing_state c_id (b'x' ∷ []) [] 3 [] tt in_front (str "t")
      (str "a") (str "b" ∷ []) (str "`") listed (str "t_ab") 1 2 4 Asked-failing insert_fails refl
      refl (refl, refl, (refl, tt)) refl refl failing_index
