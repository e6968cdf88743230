-- ===== src/Tests/Statements.antt =====
-- The theorems on statements, names and messages at concrete texts.
use ecto_libsql.Common.{
  ℕ, ◌≡◌, ◌≢◌, ◌↔◌, refl, true, false, some, inl, inr, List, [], ◌∷◌, ◌++◌, str, str_eq, lookup,
  arith, All, map, as_bytes,
}
use ecto_libsql.Effect.{ok, err}
use ecto_libsql.Decode.{validate_savepoint_name}
use ecto_libsql.Text.{contains, is_ascii_whitespace, is_whitespace, trim_start_by}
use ecto_libsql.Routing.Agreement.{Plain, capital, detected_select-routes_to_query}
use ecto_libsql.Routing.{detect_query_type, select, routes_to_query, returning, select_word}
use ecto_libsql.Routing.Content.{mentions_returning, content, code, block}
use ecto_libsql.Routing.Blank.{
  Blank, nothing, block_comment, Spells, done, letter, content-unclosed,
}
use ecto_libsql.Routing.Documented.{Ends, skip-Ends, needs_query, routes_to_query-eq-needs_query}
use ecto_libsql.Routing.Decision.{
  routes_to_query-keyword, routes_to_query-returning, routes_to_query-glued,
}
use ecto_libsql.Savepoint.{savepoint, release_savepoint, rollback_to_savepoint}
use ecto_libsql.Savepoint.Names.{IsIdentifier, validate_savepoint_name_iff}
use ecto_libsql.Savepoint.Commands.{savepoints_rejected, savepoints_sent}
use ecto_libsql.Transaction.Guard.{Refused}
use ecto_libsql.Constraint.{enhanced_message, quote_identifier}
use ecto_libsql.Constraint.Quoted.{read_identifier, read_identifier-quote_identifier}
use ecto_libsql.Constraint.Kept.{Kept, enhanced_message-Kept, enhanced_message-other}
use ecto_libsql.Batch.{run_batch, run_in_transaction, batch_error}
use ecto_libsql.Libsql.{Libsql, blob, finish, next}
use ecto_libsql.Cursor.{buffer_rows}
use ecto_libsql.Values.Collected.{counted, collect_rows-buffer_rows}
use ecto_libsql.Batch.Order.{
  Ran, step, done as all_done, refused, failing, batch_commits, batch_rolls_back, batch_stops,
}
use ecto_libsql.Values.{QueryResult, collect_rows}
use ecto_libsql.Tests.{demo, c_id, t_id, demo_client, demo_trx, demo_state}

-- `/**/SELECT 1` as bytes.
abbrev query : List ℕ
query = b'/' ∷ b'*' ∷ b'*' ∷ b'/' ∷ b's' ∷ b'E' ∷ b'l' ∷ b'E' ∷ b'c' ∷ b'T' ∷ b' ' ∷ b'1' ∷ []

routes_to_query-eq-needs_query_example : routes_to_query query ≡ some (needs_query query)
routes_to_query-eq-needs_query_example = routes_to_query-eq-needs_query query

select_spelt : Spells select_word (b's' ∷ b'E' ∷ b'l' ∷ b'E' ∷ b'c' ∷ b'T' ∷ [])
select_spelt =
    letter refl (letter refl (letter refl (letter refl (letter refl (letter refl done)))))

Blank-comment : Blank (b'/' ∷ b'*' ∷ b'*' ∷ b'/' ∷ [])
Blank-comment = block_comment [] refl nothing

comment_and_select : routes_to_query query ≡ some true
unfolding is_ascii_whitespace
comment_and_select =
    routes_to_query-keyword select_word (b' ' ∷ b'1' ∷ []) Blank-comment (inr (inr (inl refl)))
      select_spelt refl

star : is_ascii_whitespace b'*' ≡ false
unfolding is_ascii_whitespace
star = refl

routes_to_query-glued_example :
    routes_to_query
      (b'/' ∷ b'*' ∷ b'*' ∷ b'/' ∷ b's' ∷ b'E' ∷ b'l' ∷ b'E' ∷ b'c' ∷ b'T' ∷ b'*' ∷ [])
    ≡ some (
        mentions_returning true
          (b'/' ∷ b'*' ∷ b'*' ∷ b'/' ∷ b's' ∷ b'E' ∷ b'l' ∷ b'E' ∷ b'c' ∷ b'T' ∷ b'*' ∷ []))
routes_to_query-glued_example = routes_to_query-glued b'*' [] Blank-comment select_spelt star

returning_spelt :
    Spells returning (b'r' ∷ b'E' ∷ b'T' ∷ b'U' ∷ b'R' ∷ b'N' ∷ b'I' ∷ b'N' ∷ b'G' ∷ [])
returning_spelt = letter refl (
    letter refl (
      letter refl
        (letter refl (letter refl (letter refl (letter refl (letter refl (letter refl done))))))))

not_blank :
    content code (b'x' ∷ b' ' ∷ b'r' ∷ b'E' ∷ b'T' ∷ b'U' ∷ b'R' ∷ b'N' ∷ b'I' ∷ b'N' ∷ b'G' ∷ [])
    ≢ []
unfolding content is_ascii_whitespace
not_blank e = cc

after_space : is_ascii_whitespace b' ' ≡ true
unfolding is_ascii_whitespace
after_space = refl

returning_routed :
    routes_to_query
      (b'x' ∷ b' ' ∷ b'r' ∷ b'E' ∷ b'T' ∷ b'U' ∷ b'R' ∷ b'N' ∷ b'I' ∷ b'N' ∷ b'G' ∷ [])
    ≡ some true
returning_routed =
    routes_to_query-returning (b'x' ∷ b' ' ∷ []) [] not_blank after_space returning_spelt refl

skip-Ends_example : Ends query
skip-Ends_example = skip-Ends query

content-unclosed_example : content block (b'x' ∷ b'y' ∷ []) ≡ b'y' ∷ []
unfolding is_ascii_whitespace
content-unclosed_example = content-unclosed (b'x' ∷ []) b'y' refl

validate_savepoint_name_iff_example :
    (validate_savepoint_name (b'p' ∷ []) ≡ ok tt) ↔ IsIdentifier (b'p' ∷ [])
validate_savepoint_name_iff_example = validate_savepoint_name_iff (b'p' ∷ [])

digit_first : ¬ IsIdentifier (b'1' ∷ [])
digit_first i = ground arith

identifier : IsIdentifier (b'p' ∷ [])
identifier = ((λ d. ground arith), (ground arith, tt))

name_rejected :
    Refused demo_state (savepoint c_id t_id (b'1' ∷ []) demo_state)
    × Refused demo_state (release_savepoint c_id t_id (b'1' ∷ []) demo_state)
    × Refused demo_state (rollback_to_savepoint c_id t_id (b'1' ∷ []) demo_state)
name_rejected = savepoints_rejected demo_state t_id c_id (b'1' ∷ []) digit_first

trx_found : lookup t_id demo_state.transactions.content ≡ some demo_trx
unfolding lookup str_eq
trx_found = refl

trx_owned : str_eq demo_trx.conn_id c_id ≡ true
unfolding str_eq
trx_owned = refl

savepoints_sent_example :
    ((savepoint c_id t_id (b'p' ∷ []) demo_state).1.world
      ≡ (demo.trx_execute 5 (str "SAVEPOINT " ++ b'p' ∷ []) [] 0).1)
    × ((release_savepoint c_id t_id (b'p' ∷ []) demo_state).1.world
        ≡ (demo.trx_execute 5 (str "RELEASE SAVEPOINT " ++ b'p' ∷ []) [] 0).1)
    × ((rollback_to_savepoint c_id t_id (b'p' ∷ []) demo_state).1.world
        ≡ (demo.trx_execute 5 (str "ROLLBACK TO SAVEPOINT " ++ b'p' ∷ []) [] 0).1)
savepoints_sent_example =
    savepoints_sent demo_state t_id c_id (b'p' ∷ []) demo_trx identifier refl trx_found trx_owned

enhanced_message-Kept_example :
    Kept 3
      (str "UNIQUE constraint failed: t.x")
      (enhanced_message 3 (str "UNIQUE constraint failed: t.x") 0).0
enhanced_message-Kept_example = enhanced_message-Kept 3 (str "UNIQUE constraint failed: t.x") 0

no_marker : contains (str "UNIQUE constraint failed:") (b'o' ∷ b'h' ∷ []) ≡ false
unfolding contains str
no_marker = refl

no_marker_no_look_up : enhanced_message 3 (b'o' ∷ b'h' ∷ []) 0 ≡ (b'o' ∷ b'h' ∷ [], 0)
no_marker_no_look_up = enhanced_message-other 3 (b'o' ∷ b'h' ∷ []) 0 no_marker

-- Two statements that succeed.
abbrev none_found : QueryResult
none_found = record { columns = []; rows = []; num_rows = 0 }

two-Ran :
    Ran
      (λ sql args w. demo.query 3 sql args w)
      0
      ((b'x' ∷ [], []) ∷ (b'y' ∷ [], []) ∷ [])
      (none_found ∷ none_found ∷ [])
      2
unfolding collect_rows
two-Ran =
    step 0 1 2 (b'x' ∷ []) [] finish none_found _ _ refl refl
      (step 1 2 2 (b'y' ∷ []) [] finish none_found _ _ refl refl (all_done 2))

batch_commits_example :
    run_in_transaction 5 ((b'x' ∷ [], []) ∷ (b'y' ∷ [], []) ∷ []) 0
    ≡ (ok (none_found ∷ none_found ∷ []), 3)
batch_commits_example =
    batch_commits 5 0 2 ((b'x' ∷ [], []) ∷ (b'y' ∷ [], []) ∷ []) (none_found ∷ none_found ∷ [])
      two-Ran refl

batch_rolls_back_example :
    run_in_transaction 5 ((b'x' ∷ [], []) ∷ (b'y' ∷ [], []) ∷ ([], []) ∷ (b'z' ∷ [], []) ∷ []) 0
    ≡ (err (batch_error tt), 4)
batch_rolls_back_example =
    batch_rolls_back 5 0 2 ((b'x' ∷ [], []) ∷ (b'y' ∷ [], []) ∷ []) ((b'z' ∷ [], []) ∷ [])
      (none_found ∷ none_found ∷ []) [] [] (refused tt 3 refl) two-Ran

batch_stops_example :
    run_batch demo_client ((b'x' ∷ [], []) ∷ (b'y' ∷ [], []) ∷ ([], []) ∷ (b'z' ∷ [], []) ∷ []) 0
    ≡ (err (batch_error tt), 3)
batch_stops_example =
    batch_stops demo_client 0 2 ((b'x' ∷ [], []) ∷ (b'y' ∷ [], []) ∷ [])
      (none_found ∷ none_found ∷ []) (failing [] [] ((b'z' ∷ [], []) ∷ []) (refused tt 3 refl)) refl
      refl two-Ran

-- A name with a quote in it, in the text of a pragma.
read_identifier-quote_identifier_example :
    read_identifier (quote_identifier (b'a' ∷ b'"' ∷ b'b' ∷ []) ++ (b')' ∷ []))
    ≡ some (b'a' ∷ b'"' ∷ b'b' ∷ [], b')' ∷ [])
read_identifier-quote_identifier_example =
    read_identifier-quote_identifier (b'a' ∷ b'"' ∷ b'b' ∷ []) (b')' ∷ []) refl

-- ` sElect 1`, as code points.
abbrev spaced_select : List ℕ
spaced_select = b' ' ∷ b's' ∷ b'E' ∷ b'l' ∷ b'e' ∷ b'c' ∷ b't' ∷ b' ' ∷ b'1' ∷ []

spaced-Plain : All Plain spaced_select
spaced-Plain = (refl, (refl, (refl, (refl, (refl, (refl, (refl, (refl, (refl, tt)))))))))

spaced_detected : detect_query_type (map capital) spaced_select ≡ select
unfolding detect_query_type trim_start_by is_whitespace str str_eq
spaced_detected = refl

detected_select-routes_to_query_example : routes_to_query (as_bytes spaced_select) ≡ some true
detected_select-routes_to_query_example =
    detected_select-routes_to_query (map capital) spaced_select (λ w h. refl) spaced-Plain
      spaced_detected

-- A database whose cells all hold a blob.
abbrev only_blobs : Libsql
only_blobs = record demo { get = λ r i. ok (blob (7 ∷ [])) }

collect_rows-buffer_rows_example :
    collect_rows ⦃L = only_blobs⦄ (next [] (next [] finish)) 0
    ≡ (counted ⦃L = only_blobs⦄ (buffer_rows ⦃L = only_blobs⦄ [] [] (next [] (next [] finish))), 0)
collect_rows-buffer_rows_example =
    collect_rows-buffer_rows ⦃L = only_blobs⦄ (λ r i. (blob (7 ∷ []), refl)) (λ n w. refl)
      (next [] (next [] finish)) 0
