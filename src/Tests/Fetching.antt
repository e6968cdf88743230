-- ===== src/Tests/Fetching.antt =====
-- Fetches from a cursor among other calls.
use ecto_libsql.Common.{
  ◌≡◌, refl, arith, ℕ, none, ◌⊎◌, some, ◌++◌, take, List, [], ◌∷◌, str, str_eq, lookup, insert,
  remove,
}
use ecto_libsql.State.{CursorData, safe_lock, safe_lock_arc}
use ecto_libsql.Decode.{verify_cursor_ownership}
use ecto_libsql.Values.{decode_args}
use ecto_libsql.Cursor.{
  declare_cursor, buffer_query, fetch_cursor, encode_rows, encode_row, encode_value, buffer_rows,
  register_cursor,
}
use ecto_libsql.Cursor.Fetch.{Holds, left}
use ecto_libsql.Concurrent.Delivery.{Delivery, fetch, register, Deliveries, start, later}
use ecto_libsql.Concurrent.Delivery.Steps.{delivered_once}
use ecto_libsql.Calls.{Call, run}
use ecto_libsql.Calls.Holding.{AllAvoid}
use ecto_libsql.Calls.Fetches.{all_received, all_received-take}
use ecto_libsql.Tests.{demo, c_id, d_id, s_id, k_id, demo_row, demo_cursor, demo_state}

-- One row, a fetch by another connection, another cursor, a statement that is closed, two rows.
abbrev mixed_calls : List Call
mixed_calls =
    Call.fetch_cursor c_id k_id 1
    ∷ Call.fetch_cursor d_id k_id 3
    ∷ Call.declare_cursor c_id (b'x' ∷ []) []
    ∷ Call.close s_id (str "stmt_id")
    ∷ Call.fetch_cursor c_id k_id 2
    ∷ []

k_held : Holds demo_state c_id k_id demo_cursor
unfolding lookup str_eq
k_held = record { free = refl; registered = refl; owner = refl }

mixed_avoid : AllAvoid k_id mixed_calls demo_state
unfolding str str_eq run declare_cursor buffer_query buffer_rows register_cursor fetch_cursor
    encode_rows encode_row encode_value decode_args verify_cursor_ownership safe_lock safe_lock_arc
    lookup insert remove
mixed_avoid = (tt, (tt, ((λ e. ground arith), ((λ e. cc), (tt, tt)))))

all_received-take_example :
    all_received c_id k_id mixed_calls demo_state ≡ demo_row 2 ∷ demo_row 3 ∷ demo_row 4 ∷ []
unfolding str_eq
all_received-take_example =
    all_received-take demo_state c_id k_id demo_cursor mixed_calls (λ n w. refl) k_held mixed_avoid

-- A fetch, a fetch by another connection, a new cursor, and a fetch of the two next rows.
abbrev first_fetch : Delivery
first_fetch = record { state = (fetch_cursor c_id k_id 1 demo_state).1; log = demo_row 2 ∷ [] }

abbrev second_fetch : Delivery
second_fetch = record {
  state = (fetch_cursor d_id k_id 3 first_fetch.state).1;
  log = demo_row 2 ∷ [];
}

abbrev declared : Delivery
declared = record {
  state =
      (register_cursor d_id (str "declare_cursor cursor_registry") ([], []) second_fetch.state).1;
  log = demo_row 2 ∷ [];
}

abbrev third_fetch : Delivery
third_fetch = record {
  state = (fetch_cursor c_id k_id 2 declared.state).1;
  log = demo_row 2 ∷ demo_row 3 ∷ demo_row 4 ∷ [];
}

third_fetch-Deliveries : Deliveries k_id demo_state third_fetch
unfolding str str_eq register_cursor fetch_cursor encode_rows encode_row encode_value
    verify_cursor_ownership safe_lock lookup insert remove
third_fetch-Deliveries =
    later
      (later (later (later start (fetch c_id k_id 1 refl refl)) (fetch d_id k_id 3 refl refl))
        (register d_id (str "declare_cursor cursor_registry") ([], []) refl refl refl))
      (fetch c_id k_id 2 refl refl)

delivered_once_example :
    ((n : ℕ) × (third_fetch.log ≡ take n (left demo_cursor)))
    × ((lookup k_id third_fetch.state.cursors.content ≡ none)
        ⊎ ((c : CursorData) × (lookup k_id third_fetch.state.cursors.content ≡ some c)
            × (third_fetch.log ++ left c ≡ left demo_cursor)))
delivered_once_example =
    delivered_once k_id demo_cursor demo_state third_fetch (λ n w. refl) k_held.registered
      third_fetch-Deliveries
