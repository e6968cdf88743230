-- ===== src/Tests/Memory.antt =====
-- A fetch that fails because no binary can be allocated.
use ecto_libsql.Common.{◌≡◌, refl, false, some, [], ◌∷◌, lookup, str, str_eq}
use ecto_libsql.Effect.{err}
use ecto_libsql.Libsql.{Libsql, blob, term}
use ecto_libsql.State.{State, CursorData}
use ecto_libsql.Cursor.{fetch_cursor, encode_value, encode_row, encode_rows}
use ecto_libsql.Cursor.Fetch.{Holds, fetch_failed, batch}
use ecto_libsql.Tests.{demo, c_id, k_id, free}

abbrev low_memory : Libsql
low_memory = record demo { allocates = λ n w. false }

abbrev blobs : CursorData ⦃L = low_memory⦄
blobs = record {
  conn_id = c_id;
  columns = (b'b' ∷ []) ∷ [];
  rows = (blob (1 ∷ []) ∷ []) ∷ (blob (2 ∷ []) ∷ []) ∷ [];
  position = 0;
}

abbrev with_blobs : State ⦃L = low_memory⦄
with_blobs = record {
  connections = free [];
  transactions = free [];
  statements = free [];
  cursors = free ((k_id, blobs) ∷ []);
  world = 0;
}

blobs_held : Holds ⦃L = low_memory⦄ with_blobs c_id k_id blobs
unfolding lookup str_eq
blobs_held = record { free = refl; registered = refl; owner = refl }

not_encoded :
    (encode_rows ⦃L = low_memory⦄ (batch ⦃L = low_memory⦄ blobs 1) 0).0
    ≡ err (term (str "Failed to allocate binary for blob data"))
unfolding encode_value encode_row encode_rows
not_encoded = refl

fetch_failed_example :
    ((fetch_cursor ⦃L = low_memory⦄ c_id k_id 1 with_blobs).0
      ≡ err (term (str "Failed to allocate binary for blob data")))
    × (lookup k_id (fetch_cursor ⦃L = low_memory⦄ c_id k_id 1 with_blobs).1.cursors.content
        ≡ some (record blobs { position = 1 }))
fetch_failed_example =
    fetch_failed ⦃L = low_memory⦄ with_blobs c_id k_id blobs 1
      (term (str "Failed to allocate binary for blob data")) blobs_held refl not_encoded
