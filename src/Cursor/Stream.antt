-- ===== src/Cursor/Stream.antt =====
-- A query through a cursor, from its declaration to its last row.
use ecto_libsql.Common.{
  ◌≡◌, refl, sym, ap, ◌∙◌, ℕ, false, some, List, [], ◌∷◌, ◌++◌, map, Str, str, str_eq_refl, lookup,
  insert, lookup-insert_self, take, append-nil, append_assoc,
}
use ecto_libsql.Effect.{ok, then_run}
use ecto_libsql.Libsql.{Libsql, Value, Rows, finish, next}
use ecto_libsql.State.{State, Mutex, LibSqlConn, safe_lock_free, safe_lock_arc}
use ecto_libsql.Values.{decode_args, named_columns}
use ecto_libsql.Cursor.{
  row_values, buffer_rows, run_query, buffer_query, register_cursor, declare_cursor,
}
use ecto_libsql.Cursor.Fetch.{Allocates, fetch_all, fetch_all-take, sum}

module _ ⦃L : Libsql⦄ where
  open L use {World, Term, Real, Row, LibError, Connection}

  -- A result of these rows, all of which are read without a failure.
  abbrev pub result_of : List Row → Rows LibError Row
  result_of [] = finish
  result_of (r ∷ rs) = next r (result_of rs)

  -- What the rows are under these columns.
  abbrev pub table : List Str → List Row → List (List (Value Real))
  table columns = map (λ r. row_values r 0 columns)

  buffer_rows-named :
      (c : Str) (cs : List Str) (rows : List (List (Value Real))) (rs : List Row)
      → buffer_rows (c ∷ cs) rows (result_of rs) ≡ ok (c ∷ cs, rows ++ table (c ∷ cs) rs)
  unfolding buffer_rows named_columns
  buffer_rows-named c cs rows [] = ap (λ x. ok (c ∷ cs, x)) (sym (append-nil rows))
  buffer_rows-named c cs rows (r ∷ rs) =
      buffer_rows-named c cs (rows ++ row_values r 0 (c ∷ cs) ∷ []) rs
      ∙ ap (λ x. ok (c ∷ cs, x))
          (append_assoc rows (row_values r 0 (c ∷ cs) ∷ []) (table (c ∷ cs) rs))

  -- The first row names the columns.
  buffer_rows-table :
      (c : Str) (cs : List Str) (first : Row) (more : List Row)
      → named_columns first [] ≡ c ∷ cs
      → buffer_rows [] [] (result_of (first ∷ more)) ≡ ok (c ∷ cs, table (c ∷ cs) (first ∷ more))
  unfolding buffer_rows
  buffer_rows-table c cs first more h =
      ap (λ names. buffer_rows names (row_values first 0 names ∷ []) (result_of more)) h
      ∙ buffer_rows-named c cs (row_values first 0 (c ∷ cs) ∷ []) more

  -- The connection is there, and nothing is poisoned.
  pub record Ready (s : State) (conn_id : Str) (client : Mutex LibSqlConn) : Type 0 where
    pub connections_free : s.connections.poisoned ≡ false
    pub cursors_free : s.cursors.poisoned ≡ false
    pub connected : lookup conn_id s.connections.content ≡ some client
    pub client_free : client.poisoned ≡ false
    pub conn_free : client.content.client.poisoned ≡ false

  safe_lock_arc_free :
      {A : Type 0} (m : Mutex A) (context : Str)
      → m.poisoned ≡ false
      → safe_lock_arc m context ≡ ok m.content
  unfolding safe_lock_arc
  safe_lock_arc_free m context h = rw h

  buffer_query-ok :
      (s : State) (conn_id sql : Str) (args : List Term) (params : List (Value Real))
      (client : Mutex LibSqlConn) (list : Rows LibError Row)
      (found : List Str × List (List (Value Real)))
      → Ready s conn_id client
      → decode_args args ≡ ok params
      → (L.query client.content.client.content sql params s.world).0 ≡ ok list
      → buffer_rows [] [] list ≡ ok found
      → buffer_query conn_id sql args s ≡ (
        ok found,
        record s { world = (L.query client.content.client.content sql params s.world).1 },
      )
  unfolding buffer_query run_query
  buffer_query-ok s conn_id sql args params client list found r d q b =
      rw
        (
          safe_lock_free s.connections (str "declare_cursor conn_map") r.connections_free,
          r.connected,
          d,
          safe_lock_arc_free client (str "declare_cursor client") r.client_free,
          safe_lock_arc_free client.content.client (str "declare_cursor conn") r.conn_free,
          q,
          b,
        )
        refl

  -- The state in which a cursor over the rows has been registered.
  abbrev with_cursor : Str → List Str × List (List (Value Real)) → State → State
  with_cursor conn_id found s = record s {
    world = (L.new_v4 s.world).1;
    cursors = record {
      poisoned = s.cursors.poisoned;
      content =
          insert (L.new_v4 s.world).0
            (record { conn_id = conn_id; columns = found.0; rows = found.1; position = 0 })
            s.cursors.content;
    };
  }

  register_cursor-ok :
      (s : State) (conn_id context : Str) (found : List Str × List (List (Value Real)))
      → s.cursors.poisoned ≡ false
      → register_cursor conn_id context found s
        ≡ (ok (L.new_v4 s.world).0, with_cursor conn_id found s)
  unfolding register_cursor
  register_cursor-ok s conn_id context found p = rw (safe_lock_free s.cursors context p) refl

  -- A declared cursor, from the rows found to the batches of its fetches.
  streams :
      (s : State) (conn_id : Str) (found : List Str × List (List (Value Real))) (bounds : List ℕ)
      → s.cursors.poisoned ≡ false
      → Allocates
      → (fetch_all conn_id (L.new_v4 s.world).0 bounds (with_cursor conn_id found s)).0
        ≡ ok (take (sum bounds) found.1)
  streams s conn_id found bounds p a =
      fetch_all-take (with_cursor conn_id found s) conn_id (L.new_v4 s.world).0
        (record { conn_id = conn_id; columns = found.0; rows = found.1; position = 0 }) bounds a
        (record {
          free = p;
          registered = lookup-insert_self (L.new_v4 s.world).0 _ s.cursors.content;
          owner = str_eq_refl conn_id;
        })

  -- On a connection that is there, with no mutex poisoned, with arguments that decode and binaries
  -- that can be allocated: when libsql answers the query with rows, the first of which has a
  -- column, the cursor is declared, and the batches that are fetched from it, whatever their
  -- bounds, are those rows read under the columns of the first, in their order and each once, up to
  -- the sum of the bounds.
  pub declare_cursor-fetch_all :
      (s : State) (conn_id sql : Str) (args : List Term) (params : List (Value Real))
      (client : Mutex LibSqlConn) (first : Row) (more : List Row) (c : Str) (cs : List Str)
      (bounds : List ℕ)
      → Ready s conn_id client
      → decode_args args ≡ ok params
      → (L.query client.content.client.content sql params s.world).0 ≡ ok (result_of (first ∷ more))
      → named_columns first [] ≡ c ∷ cs
      → Allocates
      → (cursor_id : Str) × (t : State) × (declare_cursor conn_id sql args s ≡ (ok cursor_id, t))
        × ((fetch_all conn_id cursor_id bounds t).0
            ≡ ok (take (sum bounds) (table (c ∷ cs) (first ∷ more))))
  unfolding declare_cursor
  declare_cursor-fetch_all s conn_id sql args params client first more c cs bounds r d q n a =
      let queried : State = record s {
        world = (L.query client.content.client.content sql params s.world).1;
      } in
      let found : List Str × List (List (Value Real)) = (c ∷ cs, table (c ∷ cs) (first ∷ more)) in
      (
        _,
        _,
        ap (λ run. then_run run (register_cursor conn_id (str "declare_cursor cursor_registry")))
              (buffer_query-ok s conn_id sql args params client (result_of (first ∷ more)) found r d
                q (buffer_rows-table c cs first more n))
            ∙ register_cursor-ok queried conn_id (str "declare_cursor cursor_registry") found
                r.cursors_free,
        streams queried conn_id found bounds r.cursors_free a,
      )
