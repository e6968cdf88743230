-- ===== src/Cursor/Fetch.antt =====
-- Fetching from a cursor, one batch at a time.
use ecto_libsql.Common.{
  ℕ, ◌+◌, ◌-◌, min, ◌≡◌, refl, ◌∙◌, ap, true, false, Bool-cases, Option-cases, inl, inr, some, List,
  [], ◌∷◌, ◌++◌, Str, str_eq, ◌==◌, arith, length, take, drop, lookup, insert, lookup-insert_self,
  length-drop, drop-add, take-min-append, sym,
}
use ecto_libsql.Effect.{Result, ok, err, ◌>>=◌, pure}
use ecto_libsql.Libsql.{Libsql, Error, Value, null, integer, real, text, blob}
use ecto_libsql.State.{State, M, CursorData, safe_lock, safe_lock_free}
use ecto_libsql.Decode.{verify_cursor_ownership}
use ecto_libsql.Cursor.{
  fetch_cursor, Fetched, fetch_count_of, slice, encode_value, encode_row, encode_rows,
}

module _ ⦃L : Libsql⦄ where
  open L use {World, Real}

  -- The cursor is registered, by the caller, and its registry is free.
  pub record Holds (s : State) (conn_id cursor_id : Str) (c : CursorData) : Type 0 where
    pub free : s.cursors.poisoned ≡ false
    pub registered : lookup cursor_id s.cursors.content ≡ some c
    pub owner : str_eq c.conn_id conn_id ≡ true

  abbrev pub moved : State → Str → CursorData → ℕ → State
  moved s cursor_id c n = record s {
    cursors = record {
      poisoned = s.cursors.poisoned;
      content = insert cursor_id (record c { position = c.position + n }) s.cursors.content;
    };
  }

  abbrev pub batch : CursorData → ℕ → List (List (Value Real))
  batch c max_rows = slice c.position (c.position + fetch_count_of c max_rows) c.rows

  abbrev reply : CursorData → ℕ → Result Error (List (List (Value Real))) → Result Error Fetched
  reply c n (ok rows) = ok (record { columns = c.columns; rows = rows; row_count = n })
  reply c n (err e) = err e

  -- The rows that a caller gets; none with an error.
  abbrev pub rows_of : Result Error Fetched → List (List (Value Real))
  rows_of (ok f) = f.rows
  rows_of (err e) = []

  -- The binaries for every blob can be allocated.
  abbrev pub Allocates : Type 0
  Allocates = (n : ℕ) (w : World) → L.allocates n w ≡ true

  encode_value_eq : Allocates → (v : Value Real) (w : World) → encode_value v w ≡ (ok v, w)
  unfolding encode_value
  encode_value_eq a null w = refl
  encode_value_eq a (integer n) w = refl
  encode_value_eq a (real x) w = refl
  encode_value_eq a (text t) w = refl
  encode_value_eq a (blob b) w = rw (a (length b) w)

  encode_row_eq : Allocates → (vs : List (Value Real)) (w : World) → encode_row vs w ≡ (ok vs, w)
  unfolding encode_row
  encode_row_eq a [] w = refl
  encode_row_eq a (v ∷ vs) w = rw (encode_value_eq a v w, encode_row_eq a vs w)

  encode_rows_eq :
      Allocates → (rs : List (List (Value Real))) (w : World) → encode_rows rs w ≡ (ok rs, w)
  unfolding encode_rows
  encode_rows_eq a [] w = refl
  encode_rows_eq a (r ∷ rs) w = rw (encode_row_eq a r w, encode_rows_eq a rs w)

  pub fetch_nothing :
      (s : State) (conn_id cursor_id : Str) (c : CursorData) (max_rows : ℕ)
      → Holds s conn_id cursor_id c
      → fetch_count_of c max_rows ≡ 0
      → fetch_cursor conn_id cursor_id max_rows s
        ≡ (ok (record { columns = c.columns; rows = []; row_count = 0 }), s)
  unfolding fetch_cursor verify_cursor_ownership
  fetch_nothing s conn_id cursor_id c max_rows h z =
      rw (safe_lock_free s.cursors _ h.free, h.registered, h.owner) (ground arith)

  -- A batch is marked as fetched before it is encoded, whether encoding succeeds or not.
  pub fetch_some :
      (s : State) (conn_id cursor_id : Str) (c : CursorData) (max_rows : ℕ)
      → Holds s conn_id cursor_id c
      → (fetch_count_of c max_rows == 0) ≡ false
      → fetch_cursor conn_id cursor_id max_rows s ≡ (
        reply c (fetch_count_of c max_rows) (encode_rows (batch c max_rows) s.world).0,
        record (moved s cursor_id c (fetch_count_of c max_rows)) {
          world = (encode_rows (batch c max_rows) s.world).1;
        },
      )
  unfolding fetch_cursor verify_cursor_ownership
  fetch_some s conn_id cursor_id c max_rows h z =
      rw (safe_lock_free s.cursors _ h.free, h.registered, h.owner) (ground arith)

  abbrev pub sum : List ℕ → ℕ
  sum [] = 0
  sum (n ∷ ns) = n + sum ns

  -- What a caller gets that fetches again and again.
  unfoldable pub fetch_all : Str → Str → List ℕ → M (List (List (Value Real)))
  fetch_all conn_id cursor_id [] = pure []
  fetch_all conn_id cursor_id (max_rows ∷ more) = do
    fetched ← fetch_cursor conn_id cursor_id max_rows
    rest ← fetch_all conn_id cursor_id more
    pure (fetched.rows ++ rest)

  abbrev pub left : CursorData → List (List (Value Real))
  left c = drop c.position c.rows

  -- One fetch: the rows that come next, and a cursor that stands behind them.
  pub record Step (s : State) (conn_id cursor_id : Str) (c : CursorData) (max_rows : ℕ)
      : Type 0 where
    pub after : State
    pub cursor : CursorData
    pub holds : Holds after conn_id cursor_id cursor
    pub fetched : Fetched
    pub run : fetch_cursor conn_id cursor_id max_rows s ≡ (ok fetched, after)
    pub rows_eq : fetched.rows ≡ take (min (length (left c)) max_rows) (left c)
    pub left_eq : left cursor ≡ drop (min (length (left c)) max_rows) (left c)

  count_left :
      (c : CursorData) (max_rows : ℕ) → fetch_count_of c max_rows ≡ min (length (left c)) max_rows
  count_left c max_rows = rw (length-drop c.position c.rows) refl

  sub_self : (p n : ℕ) → (p + n) - p ≡ n
  sub_self p n = omega arith

  pub fetch-Step :
      (s : State) (conn_id cursor_id : Str) (c : CursorData) (max_rows : ℕ)
      → Allocates
      → Holds s conn_id cursor_id c
      → Step s conn_id cursor_id c max_rows
  fetch-Step s conn_id cursor_id c max_rows a h =
      let count = fetch_count_of c max_rows in
      elim (Bool-cases (count == 0)) [
        | inl z ↦ record {
          after = s;
          cursor = c;
          holds = h;
          fetched = record { columns = c.columns; rows = []; row_count = 0 };
          run = fetch_nothing s conn_id cursor_id c max_rows h (zero_of z);
          rows_eq = ap (λ n. take n (left c)) (sym (zero_of z) ∙ count_left c max_rows);
          left_eq = ap (λ n. drop n (left c)) (sym (zero_of z) ∙ count_left c max_rows);
        }
        | inr z ↦ record {
          after = moved s cursor_id c count;
          cursor = record c { position = c.position + count };
          holds = record {
            free = h.free;
            registered = lookup-insert_self cursor_id _ _;
            owner = h.owner;
          };
          fetched = record { columns = c.columns; rows = batch c max_rows; row_count = count };
          run =
              fetch_some s conn_id cursor_id c max_rows h z
              ∙ rw (encode_rows_eq a (batch c max_rows) s.world) refl;
          rows_eq =
              rw (sub_self c.position count) (ap (λ n. take n (left c)) (count_left c max_rows));
          left_eq =
              drop-add c.position count c.rows ∙ ap (λ n. drop n (left c)) (count_left c max_rows);
        }
      ]
    where
      zero_of : (fetch_count_of c max_rows == 0) ≡ true → fetch_count_of c max_rows ≡ 0
      zero_of z = ground arith

  fetch_all-cons :
      (s : State) (conn_id cursor_id : Str) (c : CursorData) (m : ℕ) (ms : List ℕ)
      (step : Step s conn_id cursor_id c m)
      → (fetch_all conn_id cursor_id ms step.after).0 ≡ ok (take (sum ms) (left step.cursor))
      → (fetch_all conn_id cursor_id (m ∷ ms) s).0 ≡ ok (take (m + sum ms) (left c))
  unfolding fetch_all
  fetch_all-cons s conn_id cursor_id c m ms step rest =
      rw (step.run, rest)
        (ap ok (rw (step.rows_eq, step.left_eq) (take-min-append m (sum ms) (left c))))

  -- Where every binary can be allocated, the batches of a registered cursor, one after the other,
  -- are the rows that it has left, in their order and each once, up to the sum of the bounds.
  pub fetch_all-take :
      (s : State) (conn_id cursor_id : Str) (c : CursorData) (bounds : List ℕ)
      → Allocates
      → Holds s conn_id cursor_id c
      → (fetch_all conn_id cursor_id bounds s).0 ≡ ok (take (sum bounds) (left c))
  fetch_all-take s conn_id cursor_id c [] a h = unfold fetch_all in refl
  fetch_all-take s conn_id cursor_id c (m ∷ ms) a h =
      let step = fetch-Step s conn_id cursor_id c m a h in
      fetch_all-cons s conn_id cursor_id c m ms step
        (fetch_all-take step.after conn_id cursor_id step.cursor ms a step.holds)

  -- When a batch that is not empty cannot be encoded, the fetch fails with that error, and the
  -- cursor stands behind the batch all the same: its rows are skipped by the next fetch.
  pub fetch_failed :
      (s : State) (conn_id cursor_id : Str) (c : CursorData) (max_rows : ℕ) (e : Error)
      → Holds s conn_id cursor_id c
      → (fetch_count_of c max_rows == 0) ≡ false
      → (encode_rows (batch c max_rows) s.world).0 ≡ err e
      → ((fetch_cursor conn_id cursor_id max_rows s).0 ≡ err e)
        × (lookup cursor_id (fetch_cursor conn_id cursor_id max_rows s).1.cursors.content
            ≡ some (record c { position = c.position + fetch_count_of c max_rows }))
  fetch_failed s conn_id cursor_id c max_rows e h z f =
      rw (fetch_some s conn_id cursor_id c max_rows h z)
        (rw f refl, lookup-insert_self cursor_id _ _)

  -- A fetch from a cursor that is not registered, or that belongs to another connection, returns an
  -- error and leaves the cursor's position and the whole state as they were.
  pub fetch_refused :
      (s : State) (conn_id cursor_id : Str) (max_rows : ℕ)
      → ((c : CursorData)
          → lookup cursor_id s.cursors.content ≡ some c
          → str_eq c.conn_id conn_id ≡ false)
      → (e : Error) × (fetch_cursor conn_id cursor_id max_rows s ≡ (err e, s))
  unfolding fetch_cursor verify_cursor_ownership safe_lock
  fetch_refused s conn_id cursor_id max_rows foreign = elim (Bool-cases s.cursors.poisoned) [
    | inl p ↦ rw p (_, refl)
    | inr p ↦ elim (Option-cases (lookup cursor_id s.cursors.content)) [
      | inl h ↦ rw (p, h) (_, refl)
      | inr (c, h) ↦ rw (p, h, foreign c h) (_, refl)
    ]
  ]
