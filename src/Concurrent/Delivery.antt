-- ===== src/Concurrent/Delivery.antt =====
-- cursor.rs on several threads: what runs under one lock of the registry of cursors is one step. A
-- fetch holds that lock from the look-up to the last row that it encodes.
pub mod Fetched
pub mod Steps
use ecto_libsql.Common.{
  ◌≡◌, refl, sym, ap, ◌∙◌, ◌⊎◌, inl, inr, Bool, true, false, Bool-cases, Option-cases, none, some,
  ℕ, zero, suc, ◌+◌, min, List, [], ◌∷◌, ◌++◌, append-nil, append_assoc, length, take, take-add,
  drop, drop-add, take-append-drop, Str, str, str_eq, str_eq_iff, lookup, lookup-insert,
  if◌then◌else◌, arith,
}
use ecto_libsql.Effect.{Result, ok, err}
use ecto_libsql.Libsql.{Libsql, Error, Value}
use ecto_libsql.State.{State, CursorData, safe_lock_poisoned}
use ecto_libsql.Cursor.{fetch_cursor, register_cursor}
use ecto_libsql.Cursor.Fetch.{Holds, Allocates, left, rows_of, fetch-Step, fetch_refused}
use ecto_libsql.Cursor.Outcome.{Outcome, unmoved, moved, fetch-Outcome}
use ecto_libsql.Connection.{close}
use ecto_libsql.Connection.Closing.{ClosedOrSame, Closed, close-Closed}

module _ ⦃L : Libsql⦄ where
  open L use {Real}

  -- The registries, with the rows that threads have got from one cursor, in the order of their
  -- fetches.
  pub record Delivery : Type 0 where
    pub state : State
    pub log : List (List (Value Real))

  abbrev pub got : Str → Str → Str → ℕ → State → List (List (Value Real))
  got cursor_id conn_id k max_rows s =
      if str_eq k cursor_id then rows_of (fetch_cursor conn_id k max_rows s).0 else []

  -- One step of one thread. An identifier that is issued is not that of the cursor, as version 4
  -- UUIDs are not issued twice.
  pub data DeliveryStep (cursor_id : Str) (a b : Delivery) : Type 0 where
    fetch :
        (conn_id k : Str) (max_rows : ℕ)
        → b.state ≡ (fetch_cursor conn_id k max_rows a.state).1
        → b.log ≡ a.log ++ got cursor_id conn_id k max_rows a.state
        → DeliveryStep cursor_id a b
    register :
        (conn_id context : Str) (found : List Str × List (List (Value Real)))
        → str_eq (L.new_v4 a.state.world).0 cursor_id ≡ false
        → b.state ≡ (register_cursor conn_id context found a.state).1
        → b.log ≡ a.log
        → DeliveryStep cursor_id a b
    close_any :
        (id opt : Str)
        → b.state ≡ (close id opt a.state).1
        → b.log ≡ a.log
        → DeliveryStep cursor_id a b
    -- A thread panics while it holds the lock of the registry.
    poison :
        b.state.cursors.poisoned ≡ true
        → b.state.cursors.content ≡ a.state.cursors.content
        → b.log ≡ a.log
        → DeliveryStep cursor_id a b
    -- Any code that does not touch the registry of cursors.
    outside : b.state.cursors ≡ a.state.cursors → b.log ≡ a.log → DeliveryStep cursor_id a b

  pub data Deliveries (cursor_id : Str) (s : State) : Delivery → Type 0 where
    start : Deliveries cursor_id s (record { state = s; log = [] })
    later :
        {a b : Delivery}
        → Deliveries cursor_id s a
        → DeliveryStep cursor_id a b
        → Deliveries cursor_id s b

  -- So many rows were delivered, and the cursor is gone or has the others left.
  pub record Served (cursor_id : Str) (d : CursorData) (a : Delivery) : Type 0 where
    pub count : ℕ
    pub log_eq : a.log ≡ take count (left d)
    pub rest :
        (lookup cursor_id a.state.cursors.content ≡ none)
        ⊎ ((c : CursorData) × (lookup cursor_id a.state.cursors.content ≡ some c)
            × (left c ≡ drop count (left d)))

  -- Nothing is delivered, and the cursor stays, or goes.
  pub same-Served :
      (cursor_id : Str) (d : CursorData) (a b : Delivery)
      → b.log ≡ a.log
      → (lookup cursor_id b.state.cursors.content ≡ none)
        ⊎ (lookup cursor_id b.state.cursors.content ≡ lookup cursor_id a.state.cursors.content)
      → Served cursor_id d a
      → Served cursor_id d b
  same-Served cursor_id d a b l (inl n) v = record {
    count = v.count;
    log_eq = l ∙ v.log_eq;
    rest = inl n;
  }
  same-Served cursor_id d a b l (inr e) v = record {
    count = v.count;
    log_eq = l ∙ v.log_eq;
    rest = elim v.rest [ inl n ↦ inl (e ∙ n) | inr (c, r, q) ↦ inr (c, e ∙ r, q) ];
  }
