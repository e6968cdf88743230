-- ===== src/Cursor/Outcome.antt =====
-- The states that a fetch can leave.
use ecto_libsql.Common.{
  ◌≡◌, refl, ◌+◌, true, false, Bool-cases, Option-cases, inl, inr, some, Str, str, str_eq, ◌==◌,
  arith, lookup, insert, ℕ,
}
use ecto_libsql.Libsql.{Libsql}
use ecto_libsql.State.{State, CursorData, safe_lock_poisoned}
use ecto_libsql.Transaction.Guard.{Quiet}
use ecto_libsql.Transaction.Quiet.{Quiet-refl}
use ecto_libsql.Cursor.{fetch_cursor, fetch_count_of}
use ecto_libsql.Cursor.Fetch.{Holds, fetch_nothing, fetch_some, fetch_refused}

module _ ⦃L : Libsql⦄ where
  pub data Outcome (s : State) (conn_id cursor_id : Str) (max_rows : ℕ) (t : State) : Type 0 where
    unmoved : Quiet s t → Outcome s conn_id cursor_id max_rows t
    moved :
        (c : CursorData)
        → Holds s conn_id cursor_id c
        → t.cursors.content
          ≡ insert cursor_id
              (record c { position = c.position + fetch_count_of c max_rows })
              s.cursors.content
        → (t.connections ≡ s.connections)
          × (t.statements ≡ s.statements)
          × (t.transactions ≡ s.transactions)
        → Outcome s conn_id cursor_id max_rows t

  held :
      (s : State) (conn_id cursor_id : Str) (max_rows : ℕ) (c : CursorData)
      → Holds s conn_id cursor_id c
      → Outcome s conn_id cursor_id max_rows (fetch_cursor conn_id cursor_id max_rows s).1
  held s conn_id cursor_id max_rows c h = elim (Bool-cases (fetch_count_of c max_rows == 0)) [
    | inl z ↦
        rw (fetch_nothing s conn_id cursor_id c max_rows h (ground arith)) (unmoved (Quiet-refl s))
    | inr z ↦ rw (fetch_some s conn_id cursor_id c max_rows h z) (moved c h refl (refl, refl, refl))
  ]

  pub fetch-Outcome :
      (s : State) (conn_id cursor_id : Str) (max_rows : ℕ)
      → Outcome s conn_id cursor_id max_rows (fetch_cursor conn_id cursor_id max_rows s).1
  fetch-Outcome s conn_id cursor_id max_rows = elim (Bool-cases s.cursors.poisoned) [
    | inl p ↦ poisoned p
    | inr p ↦ elim (Option-cases (lookup cursor_id s.cursors.content)) [
      | inl n ↦ foreign (λ c l. cc)
      | inr (c, l) ↦ elim (Bool-cases (str_eq c.conn_id conn_id)) [
        | inl o ↦
            held s conn_id cursor_id max_rows c (record { free = p; registered = l; owner = o })
        | inr o ↦ foreign (λ c' l'. cc)
      ]
    ]
  ]
    where
      foreign :
          ((c : CursorData)
            → lookup cursor_id s.cursors.content ≡ some c
            → str_eq c.conn_id conn_id ≡ false)
          → Outcome s conn_id cursor_id max_rows (fetch_cursor conn_id cursor_id max_rows s).1
      foreign f = rw (fetch_refused s conn_id cursor_id max_rows f).1 (unmoved (Quiet-refl s))

      poisoned :
          s.cursors.poisoned ≡ true
          → Outcome s conn_id cursor_id max_rows (fetch_cursor conn_id cursor_id max_rows s).1
      poisoned p =
          unfold fetch_cursor in
          rw (safe_lock_poisoned s.cursors (str "fetch_cursor cursor_registry") p)
            (unmoved (Quiet-refl s))

  -- A fetch leaves the poison flag of the cursors alone.
  pub fetch-poisoned :
      (conn_id cursor_id : Str) (max_rows : ℕ) (s : State)
      → (fetch_cursor conn_id cursor_id max_rows s).1.cursors.poisoned ≡ s.cursors.poisoned
  unfolding fetch_cursor
  fetch-poisoned conn_id cursor_id max_rows s = ground arith
