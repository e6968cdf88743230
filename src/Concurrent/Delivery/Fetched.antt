-- ===== src/Concurrent/Delivery/Fetched.antt =====
-- A fetch of one thread, and the rows of one cursor that it delivers.
use ecto_libsql.Common.{
  ◌≡◌, refl, sym, ap, ◌∙◌, inl, inr, true, false, Bool-cases, none, some, ℕ, ◌+◌, min, [], ◌++◌,
  append-nil, length, take, take-add, drop, drop-add, Str, str, str_eq, str_eq_iff, lookup,
  lookup-insert,
}
use ecto_libsql.Effect.{err}
use ecto_libsql.Libsql.{Libsql, Error}
use ecto_libsql.State.{State, CursorData, safe_lock_poisoned}
use ecto_libsql.Cursor.{fetch_cursor}
use ecto_libsql.Cursor.Fetch.{Allocates, left, rows_of, fetch-Step, fetch_refused}
use ecto_libsql.Cursor.Outcome.{Outcome, unmoved, moved, fetch-Outcome}
use ecto_libsql.Concurrent.Delivery.{Delivery, got, Served, same-Served}

module _ ⦃L : Libsql⦄ where
  open L use {Real}

  -- What a fetch from the cursor gives, and what it leaves.
  record Fetching (cursor_id conn_id : Str) (max_rows : ℕ) (s : State) (c : CursorData)
      : Type 0 where
    pub taken : ℕ
    pub rows_eq : rows_of (fetch_cursor conn_id cursor_id max_rows s).0 ≡ take taken (left c)
    pub behind : CursorData
    pub registered :
        lookup cursor_id (fetch_cursor conn_id cursor_id max_rows s).1.cursors.content ≡ some behind
    pub left_eq : left behind ≡ drop taken (left c)

  refused-Fetching :
      (cursor_id conn_id : Str) (max_rows : ℕ) (s : State) (c : CursorData)
      → lookup cursor_id s.cursors.content ≡ some c
      → (e : Error) × (fetch_cursor conn_id cursor_id max_rows s ≡ (err e, s))
      → Fetching cursor_id conn_id max_rows s c
  refused-Fetching cursor_id conn_id max_rows s c r (e, q) = record {
    taken = 0;
    rows_eq = rw q refl;
    behind = c;
    registered = rw q r;
    left_eq = refl;
  }

  fetch_poisoned :
      (conn_id cursor_id : Str) (max_rows : ℕ) (s : State)
      → s.cursors.poisoned ≡ true
      → (e : Error) × (fetch_cursor conn_id cursor_id max_rows s ≡ (err e, s))
  unfolding fetch_cursor
  fetch_poisoned conn_id cursor_id max_rows s p =
      rw (safe_lock_poisoned s.cursors (str "fetch_cursor cursor_registry") p) (_, refl)

  fetch-Fetching :
      (cursor_id conn_id : Str) (max_rows : ℕ) (s : State) (c : CursorData)
      → Allocates
      → lookup cursor_id s.cursors.content ≡ some c
      → Fetching cursor_id conn_id max_rows s c
  fetch-Fetching cursor_id conn_id max_rows s c a r = elim (Bool-cases s.cursors.poisoned) [
    | inl p ↦
        refused-Fetching cursor_id conn_id max_rows s c r
          (fetch_poisoned conn_id cursor_id max_rows s p)
    | inr p ↦ elim (Bool-cases (str_eq c.conn_id conn_id)) [
      | inr o ↦
          refused-Fetching cursor_id conn_id max_rows s c r
            (fetch_refused s conn_id cursor_id max_rows (λ c' l. cc))
      | inl o ↦
          let step =
            fetch-Step s conn_id cursor_id c max_rows a
              (record { free = p; registered = r; owner = o }) in
          record {
            taken = min (length (left c)) max_rows;
            rows_eq = rw step.run step.rows_eq;
            behind = step.cursor;
            registered = rw step.run step.holds.registered;
            left_eq = step.left_eq;
          }
    ]
  ]

  other_kept :
      (cursor_id conn_id k : Str) (max_rows : ℕ) (s t : State)
      → str_eq k cursor_id ≡ false
      → Outcome s conn_id k max_rows t
      → lookup cursor_id t.cursors.content ≡ lookup cursor_id s.cursors.content
  other_kept cursor_id conn_id k max_rows s t other (unmoved q) =
      ap (λ m. lookup cursor_id m.content) q.quiet_cursors
  other_kept cursor_id conn_id k max_rows s t other (moved c h m r) =
      ap (lookup cursor_id) m ∙ (lookup-insert k cursor_id _ s.cursors.content ∙ rw other refl)

  gone_stays :
      (cursor_id conn_id : Str) (max_rows : ℕ) (s : State)
      → lookup cursor_id s.cursors.content ≡ none
      → (e : Error) × (fetch_cursor conn_id cursor_id max_rows s ≡ (err e, s))
  gone_stays cursor_id conn_id max_rows s n = fetch_refused s conn_id cursor_id max_rows (λ c l. cc)

  got_from :
      (cursor_id conn_id k : Str) (max_rows : ℕ) (s : State)
      → str_eq k cursor_id ≡ true
      → got cursor_id conn_id k max_rows s ≡ rows_of (fetch_cursor conn_id cursor_id max_rows s).0
  got_from cursor_id conn_id k max_rows s e =
      rw e (ap (λ x. rows_of (fetch_cursor conn_id x max_rows s).0) ((str_eq_iff k cursor_id).0 e))

  got_other :
      (cursor_id conn_id k : Str) (max_rows : ℕ) (s : State)
      → str_eq k cursor_id ≡ false
      → got cursor_id conn_id k max_rows s ≡ []
  got_other cursor_id conn_id k max_rows s other = rw other refl

  -- The rows that a fetch takes are those that come next.
  here-Served :
      (cursor_id conn_id : Str) (max_rows : ℕ) (d c : CursorData) (a b : Delivery) (count : ℕ)
      → a.log ≡ take count (left d)
      → left c ≡ drop count (left d)
      → b.log ≡ a.log ++ rows_of (fetch_cursor conn_id cursor_id max_rows a.state).0
      → b.state ≡ (fetch_cursor conn_id cursor_id max_rows a.state).1
      → Fetching cursor_id conn_id max_rows a.state c
      → Served cursor_id d b
  here-Served cursor_id conn_id max_rows d c a b count served still l st f = record {
    count = count + f.taken;
    log_eq =
        l
        ∙ ap (λ r. a.log ++ r) (f.rows_eq ∙ ap (take f.taken) still)
        ∙ ap (λ r. r ++ take f.taken (drop count (left d))) served
        ∙ take-add count f.taken (left d);
    rest = inr (
      f.behind,
      ap (λ s. lookup cursor_id s.cursors.content) st ∙ f.registered,
      f.left_eq ∙ ap (drop f.taken) still ∙ sym (drop-add count f.taken (left d)),
    );
  }

  -- The cursor's own rows go to the log, and no others.
  pub fetched-Served :
      (cursor_id : Str) (d : CursorData) (a b : Delivery) (conn_id k : Str) (max_rows : ℕ)
      → Allocates
      → b.state ≡ (fetch_cursor conn_id k max_rows a.state).1
      → b.log ≡ a.log ++ got cursor_id conn_id k max_rows a.state
      → Served cursor_id d a
      → Served cursor_id d b
  fetched-Served cursor_id d a b conn_id k max_rows al st l v =
      elim (Bool-cases (str_eq k cursor_id)) [
        | inr other ↦
            same-Served cursor_id d a b
              (l
                ∙ ap (λ r. a.log ++ r) (got_other cursor_id conn_id k max_rows a.state other)
                ∙ append-nil a.log)
              (inr (
                ap (λ s. lookup cursor_id s.cursors.content) st
                ∙ other_kept cursor_id conn_id k max_rows a.state _ other
                    (fetch-Outcome a.state conn_id k max_rows)))
              v
        | inl same ↦
            let l' =
              l ∙ ap (λ r. a.log ++ r) (got_from cursor_id conn_id k max_rows a.state same) in
            let st' =
              st
              ∙ ap (λ x. (fetch_cursor conn_id x max_rows a.state).1)
                  ((str_eq_iff k cursor_id).0 same) in
            elim v.rest [
              | inl n ↦
                  let gone = (gone_stays cursor_id conn_id max_rows a.state n).1 in
                  same-Served cursor_id d a b
                    (l' ∙ ap (λ r. a.log ++ rows_of r.0) gone ∙ append-nil a.log)
                    (inl
                      (ap (λ s. lookup cursor_id s.cursors.content) (st' ∙ ap (λ r. r.1) gone) ∙ n))
                    v
              | inr (c, r, q) ↦
                  here-Served cursor_id conn_id max_rows d c a b v.count v.log_eq q l' st'
                    (fetch-Fetching cursor_id conn_id max_rows a.state c al r)
            ]
      ]
