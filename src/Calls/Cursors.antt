-- ===== src/Calls/Cursors.antt =====
-- Cursors over any sequence of calls: the slice of a fetch stays in its rows.
use ecto_libsql.Common.{
  ◌≡◌, refl, sym, ◌∙◌, ap, inl, inr, false, Bool-cases, none, some, ℕ, ◌+◌, ◌≤◌, List, [], ◌∷◌, Str,
  str_eq, str_eq_iff, length, lookup, insert, lookup-insert, lookup-insert_self, subst,
  if◌then◌else◌, arith,
}
use ecto_libsql.Effect.{Result, ok, err}
use ecto_libsql.Libsql.{Libsql, Error}
use ecto_libsql.State.{State, CursorData}
use ecto_libsql.Connection.Closing.{ClosedOrSame, Closed, Without}
use ecto_libsql.Cursor.{fetch_count_of}
use ecto_libsql.Cursor.Even.{Even}
use ecto_libsql.Cursor.Fetch.{Holds}
use ecto_libsql.Cursor.Declare.{Opened}
use ecto_libsql.Cursor.Outcome.{Outcome, unmoved, moved}
use ecto_libsql.Calls.Effects.{Leaves, run-Leaves}
use ecto_libsql.Calls.{Call, run, run_all}

module _ ⦃L : Libsql⦄ where
  open L use {Real}

  -- A cursor stands in its rows or behind the last one, and its rows are even.
  pub record Sound (c : CursorData) : Type 0 where
    pub in_bounds : c.position ≤ length c.rows
    pub even : Even (c.columns, c.rows)

  abbrev pub CursorsSound : State → Type 0
  CursorsSound s = (k : Str) (c : CursorData) → lookup k s.cursors.content ≡ some c → Sound c

  -- A change under which each cursor was there before, or is sound.
  abbrev Keeps : State → State → Type 0
  Keeps s t = CursorsSound s → CursorsSound t

  same-Keeps : (s t : State) → t.cursors ≡ s.cursors → Keeps s t
  same-Keeps s t h sound k c l = sound k c (ap (λ m. lookup k m.content) (sym h) ∙ l)

  -- A sound cursor is entered, and the other ones are left.
  set-Keeps :
      (s t : State) (id : Str) (new : CursorData)
      → lookup id t.cursors.content ≡ some new
      → Sound new
      → ((k : Str) → str_eq id k ≡ false → lookup k t.cursors.content ≡ lookup k s.cursors.content)
      → Keeps s t
  set-Keeps s t id new found good others sound k c l = elim (Bool-cases (str_eq id k)) [
    | inl e ↦
        let k_eq = (str_eq_iff id k).0 e in
        let same : lookup id t.cursors.content ≡ some c = rw k_eq l in
        let c_eq : new ≡ c = cc in subst Sound c_eq good
    | inr e ↦ sound k c (sym (others k e) ∙ l)
  ]

  Opened-Keeps : (s t : State) (conn_id id : Str) → Opened s conn_id id t → Keeps s t
  Opened-Keeps s t conn_id id o =
      set-Keeps s t id o.cursor o.holds.registered
        (record { in_bounds = rw o.at_start (omega arith); even = o.even }) o.others

  -- A fetch takes at most the rows that are left.
  count_in_bounds :
      (c : CursorData) (max_rows : ℕ)
      → c.position ≤ length c.rows
      → c.position + fetch_count_of c max_rows ≤ length c.rows
  count_in_bounds c max_rows h = omega arith

  advanced-Keeps :
      (s t : State) (conn_id cursor_id : Str) (c : CursorData) (max_rows : ℕ)
      → Holds s conn_id cursor_id c
      → t.cursors.content
        ≡ insert cursor_id
            (record c { position = c.position + fetch_count_of c max_rows })
            s.cursors.content
      → Keeps s t
  advanced-Keeps s t conn_id cursor_id c max_rows h m sound =
      let good = sound cursor_id c h.registered in
      let new = record c { position = c.position + fetch_count_of c max_rows } in
      set-Keeps s t cursor_id new
        (ap (lookup cursor_id) m ∙ lookup-insert_self cursor_id new s.cursors.content)
        (record { in_bounds = count_in_bounds c max_rows good.in_bounds; even = good.even })
        (λ k other.
          ap (lookup k) m ∙ (lookup-insert cursor_id k new s.cursors.content ∙ rw other refl))
        sound

  fetched-Keeps :
      (s t : State) (conn_id cursor_id : Str) (max_rows : ℕ)
      → Outcome s conn_id cursor_id max_rows t
      → Keeps s t
  fetched-Keeps s t conn_id cursor_id max_rows (unmoved q) = same-Keeps s t q.quiet_cursors
  fetched-Keeps s t conn_id cursor_id max_rows (moved c h m r) =
      advanced-Keeps s t conn_id cursor_id c max_rows h m

  Without-Keeps : (s t : State) (id : Str) → Without id s.cursors t.cursors → Keeps s t
  Without-Keeps s t id w sound k d found = sound k d (left_over (w k))
    where
      left_over :
          lookup k t.cursors.content ≡ (if str_eq id k then none else lookup k s.cursors.content)
          → lookup k s.cursors.content ≡ some d
      left_over h = ground arith

  closed-Keeps :
      (s t : State) (id opt : Str) (r : Result Error (Unit {0}))
      → ClosedOrSame s id opt (r, t)
      → Keeps s t
  closed-Keeps s t id opt (ok _) (Closed.connection c o l w r v) = same-Keeps s t r.2
  closed-Keeps s t id opt (ok _) (Closed.transaction e o l w r v) = same-Keeps s t r.2
  closed-Keeps s t id opt (ok _) (Closed.statement e o l w r v) = same-Keeps s t r.2
  closed-Keeps s t id opt (ok _) (Closed.cursor c o l w r v) = Without-Keeps s t id w
  closed-Keeps s t id opt (err e) h = same-Keeps s t (ap (λ x. x.cursors) h)

  Leaves-Keeps : (s t : State) (c : Call) → Leaves c s t → Keeps s t
  Leaves-Keeps s t (Call.connect opts mode) (ok id, h) = same-Keeps s t h.same_rest.2
  Leaves-Keeps s t (Call.connect opts mode) (err e, h) = same-Keeps s t h.quiet_cursors
  Leaves-Keeps s t (Call.begin_transaction conn_id) (ok id, h) = same-Keeps s t h.same_rest.2
  Leaves-Keeps s t (Call.begin_transaction conn_id) (err e, h) = same-Keeps s t h.3
  Leaves-Keeps s t (Call.begin_transaction_with_behavior conn_id b) (ok id, h) =
      same-Keeps s t h.same_rest.2
  Leaves-Keeps s t (Call.begin_transaction_with_behavior conn_id b) (err e, h) = same-Keeps s t h.3
  Leaves-Keeps s t (Call.prepare_statement conn_id sql) (ok id, h) = same-Keeps s t h.same_rest.1
  Leaves-Keeps s t (Call.prepare_statement conn_id sql) (err e, h) = same-Keeps s t h.quiet_cursors
  Leaves-Keeps s t (Call.declare_cursor conn_id sql args) (ok id, h) = Opened-Keeps s t conn_id id h
  Leaves-Keeps s t (Call.declare_cursor conn_id sql args) (err e, h) =
      same-Keeps s t h.quiet_cursors
  Leaves-Keeps s t (Call.declare_cursor_with_context conn_id k ty sql args) (ok id, h) = λ sound.
      Opened-Keeps h.queried t conn_id id h.opened
        (same-Keeps s h.queried h.restored.same_cursors sound)
  Leaves-Keeps s t (Call.declare_cursor_with_context conn_id k ty sql args) (err e, h) =
      same-Keeps s t h.same_cursors
  Leaves-Keeps s t (Call.fetch_cursor conn_id cursor_id max_rows) h =
      fetched-Keeps s t conn_id cursor_id max_rows h
  Leaves-Keeps s t (Call.commit_or_rollback_transaction trx_id conn_id param) (inl h) =
      same-Keeps s t h.same_cursors
  Leaves-Keeps s t (Call.commit_or_rollback_transaction trx_id conn_id param)
        (inr (e, l, o, (r, f))) =
      same-Keeps s t f.same_rest.2
  Leaves-Keeps s t (Call.close id opt) (r, h) = closed-Keeps s t id opt r h
  Leaves-Keeps s t c h = same-Keeps s t h.same_cursors

  -- Over any sequence of calls, successful or not, all cursors stay sound: each stands in its rows
  -- or behind the last one, and each of its rows is as wide as its columns or empty.
  pub run_all-CursorsSound :
      (s : State) (cs : List Call) → CursorsSound s → CursorsSound (run_all cs s)
  unfolding run_all
  run_all-CursorsSound s [] sound = sound
  run_all-CursorsSound s (c ∷ cs) sound =
      run_all-CursorsSound (run c s) cs (Leaves-Keeps s (run c s) c (run-Leaves s c) sound)

  pub no_cursors : (s : State) → s.cursors.content ≡ [] → CursorsSound s
  unfolding lookup
  no_cursors s none_yet k c l = let e : none ≡ some c = sym (ap (lookup k) none_yet) ∙ l in cc

  -- From a state without cursors, whatever the calls were, the slice that the next fetch of any
  -- cursor takes, of whatever bound, ends in the cursor's rows and starts no later than it ends, so
  -- that it cannot panic.
  pub fetches_in_bounds :
      (s : State) (cs : List Call) (k : Str) (c : CursorData) (max_rows : ℕ)
      → s.cursors.content ≡ []
      → lookup k (run_all cs s).cursors.content ≡ some c
      → (c.position ≤ c.position + fetch_count_of c max_rows)
        × (c.position + fetch_count_of c max_rows ≤ length c.rows)
  fetches_in_bounds s cs k c max_rows none_yet l =
      let sound = run_all-CursorsSound s cs (no_cursors s none_yet) k c l in
      (omega arith, count_in_bounds c max_rows sound.in_bounds)
