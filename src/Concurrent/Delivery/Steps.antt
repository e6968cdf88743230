-- ===== src/Concurrent/Delivery/Steps.antt =====
-- The steps of threads on the registry of cursors, and the rows of one cursor.
use ecto_libsql.Common.{
  ◌≡◌, refl, ap, ◌∙◌, ◌⊎◌, inl, inr, false, Bool-cases, none, some, ℕ, List, ◌++◌, take,
  take-append-drop, Str, str_eq, lookup, lookup-insert,
}
use ecto_libsql.Effect.{Result, ok, err}
use ecto_libsql.Libsql.{Libsql, Error, Value}
use ecto_libsql.State.{State, CursorData, safe_lock_poisoned, safe_lock_free}
use ecto_libsql.Cursor.{register_cursor}
use ecto_libsql.Cursor.Fetch.{Allocates, left}
use ecto_libsql.Connection.{close}
use ecto_libsql.Connection.Closing.{
  ClosedOrSame, Closed, connection, transaction, statement, cursor, close-Closed,
}
use ecto_libsql.Concurrent.Delivery.{
  Delivery, DeliveryStep, fetch, register, close_any, poison, outside, Deliveries, start, later,
  Served, same-Served,
}
use ecto_libsql.Concurrent.Delivery.Fetched.{fetched-Served}

module _ ⦃L : Libsql⦄ where
  open L use {Real}

  -- The cursor is gone after the step, or as before it.
  abbrev GoneOrSame : Str → (s t : State) → Type 0
  GoneOrSame cursor_id s t =
      (lookup cursor_id t.cursors.content ≡ none)
      ⊎ (lookup cursor_id t.cursors.content ≡ lookup cursor_id s.cursors.content)

  registered-GoneOrSame :
      (cursor_id conn_id context : Str) (found : List Str × List (List (Value Real))) (s : State)
      → str_eq (L.new_v4 s.world).0 cursor_id ≡ false
      → GoneOrSame cursor_id s (register_cursor conn_id context found s).1
  unfolding register_cursor
  registered-GoneOrSame cursor_id conn_id context found s other =
      elim (Bool-cases s.cursors.poisoned) [
        | inl p ↦ rw (safe_lock_poisoned s.cursors context p) (inr refl)
        | inr p ↦
            rw (safe_lock_free s.cursors context p) (
              inr
                (lookup-insert (L.new_v4 s.world).0 cursor_id _ s.cursors.content ∙ rw other refl))
      ]

  Closed-GoneOrSame :
      (cursor_id id opt : Str) (s t : State) → Closed s id opt t → GoneOrSame cursor_id s t
  Closed-GoneOrSame cursor_id id opt s t (connection c o l w same e) =
      inr (ap (λ m. lookup cursor_id m.content) same.2)
  Closed-GoneOrSame cursor_id id opt s t (transaction c o l w same e) =
      inr (ap (λ m. lookup cursor_id m.content) same.2)
  Closed-GoneOrSame cursor_id id opt s t (statement c o l w same e) =
      inr (ap (λ m. lookup cursor_id m.content) same.2)
  Closed-GoneOrSame cursor_id id opt s t (cursor c o l w same e) =
      elim (Bool-cases (str_eq id cursor_id)) [
        | inl k ↦ inl (w cursor_id ∙ rw k refl)
        | inr k ↦ inr (w cursor_id ∙ rw k refl)
      ]

  ClosedOrSame-GoneOrSame :
      (cursor_id id opt : Str) (s : State) (run : Result Error (Unit {0}) × State)
      → ClosedOrSame s id opt run
      → GoneOrSame cursor_id s run.1
  ClosedOrSame-GoneOrSame cursor_id id opt s (ok x, t) c = Closed-GoneOrSame cursor_id id opt s t c
  ClosedOrSame-GoneOrSame cursor_id id opt s (err e, t) same =
      inr (ap (λ u. lookup cursor_id u.cursors.content) same)

  from_run :
      (cursor_id : Str) (s t u : State)
      → t ≡ u
      → GoneOrSame cursor_id s u
      → GoneOrSame cursor_id s t
  from_run cursor_id s t u e (inl n) = inl (ap (λ v. lookup cursor_id v.cursors.content) e ∙ n)
  from_run cursor_id s t u e (inr q) = inr (ap (λ v. lookup cursor_id v.cursors.content) e ∙ q)

  step-Served :
      (cursor_id : Str) (d : CursorData) (a b : Delivery)
      → Allocates
      → DeliveryStep cursor_id a b
      → Served cursor_id d a
      → Served cursor_id d b
  step-Served cursor_id d a b al (fetch conn_id k max_rows st l) v =
      fetched-Served cursor_id d a b conn_id k max_rows al st l v
  step-Served cursor_id d a b al (register conn_id context found other st l) v =
      same-Served cursor_id d a b l
        (from_run cursor_id a.state b.state _ st
          (registered-GoneOrSame cursor_id conn_id context found a.state other))
        v
  step-Served cursor_id d a b al (close_any id opt st l) v =
      same-Served cursor_id d a b l
        (from_run cursor_id a.state b.state _ st (
          ClosedOrSame-GoneOrSame cursor_id id opt a.state (close id opt a.state)
            (close-Closed a.state id opt)))
        v
  step-Served cursor_id d a b al (poison p same l) v =
      same-Served cursor_id d a b l (inr (ap (lookup cursor_id) same)) v
  step-Served cursor_id d a b al (outside same l) v =
      same-Served cursor_id d a b l (inr (ap (λ m. lookup cursor_id m.content) same)) v

  Deliveries-Served :
      (cursor_id : Str) (d : CursorData) (s : State) (b : Delivery)
      → Allocates
      → lookup cursor_id s.cursors.content ≡ some d
      → Deliveries cursor_id s b
      → Served cursor_id d b
  Deliveries-Served cursor_id d s b al r start = record {
    count = 0;
    log_eq = refl;
    rest = inr (d, r, refl);
  }
  Deliveries-Served cursor_id d s b al r (later {a = a} runs step) =
      step-Served cursor_id d a b al step (Deliveries-Served cursor_id d s a al r runs)

  -- However the fetches of many threads, new cursors, closings, panics and other code interleave on
  -- the registry of cursors, the rows that all threads have got from one registered cursor are, in
  -- the order of their fetches, the first rows that the cursor had left, none twice and none left
  -- out, and the cursor is gone, or these with what it has left now are all of them.
  -- The binaries for blobs can be allocated, and no identifier is issued twice.
  pub delivered_once :
      (cursor_id : Str) (d : CursorData) (s : State) (b : Delivery)
      → Allocates
      → lookup cursor_id s.cursors.content ≡ some d
      → Deliveries cursor_id s b
      → ((n : ℕ) × (b.log ≡ take n (left d)))
        × ((lookup cursor_id b.state.cursors.content ≡ none)
            ⊎ ((c : CursorData) × (lookup cursor_id b.state.cursors.content ≡ some c)
                × (b.log ++ left c ≡ left d)))
  delivered_once cursor_id d s b al r runs =
      let v = Deliveries-Served cursor_id d s b al r runs in
      (
        (v.count, v.log_eq),
        elim v.rest [
          | inl n ↦ inl n
          | inr (c, l, q) ↦ inr (
            c,
            l,
            ap (λ r. r ++ left c) v.log_eq
                ∙ ap (λ r. take v.count (left d) ++ r) q
                ∙ take-append-drop v.count (left d),
          )
        ],
      )
