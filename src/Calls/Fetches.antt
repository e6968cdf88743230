-- ===== src/Calls/Fetches.antt =====
-- The fetches of one cursor among any other calls.
use ecto_libsql.Common.{
  ◌≡◌, refl, sym, ap, ◌∙◌, inl, inr, false, Bool-cases, ◌&&◌, ℕ, ◌+◌, List, [], ◌∷◌, ◌++◌, min,
  length, take, drop, Str, str_eq, str_eq_iff, str_eq_refl, subst, if◌then◌else◌, arith,
  take-min-append,
}
use ecto_libsql.Libsql.{Libsql, Value}
use ecto_libsql.State.{State, CursorData}
use ecto_libsql.Cursor.{fetch_cursor}
use ecto_libsql.Cursor.Fetch.{Holds, Allocates, left, rows_of, fetch-Step}
use ecto_libsql.Calls.Holding.{fetches, Avoids, AllAvoid, run-Holding}
use ecto_libsql.Calls.{Call, run}

module _ ⦃L : Libsql⦄ where
  open L use {Real}

  -- The rows that the connection gets from the cursor by a call.
  abbrev pub received : Str → Str → Call → State → List (List (Value Real))
  received conn_id cursor_id (Call.fetch_cursor c k max_rows) s =
      if str_eq conn_id c && str_eq cursor_id k then rows_of (fetch_cursor c k max_rows s).0 else []
  received conn_id cursor_id c s = []

  -- The bound of a fetch from the cursor by the connection.
  abbrev pub asked : Str → Str → Call → ℕ
  asked conn_id cursor_id (Call.fetch_cursor c k max_rows) =
      if str_eq conn_id c && str_eq cursor_id k then max_rows else 0
  asked conn_id cursor_id c = 0

  abbrev pub all_received : Str → Str → List Call → State → List (List (Value Real))
  all_received conn_id cursor_id [] s = []
  all_received conn_id cursor_id (c ∷ cs) s =
      received conn_id cursor_id c s ++ all_received conn_id cursor_id cs (run c s)

  abbrev pub all_asked : Str → Str → List Call → ℕ
  all_asked conn_id cursor_id [] = 0
  all_asked conn_id cursor_id (c ∷ cs) = asked conn_id cursor_id c + all_asked conn_id cursor_id cs

  -- The cursor behind a call, and what the call got from it.
  record Moved (s : State) (conn_id cursor_id : Str) (d : CursorData) (c : Call) : Type 0 where
    pub cursor : CursorData
    pub holds : Holds (run c s) conn_id cursor_id cursor
    pub rows_eq :
        received conn_id cursor_id c s
        ≡ take (min (length (left d)) (asked conn_id cursor_id c)) (left d)
    pub left_eq : left cursor ≡ drop (min (length (left d)) (asked conn_id cursor_id c)) (left d)

  min_zero : (n : ℕ) → min n 0 ≡ 0
  min_zero n = omega arith

  nothing_received :
      (conn_id cursor_id : Str) (c : Call) (s : State)
      → fetches conn_id cursor_id c ≡ false
      → (received conn_id cursor_id c s ≡ []) × (asked conn_id cursor_id c ≡ 0)
  nothing_received conn_id cursor_id (Call.fetch_cursor c k n) s f = (rw f refl, rw f refl)
  nothing_received conn_id cursor_id c s f = (refl, refl)

  other-Moved :
      (s : State) (conn_id cursor_id : Str) (d : CursorData) (c : Call)
      → fetches conn_id cursor_id c ≡ false
      → Avoids cursor_id c s
      → Holds s conn_id cursor_id d
      → Moved s conn_id cursor_id d c
  other-Moved s conn_id cursor_id d c f a h =
      let (got, bound) = nothing_received conn_id cursor_id c s f in
      let none_taken : min (length (left d)) (asked conn_id cursor_id c) ≡ 0 =
        ap (min (length (left d))) bound ∙ min_zero (length (left d)) in
      record {
        cursor = d;
        holds = run-Holding conn_id cursor_id s c f a d h;
        rows_eq = got ∙ ap (λ n. take n (left d)) (sym none_taken);
        left_eq = ap (λ n. drop n (left d)) (sym none_taken);
      }

  run-fetch :
      (s : State) (conn_id cursor_id : Str) (n : ℕ)
      → run (Call.fetch_cursor conn_id cursor_id n) s ≡ (fetch_cursor conn_id cursor_id n s).1
  unfolding run
  run-fetch s conn_id cursor_id n = refl

  fetch-Moved :
      (s : State) (conn_id cursor_id : Str) (d : CursorData) (n : ℕ)
      → Allocates
      → Holds s conn_id cursor_id d
      → Moved s conn_id cursor_id d (Call.fetch_cursor conn_id cursor_id n)
  fetch-Moved s conn_id cursor_id d n a h =
      let step = fetch-Step s conn_id cursor_id d n a h in
      record {
        cursor = step.cursor;
        holds =
            subst (λ t. Holds t conn_id cursor_id step.cursor)
              (sym (run-fetch s conn_id cursor_id n ∙ ap (λ r. r.1) step.run)) step.holds;
        rows_eq =
            rw (str_eq_refl conn_id, str_eq_refl cursor_id)
              (ap (λ r. rows_of r.0) step.run ∙ step.rows_eq);
        left_eq = rw (str_eq_refl conn_id, str_eq_refl cursor_id) step.left_eq;
      }

  call-Moved :
      (s : State) (conn_id cursor_id : Str) (d : CursorData) (c : Call)
      → Allocates
      → Avoids cursor_id c s
      → Holds s conn_id cursor_id d
      → Moved s conn_id cursor_id d c
  call-Moved s conn_id cursor_id d (Call.fetch_cursor c k n) a v h =
      elim (Bool-cases (str_eq conn_id c && str_eq cursor_id k)) [
        | inr f ↦ other-Moved s conn_id cursor_id d (Call.fetch_cursor c k n) f v h
        | inl f ↦
            let c_eq : conn_id ≡ c = (str_eq_iff conn_id c).0 (ground arith) in
            let k_eq : cursor_id ≡ k = (str_eq_iff cursor_id k).0 (ground arith) in
            subst (λ x. Moved s conn_id cursor_id d (Call.fetch_cursor x k n)) c_eq
              (subst (λ x. Moved s conn_id cursor_id d (Call.fetch_cursor conn_id x n)) k_eq
                (fetch-Moved s conn_id cursor_id d n a h))
      ]
  call-Moved s conn_id cursor_id d c a v h = other-Moved s conn_id cursor_id d c refl v h

  -- Where every binary can be allocated: over any sequence of calls of any connections, successful
  -- or not, among which none closes the cursor and none declares another one under its identifier,
  -- what its connection gets by its fetches is what the cursor had left, in order and each row once,
  -- up to the sum of their bounds.
  pub all_received-take :
      (s : State) (conn_id cursor_id : Str) (d : CursorData) (cs : List Call)
      → Allocates
      → Holds s conn_id cursor_id d
      → AllAvoid cursor_id cs s
      → all_received conn_id cursor_id cs s ≡ take (all_asked conn_id cursor_id cs) (left d)
  all_received-take s conn_id cursor_id d [] a h v = refl
  all_received-take s conn_id cursor_id d (c ∷ cs) a h (v, vs) =
      let moved = call-Moved s conn_id cursor_id d c a v h in
      let more = all_received-take (run c s) conn_id cursor_id moved.cursor cs a moved.holds vs in
      let m = asked conn_id cursor_id c in
      let rest_eq : all_received conn_id cursor_id cs (run c s)
          ≡ take (all_asked conn_id cursor_id cs) (drop (min (length (left d)) m) (left d)) =
        more ∙ ap (take (all_asked conn_id cursor_id cs)) moved.left_eq in
      ap (λ xs. xs ++ all_received conn_id cursor_id cs (run c s)) moved.rows_eq
      ∙ (ap (λ xs. take (min (length (left d)) m) (left d) ++ xs) rest_eq
          ∙ take-min-append m (all_asked conn_id cursor_id cs) (left d))
