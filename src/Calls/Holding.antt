-- ===== src/Calls/Holding.antt =====
-- A cursor that a connection holds, and the calls that leave it as it was.
use ecto_libsql.Common.{
  ◌≡◌, ◌≢◌, sym, ap, ◌∙◌, inl, inr, Bool, true, false, Bool-cases, ◌&&◌, some, ℕ, List, [], ◌∷◌,
  Str, str, str_eq, str_eq_iff, lookup, lookup-insert, arith,
}
use ecto_libsql.Effect.{Result, ok, err}
use ecto_libsql.Libsql.{Libsql, Error}
use ecto_libsql.State.{State, CursorData}
use ecto_libsql.Connection.Closing.{ClosedOrSame, Closed, close-Closed, close-poisoned}
use ecto_libsql.Cursor.{declare_cursor, declare_cursor_with_context}
use ecto_libsql.Cursor.Fetch.{Holds}
use ecto_libsql.Cursor.Declare.{Opened, OpenedOrQuiet, declare_cursor-Opened}
use ecto_libsql.Cursor.Context.{DeclaredOrSame, declare_cursor_with_context-Declared}
use ecto_libsql.Cursor.Outcome.{Outcome, unmoved, moved, fetch-Outcome, fetch-poisoned}
use ecto_libsql.Isolation.Begin.{begin-Registers}
use ecto_libsql.Connection.Connected.{connect-Connected}
use ecto_libsql.Statement.Prepare.{prepare_statement-Prepared}
use ecto_libsql.Calls.Effects.{run-Leaves}
use ecto_libsql.Calls.Kept.{
  Registers-cursors, ConnectedOrQuiet-cursors, PreparedOrQuiet-cursors, Finishes-cursors,
}
use ecto_libsql.Calls.{Call, run}

module _ ⦃L : Libsql⦄ where
  open L use {Real}

  -- A fetch from the cursor by its connection.
  abbrev pub fetches : Str → Str → Call → Bool
  fetches conn_id cursor_id (Call.fetch_cursor c k max_rows) =
      str_eq conn_id c && str_eq cursor_id k
  fetches conn_id cursor_id c = false

  -- A call that does not close the cursor, and is not given its identifier for another one.
  abbrev pub Avoids : Str → Call → State → Type 0
  Avoids cursor_id (Call.close k opt) s =
      str_eq opt (str "cursor_id") ≡ true → str_eq k cursor_id ≡ false
  Avoids cursor_id (Call.declare_cursor conn_id sql args) s =
      (declare_cursor conn_id sql args s).0 ≢ ok cursor_id
  Avoids cursor_id (Call.declare_cursor_with_context conn_id id id_type sql args) s =
      (declare_cursor_with_context conn_id id id_type sql args s).0 ≢ ok cursor_id
  Avoids cursor_id c s = Unit

  abbrev pub AllAvoid : Str → List Call → State → Type 0
  AllAvoid cursor_id [] s = Unit
  AllAvoid cursor_id (c ∷ cs) s = Avoids cursor_id c s × AllAvoid cursor_id cs (run c s)

  -- The cursor is held as it was.
  abbrev pub Holding : Str → Str → State → State → Type 0
  Holding conn_id cursor_id s t =
      (c : CursorData) → Holds s conn_id cursor_id c → Holds t conn_id cursor_id c

  same-Holding :
      (conn_id cursor_id : Str) (s t : State)
      → t.cursors ≡ s.cursors
      → Holding conn_id cursor_id s t
  same-Holding conn_id cursor_id s t e c h = record {
    free = ap (λ m. m.poisoned) e ∙ h.free;
    registered = ap (λ m. lookup cursor_id m.content) e ∙ h.registered;
    owner = h.owner;
  }

  closed-Holding :
      (conn_id cursor_id id opt : Str) (s t : State) (r : Result Error (Unit {0}))
      → t.cursors.poisoned ≡ s.cursors.poisoned
      → (str_eq opt (str "cursor_id") ≡ true → str_eq id cursor_id ≡ false)
      → ClosedOrSame s id opt (r, t)
      → Holding conn_id cursor_id s t
  closed-Holding conn_id cursor_id id opt s t (ok _) p a (Closed.connection c o l w r v) d h =
      same-Holding conn_id cursor_id s t r.2 d h
  closed-Holding conn_id cursor_id id opt s t (ok _) p a (Closed.transaction e o l w r v) d h =
      same-Holding conn_id cursor_id s t r.2 d h
  closed-Holding conn_id cursor_id id opt s t (ok _) p a (Closed.statement e o l w r v) d h =
      same-Holding conn_id cursor_id s t r.2 d h
  closed-Holding conn_id cursor_id id opt s t (ok _) p a (Closed.cursor c o l w r v) d h = record {
    free = p ∙ h.free;
    registered = w cursor_id ∙ rw (a o) h.registered;
    owner = h.owner;
  }
  closed-Holding conn_id cursor_id id opt s t (err e) p a same d h =
      same-Holding conn_id cursor_id s t (ap (λ x. x.cursors) same) d h

  Opened-Holding :
      (conn_id cursor_id c id : Str) (s t : State)
      → Opened s c id t
      → id ≢ cursor_id
      → Holding conn_id cursor_id s t
  Opened-Holding conn_id cursor_id c id s t o n d h = record {
    free = o.holds.free;
    registered =
        o.others cursor_id (elim (Bool-cases (str_eq id cursor_id)) [
          | inl e ↦ absurd (n ((str_eq_iff id cursor_id).0 e))
          | inr e ↦ e
        ])
        ∙ h.registered;
    owner = h.owner;
  }

  declared-Holding :
      (conn_id cursor_id c : Str) (s : State) (run : Result Error Str × State)
      → OpenedOrQuiet s c run
      → run.0 ≢ ok cursor_id
      → Holding conn_id cursor_id s run.1
  declared-Holding conn_id cursor_id c s (ok id, t) o n =
      Opened-Holding conn_id cursor_id c id s t o (λ e. n (ap ok e))
  declared-Holding conn_id cursor_id c s (err e, t) q n =
      same-Holding conn_id cursor_id s t q.quiet_cursors

  in_context-Holding :
      (conn_id cursor_id c : Str) (s : State) (run : Result Error Str × State)
      → DeclaredOrSame s c run
      → run.0 ≢ ok cursor_id
      → Holding conn_id cursor_id s run.1
  in_context-Holding conn_id cursor_id c s (ok id, t) o n d h =
      Opened-Holding conn_id cursor_id c id o.queried t o.opened (λ e. n (ap ok e)) d
        (same-Holding conn_id cursor_id s o.queried o.restored.same_cursors d h)
  in_context-Holding conn_id cursor_id c s (err e, t) q n d h =
      same-Holding conn_id cursor_id s t q.same_cursors d h

  -- Of two fetches that are not the same, one moves another cursor.
  other_cursor :
      (s : State) (conn_id cursor_id c k : Str) (d d' : CursorData)
      → (str_eq conn_id c && str_eq cursor_id k) ≡ false
      → Holds s conn_id cursor_id d
      → Holds s c k d'
      → str_eq k cursor_id ≡ false
  other_cursor s conn_id cursor_id c k d d' other h h' = elim (Bool-cases (str_eq k cursor_id)) [
    | inr e ↦ e
    | inl e ↦
        let k_eq : k ≡ cursor_id = (str_eq_iff k cursor_id).0 e in
        let same : some d ≡ some d' =
          sym h.registered ∙ (ap (λ x. lookup x s.cursors.content) (sym k_eq) ∙ h'.registered) in
        let owners : d.conn_id ≡ d'.conn_id = cc in
        let c_eq : conn_id ≡ c =
          sym ((str_eq_iff d.conn_id conn_id).0 h.owner)
          ∙ (owners ∙ (str_eq_iff d'.conn_id c).0 h'.owner) in
        ground (arith, (str_eq_iff conn_id c).1 c_eq, (str_eq_iff cursor_id k).1 (sym k_eq))
  ]

  -- A fetch from another cursor, or by another connection.
  fetched-Holding :
      (conn_id cursor_id c k : Str) (n : ℕ) (s t : State)
      → t.cursors.poisoned ≡ s.cursors.poisoned
      → (str_eq conn_id c && str_eq cursor_id k) ≡ false
      → Outcome s c k n t
      → Holding conn_id cursor_id s t
  fetched-Holding conn_id cursor_id c k n s t p other (unmoved q) d h =
      same-Holding conn_id cursor_id s t q.quiet_cursors d h
  fetched-Holding conn_id cursor_id c k n s t p other (moved d' h' m r) d h = record {
    free = p ∙ h.free;
    registered =
        ap (lookup cursor_id) m
        ∙ (lookup-insert k cursor_id _ s.cursors.content
            ∙ rw (other_cursor s conn_id cursor_id c k d d' other h h') h.registered);
    owner = h.owner;
  }

  -- Any other call leaves the cursor as it was.
  pub run-Holding :
      (conn_id cursor_id : Str) (s : State) (c : Call)
      → fetches conn_id cursor_id c ≡ false
      → Avoids cursor_id c s
      → Holding conn_id cursor_id s (run c s)
  unfolding run
  run-Holding conn_id cursor_id s (Call.connect opts mode) f a =
      same-Holding conn_id cursor_id s _
        (ConnectedOrQuiet-cursors s _ (connect-Connected s opts mode))
  run-Holding conn_id cursor_id s (Call.begin_transaction c) f a =
      same-Holding conn_id cursor_id s _ (Registers-cursors c s _ (begin-Registers s c []).0)
  run-Holding conn_id cursor_id s (Call.begin_transaction_with_behavior c behavior) f a =
      same-Holding conn_id cursor_id s _ (Registers-cursors c s _ (begin-Registers s c behavior).1)
  run-Holding conn_id cursor_id s (Call.prepare_statement c sql) f a =
      same-Holding conn_id cursor_id s _
        (PreparedOrQuiet-cursors c s _ (prepare_statement-Prepared s c sql))
  run-Holding conn_id cursor_id s (Call.declare_cursor c sql args) f a =
      declared-Holding conn_id cursor_id c s _ (declare_cursor-Opened s c sql args) a
  run-Holding conn_id cursor_id s (Call.declare_cursor_with_context c id id_type sql args) f a =
      in_context-Holding conn_id cursor_id c s _
        (declare_cursor_with_context-Declared s c id id_type sql args) a
  run-Holding conn_id cursor_id s (Call.fetch_cursor c k n) f a =
      fetched-Holding conn_id cursor_id c k n s _ (fetch-poisoned c k n s) f (fetch-Outcome s c k n)
  run-Holding conn_id cursor_id s (Call.commit_or_rollback_transaction trx_id c param) f a =
      same-Holding conn_id cursor_id s _ (
        Finishes-cursors trx_id c param s _
          (run-Leaves s (Call.commit_or_rollback_transaction trx_id c param)))
  run-Holding conn_id cursor_id s (Call.close id opt) f a =
      closed-Holding conn_id cursor_id id opt s _ _ (close-poisoned id opt s) a
        (close-Closed s id opt)
  run-Holding conn_id cursor_id s c f a =
      same-Holding conn_id cursor_id s _ (run-Leaves s c).same_cursors
