-- ===== src/Concurrent/Locks/Order.antt =====
-- The order of the locks, which every NIF keeps.
use ecto_libsql.Common.{
  ℕ, ◌≡◌, refl, sym, subst, inl, inr, Bool, true, false, ◌&&◌, ltb, List, [], ◌∷◌, ◌++◌, All, Str,
  arith,
}
use ecto_libsql.Libsql.{Libsql}
use ecto_libsql.Calls.{Call}
use ecto_libsql.Concurrent.Locks.{
  Lock, connection_registry, transaction_registry, statement_registry, cursor_registry, client,
  connection, statement, acquire, release, Steps, each_statement, lock_paths, Thread, drop_guards,
  In, Move, enters, acquires, releases, returns_early, Runs, idle, moves,
}

abbrev pub rank : Lock → ℕ
rank connection_registry = 0
rank statement_registry = 1
rank (client conn_id) = 2
rank (connection conn_id) = 3
rank transaction_registry = 4
rank cursor_registry = 4
rank (statement stmt_id) = 4

abbrev pub above : Lock → List Lock → Bool
above l [] = true
above l (h ∷ hs) = ltb (rank h) (rank l) && above l hs

-- Each lock is acquired above all guards that are held, and at the end no guard is held.
abbrev pub follows : List Lock → Steps → Bool
follows [] [] = true
follows (h ∷ hs) [] = false
follows hs (acquire l ∷ rest) = above l hs && follows (l ∷ hs) rest
follows [] (release ∷ rest) = false
follows (h ∷ hs) (release ∷ rest) = follows hs rest

abbrev pub InOrder : Thread → Type 0
InOrder t = follows t.guards t.todo ≡ true

abbrev Follows : Steps → Type 0
Follows path = follows [] path ≡ true

follows-each_statement :
    (conn_id : Str) {A : Type 0} (ss : List A) → follows [] (each_statement conn_id ss) ≡ true
follows-each_statement conn_id [] = refl
follows-each_statement conn_id (s ∷ ss) = follows-each_statement conn_id ss

follows-drop_guards : (gs : List Lock) (back : Bool) → follows gs (drop_guards gs back) ≡ true
follows-drop_guards [] true = refl
follows-drop_guards [] false = refl
follows-drop_guards (g ∷ gs) back = follows-drop_guards gs back

module _ {A : Type 0} (P : A → Type 0) where
  at_split : (pre post : List A) (t : A) → All P (pre ++ (t ∷ post)) → P t
  at_split [] post t a = a.0
  at_split (h ∷ pre) post t a = at_split pre post t a.1

  put_at :
      (pre post : List A) (t u : A) → All P (pre ++ (t ∷ post)) → P u → All P (pre ++ (u ∷ post))
  put_at [] post t u a p = (p, a.1)
  put_at (h ∷ pre) post t u a p = (a.0, put_at pre post t u a.1 p)

  pub among : (p : A) (ps : List A) → In p ps → All P ps → P p
  among p [] m a = absurd m
  among p (q ∷ ps) (inl e) a = rw e a.0
  among p (q ∷ ps) (inr m) a = among p ps m a.1

module _ ⦃L : Libsql⦄ where
  lock_paths-Follows : (c : Call) → All Follows (lock_paths c)
  lock_paths-Follows (Call.execute_batch conn_id statements) =
      (follows-each_statement conn_id statements, tt)
  lock_paths-Follows (Call.close id opt) = (refl, (refl, (refl, (refl, tt))))
  lock_paths-Follows (Call.do_sync conn_id mode) = (refl, (refl, tt))
  lock_paths-Follows (Call.query_with_trx_args trx_id conn_id sql args) = (refl, (refl, tt))
  lock_paths-Follows (Call.declare_cursor_with_context conn_id id id_type sql args) =
      (refl, (refl, tt))
  lock_paths-Follows c = (refl, tt)

  acquired-InOrder :
      (guards : List Lock) (l : Lock) (rest : Steps)
      → follows guards (acquire l ∷ rest) ≡ true
      → follows (l ∷ guards) rest ≡ true
  acquired-InOrder [] l rest h = h
  acquired-InOrder (g ∷ gs) l rest h = ground arith

  Move-InOrder : {ts us : List Thread} → Move ts us → All InOrder ts → All InOrder us
  Move-InOrder (enters c path m h) a =
      subst (All InOrder) (sym h) (among Follows path (lock_paths c) m (lock_paths-Follows c), a)
  Move-InOrder (acquires pre post guards l rest s f h) a =
      let split = subst (All InOrder) s a in
      subst (All InOrder) (sym h) (
        put_at InOrder pre post _ _ split
          (acquired-InOrder guards l rest (at_split InOrder pre post _ split)))
  Move-InOrder (releases pre post guards l rest s h) a =
      let split = subst (All InOrder) s a in
      subst (All InOrder) (sym h)
        (put_at InOrder pre post _ _ split (at_split InOrder pre post _ split))
  Move-InOrder (returns_early pre post t back s h) a =
      subst (All InOrder) (sym h)
        (put_at InOrder pre post _ _ (subst (All InOrder) s a) (follows-drop_guards t.guards back))

  pub Runs-InOrder : {ts : List Thread} → Runs ts → All InOrder ts
  Runs-InOrder idle = tt
  Runs-InOrder (moves r m) = Move-InOrder m (Runs-InOrder r)
