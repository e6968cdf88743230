-- ===== src/Concurrent/Locks/Progress.antt =====
-- No deadlock: while a thread is in the midst of a NIF, some thread can go on.
use ecto_libsql.Common.{
  ℕ, zero, suc, ◌≡◌, refl, ◌+◌, ◌≤◌, ◌<◌, ◌⊎◌, inl, inr, true, false, Bool-cases, List, [], ◌∷◌,
  All, arith,
}
use ecto_libsql.Libsql.{Libsql}
use ecto_libsql.Concurrent.Locks.{
  Lock, connection_registry, transaction_registry, statement_registry, cursor_registry, client,
  connection, statement, acquire, release, Steps, same_lock, locked_in, Thread, locked, In, Runs,
}
use ecto_libsql.Concurrent.Locks.Order.{rank, above, follows, InOrder, among, Runs-InOrder}

-- The next step of the thread is possible: a release, or the locking of a mutex that nobody has.
abbrev pub Enabled : List Thread → List Lock → Steps → Type 0
Enabled ts guards [] = ⊥
Enabled ts guards (acquire l ∷ rest) = locked l ts ≡ false
Enabled ts [] (release ∷ rest) = ⊥
Enabled ts (g ∷ gs) (release ∷ rest) = Unit

abbrev pub CanGo : List Thread → Type 0
CanGo ts = (t : Thread) × In t ts × Enabled ts t.guards t.todo

abbrev pub Unfinished : Steps → Type 0
Unfinished [] = ⊥
Unfinished (s ∷ rest) = Unit

rank_bound : (l : Lock) → rank l < 5
rank_bound connection_registry = omega arith
rank_bound statement_registry = omega arith
rank_bound (client conn_id) = omega arith
rank_bound (connection conn_id) = omega arith
rank_bound transaction_registry = omega arith
rank_bound cursor_registry = omega arith
rank_bound (statement stmt_id) = omega arith

same_lock-rank : (a b : Lock) → same_lock a b ≡ true → rank a ≡ rank b
same_lock-rank (client a) (client b) h = refl
same_lock-rank (connection a) (connection b) h = refl
same_lock-rank (statement a) (statement b) h = refl
same_lock-rank connection_registry connection_registry h = refl
same_lock-rank statement_registry statement_registry h = refl
same_lock-rank transaction_registry transaction_registry h = refl
same_lock-rank cursor_registry cursor_registry h = refl
same_lock-rank a b h = ground arith

-- A mutex that is wanted is above those that are held.
above-locked_in :
    (l m : Lock) (hs : List Lock) → locked_in l hs ≡ true → above m hs ≡ true → rank l < rank m
above-locked_in l m [] h a = ground arith
above-locked_in l m (k ∷ hs) h a = elim (Bool-cases (same_lock l k)) [
  | inl e ↦ let r = same_lock-rank l k e in ground arith
  | inr e ↦ above-locked_in l m hs (rw e at h) (ground arith)
]

-- Who has a mutex that is locked.
holder :
    (l : Lock) (ts : List Thread)
    → locked l ts ≡ true
    → (t : Thread) × In t ts × (locked_in l t.guards ≡ true)
holder l [] h = ground arith
holder l (t ∷ ts) h = elim (Bool-cases (locked_in l t.guards)) [
  | inl e ↦ (t, inl refl, e)
  | inr e ↦ let (u, m, k) = holder l ts (rw e at h) in (u, inr m, k)
]

-- What a thread does next that is not at its end.
next_step :
    (ts : List Thread) (guards : List Lock) (todo : Steps)
    → follows guards todo ≡ true
    → Unfinished todo
    → Enabled ts guards todo ⊎ ((l : Lock) × (above l guards ≡ true) × (locked l ts ≡ true))
next_step ts guards [] f u = absurd u
next_step ts [] (release ∷ rest) f u = ground arith
next_step ts (g ∷ gs) (release ∷ rest) f u = inl tt
next_step ts [] (acquire l ∷ rest) f u = elim (Bool-cases (locked l ts)) [
  | inl e ↦ inr (l, refl, e)
  | inr e ↦ inl e
]
next_step ts (g ∷ gs) (acquire l ∷ rest) f u = elim (Bool-cases (locked l ts)) [
  | inl e ↦ inr (l, ground arith, e)
  | inr e ↦ inl e
]

-- Whoever has a guard is not at the end.
holding-Unfinished :
    (l : Lock) (guards : List Lock) (todo : Steps)
    → locked_in l guards ≡ true
    → follows guards todo ≡ true
    → Unfinished todo
holding-Unfinished l [] [] h f = ground arith
holding-Unfinished l (g ∷ gs) [] h f = ground arith
holding-Unfinished l guards (s ∷ rest) h f = tt

-- A locked mutex is held by a thread that can go on, or that waits for a higher one; there are no
-- more than five heights.
chase :
    (n : ℕ) (ts : List Thread) (l : Lock)
    → All InOrder ts
    → 5 ≤ n + rank l
    → locked l ts ≡ true
    → CanGo ts
chase zero ts l a b h = absurd (too_high (rank_bound l) b)
  where
    too_high : rank l < 5 → 5 ≤ 0 + rank l → ⊥
    too_high p q = omega arith
chase (suc n) ts l a b h =
    let (u, m, k) = holder l ts h in
    let f = among InOrder u ts m a in
    elim (next_step ts u.guards u.todo f (holding-Unfinished l u.guards u.todo k f)) [
      | inl e ↦ (u, m, e)
      | inr (w, o, v) ↦ let r = above-locked_in l w u.guards k o in chase n ts w a (omega arith) v
    ]

-- In every state that any number of threads can reach, in any interleaving and with early returns
-- anywhere: while some thread is in the midst of a NIF, some thread can go on, to drop a guard that
-- it has or to lock a mutex that nobody holds, so that the NIFs never wait for each other in a
-- circle.
pub no_deadlock :
    ⦃L : Libsql⦄ {ts : List Thread}
    → Runs ts
    → (t : Thread) → In t ts
    → Unfinished t.todo
    → CanGo ts
no_deadlock {ts = ts} r t m u =
    let a = Runs-InOrder r in
    elim (next_step ts t.guards t.todo (among InOrder t ts m a) u) [
      | inl e ↦ (t, m, e)
      | inr (l, o, v) ↦ chase 5 ts l a (omega arith) v
    ]
