-- ===== src/Transaction/Guard.antt =====
-- How the guard moves an entry out of the registry and back.
use ecto_libsql.Common.{
  true, false, none, some, ◌≡◌, refl, ap, ◌∙◌, inl, inr, ◌⊎◌, Str, str, str_eq, Bool-cases,
  Option-cases, lookup, insert, remove, lookup-insert-remove, arith,
}
use ecto_libsql.Effect.{Result, ok, err, then_run}
use ecto_libsql.Libsql.{Libsql, Error, term}
use ecto_libsql.State.{State, M, TransactionEntry, lock_error, safe_lock_poisoned, safe_lock_free}
use ecto_libsql.Transaction.{TransactionEntryGuard, take, drop_guard, scoped}

module _ ⦃L : Libsql⦄ where
  -- No registry differs in what a lookup finds, and no lock was poisoned.
  pub record SameRegistries (s t : State) : Type 0 where
    pub same_connections : t.connections ≡ s.connections
    pub same_statements : t.statements ≡ s.statements
    pub same_cursors : t.cursors ≡ s.cursors
    pub same_poison : t.transactions.poisoned ≡ s.transactions.poisoned
    pub same_lookups : (k : Str) → lookup k t.transactions.content ≡ lookup k s.transactions.content

  pub SameRegistries-refl : (s : State) → SameRegistries s s
  SameRegistries-refl s = record {
    same_connections = refl;
    same_statements = refl;
    same_cursors = refl;
    same_poison = refl;
    same_lookups = λ k. refl;
  }

  -- The registries are the very same.
  pub record Quiet (s t : State) : Type 0 where
    pub quiet_connections : t.connections ≡ s.connections
    pub quiet_statements : t.statements ≡ s.statements
    pub quiet_cursors : t.cursors ≡ s.cursors
    pub quiet_transactions : t.transactions ≡ s.transactions

  -- The registry is poisoned, or the transaction is not there, or another connection's.
  pub data Denied (s : State) (trx_id conn_id : Str) : Type 0 where
    poisoned : s.transactions.poisoned ≡ true → Denied s trx_id conn_id
    absent : lookup trx_id s.transactions.content ≡ none → Denied s trx_id conn_id
    foreign :
        (e : TransactionEntry)
        → lookup trx_id s.transactions.content ≡ some e
        → str_eq e.conn_id conn_id ≡ false
        → Denied s trx_id conn_id

  -- An error, and neither a registry nor the world of the other crates has changed.
  pub record Refused {A : Type 0} (s : State) (run : Result Error A × State) : Type 0 where
    pub reason : Error
    pub fails : run.0 ≡ err reason
    pub registries : SameRegistries s run.1
    pub untouched : run.1.world ≡ s.world

  -- The entry taken out and put back.
  abbrev pub returned : State → Str → TransactionEntry → State
  returned s trx_id e = record s {
    transactions = record {
      poisoned = s.transactions.poisoned;
      content = insert trx_id e (remove trx_id s.transactions.content);
    };
  }

  -- The entry taken out.
  abbrev pub taken : State → Str → State
  taken s trx_id = record s {
    transactions = record {
      poisoned = s.transactions.poisoned;
      content = remove trx_id s.transactions.content;
    };
  }

  abbrev pub holding : Str → TransactionEntry → TransactionEntryGuard
  holding trx_id e = record { trx_id = trx_id; entry = some e; consumed = false }

  take_poisoned :
      (trx_id conn_id : Str) (s : State)
      → s.transactions.poisoned ≡ true
      → take trx_id conn_id s
        ≡ (err (lock_error (str "Mutex poisoned in ") (str "TransactionEntryGuard::take")), s)
  unfolding take
  take_poisoned trx_id conn_id s p = rw (safe_lock_poisoned s.transactions _ p)

  take_absent :
      (trx_id conn_id : Str) (s : State)
      → s.transactions.poisoned ≡ false
      → lookup trx_id s.transactions.content ≡ none
      → take trx_id conn_id s ≡ (err (term (str "Transaction not found")), s)
  unfolding take
  take_absent trx_id conn_id s p h = rw (safe_lock_free s.transactions _ p, h)

  take_foreign :
      (trx_id conn_id : Str) (s : State) (e : TransactionEntry)
      → s.transactions.poisoned ≡ false
      → lookup trx_id s.transactions.content ≡ some e
      → str_eq e.conn_id conn_id ≡ false
      → take trx_id conn_id s
        ≡ (err (term (str "Transaction does not belong to this connection")), returned s trx_id e)
  unfolding take
  take_foreign trx_id conn_id s e p h n = rw (safe_lock_free s.transactions _ p, h, n)

  pub take_owned :
      (trx_id conn_id : Str) (s : State) (e : TransactionEntry)
      → s.transactions.poisoned ≡ false
      → lookup trx_id s.transactions.content ≡ some e
      → str_eq e.conn_id conn_id ≡ true
      → take trx_id conn_id s ≡ (ok (holding trx_id e), taken s trx_id)
  unfolding take
  take_owned trx_id conn_id s e p h n = rw (safe_lock_free s.transactions _ p, h, n)

  pub SameRegistries-returned :
      (s : State) (trx_id : Str) (e : TransactionEntry)
      → lookup trx_id s.transactions.content ≡ some e
      → SameRegistries s (returned s trx_id e)
  SameRegistries-returned s trx_id e h = record {
    same_connections = refl;
    same_statements = refl;
    same_cursors = refl;
    same_poison = refl;
    same_lookups = λ k. lookup-insert-remove trx_id k e s.transactions.content h;
  }

  Refused-of_eq :
      {A : Type 0} (trx_id conn_id : Str) (s t : State) (why : Error)
      (k : TransactionEntryGuard → M A)
      → take trx_id conn_id s ≡ (err why, t)
      → SameRegistries s t
      → t.world ≡ s.world
      → Refused s (then_run (take trx_id conn_id s) k)
  Refused-of_eq trx_id conn_id s t why k h same w =
      rw h (record { reason = why; fails = refl; registries = same; untouched = w })

  -- Nothing behind a refused `take` is run.
  pub take-Denied :
      {A : Type 0} (trx_id conn_id : Str) (s : State) (k : TransactionEntryGuard → M A)
      → Denied s trx_id conn_id
      → Refused s (then_run (take trx_id conn_id s) k)
  take-Denied trx_id conn_id s k d = elim (Bool-cases s.transactions.poisoned) [
    | inl q ↦
        Refused-of_eq trx_id conn_id s s _ k (take_poisoned trx_id conn_id s q)
          (SameRegistries-refl s) refl
    | inr q ↦ free d q
  ]
    where
      free :
          Denied s trx_id conn_id
          → s.transactions.poisoned ≡ false
          → Refused s (then_run (take trx_id conn_id s) k)
      free (poisoned p) q = cc
      free (absent h) q =
          Refused-of_eq trx_id conn_id s s _ k (take_absent trx_id conn_id s q h)
            (SameRegistries-refl s) refl
      free (foreign e h n) q =
          Refused-of_eq trx_id conn_id s (returned s trx_id e) _ k
            (take_foreign trx_id conn_id s e q h n) (SameRegistries-returned s trx_id e h) refl

  -- Every transaction identifier is refused, or owned by the caller in a registry that is free.
  pub Owned-cases :
      (s : State) (trx_id conn_id : Str)
      → Denied s trx_id conn_id
        ⊎ ((e : TransactionEntry) × (s.transactions.poisoned ≡ false)
            × (lookup trx_id s.transactions.content ≡ some e)
            × (str_eq e.conn_id conn_id ≡ true))
  Owned-cases s trx_id conn_id = elim (Bool-cases s.transactions.poisoned) [
    | inl p ↦ inl (poisoned p)
    | inr p ↦ elim (Option-cases (lookup trx_id s.transactions.content)) [
      | inl h ↦ inl (absent h)
      | inr (e, h) ↦ elim (Bool-cases (str_eq e.conn_id conn_id)) [
        | inl o ↦ inr (e, p, h, o)
        | inr o ↦ inl (foreign e h o)
      ]
    ]
  ]

  -- The entry put back into the registry as it is now.
  abbrev pub put_back : State → Str → TransactionEntry → State
  put_back t trx_id e = record t {
    transactions = record {
      poisoned = t.transactions.poisoned;
      content = insert trx_id e t.transactions.content;
    };
  }

  pub drop_guard_free :
      (trx_id : Str) (e : TransactionEntry) (t : State)
      → t.transactions.poisoned ≡ false
      → drop_guard (holding trx_id e) t ≡ put_back t trx_id e
  unfolding drop_guard
  drop_guard_free trx_id e t p = ground arith

  SameRegistries-put_back :
      (s t : State) (trx_id : Str) (e : TransactionEntry)
      → lookup trx_id s.transactions.content ≡ some e
      → Quiet (taken s trx_id) t
      → SameRegistries s (put_back t trx_id e)
  SameRegistries-put_back s t trx_id e h q = record {
    same_connections = q.quiet_connections;
    same_statements = q.quiet_statements;
    same_cursors = q.quiet_cursors;
    same_poison = ap (λ m. m.poisoned) q.quiet_transactions;
    same_lookups = λ k.
        ap (λ m. lookup k (insert trx_id e m.content)) q.quiet_transactions
        ∙ lookup-insert-remove trx_id k e s.transactions.content h;
  }

  -- A call under the guard whose body leaves the registries alone leaves every lookup as it was,
  -- whatever the body returns.
  pub take-scoped-SameRegistries :
      {A : Type 0} (trx_id conn_id : Str) (s : State) (body : TransactionEntryGuard → M A)
      → ((g : TransactionEntryGuard) (t : State) → Quiet t (body g t).1)
      → SameRegistries s (then_run (take trx_id conn_id s) (λ g. scoped g (body g))).1
  take-scoped-SameRegistries trx_id conn_id s body quiet = elim (Owned-cases s trx_id conn_id) [
    | inl d ↦ (take-Denied trx_id conn_id s (λ g. scoped g (body g)) d).registries
    | inr (e, p, h, o) ↦
        let q = quiet (holding trx_id e) (taken s trx_id) in
        rw (take_owned trx_id conn_id s e p h o) (
          rw
            (drop_guard_free trx_id e (body (holding trx_id e) (taken s trx_id)).1
              (ap (λ m. m.poisoned) q.quiet_transactions ∙ p))
            (SameRegistries-put_back s _ trx_id e h q))
  ]
