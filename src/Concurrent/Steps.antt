-- ===== src/Concurrent/Steps.antt =====
-- What a step does to the registry of transactions and to the guards that threads hold.
use ecto_libsql.Common.{
  ◌≡◌, refl, sym, subst, ◌⊎◌, ◌∙◌, ap, true, false, Bool-cases, Option-cases, inl, inr, ◌||◌, none,
  some, List, ◌∷◌, ◌++◌, Str, str_eq, str_eq_iff, arith, All, lookup, lookup-insert, lookup-remove,
  if◌then◌else◌,
}
use ecto_libsql.Effect.{Result, ok, err, pure, then_run}
use ecto_libsql.Libsql.{Libsql, Error}
use ecto_libsql.State.{State, TransactionEntry, safe_lock}
use ecto_libsql.Transaction.{TransactionEntryGuard, take, drop_guard, consume, register}
use ecto_libsql.Transaction.Guard.{
  Denied, Refused, Owned-cases, take-Denied, take_owned, holding, taken,
}
use ecto_libsql.Isolation.Restored.{execute_under-IsQuiet, query_under-IsQuiet}
use ecto_libsql.Savepoint.{run_statement-IsQuiet}
use ecto_libsql.Cursor.{buffer_under}
use ecto_libsql.Connection.{close}
use ecto_libsql.Connection.Closing.{
  ClosedOrSame, Closed, connection, transaction, statement, cursor, close-Closed,
}
use ecto_libsql.Concurrent.{System, holds, Work, execute, query, command, buffer, perform}
use ecto_libsql.Concurrent.Held.{Distinct, Live, holds-split, Distinct-split, All-split}

module _ ⦃L : Libsql⦄ where
  -- No transaction is held twice, and none that is held is in its registry.
  pub record Exclusive (a : System) : Type 0 where
    pub distinct : Distinct a.held
    pub live : All Live a.held
    pub away : (k : Str) → holds k a.held ≡ true → lookup k a.state.transactions.content ≡ none

  pure_run : {A : Type 0} (run : Result Error A × State) → then_run run pure ≡ run
  pure_run (ok a, t) = refl
  pure_run (err e, t) = refl

  take-Refused :
      (trx_id conn_id : Str) (s t : State) (r : Result Error TransactionEntryGuard)
      → take trx_id conn_id s ≡ (r, t)
      → Denied s trx_id conn_id
      → Refused s (r, t)
  take-Refused trx_id conn_id s t r h d =
      subst (λ x. Refused s x) (pure_run (take trx_id conn_id s) ∙ h)
        (take-Denied trx_id conn_id s pure d)

  -- A take that succeeds has found an entry of the caller's, and removed it.
  pub take_inv :
      (trx_id conn_id : Str) (s t : State) (g : TransactionEntryGuard)
      → take trx_id conn_id s ≡ (ok g, t)
      → (e : TransactionEntry) × (lookup trx_id s.transactions.content ≡ some e)
        × (g ≡ holding trx_id e)
        × (t ≡ taken s trx_id)
  take_inv trx_id conn_id s t g h = elim (Owned-cases s trx_id conn_id) [
    | inl d ↦ let r = take-Refused trx_id conn_id s t (ok g) h d in cc r.fails
    | inr (e, p, l, o) ↦ let found = sym (take_owned trx_id conn_id s e p l o) ∙ h in (e, l, cc, cc)
  ]

  pub refused_lookup :
      (trx_id conn_id : Str) (s t : State) (e : Error)
      → take trx_id conn_id s ≡ (err e, t)
      → (k : Str) → lookup k t.transactions.content ≡ lookup k s.transactions.content
  refused_lookup trx_id conn_id s t e h = elim (Owned-cases s trx_id conn_id) [
    | inl d ↦ (take-Refused trx_id conn_id s t (err e) h d).registries.same_lookups
    | inr (e', p, l, o) ↦ let found = sym (take_owned trx_id conn_id s e' p l o) ∙ h in cc
  ]

  pub perform_transactions :
      (w : Work) (g : TransactionEntryGuard) (s : State)
      → (perform w g s).transactions ≡ s.transactions
  unfolding perform
  perform_transactions (execute sql params) g s =
      (execute_under-IsQuiet sql params g s).quiet_transactions
  perform_transactions (query conn_id sql params) g s =
      (query_under-IsQuiet conn_id sql params g s).quiet_transactions
  perform_transactions (command sql what) g s =
      (run_statement-IsQuiet sql what g s).quiet_transactions
  perform_transactions (buffer sql params) g s = unfold buffer_under in ground arith

  -- What a step may do to the registry: it keeps the entries, or takes one away.
  abbrev pub Fewer : State → State → Type 0
  Fewer s t =
      (k : Str)
      → (lookup k t.transactions.content ≡ lookup k s.transactions.content)
        ⊎ (lookup k t.transactions.content ≡ none)

  pub same-Fewer : (s t : State) → t.transactions ≡ s.transactions → Fewer s t
  same-Fewer s t h k = inl (ap (λ m. lookup k m.content) h)

  Closed-Fewer : (id opt : Str) (s t : State) → Closed s id opt t → Fewer s t
  Closed-Fewer id opt s t (connection c o l w r v) k = inl (ap (λ m. lookup k m.content) r.0)
  Closed-Fewer id opt s t (transaction e o l w r v) k = let h = w k in ground arith
  Closed-Fewer id opt s t (statement e o l w r v) k = inl (ap (λ m. lookup k m.content) r.1)
  Closed-Fewer id opt s t (cursor c o l w r v) k = inl (ap (λ m. lookup k m.content) r.1)

  pub close-Fewer : (id opt : Str) (s : State) → Fewer s (close id opt s).1
  close-Fewer id opt s = by_result (close id opt s) (close-Closed s id opt)
    where
      by_result :
          (run : Result Error (Unit {0}) × State) → ClosedOrSame s id opt run → Fewer s run.1
      by_result (ok u, t) c = Closed-Fewer id opt s t c
      by_result (err e, t) c = same-Fewer s t (ap (λ x. x.transactions) c)

  pub Exclusive-Fewer :
      (a b : System) → Exclusive a → Fewer a.state b.state → b.held ≡ a.held → Exclusive b
  Exclusive-Fewer a b x f h = record {
    distinct = rw h x.distinct;
    live = rw h x.live;
    away = λ k held. elim (f k) [
      | inl same ↦ same ∙ x.away k (sym (ap (holds k) h) ∙ held)
      | inr gone ↦ gone
    ];
  }

  not_held_of_found :
      (a : System) (k : Str) (e : TransactionEntry)
      → Exclusive a
      → lookup k a.state.transactions.content ≡ some e
      → holds k a.held ≡ false
  not_held_of_found a k e x l = elim (Bool-cases (holds k a.held)) [
    | inl h ↦ let gone = x.away k h in cc
    | inr h ↦ h
  ]

  pub grab-Exclusive :
      (a b : System) (trx_id : Str) (e : TransactionEntry)
      → Exclusive a
      → lookup trx_id a.state.transactions.content ≡ some e
      → b.state ≡ taken a.state trx_id
      → b.held ≡ holding trx_id e ∷ a.held
      → Exclusive b
  grab-Exclusive a b trx_id e x l t h = record {
    distinct = rw h (not_held_of_found a trx_id e x l, x.distinct);
    live = rw h (record { entry = e; entry_eq = refl; fresh = refl }, x.live);
    away = λ k held.
        let held' = sym (ap (holds k) h) ∙ held in
        rw t (lookup-remove trx_id k a.state.transactions.content ∙ by_id k held');
  }
    where
      by_id :
          (k : Str)
          → (str_eq trx_id k || holds k a.held) ≡ true
          → (if str_eq trx_id k then none else lookup k a.state.transactions.content) ≡ none
      by_id k held = ground (arith, x.away k)

  -- A guard that is put back or destroyed.
  pub drop-lookup :
      (g : TransactionEntryGuard) (s : State) (k : Str)
      → str_eq g.trx_id k ≡ false
      → lookup k (drop_guard g s).transactions.content ≡ lookup k s.transactions.content
  unfolding drop_guard
  drop-lookup g s k n = elim (Option-cases g.entry) [
    | inl h ↦ rw (drop_guard, h) refl
    | inr (e, h) ↦ elim (Bool-cases s.transactions.poisoned) [
      | inl p ↦ rw (drop_guard, h, p) refl
      | inr p ↦ rw (drop_guard, h, p) (lookup-insert g.trx_id k e s.transactions.content ∙ rw n)
    ]
  ]

  pub leave-Exclusive :
      (a b : System) (pre post : List TransactionEntryGuard) (g : TransactionEntryGuard)
      → Exclusive a
      → a.held ≡ pre ++ (g ∷ post)
      → b.held ≡ pre ++ post
      → ((k : Str)
          → str_eq g.trx_id k ≡ false
          → lookup k b.state.transactions.content ≡ lookup k a.state.transactions.content)
      → Exclusive b
  leave-Exclusive a b pre post g x h h' same =
      let apart = Distinct-split pre post g (subst Distinct h x.distinct) in
      let alive = All-split Live pre post g (subst (All Live) h x.live) in
      record {
        distinct = rw h' apart.1;
        live = rw h' alive.1;
        away = λ k held.
            let there = sym (ap (holds k) h') ∙ held in
            same k (other k apart.0 there)
            ∙ x.away k (ap (holds k) h ∙ holds-split k pre post g ∙ ground arith);
      }
    where
      other :
          (k : Str)
          → holds g.trx_id (pre ++ post) ≡ false
          → holds k (pre ++ post) ≡ true
          → str_eq g.trx_id k ≡ false
      other k n there = elim (Bool-cases (str_eq g.trx_id k)) [
        | inl e ↦ let id_eq = (str_eq_iff g.trx_id k).0 e in cc
        | inr e ↦ e
      ]

  -- `consume` hands the entry out, and leaves the state as it is.
  pub consume-same : (g : TransactionEntryGuard) (s : State) → Live g → (consume g s).1 ≡ s
  unfolding consume drop_guard
  consume-same g s l = rw l.fresh refl

  registered :
      (s : State) (k conn_id context : Str) (trx : L.Transaction)
      → str_eq (L.new_v4 s.world).0 k ≡ false
      → lookup k (register conn_id context trx s).1.transactions.content
        ≡ lookup k s.transactions.content
  unfolding register safe_lock
  registered s k conn_id context trx n = elim (Bool-cases s.transactions.poisoned) [
    | inl p ↦ rw p refl
    | inr p ↦ rw p (
        lookup-insert (L.new_v4 s.world).0 k (record { conn_id = conn_id; transaction = trx })
          s.transactions.content
        ∙ rw n)
  ]

  -- A transaction that is begun, under an identifier that no thread holds.
  pub begin-Exclusive :
      (a b : System) (conn_id context : Str) (trx : L.Transaction)
      → Exclusive a
      → holds (L.new_v4 a.state.world).0 a.held ≡ false
      → b.state ≡ (register conn_id context trx a.state).1
      → b.held ≡ a.held
      → Exclusive b
  begin-Exclusive a b conn_id context trx x n t h = record {
    distinct = rw h x.distinct;
    live = rw h x.live;
    away = λ k held.
        let held' = sym (ap (holds k) h) ∙ held in
        ap (λ u. lookup k u.transactions.content) t ∙ other k (apart k held') ∙ x.away k held';
  }
    where
      other :
          (k : Str)
          → str_eq (L.new_v4 a.state.world).0 k ≡ false
          → lookup k (register conn_id context trx a.state).1.transactions.content
            ≡ lookup k a.state.transactions.content
      other k e = registered a.state k conn_id context trx e

      apart : (k : Str) → holds k a.held ≡ true → str_eq (L.new_v4 a.state.world).0 k ≡ false
      apart k held = elim (Bool-cases (str_eq (L.new_v4 a.state.world).0 k)) [
        | inl e ↦ let id_eq = (str_eq_iff (L.new_v4 a.state.world).0 k).0 e in cc
        | inr e ↦ e
      ]
