-- ===== src/Concurrent/Exclusive.antt =====
-- One thread at a time in a transaction, in every interleaving.
use ecto_libsql.Common.{
  ◌≡◌, sym, ◌∙◌, ap, subst, false, inl, some, ◌∷◌, ◌++◌, List, Str, str_eq_refl, arith, lookup,
  lookup-insert_self, All,
}
use ecto_libsql.Effect.{ok}
use ecto_libsql.Libsql.{Libsql}
use ecto_libsql.State.{State, TransactionEntry}
use ecto_libsql.Transaction.{TransactionEntryGuard, take, drop_guard}
use ecto_libsql.Transaction.Guard.{Denied, absent, take_owned, holding, drop_guard_free, put_back}
use ecto_libsql.Concurrent.{
  System, holds, Step, grab, refuse, work, release, finish, begin, close_any, poison, outside,
  Reach, start, later,
}
use ecto_libsql.Concurrent.Held.{Distinct, Live, holds-split, Distinct-split, All-split}
use ecto_libsql.Concurrent.Steps.{
  Exclusive, Fewer, take_inv, refused_lookup, perform_transactions, Exclusive-Fewer, same-Fewer,
  close-Fewer, grab-Exclusive, drop-lookup, leave-Exclusive, consume-same, begin-Exclusive,
}

module _ ⦃L : Libsql⦄ where
  Step-Exclusive : {a b : System} → Step a b → Exclusive a → Exclusive b
  Step-Exclusive {a} {b} (grab trx_id conn_id g t h) x =
      let (e, l, g_eq, s_eq) = take_inv trx_id conn_id a.state b.state g t in
      grab-Exclusive a b trx_id e x l s_eq (rw g_eq at h)
  Step-Exclusive {a} {b} (refuse trx_id conn_id e t h) x =
      Exclusive-Fewer a b x (λ k. inl (refused_lookup trx_id conn_id a.state b.state e t k)) h
  Step-Exclusive {a} {b} (work w pre post g h t h') x =
      Exclusive-Fewer a b x
        (same-Fewer a.state b.state (ap (λ s. s.transactions) t ∙ perform_transactions w g a.state))
        h'
  Step-Exclusive {a} {b} (release pre post g h t h') x =
      leave-Exclusive a b pre post g x h h'
        (λ k n. ap (λ s. lookup k s.transactions.content) t ∙ drop-lookup g a.state k n)
  Step-Exclusive {a} {b} (finish pre post g h t h') x =
      let l = (All-split Live pre post g (subst (All Live) h x.live)).0 in
      leave-Exclusive a b pre post g x h h'
        (λ k n. ap (λ s. lookup k s.transactions.content) (t ∙ consume-same g a.state l))
  Step-Exclusive {a} {b} (begin conn_id context trx n t h) x =
      begin-Exclusive a b conn_id context trx x n t h
  Step-Exclusive {a} {b} (close_any id opt t h) x =
      Exclusive-Fewer a b x (subst (Fewer a.state) (sym t) (close-Fewer id opt a.state)) h
  Step-Exclusive {a} {b} (poison p c h) x = Exclusive-Fewer a b x (λ k. inl (ap (lookup k) c)) h
  Step-Exclusive {a} {b} (outside t h) x = Exclusive-Fewer a b x (same-Fewer a.state b.state t) h

  pub Reach-Exclusive : {s : State} {a : System} → Reach s a → Exclusive a
  Reach-Exclusive start = record { distinct = tt; live = tt; away = λ k h. cc }
  Reach-Exclusive (later r st) = Step-Exclusive st (Reach-Exclusive r)

  -- In every interleaving of threads, begun with no call in progress: a transaction that one thread
  -- holds is held by no other, and whoever calls a NIF with it meanwhile, its owner included, is
  -- denied it.
  pub transactions_exclusive :
      {s : State} {a : System}
      → Reach s a
      → (pre post : List TransactionEntryGuard) (g : TransactionEntryGuard)
      → a.held ≡ pre ++ (g ∷ post)
      → (holds g.trx_id (pre ++ post) ≡ false) × ((conn_id : Str) → Denied a.state g.trx_id conn_id)
  transactions_exclusive {a = a} r pre post g h =
      let x = Reach-Exclusive r in
      (
        (Distinct-split pre post g (subst Distinct h x.distinct)).0,
        λ conn_id. absent (
            x.away g.trx_id (
              ap (holds g.trx_id) h
              ∙ holds-split g.trx_id pre post g
              ∙ ground (arith, str_eq_refl g.trx_id))),
      )

  held_eq :
      (g : TransactionEntryGuard) (e : TransactionEntry)
      → g.entry ≡ some e
      → g.consumed ≡ false
      → g ≡ holding g.trx_id e
  held_eq g e h c = ground arith

  holding_back :
      (trx_id : Str) (e : TransactionEntry) (s : State)
      → s.transactions.poisoned ≡ false
      → (take trx_id e.conn_id (drop_guard (holding trx_id e) s)).0 ≡ ok (holding trx_id e)
  holding_back trx_id e s p = rw (drop_guard_free trx_id e s p) (
      ap (λ r. r.0)
        (take_owned trx_id e.conn_id (put_back s trx_id e) e p
          (lookup-insert_self trx_id e s.transactions.content) (str_eq_refl e.conn_id)))

  taken_back :
      (g : TransactionEntryGuard) (e : TransactionEntry) (s : State)
      → g.entry ≡ some e
      → g.consumed ≡ false
      → s.transactions.poisoned ≡ false
      → (take g.trx_id e.conn_id (drop_guard g s)).0 ≡ ok g
  taken_back g e s h c p =
      subst (λ x. (take g.trx_id e.conn_id (drop_guard x s)).0 ≡ ok x) (sym (held_eq g e h c))
        (holding_back g.trx_id e s p)

  -- Once that thread lets the guard go, with the registry free, the owner can take the transaction
  -- again, with the same entry.
  pub transactions_returned :
      {s : State} {a : System}
      → Reach s a
      → (pre post : List TransactionEntryGuard) (g : TransactionEntryGuard)
      → a.held ≡ pre ++ (g ∷ post)
      → a.state.transactions.poisoned ≡ false
      → (e : TransactionEntry) × (g.entry ≡ some e)
        × ((take g.trx_id e.conn_id (drop_guard g a.state)).0 ≡ ok g)
  transactions_returned {a = a} r pre post g h p =
      let x = Reach-Exclusive r in
      let l = (All-split Live pre post g (subst (All Live) h x.live)).0 in
      (l.entry, l.entry_eq, taken_back g l.entry a.state l.entry_eq l.fresh p)
