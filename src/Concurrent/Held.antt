-- ===== src/Concurrent/Held.antt =====
-- Lists of guards in which no transaction stands twice.
use ecto_libsql.Common.{
  ◌≡◌, refl, false, ◌||◌, some, List, [], ◌∷◌, ◌++◌, Str, str_eq, str_eq_sym, arith, All,
}
use ecto_libsql.Libsql.{Libsql}
use ecto_libsql.State.{TransactionEntry}
use ecto_libsql.Transaction.{TransactionEntryGuard}
use ecto_libsql.Concurrent.{holds}

module _ ⦃L : Libsql⦄ where
  abbrev pub Distinct : List TransactionEntryGuard → Type 0
  Distinct [] = Unit
  Distinct (g ∷ gs) = (holds g.trx_id gs ≡ false) × Distinct gs

  -- A guard that has its entry.
  pub record Live (g : TransactionEntryGuard) : Type 0 where
    pub entry : TransactionEntry
    pub entry_eq : g.entry ≡ some entry
    pub fresh : g.consumed ≡ false

  pub holds-split :
      (k : Str) (pre post : List TransactionEntryGuard) (g : TransactionEntryGuard)
      → holds k (pre ++ (g ∷ post)) ≡ (str_eq g.trx_id k || holds k (pre ++ post))
  holds-split k [] post g = refl
  holds-split k (h ∷ pre) post g = ground (arith, holds-split k pre post g)

  pub Distinct-split :
      (pre post : List TransactionEntryGuard) (g : TransactionEntryGuard)
      → Distinct (pre ++ (g ∷ post))
      → (holds g.trx_id (pre ++ post) ≡ false) × Distinct (pre ++ post)
  Distinct-split [] post g d = d
  Distinct-split (h ∷ pre) post g d =
      let rest = Distinct-split pre post g d.1 in
      ground (arith, holds-split h.trx_id pre post g, str_eq_sym g.trx_id h.trx_id)

  pub All-split :
      (P : TransactionEntryGuard → Type 0) (pre post : List TransactionEntryGuard)
      (g : TransactionEntryGuard)
      → All P (pre ++ (g ∷ post))
      → P g × All P (pre ++ post)
  All-split P [] post g a = a
  All-split P (h ∷ pre) post g a = let rest = All-split P pre post g a.1 in (rest.0, (a.0, rest.1))
