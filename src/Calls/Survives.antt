-- ===== src/Calls/Survives.antt =====
-- How long a handle stays known, over any sequence of calls.
use ecto_libsql.Common.{
  ◌≡◌, refl, sym, ◌∙◌, ◌⊎◌, inl, inr, true, false, Bool-cases, none, some, Option, List, [], ◌∷◌,
  Str, str_eq, if◌then◌else◌,
}
use ecto_libsql.Libsql.{Libsql}
use ecto_libsql.State.{State}
use ecto_libsql.Calls.Handles.{
  Kind, connection, transaction, statement, cursor, Handles, Same, put, handles,
}
use ecto_libsql.Calls.Removed.{Names}
use ecto_libsql.Calls.Refines.{Issuing, Closing, Finishing, Allowed, run-Allowed}
use ecto_libsql.Calls.{Call, run, run_all}

abbrev pub Known : Handles → Kind → Str → Type 0
Known v j id = (o : Str) × (v j id ≡ some o)

set_or_kept :
    {i : Kind} (k id : Str) (o x : Option Str)
    → ((if str_eq k id then o else x) ≡ x)
      ⊎ ((i ≡ i) × (str_eq k id ≡ true) × ((if str_eq k id then o else x) ≡ o))
set_or_kept k id o x = elim (Bool-cases (str_eq k id)) [
  | inl e ↦ inr (refl, e, rw e refl)
  | inr e ↦ inl (rw e refl)
]

-- An entry of the changed table is the one that is set, or it is as it was.
put-cases :
    (v : Handles) (i j : Kind) (k id : Str) (o : Option Str)
    → (put i k o v j id ≡ v j id) ⊎ ((i ≡ j) × (str_eq k id ≡ true) × (put i k o v j id ≡ o))
put-cases v connection connection k id o = set_or_kept k id o (v connection id)
put-cases v transaction transaction k id o = set_or_kept k id o (v transaction id)
put-cases v statement statement k id o = set_or_kept k id o (v statement id)
put-cases v cursor cursor k id o = set_or_kept k id o (v cursor id)
put-cases v i j k id o = inl refl

kept : (v w : Handles) (j : Kind) (id : Str) → Same v w → Known v j id → Known w j id
kept v w j id same (o, h) = (o, same j id ∙ h)

issued :
    (v w : Handles) (i j : Kind) (id : Str) (owner : Str → Str)
    → Issuing i owner v w
    → Known v j id
    → Known w j id
issued v w i j id owner (inl same) known = kept v w j id same known
issued v w i j id owner (inr (k, same)) (o, h) = elim (put-cases v i j k id (some (owner k))) [
  | inl e ↦ (o, same j id ∙ e ∙ h)
  | inr (_, _, e) ↦ (owner k, same j id ∙ e)
]

-- A removal of another identifier or another kind.
removed :
    (v w : Handles) (i j : Kind) (k id : Str)
    → Same (put i k none v) w
    → (i ≡ j → str_eq k id ≡ false)
    → Known v j id
    → Known w j id
removed v w i j k id same other (o, h) = elim (put-cases v i j k id none) [
  | inl e ↦ (o, same j id ∙ e ∙ h)
  | inr (p, q, e) ↦ let r = other p in cc
]

module _ ⦃L : Libsql⦄ where
  -- A call that neither closes the identifier under its kind nor finishes it as a transaction.
  abbrev pub Spares : Kind → Str → Call → Type 0
  Spares j id (Call.close k opt) = (Names opt j → str_eq k id ≡ false)
  Spares j id (Call.commit_or_rollback_transaction k conn_id param) =
      (transaction ≡ j → str_eq k id ≡ false)
  Spares j id c = Unit

  abbrev pub AllSpare : Kind → Str → List Call → Type 0
  AllSpare j id [] = Unit
  AllSpare j id (c ∷ cs) = Spares j id c × AllSpare j id cs

  closed :
      (v w : Handles) (j : Kind) (k id opt : Str)
      → Closing k opt v w
      → (Names opt j → str_eq k id ≡ false)
      → Known v j id
      → Known w j id
  closed v w j k id opt (inl same) spares known = kept v w j id same known
  closed v w j k id opt (inr (i, names, (o, h, same))) spares known =
      removed v w i j k id same (λ e. spares (rw (sym e) names)) known

  finished :
      (v w : Handles) (j : Kind) (k conn_id id : Str)
      → Finishing k conn_id v w
      → (transaction ≡ j → str_eq k id ≡ false)
      → Known v j id
      → Known w j id
  finished v w j k conn_id id (inl same) spares known = kept v w j id same known
  finished v w j k conn_id id (inr (o, same)) spares known =
      removed v w transaction j k id same spares known

  Allowed-keeps :
      (v w : Handles) (j : Kind) (id : Str) (c : Call)
      → Allowed c v w
      → Spares j id c
      → Known v j id
      → Known w j id
  Allowed-keeps v w j id (Call.connect opts mode) a sp n = issued v w connection j id _ a n
  Allowed-keeps v w j id (Call.begin_transaction conn_id) a sp n = issued v w transaction j id _ a n
  Allowed-keeps v w j id (Call.begin_transaction_with_behavior conn_id behavior) a sp n =
      issued v w transaction j id _ a n
  Allowed-keeps v w j id (Call.prepare_statement conn_id sql) a sp n =
      issued v w statement j id _ a n
  Allowed-keeps v w j id (Call.declare_cursor conn_id sql args) a sp n =
      issued v w cursor j id _ a n
  Allowed-keeps v w j id (Call.declare_cursor_with_context conn_id k id_type sql args) a sp n =
      issued v w cursor j id _ a n
  Allowed-keeps v w j id (Call.commit_or_rollback_transaction k conn_id param) a sp n =
      finished v w j k conn_id id a sp n
  Allowed-keeps v w j id (Call.close k opt) a sp n = closed v w j k id opt a sp n
  Allowed-keeps v w j id c a sp n = kept v w j id a n

  -- An identifier that is known stays known over any sequence of calls, successful or not, among
  -- which no close names it with its own kind and, for a transaction, no commit or rollback names it.
  pub handles_survive :
      (s : State) (j : Kind) (id : Str) (cs : List Call)
      → Known (handles s) j id
      → AllSpare j id cs
      → Known (handles (run_all cs s)) j id
  unfolding run_all
  handles_survive s j id [] known spares = known
  handles_survive s j id (c ∷ cs) known (sp, sps) =
      handles_survive (run c s) j id cs
        (Allowed-keeps (handles s) (handles (run c s)) j id c (run-Allowed s c) sp known) sps
