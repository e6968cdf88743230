-- ===== src/Transaction/Quiet.antt =====
-- Code that leaves the registries alone, whatever it does to the database.
use ecto_libsql.Common.{refl}
use ecto_libsql.Effect.{Result, ok, err, lift, then_run}
use ecto_libsql.Libsql.{Libsql, Error}
use ecto_libsql.State.{State, M}
use ecto_libsql.Transaction.Guard.{Quiet, SameRegistries, SameRegistries-refl}

module _ ⦃L : Libsql⦄ where
  abbrev pub IsQuiet : {A : Type 0} → M A → Type 0
  IsQuiet m = (t : State) → Quiet t (m t).1

  pub Quiet-refl : (t : State) → Quiet t t
  Quiet-refl t = record {
    quiet_connections = refl;
    quiet_statements = refl;
    quiet_cursors = refl;
    quiet_transactions = refl;
  }

  pub SameRegistries-lift :
      {A B : Type 0} (r : Result Error A) (k : A → M B) (s : State)
      → ((a : A) → SameRegistries s (k a s).1)
      → SameRegistries s (then_run (lift r s) k).1
  SameRegistries-lift (ok a) k s h = h a
  SameRegistries-lift (err e) k s h = SameRegistries-refl s
