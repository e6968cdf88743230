-- ===== src/Effect.antt =====
-- Results, and computations over a state that return a result: a `?` leaves the state as it is.
use ecto_libsql.Common.{Option, none, some, ◌≡◌, refl, ◌⊎◌, inl, inr}

pub data Result (E A : Type 0) : Type 0 where
  ok : A → Result E A
  err : E → Result E A

abbrev pub Eff : Type 0 → Type 0 → Type 0 → Type 0
Eff E S A = S → Result E A × S

abbrev pub pure : {E S A : Type 0} → A → Eff E S A
pure a s = (ok a, s)

abbrev pub fail : {E S A : Type 0} → E → Eff E S A
fail e s = (err e, s)

abbrev pub then_run : {E S A B : Type 0} → Result E A × S → (A → Eff E S B) → Result E B × S
then_run (ok a, s) f = f a s
then_run (err e, s) f = (err e, s)

infixl 5 ◌>>=◌ ◌>>◌
abbrev pub ◌>>=◌ : {E S A B : Type 0} → Eff E S A → (A → Eff E S B) → Eff E S B
◌>>=◌ m f s = then_run (m s) f

abbrev pub ◌>>◌ : {E S B : Type 0} → Eff E S (Unit {0}) → Eff E S B → Eff E S B
m >> k = m >>= λ _. k

-- `?` on a result.
abbrev pub lift : {E S A : Type 0} → Result E A → Eff E S A
lift r s = (r, s)

-- `ok_or_else`.
abbrev pub ok_or : {E A : Type 0} → Option A → E → Result E A
ok_or none e = err e
ok_or (some a) e = ok a

abbrev pub map_err : {E F A : Type 0} → (E → F) → Result E A → Result F A
map_err f (ok a) = ok a
map_err f (err e) = err (f e)

-- `?` outside of a state.
abbrev pub and_then : {E A B : Type 0} → Result E A → (A → Result E B) → Result E B
and_then (ok a) f = f a
and_then (err e) f = err e

-- A call of another crate whose result is inspected here.
abbrev pub call : {E S A : Type 0} → (S → A × S) → Eff E S A
call f s = (ok (f s).0, (f s).1)

-- A call of another crate under `.map_err(f)?`.
abbrev pub try_call : {E F S A : Type 0} → (S → Result F A × S) → (F → E) → Eff E S A
try_call m f s = (map_err f (m s).0, (m s).1)

abbrev pub touch : {E S : Type 0} → (S → S) → Eff E S (Unit {0})
touch f s = (ok tt, f s)

-- A look at the state that changes nothing.
abbrev pub peek : {E S A : Type 0} → (S → A) → Eff E S A
peek f s = (ok (f s), s)

-- The computation, with its result as a value.
abbrev pub attempt : {E F S A : Type 0} → Eff F S A → Eff E S (Result F A)
attempt m s = (ok (m s).0, (m s).1)

pub Result-cases :
    {E A : Type 0} (r : Result E A) → ((a : A) × (r ≡ ok a)) ⊎ ((e : E) × (r ≡ err e))
Result-cases (ok a) = inl (a, refl)
Result-cases (err e) = inr (e, refl)

-- A run that fails does not succeed.
pub failed :
    {E S B : Type 0} (e : E) (s : S) (b : B) (t : S) (run : Result E B × S)
    → run ≡ (err e, s)
    → ¬ (run ≡ (ok b, t))
failed e s b t run p q = cc

-- A run that succeeds, taken apart.
module _ {E S A B : Type 0} where
  pub bind_inv :
      (run : Result E A × S) (f : A → Eff E S B) (b : B) (t : S)
      → then_run run f ≡ (ok b, t)
      → (a : A) × (u : S) × (run ≡ (ok a, u)) × (f a u ≡ (ok b, t))
  bind_inv (ok a, u) f b t h = (a, u, refl, h)
  bind_inv (err e, u) f b t h = absurd (failed e u b t _ refl h)

  pub option_inv :
      (x : Option A) (e : E) (s : S) (f : A → Eff E S B) (b : B) (t : S)
      → then_run (lift (ok_or x e) s) f ≡ (ok b, t)
      → (a : A) × (x ≡ some a) × (f a s ≡ (ok b, t))
  option_inv none e s f b t h = absurd (failed e s b t _ refl h)
  option_inv (some a) e s f b t h = (a, refl, h)

  pub call_inv :
      {F : Type 0} (run : Result F A × S) (g : F → E) (f : A → Eff E S B) (b : B) (t : S)
      → then_run (map_err g run.0, run.1) f ≡ (ok b, t)
      → (a : A) × (u : S) × (run ≡ (ok a, u)) × (f a u ≡ (ok b, t))
  call_inv (ok a, u) g f b t h = (a, u, refl, h)
  call_inv (err x, u) g f b t h = absurd (failed (g x) u b t _ refl h)

pub try_inv :
    {E S A B : Type 0} (run : Result A B × S) (g : A → E) (b : B) (t : S)
    → ◌≡◌ {A = Result E B × S} (map_err g run.0, run.1) (ok b, t)
    → run ≡ (ok b, t)
try_inv (ok a, u) g b t h = cc
try_inv (err x, u) g b t h = absurd (failed (g x) u b t _ refl h)
