-- ===== src/Checked.antt =====
-- Rust code that may panic, on an index out of range or on an unsigned subtraction below 0: `none`
-- is the panic, and a loop that has used up its fuel.
use ecto_libsql.Common.{
  ℕ, ◌-◌, Bool, true, false, Option, none, some, List, ltb, if◌then◌else◌, get_elem?,
}

abbrev pub Checked : Type 0 → Type 0
Checked A = Option A

infixl 5 ◌>>=◌
abbrev pub ◌>>=◌ : {A B : Type 0} → Checked A → (A → Checked B) → Checked B
none >>= f = none
some a >>= f = f a

-- `bytes[i]`.
abbrev pub index : {A : Type 0} → List A → ℕ → Checked A
index bytes i = get_elem? bytes i

-- `a - b` on `usize`.
abbrev pub checked_sub : ℕ → ℕ → Checked ℕ
checked_sub a b = if ltb a b then none else some (a - b)

-- `a && b`: the right side is evaluated only if the left one holds.
abbrev pub and_also : Checked Bool → Checked Bool → Checked Bool
and_also none b = none
and_also (some true) b = b
and_also (some false) b = some false
