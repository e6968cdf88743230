-- ===== src/Calls/Handles.antt =====
-- The handles that Elixir holds, as a table: which identifiers are known, and which connection each
-- transaction, statement and cursor is owned by. It forgets all else.
use ecto_libsql.Common.{◌≡◌, ap, Option, none, some, Str, str_eq, lookup, if◌then◌else◌}
use ecto_libsql.Libsql.{Libsql}
use ecto_libsql.State.{State}
use ecto_libsql.Transaction.Guard.{Quiet, SameRegistries}

pub data Kind : Type 0 where
  connection transaction statement cursor : Kind

-- The owner of each identifier; a connection owns itself.
abbrev pub Handles : Type 0
Handles = Kind → Str → Option Str

abbrev pub owner_of {ℓ} : {A : Type ℓ} → (A → Str) → Option A → Option Str
owner_of f none = none
owner_of f (some a) = some (f a)

abbrev pub Same : Handles → Handles → Type 0
Same v w = (i : Kind) (k : Str) → w i k ≡ v i k

-- The table with one entry set, or taken away.
abbrev pub put : Kind → Str → Option Str → Handles → Handles
put connection id o v connection k = if str_eq id k then o else v connection k
put transaction id o v transaction k = if str_eq id k then o else v transaction k
put statement id o v statement k = if str_eq id k then o else v statement k
put cursor id o v cursor k = if str_eq id k then o else v cursor k
put j id o v i k = v i k

module _ ⦃L : Libsql⦄ where
  abbrev pub handles : State → Handles
  handles s connection k = owner_of (λ _. k) (lookup k s.connections.content)
  handles s transaction k = owner_of (λ e. e.conn_id) (lookup k s.transactions.content)
  handles s statement k = owner_of (λ e. e.conn_id) (lookup k s.statements.content)
  handles s cursor k = owner_of (λ c. c.conn_id) (lookup k s.cursors.content)

  -- One entry changed, or none.
  abbrev pub Unchanged : State → State → Type 0
  Unchanged s t = Same (handles s) (handles t)

  abbrev pub Sets : State → State → Kind → Str → Option Str → Type 0
  Sets s t j id o = Same (put j id o (handles s)) (handles t)

  pub Quiet-Unchanged : (s t : State) → Quiet s t → Unchanged s t
  Quiet-Unchanged s t q connection k =
      ap (λ m. owner_of (λ _. k) (lookup k m.content)) q.quiet_connections
  Quiet-Unchanged s t q transaction k =
      ap (λ m. owner_of (λ e. e.conn_id) (lookup k m.content)) q.quiet_transactions
  Quiet-Unchanged s t q statement k =
      ap (λ m. owner_of (λ e. e.conn_id) (lookup k m.content)) q.quiet_statements
  Quiet-Unchanged s t q cursor k =
      ap (λ m. owner_of (λ c. c.conn_id) (lookup k m.content)) q.quiet_cursors

  pub SameRegistries-Unchanged : (s t : State) → SameRegistries s t → Unchanged s t
  SameRegistries-Unchanged s t q connection k =
      ap (λ m. owner_of (λ _. k) (lookup k m.content)) q.same_connections
  SameRegistries-Unchanged s t q transaction k = ap (owner_of (λ e. e.conn_id)) (q.same_lookups k)
  SameRegistries-Unchanged s t q statement k =
      ap (λ m. owner_of (λ e. e.conn_id) (lookup k m.content)) q.same_statements
  SameRegistries-Unchanged s t q cursor k =
      ap (λ m. owner_of (λ c. c.conn_id) (lookup k m.content)) q.same_cursors
