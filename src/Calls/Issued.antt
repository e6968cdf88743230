-- ===== src/Calls/Issued.antt =====
-- Calls that issue an identifier, on the table of handles.
use ecto_libsql.Common.{
  ◌≡◌, refl, sym, ◌∙◌, ap, ◌⊎◌, inl, inr, false, Bool-cases, some, Str, str_eq, str_eq_iff, lookup,
  if◌then◌else◌, Map,
}
use ecto_libsql.Effect.{Result, ok, err}
use ecto_libsql.Libsql.{Libsql, Error}
use ecto_libsql.State.{State}
use ecto_libsql.Isolation.Begin.{Began, Registers}
use ecto_libsql.Connection.Connected.{Connected, ConnectedOrQuiet}
use ecto_libsql.Cursor.Declare.{Opened, OpenedOrQuiet}
use ecto_libsql.Cursor.Context.{DeclaredOrSame}
use ecto_libsql.Statement.Prepare.{Prepared, PreparedOrQuiet}
use ecto_libsql.Calls.Handles.{
  Kind, connection, transaction, statement, cursor, owner_of, Unchanged, Sets, Quiet-Unchanged,
  SameRegistries-Unchanged,
}

-- One entry set, seen by its owner.
owner_of-set :
    {V : Type 0} (f : V → Str) (m n : Map V) (id k o : Str) (v : V)
    → lookup id n ≡ some v
    → f v ≡ o
    → (str_eq id k ≡ false → lookup k n ≡ lookup k m)
    → owner_of f (lookup k n) ≡ (if str_eq id k then some o else owner_of f (lookup k m))
owner_of-set f m n id k o v l e others = elim (Bool-cases (str_eq id k)) [
  | inl h ↦
      let k_eq = (str_eq_iff id k).0 h in
      ap (λ x. owner_of f (lookup x n)) (sym k_eq) ∙ ap (owner_of f) l ∙ ap some e ∙ rw h refl
  | inr h ↦ ap (owner_of f) (others h) ∙ rw h refl
]

module _ ⦃L : Libsql⦄ where
  -- Nothing has changed, or one identifier was issued.
  abbrev pub Issues : State → State → Kind → (Str → Str) → Type 0
  Issues s t j owner = Unchanged s t ⊎ ((id : Str) × Sets s t j id (some (owner id)))

  Began-Sets :
      (s t : State) (conn_id trx_id : Str)
      → Began s conn_id trx_id t
      → Sets s t transaction trx_id (some conn_id)
  Began-Sets s t conn_id trx_id b connection k =
      ap (λ m. owner_of (λ _. k) (lookup k m.content)) b.same_rest.0
  Began-Sets s t conn_id trx_id b transaction k =
      owner_of-set (λ e. e.conn_id) s.transactions.content t.transactions.content trx_id k conn_id
        b.entry b.registered b.owner (b.others k)
  Began-Sets s t conn_id trx_id b statement k =
      ap (λ m. owner_of (λ e. e.conn_id) (lookup k m.content)) b.same_rest.1
  Began-Sets s t conn_id trx_id b cursor k =
      ap (λ m. owner_of (λ c. c.conn_id) (lookup k m.content)) b.same_rest.2

  Prepared-Sets :
      (s t : State) (conn_id stmt_id : Str)
      → Prepared s conn_id stmt_id t
      → Sets s t statement stmt_id (some conn_id)
  Prepared-Sets s t conn_id stmt_id b connection k =
      ap (λ m. owner_of (λ _. k) (lookup k m.content)) b.same_rest.0
  Prepared-Sets s t conn_id stmt_id b transaction k =
      ap (λ m. owner_of (λ e. e.conn_id) (lookup k m.content)) b.same_rest.2
  Prepared-Sets s t conn_id stmt_id b statement k =
      owner_of-set (λ e. e.conn_id) s.statements.content t.statements.content stmt_id k conn_id
        b.entry b.registered ((str_eq_iff b.entry.conn_id conn_id).0 b.owner) (b.others k)
  Prepared-Sets s t conn_id stmt_id b cursor k =
      ap (λ m. owner_of (λ c. c.conn_id) (lookup k m.content)) b.same_rest.1

  Opened-Sets :
      (s t : State) (conn_id cursor_id : Str)
      → Opened s conn_id cursor_id t
      → Sets s t cursor cursor_id (some conn_id)
  Opened-Sets s t conn_id cursor_id b connection k =
      ap (λ m. owner_of (λ _. k) (lookup k m.content)) b.same_rest.0
  Opened-Sets s t conn_id cursor_id b transaction k =
      ap (λ m. owner_of (λ e. e.conn_id) (lookup k m.content)) b.same_rest.2
  Opened-Sets s t conn_id cursor_id b statement k =
      ap (λ m. owner_of (λ e. e.conn_id) (lookup k m.content)) b.same_rest.1
  Opened-Sets s t conn_id cursor_id b cursor k =
      owner_of-set (λ c. c.conn_id) s.cursors.content t.cursors.content cursor_id k conn_id b.cursor
        b.holds.registered ((str_eq_iff b.cursor.conn_id conn_id).0 b.holds.owner) (b.others k)

  Connected-Sets :
      (s t : State) (conn_id : Str)
      → Connected s conn_id t
      → Sets s t connection conn_id (some conn_id)
  Connected-Sets s t conn_id b connection k = elim (Bool-cases (str_eq conn_id k)) [
    | inl h ↦
        let k_eq = (str_eq_iff conn_id k).0 h in
        ap (λ x. owner_of (λ _. k) (lookup x t.connections.content)) (sym k_eq)
        ∙ ap (owner_of (λ _. k)) b.registered
        ∙ ap some (sym k_eq)
        ∙ rw h refl
    | inr h ↦ ap (owner_of (λ _. k)) (b.others k h) ∙ rw h refl
  ]
  Connected-Sets s t conn_id b transaction k =
      ap (λ m. owner_of (λ e. e.conn_id) (lookup k m.content)) b.same_rest.0
  Connected-Sets s t conn_id b statement k =
      ap (λ m. owner_of (λ e. e.conn_id) (lookup k m.content)) b.same_rest.1
  Connected-Sets s t conn_id b cursor k =
      ap (λ m. owner_of (λ c. c.conn_id) (lookup k m.content)) b.same_rest.2

  -- A change behind what changes no handle.
  Sets-behind :
      (s t u : State) (id o : Str)
      → Unchanged s t
      → Sets t u cursor id (some o)
      → Sets s u cursor id (some o)
  Sets-behind s t u id o same sets connection k = sets connection k ∙ same connection k
  Sets-behind s t u id o same sets transaction k = sets transaction k ∙ same transaction k
  Sets-behind s t u id o same sets statement k = sets statement k ∙ same statement k
  Sets-behind s t u id o same sets cursor k =
      sets cursor k ∙ ap (λ x. if str_eq id k then some o else x) (same cursor k)

  pub Registers-Issues :
      (s : State) (conn_id : Str) (run : Result Error Str × State)
      → Registers s conn_id run
      → Issues s run.1 transaction (λ _. conn_id)
  Registers-Issues s conn_id (ok id, t) b = inr (id, Began-Sets s t conn_id id b)
  Registers-Issues s conn_id (err e, t) b = inl (
      Quiet-Unchanged s t (record {
        quiet_connections = b.1;
        quiet_statements = b.2;
        quiet_cursors = b.3;
        quiet_transactions = b.0;
      }))

  pub PreparedOrQuiet-Issues :
      (s : State) (conn_id : Str) (run : Result Error Str × State)
      → PreparedOrQuiet s conn_id run
      → Issues s run.1 statement (λ _. conn_id)
  PreparedOrQuiet-Issues s conn_id (ok id, t) b = inr (id, Prepared-Sets s t conn_id id b)
  PreparedOrQuiet-Issues s conn_id (err e, t) q = inl (Quiet-Unchanged s t q)

  pub OpenedOrQuiet-Issues :
      (s : State) (conn_id : Str) (run : Result Error Str × State)
      → OpenedOrQuiet s conn_id run
      → Issues s run.1 cursor (λ _. conn_id)
  OpenedOrQuiet-Issues s conn_id (ok id, t) b = inr (id, Opened-Sets s t conn_id id b)
  OpenedOrQuiet-Issues s conn_id (err e, t) q = inl (Quiet-Unchanged s t q)

  pub DeclaredOrSame-Issues :
      (s : State) (conn_id : Str) (run : Result Error Str × State)
      → DeclaredOrSame s conn_id run
      → Issues s run.1 cursor (λ _. conn_id)
  DeclaredOrSame-Issues s conn_id (ok id, t) d = inr (
    id,
    Sets-behind s d.queried t id conn_id (SameRegistries-Unchanged s d.queried d.restored)
        (Opened-Sets d.queried t conn_id id d.opened),
  )
  DeclaredOrSame-Issues s conn_id (err e, t) r = inl (SameRegistries-Unchanged s t r)

  pub ConnectedOrQuiet-Issues :
      (s : State) (run : Result Error Str × State)
      → ConnectedOrQuiet s run
      → Issues s run.1 connection (λ id. id)
  ConnectedOrQuiet-Issues s (ok id, t) b = inr (id, Connected-Sets s t id b)
  ConnectedOrQuiet-Issues s (err e, t) q = inl (Quiet-Unchanged s t q)
