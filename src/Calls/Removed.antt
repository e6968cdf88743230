-- ===== src/Calls/Removed.antt =====
-- Calls that take an identifier away, and fetches, on the table of handles.
use ecto_libsql.Common.{
  ◌≡◌, refl, sym, ◌∙◌, ap, ◌⊎◌, inl, inr, true, Bool-cases, none, some, Str, str, str_eq,
  str_eq_iff, lookup, insert, lookup-insert, ◌+◌, if◌then◌else◌, Map, ℕ,
}
use ecto_libsql.Effect.{Result, ok, err}
use ecto_libsql.Libsql.{Libsql, Error}
use ecto_libsql.State.{State}
use ecto_libsql.Connection.Closing.{ClosedOrSame, Closed}
use ecto_libsql.Cursor.{fetch_count_of}
use ecto_libsql.Cursor.Outcome.{Outcome, unmoved, moved}
use ecto_libsql.Calls.Effects.{Finishes}
use ecto_libsql.Calls.Handles.{
  Kind, connection, transaction, statement, cursor, Handles, Same, put, handles, owner_of,
  Unchanged, Sets, Quiet-Unchanged, SameRegistries-Unchanged,
}

-- One entry taken away, seen by its owner.
owner_of-gone :
    {V : Type 0} (f : V → Str) (m n : Map V) (id k : Str)
    → lookup k n ≡ (if str_eq id k then none else lookup k m)
    → owner_of f (lookup k n) ≡ (if str_eq id k then none else owner_of f (lookup k m))
owner_of-gone f m n id k h = elim (Bool-cases (str_eq id k)) [
  | inl e ↦ let g : lookup k n ≡ none = h ∙ rw e refl in ap (owner_of f) g ∙ rw e refl
  | inr e ↦ let g : lookup k n ≡ lookup k m = h ∙ rw e refl in ap (owner_of f) g ∙ rw e refl
]

-- The kind of resource that an option of `close` names.
pub data Names : Str → Kind → Type 0 where
  names_connection : {opt : Str} → str_eq opt (str "conn_id") ≡ true → Names opt connection
  names_transaction : {opt : Str} → str_eq opt (str "trx_id") ≡ true → Names opt transaction
  names_statement : {opt : Str} → str_eq opt (str "stmt_id") ≡ true → Names opt statement
  names_cursor : {opt : Str} → str_eq opt (str "cursor_id") ≡ true → Names opt cursor

by_kind :
    (v w : Handles)
    → ((k : Str) → w connection k ≡ v connection k)
    → ((k : Str) → w transaction k ≡ v transaction k)
    → ((k : Str) → w statement k ≡ v statement k)
    → ((k : Str) → w cursor k ≡ v cursor k)
    → Same v w
by_kind v w a b c d connection = a
by_kind v w a b c d transaction = b
by_kind v w a b c d statement = c
by_kind v w a b c d cursor = d

module _ ⦃L : Libsql⦄ where
  -- The identifier was there, and is gone.
  abbrev pub Removes : State → State → Kind → Str → Type 0
  Removes s t j id = (o : Str) × (handles s j id ≡ some o) × Sets s t j id none

  same_connections :
      (s t : State)
      → t.connections ≡ s.connections
      → (k : Str) → handles t connection k ≡ handles s connection k
  same_connections s t h k = ap (λ m. owner_of (λ _. k) (lookup k m.content)) h

  same_transactions :
      (s t : State)
      → t.transactions ≡ s.transactions
      → (k : Str) → handles t transaction k ≡ handles s transaction k
  same_transactions s t h k = ap (λ m. owner_of (λ e. e.conn_id) (lookup k m.content)) h

  same_statements :
      (s t : State)
      → t.statements ≡ s.statements
      → (k : Str) → handles t statement k ≡ handles s statement k
  same_statements s t h k = ap (λ m. owner_of (λ e. e.conn_id) (lookup k m.content)) h

  same_cursors :
      (s t : State) → t.cursors ≡ s.cursors → (k : Str) → handles t cursor k ≡ handles s cursor k
  same_cursors s t h k = ap (λ m. owner_of (λ c. c.conn_id) (lookup k m.content)) h

  Closed-Removes :
      (s t : State) (id opt : Str) → Closed s id opt t → (j : Kind) × Names opt j × Removes s t j id
  Closed-Removes s t id opt (Closed.connection c o l w r v) = (
    connection,
    names_connection o,
    (
      id,
      ap (owner_of (λ _. id)) l,
      by_kind (put connection id none (handles s)) (handles t)
          (λ k. owner_of-gone (λ _. k) s.connections.content t.connections.content id k (w k))
          (same_transactions s t r.0) (same_statements s t r.1) (same_cursors s t r.2),
    ),
  )
  Closed-Removes s t id opt (Closed.transaction e o l w r v) = (
    transaction,
    names_transaction o,
    (
      e.conn_id,
      ap (owner_of (λ e. e.conn_id)) l,
      by_kind (put transaction id none (handles s)) (handles t) (same_connections s t r.0)
          (λ k.
            owner_of-gone (λ e. e.conn_id) s.transactions.content t.transactions.content id k (w k))
          (same_statements s t r.1) (same_cursors s t r.2),
    ),
  )
  Closed-Removes s t id opt (Closed.statement e o l w r v) = (
    statement,
    names_statement o,
    (
      e.conn_id,
      ap (owner_of (λ e. e.conn_id)) l,
      by_kind (put statement id none (handles s)) (handles t) (same_connections s t r.0)
          (same_transactions s t r.1)
          (λ k. owner_of-gone (λ e. e.conn_id) s.statements.content t.statements.content id k (w k))
          (same_cursors s t r.2),
    ),
  )
  Closed-Removes s t id opt (Closed.cursor c o l w r v) = (
    cursor,
    names_cursor o,
    (
      c.conn_id,
      ap (owner_of (λ c. c.conn_id)) l,
      by_kind (put cursor id none (handles s)) (handles t) (same_connections s t r.0)
          (same_transactions s t r.1) (same_statements s t r.2)
          (λ k. owner_of-gone (λ c. c.conn_id) s.cursors.content t.cursors.content id k (w k)),
    ),
  )

  pub close-Removes :
      (s : State) (id opt : Str) (run : Result Error (Unit {0}) × State)
      → ClosedOrSame s id opt run
      → Unchanged s run.1 ⊎ ((j : Kind) × Names opt j × Removes s run.1 j id)
  close-Removes s id opt (ok _, t) c = inr (Closed-Removes s t id opt c)
  close-Removes s id opt (err e, t) h = inl (
      by_kind (handles s) (handles t) (same_connections s t (ap (λ x. x.connections) h))
        (same_transactions s t (ap (λ x. x.transactions) h))
        (same_statements s t (ap (λ x. x.statements) h)) (same_cursors s t (ap (λ x. x.cursors) h)))

  -- A transaction is finished by its owner alone.
  pub Finishes-Removes :
      (s t : State) (trx_id conn_id param : Str)
      → Finishes s trx_id conn_id param t
      → Unchanged s t
        ⊎ ((handles s transaction trx_id ≡ some conn_id) × Sets s t transaction trx_id none)
  Finishes-Removes s t trx_id conn_id param (inl r) = inl (SameRegistries-Unchanged s t r)
  Finishes-Removes s t trx_id conn_id param (inr (e, l, o, (r, f))) = inr (
    ap (owner_of (λ e. e.conn_id)) l ∙ ap some ((str_eq_iff e.conn_id conn_id).0 o),
    by_kind (put transaction trx_id none (handles s)) (handles t)
        (same_connections s t f.same_rest.0)
        (λ k.
          owner_of-gone (λ e. e.conn_id) s.transactions.content t.transactions.content trx_id k
            (f.others k))
        (same_statements s t f.same_rest.1) (same_cursors s t f.same_rest.2),
  )

  -- A fetch moves a cursor and leaves its owner.
  pub Outcome-Unchanged :
      (s t : State) (conn_id cursor_id : Str) (max_rows : ℕ)
      → Outcome s conn_id cursor_id max_rows t
      → Unchanged s t
  Outcome-Unchanged s t conn_id cursor_id max_rows (unmoved q) = Quiet-Unchanged s t q
  Outcome-Unchanged s t conn_id cursor_id max_rows (moved c h m r) =
      by_kind (handles s) (handles t) (same_connections s t r.0) (same_transactions s t r.2)
        (same_statements s t r.1) (λ k. ap (λ x. owner_of (λ c. c.conn_id) (lookup k x)) m ∙ kept k)
    where
      kept :
          (k : Str)
          → owner_of
              (λ c. c.conn_id)
              (lookup k (
                insert cursor_id
                  (record c { position = c.position + fetch_count_of c max_rows })
                  s.cursors.content))
            ≡ handles s cursor k
      kept k = elim (Bool-cases (str_eq cursor_id k)) [
        | inl e ↦
            let k_eq = (str_eq_iff cursor_id k).0 e in
            let g : lookup k (
                  insert cursor_id (record c { position = c.position + fetch_count_of c max_rows })
                    s.cursors.content)
                ≡ some (record c { position = c.position + fetch_count_of c max_rows }) =
              lookup-insert cursor_id k _ s.cursors.content ∙ rw e refl in
            ap (owner_of (λ c. c.conn_id)) g
            ∙ sym (
                ap (owner_of (λ c. c.conn_id))
                  (ap (λ x. lookup x s.cursors.content) (sym k_eq) ∙ h.registered))
        | inr e ↦
            let g : lookup k (
                  insert cursor_id (record c { position = c.position + fetch_count_of c max_rows })
                    s.cursors.content)
                ≡ lookup k s.cursors.content =
              lookup-insert cursor_id k _ s.cursors.content ∙ rw e refl in
            ap (owner_of (λ c. c.conn_id)) g
      ]
