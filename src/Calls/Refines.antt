-- ===== src/Calls/Refines.antt =====
-- The NIFs as steps of an abstract machine over the table of handles, which says nothing of the
-- database, of guards, rows or positions; and that the calls refine it.
use ecto_libsql.Common.{◌≡◌, ◌⊎◌, Str, none, some}
use ecto_libsql.Libsql.{Libsql}
use ecto_libsql.State.{State}
use ecto_libsql.Calls.Handles.{
  Kind, connection, transaction, statement, cursor, Handles, Same, put, handles,
  SameRegistries-Unchanged,
}
use ecto_libsql.Calls.Issued.{
  Registers-Issues, PreparedOrQuiet-Issues, OpenedOrQuiet-Issues, DeclaredOrSame-Issues,
  ConnectedOrQuiet-Issues,
}
use ecto_libsql.Calls.Removed.{Names, close-Removes, Finishes-Removes, Outcome-Unchanged}
use ecto_libsql.Calls.Effects.{Leaves, run-Leaves}
use ecto_libsql.Calls.{Call, run}

-- At most one entry is added, or given a new owner.
abbrev pub Issuing : Kind → (Str → Str) → Handles → Handles → Type 0
Issuing j owner v w = Same v w ⊎ ((id : Str) × Same (put j id (some (owner id)) v) w)

-- At most the named entry is taken away.
abbrev pub Closing : Str → Str → Handles → Handles → Type 0
Closing id opt v w =
    Same v w
    ⊎ ((j : Kind) × Names opt j × ((o : Str) × (v j id ≡ some o) × Same (put j id none v) w))

-- At most the transaction is taken away, and only from its owner.
abbrev pub Finishing : Str → Str → Handles → Handles → Type 0
Finishing trx_id conn_id v w =
    Same v w ⊎ ((v transaction trx_id ≡ some conn_id) × Same (put transaction trx_id none v) w)

module _ ⦃L : Libsql⦄ where
  -- What a call may do to the table of handles.
  abbrev pub Allowed : Call → Handles → Handles → Type 0
  Allowed (Call.connect opts mode) v w = Issuing connection (λ id. id) v w
  Allowed (Call.begin_transaction conn_id) v w = Issuing transaction (λ _. conn_id) v w
  Allowed (Call.begin_transaction_with_behavior conn_id behavior) v w =
      Issuing transaction (λ _. conn_id) v w
  Allowed (Call.prepare_statement conn_id sql) v w = Issuing statement (λ _. conn_id) v w
  Allowed (Call.declare_cursor conn_id sql args) v w = Issuing cursor (λ _. conn_id) v w
  Allowed (Call.declare_cursor_with_context conn_id id id_type sql args) v w =
      Issuing cursor (λ _. conn_id) v w
  Allowed (Call.commit_or_rollback_transaction trx_id conn_id param) v w =
      Finishing trx_id conn_id v w
  Allowed (Call.close id opt) v w = Closing id opt v w
  Allowed c v w = Same v w

  Leaves-Allowed : (s t : State) (c : Call) → Leaves c s t → Allowed c (handles s) (handles t)
  Leaves-Allowed s t (Call.connect opts mode) (r, h) = ConnectedOrQuiet-Issues s (r, t) h
  Leaves-Allowed s t (Call.begin_transaction conn_id) (r, h) = Registers-Issues s conn_id (r, t) h
  Leaves-Allowed s t (Call.begin_transaction_with_behavior conn_id behavior) (r, h) =
      Registers-Issues s conn_id (r, t) h
  Leaves-Allowed s t (Call.prepare_statement conn_id sql) (r, h) =
      PreparedOrQuiet-Issues s conn_id (r, t) h
  Leaves-Allowed s t (Call.declare_cursor conn_id sql args) (r, h) =
      OpenedOrQuiet-Issues s conn_id (r, t) h
  Leaves-Allowed s t (Call.declare_cursor_with_context conn_id id id_type sql args) (r, h) =
      DeclaredOrSame-Issues s conn_id (r, t) h
  Leaves-Allowed s t (Call.fetch_cursor conn_id cursor_id max_rows) h =
      Outcome-Unchanged s t conn_id cursor_id max_rows h
  Leaves-Allowed s t (Call.commit_or_rollback_transaction trx_id conn_id param) h =
      Finishes-Removes s t trx_id conn_id param h
  Leaves-Allowed s t (Call.close id opt) (r, h) = close-Removes s id opt (r, t) h
  Leaves-Allowed s t c h = SameRegistries-Unchanged s t h

  -- Each NIF is a step of the abstract machine over handles. A connect, a begin, a prepare and the
  -- two declarations set at most one entry, of their own kind and owned by the calling connection
  -- (a new connection by itself); a commit or rollback takes away at most the named transaction, and
  -- only when the caller owns it; a close takes away at most the one named entry of the kind that
  -- its option names; all other NIFs change no entry, whether they succeed or fail.
  pub run-Allowed : (s : State) (c : Call) → Allowed c (handles s) (handles (run c s))
  run-Allowed s c = Leaves-Allowed s (run c s) c (run-Leaves s c)
