-- ===== src/Connection/Untouched.antt =====
-- The code that works on a connection, and the registries.
use ecto_libsql.Common.{Bool, Str, List, Option, ℕ, arith}
use ecto_libsql.Effect.{Eff, ◌>>=◌}
use ecto_libsql.Libsql.{Libsql, Error}
use ecto_libsql.State.{State, on_world}
use ecto_libsql.Transaction.Guard.{Quiet}
use ecto_libsql.Transaction.Quiet.{IsQuiet}
use ecto_libsql.Metadata.{
  locked_connection, last_insert_rowid, changes, total_changes, is_autocommit,
}
use ecto_libsql.Query.{query_args, pragma_query, do_sync}
use ecto_libsql.Connection.{
  ping, set_busy_timeout, reset_connection, interrupt_connection, enable_load_extension,
  load_extension,
}

module _ ⦃L : Libsql⦄ where
  open L use {World, Connection, Term}

  locked_then-IsQuiet :
      {A : Type 0} (nif conn_id : Str) (f : Connection → Eff Error World A)
      → IsQuiet (locked_connection nif conn_id >>= λ conn. on_world (f conn))
  unfolding locked_connection
  locked_then-IsQuiet nif conn_id f t = ground arith

  -- Statements run on a connection, syncs, pings, the counters and the settings of a connection
  -- leave every registry as it was, whatever their outcome. A reset is among them: the prepared
  -- statements of the connection stay registered.
  pub connections_untouched :
      (s : State) (conn_id sql mode path : Str) (args : List Term) (entry_point : Option Str)
      (timeout_ms : ℕ) (enabled : Bool)
      → Quiet s (query_args conn_id sql args s).1
        × Quiet s (pragma_query conn_id sql s).1
        × Quiet s (do_sync conn_id mode s).1
        × Quiet s (ping conn_id s).1
        × Quiet s (last_insert_rowid conn_id s).1
        × Quiet s (changes conn_id s).1
        × Quiet s (total_changes conn_id s).1
        × Quiet s (is_autocommit conn_id s).1
        × Quiet s (set_busy_timeout conn_id timeout_ms s).1
        × Quiet s (reset_connection conn_id s).1
        × Quiet s (interrupt_connection conn_id s).1
        × Quiet s (enable_load_extension conn_id enabled s).1
        × Quiet s (load_extension conn_id path entry_point s).1
  connections_untouched s conn_id sql mode path args entry_point timeout_ms enabled = (
    unfold query_args in ground arith,
    unfold pragma_query in ground arith,
    unfold do_sync in ground arith,
    unfold ping in ground arith,
    unfold last_insert_rowid in locked_then-IsQuiet _ conn_id _ s,
    unfold changes in locked_then-IsQuiet _ conn_id _ s,
    unfold total_changes in locked_then-IsQuiet _ conn_id _ s,
    unfold is_autocommit in locked_then-IsQuiet _ conn_id _ s,
    unfold set_busy_timeout in locked_then-IsQuiet _ conn_id _ s,
    unfold reset_connection in locked_then-IsQuiet _ conn_id _ s,
    unfold interrupt_connection in locked_then-IsQuiet _ conn_id _ s,
    unfold enable_load_extension in locked_then-IsQuiet _ conn_id _ s,
    unfold load_extension in locked_then-IsQuiet _ conn_id _ s,
  )
