-- ===== src/Tests/Closing.antt =====
-- A connection that is closed and asked again.
use ecto_libsql.Common.{◌≡◌, ◌≢◌, refl, List, [], ◌∷◌, Str, str, str_eq, lookup, remove}
use ecto_libsql.Effect.{Result, ok, err}
use ecto_libsql.Libsql.{Error, term}
use ecto_libsql.State.{State, safe_lock}
use ecto_libsql.Connection.{close, connect, connect_to, read_options}
use ecto_libsql.Calls.{Call, run, run_all}
use ecto_libsql.Calls.Unreachable.{Unreachable, absent}
use ecto_libsql.Calls.Rejected.{Rejected, Unreachable-Rejected}
use ecto_libsql.Calls.Closed.{NoneReissues, closed-Rejected}
use ecto_libsql.Tests.{demo, c_id, d_id, t_id, demo_state}

d_absent : Unreachable demo_state d_id
unfolding lookup str_eq
d_absent = absent refl

Unreachable-Rejected_example : Rejected (Call.is_autocommit d_id) demo_state
Unreachable-Rejected_example =
    Unreachable-Rejected demo_state d_id (Call.is_autocommit d_id) d_absent refl

-- Its transaction is still used, and another connection is asked for in vain.
abbrev calls_behind : List Call
calls_behind =
    Call.execute_with_transaction t_id c_id (b'x' ∷ []) (tt ∷ []) ∷ Call.connect tt tt ∷ []

c_closed : (close c_id (str "conn_id") demo_state).0 ≡ ok tt
unfolding close safe_lock lookup remove str str_eq
c_closed = refl

connect_failed : (s : State) → (connect tt tt s).0 ≡ err (term (str "decode failed: "))
unfolding connect connect_to read_options str
connect_failed s = refl

ok_or_err : (r : Result Error Str) (e : Error) (a : Str) → r ≡ err e → r ≢ ok a
ok_or_err r e a h k = cc

none_reissues : NoneReissues c_id calls_behind (run (Call.close c_id (str "conn_id")) demo_state)
none_reissues = (tt, (ok_or_err _ _ c_id (connect_failed _), tt))

closed-Rejected_example :
    Rejected
      (Call.query_args c_id (b'x' ∷ []) [])
      (run_all calls_behind (run (Call.close c_id (str "conn_id")) demo_state))
closed-Rejected_example =
    closed-Rejected demo_state c_id calls_behind (Call.query_args c_id (b'x' ∷ []) []) c_closed
      none_reissues refl
