-- ===== src/Calls/Kept.antt =====
-- What a NIF's effect on the other registries says of that of cursors.
use ecto_libsql.Common.{◌≡◌, inl, inr, Str}
use ecto_libsql.Effect.{Result, ok, err}
use ecto_libsql.Libsql.{Libsql, Error}
use ecto_libsql.State.{State}
use ecto_libsql.Isolation.Begin.{Registers}
use ecto_libsql.Connection.Connected.{ConnectedOrQuiet}
use ecto_libsql.Statement.Prepare.{PreparedOrQuiet}
use ecto_libsql.Calls.Effects.{Finishes}

module _ ⦃L : Libsql⦄ where
  pub Registers-cursors :
      (conn_id : Str) (s : State) (run : Result Error Str × State)
      → Registers s conn_id run
      → run.1.cursors ≡ s.cursors
  Registers-cursors conn_id s (ok id, t) h = h.same_rest.2
  Registers-cursors conn_id s (err e, t) h = h.3

  pub ConnectedOrQuiet-cursors :
      (s : State) (run : Result Error Str × State)
      → ConnectedOrQuiet s run
      → run.1.cursors ≡ s.cursors
  ConnectedOrQuiet-cursors s (ok id, t) h = h.same_rest.2
  ConnectedOrQuiet-cursors s (err e, t) h = h.quiet_cursors

  pub PreparedOrQuiet-cursors :
      (conn_id : Str) (s : State) (run : Result Error Str × State)
      → PreparedOrQuiet s conn_id run
      → run.1.cursors ≡ s.cursors
  PreparedOrQuiet-cursors conn_id s (ok id, t) h = h.same_rest.1
  PreparedOrQuiet-cursors conn_id s (err e, t) h = h.quiet_cursors

  pub Finishes-cursors :
      (trx_id conn_id param : Str) (s t : State)
      → Finishes s trx_id conn_id param t
      → t.cursors ≡ s.cursors
  Finishes-cursors trx_id conn_id param s t (inl h) = h.same_cursors
  Finishes-cursors trx_id conn_id param s t (inr (e, l, o, (r, f))) = f.same_rest.2
