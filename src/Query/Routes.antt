-- ===== src/Query/Routes.antt =====
-- Which statements go to the database, and when a sync does.
use ecto_libsql.Common.{◌≡◌, ◌≢◌, refl, false, Option, none, some, Str, str, lookup}
use ecto_libsql.Effect.{ok}
use ecto_libsql.Libsql.{Libsql}
use ecto_libsql.State.{
  State, Mutex, LibSqlConn, Mode, local, remote, remote_replica, safe_lock_free,
}
use ecto_libsql.Decode.{decode_mode}
use ecto_libsql.Query.{do_sync, sync_if}

module _ ⦃L : Libsql⦄ where
  sync_if_nothing :
      (m : Option Mode) (c : Mutex LibSqlConn) (w : L.World)
      → m ≢ some remote_replica
      → sync_if m c w ≡ (ok tt, w)
  unfolding sync_if
  sync_if_nothing none c w n = refl
  sync_if_nothing (some local) c w n = refl
  sync_if_nothing (some remote) c w n = refl
  sync_if_nothing (some remote_replica) c w n = absurd (n refl)

  -- For a registered connection whose mode is not that of a remote replica, an unknown mode
  -- included, a sync succeeds and touches nothing.
  pub do_sync_nothing :
      (s : State) (conn_id mode : Str) (c : Mutex LibSqlConn)
      → s.connections.poisoned ≡ false
      → lookup conn_id s.connections.content ≡ some c
      → decode_mode mode ≢ some remote_replica
      → do_sync conn_id mode s ≡ (ok (str "success sync"), s)
  unfolding do_sync
  do_sync_nothing s conn_id mode c p h n =
      rw
        (
          safe_lock_free s.connections (str "do_sync") p,
          h,
          sync_if_nothing (decode_mode mode) c s.world n,
        )
        refl
