-- ===== src/State.antt =====
-- models.rs, the registries of constants.rs and the locks of utils.rs: the state that the NIFs
-- share, and the monad of a NIF over it. A mutex is its poison flag with its content.
use ecto_libsql.Common.{ℕ, ◌≡◌, Bool, true, false, List, ◌++◌, Str, str, Map, lookup, if◌then◌else◌}
use ecto_libsql.Effect.{Result, ok, err, Eff, lift, ok_or, map_err, ◌>>=◌}
use ecto_libsql.Libsql.{Libsql, Error, term, Value}

pub record Mutex (A : Type 0) : Type 0 where
  pub poisoned : Bool
  pub content : A

-- `Display` of std's `PoisonError`.
poison_text : Str
unfolding str
poison_text = str "poisoned lock: another task failed inside"

unfoldable pub lock_error : Str → Str → Error
unfolding poison_text str
lock_error what context = term (what ++ (context ++ (str ": " ++ poison_text)))

unfoldable pub safe_lock : {A : Type 0} → Mutex A → Str → Result Error A
safe_lock m context =
    if m.poisoned then err (lock_error (str "Mutex poisoned in ") context) else ok m.content

unfoldable pub safe_lock_arc : {A : Type 0} → Mutex A → Str → Result Error A
safe_lock_arc m context =
    if m.poisoned then err (lock_error (str "Arc mutex poisoned in ") context) else ok m.content

pub safe_lock_poisoned :
    {A : Type 0} (m : Mutex A) (context : Str)
    → m.poisoned ≡ true
    → safe_lock m context ≡ err (lock_error (str "Mutex poisoned in ") context)
unfolding safe_lock
safe_lock_poisoned m context h = rw h

pub safe_lock_free :
    {A : Type 0} (m : Mutex A) (context : Str)
    → m.poisoned ≡ false
    → safe_lock m context ≡ ok m.content
unfolding safe_lock
safe_lock_free m context h = rw h

pub safe_lock_arc_free :
    {A : Type 0} (m : Mutex A) (context : Str)
    → m.poisoned ≡ false
    → safe_lock_arc m context ≡ ok m.content
unfolding safe_lock_arc
safe_lock_arc_free m context h = rw h

-- How a connection is established.
pub data Mode : Type 0 where
  local remote remote_replica : Mode

module _ ⦃L : Libsql⦄ where
  open L use {World, LibError, Real, Database, Connection, Transaction, Statement}

  pub record LibSqlConn : Type 0 where
    pub db : Database
    pub client : Mutex Connection

  pub record CursorData : Type 0 where
    pub conn_id : Str
    pub columns : List Str
    pub rows : List (List (Value Real))
    pub position : ℕ

  pub record TransactionEntry : Type 0 where
    pub conn_id : Str
    pub transaction : Transaction

  pub record StatementEntry : Type 0 where
    pub conn_id : Str
    pub statement : Mutex Statement

  -- The four global registries, and the world of the other crates.
  pub record State : Type 0 where
    pub connections : Mutex (Map (Mutex LibSqlConn))
    pub transactions : Mutex (Map TransactionEntry)
    pub statements : Mutex (Map StatementEntry)
    pub cursors : Mutex (Map CursorData)
    pub world : World

  -- A NIF: it returns a value or an error, and the state that it leaves in either case.
  abbrev pub M : Type 0 → Type 0
  M A = Eff Error State A

  -- What runs against the other crates alone.
  abbrev pub on_world : {A : Type 0} → Eff Error World A → M A
  on_world m s = ((m s.world).0, record s { world = (m s.world).1 })

  -- `.map_err(|e| Error::Term(format!("{what}: {e}")))`.
  abbrev pub describe : Str → LibError → Error
  describe what e = term (what ++ (str ": " ++ L.display e))

  -- `map_err` on what runs against the other crates.
  abbrev pub or_else : {S A E F : Type 0} → (E → F) → Eff E S A → Eff F S A
  or_else f m s = (map_err f (m s).0, (m s).1)

  -- The registries locked, and what they are to hold.
  abbrev pub lock_connections : Str → M (Map (Mutex LibSqlConn))
  lock_connections context s = (safe_lock s.connections context, s)

  abbrev pub lock_transactions : Str → M (Map TransactionEntry)
  lock_transactions context s = (safe_lock s.transactions context, s)

  abbrev pub lock_statements : Str → M (Map StatementEntry)
  lock_statements context s = (safe_lock s.statements context, s)

  abbrev pub lock_cursors : Str → M (Map CursorData)
  lock_cursors context s = (safe_lock s.cursors context, s)

  abbrev pub put_connections : Map (Mutex LibSqlConn) → M (Unit {0})
  put_connections m s =
      (ok tt, record s { connections = record { poisoned = s.connections.poisoned; content = m } })

  abbrev pub put_transactions : Map TransactionEntry → M (Unit {0})
  put_transactions m s = (
    ok tt,
    record s { transactions = record { poisoned = s.transactions.poisoned; content = m } },
  )

  abbrev pub put_statements : Map StatementEntry → M (Unit {0})
  put_statements m s =
      (ok tt, record s { statements = record { poisoned = s.statements.poisoned; content = m } })

  abbrev pub put_cursors : Map CursorData → M (Unit {0})
  put_cursors m s =
      (ok tt, record s { cursors = record { poisoned = s.cursors.poisoned; content = m } })

  -- `get(conn_id).cloned().ok_or_else(..)` under the registry's lock.
  abbrev pub get_client : Str → Str → Str → M (Mutex LibSqlConn)
  get_client conn_id context missing = do
    conn_map ← lock_connections context
    lift (ok_or (lookup conn_id conn_map) (term missing))
