-- ===== src/Tests/Connecting.antt =====
-- A connection to a local database, by a list that gives one key twice.
use mathlib.Core.List.{map}
use ecto_libsql.Common.{◌≡◌, ◌↔◌, refl, Option, none, some, List, [], ◌∷◌, Str, str, str_eq, ℕ}
use ecto_libsql.Effect.{Result, ok, err}
use ecto_libsql.Libsql.{Libsql}
use ecto_libsql.State.{State, local}
use ecto_libsql.Decode.{decode_mode}
use ecto_libsql.Connection.{connect, read_options}
use ecto_libsql.Connection.Given.{options_given}
use ecto_libsql.Connection.Established.{Established}
use ecto_libsql.Connection.Succeeds.{opened, connect-Established}
use ecto_libsql.Tests.{demo, free}

data Argument : Type 0 where
  keywords : List (Str × Str) → Argument
  keyword : Str → Str → Argument
  word : Str → Argument

abbrev as_list : Argument → Result Str (List Argument)
as_list (keywords ks) = ok (map (λ k. keyword k.0 k.1) ks)
as_list _ = err []

abbrev as_keyword : Argument → Result Str (Str × Argument)
as_keyword (keyword k v) = ok (k, word v)
as_keyword _ = err []

abbrev as_word : Argument → Option Str
as_word (word v) = some v
as_word _ = none

abbrev arguments : Libsql
arguments = record demo {
  Term = Argument;
  decode_atom = as_word;
  decode_i64 = λ t. none;
  decode_f64 = λ t. none;
  decode_bool = λ t. none;
  decode_string = as_word;
  decode_atom_bytes = λ t. none;
  decode_binary = λ t. none;
  decode_bytes = λ t. none;
  decode_statement = λ t. err [];
  debug_term = λ t. [];
  decode_list = as_list;
  decode_pair = as_keyword;
}

abbrev local_options : List (Str × Str)
local_options = (str "database", b'a' ∷ []) ∷ (str "database", b'b' ∷ []) ∷ []

abbrev given_pairs : List (Str × Argument)
given_pairs = (str "database", word (b'a' ∷ [])) ∷ (str "database", word (b'b' ∷ [])) ∷ []

-- All registries are empty here.
abbrev no_state : State ⦃L = arguments⦄
no_state = record {
  connections = free [];
  transactions = free [];
  statements = free [];
  cursors = free [];
  world = 0;
}

-- The file is the one that the list names last.
local-Established :
    Established ⦃L = arguments⦄ (keywords local_options) (word (str "local")) tt 3 0 2
unfolding str str_eq decode_mode
local-Established = record {
  options = options_given ⦃L = arguments⦄ given_pairs;
  given = record {
    list = keyword (str "database") (b'a' ∷ []) ∷ keyword (str "database") (b'b' ∷ []) ∷ [];
    decoded = refl;
    pairs = given_pairs;
    keyed = (refl, (refl, tt));
    last = refl;
  };
  mode_atom = str "local";
  mode_read = refl;
  kind = local;
  mode_named = refl;
  behind = 1;
  built = (b'b' ∷ [], refl, refl);
  later = 2;
  opened = refl;
  pinged = refl;
}

local_connected :
    connect ⦃L = arguments⦄ (keywords local_options) (word (str "local")) no_state
    ≡ opened ⦃L = arguments⦄ no_state tt 3 2
unfolding read_options
local_connected =
    (connect-Established ⦃L = arguments⦄ no_state (keywords local_options) (word (str "local"))
        (2 ∷ []) (opened ⦃L = arguments⦄ no_state tt 3 2).1 refl refl).1
      (tt, 3, 2, local-Established, refl)

connect-Established_example :
    (connect ⦃L = arguments⦄ (keywords local_options) (word (str "local")) no_state
      ≡ (ok (2 ∷ []), (opened ⦃L = arguments⦄ no_state tt 3 2).1))
    ↔ ((db : Unit {0}) × (conn : ℕ) × (v : ℕ) × Established ⦃L = arguments⦄
          (keywords local_options)
          (word (str "local"))
          db
          conn
          0
          v
        × (opened ⦃L = arguments⦄ no_state db conn v
            ≡ (ok (2 ∷ []), (opened ⦃L = arguments⦄ no_state tt 3 2).1)))
unfolding read_options
connect-Established_example =
    connect-Established ⦃L = arguments⦄ no_state (keywords local_options) (word (str "local"))
      (2 ∷ []) (opened ⦃L = arguments⦄ no_state tt 3 2).1 refl refl
