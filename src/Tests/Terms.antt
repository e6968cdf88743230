-- ===== src/Tests/Terms.antt =====
-- Arguments of several kinds.
use mathlib.Core.List.{map}
use ecto_libsql.Common.{
  ◌≡◌, refl, Option, none, some, List, [], ◌∷◌, Str, str, str_eq, ℕ, ltb, if◌then◌else◌,
}
use ecto_libsql.Effect.{ok, err}
use ecto_libsql.Libsql.{Libsql, null, integer, text, blob, pos}
use ecto_libsql.Values.{decode_args}
use ecto_libsql.Values.Typed.{
  Elixir, atom, integer_of, binary, tuple, as_atom, as_integer, as_float, as_bool, as_text,
  as_tuple, as_binary, as_byte_list, Decoders, decode_args-typed,
}
use ecto_libsql.Tests.{demo}

-- Bytes in ASCII are their own code points; no other bytes are handed over here.
abbrev some_text : List ℕ → Option Str
some_text [] = some []
some_text (c ∷ cs) = if ltb c 0x80 then some (c ∷ cs) else none

abbrev terms : Libsql
terms = record demo {
  Term = Elixir (Unit {0});
  decode_atom = as_atom ⦃L = demo⦄;
  decode_i64 = as_integer ⦃L = demo⦄;
  decode_f64 = as_float ⦃L = demo⦄;
  decode_bool = as_bool ⦃L = demo⦄;
  decode_string = as_text ⦃L = demo⦄ some_text;
  decode_atom_bytes = as_tuple ⦃L = demo⦄;
  decode_binary = as_binary ⦃L = demo⦄;
  decode_bytes = as_byte_list ⦃L = demo⦄;
  decode_statement = λ t. err [];
  debug_term = λ t. [];
  decode_list = λ t. err [];
  decode_pair = λ t. err [];
}

abbrev as_it_is : Elixir (Unit {0}) → Elixir (Unit {0})
as_it_is t = t

terms-Decoders : Decoders ⦃L = terms⦄ some_text as_it_is
terms-Decoders = record {
  atoms = λ t. refl;
  integers = λ t. refl;
  floats = λ t. refl;
  bools = λ t. refl;
  strings = λ t. refl;
  tuples = λ t. refl;
  binaries = λ t. refl;
  byte_lists = λ t. refl;
}

abbrev given : List (Elixir (Unit {0}))
given =
    atom (str "true")
    ∷ integer_of (pos 7)
    ∷ binary (b'x' ∷ [])
    ∷ binary (0xff ∷ [])
    ∷ tuple (str "blob") (1 ∷ 2 ∷ [])
    ∷ atom (str "nil")
    ∷ []

decode_args-typed_example :
    decode_args ⦃L = terms⦄ (map as_it_is given)
    ≡ ok (
        integer (pos 1)
        ∷ integer (pos 7)
        ∷ text (b'x' ∷ [])
        ∷ blob (0xff ∷ [])
        ∷ blob (1 ∷ 2 ∷ [])
        ∷ null
        ∷ [])
unfolding str str_eq
decode_args-typed_example = decode_args-typed ⦃L = terms⦄ some_text as_it_is terms-Decoders given
