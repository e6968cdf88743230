-- ===== src/Values/Typed.antt =====
-- The SQLite value that each kind of Elixir term is bound as.
use mathlib.Core.List.{map}
use ecto_libsql.Common.{
  ◌≡◌, refl, ap, ◌∙◌, Bool, true, false, Bool-cases, Option-cases, inl, inr, Option, none, some, ℕ,
  List, [], ◌∷◌, ◌++◌, Str, str, str_eq, if◌then◌else◌,
}
use ecto_libsql.Effect.{Result, ok, err, map_err}
use ecto_libsql.Libsql.{Libsql, Error, term, Value, null, integer, real, text, blob, ℤ, pos}
use ecto_libsql.Values.{
  decode_term_to_value, decode_args, decode_all, push_value, decode_scalar_value,
  decode_tuple_value, decode_binary_value,
}

-- The kinds of terms that are handed over: integers are those of 64 bits, and a tuple is one of an
-- atom and a list of bytes.
pub data Elixir (Real : Type 0) : Type 0 where
  atom : Str → Elixir Real
  integer_of : ℤ → Elixir Real
  float : Real → Elixir Real
  binary : List ℕ → Elixir Real
  byte_list : List ℕ → Elixir Real
  tuple : Str → List ℕ → Elixir Real

module _ ⦃L : Libsql⦄ where
  open L use {Real, Term}

  abbrev pub as_atom : Elixir Real → Option Str
  as_atom (atom a) = some a
  as_atom _ = none

  abbrev pub as_integer : Elixir Real → Option ℤ
  as_integer (integer_of n) = some n
  as_integer _ = none

  abbrev pub as_float : Elixir Real → Option Real
  as_float (float x) = some x
  as_float _ = none

  abbrev pub as_bool : Elixir Real → Option Bool
  as_bool (atom a) =
      if str_eq a (str "true")
      then some true
      else if str_eq a (str "false")
      then some false
      else none
  as_bool _ = none

  abbrev pub as_text : (List ℕ → Option Str) → Elixir Real → Option Str
  as_text from_utf8 (binary b) = from_utf8 b
  as_text from_utf8 _ = none

  abbrev pub as_tuple : Elixir Real → Option (Str × List ℕ)
  as_tuple (tuple a b) = some (a, b)
  as_tuple _ = none

  abbrev pub as_binary : Elixir Real → Option (List ℕ)
  as_binary (binary b) = some b
  as_binary _ = none

  abbrev pub as_byte_list : Elixir Real → Option (List ℕ)
  as_byte_list (byte_list b) = some b
  as_byte_list _ = none

  -- What rustler documents of its decoders: each takes the terms of its kind and no others, a
  -- string being a binary in UTF-8.
  pub record Decoders (from_utf8 : List ℕ → Option Str) (handed : Elixir Real → Term) : Type 0 where
    pub atoms : (t : Elixir Real) → L.decode_atom (handed t) ≡ as_atom t
    pub integers : (t : Elixir Real) → L.decode_i64 (handed t) ≡ as_integer t
    pub floats : (t : Elixir Real) → L.decode_f64 (handed t) ≡ as_float t
    pub bools : (t : Elixir Real) → L.decode_bool (handed t) ≡ as_bool t
    pub strings : (t : Elixir Real) → L.decode_string (handed t) ≡ as_text from_utf8 t
    pub tuples : (t : Elixir Real) → L.decode_atom_bytes (handed t) ≡ as_tuple t
    pub binaries : (t : Elixir Real) → L.decode_binary (handed t) ≡ as_binary t
    pub byte_lists : (t : Elixir Real) → L.decode_bytes (handed t) ≡ as_byte_list t

  abbrev unsupported : (Elixir Real → Term) → Elixir Real → Result Str (Value Real)
  unsupported handed t = err (str "Unsupported argument type: " ++ L.debug_term (handed t))

  abbrev text_or_blob : List ℕ → Option Str → Value Real
  text_or_blob b none = blob b
  text_or_blob b (some s) = text s

  -- The value of a term, or the error.
  abbrev pub value_of :
      (List ℕ → Option Str) → (Elixir Real → Term) → Elixir Real → Result Str (Value Real)
  value_of from_utf8 handed (atom a) =
      if str_eq a (str "nil")
      then ok null
      else if str_eq a (str "true")
      then ok (integer (pos 1))
      else if str_eq a (str "false")
      then ok (integer (pos 0))
      else unsupported handed (atom a)
  value_of from_utf8 handed (integer_of n) = ok (integer n)
  value_of from_utf8 handed (float x) = ok (real x)
  value_of from_utf8 handed (binary b) = ok (text_or_blob b (from_utf8 b))
  value_of from_utf8 handed (byte_list b) = ok (blob b)
  value_of from_utf8 handed (tuple a b) =
      if str_eq a (str "blob")
      then ok (blob b)
      else err (str "Unsupported atom tuple: " ++ L.debug_atom a)

  abbrev in_front :
      Result Str (Value Real) → Result Error (List (Value Real)) → Result Error (List (Value Real))
  in_front (err e) rest = err (term e)
  in_front (ok v) (err e) = err e
  in_front (ok v) (ok vs) = ok (v ∷ vs)

  -- All values in order, or the first error.
  abbrev pub values_of :
      (List ℕ → Option Str)
      → (Elixir Real → Term)
      → List (Elixir Real)
      → Result Error (List (Value Real))
  values_of from_utf8 handed [] = ok []
  values_of from_utf8 handed (t ∷ ts) =
      in_front (value_of from_utf8 handed t) (values_of from_utf8 handed ts)

  in_front-push_value :
      (r : Result Str (Value Real)) (rest : Result Str (List (Value Real)))
      → map_err term (push_value r rest) ≡ in_front r (map_err term rest)
  unfolding push_value
  in_front-push_value (err e) rest = refl
  in_front-push_value (ok v) (err e) = refl
  in_front-push_value (ok v) (ok vs) = refl

  module _ (from_utf8 : List ℕ → Option Str) (handed : Elixir Real → Term)
      (d : Decoders from_utf8 handed) where
    -- A term that is no atom, integer, float, Boolean or string is left to the last decoders.
    other-decode_tuple_value :
        (t : Elixir Real)
        → as_atom t ≡ none
        → as_integer t ≡ none
        → as_float t ≡ none
        → as_bool t ≡ none
        → as_text from_utf8 t ≡ none
        → decode_term_to_value (handed t) ≡ decode_tuple_value (handed t)
    unfolding decode_term_to_value
    other-decode_tuple_value t a n x b s =
        rw
          (
            d.atoms t,
            a,
            decode_scalar_value,
            d.integers t,
            n,
            d.floats t,
            x,
            d.bools t,
            b,
            d.strings t,
            s,
          )
          refl

    handed_atom :
        (a : Str) → decode_term_to_value (handed (atom a)) ≡ value_of from_utf8 handed (atom a)
    unfolding decode_term_to_value
    handed_atom a = elim (Bool-cases (str_eq a (str "nil"))) [
      | inl n ↦ rw (d.atoms (atom a), n) refl
      | inr n ↦ elim (Bool-cases (str_eq a (str "true"))) [
        | inl y ↦
            rw
              (
                d.atoms (atom a),
                n,
                decode_scalar_value,
                d.integers (atom a),
                d.floats (atom a),
                d.bools (atom a),
                y,
              )
              refl
        | inr y ↦ elim (Bool-cases (str_eq a (str "false"))) [
          | inl f ↦
              rw
                (
                  d.atoms (atom a),
                  n,
                  decode_scalar_value,
                  d.integers (atom a),
                  d.floats (atom a),
                  d.bools (atom a),
                  y,
                  f,
                )
                refl
          | inr f ↦
              rw
                (
                  d.atoms (atom a),
                  n,
                  decode_scalar_value,
                  d.integers (atom a),
                  d.floats (atom a),
                  d.bools (atom a),
                  y,
                  f,
                  d.strings (atom a),
                  decode_tuple_value,
                  d.tuples (atom a),
                  decode_binary_value,
                  d.binaries (atom a),
                  d.byte_lists (atom a),
                )
                refl
        ]
      ]
    ]

    pub decode_term_to_value-typed :
        (t : Elixir Real) → decode_term_to_value (handed t) ≡ value_of from_utf8 handed t
    unfolding decode_term_to_value
    decode_term_to_value-typed (atom a) = handed_atom a
    decode_term_to_value-typed (integer_of n) =
        rw (d.atoms (integer_of n), decode_scalar_value, d.integers (integer_of n)) refl
    decode_term_to_value-typed (float x) =
        rw (d.atoms (float x), decode_scalar_value, d.integers (float x), d.floats (float x)) refl
    decode_term_to_value-typed (binary b) = elim (Option-cases (from_utf8 b)) [
      | inr (s, u) ↦
          rw
            (
              d.atoms (binary b),
              decode_scalar_value,
              d.integers (binary b),
              d.floats (binary b),
              d.bools (binary b),
              d.strings (binary b),
              u,
            )
            refl
      | inl u ↦
          rw
            (
              d.atoms (binary b),
              decode_scalar_value,
              d.integers (binary b),
              d.floats (binary b),
              d.bools (binary b),
              d.strings (binary b),
              u,
              decode_tuple_value,
              d.tuples (binary b),
              decode_binary_value,
              d.binaries (binary b),
            )
            refl
    ]
    decode_term_to_value-typed (byte_list b) =
        other-decode_tuple_value (byte_list b) refl refl refl refl refl
        ∙ rw
            (
              decode_tuple_value,
              d.tuples (byte_list b),
              decode_binary_value,
              d.binaries (byte_list b),
              d.byte_lists (byte_list b),
            )
            refl
    decode_term_to_value-typed (tuple a b) =
        other-decode_tuple_value (tuple a b) refl refl refl refl refl
        ∙ rw (decode_tuple_value, d.tuples (tuple a b)) refl

    -- Where rustler's decoders take the terms of their kinds: `nil` is bound as NULL, `true` and
    -- `false` as 1 and 0, integers and floats as they are, a binary as text if it is UTF-8 and as a
    -- blob if not, a list of bytes and a tuple of `blob` and a list of bytes as a blob. The arguments
    -- of a statement are all bound, in their order, or none is: the first other atom, or tuple of
    -- another atom, gives the error.
    pub decode_args-typed :
        (ts : List (Elixir Real)) → decode_args (map handed ts) ≡ values_of from_utf8 handed ts
    unfolding decode_args decode_all
    decode_args-typed [] = refl
    decode_args-typed (t ∷ ts) = rw (decode_term_to_value-typed t) (
        in_front-push_value (value_of from_utf8 handed t) (decode_all (map handed ts))
        ∙ ap (in_front (value_of from_utf8 handed t)) (decode_args-typed ts))
