-- ===== src/Connection/Given.antt =====
-- The options of `connect`: for each key, the value that the keyword list gives last.
use ecto_libsql.Common.{
  ◌≡◌, refl, sym, ap, ◌∙◌, inl, inr, Option, Option-cases, none, some, List, [], ◌∷◌, ◌++◌, Str,
  str, str_eq, if◌then◌else◌, arith, Map, lookup, insert, lookup-insert,
}
use ecto_libsql.Effect.{Result, ok, err, Result-cases}
use ecto_libsql.Libsql.{Libsql, Error, term}
use ecto_libsql.Connection.{Options, options_onto, read_options, string_option, string_in}

module _ ⦃L : Libsql⦄ where
  open L use {Term}

  -- The list holds these keys and values.
  abbrev pub Pairs : List Term → List (Str × Term) → Type 0
  Pairs [] [] = Unit
  Pairs (t ∷ ts) (p ∷ ps) = (L.decode_pair t ≡ ok p) × Pairs ts ps
  Pairs ts ps = ⊥

  abbrev or_before : Option Term → Option Term → Option Term
  or_before (some t) o = some t
  or_before none o = o

  -- The last value under the key.
  abbrev pub last_given : Str → List (Str × Term) → Option Term
  last_given key [] = none
  last_given key (p ∷ ps) =
      or_before (last_given key ps) (if str_eq (L.debug_atom p.0) key then some p.1 else none)

  abbrev pub string_given : Str → List (Str × Term) → Option Str
  string_given key ps = string_in (last_given key ps)

  -- The options are the last ones given.
  abbrev pub options_given : List (Str × Term) → Options
  options_given ps = record {
    url = string_given (str "uri") ps;
    token = string_given (str "auth_token") ps;
    dbname = string_given (str "database") ps;
    encryption_key = string_given (str "encryption_key") ps;
    remote_encryption_key = string_given (str "remote_encryption_key") ps;
  }

  or_before-insert :
      (key k : Str) (t : Term) (m : Map Term) (o : Option Term)
      → or_before o (lookup key (insert k t m))
        ≡ or_before (or_before o (if str_eq k key then some t else none)) (lookup key m)
  or_before-insert key k t m (some u) = refl
  or_before-insert key k t m none = ground (arith, lookup-insert k key t m)

  onto_step :
      (m : Map Term) (t : Term) (ts : List Term) (p : Str × Term)
      → L.decode_pair t ≡ ok p
      → options_onto m (t ∷ ts) ≡ options_onto (insert (L.debug_atom p.0) p.1 m) ts
  unfolding options_onto
  onto_step m t ts p h = rw h refl

  onto_stop :
      (m : Map Term) (t : Term) (ts : List Term) (e : Str)
      → L.decode_pair t ≡ err e
      → options_onto m (t ∷ ts) ≡ err (term (str "expected keyword tuple: " ++ e))
  unfolding options_onto
  onto_stop m t ts e h = rw h refl

  onto-Pairs :
      (m : Map Term) (ts : List Term) (ps : List (Str × Term))
      → Pairs ts ps
      → (n : Map Term) × (options_onto m ts ≡ ok n)
        × ((key : Str) → lookup key n ≡ or_before (last_given key ps) (lookup key m))
  unfolding options_onto
  onto-Pairs m [] [] h = (m, refl, λ key. refl)
  onto-Pairs m [] (p ∷ ps) h = absurd h
  onto-Pairs m (t ∷ ts) [] h = absurd h
  onto-Pairs m (t ∷ ts) (p ∷ ps) (h, hs) =
      let (n, e, l) = onto-Pairs (insert (L.debug_atom p.0) p.1 m) ts ps hs in
      (
        n,
        onto_step m t ts p h ∙ e,
        λ key. l key ∙ or_before-insert key (L.debug_atom p.0) p.1 m (last_given key ps),
      )

  not_ok : {E A : Type 0} (a : A) (e : E) (r : Result E A) → r ≡ ok a → ¬ (r ≡ err e)
  not_ok a e r p q = cc

  options_onto-Pairs :
      (m n : Map Term) (ts : List Term)
      → options_onto m ts ≡ ok n
      → (ps : List (Str × Term)) × Pairs ts ps
  unfolding options_onto
  options_onto-Pairs m n [] e = ([], tt)
  options_onto-Pairs m n (t ∷ ts) e = elim (Result-cases (L.decode_pair t)) [
    | inl (p, h) ↦
        let (ps, hs) =
          options_onto-Pairs (insert (L.debug_atom p.0) p.1 m) n ts
            (sym (onto_step m t ts p h) ∙ e) in
        (p ∷ ps, (h, hs))
    | inr (x, h) ↦ absurd (not_ok n _ _ e (onto_stop m t ts x h))
  ]

  -- What the options are, by the list.
  pub record Given (opts : Term) (o : Options) : Type 0 where
    pub list : List Term
    pub decoded : L.decode_list opts ≡ ok list
    pub pairs : List (Str × Term)
    pub keyed : Pairs list pairs
    pub last : o ≡ options_given pairs

  abbrev options_in : Map Term → Options
  options_in m = record {
    url = string_option (str "uri") m;
    token = string_option (str "auth_token") m;
    dbname = string_option (str "database") m;
    encryption_key = string_option (str "encryption_key") m;
    remote_encryption_key = string_option (str "remote_encryption_key") m;
  }

  read_found :
      (opts : Term) (list : List Term) (m : Map Term)
      → L.decode_list opts ≡ ok list
      → options_onto [] list ≡ ok m
      → read_options opts ≡ ok (options_in m)
  unfolding read_options
  read_found opts list m h k = rw (h, k) refl

  string_option-given :
      (key : Str) (m : Map Term) (ps : List (Str × Term))
      → lookup key m ≡ or_before (last_given key ps) none
      → string_option key m ≡ string_given key ps
  string_option-given key m ps e = elim (Option-cases (last_given key ps)) [
    | inl n ↦ rw (e, n) refl
    | inr (t, n) ↦ rw (e, n) refl
  ]

  options_in-given :
      (m : Map Term) (ps : List (Str × Term))
      → ((key : Str) → lookup key m ≡ or_before (last_given key ps) none)
      → options_in m ≡ options_given ps
  options_in-given m ps q =
      rw
        (
          string_option-given (str "uri") m ps (q (str "uri")),
          string_option-given (str "auth_token") m ps (q (str "auth_token")),
          string_option-given (str "database") m ps (q (str "database")),
          string_option-given (str "encryption_key") m ps (q (str "encryption_key")),
          string_option-given (str "remote_encryption_key") m ps (q (str "remote_encryption_key")),
        )
        refl

  read-Pairs :
      (opts : Term) (list : List Term) (ps : List (Str × Term))
      → L.decode_list opts ≡ ok list
      → Pairs list ps
      → read_options opts ≡ ok (options_given ps)
  unfolding lookup
  read-Pairs opts list ps h hs =
      let (m, k, q) = onto-Pairs [] list ps hs in
      read_found opts list m h k ∙ ap ok (options_in-given m ps q)

  unread :
      (opts : Term) (e : Str)
      → L.decode_list opts ≡ err e
      → read_options opts ≡ err (term (str "decode failed: " ++ e))
  unread opts e h = unfold read_options in rw h refl

  unread_pair :
      (opts : Term) (list : List Term) (e : Error)
      → L.decode_list opts ≡ ok list
      → options_onto [] list ≡ err e
      → read_options opts ≡ err e
  unread_pair opts list e h k = unfold read_options in rw (h, k) refl

  same_ok : {E A : Type 0} (a b : A) (r : Result E A) → r ≡ ok a → r ≡ ok b → a ≡ b
  same_ok a b r p q = cc

  pub read_options-Given : (opts : Term) (o : Options) → read_options opts ≡ ok o → Given opts o
  read_options-Given opts o e = elim (Result-cases (L.decode_list opts)) [
    | inr (x, h) ↦ absurd (not_ok o _ _ e (unread opts x h))
    | inl (list, h) ↦ elim (Result-cases (options_onto [] list)) [
      | inr (x, k) ↦ absurd (not_ok o x _ e (unread_pair opts list x h k))
      | inl (m, k) ↦
          let (ps, hs) = options_onto-Pairs [] m list k in
          record {
            list = list;
            decoded = h;
            pairs = ps;
            keyed = hs;
            last = same_ok o (options_given ps) _ e (read-Pairs opts list ps h hs);
          }
    ]
  ]

  pub Given-read_options : (opts : Term) (o : Options) → Given opts o → read_options opts ≡ ok o
  Given-read_options opts o g =
      read-Pairs opts g.list g.pairs g.decoded g.keyed ∙ ap ok (sym g.last)
