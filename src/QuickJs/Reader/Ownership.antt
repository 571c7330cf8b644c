-- ===== src/QuickJs/Reader/Ownership.antt =====
-- Who holds the references of src/qjs/Reader.hpp, from the parser's calls to the destructor.
use mathlib.Core.List.{append_assoc}
use rpcpp.Base.{tally, ℕ, ◌+◌, ◌≡◌, ap, ◌∙◌, ℤ, Text, Bool, Option, List, [], ◌∷◌, ◌++◌}
use rpcpp.Framer.{Bytes}
use rpcpp.Codec.{Result}
use rpcpp.QuickJs.{Engine, World, Ref, refs_of, free, Holds, free-Holds}
use rpcpp.QuickJs.Integers.{IntType}
use rpcpp.QuickJs.Reader.{
  Reader, M, pure, ◌>>=◌, get_field_from_array, get_field_from_object, is_empty, read_array,
  read_object, to_array, to_object, use_custom_constructor, free_all, destroy, read,
}
use rpcpp.QuickJs.Reader.{to_string, to_bytestring, to_boolean, to_double, to_integer}
use rpcpp.QuickJs.Reader.Holding.{refs_all, Keeps, >>=-Spec, pure-Keeps}
use rpcpp.QuickJs.Reader.Methods.{
  get_field_from_array-Keeps, get_field_from_object-Keeps, read_array-Keeps, read_object-Keeps,
  to_string-Keeps, to_bytestring-Keeps, to_double-Keeps, to_integer-Keeps,
}

module _ (e : Engine) where
  open e use {Value, Heap, Atom, is_exception}

  -- What a parser is: a program whose steps are the reader's methods, its callbacks included.
  pub data Uses : (A : Type 0) → M e A → Type 1 where
    returns : (A : Type 0) (a : A) → Uses A (pure e a)
    bind :
        (A B : Type 0) (m : M e A) (f : A → M e B)
        → Uses A m
        → ((a : A) → Uses B (f a))
        → Uses B (◌>>=◌ e m f)
    field_from_array : (i : ℕ) (arr : Value) → Uses (Result Value) (get_field_from_array e i arr)
    field_from_object :
        (name : Text) (obj : Value) → Uses (Result Value) (get_field_from_object e name obj)
    empty : (v : Value) → Uses Bool (is_empty e v)
    array :
        (X : Type 0) (step : Value → X → M e (Option Text × X)) (x : X) (arr : Value)
        → ((v : Value) (y : X) → Uses (Option Text × X) (step v y))
        → Uses (Option Text × X) (read_array e step x arr)
    object :
        (X : Type 0) (step : Text → Value → X → M e X) (x : X) (obj : Value)
        → ((t : Text) (v : Value) (y : X) → Uses X (step t v y))
        → Uses (Option Text × X) (read_object e step x obj)
    as_string : (v : Value) → Uses (Result Text) (to_string e v)
    as_bytestring : (v : Value) → Uses (Result Bytes) (to_bytestring e v)
    as_boolean : (v : Value) → Uses (Result Bool) (to_boolean e v)
    as_double : (v : Value) → Uses (Result e.Double) (to_double e v)
    as_integer : (t : IntType) (v : Value) → Uses (Result ℤ) (to_integer e t v)
    as_array : (v : Value) → Uses (Result Value) (to_array e v)
    as_object : (v : Value) → Uses (Result Value) (to_object e v)
    custom : (A : Type 0) (v : Value) → Uses (Result A) (use_custom_constructor e v)

  pub Uses-Keeps : {A : Type 0} {m : M e A} → Uses A m → Keeps e m
  unfolding is_empty to_boolean to_array to_object use_custom_constructor
  Uses-Keeps (returns A a) = pure-Keeps e a
  Uses-Keeps (bind A B m f u next) = >>=-Spec e (Uses-Keeps u) λ a. Uses-Keeps (next a)
  Uses-Keeps (field_from_array i arr) = get_field_from_array-Keeps e i arr
  Uses-Keeps (field_from_object name obj) = get_field_from_object-Keeps e name obj
  Uses-Keeps (empty v) = pure-Keeps e _
  Uses-Keeps (array X step x arr u) = read_array-Keeps e step x arr λ v y. Uses-Keeps (u v y)
  Uses-Keeps (object X step x obj u) = read_object-Keeps e step x obj λ t v y. Uses-Keeps (u t v y)
  Uses-Keeps (as_string v) = to_string-Keeps e v
  Uses-Keeps (as_bytestring v) = to_bytestring-Keeps e v
  Uses-Keeps (as_boolean v) = pure-Keeps e _
  Uses-Keeps (as_double v) = to_double-Keeps e v
  Uses-Keeps (as_integer t v) = to_integer-Keeps e t v
  Uses-Keeps (as_array v) = pure-Keeps e _
  Uses-Keeps (as_object v) = pure-Keeps e _
  Uses-Keeps (custom A v) = pure-Keeps e _

  free_all-Holds :
      (vs : List Value) (held : List (Ref e)) (w : World e)
      → Holds e (refs_all e vs ++ held) w
      → Holds e held (free_all e vs w)
  unfolding free_all
  free_all-Holds [] held w h = h
  free_all-Holds (v ∷ vs) held w h = free_all-Holds vs held (free e v w) (
      free-Holds e v (refs_all e vs ++ held) w (λ p.
        h p
        ∙ ap (λ rs. tally p rs + tally p w.ended)
            (append_assoc (refs_of e v) (refs_all e vs) held)))

  -- While a parser runs, what is held beside the references held before is exactly what the reader tracks,
  -- so no value that the parser was given has been freed; nothing is taken off the list of tracked values.
  pub parser-Holds :
      {A : Type 0} (parse : M e A) (held : List (Ref e)) (s : Reader e)
      → Uses A parse
      → Holds e (refs_all e s.owned ++ held) s.world
      → Holds e (refs_all e (parse s).1.owned ++ held) (parse s).1.world
        × ((more : List Value) × ((parse s).1.owned ≡ s.owned ++ more))
  parser-Holds parse held s uses h =
      let keeps = Uses-Keeps uses in (keeps.balance held s h, keeps.grows s)

  -- `qjs::read`, for any parser made of the reader's methods and however it ends: when it is over,
  -- exactly the references that were held before are held. Every reference that the engine gave to
  -- the reader was given up once, and no other; the value that was read stays the caller's.
  pub read-Holds :
      {A : Type 0} (parse : Value → M e (Result A)) (v : Value) (held : List (Ref e)) (w : World e)
      → ((x : Value) → Uses (Result A) (parse x))
      → Holds e held w
      → Holds e held (read e parse v w).1
  unfolding read destroy
  read-Holds parse v held w uses h =
      let s = (parse v (record { world = w; owned = [] })).1 in
      free_all-Holds s.owned held s.world
        ((Uses-Keeps (uses v)).balance held (record { world = w; owned = [] }) h)
