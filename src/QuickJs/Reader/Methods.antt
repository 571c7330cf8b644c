-- ===== src/QuickJs/Reader/Methods.antt =====
-- Each method of src/qjs/Reader.hpp keeps the references that it was given, and tracks or frees its own.
use rpcpp.Base.{ℕ, zero, suc, Text, text, ◌||◌, not, Option, none, some, List, [], ◌∷◌}
use rpcpp.Framer.{Bytes}
use rpcpp.Codec.{ok, error}
use rpcpp.QuickJs.{c_str, Engine, names, refs_of, free}
use rpcpp.QuickJs.Integers.{IntType, cast}
use rpcpp.QuickJs.Reader.{
  out_of_bounds, no_field, no_element, M, pure, ◌>>◌, act, get_field_from_array,
  get_field_from_object, read_elements, read_array, read_property, read_properties, read_object,
  index32, stop_or, elements_or_error, properties_or_error, visit, drop_text, text_ref, names_ref,
  track_ok,
}
use rpcpp.QuickJs.Reader.{
  to_string, to_bytestring, to_double, to_integer, string_or_error, clear_exception, bytes_or_error,
}
use rpcpp.QuickJs.Reader.Holding.{
  Spec, Keeps, >>=-Spec, frame-Spec, if-Spec, fetch-Spec, query-Spec, free-Spec, fetch_text-Spec,
  fetch_names-Spec, release_text-Spec, release_names-Spec, track-Spec, pure-Keeps,
}

module _ (e : Engine) where
  open e use {Value, Heap, Atom, is_exception}

  -- A value that is not handed on is freed at once; one that is handed on is tracked.
  refuse-Spec :
      {A : Type 0} (v : Value) (a : A)
      → Spec e (refs_of e v) (◌>>◌ e (act e (free e v)) (pure e a)) (λ a. [])
  refuse-Spec v a = >>=-Spec e (free-Spec e v) λ u. pure-Keeps e a

  track_ok-Spec : (v : Value) → Spec e (refs_of e v) (track_ok e v) (λ a. [])
  track_ok-Spec v = >>=-Spec e (track-Spec e v) λ v'. pure-Keeps e (ok v')

  pub get_field_from_array-Keeps : (i : ℕ) (arr : Value) → Keeps e (get_field_from_array e i arr)
  unfolding get_field_from_array
  get_field_from_array-Keeps i arr = >>=-Spec e (fetch-Spec e (e.get_index arr (index32 i))) λ v.
      if-Spec e (is_exception v || e.is_undefined v) (refuse-Spec v (error (out_of_bounds e i)))
        (track_ok-Spec v)

  pub get_field_from_object-Keeps :
      (name : Text) (obj : Value) → Keeps e (get_field_from_object e name obj)
  unfolding get_field_from_object
  get_field_from_object-Keeps name obj =
      >>=-Spec e (fetch-Spec e (e.get_named obj (c_str name))) λ v.
        if-Spec e (is_exception v || e.is_undefined v) (refuse-Spec v (error (no_field e name)))
          (track_ok-Spec v)

  stop_or-Keeps :
      {X : Type 0} (rest : X → M e (Option Text × X))
      → ((x : X) → Keeps e (rest x))
      → (q : Option Text × X) → Keeps e (stop_or e rest q)
  stop_or-Keeps rest keeps (none, x) = keeps x
  stop_or-Keeps rest keeps (some what, x) = pure-Keeps e (some what, x)

  read_elements-Keeps :
      {X : Type 0} (step : Value → X → M e (Option Text × X)) (arr : Value) (rounds i : ℕ) (x : X)
      → ((v : Value) (y : X) → Keeps e (step v y))
      → Keeps e (read_elements e step arr rounds i x)
  unfolding read_elements
  read_elements-Keeps step arr zero i x keeps = pure-Keeps e (none, x)
  read_elements-Keeps step arr (suc rounds) i x keeps =
      >>=-Spec e (fetch-Spec e (e.get_index arr (index32 i))) λ v.
        if-Spec e (is_exception v) (refuse-Spec v (some (no_element e i), x)) (
          >>=-Spec e (>>=-Spec e (track-Spec e v) λ v'. keeps v' x) (
            stop_or-Keeps (read_elements e step arr rounds (suc i))
              λ y. read_elements-Keeps step arr rounds (suc i) y keeps))

  pub read_array-Keeps :
      {X : Type 0} (step : Value → X → M e (Option Text × X)) (x : X) (arr : Value)
      → ((v : Value) (y : X) → Keeps e (step v y))
      → Keeps e (read_array e step x arr)
  unfolding read_array
  read_array-Keeps {X} step x arr keeps = >>=-Spec e (query-Spec e (e.get_length arr)) elements
    where
      elements : (n : Option ℕ) → Keeps e (elements_or_error e step x arr n)
      elements none = pure-Keeps e (some (text "Could not determine array length."), x)
      elements (some n) = read_elements-Keeps step arr n 0 x keeps

  visit-Spec :
      {X : Type 0} (step : Text → Value → X → M e X) (name : Option Text) (v : Value) (x : X)
      → ((t : Text) (v : Value) (y : X) → Keeps e (step t v y))
      → Spec e (refs_of e v) (visit e step name v x) (λ u. [])
  visit-Spec step none v x keeps = refuse-Spec v x
  visit-Spec step (some name) v x keeps =
      if-Spec e (not (is_exception v)) (>>=-Spec e (track-Spec e v) λ v'. keeps name v' x)
        (refuse-Spec v x)

  drop_text-Spec : (name : Option Text) → Spec e (text_ref e name) (drop_text e name) (λ u. [])
  drop_text-Spec none = pure-Keeps e tt
  drop_text-Spec (some s) = release_text-Spec e s

  read_property-Keeps :
      {X : Type 0} (step : Text → Value → X → M e X) (obj : Value) (atom : Atom) (x : X)
      → ((t : Text) (v : Value) (y : X) → Keeps e (step t v y))
      → Keeps e (read_property e step obj atom x)
  unfolding read_property
  read_property-Keeps step obj atom x keeps =
      >>=-Spec e (fetch_text-Spec e (e.atom_text atom)) λ name.
        >>=-Spec e (frame-Spec e (text_ref e name) (fetch-Spec e (e.get_atom obj atom))) λ v.
          >>=-Spec e (frame-Spec e (text_ref e name) (visit-Spec step name v x keeps))
            λ y. >>=-Spec e (drop_text-Spec name) λ u. pure-Keeps e y

  read_properties-Keeps :
      {X : Type 0} (step : Text → Value → X → M e X) (obj : Value) (atoms : List Atom) (x : X)
      → ((t : Text) (v : Value) (y : X) → Keeps e (step t v y))
      → Keeps e (read_properties e step obj atoms x)
  unfolding read_properties
  read_properties-Keeps step obj [] x keeps = pure-Keeps e x
  read_properties-Keeps step obj (atom ∷ atoms) x keeps =
      >>=-Spec e (read_property-Keeps step obj atom x keeps)
        λ y. read_properties-Keeps step obj atoms y keeps

  pub read_object-Keeps :
      {X : Type 0} (step : Text → Value → X → M e X) (x : X) (obj : Value)
      → ((t : Text) (v : Value) (y : X) → Keeps e (step t v y))
      → Keeps e (read_object e step x obj)
  unfolding read_object
  read_object-Keeps {X} step x obj keeps =
      >>=-Spec e (fetch_names-Spec e (e.own_names obj)) properties
    where
      properties :
          (tab : Option (List Atom))
          → Spec e (names_ref e tab) (properties_or_error e step x obj tab) (λ a. [])
      properties none = pure-Keeps e (some (text "Could not enumerate object properties."), x)
      properties (some atoms) =
          >>=-Spec e
            (frame-Spec e (names atoms ∷ []) (read_properties-Keeps step obj atoms x keeps))
            λ y. >>=-Spec e (release_names-Spec e atoms) λ u'. pure-Keeps e (none, y)

  pub to_string-Keeps : (v : Value) → Keeps e (to_string e v)
  unfolding to_string
  to_string-Keeps v =
      if-Spec e (not (e.is_string v)) (pure-Keeps e (error (text "Could not cast to string.")))
        (>>=-Spec e (fetch_text-Spec e (e.to_text v)) texts)
    where
      texts : (t : Option Text) → Spec e (text_ref e t) (string_or_error e t) (λ a. [])
      texts none = pure-Keeps e (error (text "Could not cast to string."))
      texts (some out) = >>=-Spec e (release_text-Spec e out) λ u. pure-Keeps e (ok out)

  clear_exception-Keeps : (b : Option Bytes) → Keeps e (clear_exception e b)
  clear_exception-Keeps none = >>=-Spec e (fetch-Spec e e.get_exception) (free-Spec e)
  clear_exception-Keeps (some b) = pure-Keeps e tt

  pub to_bytestring-Keeps : (v : Value) → Keeps e (to_bytestring e v)
  unfolding to_bytestring
  to_bytestring-Keeps v =
      if-Spec e (e.is_array_buffer v)
        (>>=-Spec e (query-Spec e (e.array_buffer v)) λ b. pure-Keeps e (bytes_or_error e b))
        (>>=-Spec e (query-Spec e (e.uint8_array v))
          λ b. >>=-Spec e (clear_exception-Keeps b) λ u. pure-Keeps e (bytes_or_error e b))

  pub to_double-Keeps : (v : Value) → Keeps e (to_double e v)
  unfolding to_double
  to_double-Keeps v =
      if-Spec e (not (e.is_number v)) (pure-Keeps e (error (text "Could not cast to double.")))
        (>>=-Spec e (query-Spec e (e.to_float64 v)) λ d. pure-Keeps e (ok d))

  pub to_integer-Keeps : (t : IntType) (v : Value) → Keeps e (to_integer e t v)
  unfolding to_integer
  to_integer-Keeps t v =
      if-Spec e (not (e.is_number v)) (pure-Keeps e (error (text "Could not cast to integer.")))
        (>>=-Spec e (query-Spec e (e.to_int64 v)) λ n. pure-Keeps e (ok (cast t n)))
