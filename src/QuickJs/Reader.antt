-- ===== src/QuickJs/Reader.antt =====
-- src/qjs/Reader.hpp: decoding of QuickJS values, as methods that `rfl::parsing::Parser` calls.
--
-- A method acts on a `Reader`, which has the world and the list `owned_`. All are `noexcept` and end with a
-- result; a callback of the parser is a function that acts on the reader too.
pub mod Holding
pub mod Methods
pub mod Ownership
pub mod Gets
pub mod Arrays
pub mod Objects
use rpcpp.Base.{
  ℕ, zero, suc, ◌+◌, ◌%◌, ◌^◌, ℤ, Text, text, decimal, Bool, true, false, ◌&&◌, ◌||◌, not, Option,
  none, some, List, [], ◌∷◌, ◌++◌, if◌then◌else◌,
}
use rpcpp.Framer.{Bytes}
use rpcpp.Codec.{Result, ok, error}
use rpcpp.QuickJs.{c_str, Engine, World, Ref, string, names, begin, end, fetch, query, free}
use rpcpp.QuickJs.Integers.{IntType, cast}

-- `static_cast<uint32_t>(i)`
abbrev pub index32 : ℕ → ℕ
index32 i = i % 2 ^ 32

module _ (e : Engine) where
  open e use {
    Value, Heap, Atom, Double, is_exception, is_undefined, is_null, is_string, is_bool, is_number,
    is_array, is_object, is_array_buffer, to_bool, get_index, get_named, get_atom, get_exception,
    get_length, own_names, atom_text, to_text, array_buffer, uint8_array, to_float64, to_int64,
    free_text, free_names,
  }

  pub record Reader : Type 0 where
    pub world : World e
    pub owned : List Value

  abbrev pub M : Type 0 → Type 0
  M A = Reader → A × Reader

  abbrev pub pure : {A : Type 0} → A → M A
  pure a s = (a, s)

  infixl 5 ◌>>=◌ ◌>>◌
  abbrev pub ◌>>=◌ : {A B : Type 0} → M A → (A → M B) → M B
  m >>= f = λ s. let (a, s') = m s in f a s'

  abbrev pub ◌>>◌ : {B : Type 0} → M (Unit {0}) → M B → M B
  m >> n = m >>= λ _. n

  abbrev pub lift : {A : Type 0} → (World e → A × World e) → M A
  lift op s = let (a, w) = op s.world in (a, record s { world = w })

  abbrev pub act : (World e → World e) → M (Unit {0})
  act op = lift (λ w. (tt, op w))

  abbrev pub text_ref : Option Text → List (Ref e)
  text_ref none = []
  text_ref (some s) = string s ∷ []

  abbrev pub names_ref : Option (List Atom) → List (Ref e)
  names_ref none = []
  names_ref (some ns) = names ns ∷ []

  -- A query that may give a C string or a table of names, which is then held.
  abbrev pub fetch_text : (Heap → Option Text × Heap) → World e → Option Text × World e
  fetch_text op w = let (t, w') = query e op w in (t, begin e (text_ref t) w')

  abbrev pub fetch_names :
      (Heap → Option (List Atom) × Heap) → World e → Option (List Atom) × World e
  fetch_names op w = let (t, w') = query e op w in (t, begin e (names_ref t) w')

  abbrev pub release_text : Text → World e → World e
  release_text s w = end e (string s ∷ []) (record w { heap = free_text s w.heap })

  abbrev pub release_names : List Atom → World e → World e
  release_names ns w = end e (names ns ∷ []) (record w { heap = free_names ns w.heap })

  -- `track`
  pub track : Value → M Value
  track v s = (v, record s { owned = s.owned ++ v ∷ [] })

  abbrev pub out_of_bounds : ℕ → Text
  out_of_bounds i = text "Index " ++ (decimal (suc i) i ++ text " out of bounds.")

  abbrev pub no_field : Text → Text
  no_field name = text "Object contains no field named '" ++ (name ++ text "'.")

  abbrev pub no_element : ℕ → Text
  no_element i = text "Could not read array element " ++ (decimal (suc i) i ++ text ".")

  abbrev track_ok : Value → M (Result Value)
  track_ok v = do v' ← track v; pure (ok v')

  pub get_field_from_array : ℕ → Value → M (Result Value)
  unfolding track
  get_field_from_array i arr = do
    v ← lift (fetch e (get_index arr (index32 i)))
    if is_exception v || is_undefined v
        then act (free e v) >> pure (error (out_of_bounds i))
        else track_ok v

  pub get_field_from_object : Text → Value → M (Result Value)
  unfolding track
  get_field_from_object name obj = do
    v ← lift (fetch e (get_named obj (c_str name)))
    if is_exception v || is_undefined v
        then act (free e v) >> pure (error (no_field name))
        else track_ok v

  pub is_empty : Value → M Bool
  is_empty v = pure (is_null v || is_undefined v)

  -- An error of the callback is handed on at once.
  abbrev stop_or : {X : Type 0} → (X → M (Option Text × X)) → Option Text × X → M (Option Text × X)
  stop_or rest (some what, x) = pure (some what, x)
  stop_or rest (none, x) = rest x

  -- The loop of `read_array`, with the rounds that are left; the callback has a state of its own.
  pub read_elements :
      {X : Type 0} → (Value → X → M (Option Text × X)) → Value → ℕ → ℕ → X → M (Option Text × X)
  unfolding track
  read_elements read arr zero i x = pure (none, x)
  read_elements read arr (suc rounds) i x = do
    v ← lift (fetch e (get_index arr (index32 i)))
    let rest = read_elements read arr rounds (suc i)
    if is_exception v
        then act (free e v) >> pure (some (no_element i), x)
        else track v >>= (λ v. read v x) >>= stop_or rest

  abbrev elements_or_error :
      {X : Type 0} → (Value → X → M (Option Text × X)) → X → Value → Option ℕ → M (Option Text × X)
  elements_or_error read x arr none = pure (some (text "Could not determine array length."), x)
  elements_or_error read x arr (some n) = read_elements read arr n 0 x

  pub read_array :
      {X : Type 0} → (Value → X → M (Option Text × X)) → X → Value → M (Option Text × X)
  unfolding read_elements
  read_array read x arr = do len ← lift (query e (get_length arr)); elements_or_error read x arr len

  -- `JS_FreeCString`, if there is a string.
  abbrev drop_text : Option Text → M (Unit {0})
  drop_text none = pure tt
  drop_text (some s) = act (release_text s)

  abbrev visit : {X : Type 0} → (Text → Value → X → M X) → Option Text → Value → X → M X
  visit read none v x = act (free e v) >> pure x
  visit read (some name) v x =
      if not (is_exception v) then track v >>= (λ v. read name v x) else (act (free e v) >> pure x)

  -- The body of the loop of `read_object`.
  pub read_property : {X : Type 0} → (Text → Value → X → M X) → Value → Atom → X → M X
  unfolding track
  read_property read obj atom x = do
    name ← lift (fetch_text (atom_text atom))
    v ← lift (fetch e (get_atom obj atom))
    y ← visit read name v x
    drop_text name
    pure y

  pub read_properties : {X : Type 0} → (Text → Value → X → M X) → Value → List Atom → X → M X
  unfolding read_property
  read_properties read obj [] x = pure x
  read_properties read obj (atom ∷ atoms) x =
      read_property read obj atom x >>= read_properties read obj atoms

  abbrev properties_or_error :
      {X : Type 0} → (Text → Value → X → M X) → X → Value → Option (List Atom) → M (Option Text × X)
  properties_or_error read x obj none =
      pure (some (text "Could not enumerate object properties."), x)
  properties_or_error read x obj (some atoms) = do
    y ← read_properties read obj atoms x
    act (release_names atoms)
    pure (none, y)

  pub read_object : {X : Type 0} → (Text → Value → X → M X) → X → Value → M (Option Text × X)
  unfolding read_properties
  read_object read x obj = do
    tab ← lift (fetch_names (own_names obj))
    properties_or_error read x obj tab

  abbrev string_or_error : Option Text → M (Result Text)
  string_or_error none = pure (error (text "Could not cast to string."))
  string_or_error (some out) = do act (release_text out); pure (ok out)

  -- `to_basic_type<std::string>`
  pub to_string : Value → M (Result Text)
  to_string v =
      if not (is_string v)
      then pure (error (text "Could not cast to string."))
      else (lift (fetch_text (to_text v)) >>= string_or_error)

  abbrev no_bytes : Text
  no_bytes = text "Could not cast to bytestring (expected Uint8Array)."

  abbrev bytes_or_error : Option Bytes → Result Bytes
  bytes_or_error none = error no_bytes
  bytes_or_error (some b) = ok b

  -- `JS_FreeValue(ctx_, JS_GetException(ctx_))`, if there are no bytes.
  abbrev clear_exception : Option Bytes → M (Unit {0})
  clear_exception none = do x ← lift (fetch e get_exception); act (free e x)
  clear_exception (some b) = pure tt

  -- `to_basic_type<rfl::Bytestring>`
  pub to_bytestring : Value → M (Result Bytes)
  to_bytestring v =
      if is_array_buffer v
      then (do b ← lift (query e (array_buffer v)); pure (bytes_or_error b))
      else (do b ← lift (query e (uint8_array v)); clear_exception b; pure (bytes_or_error b))

  -- `to_basic_type<bool>`
  pub to_boolean : Value → M (Result Bool)
  to_boolean v =
      pure (if not (is_bool v) then error (text "Could not cast to boolean.") else ok (to_bool v))

  -- `to_basic_type<double>`
  pub to_double : Value → M (Result Double)
  to_double v =
      if not (is_number v)
      then pure (error (text "Could not cast to double."))
      else (do d ← lift (query e (to_float64 v)); pure (ok d))

  -- `to_basic_type` of an integral type
  pub to_integer : IntType → Value → M (Result ℤ)
  to_integer t v =
      if not (is_number v)
      then pure (error (text "Could not cast to integer."))
      else (do n ← lift (query e (to_int64 v)); pure (ok (cast t n)))

  pub to_array : Value → M (Result Value)
  to_array v = pure (if not (is_array v) then error (text "Could not cast to array!") else ok v)

  pub to_object : Value → M (Result Value)
  to_object v =
      pure
        (if not (is_object v) || is_array v then error (text "Could not cast to object!") else ok v)

  pub use_custom_constructor : {A : Type 0} → Value → M (Result A)
  use_custom_constructor v =
      pure (error (text "Custom constructors are not supported by the QuickJS reader."))

  -- `~Reader`
  pub free_all : List Value → World e → World e
  free_all [] w = w
  free_all (v ∷ vs) w = free_all vs (free e v w)

  unfoldable pub destroy : Reader → World e
  unfolding free_all
  destroy s = free_all s.owned s.world

  -- `rpcpp::qjs::read`, with the parser's `read` for the type that is decoded.
  pub read : {A : Type 0} → (Value → M (Result A)) → Value → World e → Result A × World e
  unfolding destroy
  read parse v w = let (r, s) = parse v (record { world = w; owned = [] }) in (r, destroy s)
