-- ===== src/QuickJs/Writer.antt =====
-- src/qjs/Writer.hpp: building of QuickJS values, as methods that `rfl::parsing::Parser` calls, and
-- `rpcpp::qjs::write`.
--
-- A method acts on a `Writer`, which has the world and `root_`; `error` is a `std::runtime_error` that is
-- thrown, with its text. The parser holds an `OutputArrayType` by reference; a method that changes it
-- returns the changed one.
pub mod Attaching
pub mod Ownership
pub mod Runs
pub mod Setting
pub mod Adding
pub mod Roots
use rpcpp.Base.{
  ℕ, ◌+◌, ◌%◌, ◌^◌, ℤ, Text, text, Bool, true, false, List, [], ◌∷◌, ◌++◌, if◌then◌else◌,
}
use rpcpp.Framer.{Bytes}
use rpcpp.Codec.{Result, ok, error}
use rpcpp.QuickJs.{c_str, Engine, World, fetch, give}
use rpcpp.QuickJs.Integers.{IntType, int64, cast}

abbrev pub no_append : Text
no_append = text "Could not append value to QuickJS array."

abbrev pub no_set : Text → Text
no_set name = text "Could not set field '" ++ (name ++ text "' on QuickJS object.")

module _ (e : Engine) where
  open e use {
    Value, Heap, Double, null, undefined, new_array, new_object, new_text, new_bytes, new_bool,
    new_float64, new_int64, set_index, set_named,
  }

  -- The types of `from_basic_type`.
  pub data Basic : Type 0 where
    string : Text → Basic
    bytes : Bytes → Basic
    boolean : Bool → Basic
    floating : Double → Basic
    integral : IntType → ℤ → Basic

  pub from_basic_type : Basic → Heap → Value × Heap
  from_basic_type (string s) = new_text s
  from_basic_type (bytes b) = new_bytes b
  from_basic_type (boolean b) = new_bool b
  from_basic_type (floating d) = new_float64 d
  from_basic_type (integral t n) = new_int64 (cast int64 n)

  pub record Array : Type 0 where
    pub val : Value
    pub length : ℕ

  pub record Writer : Type 0 where
    pub world : World e
    pub root : Value

  abbrev pub M : Type 0 → Type 0
  M A = Writer → Result A × Writer

  abbrev pub pure : {A : Type 0} → A → M A
  pure a s = (ok a, s)

  abbrev pub throw : {A : Type 0} → Text → M A
  throw what s = (error what, s)

  abbrev pub and_then : {A B : Type 0} → Result A → (A → M B) → M B
  and_then (ok a) f = f a
  and_then (error what) f = throw what

  infixl 5 ◌>>=◌ ◌>>◌
  abbrev pub ◌>>=◌ : {A B : Type 0} → M A → (A → M B) → M B
  m >>= f = λ s. let (r, s') = m s in and_then r f s'

  abbrev pub ◌>>◌ : {B : Type 0} → M (Unit {0}) → M B → M B
  m >> n = m >>= λ _. n

  abbrev pub lift : {A : Type 0} → (World e → A × World e) → M A
  lift op s = let (a, w) = op s.world in (ok a, record s { world = w })

  abbrev pub set_root : Value → M (Unit {0})
  set_root v s = (ok tt, record s { root = v })

  -- A new value that becomes the root.
  abbrev as_root : (Heap → Value × Heap) → M Value
  as_root op = do v ← lift (fetch e op); set_root v; pure v

  pub array_as_root : M Array
  array_as_root = do v ← as_root new_array; pure (record { val = v; length = 0 })

  pub object_as_root : M Value
  object_as_root = as_root new_object

  pub null_as_root : M Value
  null_as_root = do set_root null; pure null

  unfoldable pub value_as_root : Basic → M Value
  unfolding from_basic_type
  value_as_root b = as_root (from_basic_type b)

  abbrev throw_unless : {A : Type 0} → Bool → Text → A → M A
  throw_unless true what a = pure a
  throw_unless false what a = throw what

  -- `++_parent->length_`, of a `uint32_t`
  abbrev pub longer : Array → Array
  longer parent = record parent { length = (parent.length + 1) % 2 ^ 32 }

  pub set_in_array : Array → Value → M Array
  set_in_array parent child = do
    done ← lift (give e child (set_index parent.val parent.length child))
    throw_unless done no_append (longer parent)

  pub set_in_object : Value → Text → Value → M (Unit {0})
  set_in_object parent name child = do
    done ← lift (give e child (set_named parent (c_str name) child))
    throw_unless done (no_set name) tt

  -- A new child of an array, and the array with its next index.
  abbrev add_to_array : (Heap → Value × Heap) → Array → M (Value × Array)
  add_to_array op parent = do
    child ← lift (fetch e op)
    parent' ← set_in_array parent child
    pure (child, parent')

  abbrev add_to_object : (Heap → Value × Heap) → Text → Value → M Value
  add_to_object op name parent = do
    child ← lift (fetch e op)
    set_in_object parent name child
    pure child

  abbrev pub empty_array : Value → Array
  empty_array v = record { val = v; length = 0 }

  pub add_array_to_array : Array → M (Array × Array)
  unfolding set_in_array
  add_array_to_array parent = do q ← add_to_array new_array parent; pure (empty_array q.0, q.1)

  pub add_array_to_object : Text → Value → M Array
  unfolding set_in_object
  add_array_to_object name parent = do
    child ← add_to_object new_array name parent
    pure (empty_array child)

  pub add_object_to_array : Array → M (Value × Array)
  unfolding set_in_array
  add_object_to_array parent = add_to_array new_object parent

  pub add_object_to_object : Text → Value → M Value
  unfolding set_in_object
  add_object_to_object name parent = add_to_object new_object name parent

  pub add_value_to_array : Basic → Array → M (Value × Array)
  unfolding set_in_array from_basic_type
  add_value_to_array b parent = add_to_array (from_basic_type b) parent

  pub add_value_to_object : Text → Basic → Value → M Value
  unfolding set_in_object from_basic_type
  add_value_to_object name b parent = add_to_object (from_basic_type b) name parent

  pub add_null_to_array : Array → M (Value × Array)
  unfolding set_in_array
  add_null_to_array parent = do parent' ← set_in_array parent null; pure (null, parent')

  pub add_null_to_object : Text → Value → M Value
  unfolding set_in_object
  add_null_to_object name parent = do set_in_object parent name null; pure null

  -- What the parser does with the root: it makes one of the four kinds, and then fills it.
  pub data Root : Type 0 where
    array_root : (Array → M (Unit {0})) → Root
    object_root : (Value → M (Unit {0})) → Root
    null_root : Root
    value_root : Basic → Root

  unfoldable pub write_root : Root → M (Unit {0})
  unfolding array_as_root object_as_root null_as_root value_as_root
  write_root (array_root fill) = array_as_root >>= fill
  write_root (object_root fill) = object_as_root >>= fill
  write_root null_root = do v ← null_as_root; pure tt
  write_root (value_root b) = do v ← value_as_root b; pure tt

  abbrev root_or_error : Result (Unit {0}) × Writer → Result Value × World e
  root_or_error (ok u, s) = (ok s.root, s.world)
  root_or_error (error what, s) = (error what, s.world)

  -- `rpcpp::qjs::write`
  unfoldable pub write : Root → World e → Result Value × World e
  unfolding write_root
  write r w = root_or_error (write_root r (record { world = w; root = undefined }))
