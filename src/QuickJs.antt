-- ===== src/QuickJs.antt =====
-- The QuickJS bridge of src/qjs: the engine, and the references that the bridge holds on its values.
--
-- QuickJS is not part of the repository, so an `Engine` is a parameter: its values, its heap, and the
-- functions of its C API that the bridge calls, each under the name of what it does. A function that may
-- fail returns `none`, or `false` for a negative status; one that returns a `JSValue` may return the
-- exception value, which `is_exception` tells.
--
-- A `World` is the heap with a record of the references: `begun` has every reference that a call has given
-- to the bridge, and `ended` every one that the bridge has given up, by freeing it or by a call that takes
-- it over. `JS_FreeValue` does nothing on a value without a reference count, and no such value is recorded.
pub mod Integers
pub mod Reader
pub mod Writer
pub mod Laws
pub mod Shapes
use rpcpp.Base.{
  ℕ, ℤ, ◌+◌, ◌≡◌, Text, Bool, true, false, Option, List, [], ◌∷◌, ◌++◌, if◌then◌else◌, arith, tally,
  tally-append, ◌==◌,
}
use rpcpp.Framer.{Bytes}

-- What a C function sees of a string: the characters before the first null character.
unfoldable pub c_str : Text → Text
c_str [] = []
c_str (c ∷ cs) = if c == 0 then [] else (c ∷ c_str cs)

pub record Engine : Type 1 where
  pub Value : Type 0
  pub Heap : Type 0
  pub Atom : Type 0
  pub Double : Type 0
  -- the constants `JS_NULL` and `JS_UNDEFINED`
  pub null : Value
  pub undefined : Value
  -- what the value's tag or class says
  pub has_ref_count : Value → Bool
  pub is_exception : Value → Bool
  pub is_undefined : Value → Bool
  pub is_null : Value → Bool
  pub is_string : Value → Bool
  pub is_bool : Value → Bool
  pub is_number : Value → Bool
  pub is_array : Value → Bool
  pub is_object : Value → Bool
  pub is_array_buffer : Value → Bool
  pub to_bool : Value → Bool
  -- `JS_GetPropertyUint32`, `JS_GetPropertyStr`, `JS_GetProperty`, `JS_GetException`: one reference each
  pub get_index : Value → ℕ → Heap → Value × Heap
  pub get_named : Value → Text → Heap → Value × Heap
  pub get_atom : Value → Atom → Heap → Value × Heap
  pub get_exception : Heap → Value × Heap
  -- `JS_GetLength`, `JS_GetOwnPropertyNames`, `JS_AtomToCString`, `JS_ToCStringLen`
  pub get_length : Value → Heap → Option ℕ × Heap
  pub own_names : Value → Heap → Option (List Atom) × Heap
  pub atom_text : Atom → Heap → Option Text × Heap
  pub to_text : Value → Heap → Option Text × Heap
  -- `JS_GetArrayBuffer`, `JS_GetUint8Array`: the bytes stay the value's own
  pub array_buffer : Value → Heap → Option Bytes × Heap
  pub uint8_array : Value → Heap → Option Bytes × Heap
  pub to_float64 : Value → Heap → Double × Heap
  pub to_int64 : Value → Heap → ℤ × Heap
  -- the `JS_New…` functions: one reference each
  pub new_array : Heap → Value × Heap
  pub new_object : Heap → Value × Heap
  pub new_text : Text → Heap → Value × Heap
  pub new_bytes : Bytes → Heap → Value × Heap
  pub new_bool : Bool → Heap → Value × Heap
  pub new_float64 : Double → Heap → Value × Heap
  pub new_int64 : ℤ → Heap → Value × Heap
  -- `JS_SetPropertyUint32`, `JS_SetPropertyStr`: they take the child over, also when they fail
  pub set_index : Value → ℕ → Value → Heap → Bool × Heap
  pub set_named : Value → Text → Value → Heap → Bool × Heap
  -- `JS_FreeValue`, `JS_FreeCString`, `JS_FreePropertyEnum`
  pub free_value : Value → Heap → Heap
  pub free_text : Text → Heap → Heap
  pub free_names : List Atom → Heap → Heap

module _ (e : Engine) where
  open e use {Value, Heap, Atom, has_ref_count, free_value, free_text, free_names}

  -- What the bridge can hold: a counted value, a C string, a table of property names.
  pub data Ref : Type 0 where
    value : Value → Ref
    string : Text → Ref
    names : List Atom → Ref

  pub record World : Type 0 where
    pub heap : Heap
    pub begun : List Ref
    pub ended : List Ref

  abbrev pub refs_of : Value → List Ref
  refs_of v = if has_ref_count v then value v ∷ [] else []

  abbrev pub begin : List Ref → World → World
  begin rs w = record w { begun = rs ++ w.begun }

  abbrev pub end : List Ref → World → World
  end rs w = record w { ended = rs ++ w.ended }

  -- A call that gives the bridge a reference on the value that it returns.
  pub fetch : (Heap → Value × Heap) → World → Value × World
  fetch op w = let (v, h) = op w.heap in (v, begin (refs_of v) (record w { heap = h }))

  -- A call that gives no reference.
  pub query : {A : Type 0} → (Heap → A × Heap) → World → A × World
  query op w = let (a, h) = op w.heap in (a, record w { heap = h })

  -- `JS_FreeValue`
  pub free : Value → World → World
  free v w = end (refs_of v) (record w { heap = free_value v w.heap })

  -- A call that takes over a reference on `v`.
  pub give : Value → (Heap → Bool × Heap) → World → Bool × World
  give v op w = let (done, h) = op w.heap in (done, end (refs_of v) (record w { heap = h }))

  -- The references that are still held are those of the list, each as often as it stands there: whatever
  -- one counts by, as many were begun as are in the list or have ended.
  abbrev pub Holds : List Ref → World → Type 0
  Holds held w = (p : Ref → Bool) → tally p w.begun ≡ tally p held + tally p w.ended

  pub begin-Holds :
      (rs held : List Ref) (w : World) → Holds held w → Holds (rs ++ held) (begin rs w)
  begin-Holds rs held w h p = omega (arith, h p, tally-append p rs w.begun, tally-append p rs held)

  pub end-Holds : (rs held : List Ref) (w : World) → Holds (rs ++ held) w → Holds held (end rs w)
  end-Holds rs held w h p = omega (arith, h p, tally-append p rs w.ended, tally-append p rs held)

  pub fetch-Holds :
      (op : Heap → Value × Heap) (held : List Ref) (w : World)
      → Holds held w
      → Holds (refs_of (fetch op w).0 ++ held) (fetch op w).1
  unfolding fetch
  fetch-Holds op held w h = begin-Holds (refs_of (op w.heap).0) held w h

  pub free-Holds :
      (v : Value) (held : List Ref) (w : World)
      → Holds (refs_of v ++ held) w
      → Holds held (free v w)
  unfolding free
  free-Holds v held w h = end-Holds (refs_of v) held w h

  pub give-Holds :
      (v : Value) (op : Heap → Bool × Heap) (held : List Ref) (w : World)
      → Holds (refs_of v ++ held) w
      → Holds held (give v op w).1
  unfolding give
  give-Holds v op held w h = end-Holds (refs_of v) held w h
