-- ===== src/QuickJs/Shapes/Write.antt =====
-- A client of src/qjs/Writer.hpp: the calls of its methods, depth first, that make a given tree. These are calls
-- that a client can make; which ones the parser of reflect-cpp makes for a C++ type is not said.
pub mod Filling
pub mod Vectors
pub mod Maps
pub mod Structs
pub mod Rooted
pub mod Building
pub mod Written
use rpcpp.Base.{Text, Option, none, some, List, [], ◌∷◌}
use rpcpp.QuickJs.{Engine}
use rpcpp.QuickJs.Integers.{IntType}
use rpcpp.QuickJs.Writer
use rpcpp.QuickJs.Writer.{
  M, pure, Array, Basic, string, bytes, boolean, floating, integral, Root, array_root, object_root,
  null_root, value_root, add_array_to_array, add_array_to_object, add_object_to_array,
  add_object_to_object, add_value_to_array, add_value_to_object, add_null_to_array,
  add_null_to_object,
}
use rpcpp.QuickJs.Shapes.{
  Shape, Members, a_string, a_bytestring, a_boolean, a_double, an_integer, an_optional, a_vector,
  a_map, a_struct, no_members, member, El, Els,
}

module _ (e : Engine) where
  open e use {Value}

  infixl 5 ◌>>=◌ ◌>>◌
  abbrev ◌>>=◌ : {A B : Type 0} → M e A → (A → M e B) → M e B
  m >>= f = Writer.◌>>=◌ e m f

  abbrev ◌>>◌ : {B : Type 0} → M e (Unit {0}) → M e B → M e B
  m >> n = m >>= λ _. n

  -- A simple value as an element or a field.
  abbrev pub value_in : Basic e → Array e → M e (Array e)
  value_in b a = do q ← add_value_to_array e b a; pure e q.1

  abbrev pub value_at : Basic e → Text → Value → M e (Unit {0})
  value_at b n obj = do v ← add_value_to_object e n b obj; pure e tt

  pub fill : {X : Type 0} → (X → Array e → M e (Array e)) → List X → Array e → M e (Unit {0})
  fill add [] a = pure e tt
  fill add (x ∷ xs) a = do a' ← add x a; fill add xs a'

  pub fill_map :
      {X : Type 0} → (X → Text → Value → M e (Unit {0})) → List (Text × X) → Value → M e (Unit {0})
  fill_map add [] obj = pure e tt
  fill_map add ((k, x) ∷ xs) obj = do add x k obj; fill_map add xs obj

  abbrev pub null_or : {X : Type 0} {A : Type 0} → M e A → (X → M e A) → Option X → M e A
  null_or nothing add none = nothing
  null_or nothing add (some x) = add x

  abbrev pub null_in : Array e → M e (Array e)
  null_in a = do q ← add_null_to_array e a; pure e q.1

  abbrev pub null_at : Text → Value → M e (Unit {0})
  null_at n obj = do v ← add_null_to_object e n obj; pure e tt

  mutual
    unfolding fill fill_map

    pub write_in : (s : Shape) → El e s → Array e → M e (Array e)
    write_in a_string x a = value_in (string x) a
    write_in a_bytestring x a = value_in (bytes x) a
    write_in a_boolean x a = value_in (boolean x) a
    write_in a_double x a = value_in (floating x) a
    write_in (an_integer t) n a = value_in (integral t n) a
    write_in (an_optional s) x a = null_or (null_in a) (λ y. write_in s y a) x
    write_in (a_vector s) xs a = do q ← add_array_to_array e a; fill (write_in s) xs q.0; pure e q.1
    write_in (a_map s) xs a = do
      q ← add_object_to_array e a
      fill_map (write_at s) xs q.0
      pure e q.1
    write_in (a_struct ms) x a = do q ← add_object_to_array e a; write_members ms x q.0; pure e q.1

    pub write_at : (s : Shape) → El e s → Text → Value → M e (Unit {0})
    write_at a_string x n obj = value_at (string x) n obj
    write_at a_bytestring x n obj = value_at (bytes x) n obj
    write_at a_boolean x n obj = value_at (boolean x) n obj
    write_at a_double x n obj = value_at (floating x) n obj
    write_at (an_integer t) i n obj = value_at (integral t i) n obj
    write_at (an_optional s) x n obj = null_or (null_at n obj) (λ y. write_at s y n obj) x
    write_at (a_vector s) xs n obj = do a ← add_array_to_object e n obj; fill (write_in s) xs a
    write_at (a_map s) xs n obj = do o ← add_object_to_object e n obj; fill_map (write_at s) xs o
    write_at (a_struct ms) x n obj = do o ← add_object_to_object e n obj; write_members ms x o

    pub write_members : (ms : Members) → Els e ms → Value → M e (Unit {0})
    write_members no_members x obj = pure e tt
    write_members (member n s ms) x obj = do write_at s x.0 n obj; write_members ms x.1 obj

  abbrev root_or : {X : Type 0} → (X → Root e) → Option X → Root e
  root_or root none = null_root
  root_or root (some x) = root x

  -- The root of a tree.
  pub root_of : (s : Shape) → El e s → Root e
  unfolding fill fill_map write_in
  root_of a_string x = value_root (string x)
  root_of a_bytestring x = value_root (bytes x)
  root_of a_boolean x = value_root (boolean x)
  root_of a_double x = value_root (floating x)
  root_of (an_integer t) n = value_root (integral t n)
  root_of (an_optional s) x = root_or (root_of s) x
  root_of (a_vector s) xs = array_root (fill (write_in s) xs)
  root_of (a_map s) xs = object_root (fill_map (write_at s) xs)
  root_of (a_struct ms) x = object_root (write_members ms x)
