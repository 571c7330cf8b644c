-- ===== src/QuickJs/Shapes/Write/Building.antt =====
-- The calls that make a tree are calls of the methods of src/qjs/Writer.hpp alone.
use rpcpp.Base.{Text, none, some, List, [], ◌∷◌}
use rpcpp.QuickJs.{Engine}
use rpcpp.QuickJs.Writer.{Array, M, Basic, string, bytes, boolean, floating, integral}
use rpcpp.QuickJs.Writer.Ownership.{
  Builds, returns, bind, array_to_array, array_to_object, object_to_array, object_to_object,
  value_to_array, value_to_object, null_to_array, null_to_object, BuildsRoot,
}
use rpcpp.QuickJs.Shapes.{
  Shape, Members, a_string, a_bytestring, a_boolean, a_double, an_integer, an_optional, a_vector,
  a_map, a_struct, no_members, member, El, Els,
}
use rpcpp.QuickJs.Shapes.Write.{
  value_in, value_at, fill, fill_map, write_in, write_at, write_members, root_of,
}

module _ (e : Engine) where
  open e use {Value}

  value_in-Builds : (b : Basic e) (a : Array e) → Builds e (Array e) (value_in e b a)
  value_in-Builds b a = bind _ _ _ _ (value_to_array b a) λ q. returns _ q.1

  value_at-Builds : (b : Basic e) (n : Text) (v : Value) → Builds e (Unit {0}) (value_at e b n v)
  value_at-Builds b n v = bind _ _ _ _ (value_to_object n b v) λ c. returns _ tt

  fill-Builds :
      {X : Type 0} (add : X → Array e → M e (Array e))
      → ((x : X) (a : Array e) → Builds e (Array e) (add x a))
      → (xs : List X) (a : Array e) → Builds e (Unit {0}) (fill e add xs a)
  unfolding fill
  fill-Builds add builds [] a = returns _ tt
  fill-Builds add builds (x ∷ xs) a =
      bind _ _ (add x a) (fill e add xs) (builds x a) λ a'. fill-Builds add builds xs a'

  fill_map-Builds :
      {X : Type 0} (add : X → Text → Value → M e (Unit {0}))
      → ((x : X) (n : Text) (v : Value) → Builds e (Unit {0}) (add x n v))
      → (xs : List (Text × X)) (v : Value) → Builds e (Unit {0}) (fill_map e add xs v)
  unfolding fill_map
  fill_map-Builds add builds [] v = returns _ tt
  fill_map-Builds add builds ((k, x) ∷ xs) v =
      bind _ _ (add x k v) _ (builds x k v) λ u. fill_map-Builds add builds xs v

  mutual
    unfolding write_in

    write_in-Builds : (s : Shape) (x : El e s) (a : Array e) → Builds e (Array e) (write_in e s x a)
    write_in-Builds a_string x a = value_in-Builds (string x) a
    write_in-Builds a_bytestring x a = value_in-Builds (bytes x) a
    write_in-Builds a_boolean x a = value_in-Builds (boolean x) a
    write_in-Builds a_double x a = value_in-Builds (floating x) a
    write_in-Builds (an_integer t) n a = value_in-Builds (integral t n) a
    write_in-Builds (an_optional s) none a = bind _ _ _ _ (null_to_array a) λ q. returns _ q.1
    write_in-Builds (an_optional s) (some x) a = write_in-Builds s x a
    write_in-Builds (a_vector s) xs a = bind _ _ _ _ (array_to_array a) λ q.
        bind _ _ (fill e (write_in e s) xs q.0) _
          (fill-Builds (write_in e s) (write_in-Builds s) xs q.0) λ u. returns _ q.1
    write_in-Builds (a_map s) xs a = bind _ _ _ _ (object_to_array a) λ q.
        bind _ _ (fill_map e (write_at e s) xs q.0) _
          (fill_map-Builds (write_at e s) (write_at-Builds s) xs q.0) λ u. returns _ q.1
    write_in-Builds (a_struct ms) x a = bind _ _ _ _ (object_to_array a) λ q.
        bind _ _ (write_members e ms x q.0) _ (write_members-Builds ms x q.0) λ u. returns _ q.1

    write_at-Builds :
        (s : Shape) (x : El e s) (n : Text) (v : Value) → Builds e (Unit {0}) (write_at e s x n v)
    write_at-Builds a_string x n v = value_at-Builds (string x) n v
    write_at-Builds a_bytestring x n v = value_at-Builds (bytes x) n v
    write_at-Builds a_boolean x n v = value_at-Builds (boolean x) n v
    write_at-Builds a_double x n v = value_at-Builds (floating x) n v
    write_at-Builds (an_integer t) i n v = value_at-Builds (integral t i) n v
    write_at-Builds (an_optional s) none n v = bind _ _ _ _ (null_to_object n v) λ c. returns _ tt
    write_at-Builds (an_optional s) (some x) n v = write_at-Builds s x n v
    write_at-Builds (a_vector s) xs n v =
        bind _ _ _ (fill e (write_in e s) xs) (array_to_object n v)
          λ a. fill-Builds (write_in e s) (write_in-Builds s) xs a
    write_at-Builds (a_map s) xs n v =
        bind _ _ _ (fill_map e (write_at e s) xs) (object_to_object n v)
          λ c. fill_map-Builds (write_at e s) (write_at-Builds s) xs c
    write_at-Builds (a_struct ms) x n v =
        bind _ _ _ (write_members e ms x) (object_to_object n v) λ c. write_members-Builds ms x c

    write_members-Builds :
        (ms : Members) (x : Els e ms) (v : Value) → Builds e (Unit {0}) (write_members e ms x v)
    write_members-Builds no_members x v = returns _ tt
    write_members-Builds (member n s ms) x v =
        bind _ _ (write_at e s x.0 n v) _ (write_at-Builds s x.0 n v)
          λ u. write_members-Builds ms x.1 v

  pub root_of-BuildsRoot : (s : Shape) (x : El e s) → BuildsRoot e (root_of e s x)
  unfolding root_of
  root_of-BuildsRoot a_string x = tt
  root_of-BuildsRoot a_bytestring x = tt
  root_of-BuildsRoot a_boolean x = tt
  root_of-BuildsRoot a_double x = tt
  root_of-BuildsRoot (an_integer t) n = tt
  root_of-BuildsRoot (an_optional s) none = tt
  root_of-BuildsRoot (an_optional s) (some x) = root_of-BuildsRoot s x
  root_of-BuildsRoot (a_vector s) xs = λ a. fill-Builds (write_in e s) (write_in-Builds s) xs a
  root_of-BuildsRoot (a_map s) xs = λ v. fill_map-Builds (write_at e s) (write_at-Builds s) xs v
  root_of-BuildsRoot (a_struct ms) x = λ v. write_members-Builds ms x v
