-- ===== src/QuickJs/Shapes/Write/Rooted.antt =====
-- What `rpcpp::qjs::write` (src/qjs/Writer.hpp) returns for a tree stands for that tree.
use rpcpp.Base.{refl, none, some, arith, inr}
use rpcpp.QuickJs.{Engine, World, fetch}
use rpcpp.QuickJs.Laws.{View, Laws, Change-refl}
use rpcpp.QuickJs.Writer.{
  Basic, string, bytes, boolean, floating, integral, empty_array, value_root,
}
use rpcpp.QuickJs.Writer.Runs.{weaken}
use rpcpp.QuickJs.Writer.Adding.{Stands, Fine, from_basic_type-Stands}
use rpcpp.QuickJs.Writer.Ownership.{rooted}
use rpcpp.QuickJs.Writer.Roots.{Returns, array-Returns, object-Returns, null-Returns, value-Returns}
use rpcpp.QuickJs.Shapes.{
  Shape, a_string, a_bytestring, a_boolean, a_double, an_integer, an_optional, a_vector, a_map,
  a_struct, El, Fits,
}
use rpcpp.QuickJs.Shapes.Write.{root_of, write_in, write_members, fill}
use rpcpp.QuickJs.Shapes.Represents.{Rep}
use rpcpp.QuickJs.Shapes.Write.Filling.{new_array_since, new_object_since}
use rpcpp.QuickJs.Shapes.Write.{write_at, fill_map}
use rpcpp.QuickJs.Shapes.Write.Maps.{fill_map-Runs, entries-Rep}
use rpcpp.QuickJs.Shapes.Write.Vectors.{fill-Runs}
use rpcpp.QuickJs.Shapes.Write.Structs.{empty-Open, Filled-Rep, members-Rep}
use rpcpp.QuickJs.Shapes.Write.Written.{write_in-Runs, write_at-Runs, write_members-Runs}

module _ (e : Engine) (w : View e) (laws : Laws e w) where
  open e use {Value, Heap}
  open w use {made}

  value-Rep :
      (b : Basic e) (s : Shape) (x : El e s) (wo : World e)
      → Fine e w laws b
      → ((v : Value) (h : Heap) → Stands e w laws b v h → Rep e w (made wo.heap) s x v h)
      → Returns e (value_root b) wo (Rep e w (made wo.heap) s x)
  value-Rep b s x wo fine rep =
      value-Returns e b wo (Rep e w (made wo.heap) s x)
        (rep _ _ (from_basic_type-Stands e w laws b wo.heap fine).1)

  pub write-Rep :
      (s : Shape) (x : El e s) (wo : World e)
      → Fits e s x
      → Returns e (root_of e s x) wo (Rep e w (made wo.heap) s x)
  unfolding root_of fetch
  write-Rep a_string x wo fits = value-Rep (string x) a_string x wo tt (λ v h q. q)
  write-Rep a_bytestring x wo fits = value-Rep (bytes x) a_bytestring x wo tt (λ v h q. q)
  write-Rep a_boolean x wo fits = value-Rep (boolean x) a_boolean x wo tt (λ v h q. q)
  write-Rep a_double x wo fits = value-Rep (floating x) a_double x wo tt (λ v h q. q)
  write-Rep (an_integer t) n wo fits =
      value-Rep (integral t n) (an_integer t) n wo fits.1 (λ v h q. q)
  write-Rep (an_optional s) none wo fits =
      null-Returns e wo (Rep e w (made wo.heap) (an_optional s) none) laws.null_law
  write-Rep (an_optional s) (some x) wo fits = write-Rep s x wo fits.1
  write-Rep (a_vector s) xs wo fits =
      let h = wo.heap in
      let (v, h1) = e.new_array h in
      let new =
        new_array_since e w laws (made h1) v h h1 (inr (omega arith)) refl
          (Change-refl e w laws (made h1) h1) in
      let empty = empty-Open e w laws (empty_array e v) h h1 refl new in
      array-Returns e (fill e (write_in e s) xs) wo (Rep e w (made h) (a_vector s) xs) (
        weaken e
          (fill-Runs e w laws s (write_in-Runs e w laws s) xs (empty_array e v)
            (rooted e e.new_array wo) fits.1 empty.0 (omega (arith, empty.1, fits.0)))
          λ u h2 filled.
            Filled-Rep e w laws s xs v h h1 h2 (laws.new_array_law h).0.0.grows new filled)
  write-Rep (a_map s) xs wo fits =
      let h = wo.heap in
      let (v, h1) = e.new_object h in
      let new =
        new_object_since e w laws (made h1) v h h1 (inr (omega arith)) refl
          (Change-refl e w laws (made h1) h1) in
      object-Returns e (fill_map e (write_at e s) xs) wo (Rep e w (made h) (a_map s) xs) (
        weaken e
          (fill_map-Runs e w laws s (write_at-Runs e w laws s) xs v (rooted e e.new_object wo)
            fits.0 fits.1 (new.3, new.4, new.1) new.6)
          λ u h2 filled.
            entries-Rep e w laws s xs v h h1 h2 (laws.new_object_law h).0.0.grows new filled)
  write-Rep (a_struct ms) x wo fits =
      let h = wo.heap in
      let (v, h1) = e.new_object h in
      let new =
        new_object_since e w laws (made h1) v h h1 (inr (omega arith)) refl
          (Change-refl e w laws (made h1) h1) in
      object-Returns e (write_members e ms x) wo (Rep e w (made h) (a_struct ms) x) (
        weaken e
          (write_members-Runs e w laws ms x v (rooted e e.new_object wo) fits (new.3, new.4, new.1))
          λ u h2 filled.
            members-Rep e w laws ms x v h h1 h2 (laws.new_object_law h).0.0.grows new filled)
